-- ===== src/Go/Kinds/Flow/Known.antt =====
-- `flow` leaves no place of unknown kind.
use inty.Common.{
  ℕ, ◌≤◌, ◌<◌, ◌≡◌, refl, sym, ◌∙◌, subst, inl, inr, true, false, some, List, [], ◌∷◌, ◌==◌, ==→eq,
  arith, Bool-cases, Option-cases, length, get_elem?, set, length-set,
}
use inty.Common.Distinct.{contains}
use inty.Go.Kinds.{Kind, unknown, int, float, rank}
use inty.Go.Kinds.Flow.{unknown_of, all_float, flow}
use inty.Go.Kinds.Flow.Step.{
  no_cell, rank_at, rank_at-some, rank_at-set_self, rank_at-set_ne, rank-le_2, Below,
}
use inty.Go.Kinds.Flow.Fixpoint.{IsEdge, IsGraph, IsSolution, IsCovered, IsLeast, propagate-IsLeast}

float-grows :
    (kind : List Kind) (r i : ℕ) → r < length kind → rank_at kind i ≤ rank_at (set kind r float) i
unfolding rank
float-grows kind r i lt = elim (Bool-cases (r == i)) [
  | inl same ↦ elim (Option-cases (get_elem? kind r)) [
    | inl e ↦ absurd (no_cell kind r lt e)
    | inr (k, e) ↦
        subst (λ j. rank_at kind j ≤ rank_at (set kind r float) j) (==→eq r i same)
          (omega (arith, rank_at-some kind r k e, rank_at-set_self kind r float lt, rank-le_2 k))
  ]
  | inr other ↦ omega (arith, rank_at-set_ne kind r i float (ground arith))
]

pub rank_int : rank int ≡ 1
unfolding rank
rank_int = refl

pub rank_float : rank float ≡ 2
unfolding rank
rank_float = refl

-- The places `rs` become floats, and no other changes.
record Floated (kind : List Kind) (rs : List ℕ) (kind' : List Kind) : Type 0 where
  same_length : length kind' ≡ length kind
  grows : (i : ℕ) → rank_at kind i ≤ rank_at kind' i
  there : (i : ℕ) → contains rs i ≡ true → 2 ≤ rank_at kind' i
  elsewhere : (i : ℕ) → contains rs i ≡ false → rank_at kind' i ≡ rank_at kind i

all_float-Floated :
    (kind : List Kind) (rs : List ℕ)
    → ((i : ℕ) → contains rs i ≡ true → i < length kind)
    → Floated kind rs (all_float kind rs)
unfolding rank
all_float-Floated kind [] h = record {
  same_length = refl;
  grows = λ i. omega arith;
  there = λ i e. cc;
  elsewhere = λ i e. refl;
}
all_float-Floated kind (r ∷ rs) h =
    let lt : r < length kind = h r (ground arith) in
    let rest =
      all_float-Floated (set kind r float) rs
        (λ i e. subst (λ n. i < n) (sym (length-set kind r float)) (h i (ground arith))) in
    record {
      same_length = rest.same_length ∙ length-set kind r float;
      grows = λ i. omega (arith, float-grows kind r i lt, rest.grows i);
      there = λ i e. elim (Bool-cases (r == i)) [
        | inl same ↦
            subst (λ j. 2 ≤ rank_at (all_float (set kind r float) rs) j) (==→eq r i same)
              (omega (arith, rest.grows r, rank_at-set_self kind r float lt))
        | inr other ↦ rest.there i (ground arith)
      ];
      elsewhere =
          λ i e. rest.elsewhere i (ground arith) ∙ rank_at-set_ne kind r i float (ground arith);
    }

contains-unknown_of :
    (kind : List Kind) (rs : List ℕ) (i : ℕ)
    → contains (unknown_of kind rs) i ≡ true
    → contains rs i ≡ true
contains-unknown_of kind [] i h = h
contains-unknown_of kind (r ∷ rs) i h = ground (arith, contains-unknown_of kind rs i)

unknown-contains :
    (kind : List Kind) (rs : List ℕ) (i : ℕ)
    → contains rs i ≡ true
    → get_elem? kind i ≡ some unknown
    → contains (unknown_of kind rs) i ≡ true
unknown-contains kind [] i h e = h
unknown-contains kind (r ∷ rs) i h e = elim (Bool-cases (r == i)) [
  | inl same ↦ rw (==→eq r i same, e) (ground arith)
  | inr other ↦ ground (arith, unknown-contains kind rs i)
]

-- A place of no known kind is one of the places that are made floats.
module _ (out : List (List ℕ)) (kind : List Kind) (roots : List ℕ)
    (graph : IsGraph out (length kind))
    (within : (a : ℕ) → contains roots a ≡ true → a < length kind)
    (solution : IsSolution out (rank_at kind)) where
  nothing-within : (a : ℕ) → contains (unknown_of kind roots) a ≡ true → a < length kind
  nothing-within a h = within a (contains-unknown_of kind roots a h)

  floated : Floated kind (unknown_of kind roots) (all_float kind (unknown_of kind roots))
  floated = all_float-Floated kind (unknown_of kind roots) nothing-within

  floated-IsCovered : IsCovered out (all_float kind (unknown_of kind roots)) (unknown_of kind roots)
  floated-IsCovered a b edge = elim (Bool-cases (contains (unknown_of kind roots) a)) [
    | inl there ↦ inr there
    | inr other ↦ inl (omega (arith, floated.elsewhere a other, solution a b edge, floated.grows b))
  ]

  floated-known :
      (r : ℕ) → contains roots r ≡ true → 1 ≤ rank_at (all_float kind (unknown_of kind roots)) r
  floated-known r h = elim (Option-cases (get_elem? kind r)) [
    | inl e ↦ absurd (no_cell kind r (within r h) e)
    | inr (k, e) ↦ known k e
  ]
    where
      known :
          (k : Kind)
          → get_elem? kind r ≡ some k
          → 1 ≤ rank_at (all_float kind (unknown_of kind roots)) r
      known unknown e = omega (arith, floated.there r (unknown-contains kind roots r h e))
      known int e = omega (arith, floated.grows r, rank_at-some kind r int e, rank_int)
      known float e = omega (arith, floated.grows r, rank_at-some kind r float e, rank_float)

-- `flow` ends, if its roots hold every place that an edge leaves: after the least kinds `kind1` above
-- its own, with the least ones above those in which the roots of unknown kind are floats. Then every
-- edge goes up, and no root is of unknown kind. No kind falls.
pub flow-IsLeast :
    (out : List (List ℕ)) (roots : List ℕ) (kind : List Kind)
    → IsGraph out (length kind)
    → ((a : ℕ) → contains roots a ≡ true → a < length kind)
    → ((a b : ℕ) → IsEdge out a b → contains roots a ≡ true)
    → (kind1 kind2 : List Kind) × (flow out roots kind ≡ some kind2)
      × IsLeast out kind kind1
      × IsLeast out (all_float kind1 (unknown_of kind1 roots)) kind2
      × ((r : ℕ) → contains roots r ≡ true → 1 ≤ rank_at kind2 r)
      × Below kind (rank_at kind2)
      × (length kind2 ≡ length kind)
unfolding flow
flow-IsLeast out roots kind graph within sources =
    let (kind1, e, q) =
      propagate-IsLeast out kind roots graph within (λ a b edge. inr (sources a b edge)) in
    let graph1 = subst (IsGraph out) (sym q.same_length) graph in
    let within1 : (a : ℕ) → contains roots a ≡ true → a < length kind1 =
      λ a h. subst (λ n. a < n) (sym q.same_length) (within a h) in
    let f = floated out kind1 roots graph1 within1 q.solution in
    let (kind2, d, p) =
      propagate-IsLeast out (all_float kind1 (unknown_of kind1 roots)) (unknown_of kind1 roots)
        (subst (IsGraph out) (sym f.same_length) graph1)
        (λ a h.
          subst (λ n. a < n) (sym f.same_length)
            (nothing-within out kind1 roots graph1 within1 q.solution a h))
        (floated-IsCovered out kind1 roots graph1 within1 q.solution) in
    (
      kind1,
      kind2,
      rw (flow, e) d,
      q,
      p,
      λ r h. omega (arith, p.above r, floated-known out kind1 roots graph1 within1 q.solution r h),
      λ i. omega (arith, q.above i, f.grows i, p.above i),
      p.same_length ∙ (f.same_length ∙ q.same_length),
    )
