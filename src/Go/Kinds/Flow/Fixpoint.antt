-- ===== src/Go/Kinds/Flow/Fixpoint.antt =====
-- `propagate` ends with the least kinds above those that it starts with for which every edge goes
-- up.
use inty.Common.{
  ℕ, zero, suc, ◌+◌, ◌≤◌, ◌<◌, ◌≡◌, refl, sym, ◌∙◌, subst, inl, inr, ◌⊎◌, true, some, List, [], ◌∷◌,
  ◌==◌, ==→eq, arith, Bool-cases, Option-cases, length, get_elem?, ap,
}
use inty.Common.Distinct.{contains}
use inty.Go.Kinds.{Kind}
use inty.Go.Kinds.Flow.{propagate, rounds}
use inty.Go.Kinds.Flow.Step.{
  rank_at, slack, slack-le, no_cell, rank_at-some, Raised, Below, RaisedTo, raise_each-RaisedTo,
}

-- There is an edge from `a` to `b`.
abbrev pub IsEdge : List (List ℕ) → ℕ → ℕ → Type 0
IsEdge out a b = (bs : List ℕ) × (get_elem? out a ≡ some bs) × (contains bs b ≡ true)

pub edge-contains :
    (out : List (List ℕ)) (a b : ℕ) (bs : List ℕ)
    → get_elem? out a ≡ some bs
    → IsEdge out a b
    → contains bs b ≡ true
edge-contains out a b bs e (cs, f, g) =
    let same : cs ≡ bs = cc (e, f) in subst (λ ds. contains ds b ≡ true) same g

-- The edges join places that there are.
pub record IsGraph (out : List (List ℕ)) (n : ℕ) : Type 0 where
  pub same_length : length out ≡ n
  pub targets : (a b : ℕ) → IsEdge out a b → b < n

-- Every edge goes up.
abbrev pub IsSolution : List (List ℕ) → (ℕ → ℕ) → Type 0
IsSolution out u = (a b : ℕ) → IsEdge out a b → u a ≤ u b

-- Every edge that does not go up leaves a place on the work list.
abbrev pub IsCovered : List (List ℕ) → List Kind → List ℕ → Type 0
IsCovered out kind work =
    (a b : ℕ) → IsEdge out a b → (rank_at kind a ≤ rank_at kind b) ⊎ (contains work a ≡ true)

-- The least solution above `kind`.
pub record IsLeast (out : List (List ℕ)) (kind kind' : List Kind) : Type 0 where
  pub same_length : length kind' ≡ length kind
  pub above : Below kind (rank_at kind')
  pub solution : IsSolution out (rank_at kind')
  pub least : (u : ℕ → ℕ) → IsSolution out u → Below kind u → Below kind' u

module _ (out : List (List ℕ)) where
  -- A round takes `a` off the list and raises what it has edges to.
  round-IsCovered :
      (kind kind' : List Kind) (work work' : List ℕ) (a : ℕ) (k : Kind) (bs : List ℕ)
      → get_elem? kind a ≡ some k
      → get_elem? out a ≡ some bs
      → RaisedTo k bs kind work kind' work'
      → IsCovered out kind (a ∷ work)
      → IsCovered out kind' work'
  round-IsCovered kind kind' work work' a k bs e f r h x y edge = elim (r.raised.cause x) [
    | inr again ↦ inr again
    | inl same ↦ elim (Bool-cases (a == x)) [
      | inl here ↦
          let eq = ==→eq a x here in
          let at_a = edge-contains out a y bs f (subst (λ j. IsEdge out j y) (sym eq) edge) in
          inl (omega (arith, same, ap (rank_at kind) eq, rank_at-some kind a k e, r.reached y at_a))
      | inr other ↦ elim (h x y edge) [
        | inl up ↦ inl (omega (arith, r.raised.grows y))
        | inr left ↦ inr (r.raised.stays x (ground arith))
      ]
    ]
  ]

  round-within :
      (kind kind' : List Kind) (work work' : List ℕ) (a : ℕ)
      → Raised kind work kind' work'
      → ((c : ℕ) → contains (a ∷ work) c ≡ true → c < length kind)
      → (c : ℕ) → contains work' c ≡ true
      → c < length kind'
  round-within kind kind' work work' a r h c g = elim (r.within c g) [
    | inl old ↦ subst (λ n. c < n) (sym r.same_length) (h c (ground arith))
    | inr lt ↦ subst (λ n. c < n) (sym r.same_length) lt
  ]

  round-IsLeast :
      (kind kind' kind'' : List Kind) (work work' : List ℕ) (a : ℕ) (k : Kind) (bs : List ℕ)
      → get_elem? kind a ≡ some k
      → get_elem? out a ≡ some bs
      → RaisedTo k bs kind work kind' work'
      → IsLeast out kind' kind''
      → IsLeast out kind kind''
  round-IsLeast kind kind' kind'' work work' a k bs e f r q = record {
    same_length = q.same_length ∙ r.raised.same_length;
    above = λ i. omega (arith, r.raised.grows i, q.above i);
    solution = q.solution;
    least = λ u up g.
        q.least u up
          (r.bounded u (λ b c. omega (arith, g a, rank_at-some kind a k e, up a b (bs, f, c))) g);
  }

  propagate-go :
      (f : ℕ) (kind : List Kind) (work : List ℕ)
      → IsGraph out (length kind)
      → ((a : ℕ) → contains work a ≡ true → a < length kind)
      → IsCovered out kind work
      → length work + slack kind < f
      → (kind' : List Kind) × (propagate out f kind work ≡ some kind') × IsLeast out kind kind'
  unfolding propagate
  propagate-go zero kind work graph within covered l = absurd (omega arith)
  propagate-go (suc f) kind [] graph within covered l = (
    kind,
    refl,
    record {
      same_length = refl;
      above = λ i. omega arith;
      solution = λ a b e. elim (covered a b e) [ inl up ↦ up | inr left ↦ cc ];
      least = λ u _ g. g;
    },
  )
  propagate-go (suc f) kind (a ∷ work) graph within covered l =
      elim (Option-cases (get_elem? kind a)) [
        | inl e ↦ absurd (no_cell kind a (within a (ground arith)) e)
        | inr (k, e) ↦ elim (Option-cases (get_elem? out a)) [
          | inl g ↦ absurd (
              no_cell out a (subst (λ n. a < n) (sym graph.same_length) (within a (ground arith)))
                g)
          | inr (bs, g) ↦
              let (kind1, work1, h, r) =
                raise_each-RaisedTo k bs kind work (λ b c. graph.targets a b (bs, g, c)) in
              let (kind2, m, least) =
                propagate-go f kind1 work1 (subst (IsGraph out) (sym r.raised.same_length) graph)
                  (round-within kind kind1 work work1 a r.raised within)
                  (round-IsCovered kind kind1 work work1 a k bs e g r covered)
                  (omega (arith, r.raised.measure)) in
              (
                kind2,
                rw (propagate, e, g, h) m,
                (round-IsLeast kind kind1 kind2 work work1 a k bs e g r least),
              )
        ]
      ]

  -- Within the rounds that `solve` allows, `propagate` ends: from a work list that leaves out no edge
  -- that does not go up, with the least kinds above its own for which every edge goes up.
  pub propagate-IsLeast :
      (kind : List Kind) (work : List ℕ)
      → IsGraph out (length kind)
      → ((a : ℕ) → contains work a ≡ true → a < length kind)
      → IsCovered out kind work
      → (kind' : List Kind) × (propagate out (rounds kind work) kind work ≡ some kind')
        × IsLeast out kind kind'
  propagate-IsLeast kind work graph within covered =
      propagate-go (rounds kind work) kind work graph within covered (omega (arith, slack-le kind))
