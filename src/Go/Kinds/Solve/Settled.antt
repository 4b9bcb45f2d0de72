-- ===== src/Go/Kinds/Solve/Settled.antt =====
-- The loop over the parameters ends, with kinds that only rise and whose edges go up.
use inty.Common.{
  if◌then◌else◌, ◌&&◌, not, ℕ, zero, suc, ◌≤◌, ◌<◌, ◌≡◌, refl, sym, ◌∙◌, subst, inl, inr, Bool,
  true, false, some, List, [], ◌∷◌, arith, Bool-cases, Option-cases, length, get_elem?, set,
}
use inty.Common.Distinct.{contains}
use inty.Go.Kinds.{Kind, unknown, int, float}
use inty.Go.Kinds.Flow.Step.{
  rank_at, slack, no_cell, Raised, Raised-refl, Raised-trans, Raised-set, Below,
}
use inty.Go.Kinds.Flow.Fixpoint.{IsGraph, IsSolution, IsCovered, propagate-IsLeast}
use inty.Go.Kinds.Flow.Known.{rank_int, rank_float}
use inty.Go.Kinds.Solve.{float_params, is_int_kind, is_empty, settle}
use inty.Go.Kinds.Solve.Marked.{reaches_float-total}

and_left : (a b : Bool) → (a && b) ≡ true → a ≡ true
and_left false b h = h
and_left true b h = refl

-- A parameter that is made a float, or left.
one-Raised :
    (kind : List Kind) (floats : List ℕ) (r : ℕ) (k : Kind) (now : Bool)
    → get_elem? kind r ≡ some k
    → (now ≡ true → is_int_kind k ≡ true)
    → Raised kind floats
        (if now then set kind r float else kind)
        (if now then r ∷ floats else floats)
one-Raised kind floats r k false e h = Raised-refl kind floats
one-Raised kind floats r unknown true e h = absurd (cc (h refl))
one-Raised kind floats r int true e h =
    Raised-set kind floats r int float e (omega (arith, rank_int, rank_float))
one-Raised kind floats r float true e h = absurd (cc (h refl))

float_params-Raised :
    (params : List ℕ) (needed to_float : List Bool) (kind : List Kind) (floats : List ℕ)
    → length needed ≡ length kind
    → length to_float ≡ length kind
    → ((r : ℕ) → contains params r ≡ true → r < length kind)
    → (kind' : List Kind) × (floats' : List ℕ) × (float_params params needed to_float kind floats
        ≡ some (kind', floats'))
      × Raised kind floats kind' floats'
unfolding float_params
float_params-Raised [] needed to_float kind floats ln lt h =
    (kind, floats, refl, Raised-refl kind floats)
float_params-Raised (r ∷ params) needed to_float kind floats ln lt h =
    let here : r < length kind = h r (ground arith) in
    elim (Option-cases (get_elem? kind r)) [
      | inl e ↦ absurd (no_cell kind r here e)
      | inr (k, e) ↦ elim (Option-cases (get_elem? needed r)) [
        | inl f ↦ absurd (no_cell needed r (omega (arith, ln)) f)
        | inr (n, f) ↦ elim (Option-cases (get_elem? to_float r)) [
          | inl g ↦ absurd (no_cell to_float r (omega (arith, lt)) g)
          | inr (t, g) ↦
              let now = is_int_kind k && (not n && t) in
              let once = one-Raised kind floats r k now e (and_left (is_int_kind k) (not n && t)) in
              let (kind', floats', d, rest) =
                float_params-Raised params needed to_float (if now then set kind r float else kind)
                  (if now then r ∷ floats else floats) (ln ∙ sym once.same_length)
                  (lt ∙ sym once.same_length)
                  (λ c i. subst (λ m. c < m) (sym once.same_length) (h c (ground arith))) in
              (kind', floats', rw (float_params, e, f, g) d, Raised-trans once rest)
        ]
      ]
    ]

is_empty-contains : (xs : List ℕ) (a : ℕ) → is_empty xs ≡ true → contains xs a ≡ true → ⊥
is_empty-contains [] a e h = cc
is_empty-contains (_ ∷ _) a e h = cc

is_empty-length : (xs : List ℕ) → is_empty xs ≡ false → 1 ≤ length xs
is_empty-length [] e = cc
is_empty-length (_ ∷ xs) e = omega arith

slack-Below :
    (kind kind' : List Kind)
    → length kind' ≡ length kind
    → Below kind (rank_at kind')
    → slack kind' ≤ slack kind
unfolding slack rank_at
slack-Below [] [] l h = omega arith
slack-Below [] (_ ∷ _) l h = absurd (omega arith)
slack-Below (_ ∷ _) [] l h = absurd (omega arith)
slack-Below (k ∷ kind) (k' ∷ kind') l h =
    omega (arith, h 0, slack-Below kind kind' (omega arith) (λ i. h (suc i)))

-- Kinds that have only risen, and whose edges go up.
pub record Settled (out : List (List ℕ)) (kind kind' : List Kind) : Type 0 where
  pub same_length : length kind' ≡ length kind
  pub above : Below kind (rank_at kind')
  pub solution : IsSolution out (rank_at kind')

module _ (out back : List (List ℕ)) (params : List ℕ) (needed : List Bool) where
  -- What the loop wants of its kinds.
  pub record Ready (kind : List Kind) : Type 0 where
    pub graph : IsGraph out (length kind)
    pub back_graph : IsGraph back (length kind)
    pub same_needed : length needed ≡ length kind
    pub within : (r : ℕ) → contains params r ≡ true → r < length kind
    pub solution : IsSolution out (rank_at kind)

  Ready-of :
      {kind kind' : List Kind}
      → Ready kind
      → length kind' ≡ length kind
      → IsSolution out (rank_at kind')
      → Ready kind'
  Ready-of r l h = record {
    graph = subst (IsGraph out) (sym l) r.graph;
    back_graph = subst (IsGraph back) (sym l) r.back_graph;
    same_needed = r.same_needed ∙ sym l;
    within = λ a g. subst (λ n. a < n) (sym l) (r.within a g);
    solution = h;
  }

  Raised-IsCovered :
      {kind kind1 : List Kind} {floats : List ℕ}
      → Ready kind
      → Raised kind [] kind1 floats
      → IsCovered out kind1 floats
  Raised-IsCovered ready r a b edge = elim (r.cause a) [
    | inl same ↦ inl (omega (arith, same, ready.solution a b edge, r.grows b))
    | inr there ↦ inr there
  ]

  Settled-trans :
      {kind kind' kind'' : List Kind}
      → length kind' ≡ length kind
      → Below kind (rank_at kind')
      → Settled out kind' kind''
      → Settled out kind kind''
  Settled-trans l h q = record {
    same_length = q.same_length ∙ l;
    above = λ i. omega (arith, h i, q.above i);
    solution = q.solution;
  }

  pub settle-Settled :
      (f : ℕ) (kind : List Kind)
      → Ready kind
      → slack kind < f
      → (kind' : List Kind) × (settle out back params needed f kind ≡ some kind')
        × Settled out kind kind'
  unfolding settle
  settle-Settled zero kind ready l = absurd (omega arith)
  settle-Settled (suc f) kind ready l =
      let (to_float, e, same) = reaches_float-total back kind ready.back_graph in
      let (kind1, floats, d, r) =
        float_params-Raised params needed to_float kind [] ready.same_needed same ready.within in
      elim (Bool-cases (is_empty floats)) [
        | inl done ↦ (
          kind1,
          rw (settle, e, d, done) refl,
          record {
            same_length = r.same_length;
            above = r.grows;
            solution = λ a b edge. elim (Raised-IsCovered ready r a b edge) [
              | inl up ↦ up
              | inr there ↦ absurd (is_empty-contains floats a done there)
            ];
          },
        )
        | inr more ↦
            let graph1 = subst (IsGraph out) (sym r.same_length) ready.graph in
            let (kind2, g, q) =
              propagate-IsLeast out kind1 floats graph1
                (λ a h. elim (r.within a h) [
                  | inl absent ↦ cc
                  | inr lt ↦ subst (λ n. a < n) (sym r.same_length) lt
                ])
                (Raised-IsCovered ready r) in
            let less = slack-Below kind1 kind2 q.same_length q.above in
            let (kind3, h, t) =
              settle-Settled f kind2 (Ready-of ready (q.same_length ∙ r.same_length) q.solution)
                (omega (arith, r.measure, less, is_empty-length floats more)) in
            (
              kind3,
              rw (settle, e, d, more, g) h,
              Settled-trans (q.same_length ∙ r.same_length)
                  (λ i. omega (arith, r.grows i, q.above i)) t,
            )
      ]
