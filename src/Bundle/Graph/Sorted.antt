-- ===== src/Bundle/Graph/Sorted.antt =====
-- On a graph without import cycles `dependency_order` puts each module behind all that it imports.
use inty.Common.{
  ℕ, zero, suc, ◌<◌, ◌≤◌, ◌≡◌, ap, subst, ◌⊎◌, inl, inr, true, false, ◌||◌, some, List, [], ◌∷◌,
  ◌++◌, arith, Bool-cases, Option-cases, length, All, All-map,
}
use mathlib.Core.Bool.{false≢true}
use inty.Common.Dict.{Eq, ◌=?◌, has, has-append, All-has, All-intro}
use inty.Bundle.Graph.{ModuleGraph, State, targets, visit_all, visit, dependency_order}
use inty.Bundle.Graph.Order.{Reach, AllIn, Visited, visit-Visited, visit_all-Visited}
use inty.Bundle.Graph.Fuel.{dependency_order-Reach}

module _ {K : Type 0} ⦃e : Eq K⦄ (g : ModuleGraph K) where
  -- Each node of the list comes behind its targets, which may also be among `earlier`.
  abbrev pub Sorted : List K → List K → Type 0
  Sorted earlier [] = Unit {0}
  Sorted earlier (x ∷ xs) = AllIn g earlier (targets g x) × Sorted (x ∷ earlier) xs

  -- A rank that falls along every import: there is no import cycle.
  abbrev pub IsAcyclic : (K → ℕ) → Type 0
  IsAcyclic rank = (a b : K) → has (targets g a) b ≡ true → rank b < rank a

  Sorted-snoc :
      (earlier xs : List K) (node : K)
      → Sorted earlier xs
      → All (λ d. (has earlier d || has xs d) ≡ true) (targets g node)
      → Sorted earlier (xs ++ node ∷ [])
  Sorted-snoc earlier [] node h k = (
    All-map (λ d. (has earlier d || false) ≡ true) (λ d. has earlier d ≡ true) (targets g node)
        (λ d i. ground arith) k,
    tt,
  )
  Sorted-snoc earlier (x ∷ xs) node h k = (
    h.0,
    Sorted-snoc (x ∷ earlier) xs node h.1 (
        All-map (λ d. (has earlier d || has (x ∷ xs) d) ≡ true)
          (λ d. (has (x ∷ earlier) d || has xs d) ≡ true) (targets g node) (λ d i. ground arith) k),
  )

  module _ (rank : K → ℕ) (acyclic : IsAcyclic rank) where
    -- Visited nodes that are not in the order yet are entered and not finished; they rank at least `r`.
    abbrev Grey : ℕ → State K → Type 0
    Grey r s = (x : K) → has s.0 x ≡ true → (has s.1 x ≡ true) ⊎ (r ≤ rank x)

    Grey-Visited : (r : ℕ) (ds : List K) (s t : State K) → Visited g ds s t → Grey r s → Grey r t
    Grey-Visited r ds s t v h x i = elim (Bool-cases (has s.0 x)) [
      | inl old ↦ elim (h x old) [
        | inl done ↦ inl (rw v.order (ground (arith, has-append s.1 v.added x)))
        | inr above ↦ inr above
      ]
      | inr new ↦ inl (rw v.order (ground (arith, has-append s.1 v.added x, v.marks x)))
    ]

    visit_all-Sorted :
        (k r : ℕ)
        → ((d : K) (s t : State K)
            → Grey (suc (rank d)) s
            → Sorted [] s.1
            → visit g k d s ≡ some t
            → Sorted [] t.1)
        → (ds : List K) (s t : State K) → All (λ d. rank d < r) ds
        → Grey r s
        → Sorted [] s.1
        → visit_all (visit g k) ds s ≡ some t
        → Sorted [] t.1
    unfolding visit_all
    visit_all-Sorted k r once [] s t low grey h run =
        let same : s.1 ≡ t.1 = ground arith in subst (Sorted []) same h
    visit_all-Sorted k r once (d ∷ ds) s u low grey h run = elim (Option-cases (visit g k d s)) [
      | inl fail ↦ absurd (ground arith)
      | inr (t, one) ↦
          let h' = once d s t (λ x i. grey_below x i) h one in
          visit_all-Sorted k r once ds t u low.1
            (Grey-Visited r (d ∷ []) s t (visit-Visited g k d s t one) grey) h' (ground arith)
    ]
      where
        grey_below : (x : K) → has s.0 x ≡ true → (has s.1 x ≡ true) ⊎ (suc (rank d) ≤ rank x)
        grey_below x i = elim (grey x i) [
          | inl done ↦ inl done
          | inr above ↦ inr (omega (arith, low.0))
        ]

    Grey-enter :
        (node : K) (s : State K) → Grey (suc (rank node)) s → Grey (rank node) (node ∷ s.0, s.1)
    Grey-enter node s grey x i = elim (Bool-cases (node =? x)) [
      | inl same ↦ inr (omega (arith, ap rank ((e.beq_iff node x).0 same)))
      | inr other ↦ elim (grey x (ground arith)) [
        | inl done ↦ inl done
        | inr above ↦ inr (omega arith)
      ]
    ]

    -- The targets of a node are in the order when the node is pushed.
    targets_done :
        (node : K) (s u : State K)
        → Grey (rank node) s
        → Visited g (targets g node) s u
        → All (λ d. has u.1 d ≡ true) (targets g node)
    targets_done node s u grey v =
        All-intro (λ d. has u.1 d ≡ true) (targets g node)
          λ d i.
            elim (Grey-Visited (rank node) (targets g node) s u v grey d
              (All-has _ (targets g node) d v.seen i)) [
                | inl done ↦ done
                | inr above ↦ absurd (omega (arith, acyclic node d i))
              ]

    visit-Sorted :
        (k : ℕ) (node : K) (s t : State K)
        → Grey (suc (rank node)) s
        → Sorted [] s.1
        → visit g k node s ≡ some t
        → Sorted [] t.1
    unfolding visit
    visit-Sorted zero node s t grey h run = cc
    visit-Sorted (suc k) node s t grey h run = elim (Bool-cases (has s.0 node)) [
      | inl old ↦ let same : s.1 ≡ t.1 = ground arith in subst (Sorted []) same h
      | inr new ↦ elim (Option-cases (visit_all (visit g k) (targets g node) (node ∷ s.0, s.1))) [
        | inl fail ↦ absurd (ground arith)
        | inr (u, all) ↦
            let inner : State K = (node ∷ s.0, s.1) in
            let grey' : Grey (rank node) inner = Grey-enter node s grey in
            let v =
              visit_all-Visited g (visit g k) (visit-Visited g k) (targets g node) inner u all in
            let low = All-intro (λ d. rank d < rank node) (targets g node) (acyclic node) in
            let h' =
              visit_all-Sorted k (rank node) (λ d. visit-Sorted k d) (targets g node) inner u low
                grey' h all in
            let same : u.1 ++ node ∷ [] ≡ t.1 = ground arith in
            subst (Sorted []) same (Sorted-snoc [] u.1 node h' (targets_done node inner u grey' v))
      ]
    ]

    -- On an acyclic graph the order that `dependency_order` returns has each module behind all
    -- that it imports.
    pub dependency_order-Sorted :
        (entry : K)
        → (order : List K) × (dependency_order g entry ≡ some order)
          × Sorted [] order
          × ((a : K) → Reach g entry a → has order a ≡ true)
    unfolding dependency_order
    dependency_order-Sorted entry =
        let (order, r, once, reach, last) = dependency_order-Reach g entry in
        elim (Option-cases (visit g (suc (length g.modules)) entry ([], []))) [
          | inl fail ↦ absurd (ground arith)
          | inr (t, run) ↦
              let same : t.1 ≡ order = ground arith in
              let sorted =
                visit-Sorted (suc (length g.modules)) entry ([], []) t
                  (λ x i. absurd (false≢true i)) tt run in
              (order, r, subst (Sorted []) same sorted, λ a. (reach a).1)
        ]
