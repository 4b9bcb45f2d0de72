-- ===== src/Bundle/Graph/Fuel.antt =====
-- `dependency_order` always returns, and what its order holds.
use inty.Common.{
  ℕ, zero, suc, ◌+◌, ◌<◌, ◌≤◌, ◌≡◌, refl, sym, ◌∙◌, subst, ◌↔◌, inl, inr, true, false, Option, some,
  List, [], ◌∷◌, ◌++◌, arith, if◌then◌else◌, Bool-cases, Option-cases, length,
}
use inty.Common.Dict.{Eq, ◌=?◌, has, lookup, NoRepeat, All-has}
use inty.Bundle.Graph.{Module, ModuleGraph, State, targets, visit_all, visit, dependency_order}
use inty.Bundle.Graph.Order.{Reach, here, onward, Visited, Visited-grows, visit-Visited}

module _ {K : Type 0} ⦃e : Eq K⦄ where
  -- How many modules are not visited yet.
  abbrev unvisited : List (K × Module K) → List K → ℕ
  unvisited [] vis = 0
  unvisited ((k, m) ∷ ms) vis = (if has vis k then 0 else 1) + unvisited ms vis

  unvisited_nil : (ms : List (K × Module K)) → unvisited ms [] ≡ length ms
  unvisited_nil [] = refl
  unvisited_nil (p ∷ ms) = omega (arith, unvisited_nil ms)

  unvisited_mono :
      (ms : List (K × Module K)) (vis vis' : List K)
      → ((a : K) → has vis a ≡ true → has vis' a ≡ true)
      → unvisited ms vis' ≤ unvisited ms vis
  unvisited_mono [] vis vis' f = omega arith
  unvisited_mono ((k, m) ∷ ms) vis vis' f = ground (arith, unvisited_mono ms vis vis' f, f k)

  unvisited_strict :
      (ms : List (K × Module K)) (vis : List K) (node : K) (m : Module K)
      → lookup node ms ≡ some m
      → has vis node ≡ false
      → unvisited ms (node ∷ vis) < unvisited ms vis
  unvisited_strict [] vis node m h new = cc
  unvisited_strict ((k, m') ∷ ms) vis node m h new = elim (Bool-cases (k =? node)) [
    | inl same ↦ ground (
      arith,
      (e.beq_iff k node).0 same,
      e.beq_iff node k,
      unvisited_mono ms vis (node ∷ vis) (λ a i. ground arith),
    )
    | inr other ↦ ground (
      arith,
      e.beq_iff k node,
      e.beq_iff node k,
      unvisited_strict ms vis node m (ground arith) new,
    )
  ]

module _ {K : Type 0} ⦃e : Eq K⦄ (g : ModuleGraph K) where
  visit_all-total :
      (k : ℕ) (f : K → State K → Option (State K))
      → ((d : K) (s : State K) → unvisited g.modules s.0 < k → (t : State K) × (f d s ≡ some t))
      → ((d : K) (s t : State K) → f d s ≡ some t → Visited g (d ∷ []) s t)
      → (ds : List K) (s : State K) → unvisited g.modules s.0 < k
      → (t : State K) × (visit_all f ds s ≡ some t)
  unfolding visit_all
  visit_all-total k f total once [] s l = (s, refl)
  visit_all-total k f total once (d ∷ ds) s l =
      let (t, r) = total d s l in
      let fewer = unvisited_mono g.modules s.0 t.0 (Visited-grows g (once d s t r)) in
      let (u, r') = visit_all-total k f total once ds t (omega arith) in (u, ground arith)

  -- Fuel above the number of modules not visited yet is enough.
  visit-total :
      (k : ℕ) (node : K) (s : State K)
      → unvisited g.modules s.0 < k
      → (t : State K) × (visit g k node s ≡ some t)
  unfolding visit
  visit-total zero node s l = absurd (omega arith)
  visit-total (suc k) node s l = elim (Bool-cases (has s.0 node)) [
    | inl old ↦ (s, ground arith)
    | inr new ↦ elim (Option-cases (lookup node g.modules)) [
      | inl leaf ↦ ((node ∷ s.0, s.1 ++ node ∷ []), ground arith)
      | inr (m, found) ↦
          let fewer = unvisited_strict g.modules s.0 node m found new in
          let (t, r) =
            visit_all-total k (visit g k) (λ d. visit-total k d) (visit-Visited g k)
              (targets g node) (node ∷ s.0, s.1) (omega arith) in
          ((t.0, t.1 ++ node ∷ []), ground arith)
    ]
  ]

  -- The last node of a visit from the empty state is the entry.
  visit-last :
      (k : ℕ) (entry : K) (t : State K)
      → visit g (suc k) entry ([], []) ≡ some t
      → (init : List K) × (t.1 ≡ init ++ entry ∷ [])
  unfolding visit
  visit-last k entry t r =
      elim (Option-cases (visit_all (visit g k) (targets g entry) (entry ∷ [], []))) [
        | inl fail ↦ absurd (ground arith)
        | inr (u, all) ↦ (u.1, ground arith)
      ]

  order-Reach :
      (entry a : K) (t : State K)
      → Visited g (entry ∷ []) ([], []) t
      → has t.1 a ≡ true
      → Reach g entry a
  order-Reach entry a t v i =
      let (c, j, r) = All-has _ v.added a v.reached (rw v.order at i) in
      subst (λ b. Reach g b a) (sym ((e.beq_iff entry c).0 (ground arith))) r

  Reach-order :
      (entry a : K) (t : State K)
      → Visited g (entry ∷ []) ([], []) t
      → Reach g entry a
      → has t.1 a ≡ true
  Reach-order entry _ t v here = rw v.order (sym (v.marks entry) ∙ v.seen.0)
  Reach-order entry a t v (onward {b} r h) =
      let earlier = Reach-order entry b t v r in
      let inside = All-has _ v.added b v.closed (rw v.order at earlier) in
      rw v.order (sym (v.marks a) ∙ All-has _ (targets g b) a inside h)

  -- `dependency_order` always returns. Its order holds exactly the nodes that are reached from the
  -- entry along imports, each once, and the entry is the last.
  pub dependency_order-Reach :
      (entry : K)
      → (order : List K) × (dependency_order g entry ≡ some order)
        × NoRepeat order
        × ((a : K) → (has order a ≡ true) ↔ Reach g entry a)
        × ((init : List K) × (order ≡ init ++ entry ∷ []))
  unfolding dependency_order
  dependency_order-Reach entry =
      let (t, r) =
        visit-total (suc (length g.modules)) entry ([], [])
          (omega (arith, unvisited_nil g.modules)) in
      let v = visit-Visited g (suc (length g.modules)) entry ([], []) t r in
      (
        t.1,
        ground arith,
        rw v.order v.no_repeat,
        λ a. (order-Reach entry a t v, Reach-order entry a t v),
        visit-last (length g.modules) entry t r,
      )
