-- ===== src/Bundle/Graph/Order.antt =====
-- The depth-first order of a module graph: what a visit adds.
use inty.Common.{
  ℕ, zero, suc, ◌≡◌, refl, sym, ap, ◌∙◌, subst, inl, inr, true, false, ◌||◌, Option, some, List, [],
  ◌∷◌, ◌++◌, arith, append_assoc, append-nil, Bool-cases, Option-cases, All, All-append, All-map,
}
use inty.Common.Dict.{
  Eq, =?-self, has, has-append, NoRepeat, Apart, Apart-has, Apart-intro, NoRepeat-append,
}
use inty.Bundle.Graph.{ModuleGraph, State, targets, visit_all, visit}

module _ {K : Type 0} ⦃e : Eq K⦄ (g : ModuleGraph K) where
  -- Module `a` imports `b` in one step or more, or is it.
  pub data Reach (a : K) : K → Type 0 where
    here : Reach a a
    onward : {b c : K} → Reach a b → has (targets g b) c ≡ true → Reach a c

  pub Reach-trans : {a b c : K} → Reach a b → Reach b c → Reach a c
  Reach-trans r here = r
  Reach-trans r (onward s h) = onward (Reach-trans r s) h

  abbrev pub AllIn : List K → List K → Type 0
  AllIn vis = All (λ d. has vis d ≡ true)

  -- Visiting `ds` from the state `s` ended in `t`.
  pub record Visited (ds : List K) (s t : State K) : Type 0 where
    pub added : List K
    pub order : t.1 ≡ s.1 ++ added
    pub marks : (a : K) → has t.0 a ≡ (has s.0 a || has added a)
    pub apart : Apart added s.0
    pub no_repeat : NoRepeat added
    pub reached : All (λ a. (d : K) × (has ds d ≡ true) × Reach d a) added
    pub closed : All (λ a. AllIn t.0 (targets g a)) added
    pub seen : AllIn t.0 ds

  AllIn-mono :
      (vis vis' : List K)
      → ((a : K) → has vis a ≡ true → has vis' a ≡ true)
      → (ds : List K) → AllIn vis ds
      → AllIn vis' ds
  AllIn-mono vis vis' f ds h = All-map (λ d. has vis d ≡ true) (λ d. has vis' d ≡ true) ds f h

  pub Visited-grows :
      {ds : List K} {s t : State K} → Visited ds s t → (a : K) → has s.0 a ≡ true → has t.0 a ≡ true
  Visited-grows v a h = v.marks a ∙ rw h

  Visited-nil : (s : State K) → Visited [] s s
  Visited-nil s = record {
    added = [];
    order = sym (append-nil s.1);
    marks = λ a. ground arith;
    apart = tt;
    no_repeat = tt;
    reached = tt;
    closed = tt;
    seen = tt;
  }

  Visited-cons :
      {d : K} {ds : List K} {s t u : State K}
      → Visited (d ∷ []) s t
      → Visited ds t u
      → Visited (d ∷ ds) s u
  Visited-cons {d} {ds} {s} {t} {u} v w = record {
    added = v.added ++ w.added;
    order = w.order ∙ ap (λ o. o ++ w.added) v.order ∙ append_assoc s.1 v.added w.added;
    marks = λ a. ground (arith, has-append v.added w.added a, v.marks a, w.marks a);
    apart = Apart-intro (v.added ++ w.added) s.0 λ a i. ground (
      arith,
      has-append v.added w.added a,
      v.marks a,
      Apart-has v.added s.0 a v.apart,
      Apart-has w.added t.0 a w.apart,
    );
    no_repeat = NoRepeat-append v.added w.added v.no_repeat w.no_repeat (
        Apart-intro v.added w.added
          λ a i. ground (arith, v.marks a, Apart-has w.added t.0 a w.apart));
    reached =
        All-append _ v.added w.added
          (All-map (λ a. (c : K) × (has (d ∷ []) c ≡ true) × Reach c a)
            (λ a. (c : K) × (has (d ∷ ds) c ≡ true) × Reach c a) v.added
            (λ a (c, i, r). (c, ground arith, r)) v.reached)
          (All-map (λ a. (c : K) × (has ds c ≡ true) × Reach c a)
            (λ a. (c : K) × (has (d ∷ ds) c ≡ true) × Reach c a) w.added
            (λ a (c, i, r). (c, ground arith, r)) w.reached);
    closed =
        All-append _ v.added w.added
          (All-map (λ a. AllIn t.0 (targets g a)) (λ a. AllIn u.0 (targets g a)) v.added
            (λ a. AllIn-mono t.0 u.0 (Visited-grows w) (targets g a)) v.closed)
          w.closed;
    seen = (Visited-grows w d v.seen.0, w.seen);
  }

  Visited-skip : (node : K) (s : State K) → has s.0 node ≡ true → Visited (node ∷ []) s s
  Visited-skip node s h = record {
    added = [];
    order = sym (append-nil s.1);
    marks = λ a. ground arith;
    apart = tt;
    no_repeat = tt;
    reached = tt;
    closed = tt;
    seen = (h, tt);
  }

  -- The node is pushed once its targets are done.
  Visited-finish :
      (node : K) (s t : State K)
      → has s.0 node ≡ false
      → Visited (targets g node) (node ∷ s.0, s.1) t
      → Visited (node ∷ []) s (t.0, t.1 ++ node ∷ [])
  Visited-finish node s t h v = record {
    added = v.added ++ node ∷ [];
    order = ap (λ o. o ++ node ∷ []) v.order ∙ append_assoc s.1 v.added (node ∷ []);
    marks = λ a. ground (arith, has-append v.added (node ∷ []) a, v.marks a);
    apart = Apart-intro (v.added ++ node ∷ []) s.0 λ a i. ground (
      arith,
      has-append v.added (node ∷ []) a,
      Apart-has v.added (node ∷ s.0) a v.apart,
      e.beq_iff node a,
    );
    no_repeat =
        NoRepeat-append v.added (node ∷ []) v.no_repeat (refl, tt)
          (Apart-intro v.added (node ∷ [])
            λ a i. ground (arith, Apart-has v.added (node ∷ s.0) a v.apart));
    reached =
        All-append (λ a. (c : K) × (has (node ∷ []) c ≡ true) × Reach c a) v.added (node ∷ [])
          (All-map (λ a. (c : K) × (has (targets g node) c ≡ true) × Reach c a)
            (λ a. (c : K) × (has (node ∷ []) c ≡ true) × Reach c a) v.added
            (λ a (c, i, r). (node, ground (arith, =?-self node), Reach-trans (onward here i) r))
            v.reached)
          ((node, ground (arith, =?-self node), here), tt);
    closed = All-append _ v.added (node ∷ []) v.closed (v.seen, tt);
    seen = (v.marks node ∙ ground (arith, =?-self node), tt);
  }

  pub visit_all-Visited :
      (f : K → State K → Option (State K))
      → ((d : K) (s t : State K) → f d s ≡ some t → Visited (d ∷ []) s t)
      → (ds : List K) (s t : State K) → visit_all f ds s ≡ some t
      → Visited ds s t
  unfolding visit_all
  visit_all-Visited f h [] s t r = subst (Visited [] s) (ground arith) (Visited-nil s)
  visit_all-Visited f h (d ∷ ds) s u r = elim (Option-cases (f d s)) [
    | inl fail ↦ absurd (ground arith)
    | inr (t, one) ↦ Visited-cons (h d s t one) (visit_all-Visited f h ds t u (ground arith))
  ]

  pub visit-Visited :
      (k : ℕ) (node : K) (s t : State K) → visit g k node s ≡ some t → Visited (node ∷ []) s t
  unfolding visit
  visit-Visited zero node s t r = cc
  visit-Visited (suc k) node s t r = elim (Bool-cases (has s.0 node)) [
    | inl old ↦ subst (Visited (node ∷ []) s) (ground arith) (Visited-skip node s old)
    | inr new ↦ elim (Option-cases (visit_all (visit g k) (targets g node) (node ∷ s.0, s.1))) [
      | inl fail ↦ absurd (ground arith)
      | inr (u, all) ↦ subst (Visited (node ∷ []) s) (ground arith) (
          Visited-finish node s u new (
            visit_all-Visited (visit g k) (λ d. visit-Visited k d) (targets g node)
              (node ∷ s.0, s.1) u all))
    ]
  ]
