-- ===== src/Bundle/Loader/Loaded.antt =====
-- The effect of `load_module` on the graph and on the set of paths that are being visited.
use inty.Common.{
  ℕ, zero, suc, ◌≡◌, refl, sym, ap, ◌∙◌, subst, inl, inr, true, false, List, [], ◌∷◌, arith,
  Bool-cases, All, All-map,
}
use inty.Common.Dict.{Eq, =?-self, has}
use inty.Bundle.Graph
use inty.Bundle.Graph.{Module, ModuleGraph, targets}
use inty.Bundle.Loader.{FileSystem, Result, ok, ◌>>=◌, prepare, State, leave, load_all, load_module}
use inty.Bundle.Loader.Built.{
  >>=-eq_ok, contains-insert, has-leave, prepare-path, Built, is_key, contains-is_key, Built-insert,
}

module _ {K : Type 0} ⦃e : Eq K⦄ (fs : FileSystem K) where
  -- Loading `paths` from the state `s` ended in `t`.
  pub record Loaded (paths : List K) (s t : State K) : Type 0 where
    pub same_visiting : (a : K) → has t.1 a ≡ has s.1 a
    pub grows : (a : K) → Graph.contains s.0 a ≡ true → Graph.contains t.0 a ≡ true
    pub inside : All (λ d. Graph.contains t.0 d ≡ true) paths
    pub keeps_out : (a : K) → has s.1 a ≡ true → Graph.contains t.0 a ≡ Graph.contains s.0 a
    pub built : Built fs [] s.0.modules → Built fs [] t.0.modules

  Loaded-nil : (s : State K) → Loaded [] s s
  Loaded-nil s = record {
    same_visiting = λ a. refl;
    grows = λ a h. h;
    inside = tt;
    keeps_out = λ a h. refl;
    built = λ b. b;
  }

  Loaded-present :
      (path : K) (s : State K) → Graph.contains s.0 path ≡ true → Loaded (path ∷ []) s s
  Loaded-present path s h = record {
    same_visiting = λ a. refl;
    grows = λ a h. h;
    inside = (h, tt);
    keeps_out = λ a h. refl;
    built = λ b. b;
  }

  Loaded-cons :
      {d : K} {ds : List K} {s t u : State K}
      → Loaded (d ∷ []) s t
      → Loaded ds t u
      → Loaded (d ∷ ds) s u
  Loaded-cons {d} v w = record {
    same_visiting = λ a. w.same_visiting a ∙ v.same_visiting a;
    grows = λ a h. w.grows a (v.grows a h);
    inside = (w.grows d v.inside.0, w.inside);
    keeps_out = λ a h. w.keeps_out a (v.same_visiting a ∙ h) ∙ v.keeps_out a h;
    built = λ b. w.built (v.built b);
  }

  insert-Built :
      (path : K) (m : Module K) (g : ModuleGraph K)
      → Built fs [] g.modules
      → Graph.contains g path ≡ false
      → prepare fs path ≡ ok m
      → m.path ≡ path
      → All (λ d. Graph.contains g d ≡ true) m.import_targets
      → Built fs [] (Graph.insert g m).modules
  unfolding Graph.insert
  insert-Built path m g b new p named inside =
      Built-insert fs [] g.modules m.path m b
        (sym (contains-is_key fs g.modules m.path) ∙ ap (Graph.contains g) named ∙ new)
        (ap (prepare fs) named ∙ p)
        (All-map (λ d. Graph.contains g d ≡ true) (λ d. is_key fs g.modules d ≡ true)
          m.import_targets (λ d i. sym (contains-is_key fs g.modules d) ∙ i) inside)

  Loaded-insert :
      (path : K) (m : Module K) (s u : State K)
      → prepare fs path ≡ ok m
      → Graph.contains s.0 path ≡ false
      → has s.1 path ≡ false
      → Loaded m.import_targets (s.0, path ∷ s.1) u
      → Loaded (path ∷ []) s (Graph.insert u.0 m, leave path u.1)
  Loaded-insert path m s u p absent free v =
      let named = prepare-path fs path m p in
      let still : Graph.contains u.0 path ≡ false =
        v.keeps_out path (ground (arith, =?-self path)) ∙ absent in
      record {
        same_visiting =
            λ a. has-leave path a u.1 ∙ ground (arith, v.same_visiting a, e.beq_iff path a);
        grows = λ a h. contains-insert u.0 m a ∙ ground (arith, v.grows a h);
        inside = (contains-insert u.0 m path ∙ ground (arith, named, =?-self path), tt);
        keeps_out =
            λ a h. contains-insert u.0 m a ∙ ground (arith, named, e.beq_iff path a, v.keeps_out a);
        built = λ b. insert-Built path m u.0 (v.built b) still p named v.inside;
      }

  load_all-Loaded :
      (f : K → State K → Result K (State K))
      → ((d : K) (s t : State K) → f d s ≡ ok t → Loaded (d ∷ []) s t)
      → (ds : List K) (s t : State K) → load_all f ds s ≡ ok t
      → Loaded ds s t
  unfolding load_all
  load_all-Loaded f h [] s t r =
      let same : s ≡ t = ground arith in subst (Loaded [] s) same (Loaded-nil s)
  load_all-Loaded f h (d ∷ ds) s u r =
      let (t, one, rest) = >>=-eq_ok (f d s) (load_all f ds) u r in
      Loaded-cons (h d s t one) (load_all-Loaded f h ds t u rest)

  pub load_module-Loaded :
      (k : ℕ) (path : K) (s t : State K) → load_module fs k path s ≡ ok t → Loaded (path ∷ []) s t
  unfolding load_module
  load_module-Loaded zero path s t r = cc
  load_module-Loaded (suc k) path s t r = elim (Bool-cases (Graph.contains s.0 path)) [
    | inl old ↦
        let same : s ≡ t = ground arith in
        subst (Loaded (path ∷ []) s) same (Loaded-present path s old)
    | inr new ↦ elim (Bool-cases (has s.1 path)) [
      | inl again ↦ absurd (ground arith)
      | inr free ↦
          let (m, p, r') =
            >>=-eq_ok (prepare fs path)
              (λ m. load_all (load_module fs k) m.import_targets (s.0, path ∷ s.1) >>= λ u.
                ok (Graph.insert u.0 m, leave path u.1))
              t (ground arith) in
          let (u, all, r'') =
            >>=-eq_ok (load_all (load_module fs k) m.import_targets (s.0, path ∷ s.1))
              (λ u. ok (Graph.insert u.0 m, leave path u.1)) t r' in
          let v =
            load_all-Loaded (load_module fs k) (λ d. load_module-Loaded k d) m.import_targets
              (s.0, path ∷ s.1) u all in
          let same : (Graph.insert u.0 m, leave path u.1) ≡ t = ground arith in
          subst (Loaded (path ∷ []) s) same (Loaded-insert path m s u p new free v)
    ]
  ]
