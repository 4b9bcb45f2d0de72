-- ===== src/Bundle/Loader/Report.antt =====
-- An import cycle that the loader reports is one of the disk.
use inty.Common.{
  ℕ, zero, suc, ◌≡◌, sym, ◌∙◌, subst, inl, inr, true, List, [], ◌∷◌, arith, Bool-cases,
}
use inty.Common.Dict.{Eq, ◌=?◌, has}
use inty.Bundle.Graph
use inty.Bundle.Graph.{Module}
use inty.Bundle.Loader.{
  FileSystem, Result, ok, err, import_cycle, ◌>>=◌, prepare, State, leave, load_all, load_module,
}
use inty.Bundle.Loader.Loaded.{Loaded, load_module-Loaded}
use inty.Bundle.Loader.Cycles.{>>=-eq_err, prepare-NoCycle}

module _ {K : Type 0} ⦃e : Eq K⦄ (fs : FileSystem K) where
  -- The module at `a` imports `b`, directly or through others.
  pub data Imports (a : K) : K → Type 0 where
    direct :
        {b : K} (m : Module K) → prepare fs a ≡ ok m → has m.import_targets b ≡ true → Imports a b
    further :
        {b c : K} (m : Module K)
        → Imports a b
        → prepare fs b ≡ ok m
        → has m.import_targets c ≡ true
        → Imports a c

  -- All that is being visited imports `path`.
  abbrev Stack : State K → K → Type 0
  Stack s path = (v : K) → has s.1 v ≡ true → Imports v path

  load_all-cycle :
      (f : K → State K → Result K (State K)) (p : K)
      → ((d : K) (s t : State K) → f d s ≡ ok t → Loaded fs (d ∷ []) s t)
      → ((d : K) (s : State K) → Stack s d → f d s ≡ err (import_cycle p) → Imports p p)
      → (ds : List K) (s : State K) → ((d : K) → has ds d ≡ true → Stack s d)
      → load_all f ds s ≡ err (import_cycle p)
      → Imports p p
  unfolding load_all
  load_all-cycle f p done one [] s stack r = absurd (ground arith)
  load_all-cycle f p done one (d ∷ ds) s stack r =
      elim (>>=-eq_err (f d s) (load_all f ds) (import_cycle p) r) [
        | inl here ↦ one d s (stack d (ground (arith, e.beq_iff d d))) here
        | inr (t, first, rest) ↦
            let v = done d s t first in
            load_all-cycle f p done one ds t
              (λ c i a j. stack c (ground arith) a (sym (v.same_visiting a) ∙ j)) rest
      ]

  enter-Stack :
      (path d : K) (m : Module K) (s : State K)
      → Stack s path
      → prepare fs path ≡ ok m
      → has m.import_targets d ≡ true
      → Stack (s.0, path ∷ s.1) d
  enter-Stack path d m s stack p i v j = elim (Bool-cases (path =? v)) [
    | inl same ↦ subst (λ a. Imports a d) ((e.beq_iff path v).0 same) (direct m p i)
    | inr other ↦ further m (stack v (ground arith)) p i
  ]

  pub load_module-cycle :
      (k : ℕ) (p path : K) (s : State K)
      → Stack s path
      → load_module fs k path s ≡ err (import_cycle p)
      → Imports p p
  unfolding load_module
  load_module-cycle zero p path s stack r = absurd (ground arith)
  load_module-cycle (suc k) p path s stack r = elim (Bool-cases (Graph.contains s.0 path)) [
    | inl old ↦ absurd (ground arith)
    | inr new ↦ elim (Bool-cases (has s.1 path)) [
      | inl again ↦
          let same : path ≡ p = ground arith in subst (λ a. Imports a a) same (stack path again)
      | inr free ↦
          elim (>>=-eq_err {A = Module K} {B = State K} (prepare fs path)
            (λ m. load_all (load_module fs k) m.import_targets (s.0, path ∷ s.1) >>= λ u.
              ok (Graph.insert u.0 m, leave path u.1))
            (import_cycle p) (ground arith)) [
              | inl bad ↦ absurd (prepare-NoCycle fs path p bad)
              | inr (m, q, r') ↦
                  elim (>>=-eq_err {A = State K} {B = State K}
                    (load_all (load_module fs k) m.import_targets (s.0, path ∷ s.1))
                    (λ u. ok (Graph.insert u.0 m, leave path u.1)) (import_cycle p) r') [
                      | inl inside ↦
                          load_all-cycle (load_module fs k) p (load_module-Loaded fs k)
                            (λ d. load_module-cycle k p d) m.import_targets (s.0, path ∷ s.1)
                            (λ d i. enter-Stack path d m s stack q i) inside
                      | inr (u, all, r'') ↦ absurd (ground arith)
                    ]
            ]
    ]
  ]
