-- ===== src/Bundle/Loader/Order.antt =====
-- `bundle`, up to emission: what the order of the modules is, and which errors are right.
use mathlib.Core.Bool.{false≢true}
use inty.Common.{
  ℕ, ◌<◌, ◌≡◌, refl, sym, ◌∙◌, subst, ◌⊎◌, ◌↔◌, inl, inr, true, false, ◌||◌, some, List, [], ◌∷◌,
  ◌++◌, arith, Bool-cases, length, Option-cases, All, All-map,
}
use inty.Common.Dict.{Eq, ◌=?◌, has, lookup, NoRepeat, All-has}
use inty.Common.Outside.{outside_nil}
use inty.Bundle.Graph
use inty.Bundle.Graph.{Module, ModuleGraph, targets, dependency_order}
use inty.Bundle.Graph.Order.{Reach, here, onward}
use inty.Bundle.Graph.Fuel.{dependency_order-Reach}
use inty.Bundle.Graph.Sorted.{Sorted, dependency_order-Sorted}
use inty.Bundle.Loader.{
  FileSystem, BundleError, Result, ok, err, out_of_fuel, import_cycle, prepare, State, load_module,
  bundle_order,
}
use inty.Bundle.Loader.Built.{Built, is_key, contains-is_key}
use inty.Bundle.Loader.Loaded.{load_module-Loaded}
use inty.Bundle.Loader.Cycles.{position, Built-IsAcyclic}
use inty.Bundle.Loader.Report.{Imports, direct, further, load_module-cycle}
use inty.Bundle.Loader.Total.{Covers, load_module-total}

module _ {K : Type 0} ⦃e : Eq K⦄ (fs : FileSystem K) where
  Built-lookup :
      (earlier : List K) (ms : List (K × Module K)) (a : K) (m : Module K)
      → Built fs earlier ms
      → lookup a ms ≡ some m
      → (prepare fs a ≡ ok m) × All (λ d. (has earlier d || is_key fs ms d) ≡ true) m.import_targets
  Built-lookup earlier [] a m h l = cc
  Built-lookup earlier ((k, w) ∷ ms) a m h l = elim (Bool-cases (k =? a)) [
    | inl same ↦
        let which : w ≡ m = ground arith in
        (
          subst (λ b. prepare fs b ≡ ok m) ((e.beq_iff k a).0 same)
              (subst (λ x. prepare fs k ≡ ok x) which h.1),
          subst
              (λ (x : Module K).
                All (λ d. (has earlier d || is_key fs ((k, w) ∷ ms) d) ≡ true) x.import_targets)
              which
              (All-map (λ d. has earlier d ≡ true)
                (λ d. (has earlier d || is_key fs ((k, w) ∷ ms) d) ≡ true) w.import_targets
                (λ d i. ground arith) h.0),
        )
    | inr other ↦
        let (p, all) = Built-lookup (k ∷ earlier) ms a m h.2 (ground arith) in
        (
          p,
          All-map (λ d. (has (k ∷ earlier) d || is_key fs ms d) ≡ true)
              (λ d. (has earlier d || is_key fs ((k, w) ∷ ms) d) ≡ true) m.import_targets
              (λ d i. ground arith) all,
        )
  ]

  -- What a bundle of `entry` is made of.
  pub record Bundled (entry : K) (g : ModuleGraph K) (order : List K) : Type 0 where
    pub once : NoRepeat order
    pub reached : (a : K) → (has order a ≡ true) ↔ Reach g entry a
    pub sorted : Sorted g [] order
    pub last : (init : List K) × (order ≡ init ++ entry ∷ [])
    pub on_disk :
        (a : K)
        → has order a ≡ true
        → (m : Module K) × (lookup a g.modules ≡ some m) × (prepare fs a ≡ ok m)
    pub no_cycle : (a : K) → has order a ≡ true → ¬ (Imports fs a a)

  -- A cycle that is reported is one of the disk.
  abbrev pub Reported : BundleError K → Type 0
  Reported (import_cycle p) = Imports fs p p
  Reported _ = Unit {0}

  report :
      (fuel : ℕ) (entry : K) (x : BundleError K)
      → load_module fs fuel entry (record { modules = [] }, []) ≡ err x
      → Reported x
  report fuel entry (import_cycle p) run =
      load_module-cycle fs fuel p entry (record { modules = [] }, []) (λ v i. absurd (false≢true i))
        run
  report fuel entry _ run = tt

  -- The modules of a built graph are those of the disk.
  module _ (g : ModuleGraph K) (built : Built fs [] g.modules) where
    Held : K → Type 0
    Held a = (m : Module K) × (lookup a g.modules ≡ some m) × (prepare fs a ≡ ok m)

    hold : (a : K) → is_key fs g.modules a ≡ true → Held a
    unfolding Held Graph.contains
    hold a i = elim (Option-cases (lookup a g.modules)) [
      | inl absent ↦ absurd (ground (arith, contains-is_key fs g.modules a))
      | inr (m, found) ↦ (m, found, (Built-lookup [] g.modules a m built found).0)
    ]

    hold_target : (a b : K) → Held a → has (targets g a) b ≡ true → Held b
    unfolding Held targets
    hold_target a b (m, found, p) i = hold b (
        All-has (λ d. is_key fs g.modules d ≡ true) m.import_targets b
          (All-map (λ d. (false || is_key fs g.modules d) ≡ true)
            (λ d. is_key fs g.modules d ≡ true) m.import_targets (λ d j. ground arith)
            (Built-lookup [] g.modules a m built found).1)
          (ground arith))

    Reach-Held : (entry a : K) → Held entry → Reach g entry a → Held a
    Reach-Held entry _ h here = h
    Reach-Held entry a h (onward {b} r i) = hold_target b a (Reach-Held entry b h r) i

    same_targets :
        (a : K) (m : Module K) → Held a → prepare fs a ≡ ok m → targets g a ≡ m.import_targets
    unfolding Held targets
    same_targets a m (w, found, p) q = ground arith

    -- What the disk's imports lead to stands earlier in the graph.
    Imports-position :
        (a b : K)
        → Held a
        → Imports fs a b
        → Held b × (position fs g.modules b < position fs g.modules a)
    Imports-position a b h (direct m p i) =
        let j : has (targets g a) b ≡ true = rw (same_targets a m h p) i in
        (hold_target a b h j, Built-IsAcyclic fs g built a b j)
    Imports-position a c h (further {b} m r p i) =
        let (k, less) = Imports-position a b h r in
        let j : has (targets g b) c ≡ true = rw (same_targets b m k p) i in
        (hold_target b c k j, omega (arith, Built-IsAcyclic fs g built b c j))

    Bundled-order :
        (entry : K)
        → Held entry
        → (order : List K) × (dependency_order g entry ≡ some order) × Bundled entry g order
    unfolding Held
    Bundled-order entry h =
        let (order, r, once, reach, last) = dependency_order-Reach g entry in
        let (order', r', sorted, _) =
          dependency_order-Sorted g (position fs g.modules) (Built-IsAcyclic fs g built) entry in
        let same : order' ≡ order = ground arith in
        (
          order,
          r,
          record {
            once = once;
            reached = reach;
            sorted = subst (Sorted g []) same sorted;
            last = last;
            on_disk = λ a i. Reach-Held entry a h ((reach a).0 i);
            no_cycle = λ a i c.
                absurd (
                  omega (arith, (Imports-position a a (Reach-Held entry a h ((reach a).0 i)) c).1));
          },
        )

  module _ (files : List K) (covers : Covers fs files) where
    -- With more fuel than the disk has files, `bundle` up to emission either loads a graph and
    -- orders it, or reports an error, and an import cycle that it reports is one of the disk. The
    -- order holds exactly the modules that the entry reaches, each once and as the disk has it, each
    -- behind all that it imports, the entry last; none of them imports itself, even through others.
    pub bundle_order-Bundled :
        (fuel : ℕ) (entry : K)
        → length files < fuel
        → ((g : ModuleGraph K) × (order : List K) × (bundle_order fs fuel entry
              ≡ ok (g, some order))
            × Bundled entry g order)
          ⊎ ((x : BundleError K) × (bundle_order fs fuel entry ≡ err x) × Reported x)
    unfolding bundle_order
    bundle_order-Bundled fuel entry l =
        go (load_module fs fuel entry (record { modules = [] }, [])) refl
      where
        go :
            (r : Result K (State K))
            → load_module fs fuel entry (record { modules = [] }, []) ≡ r
            → ((g : ModuleGraph K) × (order : List K) × (bundle_order fs fuel entry
                  ≡ ok (g, some order))
                × Bundled entry g order)
              ⊎ ((x : BundleError K) × (bundle_order fs fuel entry ≡ err x) × Reported x)
        go (ok t) run =
            let v = load_module-Loaded fs fuel entry (record { modules = [] }, []) t run in
            let built = v.built tt in
            let h =
              hold t.0 built entry (sym (contains-is_key fs t.0.modules entry) ∙ v.inside.0) in
            let (order, r, b) = Bundled-order t.0 built entry h in inl (t.0, order, ground arith, b)
        go (err x) run = inr (x, ground arith, report fuel entry x run)
        go out_of_fuel run = absurd (
            load_module-total fs files covers fuel entry (record { modules = [] }, [])
              (omega (arith, outside_nil files)) run)
