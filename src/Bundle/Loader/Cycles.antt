-- ===== src/Bundle/Loader/Cycles.antt =====
-- Import cycles: the loader reports one exactly where it meets one, and a graph that it has loaded
-- has none.
use Prim.Native.String.{String}
use inty.Common.{
  ℕ, suc, ◌<◌, ◌≡◌, refl, sym, subst, ◌⊎◌, inl, inr, true, Option, none, some, List, [], ◌∷◌, arith,
  if◌then◌else◌, Bool-cases, Option-cases,
}
use inty.Common.Dict.{Eq, ◌=?◌, has, lookup, All-has}
use inty.Bundle.Graph.{Module, ModuleGraph, targets}
use inty.Bundle.Graph.Sorted.{IsAcyclic}
use inty.Bundle.Loader.{
  FileSystem, BundleError, Result, ok, err, out_of_fuel, import_cycle, io, parse_error,
  unresolved_import, is_relative_or_absolute, ◌>>=◌, ok_or, resolve_path, resolve_all, base_dir_of,
  collect_imports, export_sources, prepare,
}
use inty.Bundle.Loader.Built.{Built}

module _ {K : Type 0} ⦃e : Eq K⦄ (fs : FileSystem K) where
  -- How many modules stand before `a`.
  abbrev pub position : List (K × Module K) → K → ℕ
  position [] a = 0
  position ((k, m) ∷ ms) a = if k =? a then 0 else suc (position ms a)

  Built-position :
      (earlier : List K) (ms : List (K × Module K)) (a b : K) (m : Module K)
      → Built fs earlier ms
      → lookup a ms ≡ some m
      → has m.import_targets b ≡ true
      → (has earlier b ≡ true) ⊎ (position ms b < position ms a)
  Built-position earlier [] a b m h l i = cc
  Built-position earlier ((k, w) ∷ ms) a b m h l i = elim (Bool-cases (k =? a)) [
    | inl same ↦
        let which : w ≡ m = ground arith in
        inl (
          All-has (λ d. has earlier d ≡ true) w.import_targets b h.0
            (subst (λ (x : Module K). has x.import_targets b ≡ true) (sym which) i))
    | inr other ↦ elim (Built-position (k ∷ earlier) ms a b m h.2 (ground arith) i) [
      | inl before ↦ elim (Bool-cases (k =? b)) [
        | inl first ↦ inr (rw (other, first) (omega arith))
        | inr later ↦ inl (ground arith)
      ]
      | inr less ↦ elim (Bool-cases (k =? b)) [
        | inl first ↦ inr (rw (other, first) (omega arith))
        | inr later ↦ inr (rw (other, later) (omega arith))
      ]
    ]
  ]

  -- In a built graph the position falls along every import.
  pub Built-IsAcyclic :
      (g : ModuleGraph K) → Built fs [] g.modules → IsAcyclic g (position g.modules)
  unfolding targets
  Built-IsAcyclic g h a b i = elim (Option-cases (lookup a g.modules)) [
    | inl absent ↦ absurd (ground arith)
    | inr (m, found) ↦ elim (Built-position [] g.modules a b m h found (ground arith)) [
      | inl none_earlier ↦ absurd (ground arith)
      | inr less ↦ less
    ]
  ]

pub >>=-eq_err :
    {K A B : Type 0} (r : Result K A) (f : A → Result K B) (x : BundleError K)
    → (r >>= f) ≡ err x
    → (r ≡ err x) ⊎ ((a : A) × (r ≡ ok a) × (f a ≡ err x))
>>=-eq_err (ok a) f x h = inr (a, refl, h)
>>=-eq_err (err y) f x h = inl (cc)
>>=-eq_err out_of_fuel f x h = absurd (ground arith)

abbrev pub NoCycle : {K A : Type 0} → Result K A → Type 0
NoCycle {K} r = (p : K) → ¬ (r ≡ err (import_cycle p))

>>=-NoCycle :
    {K A B : Type 0} (r : Result K A) (f : A → Result K B)
    → NoCycle r
    → ((a : A) → NoCycle (f a))
    → NoCycle (r >>= f)
>>=-NoCycle (ok a) f h k p e = k a p e
>>=-NoCycle (err x) f h k p e = h p (cc)
>>=-NoCycle out_of_fuel f h k p e = ground arith

ok_or-NoCycle :
    {K A : Type 0} (o : Option A) (x : BundleError K)
    → ((p : K) → ¬ (x ≡ import_cycle p))
    → NoCycle (ok_or o x)
ok_or-NoCycle none x h p e = h p (cc)
ok_or-NoCycle (some a) x h p e = ground arith

module _ {K : Type 0} ⦃e : Eq K⦄ (fs : FileSystem K) where
  -- Reading, parsing and resolving report no cycle.
  resolve_all-NoCycle :
      (path : K) (base : fs.P) (specs : List String) → NoCycle (resolve_all fs path base specs)
  unfolding resolve_all
  resolve_all-NoCycle path base [] = λ p h. ground arith
  resolve_all-NoCycle path base (spec ∷ specs) = elim (Bool-cases (is_relative_or_absolute spec)) [
    | inl fine ↦ rw fine (
        >>=-NoCycle (ok_or (resolve_path fs base spec) (unresolved_import path spec)) _
          (ok_or-NoCycle _ (unresolved_import path spec) (λ p h. cc))
          λ resolved.
            >>=-NoCycle (resolve_all fs path base specs) _ (resolve_all-NoCycle path base specs)
              λ rest p h. ground arith)
    | inr bare ↦ rw bare (λ p h. ground arith)
  ]

  pub prepare-NoCycle : (path : K) → NoCycle (prepare fs path)
  unfolding prepare
  prepare-NoCycle path =
      >>=-NoCycle (ok_or (fs.read_to_string path) (io path)) _
        (ok_or-NoCycle _ (io path) (λ p h. cc))
        λ source.
          >>=-NoCycle (ok_or (fs.parse source) (parse_error path)) _
            (ok_or-NoCycle _ (parse_error path) (λ p h. cc))
            λ program.
              >>=-NoCycle (resolve_all fs path (base_dir_of fs path) (collect_imports program)) _
                (resolve_all-NoCycle path (base_dir_of fs path) (collect_imports program))
                λ imports.
                  >>=-NoCycle (resolve_all fs path (base_dir_of fs path) (export_sources program)) _
                    (resolve_all-NoCycle path (base_dir_of fs path) (export_sources program))
                    λ exports p h. ground arith
