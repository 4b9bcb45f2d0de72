-- ===== src/Bundle/Loader/Total.antt =====
-- With more fuel than the disk has files `load_module` comes to an end.
use Prim.Native.String.{String}
use inty.Common.{
  ℕ, zero, suc, ◌<◌, ◌≡◌, ◌≢◌, refl, inl, inr, true, Option, none, some, List, [], ◌∷◌, arith,
  Bool-cases, Option-cases,
}
use inty.Common.Dict.{Eq, has}
use inty.Common.Outside.{outside, outside_same, outside-cons_lt}
use inty.Bundle.Graph
use inty.Bundle.Graph.{Module}
use inty.Bundle.Loader.{
  FileSystem, BundleError, Result, ok, err, out_of_fuel, io, parse_error, unresolved_import, ok_or,
  is_relative_or_absolute, resolve_path, resolve_all, base_dir_of, collect_imports, export_sources,
  ◌>>=◌, prepare, State, load_all, load_module,
}
use inty.Bundle.Loader.Loaded.{Loaded, load_module-Loaded}

>>=-ne_fuel :
    {K A B : Type 0} (r : Result K A) (f : A → Result K B)
    → r ≢ out_of_fuel
    → ((a : A) → r ≡ ok a → f a ≢ out_of_fuel)
    → (r >>= f) ≢ out_of_fuel
>>=-ne_fuel (ok a) f h k e = k a refl e
>>=-ne_fuel (err x) f h k e = ground arith
>>=-ne_fuel out_of_fuel f h k e = h refl

ok_or-ne_fuel : {K A : Type 0} (o : Option A) (x : BundleError K) → ok_or o x ≢ out_of_fuel
ok_or-ne_fuel none x e = ground arith
ok_or-ne_fuel (some a) x e = ground arith

module _ {K : Type 0} ⦃e : Eq K⦄ (fs : FileSystem K) where
  resolve_all-ne_fuel :
      (path : K) (base : fs.P) (specs : List String) → resolve_all fs path base specs ≢ out_of_fuel
  unfolding resolve_all
  resolve_all-ne_fuel path base [] = λ h. ground arith
  resolve_all-ne_fuel path base (spec ∷ specs) = elim (Bool-cases (is_relative_or_absolute spec)) [
    | inl fine ↦ rw fine (
        >>=-ne_fuel (ok_or (resolve_path fs base spec) (unresolved_import path spec)) _
          (ok_or-ne_fuel _ (unresolved_import path spec))
          λ resolved _.
            >>=-ne_fuel (resolve_all fs path base specs) _ (resolve_all-ne_fuel path base specs)
              λ rest _ h. ground arith)
    | inr bare ↦ rw bare (λ h. ground arith)
  ]

  prepare-ne_fuel : (path : K) → prepare fs path ≢ out_of_fuel
  unfolding prepare
  prepare-ne_fuel path =
      >>=-ne_fuel (ok_or (fs.read_to_string path) (io path)) _ (ok_or-ne_fuel _ (io path))
        λ source _.
          >>=-ne_fuel (ok_or (fs.parse source) (parse_error path)) _
            (ok_or-ne_fuel _ (parse_error path))
            λ program _.
              >>=-ne_fuel (resolve_all fs path (base_dir_of fs path) (collect_imports program)) _
                (resolve_all-ne_fuel path (base_dir_of fs path) (collect_imports program))
                λ imports _.
                  >>=-ne_fuel (resolve_all fs path (base_dir_of fs path) (export_sources program)) _
                    (resolve_all-ne_fuel path (base_dir_of fs path) (export_sources program))
                    λ exports _ h. ground arith

  -- The files of the disk are among `files`.
  abbrev pub Covers : List K → Type 0
  Covers files = (a : K) (source : String) → fs.read_to_string a ≡ some source → has files a ≡ true

  module _ (files : List K) (covers : Covers files) where
    prepare-file : (path : K) (m : Module K) → prepare fs path ≡ ok m → has files path ≡ true
    unfolding prepare
    prepare-file path m h = elim (Option-cases (fs.read_to_string path)) [
      | inl gone ↦ absurd (ground arith)
      | inr (source, found) ↦ covers path source found
    ]

    load_all-total :
        (k : ℕ) (f : K → State K → Result K (State K))
        → ((d : K) (s t : State K) → f d s ≡ ok t → Loaded fs (d ∷ []) s t)
        → ((d : K) (s : State K) → outside files s.1 < k → f d s ≢ out_of_fuel)
        → (ds : List K) (s : State K) → outside files s.1 < k
        → load_all f ds s ≢ out_of_fuel
    unfolding load_all
    load_all-total k f done one [] s l = λ h. ground arith
    load_all-total k f done one (d ∷ ds) s l =
        >>=-ne_fuel (f d s) (load_all f ds) (one d s l) λ t first.
          let same = outside_same files s.1 t.1 ((done d s t first).same_visiting) in
          load_all-total k f done one ds t (omega arith)

    -- More fuel than there are files outside the set of visited paths is enough.
    pub load_module-total :
        (k : ℕ) (path : K) (s : State K)
        → outside files s.1 < k
        → load_module fs k path s ≢ out_of_fuel
    unfolding load_module
    load_module-total zero path s l = absurd (omega arith)
    load_module-total (suc k) path s l = elim (Bool-cases (Graph.contains s.0 path)) [
      | inl old ↦ rw old (λ h. ground arith)
      | inr new ↦ elim (Bool-cases (has s.1 path)) [
        | inl again ↦ rw (new, again) (λ h. ground arith)
        | inr free ↦
            rw (new, free)
              (>>=-ne_fuel {A = Module K} {B = State K} (prepare fs path) _ (prepare-ne_fuel path)
                λ m p.
                  let fewer = outside-cons_lt files s.1 path (prepare-file path m p) free in
                  >>=-ne_fuel {A = State K} {B = State K}
                    (load_all (load_module fs k) m.import_targets (s.0, path ∷ s.1)) _
                    (load_all-total k (load_module fs k) (load_module-Loaded fs k)
                      (λ d. load_module-total k d) m.import_targets (s.0, path ∷ s.1) (omega arith))
                    λ u _ h. ground arith)
      ]
    ]
