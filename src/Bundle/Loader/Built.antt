-- ===== src/Bundle/Loader/Built.antt =====
-- What a load that succeeds has done: the modules stand behind all that they import.
use inty.Common.{
  ◌≡◌, refl, ◌⊎◌, inl, inr, Bool, true, false, ◌||◌, List, [], ◌∷◌, arith, if◌then◌else◌, All,
  All-map,
}
use inty.Common.Dict
use inty.Common.Dict.{Eq, ◌=?◌, =?-self, has, lookup, lookup-insert, All-has, All-intro}
use inty.Bundle.Graph
use inty.Bundle.Graph.{Module, ModuleGraph, targets}
use inty.Bundle.Loader.{
  FileSystem, Result, ok, err, out_of_fuel, ◌>>=◌, ok_or, io, parse_error, resolve_all, base_dir_of,
  collect_imports, export_sources, prepare, leave,
}

Result-cases : {K A : Type 0} (r : Result K A) → ((a : A) × (r ≡ ok a)) ⊎ ((a : A) → ¬ (r ≡ ok a))
Result-cases (ok a) = inl (a, refl)
Result-cases (err e) = inr (λ a h. cc)
Result-cases out_of_fuel = inr (λ a h. cc)

pub >>=-eq_ok :
    {K A B : Type 0} (r : Result K A) (f : A → Result K B) (b : B)
    → (r >>= f) ≡ ok b
    → (a : A) × (r ≡ ok a) × (f a ≡ ok b)
>>=-eq_ok (ok a) f b h = (a, refl, h)
>>=-eq_ok (err e) f b h = cc
>>=-eq_ok out_of_fuel f b h = cc

pub >>=-all :
    {K A B : Type 0} (P : B → Type 0) (r : Result K A) (f : A → Result K B)
    → ((a : A) (b : B) → f a ≡ ok b → P b)
    → (b : B) → (r >>= f) ≡ ok b
    → P b
>>=-all P (ok a) f h b e = h a b e
>>=-all P (err x) f h b e = cc
>>=-all P out_of_fuel f h b e = cc

abbrev HasPath : {K : Type 0} → K → Module K → Type 0
HasPath path m = m.path ≡ path

module _ {K : Type 0} ⦃e : Eq K⦄ where
  pub contains-insert :
      (g : ModuleGraph K) (m : Module K) (a : K)
      → Graph.contains (Graph.insert g m) a ≡ ((m.path =? a) || Graph.contains g a)
  unfolding Graph.contains Graph.insert
  contains-insert g m a = ground (arith, lookup-insert m.path a m g.modules)

  pub has-leave :
      (path a : K) (ps : List K) → has (leave path ps) a ≡ (if path =? a then false else has ps a)
  unfolding leave
  has-leave path a [] = ground arith
  has-leave path a (p ∷ ps) =
      ground (arith, e.beq_iff p path, e.beq_iff p a, e.beq_iff path a, has-leave path a ps)

  module _ (fs : FileSystem K) where
    pub prepare-path : (path : K) (m : Module K) → prepare fs path ≡ ok m → m.path ≡ path
    unfolding prepare
    prepare-path path =
        >>=-all (HasPath path) (ok_or (fs.read_to_string path) (io path)) _ λ source.
          >>=-all (HasPath path) (ok_or (fs.parse source) (parse_error path)) _ λ program.
            >>=-all (HasPath path)
              (resolve_all fs path (base_dir_of fs path) (collect_imports program)) _
              λ imports.
                >>=-all (HasPath path)
                  (resolve_all fs path (base_dir_of fs path) (export_sources program)) _
                  λ exports m h. ground arith

    -- Each module is what its path holds, and stands behind all that it imports.
    abbrev pub Built : List K → List (K × Module K) → Type 0
    Built earlier [] = Unit {0}
    Built earlier ((k, m) ∷ ms) =
        All (λ d. has earlier d ≡ true) m.import_targets
        × (prepare fs k ≡ ok m)
        × Built (k ∷ earlier) ms

    abbrev pub is_key : List (K × Module K) → K → Bool
    is_key [] a = false
    is_key ((k, m) ∷ ms) a = (k =? a) || is_key ms a

    pub contains-is_key :
        (ms : List (K × Module K)) (a : K)
        → Graph.contains (record { modules = ms }) a ≡ is_key ms a
    unfolding Graph.contains
    contains-is_key [] a = refl
    contains-is_key ((k, m) ∷ ms) a = ground (arith, contains-is_key ms a)

    pub Built-insert :
        (earlier : List K) (ms : List (K × Module K)) (k : K) (m : Module K)
        → Built earlier ms
        → is_key ms k ≡ false
        → prepare fs k ≡ ok m
        → All (λ d. (has earlier d || is_key ms d) ≡ true) m.import_targets
        → Built earlier (Dict.insert k m ms)
    Built-insert earlier [] k m h new p d = (
      All-map (λ d. (has earlier d || false) ≡ true) (λ d. has earlier d ≡ true) m.import_targets
          (λ d i. ground arith) d,
      p,
      tt,
    )
    Built-insert earlier ((j, w) ∷ ms) k m h new p d =
        let other : (j =? k) ≡ false = ground arith in
        rw other (
          h.0,
          h.1,
          Built-insert (j ∷ earlier) ms k m h.2 (ground arith) p (
              All-map (λ d. (has earlier d || is_key ((j, w) ∷ ms) d) ≡ true)
                (λ d. (has (j ∷ earlier) d || is_key ms d) ≡ true) m.import_targets
                (λ d i. ground arith) d),
        )
