-- ===== src/Bundle/Loader.antt =====
-- crates/inty-bundle/src/lib.rs: loading the modules that an entry reaches, with the detection of
-- import cycles, and the order in which they are emitted. The file system, the path operations of
-- std and the JavaScript parser are the parameter `FileSystem`. The recursion of `load_module` is
-- on fuel; more fuel than the disk has files is enough (Loader/Total). `emit_bundle` is left out.
pub mod Built
pub mod Loaded
pub mod Cycles
pub mod Report
pub mod Total
pub mod Order
use Prim.Native.String.{String}
use text.Mathlib.Text.{starts_with}
use inty.Common.{
  ℕ, zero, suc, Bool, true, false, ◌||◌, not, ◌&&◌, Option, none, some, List, [], ◌∷◌, ◌++◌, map,
  if◌then◌else◌, length,
}
use inty.Common.Dict
use inty.Common.Dict.{Eq, string_eq, ◌=?◌, has}
use inty.Bundle.Graph
use inty.Bundle.Graph.{Stmt, import_from, export_from, other, Module, ModuleGraph, dependency_order}

-- What the bundler asks of the disk, of `std::path` and of the parser. `K` is the type of canonical
-- paths, `P` that of other paths.
pub record FileSystem (K : Type 0) : Type 1 where
  pub P : Type 0
  pub read_to_string : K → Option String
  pub parse : String → Option (List Stmt)
  pub parent : K → Option P
  pub current_dir : P
  pub is_absolute : String → Bool
  pub raw : String → P
  pub join : P → String → P
  pub with_extension : P → String → P
  pub is_file : P → Bool
  pub canonicalize : P → Option K

-- `BundleError`, without the messages and without emission.
pub data BundleError (K : Type 0) : Type 0 where
  io : K → BundleError K
  parse_error : K → BundleError K
  import_cycle : K → BundleError K
  unresolved_import bare_specifier : K → String → BundleError K

pub data Result (K A : Type 0) : Type 0 where
  ok : A → Result K A
  err : BundleError K → Result K A
  out_of_fuel : Result K A

infixl 5 ◌>>=◌
abbrev pub ◌>>=◌ : {K A B : Type 0} → Result K A → (A → Result K B) → Result K B
ok a >>= f = f a
err e >>= f = err e
out_of_fuel >>= f = out_of_fuel

-- `.ok_or_else(|| e)?`
abbrev pub ok_or : {K A : Type 0} → Option A → BundleError K → Result K A
ok_or none e = err e
ok_or (some a) e = ok a

-- The sources of `import` and of `export … from`.
unfoldable pub collect_imports : List Stmt → List String
collect_imports [] = []
collect_imports (import_from s ∷ stmts) = s ∷ collect_imports stmts
collect_imports (export_from s ∷ stmts) = s ∷ collect_imports stmts
collect_imports (other ∷ stmts) = collect_imports stmts

-- The second loop of `load_module` goes over `export … from` once more.
unfoldable pub export_sources : List Stmt → List String
export_sources [] = []
export_sources (export_from s ∷ stmts) = s ∷ export_sources stmts
export_sources (_ ∷ stmts) = export_sources stmts

abbrev pub is_relative_or_absolute : String → Bool
is_relative_or_absolute spec = starts_with spec "." || starts_with spec "/"

module _ {K : Type 0} ⦃e : Eq K⦄ (fs : FileSystem K) where
  open fs use {
    P, read_to_string, parse, parent, current_dir, is_absolute, raw, join, with_extension, is_file,
    canonicalize,
  }

  -- The loop over the suffixes.
  unfoldable pub first_file : List P → Option K
  first_file [] = none
  first_file (p ∷ ps) = if is_file p then canonicalize p else first_file ps

  unfoldable pub resolve_path : P → String → Option K
  unfolding first_file
  resolve_path base_dir source =
      let candidate = if is_absolute source then raw source else join base_dir source in
      first_file (candidate ∷ with_extension candidate "js" ∷ with_extension candidate "d.js" ∷ [])

  unfoldable pub resolve_all : K → P → List String → Result K (List (String × K))
  unfolding resolve_path
  resolve_all path base [] = ok []
  resolve_all path base (spec ∷ specs) =
      if is_relative_or_absolute spec
      then (do
        resolved ← ok_or (resolve_path base spec) (unresolved_import path spec)
        rest ← resolve_all path base specs
        ok ((spec, resolved) ∷ rest))
      else err (bare_specifier path spec)

  -- `export_resolutions.insert`, in turn.
  unfoldable pub resolutions : List (String × K) → List (String × K) → List (String × K)
  resolutions [] m = m
  resolutions ((spec, path) ∷ rest) m = resolutions rest (Dict.insert spec path m)

  base_dir_of : K → P
  base_dir_of path = elim (parent path) [ none ↦ current_dir | some p ↦ p ]

  -- The part of `load_module` that reads, parses and resolves.
  unfoldable pub prepare : K → Result K (Module K)
  unfolding collect_imports export_sources resolve_all resolutions base_dir_of
  prepare path = do
    source ← ok_or (read_to_string path) (io path)
    program ← ok_or (parse source) (parse_error path)
    imports ← resolve_all path (base_dir_of path) (collect_imports program)
    exports ← resolve_all path (base_dir_of path) (export_sources program)
    let resolved = imports ++ exports
    ok (record {
      path = path;
      source = source;
      program = program;
      import_targets = map (λ p. p.1) resolved;
      specifier_resolution = resolutions resolved [];
    })

-- The graph, and the set of paths that are being visited.
abbrev pub State : Type 0 → Type 0
State K = ModuleGraph K × List K

module _ {K : Type 0} ⦃e : Eq K⦄ where
  -- `visiting.remove(path)`
  unfoldable pub leave : K → List K → List K
  leave path [] = []
  leave path (p ∷ ps) = if p =? path then leave path ps else p ∷ leave path ps

  unfoldable pub load_all :
      (K → State K → Result K (State K)) → List K → State K → Result K (State K)
  load_all f [] s = ok s
  load_all f (target ∷ rest) s = f target s >>= load_all f rest

  module _ (fs : FileSystem K) where
    unfoldable pub load_module : ℕ → K → State K → Result K (State K)
    unfolding leave load_all Graph.contains Graph.insert
    load_module zero path s = out_of_fuel
    load_module (suc k) path (graph, visiting) =
        if Graph.contains graph path
        then ok (graph, visiting)
        else if has visiting path
        then err (import_cycle path)
        else (do
          m ← prepare fs path
          s ← load_all (load_module k) m.import_targets (graph, path ∷ visiting)
          ok (Graph.insert s.0 m, leave path s.1))

    -- `bundle`, between `canonicalise` and `emit_bundle`: the graph, and the order of its modules.
    unfoldable pub bundle_order : ℕ → K → Result K (ModuleGraph K × Option (List K))
    unfolding load_module dependency_order
    bundle_order fuel entry = do
      (graph, visiting) ← load_module fuel entry (record { modules = [] }, [])
      ok (graph, dependency_order graph entry)
