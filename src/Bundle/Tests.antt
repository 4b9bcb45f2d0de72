-- ===== src/Bundle/Tests.antt =====
-- A disk with three modules, and one with a cycle.
use Prim.Native.String.{String}
use text.Mathlib.Text.{◌==◌ as str_eq}
use inty.Common.{
  ℕ, ◌≡◌, refl, ◌⊎◌, ◌↔◌, Bool, true, false, Option, none, some, List, [], ◌∷◌, ◌++◌, arith, ◌==◌,
  if◌then◌else◌,
}
use inty.Common.Dict.{has, NoRepeat, nat_eq}
use inty.Bundle.Graph.{
  import_from, export_from, other, Module, ModuleGraph, targets, dependency_order,
}
use inty.Bundle.Graph.Order.{Reach}
use inty.Bundle.Graph.Fuel.{dependency_order-Reach}
use inty.Bundle.Graph.Sorted.{Sorted, IsAcyclic, dependency_order-Sorted}
use inty.Bundle.Loader.{FileSystem, BundleError, ok, err, import_cycle, bundle_order, prepare}
use inty.Bundle.Loader.Total.{Covers}
use inty.Bundle.Loader.Order.{Bundled, Reported, bundle_order-Bundled}

abbrev is_some : Option ℕ → Bool
is_some none = false
is_some (some _) = true

abbrev canonical : String → Option ℕ
canonical p =
    if str_eq p "./left"
    then some 1
    else if str_eq p "./base"
    then some 2
    else if str_eq p "./loop"
    then some 3
    else none

-- 0 imports 1 and 2, 1 re-exports from 2; 3 imports itself.
abbrev disk : FileSystem ℕ
disk = record {
  P = String;
  read_to_string = λ n.
      if n == 0
      then some "entry"
      else if n == 1
      then some "left"
      else if n == 2
      then some "base"
      else if n == 3
      then some "loop"
      else none;
  parse = λ s. some (
      if str_eq s "entry"
      then import_from "./left" ∷ other ∷ import_from "./base" ∷ []
      else if str_eq s "left"
      then export_from "./base" ∷ []
      else if str_eq s "loop"
      then import_from "./loop" ∷ []
      else []);
  parent = λ n. none;
  current_dir = ".";
  is_absolute = λ s. false;
  raw = λ s. s;
  join = λ p s. s;
  with_extension = λ p s. p;
  is_file = λ p. is_some (canonical p);
  canonicalize = canonical;
}

abbrev files : List ℕ
files = 0 ∷ 1 ∷ 2 ∷ 3 ∷ []

disk-Covers : Covers disk files
disk-Covers a source h = ground arith

loop_is_reported : bundle_order disk 5 3 ≡ err (import_cycle 3)
unfolding bundle_order prepare
loop_is_reported = refl

bundle_order-Bundled_example :
    ((g : ModuleGraph ℕ) × (order : List ℕ) × (bundle_order disk 5 0 ≡ ok (g, some order))
      × Bundled disk 0 g order)
    ⊎ ((x : BundleError ℕ) × (bundle_order disk 5 0 ≡ err x) × Reported disk x)
bundle_order-Bundled_example = bundle_order-Bundled disk files disk-Covers 5 0 (omega arith)

abbrev node : ℕ → List ℕ → ℕ × Module ℕ
node n targets = (
  n,
  record {
    path = n;
    source = "";
    program = [];
    import_targets = targets;
    specifier_resolution = [];
  },
)

abbrev graph : ModuleGraph ℕ
graph = record { modules = node 2 [] ∷ node 1 (2 ∷ []) ∷ node 0 (1 ∷ 2 ∷ 7 ∷ []) ∷ [] }

order_of_graph : dependency_order graph 0 ≡ some (2 ∷ 1 ∷ 7 ∷ 0 ∷ [])
unfolding dependency_order
order_of_graph = refl

dependency_order-Reach_example :
    (order : List ℕ) × (dependency_order graph 0 ≡ some order)
    × NoRepeat order
    × ((a : ℕ) → (has order a ≡ true) ↔ Reach graph 0 a)
    × ((init : List ℕ) × (order ≡ init ++ 0 ∷ []))
dependency_order-Reach_example = dependency_order-Reach graph 0

abbrev rank : ℕ → ℕ
rank n = if n == 0 then 3 else if n == 1 then 2 else if n == 2 then 1 else 0

graph-IsAcyclic : IsAcyclic graph rank
unfolding targets
graph-IsAcyclic a b i = ground arith

dependency_order-Sorted_example :
    (order : List ℕ) × (dependency_order graph 0 ≡ some order)
    × Sorted graph [] order
    × ((a : ℕ) → Reach graph 0 a → has order a ≡ true)
dependency_order-Sorted_example = dependency_order-Sorted graph rank graph-IsAcyclic 0
