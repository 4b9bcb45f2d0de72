-- ===== src/Bundle/Graph.antt =====
-- crates/inty-bundle/src/graph.rs: the module graph and its depth-first order. `K` is the type of
-- canonical paths. Of a parsed program the bundler's graph reads the sources of imports and of
-- `export … from`; all else is `other`. `visit` recurs on fuel: `suc` of the number of modules is
-- enough, since a call that recurs enters a module of the graph not visited before.
pub mod Order
pub mod Fuel
pub mod Sorted
use Prim.Native.String.{String}
use inty.Common.{
  ℕ, zero, suc, Bool, true, false, Option, none, some, List, [], ◌∷◌, ◌++◌, if◌then◌else◌, length,
}
use inty.Common.Dict
use inty.Common.Dict.{Eq, has, lookup}

pub data Stmt : Type 0 where
  import_from export_from : String → Stmt
  other : Stmt

pub record Module (K : Type 0) : Type 0 where
  pub path : K
  pub source : String
  pub program : List Stmt
  pub import_targets : List K
  pub specifier_resolution : List (String × K)

pub record ModuleGraph (K : Type 0) : Type 0 where
  pub modules : List (K × Module K)

-- The set of visited nodes, and the order so far.
abbrev pub State : Type 0 → Type 0
State K = List K × List K

module _ {K : Type 0} ⦃e : Eq K⦄ where
  unfoldable pub contains : ModuleGraph K → K → Bool
  contains g path = elim (lookup path g.modules) [ none ↦ false | some _ ↦ true ]

  unfoldable pub insert : ModuleGraph K → Module K → ModuleGraph K
  insert g m = record { modules = Dict.insert m.path m g.modules }

  unfoldable pub get : ModuleGraph K → K → Option (Module K)
  get g path = lookup path g.modules

  -- `if let Some(m) = self.modules.get(node) { for dep in &m.import_targets … }`
  unfoldable pub targets : ModuleGraph K → K → List K
  targets g node = elim (lookup node g.modules) [ none ↦ [] | some m ↦ m.import_targets ]

  unfoldable pub visit_all : (K → State K → Option (State K)) → List K → State K → Option (State K)
  visit_all f [] s = some s
  visit_all f (d ∷ ds) s = elim (f d s) [ none ↦ none | some t ↦ visit_all f ds t ]

  -- `order.push(node)`
  unfoldable pub finish : K → Option (State K) → Option (State K)
  finish node none = none
  finish node (some (visited, order)) = some (visited, order ++ node ∷ [])

  unfoldable pub visit : ModuleGraph K → ℕ → K → State K → Option (State K)
  unfolding visit_all finish targets
  visit g zero node s = none
  visit g (suc k) node (visited, order) =
      if has visited node
      then some (visited, order)
      else finish node (visit_all (visit g k) (targets g node) (node ∷ visited, order))

  unfoldable pub dependency_order : ModuleGraph K → K → Option (List K)
  unfolding visit
  dependency_order g entry = elim (visit g (suc (length g.modules)) entry ([], [])) [
    | none ↦ none
    | some (visited, order) ↦ some order
  ]
