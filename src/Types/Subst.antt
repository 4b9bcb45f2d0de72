-- ===== src/Types/Subst.antt =====
-- crates/inty/src/types/subst.rs: the substitution of the inference engine as a store with an undo
-- log: bindings of type variables and of presence variables, and the trail, its newest entry
-- first. Shared types (`Arc`) are types. `resolve` and `resolve_presence` follow chains of
-- variables until one is visited again; the model has one round for each key, and one more, which
-- is enough (Resolve). `flatten`, `reach` and `apply_subst` are not in this module.
pub mod Undo
pub mod Rollback
pub mod Chain
pub mod Resolve
pub mod Presences
use inty.Common.{
  ℕ, zero, suc, ◌+◌, Bool, true, false, ◌&&◌, Option, none, some, List, [], ◌∷◌, ◌++◌,
  if◌then◌else◌, ltb, length,
}
use inty.Common.Dict
use inty.Common.Dict.{Eq, has, lookup}
use inty.Types.Ty.{TVarName, PVarName, tvar_eq, pvar_eq, Presence, pre, abs, Ty, var}

pub data SubstUndo : Type 0 where
  type_was : TVarName → Option Ty → SubstUndo
  presence_was : PVarName → Option Presence → SubstUndo

pub record Subst : Type 0 where
  pub map : List (TVarName × Ty)
  pub presences : List (PVarName × Presence)
  pub trail : Option (List SubstUndo)

unfoldable pub empty : Subst
empty = record { map = []; presences = []; trail = none }

unfoldable pub with_trail : Subst
unfolding empty
with_trail = record empty { trail = some [] }

unfoldable pub mark : Subst → ℕ
mark s = elim s.trail [ none ↦ 0 | some entries ↦ length entries ]

-- `if let Some(trail) = self.trail.as_mut() { trail.push(entry) }`
unfoldable pub log : SubstUndo → Option (List SubstUndo) → Option (List SubstUndo)
log entry none = none
log entry (some entries) = some (entry ∷ entries)

unfoldable pub write : TVarName → Ty → Subst → Subst
unfolding log
write v ty s = record s {
  map = Dict.insert v ty s.map;
  trail = log (type_was v (lookup v s.map)) s.trail;
}

-- One entry undone.
unfoldable pub revert : SubstUndo → Subst → Subst
revert (type_was v none) s = record s { map = Dict.remove v s.map }
revert (type_was v (some prev)) s = record s { map = Dict.insert v prev s.map }
revert (presence_was p none) s = record s { presences = Dict.remove p s.presences }
revert (presence_was p (some prev)) s = record s { presences = Dict.insert p prev s.presences }

-- `while trail.len() > mark.0`
unfoldable pub undo_loop : ℕ → List SubstUndo → Subst → Subst
unfolding revert
undo_loop m [] s = record s { trail = some [] }
undo_loop m (entry ∷ entries) s =
    let rest = undo_loop m entries (revert entry s) in
    if ltb m (suc (length entries)) then rest else record s { trail = some (entry ∷ entries) }

unfoldable pub undo_to : ℕ → Subst → Subst
unfolding undo_loop
undo_to m s = elim s.trail [ none ↦ s | some entries ↦ undo_loop m entries s ]

unfoldable pub singleton : TVarName → Ty → Subst
singleton v ty = record { map = (v, ty) ∷ []; presences = []; trail = none }

unfoldable pub is_empty : Subst → Bool
is_empty s = elim s.map [ [] ↦ elim s.presences [ [] ↦ true | _ ∷ _ ↦ false ] | _ ∷ _ ↦ false ]

unfoldable pub get : Subst → TVarName → Option Ty
get s v = lookup v s.map

unfoldable pub get_presence : Subst → PVarName → Option Presence
get_presence s p = lookup p s.presences

unfoldable pub contains : Subst → TVarName → Bool
contains s v = elim (lookup v s.map) [ none ↦ false | some _ ↦ true ]

unfoldable pub contains_presence : Subst → PVarName → Bool
contains_presence s p = elim (lookup p s.presences) [ none ↦ false | some _ ↦ true ]

unfoldable pub insert : TVarName → Ty → Subst → Subst
unfolding write
insert v ty s = write v ty s

unfoldable pub insert_presence : PVarName → Presence → Subst → Subst
unfolding log
insert_presence p pres s = record s {
  presences = Dict.insert p pres s.presences;
  trail = log (presence_was p (lookup p s.presences)) s.trail;
}

-- A key that is not bound leaves no entry.
unfoldable pub remove : TVarName → Subst → Subst
unfolding log
remove v s = elim (lookup v s.map) [
  | none ↦ record s { map = Dict.remove v s.map }
  | some prev ↦ record s { map = Dict.remove v s.map; trail = log (type_was v (some prev)) s.trail }
]

abbrev pub as_var : Ty → Option TVarName
as_var (var v) = some v
as_var _ = none

-- What the loop of `resolve` ends with: the keys that it went through after the first and the last
-- type, or a cycle, with the type at which it was seen.
pub data Trace : Type 0 where
  ends : List TVarName → Ty → Trace
  loops : Ty → Trace

abbrev pub through : TVarName → Trace → Trace
through v (ends chain ty) = ends (v ∷ chain) ty
through v (loops ty) = loops ty

unfoldable pub follow : List (TVarName × Ty) → ℕ → List TVarName → Ty → Trace
follow map zero visited current = loops current
follow map (suc k) visited current = elim (as_var current) [
  | none ↦ ends [] current
  | some v ↦ elim (has visited v) [
    | true ↦ loops current
    | false ↦ elim (lookup v map) [
      | none ↦ ends [] current
      | some next ↦ through v (follow map k (v ∷ visited) next)
    ]
  ]
]

-- Path compression: each key of the chain is bound to its end.
unfoldable pub rebind : Ty → List TVarName → Subst → Subst
unfolding write
rebind ty [] s = s
rebind ty (v ∷ chain) s = rebind ty chain (write v ty s)

-- A chain that ends is compressed; a cycle is left as it is.
unfoldable pub compress : TVarName → Trace → Subst → Option Ty × Subst
unfolding rebind
compress v (ends chain ty) s = (some ty, rebind ty (v ∷ chain) s)
compress v (loops ty) s = (some ty, s)

unfoldable pub resolve : TVarName → Subst → Option Ty × Subst
unfolding follow compress
resolve v s = elim (lookup v s.map) [
  | none ↦ (none, s)
  | some first ↦ elim (as_var first) [
    | none ↦ (some first, s)
    | some _ ↦ compress v (follow s.map (suc (length s.map)) (v ∷ []) first) s
  ]
]

unfoldable pub resolve_loop : List (PVarName × Presence) → ℕ → List PVarName → Presence → Presence
resolve_loop presences zero visited current = current
resolve_loop presences (suc k) visited pre = pre
resolve_loop presences (suc k) visited abs = abs
resolve_loop presences (suc k) visited (Presence.var v) = elim (has visited v) [
  | true ↦ Presence.var v
  | false ↦ elim (lookup v presences) [
    | none ↦ Presence.var v
    | some next ↦ resolve_loop presences k (v ∷ visited) next
  ]
]

unfoldable pub resolve_presence : Subst → Presence → Presence
unfolding resolve_loop
resolve_presence s pres = resolve_loop s.presences (suc (length s.presences)) [] pres

unfoldable pub apply_presence : Subst → Presence → Presence
apply_presence s pre = pre
apply_presence s abs = abs
apply_presence s (Presence.var v) = elim (lookup v s.presences) [
  | some bound ↦ bound
  | none ↦ Presence.var v
]

unfoldable pub remove_vars : List TVarName → Subst → Subst
remove_vars [] s = record s { trail = none }
remove_vars (v ∷ vars) s = remove_vars vars (record s { map = Dict.remove v s.map })
