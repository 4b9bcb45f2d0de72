-- ===== src/Infer/VarTable.antt =====
-- crates/inty/src/infer/var_table.rs: the union-find table of type variables with its undo trail.
-- A `TVarId` is a position in `cells`; `T` stands for the type that a root is bound to. The trail
-- is a stack, its newest entry first. A method on `&mut self` is a command: it maps the table to
-- its result and the new table, or to `none` where the source panics (an index out of bounds, a
-- `union` of a root that is not unbound). Debug assertions are not compiled in.
-- The loop of `find` has the source's own bound, `cells.len() + 1` rounds.

pub mod Roots
pub mod Find
pub mod Link
pub mod Union
pub mod Binding
pub mod Rollback
pub mod Forest
mod Tests
use inty.Common.{
  ℕ, zero, suc, ◌+◌, ◌-◌, ◌%◌, ◌^◌, Bool, true, false, Option, none, some, List, [], ◌∷◌, ◌++◌, ltb,
  ◌==◌, if◌then◌else◌, length, get_elem?, set, min,
}

pub data Resolution (T : Type 0) : Type 0 where
  unbound : (level rank : ℕ) → Resolution T
  link : ℕ → Resolution T
  bound : T → Resolution T

pub record VarTable (T : Type 0) : Type 0 where
  pub cells : List (Resolution T)
  pub trail : List (ℕ × Resolution T)
  pub current_level : ℕ

-- The moduli of `u32`, which ids and levels have, and the largest rank, a `u8`.
abbrev pub u32_mod : ℕ
u32_mod = 2 ^ 32

abbrev pub max_rank : ℕ
max_rank = 255

-- What `find`'s first loop ends with: the links that it followed and the root that it met, a cycle
-- (its bound was reached), or an id that the table does not hold.
pub data Walk : Type 0 where
  at_root : List ℕ → ℕ → Walk
  cycle : Walk
  out_of_range : Walk

abbrev pub visit : ℕ → Walk → Walk
visit cur (at_root path r) = at_root (cur ∷ path) r
visit cur cycle = cycle
visit cur out_of_range = out_of_range

abbrev pub Command : Type 0 → Type 0 → Type 0
Command T A = VarTable T → Option (A × VarTable T)

module _ {T : Type 0} where
  infixl 5 ◌>>=◌ ◌>>◌
  abbrev pub ◌>>=◌ : {A B : Type 0} → Command T A → (A → Command T B) → Command T B
  ◌>>=◌ m f t = elim (m t) [ none ↦ none | some (a, t') ↦ f a t' ]

  abbrev pub ◌>>◌ : {B : Type 0} → Command T (Unit {0}) → Command T B → Command T B
  m >> k = m >>= λ _. k

  abbrev pub pure : {A : Type 0} → A → Command T A
  pure a t = some (a, t)

  -- `self.cells[id].clone()`
  unfoldable pub cell : ℕ → Command T (Resolution T)
  cell id t = elim (get_elem? t.cells id) [ none ↦ none | some c ↦ some (c, t) ]

  -- `let prev = self.cells[id].clone(); self.trail.push((id, prev)); self.cells[id] = c;`
  unfoldable pub overwrite : ℕ → Resolution T → Command T (Unit {0})
  overwrite id c t = elim (get_elem? t.cells id) [
    | none ↦ none
    | some prev ↦ some (tt, record t { cells = set t.cells id c; trail = (id, prev) ∷ t.trail })
  ]

  unfoldable pub new : VarTable T
  new = record { cells = []; trail = []; current_level = 0 }

  unfoldable pub push_level : Command T ℕ
  push_level t =
      some (t.current_level, record t { current_level = (t.current_level + 1) % u32_mod })

  unfoldable pub pop_level : ℕ → Command T (Unit {0})
  pop_level saved t = some (tt, record t { current_level = saved })

  -- `while self.cells.len() < needed { self.cells.push(Unbound { level: 0, rank: 0 }) }`, with the
  -- number of rounds that are left.
  unfoldable pub pad : ℕ → List (Resolution T) → List (Resolution T)
  pad zero cells = cells
  pad (suc k) cells = pad k (cells ++ unbound 0 0 ∷ [])

  unfoldable pub ensure_id : ℕ → Command T (Unit {0})
  unfolding pad
  ensure_id id t = some (tt, record t { cells = pad ((id + 1) - length t.cells) t.cells })

  unfoldable pub fresh_at : ℕ → Command T ℕ
  fresh_at level t =
      some (length t.cells % u32_mod, record t { cells = t.cells ++ unbound level 0 ∷ [] })

  unfoldable pub fresh : Command T ℕ
  fresh t =
      some
        (length t.cells % u32_mod, record t { cells = t.cells ++ unbound t.current_level 0 ∷ [] })

  -- The first loop of `find`: `k` rounds are left before the bound.
  unfoldable pub walk : List (Resolution T) → ℕ → ℕ → Walk
  walk cells zero cur = cycle
  walk cells (suc k) cur = elim (get_elem? cells cur) [
    | none ↦ out_of_range
    | some (link next) ↦ visit cur (walk cells k next)
    | some _ ↦ at_root [] cur
  ]

  abbrev pub points_at : ℕ → Resolution T → Bool
  points_at r (link target) = target == r
  points_at r _ = false

  -- One round of the second loop.
  unfoldable pub repoint : ℕ → ℕ → Command T (Unit {0})
  unfolding overwrite
  repoint r node t = elim (get_elem? t.cells node) [
    | none ↦ none
    | some prev ↦ if points_at r prev then some (tt, t) else overwrite node (link r) t
  ]

  unfoldable pub compress : ℕ → List ℕ → Command T (Unit {0})
  compress r [] = pure tt
  compress r (node ∷ path) = do repoint r node; compress r path

  unfoldable pub find : ℕ → Command T ℕ
  find id t = elim (walk t.cells (suc (length t.cells)) id) [
    | at_root path r ↦ (do compress r path; pure r) t
    | cycle ↦ some (id, t)
    | out_of_range ↦ none
  ]

  unfoldable pub root_resolution : ℕ → Command T (Resolution T)
  unfolding cell
  root_resolution id = do root ← find id; cell root

  abbrev pub is_unbound : Resolution T → Bool
  is_unbound (unbound _ _) = true
  is_unbound _ = false

  unfoldable pub is_free : ℕ → Command T Bool
  unfolding cell
  is_free id = do root ← find id; c ← cell root; pure (is_unbound c)

  unfoldable pub bound_to : VarTable T → ℕ → Option T
  bound_to t root = elim (get_elem? t.cells root) [ some (bound ty) ↦ some ty | _ ↦ none ]

  -- `cells[root]` reads as unbound until `restore_bound`; neither is recorded on the trail.
  unfoldable pub take_bound : ℕ → Command T (Option T)
  take_bound root t = elim (get_elem? t.cells root) [
    | some (bound ty) ↦ some (some ty, record t { cells = set t.cells root (unbound 0 0) })
    | _ ↦ some (none, t)
  ]

  unfoldable pub restore_bound : ℕ → T → Command T (Unit {0})
  restore_bound root ty t = elim (get_elem? t.cells root) [
    | none ↦ none
    | some _ ↦ some (tt, record t { cells = set t.cells root (bound ty) })
  ]

  unfoldable pub find_if_present : ℕ → Command T (Option ℕ)
  find_if_present id t =
      if ltb id (length t.cells) then (do root ← find id; pure (some root)) t else some (none, t)

  unfoldable pub root_resolution_if_present : ℕ → Command T (Option (Resolution T))
  unfolding cell find_if_present
  root_resolution_if_present id = do
    found ← find_if_present id
    elim found [ none ↦ pure none | some root ↦ (do c ← cell root; pure (some c)) ]

  unfoldable pub peek : VarTable T → ℕ → Option (Resolution T)
  peek t id = get_elem? t.cells id

  unfoldable pub bind : ℕ → T → Command T (Unit {0})
  unfolding overwrite
  bind id ty = do root ← find id; overwrite root (bound ty)

  unfoldable pub force_bind_root : ℕ → T → Command T (Unit {0})
  unfolding overwrite
  force_bind_root root ty = overwrite root (bound ty)

  unfoldable pub link_to_root : ℕ → ℕ → Command T (Unit {0})
  unfolding overwrite
  link_to_root child parent = if child == parent then pure tt else overwrite child (link parent)

  -- The level and the rank of an unbound root; `union` panics at any other cell.
  unfoldable pub unbound_root : ℕ → Command T (ℕ × ℕ)
  unbound_root r t = elim (get_elem? t.cells r) [
    | some (unbound level rank) ↦ some ((level, rank), t)
    | _ ↦ none
  ]

  -- The last part of `union`: the loser links to the winner, which takes the merged level.
  unfoldable pub attach : (winner loser level rank : ℕ) → Command T (Unit {0})
  unfolding overwrite
  attach winner loser level rank = do
    overwrite loser (link winner)
    overwrite winner (unbound level rank)

  -- `match ranka.cmp(&rankb)`; on a tie the first root wins, and its rank grows (`saturating_add`).
  unfoldable pub attach_by_rank : (ra rb level ranka rankb : ℕ) → Command T (Unit {0})
  unfolding attach
  attach_by_rank ra rb level ranka rankb =
      if ltb ranka rankb
      then attach rb ra level rankb
      else if ltb rankb ranka
      then attach ra rb level ranka
      else attach ra rb level (min (ranka + 1) max_rank)

  unfoldable pub union : ℕ → ℕ → Command T (Unit {0})
  unfolding unbound_root attach_by_rank
  union a b = do
    ra ← find a
    rb ← find b
    if ra == rb then pure tt else do
      (la, ranka) ← unbound_root ra
      (lb, rankb) ← unbound_root rb
      attach_by_rank ra rb (min la lb) ranka rankb

  unfoldable pub snapshot : VarTable T → ℕ
  snapshot t = length t.trail

  -- `while self.trail.len() > target`
  unfoldable pub unwind :
      ℕ
      → List (ℕ × Resolution T)
      → List (Resolution T)
      → Option (List (ℕ × Resolution T) × List (Resolution T))
  unwind target [] cells = some ([], cells)
  unwind target ((id, prev) ∷ trail) cells =
      let rest = unwind target trail (set cells id prev) in
      if ltb target (suc (length trail))
      then elim (get_elem? cells id) [ none ↦ none | some _ ↦ rest ]
      else some ((id, prev) ∷ trail, cells)

  unfoldable pub restore : ℕ → Command T (Unit {0})
  unfolding unwind
  restore mark t = elim (unwind mark t.trail t.cells) [
    | none ↦ none
    | some (trail, cells) ↦ some (tt, record t { cells = cells; trail = trail })
  ]

  unfoldable pub commit_trail : Command T (Unit {0})
  commit_trail t = some (tt, record t { trail = [] })
