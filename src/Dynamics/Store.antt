-- ===== src/Dynamics/Store.antt =====
-- crates/inty/src/dynamics/value.rs, heap.rs and env.rs, and the arms of step.rs that read, write and
-- declare variables. `F` is the type of floats and `B` that of function bodies. A write
-- through `get_mut` to a cell that is there is `put`.
use Prim.Native.String.{String}
use text.Mathlib.Text.{◌==◌ as str_eq}
use inty.Common.{ℕ, ◌+◌, Bool, Option, none, some, List, [], ◌∷◌, map, if◌then◌else◌}
use inty.Common.Dict
use inty.Common.Dict.{Eq, string_eq, nat_eq, ◌=?◌, lookup}

-- A frame of the persistent chain: a name and the location of its cell.
pub record RuntimeEnv : Type 0 where
  pub frames : List (String × ℕ)

pub record Closure (B : Type 0) : Type 0 where
  pub name : Option String
  pub params : List String
  pub body : B
  pub env : RuntimeEnv
  pub arrow : Bool
  pub constructor_ : Bool

pub data Value (F B : Type 0) : Type 0 where
  number : F → Value F B
  string : String → Value F B
  boolean : Bool → Value F B
  null undefined : Value F B
  closure getter : Closure B → Value F B
  array object : ℕ → Value F B
  promise : Value F B → Value F B
  builtin : String → Value F B

pub record Props (F B : Type 0) : Type 0 where
  pub entries : List (String × Value F B)

pub data Cell (F B : Type 0) : Type 0 where
  object : Props F B → Cell F B
  array : List (Value F B) → Cell F B
  var : Value F B → Cell F B

pub record Heap (F B : Type 0) : Type 0 where
  pub cells : List (ℕ × Cell F B)
  pub next : ℕ

-- The reasons for which a variable is stuck.
pub data Stuck : Type 0 where
  undefined_variable : String → Stuck
  bad_assignment_target dangling_loc non_var_cell : Stuck

pub data Result (A : Type 0) : Type 0 where
  ok : A → Result A
  stuck : Stuck → Result A

unfoldable pub extend : RuntimeEnv → String → ℕ → RuntimeEnv
extend env name loc = record { frames = (name, loc) ∷ env.frames }

-- `while let Some(frame) = cursor`
unfoldable pub lookup_frame : List (String × ℕ) → String → Option ℕ
lookup_frame [] name = none
lookup_frame ((n, loc) ∷ frames) name = if str_eq n name then some loc else lookup_frame frames name

unfoldable pub env_lookup : RuntimeEnv → String → Option ℕ
unfolding lookup_frame
env_lookup env name = lookup_frame env.frames name

module _ {F B : Type 0} where
  unfoldable pub prop_get : Props F B → String → Option (Value F B)
  prop_get props name = Dict.lookup name props.entries

  unfoldable pub insert_entry :
      String → Value F B → List (String × Value F B) → List (String × Value F B)
  insert_entry name value [] = (name, value) ∷ []
  insert_entry name value ((k, v) ∷ entries) =
      if k =? name then (k, value) ∷ entries else (k, v) ∷ insert_entry name value entries

  unfoldable pub prop_insert : String → Value F B → Props F B → Props F B
  unfolding insert_entry
  prop_insert name value props = record { entries = insert_entry name value props.entries }

  unfoldable pub prop_keys : Props F B → List String
  prop_keys props = map (λ e. e.0) props.entries

  unfoldable pub empty_heap : Heap F B
  empty_heap = record { cells = []; next = 0 }

  unfoldable pub alloc : Cell F B → Heap F B → ℕ × Heap F B
  alloc cell h = (h.next, record { cells = Dict.insert h.next cell h.cells; next = h.next + 1 })

  unfoldable pub cell_at : Heap F B → ℕ → Option (Cell F B)
  cell_at h loc = lookup loc h.cells

  unfoldable pub put : ℕ → Cell F B → Heap F B → Heap F B
  put loc cell h = record h { cells = Dict.insert loc cell h.cells }

  unfoldable pub alloc_var : Value F B → Heap F B → ℕ × Heap F B
  unfolding alloc
  alloc_var value h = alloc (var value) h

  unfoldable pub deref_var : Heap F B → ℕ → Result (Value F B)
  unfolding cell_at
  deref_var h loc = elim (cell_at h loc) [
    | some (var v) ↦ ok v
    | some _ ↦ stuck non_var_cell
    | none ↦ stuck dangling_loc
  ]

  -- `eval_expr`, on an identifier.
  unfoldable pub read_ident : Heap F B → RuntimeEnv → String → Result (Value F B)
  unfolding env_lookup deref_var
  read_ident h env name = elim (env_lookup env name) [
    | some loc ↦ deref_var h loc
    | none ↦ if str_eq name "undefined" then ok undefined else stuck (undefined_variable name)
  ]

  -- `write_place`, on an identifier.
  unfoldable pub write_ident : RuntimeEnv → String → Value F B → Heap F B → Result (Heap F B)
  unfolding env_lookup cell_at put
  write_ident env name value h = elim (env_lookup env name) [
    | none ↦ stuck (undefined_variable name)
    | some loc ↦ elim (cell_at h loc) [
      | some (var v) ↦ ok (put loc (var value) h)
      | some _ ↦ stuck bad_assignment_target
      | none ↦ stuck bad_assignment_target
    ]
  ]

  -- `bind_for_lhs`, on a declaration.
  unfoldable pub declare : RuntimeEnv → String → Value F B → Heap F B → RuntimeEnv × Heap F B
  unfolding alloc_var extend
  declare env name value h = (extend env name (alloc_var value h).0, (alloc_var value h).1)
