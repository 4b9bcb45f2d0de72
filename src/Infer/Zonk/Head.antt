-- ===== src/Infer/Zonk/Head.antt =====
-- crates/inty/src/infer/zonk.rs: the head of a type, which is what its variable is bound to.
-- `zonk_head_cow` and `with_head` follow at most 64 bindings.
pub mod Meaning
pub mod Reads
use inty.Common.{ℕ, zero, suc, Option, none, some}
use inty.Types.Ty.{Ty, flex, skolem, var}
use inty.Infer.VarTable.{
  Resolution, unbound, link, bound, Command, ◌>>=◌, pure, find_if_present, root_resolution,
  bound_to,
}

-- The type itself, what a variable is bound to, or a variable.
pub data Head : Type 0 where
  borrowed : Ty → Head
  shared : Ty → Head
  owned : Ty → Head

unfoldable pub into_owned : Head → Ty
into_owned (borrowed t) = t
into_owned (shared t) = t
into_owned (owned t) = t

abbrev pub max_rounds : ℕ
max_rounds = 64

-- The pattern `Type::Var(TVarName::Flex(id))`.
unfoldable pub as_flex : Ty → Option ℕ
as_flex (var (flex id)) = some id
as_flex _ = none

-- The `match` of one round; `go` is the rounds that are left.
unfoldable pub head_at_content : (ℕ → Command Ty Head) → ℕ → Resolution Ty → Command Ty Head
unfolding as_flex
head_at_content go root (bound ty) = elim (as_flex ty) [
  | some next ↦ go next
  | none ↦ pure (shared ty)
]
head_at_content go root (unbound _ _) = pure (owned (var (flex root)))
head_at_content go root (link _) = pure (owned (var (flex root)))

-- The loop of `zonk_head_cow`, with the number of rounds that are left.
unfoldable pub head_rounds : ℕ → ℕ → Command Ty Head
unfolding find_if_present root_resolution head_at_content
head_rounds zero id = pure (owned (var (flex id)))
head_rounds (suc k) id = do
  found ← find_if_present id
  elim found [
    | none ↦ pure (owned (var (flex id)))
    | some root ↦ (do content ← root_resolution root; head_at_content (head_rounds k) root content)
  ]

unfoldable pub zonk_head_cow : Ty → Command Ty Head
unfolding as_flex head_rounds
zonk_head_cow ty = elim (as_flex ty) [
  | some id ↦ head_rounds max_rounds id
  | none ↦ pure (borrowed ty)
]

module _ {R : Type 0} (f : Ty → R) where
  unfoldable pub look_at : (ℕ → Command Ty R) → ℕ → Option Ty → Command Ty R
  unfolding as_flex
  look_at go root (some ty) = elim (as_flex ty) [ some next ↦ go next | none ↦ pure (f ty) ]
  look_at go root none = pure (f (var (flex root)))

  -- The loop of `with_head`, which asks the table for what a root is bound to.
  unfoldable pub look_rounds : ℕ → ℕ → Command Ty R
  unfolding find_if_present bound_to look_at
  look_rounds zero id = pure (f (var (flex id)))
  look_rounds (suc k) id = do
    found ← find_if_present id
    elim found [
      | none ↦ pure (f (var (flex id)))
      | some root ↦ λ t. look_at (look_rounds k) root (bound_to t root) t
    ]

  unfoldable pub with_head : Ty → Command Ty R
  unfolding as_flex look_rounds
  with_head ty = elim (as_flex ty) [ some id ↦ look_rounds max_rounds id | none ↦ pure (f ty) ]
