-- ===== src/Dynamics/Tests.antt =====
-- A variable captured by two environments.
use inty.Common.{ℕ, ◌≡◌, refl, true, [], ◌∷◌, if◌then◌else◌, arith}
use inty.Common.Dict.{string_eq, nat_eq}
use inty.Dynamics.Store.{
  RuntimeEnv, Value, number, boolean, Props, var, Heap, ok, env_lookup, read_ident, write_ident,
  declare,
}
use inty.Dynamics.Variables.{same_loc, IsFresh, write_ident-read_ident, declare-read_ident}

abbrev V : Type 0
V = Value ℕ (Unit {0})

abbrev heap : Heap ℕ (Unit {0})
heap = record { cells = (0, var (number 7)) ∷ (1, var (boolean true)) ∷ []; next = 2 }

abbrev outer : RuntimeEnv
outer = record { frames = ("x", 0) ∷ [] }

abbrev inner : RuntimeEnv
inner = record { frames = ("y", 1) ∷ ("x", 0) ∷ [] }

abbrev assigned : Heap ℕ (Unit {0})
assigned = record { cells = (0, var (number 9)) ∷ (1, var (boolean true)) ∷ []; next = 2 }

x_is_shared : read_ident assigned inner "x" ≡ ok (number 9)
unfolding read_ident
x_is_shared = refl

write_ident-read_ident_example : read_ident assigned inner "x" ≡ (
    if same_loc (env_lookup outer "x") (env_lookup inner "x")
    then ok (number 9)
    else read_ident heap inner "x")
unfolding write_ident
write_ident-read_ident_example =
    write_ident-read_ident heap assigned outer inner "x" "x" (number 9) refl

heap-IsFresh : IsFresh heap
heap-IsFresh loc c h = ground (arith, nat_eq.beq_iff 0 loc, nat_eq.beq_iff 1 loc)

declare-read_ident_example :
    (read_ident
        (declare inner "x" (boolean true) heap).1
        (declare inner "x" (boolean true) heap).0
        "x"
      ≡ ok (boolean true))
    × (read_ident (declare inner "x" (boolean true) heap).1 outer "x" ≡ ok (number 7))
    × IsFresh (declare inner "x" (boolean true) heap).1
unfolding read_ident
declare-read_ident_example =
    declare-read_ident heap inner outer "x" "x" (boolean true) (number 7) heap-IsFresh refl

abbrev props : Props ℕ (Unit {0})
props = record { entries = ("a", number 1) ∷ ("b", number 2) ∷ [] }
