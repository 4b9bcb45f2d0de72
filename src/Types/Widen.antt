-- ===== src/Types/Widen.antt =====
-- crates/inty/src/types/ty.rs: the widening of literal types. What the widening of a literal may
-- change is passed along as a state.
pub mod Stable
mod Tests
use inty.Common.{Bool, true, false, ◌&&◌, Option, none, some, List, [], ◌∷◌}
use inty.Types.Ty.{
  LitValue, Nothing, Ty, number, string, boolean, undefined, null, regex, new_target, arrow_this,
  var, func, row, array, map, promise, tuple, named, literal, union, maybe, module_, typed_array,
  error, Tys, nil, cons,
}
use inty.Types.Row.{base_type}
use inty.Types.Union.{union_of, list_of}

abbrev some_type : Option Ty → Ty
some_type none = error
some_type (some t) = t

-- `Type::union`, which never runs out of its fuel (Union/Total).
unfoldable pub union_ty : List Ty → Ty
unfolding union_of
union_ty members = some_type (union_of members)

abbrev is_literal : Ty → Bool
is_literal (literal l) = true
is_literal t = false

abbrev pub all_literals : Tys → Bool
all_literals nil = true
all_literals (cons t ts) = is_literal t && all_literals ts

module _ {S : Type 0} (f : LitValue → S → Ty × S) where
  unfoldable mutual
    unfolding union_ty

    -- `widen_fresh_literals_with`
    pub widen_with : Ty → S → Ty × S
    widen_with (literal l) s = f l s
    widen_with (maybe z t) s = let (u, s1) = widen_with t s in (maybe z u, s1)
    widen_with (tuple ts) s = let (us, s1) = widen_tys ts s in (tuple us, s1)
    widen_with (union ts) s = elim (all_literals ts) [
      | true ↦ let (us, s1) = widen_tys ts s in (union_ty (list_of us), s1)
      | false ↦ (union ts, s)
    ]
    widen_with t s = (t, s)

    pub widen_tys : Tys → S → Tys × S
    widen_tys nil s = (nil, s)
    widen_tys (cons t ts) s =
        let (u, s1) = widen_with t s in let (us, s2) = widen_tys ts s1 in (cons u us, s2)

abbrev pub to_base : LitValue → Unit {0} → Ty × Unit {0}
to_base l s = (base_type l, s)

unfoldable pub widen_fresh_literals : Ty → Ty
unfolding widen_with
widen_fresh_literals t = (widen_with to_base t tt).0
