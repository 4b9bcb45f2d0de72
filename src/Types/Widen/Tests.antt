-- ===== src/Types/Widen/Tests.antt =====
-- Widening of small types.
use inty.Common.{◌≡◌, refl, true}
use inty.Types.Ty.{
  Ty, Nothing, LitValue, number, string, boolean, literal, tuple, union, maybe, nil, cons,
}
use inty.Types.Row.{base_type}
use inty.Types.Union.Equal.{ty_beq}
use inty.Types.Widen.{widen_fresh_literals}
use inty.Types.Widen.Stable.{widen_fresh_literals-stable}

-- `["a" | "b" | 1, true?]`
abbrev pair_type : Ty
pair_type = tuple (
    cons
      (union (
        cons (literal (LitValue.string "a"))
          (cons (literal (LitValue.string "b")) (cons (literal (LitValue.number 1)) nil))))
      (cons (maybe Nothing.undefined (literal (LitValue.bool true))) nil))

widen_pair :
    widen_fresh_literals pair_type
    ≡ tuple
        (cons (union (cons number (cons string nil))) (cons (maybe Nothing.undefined boolean) nil))
unfolding widen_fresh_literals ty_beq base_type
widen_pair = refl

widen_fresh_literals-stable_example :
    widen_fresh_literals (widen_fresh_literals pair_type) ≡ widen_fresh_literals pair_type
widen_fresh_literals-stable_example = widen_fresh_literals-stable pair_type
