-- ===== src/Types/Union/Tests.antt =====
-- Unions of a few members.
use inty.Common.{◌≡◌, refl, none, some, List, [], ◌∷◌}
use inty.Types.Ty.{
  Ty, Nothing, number, string, null, array, union, maybe, func, absent, param, no_params, pre,
}
use inty.Types.Union.Equal.{ty_beq}
use inty.Types.Union.{union_of, arms, tys}
use inty.Types.Union.Total.{union_of-total}
use inty.Types.Union.Sorted.{union_of-arms, union_of-same_key}

abbrev mixed : List Ty
mixed =
    union (tys (string ∷ number ∷ [])) ∷ maybe Nothing.undefined (array string) ∷ number ∷ null ∷ []

union_of-mixed :
    union_of mixed
    ≡ some (
        maybe Nothing.null
          (maybe Nothing.undefined (union (tys (number ∷ string ∷ array string ∷ [])))))
unfolding union_of ty_beq
union_of-mixed = refl

union_single : union_of (number ∷ union (tys (number ∷ [])) ∷ []) ≡ some number
unfolding union_of ty_beq
union_single = refl

union_of-total_example : (t : Ty) × (union_of mixed ≡ some t)
union_of-total_example = union_of-total mixed

union_of-arms_example :
    union_of (arms (union (tys (number ∷ string ∷ array string ∷ []))))
    ≡ some (union (tys (number ∷ string ∷ array string ∷ [])))
unfolding union_of ty_beq
union_of-arms_example =
    union_of-arms number string (array string ∷ []) (refl, (refl, (refl, tt)))
      (((refl, refl), ((refl, refl), tt)), (((refl, refl), tt), (tt, tt)))

-- `(Number) => Number` and `(String) => Number`
abbrev from_number : Ty
from_number = func absent (param pre number none no_params) number

abbrev from_string : Ty
from_string = func absent (param pre string none no_params) number

union_of-same_key_example :
    union_of (arms (union (tys (from_number ∷ from_string ∷ []))))
    ≡ some (union (tys (from_string ∷ from_number ∷ [])))
unfolding union_of ty_beq
union_of-same_key_example = union_of-same_key from_number from_string refl refl refl refl
