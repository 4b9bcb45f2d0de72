-- ===== src/Types/Union.antt =====
-- crates/inty/src/types/ty.rs: unions of types. The stack `pending` of `Type::union` is a recursion:
-- what a member expands to is popped before the members below it. The call of `Type::union` in its own
-- body runs on fuel; two rounds are enough (Total). A text is the list of its code points, whose order
-- is that of its bytes.
pub mod Equal
pub mod Total
pub mod Sorted
mod Tests
use inty.Common.{
  ℕ, zero, suc, ◌+◌, ◌/◌, ◌%◌, Bool, true, false, not, ◌&&◌, ◌||◌, Option, none, some, List, [],
  ◌∷◌, ◌++◌, if◌then◌else◌, ltb, leb, ◌==◌,
}
use inty.Common.Chars.{codes}
use inty.Types.Ty.{
  TVarName, PVarName, flex, skolem, LitValue, Nothing, Ty, number, string, boolean, undefined, null,
  regex, new_target, arrow_this, var, func, row, array, map, promise, tuple, named, literal, union,
  maybe, module_, typed_array, error, Tys, nil, cons, OptionTy, absent, this, Params, no_params,
  param, Props, no_props, prop, Tail, closed, open_, recursive,
}
use inty.Types.Row.{kind_name}
use inty.Types.Union.Equal.{ty_beq}

-- `Nothing::ty`
abbrev pub nothing_ty : Nothing → Ty
nothing_ty Nothing.null = null
nothing_ty Nothing.undefined = undefined

-- `to_string` of a number below 10 ^ 20, as those of 64 bits are.
abbrev digits : ℕ → ℕ → List ℕ → List ℕ
digits zero n text = text
digits (suc k) n text =
    if ltb n 10 then (b'0' + n) ∷ text else digits k (n / 10) ((b'0' + n % 10) ∷ text)

abbrev pub decimal : ℕ → List ℕ
decimal n = digits 20 n []

abbrev pub text_le : List ℕ → List ℕ → Bool
text_le [] t = true
text_le (a ∷ s) [] = false
text_le (a ∷ s) (b ∷ t) = ltb a b || (a == b && text_le s t)

-- `sort` and `sort_by_key`, which are stable.
module _ {A : Type 0} (le : A → A → Bool) where
  abbrev pub insert_sorted : A → List A → List A
  insert_sorted x [] = x ∷ []
  insert_sorted x (y ∷ ys) = if le x y then x ∷ y ∷ ys else y ∷ insert_sorted x ys

  abbrev pub sort : List A → List A
  sort [] = []
  sort (x ∷ xs) = insert_sorted x (sort xs)

-- `join(",")`
abbrev join : List (List ℕ) → List ℕ
join [] = []
join (s ∷ []) = s
join (s ∷ t ∷ ts) = s ++ (b',' ∷ join (t ∷ ts))

abbrev count_params : Params → ℕ
count_params no_params = 0
count_params (param p t name ps) = suc (count_params ps)

abbrev prop_names : Props → List (List ℕ)
prop_names no_props = []
prop_names (prop name p t w o ps) = codes name ∷ prop_names ps

unfoldable pub lit_key : LitValue → ℕ × List ℕ
lit_key (LitValue.string s) = (0, codes s)
lit_key (LitValue.number n) = (1, decimal n)
lit_key (LitValue.bool true) = (2, codes "true")
lit_key (LitValue.bool false) = (2, codes "false")

unfoldable mutual
  unfolding lit_key kind_name

  -- `union_member_sort_key`
  pub sort_key : Ty → ℕ × List ℕ
  sort_key number = (0, [])
  sort_key string = (1, [])
  sort_key boolean = (2, [])
  sort_key undefined = (3, [])
  sort_key null = (4, [])
  sort_key regex = (5, [])
  sort_key new_target = (5, codes "new.target")
  sort_key arrow_this = (5, codes "arrow.this")
  sort_key (typed_array k) = (19, codes (kind_name k))
  sort_key (literal l) = let (sub, key) = lit_key l in (6, decimal sub ++ (b'|' ∷ key))
  sort_key (var (flex i)) = (7, b'f' ∷ decimal i)
  sort_key (var (skolem i)) = (8, b's' ∷ decimal i)
  sort_key (func this_type params ret) =
      (9, decimal (count_params params) ++ (b'-' ∷ b'>' ∷ (sort_key ret).1))
  sort_key (row props tail) = (10, join (sort text_le (prop_names props)))
  sort_key (array t) = (11, (sort_key t).1)
  sort_key (maybe z t) = (20, (sort_key t).1)
  sort_key (map t) = (12, (sort_key t).1)
  sort_key (promise t) = (13, (sort_key t).1)
  sort_key (named i ts) = (14, decimal i)
  sort_key (union ts) = (15, [])
  sort_key (module_ source xs) = (16, codes source)
  sort_key error = (17, [])
  sort_key (tuple ts) = (18, join (sort_keys ts))

  pub sort_keys : Tys → List (List ℕ)
  sort_keys nil = []
  sort_keys (cons t ts) = (sort_key t).1 ∷ sort_keys ts

abbrev pair_le : ℕ × List ℕ → ℕ × List ℕ → Bool
pair_le (a, s) (b, t) = ltb a b || (a == b && text_le s t)

unfoldable pub key_le : Ty → Ty → Bool
unfolding sort_key
key_le a b = pair_le (sort_key a) (sort_key b)

-- What the loop of `Type::union` has seen: `flat`, `null` and `undefined`.
pub record Members : Type 0 where
  pub flat : List Ty
  pub has_null : Bool
  pub has_undefined : Bool

abbrev pub no_members : Members
no_members = record { flat = []; has_null = false; has_undefined = false }

abbrev pub push : Ty → Members → Members
push t s = record s { flat = s.flat ++ t ∷ [] }

unfoldable mutual
  pub pop : Ty → Members → Members
  pop null s = record s { has_null = true }
  pop undefined s = record s { has_undefined = true }
  pop (union ts) s = pop_tys ts s
  pop (maybe Nothing.null t) s = record (pop t s) { has_null = true }
  pop (maybe Nothing.undefined t) s = record (pop t s) { has_undefined = true }
  pop t s = push t s

  -- The last one first.
  pub pop_tys : Tys → Members → Members
  pop_tys nil s = s
  pop_tys (cons t ts) s = pop t (pop_tys ts s)

unfoldable pub pop_all : List Ty → Members → Members
unfolding pop
pop_all [] s = s
pop_all (t ∷ ts) s = pop t (pop_all ts s)

abbrev pub has_equal : Ty → List Ty → Bool
has_equal t [] = false
has_equal t (s ∷ seen) = ty_beq s t || has_equal t seen

-- The loop that removes what was seen before.
unfoldable pub distinct : List Ty → List Ty → List Ty
distinct [] seen = seen
distinct (t ∷ ts) seen = if has_equal t seen then distinct ts seen else distinct ts (seen ++ t ∷ [])

abbrev pub tys : List Ty → Tys
tys [] = nil
tys (t ∷ ts) = cons t (tys ts)

abbrev pub collapse : List Ty → Ty
collapse (t ∷ []) = t
collapse ts = union (tys ts)

-- The end of `Type::union`, without `Null` and `Undefined`.
unfoldable pub normal : List Ty → Ty
unfolding distinct key_le
normal flat = collapse (sort key_le (distinct flat []))

-- What `Null` and `Undefined` make of the other members.
abbrev pub with_nothing : (has_null has_undefined : Bool) → Option Ty → Ty
with_nothing has_null true (some t) =
    if has_null then maybe Nothing.null (maybe Nothing.undefined t) else maybe Nothing.undefined t
with_nothing has_null false (some t) = if has_null then maybe Nothing.null t else t
with_nothing has_null true none = if has_null then maybe Nothing.null undefined else undefined
with_nothing has_null false none = null

-- The union behind the loop; `again` is the call of `Type::union` in its body.
unfoldable pub finish :
    (List Ty → Option Ty) → (has_null has_undefined : Bool) → List Ty → Option Ty
unfolding normal
finish again has_null has_undefined flat = elim (has_null || has_undefined) [
  | false ↦ some (normal flat)
  | true ↦ elim flat [
    | [] ↦ some (with_nothing has_null has_undefined none)
    | t ∷ ts ↦ elim (again (t ∷ ts)) [
      | none ↦ none
      | some core ↦ some (with_nothing has_null has_undefined (some core))
    ]
  ]
]

unfoldable pub union_fuel : ℕ → List Ty → Option Ty
unfolding pop_all finish
union_fuel zero members = none
union_fuel (suc k) members =
    let s = pop_all members no_members in finish (union_fuel k) s.has_null s.has_undefined s.flat

unfoldable pub union_of : List Ty → Option Ty
unfolding union_fuel
union_of = union_fuel 2

abbrev pub list_of : Tys → List Ty
list_of nil = []
list_of (cons t ts) = t ∷ list_of ts

-- `Type::arms`
unfoldable pub arms : Ty → List Ty
arms (union ts) = list_of ts
arms (maybe z t) = nothing_ty z ∷ arms t
arms t = t ∷ []
