-- ===== src/Types/Widen/Stable.antt =====
-- A widened type has no literal left to widen.
use inty.Common.{
  ◌≡◌, refl, ap, ◌∙◌, sym, subst, Bool, true, false, none, some, List, [], ◌∷◌, ◌++◌, All, arith,
  Bool-cases, inl, inr,
}
use inty.Types.Ty.{
  LitValue, Ty, number, string, boolean, undefined, null, regex, new_target, arrow_this, var, func,
  row, array, map, promise, tuple, named, literal, union, maybe, module_, typed_array, error, Tys,
  nil, cons,
}
use inty.Types.Row.{base_type}
use inty.Types.Union.{
  key_le, insert_sorted, sort, has_equal, distinct, tys, collapse, normal, union_of, list_of,
}
use inty.Types.Union.Total.{is_plain, AllPlain, reverse, union_fuel-AllPlain}
use inty.Types.Widen.{union_ty, all_literals, widen_with, widen_tys, widen_fresh_literals, to_base}

-- What a literal widens to.
abbrev is_base : Ty → Bool
is_base number = true
is_base string = true
is_base boolean = true
is_base t = false

abbrev AllBase : List Ty → Type 0
AllBase ts = All (λ t. is_base t ≡ true) ts

is_base-is_plain : (t : Ty) → is_base t ≡ true → is_plain t ≡ true
is_base-is_plain number h = refl
is_base-is_plain string h = refl
is_base-is_plain boolean h = refl
is_base-is_plain undefined h = absurd (ground arith)
is_base-is_plain null h = absurd (ground arith)
is_base-is_plain regex h = absurd (ground arith)
is_base-is_plain new_target h = absurd (ground arith)
is_base-is_plain arrow_this h = absurd (ground arith)
is_base-is_plain (var v) h = absurd (ground arith)
is_base-is_plain (func a b c) h = absurd (ground arith)
is_base-is_plain (row a b) h = absurd (ground arith)
is_base-is_plain (array t) h = absurd (ground arith)
is_base-is_plain (map t) h = absurd (ground arith)
is_base-is_plain (promise t) h = absurd (ground arith)
is_base-is_plain (named n ts) h = absurd (ground arith)
is_base-is_plain (module_ a b) h = absurd (ground arith)
is_base-is_plain (typed_array k) h = absurd (ground arith)
is_base-is_plain error h = absurd (ground arith)
is_base-is_plain (tuple ts) h = absurd (ground arith)
is_base-is_plain (literal l) h = absurd (ground arith)
is_base-is_plain (union ts) h = absurd (ground arith)
is_base-is_plain (maybe z t) h = absurd (ground arith)

AllBase-AllPlain : (ts : List Ty) → AllBase ts → AllPlain ts
AllBase-AllPlain [] h = tt
AllBase-AllPlain (t ∷ ts) h = (is_base-is_plain t h.0, AllBase-AllPlain ts h.1)

AllBase-append : (ts us : List Ty) → AllBase ts → AllBase us → AllBase (ts ++ us)
AllBase-append [] us h i = i
AllBase-append (t ∷ ts) us h i = (h.0, AllBase-append ts us h.1 i)

reverse-AllBase : (ts : List Ty) → AllBase ts → AllBase (reverse ts)
reverse-AllBase [] h = tt
reverse-AllBase (t ∷ ts) h = AllBase-append (reverse ts) (t ∷ []) (reverse-AllBase ts h.1) (h.0, tt)

distinct-AllBase : (ts seen : List Ty) → AllBase ts → AllBase seen → AllBase (distinct ts seen)
unfolding distinct
distinct-AllBase [] seen h i = i
distinct-AllBase (t ∷ ts) seen h i = elim (Bool-cases (has_equal t seen)) [
  | inl e ↦ rw (distinct, e) (distinct-AllBase ts seen h.1 i)
  | inr e ↦
      rw (distinct, e)
        (distinct-AllBase ts (seen ++ t ∷ []) h.1 (AllBase-append seen (t ∷ []) i (h.0, tt)))
]

insert_sorted-AllBase :
    (t : Ty) (ts : List Ty) → is_base t ≡ true → AllBase ts → AllBase (insert_sorted key_le t ts)
insert_sorted-AllBase t [] h i = (h, tt)
insert_sorted-AllBase t (u ∷ ts) h i = elim (Bool-cases (key_le t u)) [
  | inl e ↦ rw e (h, i)
  | inr e ↦ rw e (i.0, insert_sorted-AllBase t ts h i.1)
]

sort-AllBase : (ts : List Ty) → AllBase ts → AllBase (sort key_le ts)
sort-AllBase [] h = tt
sort-AllBase (t ∷ ts) h = insert_sorted-AllBase t (sort key_le ts) h.0 (sort-AllBase ts h.1)

-- Left as it is.
abbrev IsStable : Ty → Type 0
IsStable t = widen_fresh_literals t ≡ t

is_base-IsStable : (t : Ty) → is_base t ≡ true → IsStable t
unfolding widen_fresh_literals
is_base-IsStable number h = refl
is_base-IsStable string h = refl
is_base-IsStable boolean h = refl
is_base-IsStable undefined h = absurd (ground arith)
is_base-IsStable null h = absurd (ground arith)
is_base-IsStable regex h = absurd (ground arith)
is_base-IsStable new_target h = absurd (ground arith)
is_base-IsStable arrow_this h = absurd (ground arith)
is_base-IsStable (var v) h = absurd (ground arith)
is_base-IsStable (func a b c) h = absurd (ground arith)
is_base-IsStable (row a b) h = absurd (ground arith)
is_base-IsStable (array t) h = absurd (ground arith)
is_base-IsStable (map t) h = absurd (ground arith)
is_base-IsStable (promise t) h = absurd (ground arith)
is_base-IsStable (named n ts) h = absurd (ground arith)
is_base-IsStable (module_ a b) h = absurd (ground arith)
is_base-IsStable (typed_array k) h = absurd (ground arith)
is_base-IsStable error h = absurd (ground arith)
is_base-IsStable (tuple ts) h = absurd (ground arith)
is_base-IsStable (literal l) h = absurd (ground arith)
is_base-IsStable (union ts) h = absurd (ground arith)
is_base-IsStable (maybe z t) h = absurd (ground arith)

is_base-all_literals : (t : Ty) (ts : Tys) → is_base t ≡ true → all_literals (cons t ts) ≡ false
is_base-all_literals number us h = refl
is_base-all_literals string us h = refl
is_base-all_literals boolean us h = refl
is_base-all_literals undefined us h = absurd (ground arith)
is_base-all_literals null us h = absurd (ground arith)
is_base-all_literals regex us h = absurd (ground arith)
is_base-all_literals new_target us h = absurd (ground arith)
is_base-all_literals arrow_this us h = absurd (ground arith)
is_base-all_literals (var v) us h = absurd (ground arith)
is_base-all_literals (func a b c) us h = absurd (ground arith)
is_base-all_literals (row a b) us h = absurd (ground arith)
is_base-all_literals (array t) us h = absurd (ground arith)
is_base-all_literals (map t) us h = absurd (ground arith)
is_base-all_literals (promise t) us h = absurd (ground arith)
is_base-all_literals (named n ts) us h = absurd (ground arith)
is_base-all_literals (module_ a b) us h = absurd (ground arith)
is_base-all_literals (typed_array k) us h = absurd (ground arith)
is_base-all_literals error us h = absurd (ground arith)
is_base-all_literals (tuple ts) us h = absurd (ground arith)
is_base-all_literals (literal l) us h = absurd (ground arith)
is_base-all_literals (union ts) us h = absurd (ground arith)
is_base-all_literals (maybe z t) us h = absurd (ground arith)

collapse-IsStable : (ts : List Ty) → AllBase ts → IsStable (collapse ts)
unfolding widen_fresh_literals union_ty union_of normal distinct
collapse-IsStable [] h = refl
collapse-IsStable (t ∷ []) h = is_base-IsStable t h.0
collapse-IsStable (t ∷ u ∷ ts) h =
    rw (widen_fresh_literals, widen_with, is_base-all_literals t (tys (u ∷ ts)) h.0) refl

union_ty-AllBase : (ts : List Ty) → AllBase ts → IsStable (union_ty ts)
unfolding union_ty union_of normal
union_ty-AllBase ts h =
    subst (λ o. IsStable (elim o as (λ _. Ty) [ none ↦ error | some t ↦ t ]))
      (sym (union_fuel-AllPlain 1 ts (AllBase-AllPlain ts h)))
      (collapse-IsStable (sort key_le (distinct (reverse ts) [])) (
        sort-AllBase (distinct (reverse ts) [])
          (distinct-AllBase (reverse ts) [] (reverse-AllBase ts h) tt)))

base_type-is_base : (l : LitValue) → is_base (base_type l) ≡ true
unfolding base_type
base_type-is_base (LitValue.string s) = refl
base_type-is_base (LitValue.number n) = refl
base_type-is_base (LitValue.bool b) = refl

abbrev widened_tys : Tys → Tys
widened_tys ts = (widen_tys to_base ts tt).0

widen_tys-AllBase : (ts : Tys) → all_literals ts ≡ true → AllBase (list_of (widened_tys ts))
unfolding widen_with
widen_tys-AllBase nil h = tt
widen_tys-AllBase (cons (literal l) ts) h = (base_type-is_base l, widen_tys-AllBase ts h)
widen_tys-AllBase (cons number us) h = absurd (ground arith)
widen_tys-AllBase (cons string us) h = absurd (ground arith)
widen_tys-AllBase (cons boolean us) h = absurd (ground arith)
widen_tys-AllBase (cons undefined us) h = absurd (ground arith)
widen_tys-AllBase (cons null us) h = absurd (ground arith)
widen_tys-AllBase (cons regex us) h = absurd (ground arith)
widen_tys-AllBase (cons new_target us) h = absurd (ground arith)
widen_tys-AllBase (cons arrow_this us) h = absurd (ground arith)
widen_tys-AllBase (cons (var v) us) h = absurd (ground arith)
widen_tys-AllBase (cons (func a b c) us) h = absurd (ground arith)
widen_tys-AllBase (cons (row a b) us) h = absurd (ground arith)
widen_tys-AllBase (cons (array t) us) h = absurd (ground arith)
widen_tys-AllBase (cons (map t) us) h = absurd (ground arith)
widen_tys-AllBase (cons (promise t) us) h = absurd (ground arith)
widen_tys-AllBase (cons (named n ts) us) h = absurd (ground arith)
widen_tys-AllBase (cons (module_ a b) us) h = absurd (ground arith)
widen_tys-AllBase (cons (typed_array k) us) h = absurd (ground arith)
widen_tys-AllBase (cons error us) h = absurd (ground arith)
widen_tys-AllBase (cons (tuple ts) us) h = absurd (ground arith)
widen_tys-AllBase (cons (union ts) us) h = absurd (ground arith)
widen_tys-AllBase (cons (maybe z t) us) h = absurd (ground arith)

union_literals :
    (ts : Tys)
    → all_literals ts ≡ true
    → widen_fresh_literals (union ts) ≡ union_ty (list_of (widened_tys ts))
unfolding widen_fresh_literals
union_literals ts e = rw (widen_fresh_literals, widen_with, e) refl

union_others : (ts : Tys) → all_literals ts ≡ false → widen_fresh_literals (union ts) ≡ union ts
unfolding widen_fresh_literals
union_others ts e = rw (widen_fresh_literals, widen_with, e) refl

cons_same : {t u : Ty} {ts us : Tys} → t ≡ u → ts ≡ us → cons t ts ≡ cons u us
cons_same e f = cc

mutual
  unfolding widen_fresh_literals widen_with

  widen_type-stable :
      (t : Ty) → widen_fresh_literals (widen_fresh_literals t) ≡ widen_fresh_literals t
  widen_type-stable number = refl
  widen_type-stable string = refl
  widen_type-stable boolean = refl
  widen_type-stable undefined = refl
  widen_type-stable null = refl
  widen_type-stable regex = refl
  widen_type-stable new_target = refl
  widen_type-stable arrow_this = refl
  widen_type-stable (var v) = refl
  widen_type-stable (func a b c) = refl
  widen_type-stable (row a b) = refl
  widen_type-stable (array t) = refl
  widen_type-stable (map t) = refl
  widen_type-stable (promise t) = refl
  widen_type-stable (named n ts) = refl
  widen_type-stable (module_ a b) = refl
  widen_type-stable (typed_array k) = refl
  widen_type-stable error = refl
  widen_type-stable (literal l) = is_base-IsStable (base_type l) (base_type-is_base l)
  widen_type-stable (maybe z t) = ap (maybe z) (widen_type-stable t)
  widen_type-stable (tuple ts) = ap tuple (widen_tys-stable ts)
  widen_type-stable (union ts) = elim (Bool-cases (all_literals ts)) [
    | inl e ↦
        let q = union_literals ts e in
        ap widen_fresh_literals q
        ∙ (union_ty-AllBase (list_of (widened_tys ts)) (widen_tys-AllBase ts e) ∙ sym q)
    | inr e ↦ ap widen_fresh_literals (union_others ts e)
  ]

  widen_tys-stable : (ts : Tys) → widened_tys (widened_tys ts) ≡ widened_tys ts
  widen_tys-stable nil = refl
  widen_tys-stable (cons t ts) = cons_same (widen_type-stable t) (widen_tys-stable ts)

-- Widening the fresh literals of a type a second time changes nothing.
pub widen_fresh_literals-stable :
    (t : Ty) → widen_fresh_literals (widen_fresh_literals t) ≡ widen_fresh_literals t
widen_fresh_literals-stable t = widen_type-stable t
