-- ===== src/Types/Union/Total.antt =====
-- `Type::union` comes to an end: what its loop leaves holds no union, no sum, no `Null` and no
-- `Undefined`, so that its call of itself makes none.
use inty.Common.{
  ℕ, suc, ◌≡◌, refl, ap, ◌∙◌, Bool, true, false, Option, none, some, List, [], ◌∷◌, ◌++◌,
  append_assoc, append-nil, All, arith, sym,
}
use inty.Types.Ty.{
  Nothing, Ty, number, string, boolean, undefined, null, regex, new_target, arrow_this, var, func,
  row, array, map, promise, tuple, named, literal, union, maybe, module_, typed_array, error, Tys,
  nil, cons,
}
use inty.Types.Union.{
  Members, no_members, push, pop, pop_tys, pop_all, normal, with_nothing, finish, union_fuel,
  union_of,
}

-- Neither a union nor a sum nor a nothing.
abbrev pub is_plain : Ty → Bool
is_plain undefined = false
is_plain null = false
is_plain (union ts) = false
is_plain (maybe z t) = false
is_plain t = true

abbrev pub AllPlain : List Ty → Type 0
AllPlain ts = All (λ t. is_plain t ≡ true) ts

AllPlain-append : (ts us : List Ty) → AllPlain ts → AllPlain us → AllPlain (ts ++ us)
AllPlain-append [] us p q = q
AllPlain-append (t ∷ ts) us p q = (p.0, AllPlain-append ts us p.1 q)

abbrev pub reverse : List Ty → List Ty
reverse [] = []
reverse (t ∷ ts) = reverse ts ++ t ∷ []

pop-is_plain : (t : Ty) (s : Members) → is_plain t ≡ true → pop t s ≡ push t s
unfolding pop
pop-is_plain number s h = refl
pop-is_plain string s h = refl
pop-is_plain boolean s h = refl
pop-is_plain regex s h = refl
pop-is_plain new_target s h = refl
pop-is_plain arrow_this s h = refl
pop-is_plain (var v) s h = refl
pop-is_plain (func a b c) s h = refl
pop-is_plain (row a b) s h = refl
pop-is_plain (array t) s h = refl
pop-is_plain (map t) s h = refl
pop-is_plain (promise t) s h = refl
pop-is_plain (tuple ts) s h = refl
pop-is_plain (named n ts) s h = refl
pop-is_plain (literal l) s h = refl
pop-is_plain (module_ a b) s h = refl
pop-is_plain (typed_array k) s h = refl
pop-is_plain error s h = refl
pop-is_plain undefined s h = absurd (ground arith)
pop-is_plain null s h = absurd (ground arith)
pop-is_plain (union ts) s h = absurd (ground arith)
pop-is_plain (maybe z t) s h = absurd (ground arith)

-- The loop turns plain members around.
pub pop_all-AllPlain :
    (ts : List Ty) (s : Members)
    → AllPlain ts
    → pop_all ts s ≡ record s { flat = s.flat ++ reverse ts }
unfolding pop_all
pop_all-AllPlain [] s p = ap (λ l. record s { flat = l }) (sym (append-nil s.flat))
pop_all-AllPlain (t ∷ ts) s p =
    ap (pop t) (pop_all-AllPlain ts s p.1)
    ∙ (pop-is_plain t (record s { flat = s.flat ++ reverse ts }) p.0
        ∙ ap (λ l. record s { flat = l }) (append_assoc s.flat (reverse ts) (t ∷ [])))

mutual
  unfolding pop

  pop-AllPlain : (t : Ty) (s : Members) → AllPlain s.flat → AllPlain (pop t s).flat
  pop-AllPlain number s p = AllPlain-append s.flat _ p (refl, tt)
  pop-AllPlain string s p = AllPlain-append s.flat _ p (refl, tt)
  pop-AllPlain boolean s p = AllPlain-append s.flat _ p (refl, tt)
  pop-AllPlain regex s p = AllPlain-append s.flat _ p (refl, tt)
  pop-AllPlain new_target s p = AllPlain-append s.flat _ p (refl, tt)
  pop-AllPlain arrow_this s p = AllPlain-append s.flat _ p (refl, tt)
  pop-AllPlain (var v) s p = AllPlain-append s.flat _ p (refl, tt)
  pop-AllPlain (func a b c) s p = AllPlain-append s.flat _ p (refl, tt)
  pop-AllPlain (row a b) s p = AllPlain-append s.flat _ p (refl, tt)
  pop-AllPlain (array t) s p = AllPlain-append s.flat _ p (refl, tt)
  pop-AllPlain (map t) s p = AllPlain-append s.flat _ p (refl, tt)
  pop-AllPlain (promise t) s p = AllPlain-append s.flat _ p (refl, tt)
  pop-AllPlain (tuple ts) s p = AllPlain-append s.flat _ p (refl, tt)
  pop-AllPlain (named n ts) s p = AllPlain-append s.flat _ p (refl, tt)
  pop-AllPlain (literal l) s p = AllPlain-append s.flat _ p (refl, tt)
  pop-AllPlain (module_ a b) s p = AllPlain-append s.flat _ p (refl, tt)
  pop-AllPlain (typed_array k) s p = AllPlain-append s.flat _ p (refl, tt)
  pop-AllPlain error s p = AllPlain-append s.flat _ p (refl, tt)
  pop-AllPlain undefined s p = p
  pop-AllPlain null s p = p
  pop-AllPlain (union ts) s p = pop_tys-AllPlain ts s p
  pop-AllPlain (maybe Nothing.null t) s p = pop-AllPlain t s p
  pop-AllPlain (maybe Nothing.undefined t) s p = pop-AllPlain t s p

  pop_tys-AllPlain : (ts : Tys) (s : Members) → AllPlain s.flat → AllPlain (pop_tys ts s).flat
  pop_tys-AllPlain nil s p = p
  pop_tys-AllPlain (cons t ts) s p = pop-AllPlain t (pop_tys ts s) (pop_tys-AllPlain ts s p)

pop_all-flat : (ts : List Ty) (s : Members) → AllPlain s.flat → AllPlain (pop_all ts s).flat
unfolding pop_all
pop_all-flat [] s p = p
pop_all-flat (t ∷ ts) s p = pop-AllPlain t (pop_all ts s) (pop_all-flat ts s p)

-- On plain members one round is enough, which makes their normal form.
pub union_fuel-AllPlain :
    (k : ℕ) (ts : List Ty) → AllPlain ts → union_fuel (suc k) ts ≡ some (normal (reverse ts))
unfolding union_fuel finish
union_fuel-AllPlain k ts p =
    ap (λ s. finish (union_fuel k) s.has_null s.has_undefined s.flat)
      (pop_all-AllPlain ts no_members p)

finish-total :
    (again : List Ty → Option Ty) (n u : Bool) (flat : List Ty)
    → ((ts : List Ty) → AllPlain ts → (t : Ty) × (again ts ≡ some t))
    → AllPlain flat
    → (t : Ty) × (finish again n u flat ≡ some t)
unfolding finish
finish-total again false false flat h p = (normal flat, refl)
finish-total again true u [] h p = (with_nothing true u none, refl)
finish-total again true u (t ∷ ts) h p =
    let (core, e) = h (t ∷ ts) p in (with_nothing true u (some core), rw (finish, e) refl)
finish-total again false true [] h p = (with_nothing false true none, refl)
finish-total again false true (t ∷ ts) h p =
    let (core, e) = h (t ∷ ts) p in (with_nothing false true (some core), rw (finish, e) refl)

-- `Type::union` comes to an end on every list of members, with a type: two rounds are enough.
pub union_of-total : (members : List Ty) → (t : Ty) × (union_of members ≡ some t)
unfolding union_of union_fuel
union_of-total members =
    let s = pop_all members no_members in
    finish-total (union_fuel 1) s.has_null s.has_undefined s.flat
      (λ ts p. (normal (reverse ts), union_fuel-AllPlain 0 ts p))
      (pop_all-flat members no_members tt)
