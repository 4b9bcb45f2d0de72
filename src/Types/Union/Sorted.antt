-- ===== src/Types/Union/Sorted.antt =====
-- When `Type::union` of the arms of a union is that union.
use inty.Common.{
  ◌≡◌, refl, ap, ◌∙◌, sym, true, false, ◌||◌, some, List, [], ◌∷◌, ◌++◌, append_assoc, append-nil,
  All, arith, Bool-cases, inl, inr,
}
use inty.Types.Ty.{Ty, union}
use inty.Types.Union.Equal.{ty_beq}
use inty.Types.Union.{
  key_le, insert_sorted, sort, has_equal, distinct, tys, collapse, normal, union_fuel, union_of,
  list_of, arms,
}
use inty.Types.Union.Total.{is_plain, AllPlain, reverse, union_fuel-AllPlain}

-- Neither equal nor behind in the order of the keys.
abbrev pub IsBefore : Ty → Ty → Type 0
IsBefore x y = (key_le y x ≡ false) × (ty_beq y x ≡ false)

-- Each member is before those behind it.
abbrev pub IsSorted : List Ty → Type 0
IsSorted [] = Unit {0}
IsSorted (x ∷ xs) = All (IsBefore x) xs × IsSorted xs

has_equal-append :
    (t : Ty) (xs ys : List Ty) → has_equal t (xs ++ ys) ≡ (has_equal t xs || has_equal t ys)
has_equal-append t [] ys = refl
has_equal-append t (x ∷ xs) ys = ground (arith, has_equal-append t xs ys)

has_equal-reverse : (t : Ty) (ts : List Ty) → All (IsBefore t) ts → has_equal t (reverse ts) ≡ false
has_equal-reverse t [] h = refl
has_equal-reverse t (x ∷ xs) h =
    ground (arith, has_equal-append t (reverse xs) (x ∷ []), has_equal-reverse t xs h.1, h.0.1)

distinct-append : (xs ys seen : List Ty) → distinct (xs ++ ys) seen ≡ distinct ys (distinct xs seen)
unfolding distinct
distinct-append [] ys seen = refl
distinct-append (x ∷ xs) ys seen = elim (Bool-cases (has_equal x seen)) [
  | inl e ↦ rw (distinct, e) (distinct-append xs ys seen)
  | inr e ↦ rw (distinct, e) (distinct-append xs ys (seen ++ x ∷ []))
]

distinct-reverse : (ts : List Ty) → IsSorted ts → distinct (reverse ts) [] ≡ reverse ts
unfolding distinct
distinct-reverse [] h = refl
distinct-reverse (t ∷ ts) h =
    distinct-append (reverse ts) (t ∷ []) []
    ∙ rw (distinct-reverse ts h.1, has_equal-reverse t ts h.0) refl

-- An element that is behind all others is put last.
insert_sorted-last :
    (y : Ty) (acc : List Ty)
    → All (λ a. IsBefore a y) acc
    → insert_sorted key_le y acc ≡ acc ++ y ∷ []
insert_sorted-last y [] h = refl
insert_sorted-last y (a ∷ acc) h = rw (h.0.0, insert_sorted-last y acc h.1) refl

All-IsBefore :
    (acc : List Ty) (y : Ty) (ys : List Ty)
    → All (λ a. All (IsBefore a) (y ∷ ys)) acc
    → All (λ a. IsBefore a y) acc
All-IsBefore [] y ys h = tt
All-IsBefore (a ∷ acc) y ys h = (h.0.0, All-IsBefore acc y ys h.1)

All-behind :
    (acc : List Ty) (y : Ty) (ys : List Ty)
    → All (λ a. All (IsBefore a) (y ∷ ys)) acc
    → All (IsBefore y) ys
    → All (λ a. All (IsBefore a) ys) (acc ++ y ∷ [])
All-behind [] y ys h g = (g, tt)
All-behind (a ∷ acc) y ys h g = (h.0.1, All-behind acc y ys h.1 g)

sort-reverse :
    (ys zs acc : List Ty)
    → sort key_le zs ≡ acc
    → All (λ a. All (IsBefore a) ys) acc
    → IsSorted ys
    → sort key_le (reverse ys ++ zs) ≡ acc ++ ys
sort-reverse [] zs acc e h s = e ∙ sym (append-nil acc)
sort-reverse (y ∷ ys) zs acc e h s =
    ap (sort key_le) (append_assoc (reverse ys) (y ∷ []) zs)
    ∙ (sort-reverse ys (y ∷ zs) (acc ++ y ∷ [])
          (ap (insert_sorted key_le y) e ∙ insert_sorted-last y acc (All-IsBefore acc y ys h))
          (All-behind acc y ys h s.0) s.1
        ∙ append_assoc acc (y ∷ []) ys)

normal-reverse : (ts : List Ty) → IsSorted ts → normal (reverse ts) ≡ collapse ts
unfolding normal
normal-reverse ts h =
    ap (λ l. collapse (sort key_le l)) (distinct-reverse ts h ∙ sym (append-nil (reverse ts)))
    ∙ ap collapse (sort-reverse ts [] [] refl tt h)

list_of-tys : (ts : List Ty) → list_of (tys ts) ≡ ts
list_of-tys [] = refl
list_of-tys (t ∷ ts) = ap (◌∷◌ t) (list_of-tys ts)

-- `Type::union` of the arms of a union is that union again if it has two plain members or more, each
-- of them with a key before the keys of those behind it, and no two equal.
pub union_of-arms :
    (x y : Ty) (ts : List Ty)
    → AllPlain (x ∷ y ∷ ts)
    → IsSorted (x ∷ y ∷ ts)
    → union_of (arms (union (tys (x ∷ y ∷ ts)))) ≡ some (union (tys (x ∷ y ∷ ts)))
unfolding union_of arms
union_of-arms x y ts p s =
    ap (union_fuel 2) (list_of-tys (x ∷ y ∷ ts))
    ∙ (union_fuel-AllPlain 1 (x ∷ y ∷ ts) p ∙ ap some (normal-reverse (x ∷ y ∷ ts) s))

normal-swap :
    (x y : Ty)
    → key_le y x ≡ true
    → ty_beq y x ≡ false
    → normal (y ∷ x ∷ []) ≡ union (tys (y ∷ x ∷ []))
unfolding normal distinct
normal-swap x y k d = rw (d, k) refl

-- Two plain members of one key that differ change places: `Type::union` of the arms of their union is
-- the union of the two the other way round.
pub union_of-same_key :
    (x y : Ty)
    → is_plain x ≡ true
    → is_plain y ≡ true
    → key_le y x ≡ true
    → ty_beq y x ≡ false
    → union_of (arms (union (tys (x ∷ y ∷ [])))) ≡ some (union (tys (y ∷ x ∷ [])))
unfolding union_of arms
union_of-same_key x y p q k d =
    union_fuel-AllPlain 1 (x ∷ y ∷ []) (p, (q, tt)) ∙ ap some (normal-swap x y k d)
