-- ===== src/Common/Dict.antt =====
-- Types with an equality test, membership in a list, and hash maps as association lists. A key
-- stands at most once in a map that `insert` and `remove` build, in the order of its first
-- insertion.
use Prim.Native.String.{String}
use text.Mathlib.Text.{◌==◌ as str_eq}
use text.Mathlib.TextEquality.{eq_iff}
use inty.Common.{
  ℕ, ◌==◌, ==_iff, ◌≡◌, refl, ◌↔◌, Bool, true, false, ◌||◌, ◌&&◌, not, Option, none, some, List, [],
  ◌∷◌, ◌++◌, arith, if◌then◌else◌, All, inl, inr, subst, Bool-cases,
}

pub record Eq {ℓ} (A : Type ℓ) : Type ℓ where
  pub beq : A → A → Bool
  pub beq_iff : (a b : A) → (beq a b ≡ true) ↔ (a ≡ b)

instance abbrev pub string_eq : Eq String
string_eq = record { beq = str_eq; beq_iff = eq_iff }

instance abbrev pub nat_eq : Eq ℕ
nat_eq = record { beq = ◌==◌; beq_iff = ==_iff }

module _ {ℓ} {K : Type ℓ} ⦃e : Eq K⦄ where
  infix 50 ◌=?◌
  abbrev pub ◌=?◌ : K → K → Bool
  a =? b = e.beq a b

  pub =?-self : (a : K) → (a =? a) ≡ true
  =?-self a = (e.beq_iff a a).1 refl

  abbrev pub has : List K → K → Bool
  has [] a = false
  has (x ∷ xs) a = (x =? a) || has xs a

  pub has-append : (xs ys : List K) (a : K) → has (xs ++ ys) a ≡ (has xs a || has ys a)
  has-append [] ys a = refl
  has-append (x ∷ xs) ys a = ground (arith, has-append xs ys a)

  module _ {κ} {V : Type κ} where
    abbrev pub lookup : K → List (K × V) → Option V
    lookup k [] = none
    lookup k ((j, v) ∷ m) = if j =? k then some v else lookup k m

    -- In the place of the old entry, or last.
    abbrev pub insert : K → V → List (K × V) → List (K × V)
    insert k v [] = (k, v) ∷ []
    insert k v ((j, w) ∷ m) = if j =? k then (j, v) ∷ m else (j, w) ∷ insert k v m

    abbrev pub remove : K → List (K × V) → List (K × V)
    remove k [] = []
    remove k ((j, w) ∷ m) = if j =? k then remove k m else (j, w) ∷ remove k m

    pub lookup-insert :
        (k j : K) (v : V) (m : List (K × V))
        → lookup j (insert k v m) ≡ (if k =? j then some v else lookup j m)
    lookup-insert k j v [] = refl
    lookup-insert k j v ((i, w) ∷ m) =
        ground (arith, e.beq_iff k j, e.beq_iff i k, e.beq_iff i j, lookup-insert k j v m)

    pub lookup-remove :
        (k j : K) (m : List (K × V)) → lookup j (remove k m) ≡ (if k =? j then none else lookup j m)
    lookup-remove k j [] = ground arith
    lookup-remove k j ((i, w) ∷ m) =
        ground (arith, e.beq_iff k j, e.beq_iff i k, e.beq_iff i j, lookup-remove k j m)

  abbrev pub NoRepeat : List K → Type 0
  NoRepeat [] = Unit {0}
  NoRepeat (x ∷ xs) = (has xs x ≡ false) × NoRepeat xs

  -- No element of the first list is in the second.
  abbrev pub Apart : List K → List K → Type 0
  Apart [] ys = Unit {0}
  Apart (x ∷ xs) ys = (has ys x ≡ false) × Apart xs ys

  pub Apart-has : (xs ys : List K) (a : K) → Apart xs ys → has xs a ≡ true → has ys a ≡ false
  Apart-has [] ys a h i = cc
  Apart-has (x ∷ xs) ys a h i = ground (arith, e.beq_iff x a, Apart-has xs ys a h.1)

  pub Apart-intro : (xs ys : List K) → ((a : K) → has xs a ≡ true → has ys a ≡ false) → Apart xs ys
  Apart-intro [] ys f = tt
  Apart-intro (x ∷ xs) ys f =
      (ground (arith, f x, =?-self x), Apart-intro xs ys (λ a i. ground (arith, f a)))

  pub NoRepeat-append :
      (xs ys : List K) → NoRepeat xs → NoRepeat ys → Apart xs ys → NoRepeat (xs ++ ys)
  NoRepeat-append [] ys h k a = k
  NoRepeat-append (x ∷ xs) ys h k a =
      (ground (arith, has-append xs ys x, h.0, a.0), NoRepeat-append xs ys h.1 k a.1)

  pub All-has {κ} : (P : K → Type κ) (xs : List K) (a : K) → All P xs → has xs a ≡ true → P a
  All-has P [] a h i = absurd (ground arith)
  All-has P (x ∷ xs) a h i = elim (Bool-cases (x =? a)) [
    | inl same ↦ subst P ((e.beq_iff x a).0 same) h.0
    | inr other ↦ All-has P xs a h.1 (ground arith)
  ]

  pub All-intro {κ} : (P : K → Type κ) (xs : List K) → ((a : K) → has xs a ≡ true → P a) → All P xs
  All-intro P [] f = tt
  All-intro P (x ∷ xs) f =
      (f x (ground (arith, =?-self x)), All-intro P xs (λ a i. f a (ground arith)))

  abbrev pub erase : K → List K → List K
  erase a [] = []
  erase a (x ∷ xs) = if x =? a then erase a xs else x ∷ erase a xs

  has-erase : (a b : K) (xs : List K) → has (erase a xs) b ≡ (not (a =? b) && has xs b)
  has-erase a b [] = ground arith
  has-erase a b (x ∷ xs) =
      ground (arith, e.beq_iff x a, e.beq_iff x b, e.beq_iff a b, has-erase a b xs)

  -- The elements of the second list that are not in the first.
  abbrev pub without : List K → List K → List K
  without [] xs = xs
  without (a ∷ as_) xs = without as_ (erase a xs)

  pub has-without :
      (as_ xs : List K) (b : K) → has (without as_ xs) b ≡ (not (has as_ b) && has xs b)
  has-without [] xs b = refl
  has-without (a ∷ as_) xs b = ground (arith, has-without as_ (erase a xs) b, has-erase a b xs)
