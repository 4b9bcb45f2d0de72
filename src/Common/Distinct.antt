-- ===== src/Common/Distinct.antt =====
-- Lists of distinct numbers below a bound are no longer than the bound.
use mathlib.Core.Bool.{◌||◌}
use inty.Common.{
  ℕ, zero, suc, ◌≤◌, ◌<◌, ◌≡◌, refl, inl, inr, Bool, false, List, [], ◌∷◌, arith, ◌==◌,
  if◌then◌else◌, Bool-cases, length, All,
}

abbrev pub contains : List ℕ → ℕ → Bool
contains [] a = false
contains (x ∷ xs) a = (x == a) || contains xs a

abbrev pub Distinct : List ℕ → Type 0
Distinct [] = Unit {0}
Distinct (x ∷ xs) = (contains xs x ≡ false) × Distinct xs

-- The list less every `a`.
abbrev without : ℕ → List ℕ → List ℕ
without a [] = []
without a (x ∷ xs) = if x == a then without a xs else x ∷ without a xs

contains-without :
    (a b : ℕ) (xs : List ℕ) → contains xs b ≡ false → contains (without a xs) b ≡ false
contains-without a b [] h = refl
contains-without a b (x ∷ xs) h = ground (arith, contains-without a b xs)

without-eq_self : (a : ℕ) (xs : List ℕ) → contains xs a ≡ false → without a xs ≡ xs
without-eq_self a [] h = refl
without-eq_self a (x ∷ xs) h = ground (arith, without-eq_self a xs)

Distinct-without : (a : ℕ) (xs : List ℕ) → Distinct xs → Distinct (without a xs)
Distinct-without a [] d = d
Distinct-without a (x ∷ xs) d = elim (Bool-cases (x == a)) [
  | inl same ↦ rw same (Distinct-without a xs d.1)
  | inr other ↦ rw other (contains-without a x xs d.0, Distinct-without a xs d.1)
]

length-without-le : (a : ℕ) (xs : List ℕ) → Distinct xs → length xs ≤ suc (length (without a xs))
length-without-le a [] d = omega arith
length-without-le a (x ∷ xs) d = elim (Bool-cases (x == a)) [
  | inl same ↦
      rw same (
        let e : without a xs ≡ xs = without-eq_self a xs (ground (arith, d.0)) in
        rw e (omega arith))
  | inr other ↦ rw other (omega (arith, length-without-le a xs d.1))
]

All-without : (n : ℕ) (xs : List ℕ) → All (λ x. x < suc n) xs → All (λ x. x < n) (without n xs)
All-without n [] h = h
All-without n (x ∷ xs) h = elim (Bool-cases (x == n)) [
  | inl same ↦ rw same (All-without n xs h.1)
  | inr other ↦ rw other (ground arith, All-without n xs h.1)
]

-- The pigeonhole principle.
pub length-le_of_Distinct :
    (n : ℕ) (xs : List ℕ) → Distinct xs → All (λ x. x < n) xs → length xs ≤ n
length-le_of_Distinct zero [] d h = omega arith
length-le_of_Distinct zero (x ∷ xs) d h = absurd (omega arith)
length-le_of_Distinct (suc n) xs d h = omega (
  arith,
  length-without-le n xs d,
  length-le_of_Distinct n (without n xs) (Distinct-without n xs d) (All-without n xs h),
)
