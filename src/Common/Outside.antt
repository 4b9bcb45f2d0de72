-- ===== src/Common/Outside.antt =====
-- Counting the elements of a list that are not in another: the measure of the loops that enter an
-- element of a finite set in every round and none twice.
use inty.Common.{
  ℕ, ◌+◌, ◌<◌, ◌≤◌, ◌≡◌, refl, inl, inr, true, false, some, List, [], ◌∷◌, map, arith, Bool-cases,
  if◌then◌else◌, length,
}
use inty.Common.Dict.{Eq, ◌=?◌, has, lookup}

module _ {K : Type 0} ⦃e : Eq K⦄ where
  -- How many elements of the first list are not in the second.
  abbrev pub outside : List K → List K → ℕ
  outside [] vis = 0
  outside (x ∷ xs) vis = (if has vis x then 0 else 1) + outside xs vis

  pub outside_nil : (xs : List K) → outside xs [] ≡ length xs
  outside_nil [] = refl
  outside_nil (x ∷ xs) = omega (arith, outside_nil xs)

  pub outside_same :
      (xs vis vis' : List K) → ((a : K) → has vis' a ≡ has vis a) → outside xs vis' ≡ outside xs vis
  outside_same [] vis vis' h = refl
  outside_same (x ∷ xs) vis vis' h = rw (h x, outside_same xs vis vis' h)

  pub outside-cons_le : (xs vis : List K) (a : K) → outside xs (a ∷ vis) ≤ outside xs vis
  outside-cons_le [] vis a = omega arith
  outside-cons_le (x ∷ xs) vis a = ground (arith, outside-cons_le xs vis a)

  pub outside-cons_lt :
      (xs vis : List K) (a : K)
      → has xs a ≡ true
      → has vis a ≡ false
      → outside xs (a ∷ vis) < outside xs vis
  outside-cons_lt [] vis a h new = cc
  outside-cons_lt (x ∷ xs) vis a h new = elim (Bool-cases (x =? a)) [
    | inl same ↦ ground (arith, (e.beq_iff x a).0 same, e.beq_iff a x, outside-cons_le xs vis a)
    | inr other ↦
        ground (arith, e.beq_iff x a, e.beq_iff a x, outside-cons_lt xs vis a (ground arith) new)
  ]

  module _ {κ} {V : Type κ} where
    abbrev pub keys : List (K × V) → List K
    keys = map (λ x. x.0)

    pub length-keys : (m : List (K × V)) → length (keys m) ≡ length m
    length-keys [] = refl
    length-keys (x ∷ m) = omega (arith, length-keys m)

    pub lookup-keys :
        (k : K) (v : V) (m : List (K × V)) → lookup k m ≡ some v → has (keys m) k ≡ true
    lookup-keys k v [] h = ground arith
    lookup-keys k v ((j, w) ∷ m) h = ground (arith, lookup-keys k v m)
