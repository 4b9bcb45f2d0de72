-- ===== src/Types/Tidy/Keys.antt =====
-- The keys of a map under other names.
use inty.Common.{ℕ, ◌≡◌, refl, ap, arith, List, [], ◌∷◌}
use inty.Common.Dict.{Eq, ◌=?◌, lookup, insert}

module _ {K : Type 0} ⦃e : Eq K⦄ where
  abbrev pub move : (K → K) → List (K × ℕ) → List (K × ℕ)
  move f [] = []
  move f ((k, n) ∷ m) = (f k, n) ∷ move f m

  =?-move : (f : K → K) → ((a b : K) → f a ≡ f b → a ≡ b) → (a b : K) → (f a =? f b) ≡ (a =? b)
  =?-move f inj a b =
      ground (arith, e.beq_iff (f a) (f b), e.beq_iff a b, inj a b, ap f {x = a} {y = b})

  pub lookup-move :
      (f : K → K)
      → ((a b : K) → f a ≡ f b → a ≡ b)
      → (k : K) (m : List (K × ℕ)) → lookup (f k) (move f m) ≡ lookup k m
  lookup-move f inj k [] = refl
  lookup-move f inj k ((j, n) ∷ m) = ground (arith, =?-move f inj j k, lookup-move f inj k m)

  pub insert-move :
      (f : K → K)
      → ((a b : K) → f a ≡ f b → a ≡ b)
      → (k : K) (n : ℕ) (m : List (K × ℕ)) → insert (f k) n (move f m) ≡ move f (insert k n m)
  insert-move f inj k n [] = refl
  insert-move f inj k n ((j, w) ∷ m) = ground (arith, =?-move f inj j k, insert-move f inj k n m)
