-- ===== src/Common/State.antt =====
-- Actions on a state of type `S`, which give none where the source panics.
use inty.Common.{◌≡◌, ap, Option, none, some}

abbrev pub Action : Type 0 → Type 0 → Type 0
Action S A = S → Option (A × S)

infixl 5 ◌>>=◌
abbrev pub ◌>>=◌ : {S A B : Type 0} → Action S A → (A → Action S B) → Action S B
◌>>=◌ m f s = elim (m s) [ none ↦ none | some (a, s') ↦ f a s' ]

abbrev pub pure : {S A : Type 0} → A → Action S A
pure a s = some (a, s)

-- The rest of an action after a step that returns.
pub bind-some :
    {S A B : Type 0} (m : Action S A) (f : A → Action S B) {a : A} {s t : S}
    → m s ≡ some (a, t)
    → (m >>= f) s ≡ f a t
bind-some m f e = ap (λ o. elim o [ none ↦ none | some (a, t') ↦ f a t' ]) e
