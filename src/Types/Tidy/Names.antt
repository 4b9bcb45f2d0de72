-- ===== src/Types/Tidy/Names.antt =====
-- What an environment holds: the ids of the variables, in the order of their first occurrence.
use inty.Common.{
  ℕ, suc, ◌+◌, ◌%◌, ◌^◌, ◌≤◌, ◌≡◌, none, some, List, [], ◌∷◌, length, arith, Bool-cases,
  Option-cases, inl, inr, ◌≢◌, ◌∙◌, ap, sym,
}
use inty.Common.Dict.{Eq, ◌=?◌, lookup, insert, lookup-insert}
use inty.Types.Ty.{TVarName, PVarName, tvar_eq, pvar_eq, Ty}
use inty.Types.Tidy.{TidyEnv, rename_tvar, rename_pvar, tidy_type}
use inty.Types.Tidy.Steps.{Steps, stay, then_tvar, then_pvar, tidy_type-Steps}

-- What is named keeps its id.
pub record Extends (e e1 : TidyEnv) : Type 0 where
  pub types :
      (v : TVarName) (n : ℕ) → lookup v e.type_vars ≡ some n → lookup v e1.type_vars ≡ some n
  pub presences :
      (v : PVarName) (n : ℕ)
      → lookup v e.presence_vars ≡ some n
      → lookup v e1.presence_vars ≡ some n

pub Extends-refl : (e : TidyEnv) → Extends e e
Extends-refl e = record { types = λ v n h. h; presences = λ v n h. h }

pub Extends-trans : {e e1 e2 : TidyEnv} → Extends e e1 → Extends e1 e2 → Extends e e2
Extends-trans a b = record {
  types = λ v n h. b.types v n (a.types v n h);
  presences = λ v n h. b.presences v n (a.presences v n h);
}

module _ {K : Type 0} ⦃e : Eq K⦄ where
  insert_new :
      (k j : K) (v n : ℕ) (m : List (K × ℕ))
      → lookup k m ≡ none
      → lookup j m ≡ some n
      → lookup j (insert k v m) ≡ some n
  insert_new k j v n m h i = ground (arith, lookup-insert k j v m, e.beq_iff k j)

  -- The ids of a map are `k`, `k + 1`, … in 32 bits, and `next` is the one behind them.
  abbrev pub Numbered : ℕ → List (K × ℕ) → ℕ → Type 0
  Numbered k [] next = next ≡ k % 2 ^ 32
  Numbered k ((v, n) ∷ m) next = (n ≡ k % 2 ^ 32) × Numbered (suc k) m next

  Numbered-insert :
      (k next : ℕ) (v : K) (m : List (K × ℕ))
      → lookup v m ≡ none
      → Numbered k m next
      → Numbered k (insert v next m) ((next + 1) % 2 ^ 32)
  Numbered-insert k next v [] h p = (p, omega arith)
  Numbered-insert k next v ((j, w) ∷ m) h p = elim (Bool-cases (j =? v)) [
    | inl same ↦ absurd (ground arith)
    | inr other ↦ rw other (p.0, Numbered-insert (suc k) next v m (ground arith) p.1)
  ]

  Numbered-lookup :
      (k next n : ℕ) (v : K) (m : List (K × ℕ))
      → Numbered k m next
      → k + length m ≤ 2 ^ 32
      → lookup v m ≡ some n
      → k ≤ n
  Numbered-lookup k next n v [] p l h = absurd (ground arith)
  Numbered-lookup k next n v ((j, w) ∷ m) p l h = elim (Bool-cases (j =? v)) [
    | inl same ↦ ground arith
    | inr other ↦ omega (arith, Numbered-lookup (suc k) next n v m p.1 (omega arith) (ground arith))
  ]

  Numbered-distinct :
      (k next n : ℕ) (a b : K) (m : List (K × ℕ))
      → Numbered k m next
      → k + length m ≤ 2 ^ 32
      → lookup a m ≡ some n
      → lookup b m ≡ some n
      → a ≡ b
  Numbered-distinct k next n a b [] p l h i = absurd (ground arith)
  Numbered-distinct k next n a b ((j, w) ∷ m) p l h i = elim (Bool-cases (j =? a)) [
    | inl ja ↦ elim (Bool-cases (j =? b)) [
      | inl jb ↦ ground (arith, e.beq_iff j a, e.beq_iff j b)
      | inr jb ↦ absurd (ground (arith, Numbered-lookup (suc k) next n b m p.1 (omega arith)))
    ]
    | inr ja ↦ elim (Bool-cases (j =? b)) [
      | inl jb ↦ absurd (ground (arith, Numbered-lookup (suc k) next n a m p.1 (omega arith)))
      | inr jb ↦
          Numbered-distinct (suc k) next n a b m p.1 (omega arith) (ground arith) (ground arith)
    ]
  ]

-- Both kinds of variables are numbered from 0 in the order of their first occurrence.
abbrev pub IsNumbered : TidyEnv → Type 0
IsNumbered e = Numbered 0 e.type_vars e.next_type × Numbered 0 e.presence_vars e.next_presence

pub rename_tvar-Extends : (v : TVarName) (e : TidyEnv) → Extends e (rename_tvar v e).1
unfolding rename_tvar
rename_tvar-Extends v e = elim (Option-cases (lookup v e.type_vars)) [
  | inl h ↦
      rw (rename_tvar, h)
        (record {
          types = λ w n i. insert_new v w e.next_type n e.type_vars h i;
          presences = λ w n i. i;
        })
  | inr (n, h) ↦ rw (rename_tvar, h) (Extends-refl e)
]

pub rename_pvar-Extends : (v : PVarName) (e : TidyEnv) → Extends e (rename_pvar v e).1
unfolding rename_pvar
rename_pvar-Extends v e = elim (Option-cases (lookup v e.presence_vars)) [
  | inl h ↦
      rw (rename_pvar, h)
        (record {
          types = λ w n i. i;
          presences = λ w n i. insert_new v w e.next_presence n e.presence_vars h i;
        })
  | inr (n, h) ↦ rw (rename_pvar, h) (Extends-refl e)
]

rename_tvar-IsNumbered :
    (v : TVarName) (e : TidyEnv) → IsNumbered e → IsNumbered (rename_tvar v e).1
unfolding rename_tvar
rename_tvar-IsNumbered v e p = elim (Option-cases (lookup v e.type_vars)) [
  | inl h ↦ rw (rename_tvar, h) (Numbered-insert 0 e.next_type v e.type_vars h p.0, p.1)
  | inr (n, h) ↦ rw (rename_tvar, h) p
]

rename_pvar-IsNumbered :
    (v : PVarName) (e : TidyEnv) → IsNumbered e → IsNumbered (rename_pvar v e).1
unfolding rename_pvar
rename_pvar-IsNumbered v e p = elim (Option-cases (lookup v e.presence_vars)) [
  | inl h ↦ rw (rename_pvar, h) (p.0, Numbered-insert 0 e.next_presence v e.presence_vars h p.1)
  | inr (n, h) ↦ rw (rename_pvar, h) p
]

pub Steps-Extends : {e e1 : TidyEnv} → Steps e e1 → Extends e e1
Steps-Extends {e = e} stay = Extends-refl e
Steps-Extends (then_tvar {e1 = e1} v s) = Extends-trans (Steps-Extends s) (rename_tvar-Extends v e1)
Steps-Extends (then_pvar {e1 = e1} v s) = Extends-trans (Steps-Extends s) (rename_pvar-Extends v e1)

Steps-IsNumbered : {e e1 : TidyEnv} → Steps e e1 → IsNumbered e → IsNumbered e1
Steps-IsNumbered stay p = p
Steps-IsNumbered (then_tvar {e1 = e1} v s) p = rename_tvar-IsNumbered v e1 (Steps-IsNumbered s p)
Steps-IsNumbered (then_pvar {e1 = e1} v s) p = rename_pvar-IsNumbered v e1 (Steps-IsNumbered s p)

-- If the variables of an environment are numbered from 0 in the order in which they were named, so
-- are those of the environment behind a type, where every variable named before keeps its id.
pub tidy_type-IsNumbered :
    (t : Ty) (e : TidyEnv)
    → IsNumbered e
    → IsNumbered (tidy_type t e).1 × Extends e (tidy_type t e).1
tidy_type-IsNumbered t e p =
    (Steps-IsNumbered (tidy_type-Steps t e) p, Steps-Extends (tidy_type-Steps t e))

-- If the variables of an environment are numbered from 0, and there are at most 2 ^ 32 type
-- variables in the environment behind a type, different type variables have different ids there.
pub tidy_type-distinct :
    (t : Ty) (e : TidyEnv) (a b : TVarName) (n m : ℕ)
    → IsNumbered e
    → length (tidy_type t e).1.type_vars ≤ 2 ^ 32
    → a ≢ b
    → lookup a (tidy_type t e).1.type_vars ≡ some n
    → lookup b (tidy_type t e).1.type_vars ≡ some m
    → n ≢ m
tidy_type-distinct t e a b n m p l d h i same =
    let behind = (tidy_type t e).1 in
    d (
      Numbered-distinct 0 behind.next_type n a b behind.type_vars (tidy_type-IsNumbered t e p).0.0
        (omega (arith, l)) h (i ∙ ap some (sym same)))
