-- ===== src/Common/PersistentMap.antt =====
-- What the code relies on of a persistent hash map (`im::HashMap`), as its documentation says it, and
-- a model of it by lists without repeated keys.
use inty.Common.{
  ◌≡◌, refl, Bool, false, ◌||◌, Option, none, some, List, [], ◌∷◌, if◌then◌else◌, arith, Bool-cases,
  Option-cases, subst, ap, inl, inr,
}
use inty.Common.Dict.{
  Eq, ◌=?◌, has, NoRepeat, lookup, insert as put, remove as delete, lookup-insert, lookup-remove,
}

abbrev pub keys {κ ℓ} : {K : Type κ} {V : Type ℓ} → List (K × V) → List K
keys [] = []
keys ((k, v) ∷ es) = k ∷ keys es

pub record PersistentMap (K V : Type 0) ⦃e : Eq K⦄ : Type 1 where
  pub Map : Type 0
  pub empty : Map
  pub get : K → Map → Option V
  pub insert : K → V → Map → Map
  pub remove : K → Map → Map
  -- Keeps the entries that pass.
  pub retain : (V → Bool) → Map → Map
  pub entries : Map → List (K × V)
  pub get-empty : (k : K) → get k empty ≡ none
  pub get-insert :
      (k j : K) (v : V) (m : Map) → get j (insert k v m) ≡ (if k =? j then some v else get j m)
  pub get-remove : (k j : K) (m : Map) → get j (remove k m) ≡ (if k =? j then none else get j m)
  pub get-retain :
      (p : V → Bool) (k : K) (m : Map)
      → get k (retain p m) ≡ elim (get k m) [ none ↦ none | some v ↦ if p v then some v else none ]
  pub lookup-entries : (k : K) (m : Map) → lookup k (entries m) ≡ get k m
  pub entries-once : (m : Map) → NoRepeat (keys (entries m))

module _ {K V : Type 0} ⦃e : Eq K⦄ where
  pub lookup-has : (k : K) (es : List (K × V)) → has (keys es) k ≡ false → lookup k es ≡ none
  lookup-has k [] h = refl
  lookup-has k ((j, v) ∷ es) h = ground (arith, lookup-has k es)

  module _ (M : PersistentMap K V) where
    -- A loop over entries that writes to a map, for each key, what `f` gives.
    unfoldable pub update_each : (K → V → Option V) → List (K × V) → M.Map → M.Map
    update_each f [] out = out
    update_each f ((k, v) ∷ es) out = elim (f k v) [
      | none ↦ update_each f es out
      | some w ↦ update_each f es (M.insert k w out)
    ]

    -- What a key has behind the loop, from its entry and from what it had before.
    abbrev pub written : (K → V → Option V) → K → Option V → Option V → Option V
    written f k none old = old
    written f k (some v) old = elim (f k v) [ none ↦ old | some w ↦ some w ]

    pub get-update_each :
        (f : K → V → Option V) (k : K) (es : List (K × V)) (out : M.Map)
        → NoRepeat (keys es)
        → M.get k (update_each f es out) ≡ written f k (lookup k es) (M.get k out)
    unfolding update_each
    get-update_each f k [] out h = refl
    get-update_each f k ((j, v) ∷ es) out h = elim (Bool-cases (j =? k)) [
      | inl same ↦
          let eq = (e.beq_iff j k).0 same in
          let gone = lookup-has k es (subst (λ i. has (keys es) i ≡ false) eq h.0) in
          let at = ap (λ i. f i v) eq in
          elim (Option-cases (f j v)) [
            | inl q ↦ rw (update_each, q) (ground (arith, get-update_each f k es out h.1, gone, at))
            | inr (w, q) ↦
                rw (update_each, q)
                  (ground (
                    arith,
                    get-update_each f k es (M.insert j w out) h.1,
                    M.get-insert j k w out,
                    gone,
                    at,
                  ))
          ]
      | inr other ↦ elim (Option-cases (f j v)) [
        | inl q ↦ rw (update_each, q) (ground (arith, get-update_each f k es out h.1))
        | inr (w, q) ↦
            rw (update_each, q)
              (ground
                (arith, get-update_each f k es (M.insert j w out) h.1, M.get-insert j k w out))
      ]
    ]

  unfoldable pub keep : (V → Bool) → List (K × V) → List (K × V)
  keep p [] = []
  keep p ((k, v) ∷ es) = if p v then (k, v) ∷ keep p es else keep p es

  has-put :
      (k j : K) (v : V) (es : List (K × V))
      → has (keys (put k v es)) j ≡ ((k =? j) || has (keys es) j)
  has-put k j v [] = ground arith
  has-put k j v ((i, w) ∷ es) =
      ground (arith, has-put k j v es, e.beq_iff i k, e.beq_iff i j, e.beq_iff k j)

  pub NoRepeat-put :
      (k : K) (v : V) (es : List (K × V)) → NoRepeat (keys es) → NoRepeat (keys (put k v es))
  NoRepeat-put k v [] h = (refl, tt)
  NoRepeat-put k v ((i, w) ∷ es) h = elim (Bool-cases (i =? k)) [
    | inl same ↦ rw same h
    | inr other ↦ rw other (
      ground (arith, has-put k i v es, h.0, e.beq_iff i k, e.beq_iff k i),
      NoRepeat-put k v es h.1,
    )
  ]

  has-delete :
      (k j : K) (es : List (K × V)) → has (keys es) j ≡ false → has (keys (delete k es)) j ≡ false
  has-delete k j [] h = refl
  has-delete k j ((i, w) ∷ es) h = ground (arith, has-delete k j es)

  pub NoRepeat-delete :
      (k : K) (es : List (K × V)) → NoRepeat (keys es) → NoRepeat (keys (delete k es))
  NoRepeat-delete k [] h = tt
  NoRepeat-delete k ((i, w) ∷ es) h = elim (Bool-cases (i =? k)) [
    | inl same ↦ rw same (NoRepeat-delete k es h.1)
    | inr other ↦ rw other (has-delete k i es h.0, NoRepeat-delete k es h.1)
  ]

  has-keep :
      (p : V → Bool) (j : K) (es : List (K × V))
      → has (keys es) j ≡ false
      → has (keys (keep p es)) j ≡ false
  unfolding keep
  has-keep p j [] h = refl
  has-keep p j ((i, w) ∷ es) h = ground (arith, has-keep p j es)

  pub NoRepeat-keep :
      (p : V → Bool) (es : List (K × V)) → NoRepeat (keys es) → NoRepeat (keys (keep p es))
  unfolding keep
  NoRepeat-keep p [] h = tt
  NoRepeat-keep p ((i, w) ∷ es) h = elim (Bool-cases (p w)) [
    | inl yes_ ↦ rw (keep, yes_) (has-keep p i es h.0, NoRepeat-keep p es h.1)
    | inr no_ ↦ rw (keep, no_) (NoRepeat-keep p es h.1)
  ]

  pub lookup-keep :
      (p : V → Bool) (k : K) (es : List (K × V))
      → NoRepeat (keys es)
      → lookup k (keep p es)
        ≡ elim (lookup k es) [ none ↦ none | some v ↦ if p v then some v else none ]
  unfolding keep
  lookup-keep p k [] h = refl
  lookup-keep p k ((i, w) ∷ es) h = elim (Bool-cases (i =? k)) [
    | inl same ↦
        let gone =
          lookup-has k (keep p es) (has-keep p k es (ground (arith, e.beq_iff i k, h.0))) in
        ground (arith, gone)
    | inr other ↦ ground (arith, lookup-keep p k es h.1)
  ]

  unfoldable pub lists : PersistentMap K V
  unfolding keep
  lists = record {
    Map = (es : List (K × V)) × NoRepeat (keys es);
    empty = ([], tt);
    get = λ k m. lookup k m.0;
    insert = λ k v m. (put k v m.0, NoRepeat-put k v m.0 m.1);
    remove = λ k m. (delete k m.0, NoRepeat-delete k m.0 m.1);
    retain = λ p m. (keep p m.0, NoRepeat-keep p m.0 m.1);
    entries = λ m. m.0;
    get-empty = λ k. refl;
    get-insert = λ k j v m. lookup-insert k j v m.0;
    get-remove = λ k j m. lookup-remove k j m.0;
    get-retain = λ p k m. lookup-keep p k m.0 m.1;
    lookup-entries = λ k m. refl;
    entries-once = λ m. m.1;
  }
