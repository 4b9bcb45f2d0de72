-- ===== src/Infer/Env/Narrowing.antt =====
-- A narrowing changes a scheme for a while: the binding's own scheme comes back.
use Prim.Native.String.{String}
use inty.Common.{
  ◌≡◌, refl, ap, ◌∙◌, sym, Bool, false, Option, none, some, List, [], ◌∷◌, if◌then◌else◌, arith,
  Bool-cases, Option-cases, inl, inr, ◌⊎◌, All,
}
use inty.Common.Dict.{◌=?◌, string_eq}
use inty.Common.PersistentMap.{PersistentMap, get-update_each, written}
use inty.Types.Free.{TypeScheme}
use inty.Infer.Env.{
  Key, Binding, key_eq, TypeEnv, lookup_key, lookup_binding, lookup_declared, narrow, own_scheme,
  with_narrowings_of, without_narrowings, extend_key, restored, widened,
}

-- The binding with its own scheme.
abbrev pub own_binding : Binding → Binding
own_binding b = record { scheme = own_scheme b; mutability = b.mutability; declared = none }

abbrev pub map_option : (Binding → Binding) → Option Binding → Option Binding
map_option f none = none
map_option f (some b) = some (f b)

abbrev narrowed : TypeScheme → Binding → Binding
narrowed s b = record { scheme = s; mutability = b.mutability; declared = some (own_scheme b) }

abbrev own_of : Option Binding → Option TypeScheme
own_of none = none
own_of (some c) = some (own_scheme c)

abbrev scheme_of : Option Binding → Option TypeScheme
scheme_of none = none
scheme_of (some c) = some c.scheme

own-same :
    (a b : Option Binding)
    → map_option own_binding a ≡ map_option own_binding b
    → own_of a ≡ own_of b
own-same none none h = refl
own-same none (some b) h = absurd (ground arith)
own-same (some a) none h = absurd (ground arith)
own-same (some a) (some b) h = ap scheme_of h

module _ (B : PersistentMap Key Binding) (N : PersistentMap String Key) where
  lookup_key-narrow :
      (j k : Key) (s : TypeScheme) (e : TypeEnv B N)
      → lookup_key B N k (narrow B N j s e)
        ≡ (if j =? k then map_option (narrowed s) (lookup_key B N k e) else lookup_key B N k e)
  unfolding narrow lookup_key
  lookup_key-narrow j k s e = elim (Bool-cases (j =? k)) [
    | inl same ↦
        let eq = ap (λ i. B.get i e.bindings) ((key_eq.beq_iff j k).0 same) in
        elim (Option-cases (B.get j e.bindings)) [
          | inl h ↦ rw (narrow, lookup_key, h) (ground arith)
          | inr (b, h) ↦
              rw (narrow, lookup_key, h)
                (ground (arith, B.get-insert j k (narrowed s b) e.bindings))
        ]
    | inr other ↦ elim (Option-cases (B.get j e.bindings)) [
      | inl h ↦ rw (narrow, lookup_key, h) (ground arith)
      | inr (b, h) ↦
          rw (narrow, lookup_key, h) (ground (arith, B.get-insert j k (narrowed s b) e.bindings))
    ]
  ]

  lookup_key-own :
      (j k : Key) (s : TypeScheme) (e : TypeEnv B N)
      → map_option own_binding (lookup_key B N k (narrow B N j s e))
        ≡ map_option own_binding (lookup_key B N k e)
  lookup_key-own j k s e = elim (Bool-cases (j =? k)) [
    | inl same ↦ rw (lookup_key-narrow j k s e, same) (twice (lookup_key B N k e))
    | inr other ↦ rw (lookup_key-narrow j k s e, other) refl
  ]
    where
      twice :
          (o : Option Binding)
          → map_option own_binding (map_option (narrowed s) o) ≡ map_option own_binding o
      twice none = refl
      twice (some b) = refl

  -- Narrowings, one after the other.
  abbrev pub narrow_all : List (Key × TypeScheme) → TypeEnv B N → TypeEnv B N
  narrow_all [] e = e
  narrow_all ((k, s) ∷ ns) e = narrow_all ns (narrow B N k s e)

  lookup_key-without_narrowings :
      (k : Key) (e : TypeEnv B N)
      → lookup_key B N k (without_narrowings B N e) ≡ map_option own_binding (lookup_key B N k e)
  unfolding without_narrowings lookup_key
  lookup_key-without_narrowings k e =
      get-update_each B widened k (B.entries e.bindings) e.bindings (B.entries-once e.bindings)
      ∙ rw (B.lookup-entries k e.bindings) (whole (B.get k e.bindings))
    where
      whole : (o : Option Binding) → written B widened k o o ≡ map_option own_binding o
      whole none = refl
      whole (some b) = elim (Option-cases b.declared) [ inl h ↦ rw h refl | inr (d, h) ↦ rw h refl ]

  -- Narrowings leave no trace in what `without_narrowings` gives: each key has the same binding as
  -- without them.
  pub without_narrowings-narrow_all :
      (ns : List (Key × TypeScheme)) (e : TypeEnv B N) (k : Key)
      → lookup_key B N k (without_narrowings B N (narrow_all ns e))
        ≡ lookup_key B N k (without_narrowings B N e)
  without_narrowings-narrow_all [] e k = refl
  without_narrowings-narrow_all ((j, s) ∷ ns) e k =
      without_narrowings-narrow_all ns (narrow B N j s e) k
      ∙ (lookup_key-without_narrowings k (narrow B N j s e)
          ∙ (lookup_key-own j k s e ∙ sym (lookup_key-without_narrowings k e)))

  names-narrow : (k : Key) (s : TypeScheme) (e : TypeEnv B N) → (narrow B N k s e).names ≡ e.names
  unfolding narrow lookup_key
  names-narrow k s e = elim (Option-cases (B.get k e.bindings)) [
    | inl h ↦ rw (narrow, lookup_key, h) refl
    | inr (b, h) ↦ rw (narrow, lookup_key, h) refl
  ]

  -- A narrowing keeps every name's own scheme.
  lookup_declared-narrow :
      (k : Key) (s : TypeScheme) (e : TypeEnv B N) (n : String)
      → lookup_declared B N n (narrow B N k s e) ≡ lookup_declared B N n e
  unfolding lookup_declared lookup_binding
  lookup_declared-narrow k s e n = elim (Option-cases (N.get n e.names)) [
    | inl h ↦ rw (lookup_declared, lookup_binding, names-narrow k s e, h) refl
    | inr (key, h) ↦
        rw (lookup_declared, lookup_binding, names-narrow k s e, h)
          (own-same (lookup_key B N key (narrow B N k s e)) (lookup_key B N key e)
            (lookup_key-own k key s e))
  ]

  -- What a scope does to its environment.
  pub data Change : Type 0 where
    narrowing : Key → TypeScheme → Change
    declaring : Key → String → Binding → Change

  abbrev pub change : Change → TypeEnv B N → TypeEnv B N
  change (narrowing k s) e = narrow B N k s e
  change (declaring k n b) e = extend_key B N k n b e

  abbrev pub changes : List Change → TypeEnv B N → TypeEnv B N
  changes [] e = e
  changes (c ∷ cs) e = changes cs (change c e)

  abbrev pub declares : Change → Key → Bool
  declares (narrowing _ _) k = false
  declares (declaring j _ _) k = j =? k

  -- A binding as it was, or narrowed.
  abbrev Kept : Binding → Option Binding → Type 0
  Kept b o =
      (o ≡ some b) ⊎ ((c : Binding) × ((d : TypeScheme) × ((o ≡ some c) × (c.declared ≡ some d))))

  change-Kept :
      (c : Change) (e : TypeEnv B N) (k : Key) (b : Binding)
      → declares c k ≡ false
      → Kept b (lookup_key B N k e)
      → Kept b (lookup_key B N k (change c e))
  unfolding extend_key lookup_key
  change-Kept (narrowing j s) e k b h p = elim (Bool-cases (j =? k)) [
    | inl same ↦ elim p [
      | inl q ↦ inr (
        narrowed s b,
        (
          own_scheme b,
          (rw (lookup_key-narrow j k s e, same) (ap (map_option (narrowed s)) q), refl),
        ),
      )
      | inr (c, (d, (q, r))) ↦ inr (
        narrowed s c,
        (
          own_scheme c,
          (rw (lookup_key-narrow j k s e, same) (ap (map_option (narrowed s)) q), refl),
        ),
      )
    ]
    | inr other ↦ rw (lookup_key-narrow j k s e, other) p
  ]
  change-Kept (declaring j n c) e k b h p = rw (B.get-insert j k c e.bindings, h) p

  changes-Kept :
      (cs : List Change) (e : TypeEnv B N) (k : Key) (b : Binding)
      → All (λ c. declares c k ≡ false) cs
      → Kept b (lookup_key B N k e)
      → Kept b (lookup_key B N k (changes cs e))
  changes-Kept [] e k b h p = p
  changes-Kept (c ∷ cs) e k b h p = changes-Kept cs (change c e) k b h.1 (change-Kept c e k b h.0 p)

  -- When a scope ends that narrowed bindings and declared others, `with_narrowings_of` gives each
  -- binding of the environment around it back as it was there, unless the scope declared its key anew.
  pub with_narrowings_of-changes :
      (base : TypeEnv B N) (cs : List Change) (k : Key) (b : Binding)
      → lookup_key B N k base ≡ some b
      → All (λ c. declares c k ≡ false) cs
      → lookup_key B N k (with_narrowings_of B N base (changes cs base)) ≡ some b
  unfolding with_narrowings_of lookup_key
  with_narrowings_of-changes base cs k b h d =
      let inner = changes cs base in
      get-update_each B (restored B N base) k (B.entries inner.bindings) inner.bindings
        (B.entries-once inner.bindings)
      ∙ rw (B.lookup-entries k inner.bindings) (elim (changes-Kept cs base k b d (inl h)) [
        | inl q ↦ ground (arith, h, q)
        | inr (c, (x, (q, r))) ↦ ground (arith, h, q, r)
      ])
