-- ===== src/Infer/Env/Free.antt =====
-- What generalisation must know of an environment, and how its bindings change under a substitution.
use Prim.Native.String.{String}
use inty.Common.{
  ℕ, ◌≡◌, refl, ap, ◌∙◌, sym, true, false, Option, none, some, List, [], ◌∷◌, ◌++◌, ◌↔◌, arith,
  Bool-cases, Option-cases, inl, inr, Bool, not, ◌&&◌, ◌||◌, ◌⊎◌,
}
use inty.Common.Dict.{Eq, ◌=?◌, =?-self, has, has-append, NoRepeat, lookup, string_eq, nat_eq}
use inty.Common.PersistentMap.{PersistentMap, keys, lookup-has, get-update_each, written}
use inty.Types.Ty.{TVarName, PVarName, flex, tvar_eq, pvar_eq}
use inty.Types.Free.{TypeScheme}
use inty.Types.Free.Exact.{has-scheme_free_vars}
use inty.Types.Free.Occurs.{is_in, is_in_preds, is_pvar_in, is_pvar_in_preds}
use inty.Types.Named.Exact.{mentions, has-named_ids}
use inty.Infer.Env.{
  Key, Binding, key_eq, TypeEnv, EnvFree, both_free, no_free, scheme_free, lookup_key, binding_free,
  free, free_loop, map_schemes, map_binding,
}
use inty.Infer.Env.Narrowing.{map_option}

module _ {K : Type 0} ⦃q : Eq K⦄ (part : EnvFree → List K) (e0 : part no_free ≡ [])
    (e1 : (a b : EnvFree) → part (both_free a b) ≡ part a ++ part b) where
  abbrev HasLoop : List (Key × Binding) → K → Type 0
  HasLoop es v =
      (k : Key) × (b : Binding) × (lookup k es ≡ some b) × (has (part (binding_free b)) v ≡ true)

  loop_to :
      (es : List (Key × Binding)) (v : K)
      → NoRepeat (keys es)
      → has (part (free_loop es)) v ≡ true
      → HasLoop es v
  unfolding free_loop
  loop_to [] v h i = absurd (ground (arith, e0))
  loop_to ((k, b) ∷ es) v h i = elim (Bool-cases (has (part (binding_free b)) v)) [
    | inl held ↦ (k, b, ground (arith, =?-self k), held)
    | inr other ↦
        let (j, c, at, held) = loop_to es v h.1 (
          ground (
            arith,
            e1 (binding_free b) (free_loop es),
            has-append (part (binding_free b)) (part (free_loop es)) v,
          )) in
        (j, c, later k j b c es h.0 at, held)
  ]
    where
      later :
          (k j : Key) (b c : Binding) (es : List (Key × Binding))
          → has (keys es) k ≡ false
          → lookup j es ≡ some c
          → lookup j ((k, b) ∷ es) ≡ some c
      later k j b c es h i = elim (Bool-cases (k =? j)) [
        | inl same ↦
            let at = ap (λ x. lookup x es) ((key_eq.beq_iff k j).0 same) in
            absurd (ground (arith, lookup-has k es h, at))
        | inr other ↦ ground arith
      ]

  loop_from :
      (es : List (Key × Binding)) (v : K) (k : Key) (b : Binding)
      → lookup k es ≡ some b
      → has (part (binding_free b)) v ≡ true
      → has (part (free_loop es)) v ≡ true
  unfolding free_loop
  loop_from [] v k b h i = absurd (ground arith)
  loop_from ((j, c) ∷ es) v k b h i =
      let split = has-append (part (binding_free c)) (part (free_loop es)) v in
      let parts = ap (λ l. has l v) (e1 (binding_free c) (free_loop es)) in
      elim (Bool-cases (j =? k)) [
        | inl same ↦
            let at : c ≡ b = ground arith in
            let at2 = ap (λ x. has (part (binding_free x)) v) at in ground arith
        | inr other ↦ let rest = loop_from es v k b (ground arith) i in ground arith
      ]

-- Free in the type or the predicates of a scheme, and not quantified by it.
abbrev pub is_free : TVarName → TypeScheme → Bool
is_free v s = not (has s.vars v) && (is_in v s.ty || is_in_preds v s.preds)

abbrev pub is_free_pvar : PVarName → TypeScheme → Bool
is_free_pvar v s = not (has s.pvars v) && (is_pvar_in v s.ty || is_pvar_in_preds v s.preds)

abbrev any_var : TVarName
any_var = flex 0

abbrev any_pvar : PVarName
any_pvar = PVarName.flex 0

-- The scheme, or the declared scheme, of a binding.
abbrev pub IsOf : TypeScheme → Binding → Type 0
IsOf s b = (b.scheme ≡ s) ⊎ (b.declared ≡ some s)

abbrev pub InBinding : (TypeScheme → Bool) → Binding → Type 0
InBinding test b = (s : TypeScheme) × IsOf s b × (test s ≡ true)

module _ {K : Type 0} ⦃q : Eq K⦄ (part : EnvFree → List K)
    (e1 : (a b : EnvFree) → part (both_free a b) ≡ part a ++ part b) (v : K)
    (test : TypeScheme → Bool) (here : (s : TypeScheme) → has (part (scheme_free s)) v ≡ test s)
    (b : Binding) where
  both : TypeScheme → List K
  both d = part (both_free (scheme_free b.scheme) (scheme_free d))

  has-both : (d : TypeScheme) → has (both d) v ≡ (test b.scheme || test d)
  unfolding both
  has-both d = ground (
    arith,
    e1 (scheme_free b.scheme) (scheme_free d),
    has-append (part (scheme_free b.scheme)) (part (scheme_free d)) v,
    here b.scheme,
    here d,
  )

  binding_to : has (part (binding_free b)) v ≡ true → InBinding test b
  unfolding binding_free both
  binding_to h = elim (Option-cases b.declared) [
    | inl undeclared ↦ (b.scheme, inl refl, ground (arith, here b.scheme))
    | inr (d, declared) ↦ elim (Bool-cases (test b.scheme)) [
      | inl held ↦ (b.scheme, inl refl, held)
      | inr other ↦ (d, inr declared, ground (arith, has-both d))
    ]
  ]

  binding_from : InBinding test b → has (part (binding_free b)) v ≡ true
  unfolding binding_free both
  binding_from (s, inl own, held) = elim (Option-cases b.declared) [
    | inl undeclared ↦ ground (arith, here b.scheme, ap test own)
    | inr (d, declared) ↦ ground (arith, has-both d, ap test own)
  ]
  binding_from (s, inr declared, held) = ground (arith, has-both s)

module _ (B : PersistentMap Key Binding) (N : PersistentMap String Key) where
  -- A scheme of some binding of the environment, its declared scheme included, for which the test
  -- holds.
  abbrev pub HeldIn : (TypeScheme → Bool) → TypeEnv B N → Type 0
  HeldIn test e = (k : Key) × (b : Binding) × (lookup_key B N k e ≡ some b) × InBinding test b

  has-part :
      {K : Type 0}
      → ⦃q : Eq K⦄ → (part : EnvFree → List K) → part no_free ≡ []
      → ((a b : EnvFree) → part (both_free a b) ≡ part a ++ part b)
      → (v : K) (test : TypeScheme → Bool)
      → ((s : TypeScheme) → has (part (scheme_free s)) v ≡ test s)
      → (e : TypeEnv B N) → (has (part (free B N e)) v ≡ true) ↔ HeldIn test e
  unfolding free lookup_key
  has-part part e0 e1 v test here e = (
    λ i.
        let (k, b, at, held) =
          loop_to part e0 e1 (B.entries e.bindings) v (B.entries-once e.bindings) i in
        (k, b, sym (B.lookup-entries k e.bindings) ∙ at, binding_to part e1 v test here b held),
    λ held.
        let (k, b, at, s) = held in
        loop_from part e0 e1 (B.entries e.bindings) v k b (B.lookup-entries k e.bindings ∙ at)
          (binding_from part e1 v test here b s),
  )

  -- `free` holds exactly the type variables and the presence variables that occur free in the scheme
  -- or in the declared scheme of some binding of the environment, and the ids of named types that
  -- the type of such a scheme mentions outside of module types.
  pub has-free :
      (e : TypeEnv B N)
      → ((v : TVarName) → (has (free B N e).vars v ≡ true) ↔ HeldIn (is_free v) e)
        × (((v : PVarName) → (has (free B N e).pvars v ≡ true) ↔ HeldIn (is_free_pvar v) e)
            × ((i : ℕ) → (has (free B N e).named i ≡ true) ↔ HeldIn (λ s. mentions i s.ty) e))
  has-free e = (
    λ v.
        has-part EnvFree.vars refl (λ a b. refl) v (is_free v)
          (λ s. (has-scheme_free_vars s v any_pvar).0) e,
    (
      λ v.
          has-part EnvFree.pvars refl (λ a b. refl) v (is_free_pvar v)
            (λ s. (has-scheme_free_vars s any_var v).1) e,
      λ i.
          has-part EnvFree.named refl (λ a b. refl) i (λ s. mentions i s.ty)
            (λ s. has-named_ids s.ty i) e,
    ),
  )

  -- `map_schemes` maps the scheme of the binding of every key, and its declared scheme.
  pub lookup_key-map_schemes :
      (f : TypeScheme → TypeScheme) (e : TypeEnv B N) (k : Key)
      → lookup_key B N k (map_schemes B N f e) ≡ map_option (map_binding f) (lookup_key B N k e)
  unfolding lookup_key map_schemes
  lookup_key-map_schemes f e k =
      get-update_each B (λ key b. some (map_binding f b)) k (B.entries e.bindings) e.bindings
        (B.entries-once e.bindings)
      ∙ rw (B.lookup-entries k e.bindings) (each (B.get k e.bindings))
    where
      each :
          (o : Option Binding)
          → written B (λ key b. some (map_binding f b)) k o o ≡ map_option (map_binding f) o
      each none = refl
      each (some b) = refl
