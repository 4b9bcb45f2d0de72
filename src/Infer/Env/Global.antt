-- ===== src/Infer/Env/Global.antt =====
-- What a program leaves for the next one.
use Prim.Native.String.{String}
use inty.Common.{
  ℕ, ◌≡◌, refl, ap, ◌∙◌, sym, subst, true, false, Option, none, some, List, [], ◌∷◌, if◌then◌else◌,
  arith, Bool-cases, Option-cases, inl, inr,
}
use inty.Common.Dict.{◌=?◌, has, NoRepeat, lookup, string_eq}
use inty.Common.PersistentMap.{PersistentMap, keys, lookup-has}
use inty.Infer.Env.{
  Key, local, name, Binding, key_eq, TypeEnv, lookup_key, lookup_binding, key_of_name, globalized,
  keep_names, raise_locals, empty,
}

abbrev or_else : {A : Type 0} → Option A → Option A → Option A
or_else none b = b
or_else (some a) b = some a

-- The key that a name gets when it has a binding.
abbrev named : String → Option Binding → Option Key → Option Key
named n none old = old
named n (some b) old = some (name n)

module _ (B : PersistentMap Key Binding) (N : PersistentMap String Key) where
  -- What the environment `e1` has for a name, from what it gets and from what `e` has.
  record Gets (e e1 : TypeEnv B N) (n : String) (o : Option Binding) : Type 0 where
    binding : B.get (name n) e1.bindings ≡ or_else o (B.get (name n) e.bindings)
    key : N.get n e1.names ≡ named n o (N.get n e.names)

  abbrev give : String → Binding → TypeEnv B N → TypeEnv B N
  give n b e = record {
    bindings = B.insert (name n) b e.bindings;
    names = N.insert n (name n) e.names;
  }

  give-Gets :
      (n m : String) (b : Binding) (e : TypeEnv B N)
      → Gets e (give n b e) m (if n =? m then some b else none)
  give-Gets n m b e = record {
    binding = ground (arith, B.get-insert (name n) (name m) b e.bindings);
    key = ground (arith, N.get-insert n m (name n) e.names, string_eq.beq_iff n m);
  }

  Gets-none : (e : TypeEnv B N) (n : String) → Gets e e n none
  Gets-none e n = record { binding = refl; key = refl }

  Gets-trans :
      (e e1 e2 : TypeEnv B N) (n : String) (o p q : Option Binding)
      → Gets e e1 n o
      → Gets e1 e2 n p
      → or_else p o ≡ q
      → Gets e e2 n q
  Gets-trans e e1 e2 n o p q g h r = record {
    binding = ground (arith, g.binding, h.binding, r);
    key = ground (arith, g.key, h.key, r);
  }

  keep_names-Gets :
      (es : List (Key × Binding)) (out : TypeEnv B N) (n : String)
      → NoRepeat (keys es)
      → Gets out (keep_names B N es out) n (lookup (name n) es)
  unfolding keep_names
  keep_names-Gets [] out n h = Gets-none out n
  keep_names-Gets ((local i, b) ∷ es) out n h = keep_names-Gets es out n h.1
  keep_names-Gets ((name m, b) ∷ es) out n h =
      Gets-trans out (give m b out) _ n _ _ _ (give-Gets m n b out)
        (keep_names-Gets es (give m b out) n h.1)
        (elim (Bool-cases (m =? n)) [
          | inl same ↦ ground (
            arith,
            lookup-has (name n) es
                (subst (λ i. has (keys es) (name i) ≡ false) ((string_eq.beq_iff m n).0 same) h.0),
          )
          | inr other ↦ ground arith
        ])

  keep_names-local :
      (es : List (Key × Binding)) (out : TypeEnv B N) (i : ℕ)
      → B.get (local i) (keep_names B N es out).bindings ≡ B.get (local i) out.bindings
  unfolding keep_names
  keep_names-local [] out i = refl
  keep_names-local ((local j, b) ∷ es) out i = keep_names-local es out i
  keep_names-local ((name m, b) ∷ es) out i =
      ground (
        arith,
        keep_names-local es (give m b out) i,
        B.get-insert (name m) (local i) b out.bindings,
      )

  -- The binding of a name that refers to a declaration.
  abbrev of_key : TypeEnv B N → Option Key → Option Binding
  of_key e none = none
  of_key e (some (name m)) = none
  of_key e (some (local i)) = B.get (local i) e.bindings

  gone :
      (m n : String) (es : List (String × Key))
      → has (keys es) m ≡ false
      → (m =? n) ≡ true
      → lookup n es ≡ none
  gone m n es h same =
      lookup-has n es (subst (λ i. has (keys es) i ≡ false) ((string_eq.beq_iff m n).0 same) h)

  skipped :
      (e : TypeEnv B N) (m n : String) (k : Key) (es : List (String × Key))
      → has (keys es) m ≡ false
      → of_key e (some k) ≡ none
      → of_key e (lookup n es) ≡ of_key e (if m =? n then some k else lookup n es)
  skipped e m n k es h q = elim (Bool-cases (m =? n)) [
    | inl same ↦ rw (same, gone m n es h same) (sym q)
    | inr other ↦ rw other refl
  ]

  raise_locals-Gets :
      (e : TypeEnv B N) (es : List (String × Key)) (out : TypeEnv B N) (n : String)
      → NoRepeat (keys es)
      → Gets out (raise_locals B N e es out) n (of_key e (lookup n es))
  unfolding raise_locals
  raise_locals-Gets e [] out n h = Gets-none out n
  raise_locals-Gets e ((m, name k) ∷ es) out n h =
      subst (Gets out (raise_locals B N e es out) n) (skipped e m n (name k) es h.0 refl)
        (raise_locals-Gets e es out n h.1)
  raise_locals-Gets e ((m, local i) ∷ es) out n h =
      elim (Option-cases (B.get (local i) e.bindings)) [
        | inl q ↦
            rw (raise_locals, q)
              (subst (Gets out (raise_locals B N e es out) n) (skipped e m n (local i) es h.0 q)
                (raise_locals-Gets e es out n h.1))
        | inr (b, q) ↦
            rw (raise_locals, q)
              (Gets-trans out (give m b out) _ n _ _ _ (give-Gets m n b out)
                (raise_locals-Gets e es (give m b out) n h.1)
                (elim (Bool-cases (m =? n)) [
                  | inl same ↦ ground (arith, q, gone m n es h.0)
                  | inr other ↦ ground (arith, q)
                ]))
      ]

  raise_locals-local :
      (e : TypeEnv B N) (es : List (String × Key)) (out : TypeEnv B N) (i : ℕ)
      → B.get (local i) (raise_locals B N e es out).bindings ≡ B.get (local i) out.bindings
  unfolding raise_locals
  raise_locals-local e [] out i = refl
  raise_locals-local e ((m, name k) ∷ es) out i = raise_locals-local e es out i
  raise_locals-local e ((m, local j) ∷ es) out i =
      elim (Option-cases (B.get (local j) e.bindings)) [
        | inl q ↦ rw (raise_locals, q) (raise_locals-local e es out i)
        | inr (b, q) ↦
            rw (raise_locals, q)
              (ground (
                arith,
                raise_locals-local e es (give m b out) i,
                B.get-insert (name m) (local i) b out.bindings,
              ))
      ]

  globalized-Gets :
      (e : TypeEnv B N) (n : String)
      → Gets
          (empty B N)
          (globalized B N e)
          n
          (or_else (of_key e (N.get n e.names)) (B.get (name n) e.bindings))
  unfolding globalized
  globalized-Gets e n =
      Gets-trans (empty B N) (keep_names B N (B.entries e.bindings) (empty B N)) (globalized B N e)
        n _ _ _ (keep_names-Gets (B.entries e.bindings) (empty B N) n (B.entries-once e.bindings))
        (raise_locals-Gets e (N.entries e.names) _ n (N.entries-once e.names))
        (rw (N.lookup-entries n e.names, B.lookup-entries (name n) e.bindings) refl)

  -- A name that refers to a global refers to the one of that name.
  abbrev pub IsNamed : TypeEnv B N → Type 0
  IsNamed e = (n m : String) → key_of_name B N n e ≡ some (name m) → m ≡ n

  found :
      (e : TypeEnv B N) (n : String) (b : Binding)
      → IsNamed e
      → lookup_binding B N n e ≡ some b
      → or_else (of_key e (N.get n e.names)) (B.get (name n) e.bindings) ≡ some b
  unfolding lookup_binding lookup_key key_of_name
  found e n b w h = elim (Option-cases (N.get n e.names)) [
    | inl q ↦ absurd (ground arith)
    | inr (local i, q) ↦ ground arith
    | inr (name m, q) ↦ let at = ap (λ i. B.get (name i) e.bindings) (w n m q) in ground arith
  ]

  -- A name that has a binding has it in what `globalized` gives as well, if each name that refers to
  -- a global refers to the one of that name.
  pub lookup_binding-globalized :
      (e : TypeEnv B N) (n : String) (b : Binding)
      → IsNamed e
      → lookup_binding B N n e ≡ some b
      → lookup_binding B N n (globalized B N e) ≡ some b
  unfolding lookup_binding lookup_key key_of_name empty
  lookup_binding-globalized e n b w h =
      let g = globalized-Gets e n in
      let has_it = found e n b w h in
      rw (lookup_binding, g.key, has_it)
        (g.binding ∙ ap (λ o. or_else o (B.get (name n) B.empty)) has_it)

  -- No declaration of the program is a key of what `globalized` gives, and each name there refers to
  -- the global of that name.
  globalized-IsNamed :
      (e : TypeEnv B N)
      → ((i : ℕ) → lookup_key B N (local i) (globalized B N e) ≡ none)
        × ((n : String) (k : Key) → key_of_name B N n (globalized B N e) ≡ some k → k ≡ name n)
  unfolding lookup_key key_of_name empty globalized
  globalized-IsNamed e = (
    λ i.
        raise_locals-local e (N.entries e.names) (keep_names B N (B.entries e.bindings) (empty B N))
          i
        ∙ (keep_names-local (B.entries e.bindings) (empty B N) i ∙ B.get-empty (local i)),
    λ n k h.
        from_named n k (or_else (of_key e (N.get n e.names)) (B.get (name n) e.bindings))
          (sym ((globalized-Gets e n).key) ∙ h),
  )
    where
      from_named :
          (n : String) (k : Key) (o : Option Binding)
          → named n o (N.get n N.empty) ≡ some k
          → k ≡ name n
      from_named n k none h = absurd (ground (arith, N.get-empty n))
      from_named n k (some b) h = ground arith
