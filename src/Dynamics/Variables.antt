-- ===== src/Dynamics/Variables.antt =====
-- Variables that closures share, and the order of an object's properties.
use Prim.Native.String.{String}
use inty.Common.{
  ℕ, ◌<◌, ◌≡◌, refl, Bool, false, Option, some, List, [], ◌∷◌, ◌++◌, map, if◌then◌else◌, arith,
  Option-cases, inl, inr,
}
use inty.Common.Dict.{string_eq, nat_eq, ◌=?◌, =?-self, has, lookup, lookup-insert}
use inty.Dynamics.Store.{
  RuntimeEnv, Value, Props, Cell, var, object, array, Heap, ok, env_lookup, prop_get, insert_entry,
  prop_insert, prop_keys, alloc, cell_at, put, deref_var, read_ident, write_ident, declare,
}

-- Whether two names resolve to one location.
abbrev pub same_loc : Option ℕ → Option ℕ → Bool
same_loc (some a) (some b) = a =? b
same_loc _ _ = false

module _ {F B : Type 0} where
  -- Every location that is in use was handed out.
  abbrev pub IsFresh : Heap F B → Type 0
  IsFresh h = (loc : ℕ) (c : Cell F B) → lookup loc h.cells ≡ some c → loc < h.next

  deref_var-put :
      (h : Heap F B) (loc l : ℕ) (v : Value F B)
      → deref_var (put loc (var v) h) l ≡ (if loc =? l then ok v else deref_var h l)
  unfolding deref_var put
  deref_var-put h loc l v = ground (arith, lookup-insert loc l (Cell.var v) h.cells)

  -- After an assignment that succeeds, a name of any environment reads as the assigned value if it
  -- resolves to the same location, and as before if not: closures that captured a variable see the
  -- assignment, and no other variable changes.
  pub write_ident-read_ident :
      (h t : Heap F B) (env other : RuntimeEnv) (x y : String) (v : Value F B)
      → write_ident env x v h ≡ ok t
      → read_ident t other y
        ≡ (if same_loc (env_lookup env x) (env_lookup other y) then ok v else read_ident h other y)
  unfolding write_ident read_ident
  write_ident-read_ident h t env other x y v run = elim (Option-cases (env_lookup env x)) [
    | inl e ↦ absurd (ground arith)
    | inr (loc, e) ↦ elim (Option-cases (cell_at h loc)) [
      | inl gone ↦ absurd (ground arith)
      | inr (var w, found) ↦
          let same : t ≡ put loc (var v) h = ground arith in
          elim (Option-cases (env_lookup other y)) [
            | inl free ↦ ground arith
            | inr (l, bound) ↦ ground (arith, deref_var-put h loc l v)
          ]
      | inr (object p, found) ↦ absurd (ground arith)
      | inr (array vs, found) ↦ absurd (ground arith)
    ]
  ]

  deref_var-alloc :
      (h : Heap F B) (cell : Cell F B) (l : ℕ) (w : Value F B)
      → IsFresh h
      → deref_var h l ≡ ok w
      → deref_var (alloc cell h).1 l ≡ ok w
  unfolding deref_var alloc
  deref_var-alloc h cell l w fresh run = elim (Option-cases (cell_at h l)) [
    | inl gone ↦ absurd (ground arith)
    | inr (c, found) ↦
        let older : l < h.next = fresh l c found in
        let apart : (h.next =? l) ≡ false = ground (arith, nat_eq.beq_iff h.next l) in
        ground (arith, lookup-insert h.next l cell h.cells)
  ]

  declare-kept :
      (h : Heap F B) (env other : RuntimeEnv) (x y : String) (v w : Value F B)
      → IsFresh h
      → read_ident h other y ≡ ok w
      → read_ident (declare env x v h).1 other y ≡ ok w
  unfolding declare read_ident
  declare-kept h env other x y v w fresh run = elim (Option-cases (env_lookup other y)) [
    | inl free ↦ ground arith
    | inr (l, bound) ↦ ground (arith, deref_var-alloc h (Cell.var v) l w fresh)
  ]

  -- A declaration hands out a location that was not in use: the new name reads as its value, every
  -- name of every environment that could be read reads as before, and later locations are fresh too.
  pub declare-read_ident :
      (h : Heap F B) (env other : RuntimeEnv) (x y : String) (v w : Value F B)
      → IsFresh h
      → read_ident h other y ≡ ok w
      → (read_ident (declare env x v h).1 (declare env x v h).0 x ≡ ok v)
        × (read_ident (declare env x v h).1 other y ≡ ok w)
        × IsFresh (declare env x v h).1
  unfolding declare read_ident deref_var
  declare-read_ident h env other x y v w fresh run = (
    ground (arith, =?-self x, =?-self h.next, lookup-insert h.next h.next (Cell.var v) h.cells),
    declare-kept h env other x y v w fresh run,
    λ loc c i. ground (
      arith,
      lookup-insert h.next loc (Cell.var v) h.cells,
      fresh loc c,
      nat_eq.beq_iff h.next loc,
    ),
  )

  lookup-insert_entry :
      (k j : String) (v : Value F B) (m : List (String × Value F B))
      → lookup j (insert_entry k v m) ≡ (if k =? j then some v else lookup j m)
  unfolding insert_entry
  lookup-insert_entry k j v [] = refl
  lookup-insert_entry k j v ((i, w) ∷ m) = ground (
    arith,
    string_eq.beq_iff k j,
    string_eq.beq_iff i k,
    string_eq.beq_iff i j,
    lookup-insert_entry k j v m,
  )

  keys-insert_entry :
      (k : String) (v : Value F B) (m : List (String × Value F B))
      → map (λ e. e.0) (insert_entry k v m)
        ≡ (if has (map (λ e. e.0) m) k then map (λ e. e.0) m else map (λ e. e.0) m ++ k ∷ [])
  unfolding insert_entry
  keys-insert_entry k v [] = refl
  keys-insert_entry k v ((i, w) ∷ m) = ground (arith, keys-insert_entry k v m)

  -- Storing a property: it then reads as the stored value and every other property as before; the
  -- keys keep their order, a new one comes last.
  prop_insert-prop_get :
      (k j : String) (v : Value F B) (props : Props F B)
      → (prop_get (prop_insert k v props) j ≡ (if k =? j then some v else prop_get props j))
        × (prop_keys (prop_insert k v props)
            ≡ (if has (prop_keys props) k then prop_keys props else prop_keys props ++ k ∷ []))
  unfolding prop_insert prop_get prop_keys
  prop_insert-prop_get k j v props =
      (lookup-insert_entry k j v props.entries, keys-insert_entry k v props.entries)
