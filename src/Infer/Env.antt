-- ===== src/Infer/Env.antt =====
-- crates/inty/src/infer/env.rs: the bindings in scope and their type schemes. The persistent hash maps
-- are the parameters `B` and `N`. What an `Entry` caches, the free variables of its binding, is
-- computed anew. A hash set is a list.
pub mod Narrowing
pub mod Global
pub mod Free
mod Tests
use Prim.Native.String.{String}
use text.Mathlib.Text.{◌==◌ as str_eq}
use inty.Common.{
  ℕ, ◌==◌, ◌≡◌, refl, ◌↔◌, Bool, true, false, not, Option, none, some, List, [], ◌∷◌, ◌++◌, length,
  arith, if◌then◌else◌,
}
use inty.Common.Dict.{Eq, string_eq, ◌=?◌}
use inty.Common.PersistentMap.{PersistentMap, update_each}
use inty.Types.Ty.{TVarName, PVarName}
use inty.Types.Free.{TypeScheme, scheme_free_vars, scheme_free_pvars}
use inty.Types.Named.{named_ids}

pub data Mutability : Type 0 where
  mutable immutable : Mutability

pub record Binding : Type 0 where
  pub scheme : TypeScheme
  pub mutability : Mutability
  pub declared : Option TypeScheme

-- `Binding::mutable` and `Binding::immutable`
unfoldable pub mutable_binding : TypeScheme → Binding
mutable_binding s = record { scheme = s; mutability = mutable; declared = none }

unfoldable pub immutable_binding : TypeScheme → Binding
immutable_binding s = record { scheme = s; mutability = immutable; declared = none }

pub data Key : Type 0 where
  local : ℕ → Key
  name : String → Key

abbrev pub key_beq : Key → Key → Bool
key_beq (local a) (local b) = a == b
key_beq (name a) (name b) = a =? b
key_beq _ _ = false

pub key_beq_iff : (a b : Key) → (key_beq a b ≡ true) ↔ (a ≡ b)
key_beq_iff (local a) (local b) = ground arith
key_beq_iff (local a) (name b) = ground arith
key_beq_iff (name a) (local b) = ground arith
key_beq_iff (name a) (name b) = ground (arith, string_eq.beq_iff a b)

instance abbrev pub key_eq : Eq Key
key_eq = record { beq = key_beq; beq_iff = key_beq_iff }

pub record EnvFree : Type 0 where
  pub vars : List TVarName
  pub pvars : List PVarName
  pub named : List ℕ

abbrev pub scheme_free : TypeScheme → EnvFree
scheme_free s = record {
  vars = scheme_free_vars s;
  pvars = scheme_free_pvars s;
  named = named_ids s.ty;
}

abbrev pub no_free : EnvFree
no_free = record { vars = []; pvars = []; named = [] }

abbrev pub both_free : EnvFree → EnvFree → EnvFree
both_free a b = record {
  vars = a.vars ++ b.vars;
  pvars = a.pvars ++ b.pvars;
  named = a.named ++ b.named;
}

-- `Entry::free`
unfoldable pub binding_free : Binding → EnvFree
binding_free b = elim b.declared [
  | none ↦ scheme_free b.scheme
  | some d ↦ both_free (scheme_free b.scheme) (scheme_free d)
]

-- `b.declared.clone().unwrap_or_else(|| b.scheme.clone())`
abbrev pub own_scheme : Binding → TypeScheme
own_scheme b = elim b.declared [ none ↦ b.scheme | some d ↦ d ]

-- A narrowed binding with its own scheme.
abbrev pub widened : Key → Binding → Option Binding
widened key b = elim b.declared [
  | none ↦ none
  | some d ↦ some (record { scheme = d; mutability = b.mutability; declared = none })
]

abbrev pub map_declared : (TypeScheme → TypeScheme) → Option TypeScheme → Option TypeScheme
map_declared f none = none
map_declared f (some d) = some (f d)

abbrev pub map_binding : (TypeScheme → TypeScheme) → Binding → Binding
map_binding f b = record {
  scheme = f b.scheme;
  mutability = b.mutability;
  declared = map_declared f b.declared;
}

unfoldable pub free_loop : List (Key × Binding) → EnvFree
unfolding binding_free
free_loop [] = no_free
free_loop ((key, b) ∷ es) = both_free (binding_free b) (free_loop es)

module _ (B : PersistentMap Key Binding) (N : PersistentMap String Key) where
  pub record TypeEnv : Type 0 where
    pub bindings : B.Map
    pub names : N.Map

  unfoldable pub empty : TypeEnv
  empty = record { bindings = B.empty; names = N.empty }

  unfoldable pub lookup_key : Key → TypeEnv → Option Binding
  lookup_key key e = B.get key e.bindings

  unfoldable pub key_of_name : String → TypeEnv → Option Key
  key_of_name n e = N.get n e.names

  unfoldable pub lookup_binding : String → TypeEnv → Option Binding
  unfolding lookup_key
  lookup_binding n e = elim (N.get n e.names) [ none ↦ none | some key ↦ lookup_key key e ]

  unfoldable pub lookup_scheme : String → TypeEnv → Option TypeScheme
  unfolding lookup_binding
  lookup_scheme n e = elim (lookup_binding n e) [ none ↦ none | some b ↦ some b.scheme ]

  unfoldable pub extend_key : Key → String → Binding → TypeEnv → TypeEnv
  extend_key key n b e = record {
    bindings = B.insert key b e.bindings;
    names = N.insert n key e.names;
  }

  unfoldable pub extend : String → TypeScheme → TypeEnv → TypeEnv
  unfolding extend_key mutable_binding
  extend n s e = extend_key (name n) n (mutable_binding s) e

  unfoldable pub extend_immutable : String → TypeScheme → TypeEnv → TypeEnv
  unfolding extend_key immutable_binding
  extend_immutable n s e = extend_key (name n) n (immutable_binding s) e

  unfoldable pub extend_with_mutability : String → TypeScheme → Mutability → TypeEnv → TypeEnv
  unfolding extend_key
  extend_with_mutability n s m e =
      extend_key (name n) n (record { scheme = s; mutability = m; declared = none }) e

  unfoldable pub extend_many : List (String × TypeScheme) → TypeEnv → TypeEnv
  unfolding extend
  extend_many [] e = e
  extend_many ((n, s) ∷ bs) e = extend_many bs (extend n s e)

  unfoldable pub narrow : Key → TypeScheme → TypeEnv → TypeEnv
  unfolding lookup_key
  narrow key s e = elim (lookup_key key e) [
    | none ↦ e
    | some b ↦ record e {
      bindings =
          B.insert key
            (record { scheme = s; mutability = b.mutability; declared = some (own_scheme b) })
            e.bindings;
    }
  ]

  unfoldable pub lookup_declared : String → TypeEnv → Option TypeScheme
  unfolding lookup_binding
  lookup_declared n e = elim (lookup_binding n e) [ none ↦ none | some b ↦ some (own_scheme b) ]

  -- The binding of `base` instead of a narrowed one, or the binding with its own scheme.
  abbrev pub restored : TypeEnv → Key → Binding → Option Binding
  restored base key b = elim b.declared [
    | none ↦ none
    | some d ↦ elim (B.get key base.bindings) [
      | some other ↦ some other
      | none ↦ some (record { scheme = d; mutability = b.mutability; declared = none })
    ]
  ]

  unfoldable pub with_narrowings_of : TypeEnv → TypeEnv → TypeEnv
  unfolding update_each
  with_narrowings_of base e = record e {
    bindings = update_each B (restored base) (B.entries e.bindings) e.bindings;
  }

  unfoldable pub with_names_of : TypeEnv → TypeEnv → TypeEnv
  with_names_of outer e = record e { names = outer.names }

  unfoldable pub without_narrowings : TypeEnv → TypeEnv
  unfolding update_each
  without_narrowings e = record e {
    bindings = update_each B widened (B.entries e.bindings) e.bindings;
  }

  -- The loops of `globalized`.
  unfoldable pub keep_names : List (Key × Binding) → TypeEnv → TypeEnv
  keep_names [] out = out
  keep_names ((local i, b) ∷ es) out = keep_names es out
  keep_names ((name n, b) ∷ es) out = keep_names es (record {
    bindings = B.insert (name n) b out.bindings;
    names = N.insert n (name n) out.names;
  })

  unfoldable pub raise_locals : TypeEnv → List (String × Key) → TypeEnv → TypeEnv
  raise_locals e [] out = out
  raise_locals e ((n, name m) ∷ es) out = raise_locals e es out
  raise_locals e ((n, local i) ∷ es) out = elim (B.get (local i) e.bindings) [
    | none ↦ raise_locals e es out
    | some b ↦ raise_locals e es (record {
      bindings = B.insert (name n) b out.bindings;
      names = N.insert n (name n) out.names;
    })
  ]

  unfoldable pub globalized : TypeEnv → TypeEnv
  unfolding empty keep_names raise_locals
  globalized e = raise_locals e (N.entries e.names) (keep_names (B.entries e.bindings) empty)

  unfoldable pub map_schemes : (TypeScheme → TypeScheme) → TypeEnv → TypeEnv
  unfolding update_each
  map_schemes f e = record e {
    bindings = update_each B (λ key b. some (map_binding f b)) (B.entries e.bindings) e.bindings;
  }

  unfoldable pub remove : String → TypeEnv → TypeEnv
  remove n e = elim (N.get n e.names) [
    | none ↦ e
    | some key ↦ record { bindings = B.remove key e.bindings; names = N.remove n e.names }
  ]

  unfoldable pub remove_key : Key → TypeEnv → TypeEnv
  remove_key key e = record {
    bindings = B.remove key e.bindings;
    names = N.retain (λ k. not (k =? key)) e.names;
  }

  unfoldable pub contains : String → TypeEnv → Bool
  unfolding lookup_binding
  contains n e = elim (lookup_binding n e) [ none ↦ false | some b ↦ true ]

  unfoldable pub free : TypeEnv → EnvFree
  unfolding free_loop
  free e = free_loop (B.entries e.bindings)

  unfoldable pub free_vars : TypeEnv → List TVarName
  unfolding free
  free_vars e = (free e).vars
