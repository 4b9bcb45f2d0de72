-- ===== src/Infer/Env/Tests.antt =====
-- The environment over lists of entries.
use Prim.Native.String.{String}
use inty.Common.{ℕ, ◌≡◌, refl, true, none, some, List, [], ◌∷◌, ◌↔◌, arith}
use inty.Common.Dict.{has, string_eq, nat_eq}
use inty.Common.PersistentMap.{PersistentMap, lists}
use inty.Types.Ty.{TVarName, PVarName, flex, Ty, number, string, var, no_preds, tvar_eq, pvar_eq}
use inty.Types.Free.{TypeScheme, scheme_free_vars, qual_free_vars, free_vars}
use inty.Infer.Env.{
  Key, local, name, Binding, mutable, immutable, key_eq, TypeEnv, empty, extend_key, lookup_key,
  lookup_binding, key_of_name, with_narrowings_of, without_narrowings, globalized, free,
}
use inty.Infer.Env.Narrowing.{
  without_narrowings-narrow_all, with_narrowings_of-changes, narrow_all, changes, Change, narrowing,
  declaring,
}
use inty.Infer.Env.Global.{IsNamed, lookup_binding-globalized}
use inty.Types.Named.Exact.{mentions}
use inty.Infer.Env.Free.{is_free, is_free_pvar, HeldIn, has-free}

abbrev b_maps : PersistentMap Key Binding
b_maps = lists

abbrev n_maps : PersistentMap String Key
n_maps = lists

abbrev of_type : Ty → TypeScheme
of_type t = record { vars = []; pvars = []; preds = no_preds; ty = t }

abbrev global_x : Binding
global_x = record { scheme = of_type (var (flex 3)); mutability = mutable; declared = none }

abbrev narrowed_x : Binding
narrowed_x = record {
  scheme = of_type string;
  mutability = mutable;
  declared = some (of_type (var (flex 3)));
}

abbrev local_y : Binding
local_y = record { scheme = of_type number; mutability = immutable; declared = none }

abbrev env : TypeEnv b_maps n_maps
env =
    extend_key b_maps n_maps (local 0) "y" local_y
      (extend_key b_maps n_maps (name "x") "x" global_x (empty b_maps n_maps))

abbrev steps : List (Key × TypeScheme)
steps =
    (name "x", of_type string) ∷ (local 0, of_type (var (flex 9))) ∷ (name "x", of_type number) ∷ []

without_narrowings-narrow_all_example :
    lookup_key b_maps n_maps
      (name "x")
      (without_narrowings b_maps n_maps (narrow_all b_maps n_maps steps env))
    ≡ lookup_key b_maps n_maps (name "x") (without_narrowings b_maps n_maps env)
without_narrowings-narrow_all_example =
    without_narrowings-narrow_all b_maps n_maps steps env (name "x")

lookup_env : lookup_binding b_maps n_maps "y" env ≡ some local_y
unfolding lookup_binding extend_key empty lists
lookup_env = refl

lookup_key_env : lookup_key b_maps n_maps (local 0) env ≡ some local_y
unfolding lookup_key extend_key empty lists
lookup_key_env = refl

abbrev scope : List (Change b_maps n_maps)
scope =
    narrowing (local 0) (of_type string)
    ∷ declaring (local 1) "z" global_x
    ∷ narrowing (local 1) (of_type number)
    ∷ []

with_narrowings_of-changes_example :
    lookup_key b_maps n_maps
      (local 0)
      (with_narrowings_of b_maps n_maps env (changes b_maps n_maps scope env))
    ≡ some local_y
with_narrowings_of-changes_example =
    with_narrowings_of-changes b_maps n_maps env scope (local 0) local_y lookup_key_env
      (refl, (refl, (refl, tt)))

env-IsNamed : IsNamed b_maps n_maps env
unfolding key_of_name extend_key empty lists
env-IsNamed n m h = ground (arith, string_eq.beq_iff "x" n, string_eq.beq_iff "y" n)

lookup_binding-globalized_example :
    lookup_binding b_maps n_maps "y" (globalized b_maps n_maps env) ≡ some local_y
lookup_binding-globalized_example =
    lookup_binding-globalized b_maps n_maps env "y" local_y env-IsNamed lookup_env

-- `x` narrowed to a string, with the variable of its declared scheme still free.
abbrev narrowed_env : TypeEnv b_maps n_maps
narrowed_env = extend_key b_maps n_maps (name "x") "x" narrowed_x env

free_narrowed : (free b_maps n_maps narrowed_env).vars ≡ flex 3 ∷ []
unfolding free extend_key empty lists scheme_free_vars qual_free_vars free_vars
free_narrowed = refl

has-free_example :
    ((v : TVarName)
      → (has (free b_maps n_maps narrowed_env).vars v ≡ true)
        ↔ HeldIn b_maps n_maps (is_free v) narrowed_env)
    × (((v : PVarName)
          → (has (free b_maps n_maps narrowed_env).pvars v ≡ true)
            ↔ HeldIn b_maps n_maps (is_free_pvar v) narrowed_env)
        × ((i : ℕ)
            → (has (free b_maps n_maps narrowed_env).named i ≡ true)
              ↔ HeldIn b_maps n_maps (λ s. mentions i s.ty) narrowed_env))
has-free_example = has-free b_maps n_maps narrowed_env
