-- ===== src/Types/Named.antt =====
-- crates/inty/src/types/ty.rs: the ids of the named types that a type mentions. The exports of a
-- module type are not walked.
pub mod Exact
mod Tests
use inty.Common.{ℕ, ◌≡◌, refl, Bool, true, false, ◌||◌, some, none, List, [], ◌∷◌, arith}
use inty.Common.Dict.{Eq, nat_eq, ◌=?◌, has}
use inty.Types.Ty.{
  Ty, number, string, boolean, undefined, null, regex, new_target, arrow_this, var, func, row,
  array, map, promise, tuple, named, literal, union, maybe, module_, typed_array, error, Tys, nil,
  cons, OptionTy, absent, this, Params, no_params, param, Props, no_props, prop, Tail, closed,
  open_, recursive, pre,
}

unfoldable mutual
  pub collect_ids : Ty → List ℕ → List ℕ
  collect_ids number out = out
  collect_ids string out = out
  collect_ids boolean out = out
  collect_ids undefined out = out
  collect_ids null out = out
  collect_ids regex out = out
  collect_ids new_target out = out
  collect_ids arrow_this out = out
  collect_ids (var v) out = out
  collect_ids (literal l) out = out
  collect_ids (module_ source members) out = out
  collect_ids (typed_array k) out = out
  collect_ids error out = out
  collect_ids (func this_type params ret) out =
      collect_ids ret (collect_ids_params params (collect_ids_this this_type out))
  collect_ids (row props tail) out = collect_ids_tail tail (collect_ids_props props out)
  collect_ids (array t) out = collect_ids t out
  collect_ids (map t) out = collect_ids t out
  collect_ids (promise t) out = collect_ids t out
  collect_ids (maybe z t) out = collect_ids t out
  collect_ids (tuple ts) out = collect_ids_tys ts out
  collect_ids (union ts) out = collect_ids_tys ts out
  collect_ids (named id ts) out = collect_ids_tys ts (id ∷ out)

  pub collect_ids_tys : Tys → List ℕ → List ℕ
  collect_ids_tys nil out = out
  collect_ids_tys (cons t ts) out = collect_ids_tys ts (collect_ids t out)

  pub collect_ids_this : OptionTy → List ℕ → List ℕ
  collect_ids_this absent out = out
  collect_ids_this (this t) out = collect_ids t out

  pub collect_ids_params : Params → List ℕ → List ℕ
  collect_ids_params no_params out = out
  collect_ids_params (param p t name rest) out = collect_ids_params rest (collect_ids t out)

  pub collect_ids_props : Props → List ℕ → List ℕ
  collect_ids_props no_props out = out
  collect_ids_props (prop name p t w o rest) out = collect_ids_props rest (collect_ids t out)

  pub collect_ids_tail : Tail → List ℕ → List ℕ
  collect_ids_tail closed out = out
  collect_ids_tail (open_ v) out = out
  collect_ids_tail (recursive id ts) out = collect_ids_tys ts (id ∷ out)

unfoldable pub named_ids : Ty → List ℕ
unfolding collect_ids
named_ids t = collect_ids t []
