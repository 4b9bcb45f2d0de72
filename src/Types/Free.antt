-- ===== src/Types/Free.antt =====
-- crates/inty/src/types/ty.rs: the free type variables and presence variables of types and schemes.
-- A set is a list; `without` removes the quantified variables.
pub mod Occurs
pub mod Exact
mod Tests
use inty.Common.{
  ℕ, ◌≡◌, refl, Bool, true, false, not, ◌&&◌, ◌||◌, Option, none, some, List, [], ◌∷◌, ◌++◌, arith,
}
use inty.Common.Dict.{Eq, ◌=?◌, has, has-append, without, has-without}
use inty.Types.Ty.{
  TVarName, PVarName, tvar_eq, pvar_eq, Presence, pre, abs, Ty, number, string, boolean, undefined,
  null, regex, new_target, arrow_this, var, func, row, array, map, promise, tuple, named, literal,
  union, maybe, module_, typed_array, error, Tys, nil, cons, OptionTy, absent, this, Params,
  no_params, param, Props, no_props, prop, Tail, closed, open_, recursive, Exports, no_exports,
  export, Preds, no_preds, pred,
}

pub record TypeScheme : Type 0 where
  pub vars : List TVarName
  pub pvars : List PVarName
  pub preds : Preds
  pub ty : Ty

unfoldable mutual
  pub collect_vars : Ty → List TVarName → List TVarName
  collect_vars number out = out
  collect_vars string out = out
  collect_vars boolean out = out
  collect_vars undefined out = out
  collect_vars null out = out
  collect_vars regex out = out
  collect_vars new_target out = out
  collect_vars arrow_this out = out
  collect_vars (var v) out = v ∷ out
  collect_vars (func this_type params ret) out =
      collect_vars ret (collect_vars_params params (collect_vars_this this_type out))
  collect_vars (row props tail) out = collect_vars_tail tail (collect_vars_props props out)
  collect_vars (array t) out = collect_vars t out
  collect_vars (map t) out = collect_vars t out
  collect_vars (promise t) out = collect_vars t out
  collect_vars (tuple ts) out = collect_vars_tys ts out
  collect_vars (named n ts) out = collect_vars_tys ts out
  collect_vars (literal l) out = out
  collect_vars (union ts) out = collect_vars_tys ts out
  collect_vars (maybe z t) out = collect_vars t out
  collect_vars (module_ source exports) out = collect_vars_exports exports out
  collect_vars (typed_array k) out = out
  collect_vars error out = out

  pub collect_vars_tys : Tys → List TVarName → List TVarName
  collect_vars_tys nil out = out
  collect_vars_tys (cons t ts) out = collect_vars_tys ts (collect_vars t out)

  pub collect_vars_this : OptionTy → List TVarName → List TVarName
  collect_vars_this absent out = out
  collect_vars_this (this t) out = collect_vars t out

  pub collect_vars_params : Params → List TVarName → List TVarName
  collect_vars_params no_params out = out
  collect_vars_params (param p t name rest) out = collect_vars_params rest (collect_vars t out)

  pub collect_vars_props : Props → List TVarName → List TVarName
  collect_vars_props no_props out = out
  collect_vars_props (prop name p t w o rest) out = collect_vars_props rest (collect_vars t out)

  pub collect_vars_tail : Tail → List TVarName → List TVarName
  collect_vars_tail closed out = out
  collect_vars_tail (open_ v) out = v ∷ out
  collect_vars_tail (recursive n ts) out = collect_vars_tys ts out

  -- What is free in the body and not quantified.
  pub collect_vars_exports : Exports → List TVarName → List TVarName
  collect_vars_exports no_exports out = out
  collect_vars_exports (export name vars pvars preds t rest) out =
      collect_vars_exports rest (without vars (collect_vars_preds preds (collect_vars t [])) ++ out)

  pub collect_vars_preds : Preds → List TVarName → List TVarName
  collect_vars_preds no_preds out = out
  collect_vars_preds (pred c ts origin rest) out = collect_vars_preds rest (collect_vars_tys ts out)

-- A presence that is a variable.
abbrev pub presence_pvars : Presence → List PVarName → List PVarName
presence_pvars pre out = out
presence_pvars abs out = out
presence_pvars (Presence.var v) out = v ∷ out

unfoldable mutual
  pub collect_pvars : Ty → List PVarName → List PVarName
  collect_pvars number out = out
  collect_pvars string out = out
  collect_pvars boolean out = out
  collect_pvars undefined out = out
  collect_pvars null out = out
  collect_pvars regex out = out
  collect_pvars new_target out = out
  collect_pvars arrow_this out = out
  collect_pvars (var v) out = out
  collect_pvars (func this_type params ret) out =
      collect_pvars ret (collect_pvars_params params (collect_pvars_this this_type out))
  collect_pvars (row props tail) out = collect_pvars_tail tail (collect_pvars_props props out)
  collect_pvars (array t) out = collect_pvars t out
  collect_pvars (map t) out = collect_pvars t out
  collect_pvars (promise t) out = collect_pvars t out
  collect_pvars (tuple ts) out = collect_pvars_tys ts out
  collect_pvars (named n ts) out = collect_pvars_tys ts out
  collect_pvars (literal l) out = out
  collect_pvars (union ts) out = collect_pvars_tys ts out
  collect_pvars (maybe z t) out = collect_pvars t out
  collect_pvars (module_ source exports) out = collect_pvars_exports exports out
  collect_pvars (typed_array k) out = out
  collect_pvars error out = out

  pub collect_pvars_tys : Tys → List PVarName → List PVarName
  collect_pvars_tys nil out = out
  collect_pvars_tys (cons t ts) out = collect_pvars_tys ts (collect_pvars t out)

  pub collect_pvars_this : OptionTy → List PVarName → List PVarName
  collect_pvars_this absent out = out
  collect_pvars_this (this t) out = collect_pvars t out

  pub collect_pvars_params : Params → List PVarName → List PVarName
  collect_pvars_params no_params out = out
  collect_pvars_params (param p t name rest) out =
      collect_pvars_params rest (collect_pvars t (presence_pvars p out))

  pub collect_pvars_props : Props → List PVarName → List PVarName
  collect_pvars_props no_props out = out
  collect_pvars_props (prop name p t w o rest) out =
      collect_pvars_props rest
        (collect_pvars t (presence_pvars o (presence_pvars w (presence_pvars p out))))

  pub collect_pvars_tail : Tail → List PVarName → List PVarName
  collect_pvars_tail closed out = out
  collect_pvars_tail (open_ v) out = out
  collect_pvars_tail (recursive n ts) out = collect_pvars_tys ts out

  -- What is free in the body and not quantified.
  pub collect_pvars_exports : Exports → List PVarName → List PVarName
  collect_pvars_exports no_exports out = out
  collect_pvars_exports (export name vars pvars preds t rest) out =
      collect_pvars_exports rest
        (without pvars (collect_pvars_preds preds (collect_pvars t [])) ++ out)

  pub collect_pvars_preds : Preds → List PVarName → List PVarName
  collect_pvars_preds no_preds out = out
  collect_pvars_preds (pred c ts origin rest) out =
      collect_pvars_preds rest (collect_pvars_tys ts out)

unfoldable pub free_vars : Ty → List TVarName
unfolding collect_vars
free_vars t = collect_vars t []

unfoldable pub free_pvars : Ty → List PVarName
unfolding collect_pvars
free_pvars t = collect_pvars t []

-- `QualType::free_vars`
unfoldable pub qual_free_vars : Preds → Ty → List TVarName
unfolding free_vars collect_vars
qual_free_vars preds t = collect_vars_preds preds (free_vars t)

unfoldable pub scheme_free_vars : TypeScheme → List TVarName
unfolding qual_free_vars
scheme_free_vars s = without s.vars (qual_free_vars s.preds s.ty)

unfoldable pub scheme_free_pvars : TypeScheme → List PVarName
unfolding free_pvars collect_pvars
scheme_free_pvars s = without s.pvars (collect_pvars_preds s.preds (free_pvars s.ty))
