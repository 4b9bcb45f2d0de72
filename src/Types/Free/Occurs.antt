-- ===== src/Types/Free/Occurs.antt =====
-- When a variable occurs free in a type, as a test on one variable.
use inty.Common.{Bool, false, not, ◌&&◌, ◌||◌}
use inty.Common.Dict.{◌=?◌, has}
use inty.Types.Ty.{
  TVarName, PVarName, tvar_eq, pvar_eq, Presence, pre, abs, Ty, number, string, boolean, undefined,
  null, regex, new_target, arrow_this, var, func, row, array, map, promise, tuple, named, literal,
  union, maybe, module_, typed_array, error, Tys, nil, cons, OptionTy, absent, this, Params,
  no_params, param, Props, no_props, prop, Tail, closed, open_, recursive, Exports, no_exports,
  export, Preds, no_preds, pred,
}

unfoldable mutual
  pub is_in : TVarName → Ty → Bool
  is_in a number = false
  is_in a string = false
  is_in a boolean = false
  is_in a undefined = false
  is_in a null = false
  is_in a regex = false
  is_in a new_target = false
  is_in a arrow_this = false
  is_in a (var v) = v =? a
  is_in a (func this_type params ret) =
      is_in_this a this_type || (is_in_params a params || is_in a ret)
  is_in a (row props tail) = is_in_props a props || is_in_tail a tail
  is_in a (array t) = is_in a t
  is_in a (map t) = is_in a t
  is_in a (promise t) = is_in a t
  is_in a (tuple ts) = is_in_tys a ts
  is_in a (named n ts) = is_in_tys a ts
  is_in a (literal l) = false
  is_in a (union ts) = is_in_tys a ts
  is_in a (maybe z t) = is_in a t
  is_in a (module_ source exports) = is_in_exports a exports
  is_in a (typed_array k) = false
  is_in a error = false

  pub is_in_tys : TVarName → Tys → Bool
  is_in_tys a nil = false
  is_in_tys a (cons t ts) = is_in a t || is_in_tys a ts

  pub is_in_this : TVarName → OptionTy → Bool
  is_in_this a absent = false
  is_in_this a (this t) = is_in a t

  pub is_in_params : TVarName → Params → Bool
  is_in_params a no_params = false
  is_in_params a (param p t name rest) = (is_in a t || is_in_params a rest)

  pub is_in_props : TVarName → Props → Bool
  is_in_props a no_props = false
  is_in_props a (prop name p t w o rest) = (is_in a t || is_in_props a rest)

  pub is_in_tail : TVarName → Tail → Bool
  is_in_tail a closed = false
  is_in_tail a (open_ v) = v =? a
  is_in_tail a (recursive n ts) = is_in_tys a ts

  pub is_in_exports : TVarName → Exports → Bool
  is_in_exports a no_exports = false
  is_in_exports a (export name vars pvars preds t rest) =
      (not (has vars a) && (is_in a t || is_in_preds a preds)) || is_in_exports a rest

  pub is_in_preds : TVarName → Preds → Bool
  is_in_preds a no_preds = false
  is_in_preds a (pred c ts origin rest) = is_in_tys a ts || is_in_preds a rest

abbrev pub is_presence : PVarName → Presence → Bool
is_presence a pre = false
is_presence a abs = false
is_presence a (Presence.var v) = v =? a

unfoldable mutual
  pub is_pvar_in : PVarName → Ty → Bool
  is_pvar_in a number = false
  is_pvar_in a string = false
  is_pvar_in a boolean = false
  is_pvar_in a undefined = false
  is_pvar_in a null = false
  is_pvar_in a regex = false
  is_pvar_in a new_target = false
  is_pvar_in a arrow_this = false
  is_pvar_in a (var v) = false
  is_pvar_in a (func this_type params ret) =
      is_pvar_in_this a this_type || (is_pvar_in_params a params || is_pvar_in a ret)
  is_pvar_in a (row props tail) = is_pvar_in_props a props || is_pvar_in_tail a tail
  is_pvar_in a (array t) = is_pvar_in a t
  is_pvar_in a (map t) = is_pvar_in a t
  is_pvar_in a (promise t) = is_pvar_in a t
  is_pvar_in a (tuple ts) = is_pvar_in_tys a ts
  is_pvar_in a (named n ts) = is_pvar_in_tys a ts
  is_pvar_in a (literal l) = false
  is_pvar_in a (union ts) = is_pvar_in_tys a ts
  is_pvar_in a (maybe z t) = is_pvar_in a t
  is_pvar_in a (module_ source exports) = is_pvar_in_exports a exports
  is_pvar_in a (typed_array k) = false
  is_pvar_in a error = false

  pub is_pvar_in_tys : PVarName → Tys → Bool
  is_pvar_in_tys a nil = false
  is_pvar_in_tys a (cons t ts) = is_pvar_in a t || is_pvar_in_tys a ts

  pub is_pvar_in_this : PVarName → OptionTy → Bool
  is_pvar_in_this a absent = false
  is_pvar_in_this a (this t) = is_pvar_in a t

  pub is_pvar_in_params : PVarName → Params → Bool
  is_pvar_in_params a no_params = false
  is_pvar_in_params a (param p t name rest) =
      is_presence a p || (is_pvar_in a t || is_pvar_in_params a rest)

  pub is_pvar_in_props : PVarName → Props → Bool
  is_pvar_in_props a no_props = false
  is_pvar_in_props a (prop name p t w o rest) =
      is_presence a p
      || is_presence a w
      || is_presence a o
      || (is_pvar_in a t || is_pvar_in_props a rest)

  pub is_pvar_in_tail : PVarName → Tail → Bool
  is_pvar_in_tail a closed = false
  is_pvar_in_tail a (open_ v) = false
  is_pvar_in_tail a (recursive n ts) = is_pvar_in_tys a ts

  pub is_pvar_in_exports : PVarName → Exports → Bool
  is_pvar_in_exports a no_exports = false
  is_pvar_in_exports a (export name vars pvars preds t rest) =
      (not (has pvars a) && (is_pvar_in a t || is_pvar_in_preds a preds))
      || is_pvar_in_exports a rest

  pub is_pvar_in_preds : PVarName → Preds → Bool
  is_pvar_in_preds a no_preds = false
  is_pvar_in_preds a (pred c ts origin rest) = is_pvar_in_tys a ts || is_pvar_in_preds a rest
