-- ===== src/Types/Free/Exact.antt =====
-- The collected sets hold exactly the variables that occur free.
use inty.Common.{◌≡◌, refl, not, ◌&&◌, ◌||◌, List, [], ◌++◌, arith}
use inty.Common.Dict.{has, has-append, without, has-without}
use inty.Types.Ty.{
  TVarName, PVarName, tvar_eq, pvar_eq, Presence, pre, abs, Ty, number, string, boolean, undefined,
  null, regex, new_target, arrow_this, var, func, row, array, map, promise, tuple, named, literal,
  union, maybe, module_, typed_array, error, Tys, nil, cons, OptionTy, absent, this, Params,
  no_params, param, Props, no_props, prop, Tail, closed, open_, recursive, Exports, no_exports,
  export, Preds, no_preds, pred,
}
use inty.Types.Free.{
  TypeScheme, collect_vars, collect_vars_tys, collect_vars_this, collect_vars_params,
  collect_vars_props, collect_vars_tail, collect_vars_exports, collect_vars_preds, collect_pvars,
  collect_pvars_tys, collect_pvars_this, collect_pvars_params, collect_pvars_props,
  collect_pvars_tail, collect_pvars_exports, collect_pvars_preds, presence_pvars, free_vars,
  free_pvars, qual_free_vars, scheme_free_vars, scheme_free_pvars,
}
use inty.Types.Free.Occurs.{
  is_in, is_in_tys, is_in_this, is_in_params, is_in_props, is_in_tail, is_in_exports, is_in_preds,
  is_presence, is_pvar_in, is_pvar_in_tys, is_pvar_in_this, is_pvar_in_params, is_pvar_in_props,
  is_pvar_in_tail, is_pvar_in_exports, is_pvar_in_preds,
}

mutual
  unfolding collect_vars is_in

  pub has-collect_vars :
      (a : TVarName) (t : Ty) (out : List TVarName)
      → has (collect_vars t out) a ≡ (is_in a t || has out a)
  has-collect_vars a number out = refl
  has-collect_vars a string out = refl
  has-collect_vars a boolean out = refl
  has-collect_vars a undefined out = refl
  has-collect_vars a null out = refl
  has-collect_vars a regex out = refl
  has-collect_vars a new_target out = refl
  has-collect_vars a arrow_this out = refl
  has-collect_vars a (var v) out = refl
  has-collect_vars a (func this_type params ret) out = ground (
    arith,
    has-collect_vars a ret (collect_vars_params params (collect_vars_this this_type out)),
    has-collect_vars_params a params (collect_vars_this this_type out),
    has-collect_vars_this a this_type out,
  )
  has-collect_vars a (row props tail) out = ground (
    arith,
    has-collect_vars_tail a tail (collect_vars_props props out),
    has-collect_vars_props a props out,
  )
  has-collect_vars a (array t) out = has-collect_vars a t out
  has-collect_vars a (map t) out = has-collect_vars a t out
  has-collect_vars a (promise t) out = has-collect_vars a t out
  has-collect_vars a (tuple ts) out = has-collect_vars_tys a ts out
  has-collect_vars a (named i ts) out = has-collect_vars_tys a ts out
  has-collect_vars a (literal l) out = refl
  has-collect_vars a (union ts) out = has-collect_vars_tys a ts out
  has-collect_vars a (maybe z t) out = has-collect_vars a t out
  has-collect_vars a (module_ source exports) out = has-collect_vars_exports a exports out
  has-collect_vars a (typed_array k) out = refl
  has-collect_vars a error out = refl

  pub has-collect_vars_tys :
      (a : TVarName) (t : Tys) (out : List TVarName)
      → has (collect_vars_tys t out) a ≡ (is_in_tys a t || has out a)
  has-collect_vars_tys a nil out = refl
  has-collect_vars_tys a (cons t ts) out =
      ground (arith, has-collect_vars_tys a ts (collect_vars t out), has-collect_vars a t out)

  pub has-collect_vars_this :
      (a : TVarName) (t : OptionTy) (out : List TVarName)
      → has (collect_vars_this t out) a ≡ (is_in_this a t || has out a)
  has-collect_vars_this a absent out = refl
  has-collect_vars_this a (this t) out = has-collect_vars a t out

  pub has-collect_vars_params :
      (a : TVarName) (t : Params) (out : List TVarName)
      → has (collect_vars_params t out) a ≡ (is_in_params a t || has out a)
  has-collect_vars_params a no_params out = refl
  has-collect_vars_params a (param p t name rest) out =
      ground (arith, has-collect_vars_params a rest (collect_vars t out), has-collect_vars a t out)

  pub has-collect_vars_props :
      (a : TVarName) (t : Props) (out : List TVarName)
      → has (collect_vars_props t out) a ≡ (is_in_props a t || has out a)
  has-collect_vars_props a no_props out = refl
  has-collect_vars_props a (prop name p t w o rest) out =
      ground (arith, has-collect_vars_props a rest (collect_vars t out), has-collect_vars a t out)

  pub has-collect_vars_tail :
      (a : TVarName) (t : Tail) (out : List TVarName)
      → has (collect_vars_tail t out) a ≡ (is_in_tail a t || has out a)
  has-collect_vars_tail a closed out = refl
  has-collect_vars_tail a (open_ v) out = refl
  has-collect_vars_tail a (recursive i ts) out = has-collect_vars_tys a ts out

  pub has-collect_vars_exports :
      (a : TVarName) (t : Exports) (out : List TVarName)
      → has (collect_vars_exports t out) a ≡ (is_in_exports a t || has out a)
  has-collect_vars_exports a no_exports out = refl
  has-collect_vars_exports a (export name vars pvars preds t rest) out = ground (
    arith,
    has-collect_vars_exports a rest
        (without vars (collect_vars_preds preds (collect_vars t [])) ++ out),
    has-append (without vars (collect_vars_preds preds (collect_vars t []))) out a,
    has-without vars (collect_vars_preds preds (collect_vars t [])) a,
    has-collect_vars_preds a preds (collect_vars t []),
    has-collect_vars a t [],
  )

  pub has-collect_vars_preds :
      (a : TVarName) (t : Preds) (out : List TVarName)
      → has (collect_vars_preds t out) a ≡ (is_in_preds a t || has out a)
  has-collect_vars_preds a no_preds out = refl
  has-collect_vars_preds a (pred c ts origin rest) out = ground (
    arith,
    has-collect_vars_preds a rest (collect_vars_tys ts out),
    has-collect_vars_tys a ts out,
  )

has-presence_pvars :
    (a : PVarName) (p : Presence) (out : List PVarName)
    → has (presence_pvars p out) a ≡ (is_presence a p || has out a)
has-presence_pvars a pre out = refl
has-presence_pvars a abs out = refl
has-presence_pvars a (Presence.var v) out = refl

mutual
  unfolding collect_pvars is_pvar_in

  pub has-collect_pvars :
      (a : PVarName) (t : Ty) (out : List PVarName)
      → has (collect_pvars t out) a ≡ (is_pvar_in a t || has out a)
  has-collect_pvars a number out = refl
  has-collect_pvars a string out = refl
  has-collect_pvars a boolean out = refl
  has-collect_pvars a undefined out = refl
  has-collect_pvars a null out = refl
  has-collect_pvars a regex out = refl
  has-collect_pvars a new_target out = refl
  has-collect_pvars a arrow_this out = refl
  has-collect_pvars a (var v) out = refl
  has-collect_pvars a (func this_type params ret) out = ground (
    arith,
    has-collect_pvars a ret (collect_pvars_params params (collect_pvars_this this_type out)),
    has-collect_pvars_params a params (collect_pvars_this this_type out),
    has-collect_pvars_this a this_type out,
  )
  has-collect_pvars a (row props tail) out = ground (
    arith,
    has-collect_pvars_tail a tail (collect_pvars_props props out),
    has-collect_pvars_props a props out,
  )
  has-collect_pvars a (array t) out = has-collect_pvars a t out
  has-collect_pvars a (map t) out = has-collect_pvars a t out
  has-collect_pvars a (promise t) out = has-collect_pvars a t out
  has-collect_pvars a (tuple ts) out = has-collect_pvars_tys a ts out
  has-collect_pvars a (named i ts) out = has-collect_pvars_tys a ts out
  has-collect_pvars a (literal l) out = refl
  has-collect_pvars a (union ts) out = has-collect_pvars_tys a ts out
  has-collect_pvars a (maybe z t) out = has-collect_pvars a t out
  has-collect_pvars a (module_ source exports) out = has-collect_pvars_exports a exports out
  has-collect_pvars a (typed_array k) out = refl
  has-collect_pvars a error out = refl

  pub has-collect_pvars_tys :
      (a : PVarName) (t : Tys) (out : List PVarName)
      → has (collect_pvars_tys t out) a ≡ (is_pvar_in_tys a t || has out a)
  has-collect_pvars_tys a nil out = refl
  has-collect_pvars_tys a (cons t ts) out =
      ground (arith, has-collect_pvars_tys a ts (collect_pvars t out), has-collect_pvars a t out)

  pub has-collect_pvars_this :
      (a : PVarName) (t : OptionTy) (out : List PVarName)
      → has (collect_pvars_this t out) a ≡ (is_pvar_in_this a t || has out a)
  has-collect_pvars_this a absent out = refl
  has-collect_pvars_this a (this t) out = has-collect_pvars a t out

  pub has-collect_pvars_params :
      (a : PVarName) (t : Params) (out : List PVarName)
      → has (collect_pvars_params t out) a ≡ (is_pvar_in_params a t || has out a)
  has-collect_pvars_params a no_params out = refl
  has-collect_pvars_params a (param p t name rest) out = ground (
    arith,
    has-collect_pvars_params a rest (collect_pvars t (presence_pvars p out)),
    has-collect_pvars a t (presence_pvars p out),
    has-presence_pvars a p out,
  )

  pub has-collect_pvars_props :
      (a : PVarName) (t : Props) (out : List PVarName)
      → has (collect_pvars_props t out) a ≡ (is_pvar_in_props a t || has out a)
  has-collect_pvars_props a no_props out = refl
  has-collect_pvars_props a (prop name p t w o rest) out = ground (
    arith,
    has-collect_pvars_props a rest
        (collect_pvars t (presence_pvars o (presence_pvars w (presence_pvars p out)))),
    has-collect_pvars a t (presence_pvars o (presence_pvars w (presence_pvars p out))),
    has-presence_pvars a o (presence_pvars w (presence_pvars p out)),
    has-presence_pvars a w (presence_pvars p out),
    has-presence_pvars a p out,
  )

  pub has-collect_pvars_tail :
      (a : PVarName) (t : Tail) (out : List PVarName)
      → has (collect_pvars_tail t out) a ≡ (is_pvar_in_tail a t || has out a)
  has-collect_pvars_tail a closed out = refl
  has-collect_pvars_tail a (open_ v) out = refl
  has-collect_pvars_tail a (recursive i ts) out = has-collect_pvars_tys a ts out

  pub has-collect_pvars_exports :
      (a : PVarName) (t : Exports) (out : List PVarName)
      → has (collect_pvars_exports t out) a ≡ (is_pvar_in_exports a t || has out a)
  has-collect_pvars_exports a no_exports out = refl
  has-collect_pvars_exports a (export name vars pvars preds t rest) out = ground (
    arith,
    has-collect_pvars_exports a rest
        (without pvars (collect_pvars_preds preds (collect_pvars t [])) ++ out),
    has-append (without pvars (collect_pvars_preds preds (collect_pvars t []))) out a,
    has-without pvars (collect_pvars_preds preds (collect_pvars t [])) a,
    has-collect_pvars_preds a preds (collect_pvars t []),
    has-collect_pvars a t [],
  )

  pub has-collect_pvars_preds :
      (a : PVarName) (t : Preds) (out : List PVarName)
      → has (collect_pvars_preds t out) a ≡ (is_pvar_in_preds a t || has out a)
  has-collect_pvars_preds a no_preds out = refl
  has-collect_pvars_preds a (pred c ts origin rest) out = ground (
    arith,
    has-collect_pvars_preds a rest (collect_pvars_tys ts out),
    has-collect_pvars_tys a ts out,
  )

-- `free_vars` and `free_pvars` of a scheme hold exactly the type variables, and the presence
-- variables, that occur free in its type or its predicates and are not quantified by it; inside a
-- module type, what an export quantifies is not free either.
pub has-scheme_free_vars :
    (s : TypeScheme) (a : TVarName) (p : PVarName)
    → (has (scheme_free_vars s) a ≡ (not (has s.vars a) && (is_in a s.ty || is_in_preds a s.preds)))
      × (has (scheme_free_pvars s) p
          ≡ (not (has s.pvars p) && (is_pvar_in p s.ty || is_pvar_in_preds p s.preds)))
unfolding scheme_free_vars qual_free_vars free_vars scheme_free_pvars free_pvars
has-scheme_free_vars s a p = (
  ground (
    arith,
    has-without s.vars (collect_vars_preds s.preds (collect_vars s.ty [])) a,
    has-collect_vars_preds a s.preds (collect_vars s.ty []),
    has-collect_vars a s.ty [],
  ),
  ground (
    arith,
    has-without s.pvars (collect_pvars_preds s.preds (collect_pvars s.ty [])) p,
    has-collect_pvars_preds p s.preds (collect_pvars s.ty []),
    has-collect_pvars p s.ty [],
  ),
)
