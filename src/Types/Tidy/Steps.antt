-- ===== src/Types/Tidy/Steps.antt =====
-- To tidy is to name variables, one after the other: what holds of an environment through each
-- naming holds of the environment behind.
use inty.Common.{Bool, true, false, not, List, [], ◌∷◌}
use inty.Types.Ty.{
  TVarName, PVarName, tvar_eq, pvar_eq, Presence, pre, abs, Ty, number, string, boolean, undefined,
  null, regex, new_target, arrow_this, var, func, row, array, map, promise, tuple, named, literal,
  union, maybe, module_, typed_array, error, Tys, nil, cons, OptionTy, absent, this, Params,
  no_params, param, Props, no_props, prop, Tail, closed, open_, recursive, Exports, no_exports,
  export, Preds, no_preds, pred,
}
use inty.Types.Tidy.{
  TidyEnv, rename_tvar, rename_pvar, rename_presence, rename_tvars, rename_pvars, is_hidden,
  tidy_type, tidy_tys, tidy_this, tidy_params, tidy_props, tidy_tail, tidy_exports, tidy_preds,
}

pub data Steps : TidyEnv → TidyEnv → Type 0 where
  stay : {e : TidyEnv} → Steps e e
  then_tvar : {e e1 : TidyEnv} (v : TVarName) → Steps e e1 → Steps e (rename_tvar v e1).1
  then_pvar : {e e1 : TidyEnv} (v : PVarName) → Steps e e1 → Steps e (rename_pvar v e1).1

pub Steps-trans : {e e1 e2 : TidyEnv} → Steps e e1 → Steps e1 e2 → Steps e e2
Steps-trans s stay = s
Steps-trans s (then_tvar v t) = then_tvar v (Steps-trans s t)
Steps-trans s (then_pvar v t) = then_pvar v (Steps-trans s t)

pub rename_presence-Steps : (p : Presence) (e : TidyEnv) → Steps e (rename_presence p e).1
unfolding rename_presence
rename_presence-Steps pre e = stay
rename_presence-Steps abs e = stay
rename_presence-Steps (Presence.var v) e = then_pvar v stay

pub rename_tvars-Steps : (vs : List TVarName) (e : TidyEnv) → Steps e (rename_tvars vs e).1
unfolding rename_tvars
rename_tvars-Steps [] e = stay
rename_tvars-Steps (v ∷ vs) e =
    Steps-trans (then_tvar v stay) (rename_tvars-Steps vs (rename_tvar v e).1)

pub rename_pvars-Steps : (vs : List PVarName) (e : TidyEnv) → Steps e (rename_pvars vs e).1
unfolding rename_pvars
rename_pvars-Steps [] e = stay
rename_pvars-Steps (v ∷ vs) e =
    Steps-trans (then_pvar v stay) (rename_pvars-Steps vs (rename_pvar v e).1)

mutual
  unfolding tidy_type

  pub tidy_type-Steps : (t : Ty) (e : TidyEnv) → Steps e (tidy_type t e).1
  tidy_type-Steps number e = stay
  tidy_type-Steps string e = stay
  tidy_type-Steps boolean e = stay
  tidy_type-Steps undefined e = stay
  tidy_type-Steps null e = stay
  tidy_type-Steps regex e = stay
  tidy_type-Steps new_target e = stay
  tidy_type-Steps arrow_this e = stay
  tidy_type-Steps (literal l) e = stay
  tidy_type-Steps (typed_array k) e = stay
  tidy_type-Steps error e = stay
  tidy_type-Steps (var v) e = then_tvar v stay
  tidy_type-Steps (func this_type params ret) e =
      let (first, e1) = tidy_this (not (is_hidden this_type)) this_type e in
      let (ps, e2) = tidy_params params e1 in
      let (r, e3) = tidy_type ret e2 in
      Steps-trans (tidy_this-Steps (not (is_hidden this_type)) this_type e) (
        Steps-trans (tidy_params-Steps params e1) (
          Steps-trans (tidy_type-Steps ret e2)
            (tidy_this-Steps (is_hidden this_type) this_type e3)))
  tidy_type-Steps (row props tail) e =
      let (ps, e1) = tidy_props props e in
      Steps-trans (tidy_props-Steps props e) (tidy_tail-Steps tail e1)
  tidy_type-Steps (array t) e = tidy_type-Steps t e
  tidy_type-Steps (map t) e = tidy_type-Steps t e
  tidy_type-Steps (promise t) e = tidy_type-Steps t e
  tidy_type-Steps (maybe z t) e = tidy_type-Steps t e
  tidy_type-Steps (tuple ts) e = tidy_tys-Steps ts e
  tidy_type-Steps (named n ts) e = tidy_tys-Steps ts e
  tidy_type-Steps (union ts) e = tidy_tys-Steps ts e
  tidy_type-Steps (module_ source exports) e = tidy_exports-Steps exports e

  pub tidy_tys-Steps : (ts : Tys) (e : TidyEnv) → Steps e (tidy_tys ts e).1
  tidy_tys-Steps nil e = stay
  tidy_tys-Steps (cons t ts) e =
      let (t1, e1) = tidy_type t e in Steps-trans (tidy_type-Steps t e) (tidy_tys-Steps ts e1)

  pub tidy_this-Steps : (now : Bool) (t : OptionTy) (e : TidyEnv) → Steps e (tidy_this now t e).1
  tidy_this-Steps now absent e = stay
  tidy_this-Steps true (this t) e = tidy_type-Steps t e
  tidy_this-Steps false (this t) e = stay

  pub tidy_params-Steps : (ps : Params) (e : TidyEnv) → Steps e (tidy_params ps e).1
  tidy_params-Steps no_params e = stay
  tidy_params-Steps (param p t name rest) e =
      let (t1, e1) = tidy_type t e in Steps-trans (tidy_type-Steps t e) (tidy_params-Steps rest e1)

  pub tidy_props-Steps : (ps : Props) (e : TidyEnv) → Steps e (tidy_props ps e).1
  tidy_props-Steps no_props e = stay
  tidy_props-Steps (prop name p t w o rest) e =
      let (t1, e1) = tidy_type t e in
      let (p1, e2) = rename_presence p e1 in
      let (w1, e3) = rename_presence w e2 in
      let (o1, e4) = rename_presence o e3 in
      Steps-trans (tidy_type-Steps t e) (
        Steps-trans (rename_presence-Steps p e1) (
          Steps-trans (rename_presence-Steps w e2)
            (Steps-trans (rename_presence-Steps o e3) (tidy_props-Steps rest e4))))

  pub tidy_tail-Steps : (t : Tail) (e : TidyEnv) → Steps e (tidy_tail t e).1
  tidy_tail-Steps closed e = stay
  tidy_tail-Steps (open_ v) e = then_tvar v stay
  tidy_tail-Steps (recursive n ts) e = tidy_tys-Steps ts e

  pub tidy_exports-Steps : (x : Exports) (e : TidyEnv) → Steps e (tidy_exports x e).1
  tidy_exports-Steps no_exports e = stay
  tidy_exports-Steps (export name vars pvars preds t rest) e =
      let (preds1, e1) = tidy_preds preds e in
      let (t1, e2) = tidy_type t e1 in
      let (vars1, e3) = rename_tvars vars e2 in
      let (pvars1, e4) = rename_pvars pvars e3 in
      Steps-trans (tidy_preds-Steps preds e) (
        Steps-trans (tidy_type-Steps t e1) (
          Steps-trans (rename_tvars-Steps vars e2)
            (Steps-trans (rename_pvars-Steps pvars e3) (tidy_exports-Steps rest e4))))

  pub tidy_preds-Steps : (ps : Preds) (e : TidyEnv) → Steps e (tidy_preds ps e).1
  tidy_preds-Steps no_preds e = stay
  tidy_preds-Steps (pred c ts origin rest) e =
      let (ts1, e1) = tidy_tys ts e in Steps-trans (tidy_tys-Steps ts e) (tidy_preds-Steps rest e1)
