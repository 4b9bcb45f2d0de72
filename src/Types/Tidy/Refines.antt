-- ===== src/Types/Tidy/Refines.antt =====
-- What is tidied is the type under the names of the environment behind.
use inty.Common.{◌≡◌, refl, Bool, true, false, not, ap, if◌then◌else◌}
use inty.Types.Free.{TypeScheme}
use inty.Types.Ty.{
  tvar_eq, pvar_eq, id, Ty, number, string, boolean, undefined, null, regex, new_target, arrow_this,
  var, func, row, array, map, promise, tuple, named, literal, union, maybe, module_, typed_array,
  error, Tys, nil, cons, OptionTy, absent, this, Params, no_params, param, Props, no_props, prop,
  Tail, closed, open_, recursive, Exports, no_exports, export, Preds, no_preds, pred,
}
use inty.Types.Tidy.{
  TidyEnv, rename_presence, rename_tvars, rename_pvars, is_hidden, tidy_type, tidy_tys, tidy_this,
  tidy_params, tidy_props, tidy_tail, tidy_exports, tidy_preds, tidy_scheme, pid, sort_by,
}
use inty.Types.Tidy.Steps.{
  rename_presence-Steps, rename_tvars-Steps, rename_pvars-Steps, tidy_type-Steps, tidy_tys-Steps,
  tidy_this-Steps, tidy_params-Steps, tidy_props-Steps, tidy_tail-Steps, tidy_exports-Steps,
  tidy_preds-Steps, Steps,
}
use inty.Types.Tidy.Names.{Extends, Extends-refl, Extends-trans, Steps-Extends}
use inty.Types.Tidy.Renamed.{
  names, rename, rename_tys, rename_this, rename_params, rename_props, rename_tail, rename_exports,
  rename_preds, rename_scheme, rename_tvar-tvar_in, rename_presence-rename_with, rename_tvars-map,
  rename_pvars-map,
}

before : {e e1 e2 : TidyEnv} → Steps e e1 → Extends e1 e2 → Extends e e2
before s x = Extends-trans (Steps-Extends s) x

mutual
  unfolding tidy_type rename

  tidy_type-rename_in :
      (t : Ty) (e x : TidyEnv)
      → Extends (tidy_type t e).1 x
      → (tidy_type t e).0 ≡ rename (names x) t
  tidy_type-rename_in number e x h = refl
  tidy_type-rename_in string e x h = refl
  tidy_type-rename_in boolean e x h = refl
  tidy_type-rename_in undefined e x h = refl
  tidy_type-rename_in null e x h = refl
  tidy_type-rename_in regex e x h = refl
  tidy_type-rename_in new_target e x h = refl
  tidy_type-rename_in arrow_this e x h = refl
  tidy_type-rename_in (literal l) e x h = refl
  tidy_type-rename_in (typed_array k) e x h = refl
  tidy_type-rename_in error e x h = refl
  tidy_type-rename_in (var v) e x h = ap var (rename_tvar-tvar_in v e x h)
  tidy_type-rename_in (func this_type params ret) e x h =
      let (first, e1) = tidy_this (not (is_hidden this_type)) this_type e in
      let (ps, e2) = tidy_params params e1 in
      let (r, e3) = tidy_type ret e2 in
      let h3 = before (tidy_this-Steps (is_hidden this_type) this_type e3) h in
      let h2 = before (tidy_type-Steps ret e2) h3 in
      let h1 = before (tidy_params-Steps params e1) h2 in
      let a = tidy_this-rename_in (is_hidden this_type) this_type e e3 x h1 h in
      let b = tidy_params-rename_in params e1 x h2 in let c = tidy_type-rename_in ret e2 x h3 in cc
  tidy_type-rename_in (row props tail) e x h =
      let (ps, e1) = tidy_props props e in
      let a = tidy_props-rename_in props e x (before (tidy_tail-Steps tail e1) h) in
      let b = tidy_tail-rename_in tail e1 x h in cc
  tidy_type-rename_in (array t) e x h = ap (Ty.array) (tidy_type-rename_in t e x h)
  tidy_type-rename_in (map t) e x h = ap (Ty.map) (tidy_type-rename_in t e x h)
  tidy_type-rename_in (promise t) e x h = ap (Ty.promise) (tidy_type-rename_in t e x h)
  tidy_type-rename_in (maybe z t) e x h = ap (Ty.maybe z) (tidy_type-rename_in t e x h)
  tidy_type-rename_in (tuple ts) e x h = ap (tuple) (tidy_tys-rename_in ts e x h)
  tidy_type-rename_in (named n ts) e x h = ap (named n) (tidy_tys-rename_in ts e x h)
  tidy_type-rename_in (union ts) e x h = ap (union) (tidy_tys-rename_in ts e x h)
  tidy_type-rename_in (module_ source exports) e x h =
      ap (module_ source) (tidy_exports-rename_in exports e x h)

  tidy_tys-rename_in :
      (ts : Tys) (e x : TidyEnv)
      → Extends (tidy_tys ts e).1 x
      → (tidy_tys ts e).0 ≡ rename_tys (names x) ts
  tidy_tys-rename_in nil e x h = refl
  tidy_tys-rename_in (cons t ts) e x h =
      let (t1, e1) = tidy_type t e in
      let a = tidy_type-rename_in t e x (before (tidy_tys-Steps ts e1) h) in
      let b = tidy_tys-rename_in ts e1 x h in cc

  -- First or last.
  tidy_this-rename_in :
      (hidden : Bool) (t : OptionTy) (e e3 x : TidyEnv)
      → Extends (tidy_this (not hidden) t e).1 x
      → Extends (tidy_this hidden t e3).1 x
      → (if hidden then (tidy_this hidden t e3).0 else (tidy_this (not hidden) t e).0)
        ≡ rename_this (names x) t
  tidy_this-rename_in true absent e e3 x g h = refl
  tidy_this-rename_in false absent e e3 x g h = refl
  tidy_this-rename_in true (this t) e e3 x g h = ap this (tidy_type-rename_in t e3 x h)
  tidy_this-rename_in false (this t) e e3 x g h = ap this (tidy_type-rename_in t e x g)

  tidy_params-rename_in :
      (ps : Params) (e x : TidyEnv)
      → Extends (tidy_params ps e).1 x
      → (tidy_params ps e).0 ≡ rename_params (names x) ps
  tidy_params-rename_in no_params e x h = refl
  tidy_params-rename_in (param p t name rest) e x h =
      let (t1, e1) = tidy_type t e in
      let a = tidy_type-rename_in t e x (before (tidy_params-Steps rest e1) h) in
      let b = tidy_params-rename_in rest e1 x h in cc

  tidy_props-rename_in :
      (ps : Props) (e x : TidyEnv)
      → Extends (tidy_props ps e).1 x
      → (tidy_props ps e).0 ≡ rename_props (names x) ps
  tidy_props-rename_in no_props e x h = refl
  tidy_props-rename_in (prop name p t w o rest) e x h =
      let (t1, e1) = tidy_type t e in
      let (p1, e2) = rename_presence p e1 in
      let (w1, e3) = rename_presence w e2 in
      let (o1, e4) = rename_presence o e3 in
      let h4 = before (tidy_props-Steps rest e4) h in
      let h3 = before (rename_presence-Steps o e3) h4 in
      let h2 = before (rename_presence-Steps w e2) h3 in
      let h1 = before (rename_presence-Steps p e1) h2 in
      let at = tidy_type-rename_in t e x h1 in
      let ap_ = rename_presence-rename_with p e1 x h2 in
      let aw = rename_presence-rename_with w e2 x h3 in
      let ao = rename_presence-rename_with o e3 x h4 in
      let b = tidy_props-rename_in rest e4 x h in cc

  tidy_tail-rename_in :
      (t : Tail) (e x : TidyEnv)
      → Extends (tidy_tail t e).1 x
      → (tidy_tail t e).0 ≡ rename_tail (names x) t
  tidy_tail-rename_in closed e x h = refl
  tidy_tail-rename_in (open_ v) e x h = ap open_ (rename_tvar-tvar_in v e x h)
  tidy_tail-rename_in (recursive n ts) e x h = ap (recursive n) (tidy_tys-rename_in ts e x h)

  tidy_exports-rename_in :
      (s : Exports) (e x : TidyEnv)
      → Extends (tidy_exports s e).1 x
      → (tidy_exports s e).0 ≡ rename_exports (names x) s
  tidy_exports-rename_in no_exports e x h = refl
  tidy_exports-rename_in (export name vars pvars preds t rest) e x h =
      let (preds1, e1) = tidy_preds preds e in
      let (t1, e2) = tidy_type t e1 in
      let (vars1, e3) = rename_tvars vars e2 in
      let (pvars1, e4) = rename_pvars pvars e3 in
      let h4 = before (tidy_exports-Steps rest e4) h in
      let h3 = before (rename_pvars-Steps pvars e3) h4 in
      let h2 = before (rename_tvars-Steps vars e2) h3 in
      let h1 = before (tidy_type-Steps t e1) h2 in
      let a = tidy_preds-rename_in preds e x h1 in
      let b = tidy_type-rename_in t e1 x h2 in
      let c = ap (sort_by id) (rename_tvars-map vars e2 x h3) in
      let d = ap (sort_by pid) (rename_pvars-map pvars e3 x h4) in
      let f = tidy_exports-rename_in rest e4 x h in cc

  tidy_preds-rename_in :
      (ps : Preds) (e x : TidyEnv)
      → Extends (tidy_preds ps e).1 x
      → (tidy_preds ps e).0 ≡ rename_preds (names x) ps
  tidy_preds-rename_in no_preds e x h = refl
  tidy_preds-rename_in (pred c ts origin rest) e x h =
      let (ts1, e1) = tidy_tys ts e in
      let a = tidy_tys-rename_in ts e x (before (tidy_preds-Steps rest e1) h) in
      let b = tidy_preds-rename_in rest e1 x h in cc

-- A tidied type is the type with each type variable under its name in the environment behind, and
-- with each presence variable of a field, the quantified variables of exports sorted by their ids.
tidy_type-rename : (t : Ty) (e : TidyEnv) → (tidy_type t e).0 ≡ rename (names (tidy_type t e).1) t
tidy_type-rename t e = tidy_type-rename_in t e (tidy_type t e).1 (Extends-refl _)

-- A tidied scheme is the scheme with each type variable under its name in the environment behind,
-- and with each presence variable of a field, the quantified variables sorted by their ids.
pub tidy_scheme-rename :
    (s : TypeScheme) (e : TidyEnv)
    → (tidy_scheme s e).0 ≡ rename_scheme (names (tidy_scheme s e).1) s
unfolding tidy_scheme rename_scheme
tidy_scheme-rename s e =
    let (preds1, e1) = tidy_preds s.preds e in
    let (t1, e2) = tidy_type s.ty e1 in
    let (vars1, e3) = rename_tvars s.vars e2 in
    let (pvars1, x) = rename_pvars s.pvars e3 in
    let h3 = Steps-Extends (rename_pvars-Steps s.pvars e3) in
    let h2 = before (rename_tvars-Steps s.vars e2) h3 in
    let h1 = before (tidy_type-Steps s.ty e1) h2 in
    let a = tidy_preds-rename_in s.preds e x h1 in
    let b = tidy_type-rename_in s.ty e1 x h2 in
    let c = ap (sort_by id) (rename_tvars-map s.vars e2 x h3) in
    let d = ap (sort_by pid) (rename_pvars-map s.pvars e3 x (Extends-refl x)) in cc
