-- ===== src/Types/Tidy/Canonical.antt =====
-- A tidied type does not depend on the names of the variables that it had.
use inty.Common.{◌≡◌, refl, Bool, true, false, not, if◌then◌else◌}
use inty.Types.Free.{TypeScheme}
use inty.Types.Ty.{
  TVarName, PVarName, tvar_eq, pvar_eq, Ty, number, string, boolean, undefined, null, regex,
  new_target, arrow_this, var, func, row, array, map, promise, tuple, named, literal, union, maybe,
  module_, typed_array, error, Tys, nil, cons, OptionTy, absent, this, Params, no_params, param,
  Props, no_props, prop, Tail, closed, open_, recursive, Exports, no_exports, export, Preds,
  no_preds, pred,
}
use inty.Types.Tidy.{
  TidyEnv, new, rename_presence, rename_tvars, rename_pvars, is_hidden, tidy_type, tidy_tys,
  tidy_this, tidy_params, tidy_props, tidy_tail, tidy_exports, tidy_preds, tidy_scheme,
}
use inty.Types.Tidy.Renamed.{
  Renaming, rename, rename_tys, rename_this, rename_params, rename_props, rename_tail,
  rename_exports, rename_preds, rename_scheme,
}
use inty.Types.Tidy.Moved.{
  IsInjective, renaming, moved, rename_tvar-moved, rename_presence-moved, rename_tvars-moved,
  rename_pvars-moved,
}

chosen :
    {A : Type 0}
    → (b : Bool) (x y z : A)
    → (if b then (if b then x else z) else (if not b then y else z)) ≡ (if b then x else y)
chosen true x y z = refl
chosen false x y z = refl

module _ (f : TVarName → TVarName) (g : PVarName → PVarName) (i : IsInjective f g) where
  abbrev r : Renaming
  r = renaming f g

  is_hidden-rename_this : (t : OptionTy) → is_hidden (rename_this r t) ≡ is_hidden t
  unfolding rename
  is_hidden-rename_this absent = refl
  is_hidden-rename_this (this number) = refl
  is_hidden-rename_this (this string) = refl
  is_hidden-rename_this (this boolean) = refl
  is_hidden-rename_this (this undefined) = refl
  is_hidden-rename_this (this null) = refl
  is_hidden-rename_this (this regex) = refl
  is_hidden-rename_this (this new_target) = refl
  is_hidden-rename_this (this arrow_this) = refl
  is_hidden-rename_this (this (literal l)) = refl
  is_hidden-rename_this (this (typed_array k)) = refl
  is_hidden-rename_this (this error) = refl
  is_hidden-rename_this (this (var v)) = refl
  is_hidden-rename_this (this (func a b c)) = refl
  is_hidden-rename_this (this (row a b)) = refl
  is_hidden-rename_this (this (array a)) = refl
  is_hidden-rename_this (this (map a)) = refl
  is_hidden-rename_this (this (promise a)) = refl
  is_hidden-rename_this (this (maybe z a)) = refl
  is_hidden-rename_this (this (tuple a)) = refl
  is_hidden-rename_this (this (named n a)) = refl
  is_hidden-rename_this (this (union a)) = refl
  is_hidden-rename_this (this (module_ s a)) = refl

  mutual
    unfolding tidy_type rename

    tidy_type-moved :
        (t : Ty) (e : TidyEnv)
        → tidy_type (rename r t) (moved f g i e)
          ≡ ((tidy_type t e).0, moved f g i (tidy_type t e).1)
    tidy_type-moved number e = refl
    tidy_type-moved string e = refl
    tidy_type-moved boolean e = refl
    tidy_type-moved undefined e = refl
    tidy_type-moved null e = refl
    tidy_type-moved regex e = refl
    tidy_type-moved new_target e = refl
    tidy_type-moved arrow_this e = refl
    tidy_type-moved (literal l) e = refl
    tidy_type-moved (typed_array k) e = refl
    tidy_type-moved error e = refl
    tidy_type-moved (var v) e = rw (rename_tvar-moved f g i v e) refl
    tidy_type-moved (func this_type params ret) e =
        let (first, e1) = tidy_this (not (is_hidden this_type)) this_type e in
        let (ps, e2) = tidy_params params e1 in
        let (u, e3) = tidy_type ret e2 in
        let (last, e4) = tidy_this (is_hidden this_type) this_type e3 in
        rw
          (
            is_hidden-rename_this this_type,
            tidy_this-moved (not (is_hidden this_type)) this_type e,
            tidy_params-moved params e1,
            tidy_type-moved ret e2,
            tidy_this-moved (is_hidden this_type) this_type e3,
            chosen (is_hidden this_type) last first (rename_this r this_type),
          )
          refl
    tidy_type-moved (row props tail) e =
        let (ps, e1) = tidy_props props e in
        rw (tidy_props-moved props e, tidy_tail-moved tail e1) refl
    tidy_type-moved (array t) e = rw (tidy_type-moved t e) refl
    tidy_type-moved (map t) e = rw (tidy_type-moved t e) refl
    tidy_type-moved (promise t) e = rw (tidy_type-moved t e) refl
    tidy_type-moved (maybe z t) e = rw (tidy_type-moved t e) refl
    tidy_type-moved (tuple ts) e = rw (tidy_tys-moved ts e) refl
    tidy_type-moved (named n ts) e = rw (tidy_tys-moved ts e) refl
    tidy_type-moved (union ts) e = rw (tidy_tys-moved ts e) refl
    tidy_type-moved (module_ source exports) e = rw (tidy_exports-moved exports e) refl

    tidy_tys-moved :
        (ts : Tys) (e : TidyEnv)
        → tidy_tys (rename_tys r ts) (moved f g i e)
          ≡ ((tidy_tys ts e).0, moved f g i (tidy_tys ts e).1)
    tidy_tys-moved nil e = refl
    tidy_tys-moved (cons t ts) e =
        let (t1, e1) = tidy_type t e in rw (tidy_type-moved t e, tidy_tys-moved ts e1) refl

    tidy_this-moved :
        (now : Bool) (t : OptionTy) (e : TidyEnv)
        → tidy_this now (rename_this r t) (moved f g i e) ≡ (
          (if now then (tidy_this now t e).0 else rename_this r t),
          moved f g i (tidy_this now t e).1,
        )
    tidy_this-moved true absent e = refl
    tidy_this-moved false absent e = refl
    tidy_this-moved true (this t) e = rw (tidy_type-moved t e) refl
    tidy_this-moved false (this t) e = refl

    tidy_params-moved :
        (ps : Params) (e : TidyEnv)
        → tidy_params (rename_params r ps) (moved f g i e)
          ≡ ((tidy_params ps e).0, moved f g i (tidy_params ps e).1)
    tidy_params-moved no_params e = refl
    tidy_params-moved (param p t name rest) e =
        let (t1, e1) = tidy_type t e in rw (tidy_type-moved t e, tidy_params-moved rest e1) refl

    tidy_props-moved :
        (ps : Props) (e : TidyEnv)
        → tidy_props (rename_props r ps) (moved f g i e)
          ≡ ((tidy_props ps e).0, moved f g i (tidy_props ps e).1)
    tidy_props-moved no_props e = refl
    tidy_props-moved (prop name p t w o rest) e =
        let (t1, e1) = tidy_type t e in
        let (p1, e2) = rename_presence p e1 in
        let (w1, e3) = rename_presence w e2 in
        let (o1, e4) = rename_presence o e3 in
        rw
          (
            tidy_type-moved t e,
            rename_presence-moved f g i p e1,
            rename_presence-moved f g i w e2,
            rename_presence-moved f g i o e3,
            tidy_props-moved rest e4,
          )
          refl

    tidy_tail-moved :
        (t : Tail) (e : TidyEnv)
        → tidy_tail (rename_tail r t) (moved f g i e)
          ≡ ((tidy_tail t e).0, moved f g i (tidy_tail t e).1)
    tidy_tail-moved closed e = refl
    tidy_tail-moved (open_ v) e = rw (rename_tvar-moved f g i v e) refl
    tidy_tail-moved (recursive n ts) e = rw (tidy_tys-moved ts e) refl

    tidy_exports-moved :
        (s : Exports) (e : TidyEnv)
        → tidy_exports (rename_exports r s) (moved f g i e)
          ≡ ((tidy_exports s e).0, moved f g i (tidy_exports s e).1)
    tidy_exports-moved no_exports e = refl
    tidy_exports-moved (export name vars pvars preds t rest) e =
        let (preds1, e1) = tidy_preds preds e in
        let (t1, e2) = tidy_type t e1 in
        let (vars1, e3) = rename_tvars vars e2 in
        let (pvars1, e4) = rename_pvars pvars e3 in
        rw
          (
            tidy_preds-moved preds e,
            tidy_type-moved t e1,
            rename_tvars-moved f g i vars e2,
            rename_pvars-moved f g i pvars e3,
            tidy_exports-moved rest e4,
          )
          refl

    tidy_preds-moved :
        (ps : Preds) (e : TidyEnv)
        → tidy_preds (rename_preds r ps) (moved f g i e)
          ≡ ((tidy_preds ps e).0, moved f g i (tidy_preds ps e).1)
    tidy_preds-moved no_preds e = refl
    tidy_preds-moved (pred c ts origin rest) e =
        let (ts1, e1) = tidy_tys ts e in rw (tidy_tys-moved ts e, tidy_preds-moved rest e1) refl

-- Two schemes that differ in the names of their variables alone, the presences of parameters being
-- the same, are tidied to the same scheme by a new environment: if the names are mapped to each other
-- one to one, flexible ones to flexible ones.
pub tidy_scheme-rename_scheme :
    (f : TVarName → TVarName) (g : PVarName → PVarName)
    → IsInjective f g
    → (s : TypeScheme)
    → (tidy_scheme (rename_scheme (renaming f g) s) new).0 ≡ (tidy_scheme s new).0
unfolding tidy_scheme rename_scheme
tidy_scheme-rename_scheme f g i s =
    let (preds1, e1) = tidy_preds s.preds new in
    let (t1, e2) = tidy_type s.ty e1 in
    let (vars1, e3) = rename_tvars s.vars e2 in
    rw
      (
        tidy_preds-moved f g i s.preds new,
        tidy_type-moved f g i s.ty e1,
        rename_tvars-moved f g i s.vars e2,
        rename_pvars-moved f g i s.pvars e3,
      )
      refl
