-- ===== src/Types/Tidy/Renamed.antt =====
-- A renaming of the variables of a type, and: what is tidied is the type under the names of the
-- environment behind.
use inty.Common.{
  ◌≡◌, refl, some, none, List, [], ◌∷◌, map as map_list, ap, arith, Option-cases, inl, inr,
}
use inty.Common.Dict.{lookup, lookup-insert, =?-self}
use inty.Types.Free.{TypeScheme}
use inty.Types.Ty.{
  TVarName, PVarName, tvar_eq, pvar_eq, id, Presence, pre, abs, Ty, number, string, boolean,
  undefined, null, regex, new_target, arrow_this, var, func, row, array, map, promise, tuple, named,
  literal, union, maybe, module_, typed_array, error, Tys, nil, cons, OptionTy, absent, this,
  Params, no_params, param, Props, no_props, prop, Tail, closed, open_, recursive, Exports,
  no_exports, export, Preds, no_preds, pred,
}
use inty.Types.Tidy.{
  TidyEnv, rename_tvar, rename_pvar, rename_presence, rename_tvars, rename_pvars, pid, with_id,
  with_pid, sort_by,
}
use inty.Types.Tidy.Steps.{rename_tvars-Steps, rename_pvars-Steps}
use inty.Types.Tidy.Names.{Extends, Extends-trans, Steps-Extends}

-- What variables, and lists of quantified variables, are renamed to.
pub record Renaming : Type 0 where
  pub tvar : TVarName → TVarName
  pub pvar : PVarName → PVarName
  pub tvars : List TVarName → List TVarName
  pub pvars : List PVarName → List PVarName

unfoldable pub rename_with : (PVarName → PVarName) → Presence → Presence
rename_with f pre = pre
rename_with f abs = abs
rename_with f (Presence.var v) = Presence.var (f v)

-- The presences of parameters stay.
unfoldable mutual
  unfolding rename_with

  pub rename : Renaming → Ty → Ty
  rename r number = number
  rename r string = string
  rename r boolean = boolean
  rename r undefined = undefined
  rename r null = null
  rename r regex = regex
  rename r new_target = new_target
  rename r arrow_this = arrow_this
  rename r (literal l) = literal l
  rename r (typed_array k) = typed_array k
  rename r error = error
  rename r (var v) = var (r.tvar v)
  rename r (func this_type params ret) =
      func (rename_this r this_type) (rename_params r params) (rename r ret)
  rename r (row props tail) = row (rename_props r props) (rename_tail r tail)
  rename r (array t) = array (rename r t)
  rename r (map t) = map (rename r t)
  rename r (promise t) = promise (rename r t)
  rename r (maybe z t) = maybe z (rename r t)
  rename r (tuple ts) = tuple (rename_tys r ts)
  rename r (named n ts) = named n (rename_tys r ts)
  rename r (union ts) = union (rename_tys r ts)
  rename r (module_ source exports) = module_ source (rename_exports r exports)

  pub rename_tys : Renaming → Tys → Tys
  rename_tys r nil = nil
  rename_tys r (cons t ts) = cons (rename r t) (rename_tys r ts)

  pub rename_this : Renaming → OptionTy → OptionTy
  rename_this r absent = absent
  rename_this r (this t) = this (rename r t)

  pub rename_params : Renaming → Params → Params
  rename_params r no_params = no_params
  rename_params r (param p t name rest) = param p (rename r t) name (rename_params r rest)

  pub rename_props : Renaming → Props → Props
  rename_props r no_props = no_props
  rename_props r (prop name p t w o rest) =
      prop name (rename_with r.pvar p) (rename r t) (rename_with r.pvar w) (rename_with r.pvar o)
        (rename_props r rest)

  pub rename_tail : Renaming → Tail → Tail
  rename_tail r closed = closed
  rename_tail r (open_ v) = open_ (r.tvar v)
  rename_tail r (recursive n ts) = recursive n (rename_tys r ts)

  pub rename_exports : Renaming → Exports → Exports
  rename_exports r no_exports = no_exports
  rename_exports r (export name vars pvars preds t rest) =
      export name (r.tvars vars) (r.pvars pvars) (rename_preds r preds) (rename r t)
        (rename_exports r rest)

  pub rename_preds : Renaming → Preds → Preds
  rename_preds r no_preds = no_preds
  rename_preds r (pred c ts origin rest) = pred c (rename_tys r ts) origin (rename_preds r rest)

unfoldable pub rename_scheme : Renaming → TypeScheme → TypeScheme
unfolding rename
rename_scheme r s = record {
  vars = r.tvars s.vars;
  pvars = r.pvars s.pvars;
  preds = rename_preds r s.preds;
  ty = rename r s.ty;
}

-- The names of an environment. A variable without an id keeps its own.
abbrev pub tvar_in : TidyEnv → TVarName → TVarName
tvar_in e v = elim (lookup v e.type_vars) [ none ↦ v | some n ↦ with_id v n ]

abbrev pub pvar_in : TidyEnv → PVarName → PVarName
pvar_in e v = elim (lookup v e.presence_vars) [ none ↦ v | some n ↦ with_pid v n ]

-- Quantified variables are sorted by their ids.
abbrev pub names : TidyEnv → Renaming
names e = record {
  tvar = tvar_in e;
  pvar = pvar_in e;
  tvars = λ vs. sort_by id (map_list (tvar_in e) vs);
  pvars = λ vs. sort_by pid (map_list (pvar_in e) vs);
}

pub rename_tvar-tvar_in :
    (v : TVarName) (e e2 : TidyEnv)
    → Extends (rename_tvar v e).1 e2
    → (rename_tvar v e).0 ≡ tvar_in e2 v
unfolding rename_tvar
rename_tvar-tvar_in v e e2 x = elim (Option-cases (lookup v e.type_vars)) [
  | inl h ↦
      ground (arith, x.types v e.next_type, lookup-insert v v e.next_type e.type_vars, =?-self v)
  | inr (n, h) ↦ ground (arith, x.types v n)
]

pub rename_pvar-pvar_in :
    (v : PVarName) (e e2 : TidyEnv)
    → Extends (rename_pvar v e).1 e2
    → (rename_pvar v e).0 ≡ pvar_in e2 v
unfolding rename_pvar
rename_pvar-pvar_in v e e2 x = elim (Option-cases (lookup v e.presence_vars)) [
  | inl h ↦ ground (
    arith,
    x.presences v e.next_presence,
    lookup-insert v v e.next_presence e.presence_vars,
    =?-self v,
  )
  | inr (n, h) ↦ ground (arith, x.presences v n)
]

pub rename_presence-rename_with :
    (p : Presence) (e e2 : TidyEnv)
    → Extends (rename_presence p e).1 e2
    → (rename_presence p e).0 ≡ rename_with (pvar_in e2) p
unfolding rename_presence rename_with
rename_presence-rename_with pre e e2 x = refl
rename_presence-rename_with abs e e2 x = refl
rename_presence-rename_with (Presence.var v) e e2 x = ap Presence.var (rename_pvar-pvar_in v e e2 x)

pub rename_tvars-map :
    (vs : List TVarName) (e e2 : TidyEnv)
    → Extends (rename_tvars vs e).1 e2
    → (rename_tvars vs e).0 ≡ map_list (tvar_in e2) vs
unfolding rename_tvars
rename_tvars-map [] e e2 x = refl
rename_tvars-map (v ∷ vs) e e2 x =
    let (w, e1) = rename_tvar v e in
    let a =
      rename_tvar-tvar_in v e e2 (Extends-trans (Steps-Extends (rename_tvars-Steps vs e1)) x) in
    let b = rename_tvars-map vs e1 e2 x in cc

pub rename_pvars-map :
    (vs : List PVarName) (e e2 : TidyEnv)
    → Extends (rename_pvars vs e).1 e2
    → (rename_pvars vs e).0 ≡ map_list (pvar_in e2) vs
unfolding rename_pvars
rename_pvars-map [] e e2 x = refl
rename_pvars-map (v ∷ vs) e e2 x =
    let (w, e1) = rename_pvar v e in
    let a =
      rename_pvar-pvar_in v e e2 (Extends-trans (Steps-Extends (rename_pvars-Steps vs e1)) x) in
    let b = rename_pvars-map vs e1 e2 x in cc
