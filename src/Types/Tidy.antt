-- ===== src/Types/Tidy.antt =====
-- crates/inty/src/types/tidy.rs: small, consecutive ids for the variables of a type, in the order
-- in which they are printed. A counter of 32 bits starts again at 0 when it overflows, as it does
-- in a release build. `sort_by_key`, which is stable, is an insertion sort.
pub mod Steps
pub mod Names
pub mod Keys
pub mod Renamed
pub mod Refines
pub mod Moved
pub mod Canonical
mod Tests
use inty.Common.{
  ℕ, ◌+◌, ◌%◌, ◌^◌, Bool, true, false, not, Option, none, some, List, [], ◌∷◌, if◌then◌else◌, leb,
}
use inty.Common.Dict.{lookup, insert}
use inty.Types.Free.{TypeScheme}
use inty.Types.Ty.{
  TVarName, PVarName, flex, skolem, tvar_eq, pvar_eq, id, Presence, pre, abs, Ty, number, string,
  boolean, undefined, null, regex, new_target, arrow_this, var, func, row, array, map, promise,
  tuple, named, literal, union, maybe, module_, typed_array, error, Tys, nil, cons, OptionTy,
  absent, this, Params, no_params, param, Props, no_props, prop, Tail, closed, open_, recursive,
  Exports, no_exports, export, Preds, no_preds, pred,
}

pub record TidyEnv : Type 0 where
  pub type_vars : List (TVarName × ℕ)
  pub next_type : ℕ
  pub presence_vars : List (PVarName × ℕ)
  pub next_presence : ℕ

-- `TidyEnv::new`
abbrev pub new : TidyEnv
new = record { type_vars = []; next_type = 0; presence_vars = []; next_presence = 0 }

-- The name with another id.
abbrev pub with_id : TVarName → ℕ → TVarName
with_id (flex _) n = flex n
with_id (skolem _) n = skolem n

abbrev pub with_pid : PVarName → ℕ → PVarName
with_pid (PVarName.flex _) n = PVarName.flex n
with_pid (PVarName.skolem _) n = PVarName.skolem n

unfoldable pub rename_tvar : TVarName → TidyEnv → TVarName × TidyEnv
rename_tvar v e = elim (lookup v e.type_vars) [
  | some n ↦ (with_id v n, e)
  | none ↦ (
    with_id v e.next_type,
    record e {
      type_vars = insert v e.next_type e.type_vars;
      next_type = (e.next_type + 1) % 2 ^ 32;
    },
  )
]

unfoldable pub rename_pvar : PVarName → TidyEnv → PVarName × TidyEnv
rename_pvar v e = elim (lookup v e.presence_vars) [
  | some n ↦ (with_pid v n, e)
  | none ↦ (
    with_pid v e.next_presence,
    record e {
      presence_vars = insert v e.next_presence e.presence_vars;
      next_presence = (e.next_presence + 1) % 2 ^ 32;
    },
  )
]

unfoldable pub rename_presence : Presence → TidyEnv → Presence × TidyEnv
unfolding rename_pvar
rename_presence pre e = (pre, e)
rename_presence abs e = (abs, e)
rename_presence (Presence.var v) e = let (w, e1) = rename_pvar v e in (Presence.var w, e1)

unfoldable pub rename_tvars : List TVarName → TidyEnv → List TVarName × TidyEnv
unfolding rename_tvar
rename_tvars [] e = ([], e)
rename_tvars (v ∷ vs) e =
    let (w, e1) = rename_tvar v e in let (ws, e2) = rename_tvars vs e1 in (w ∷ ws, e2)

unfoldable pub rename_pvars : List PVarName → TidyEnv → List PVarName × TidyEnv
unfolding rename_pvar
rename_pvars [] e = ([], e)
rename_pvars (v ∷ vs) e =
    let (w, e1) = rename_pvar v e in let (ws, e2) = rename_pvars vs e1 in (w ∷ ws, e2)

abbrev pub pid : PVarName → ℕ
pid (PVarName.flex n) = n
pid (PVarName.skolem n) = n

-- `sort_by_key`
module _ {A : Type 0} (key : A → ℕ) where
  abbrev pub insert_by : A → List A → List A
  insert_by x [] = x ∷ []
  insert_by x (y ∷ ys) = if leb (key x) (key y) then x ∷ y ∷ ys else y ∷ insert_by x ys

  abbrev pub sort_by : List A → List A
  sort_by [] = []
  sort_by (x ∷ xs) = insert_by x (sort_by xs)

-- `this` is not printed.
abbrev pub is_hidden : OptionTy → Bool
is_hidden absent = true
is_hidden (this undefined) = true
is_hidden (this (var _)) = true
is_hidden (this _) = false

unfoldable mutual
  unfolding rename_tvar rename_presence rename_tvars rename_pvars

  pub tidy_type : Ty → TidyEnv → Ty × TidyEnv
  tidy_type number e = (number, e)
  tidy_type string e = (string, e)
  tidy_type boolean e = (boolean, e)
  tidy_type undefined e = (undefined, e)
  tidy_type null e = (null, e)
  tidy_type regex e = (regex, e)
  tidy_type new_target e = (new_target, e)
  tidy_type arrow_this e = (arrow_this, e)
  tidy_type (literal l) e = (literal l, e)
  tidy_type (typed_array k) e = (typed_array k, e)
  tidy_type error e = (error, e)
  tidy_type (var v) e = let (w, e1) = rename_tvar v e in (var w, e1)
  tidy_type (func this_type params ret) e =
      let (first, e1) = tidy_this (not (is_hidden this_type)) this_type e in
      let (ps, e2) = tidy_params params e1 in
      let (r, e3) = tidy_type ret e2 in
      let (last, e4) = tidy_this (is_hidden this_type) this_type e3 in
      (func (if is_hidden this_type then last else first) ps r, e4)
  tidy_type (row props tail) e =
      let (ps, e1) = tidy_props props e in let (t, e2) = tidy_tail tail e1 in (row ps t, e2)
  tidy_type (array t) e = let (t1, e1) = tidy_type t e in (array t1, e1)
  tidy_type (map t) e = let (t1, e1) = tidy_type t e in (map t1, e1)
  tidy_type (promise t) e = let (t1, e1) = tidy_type t e in (promise t1, e1)
  tidy_type (maybe z t) e = let (t1, e1) = tidy_type t e in (maybe z t1, e1)
  tidy_type (tuple ts) e = let (ts1, e1) = tidy_tys ts e in (tuple ts1, e1)
  tidy_type (named n ts) e = let (ts1, e1) = tidy_tys ts e in (named n ts1, e1)
  tidy_type (union ts) e = let (ts1, e1) = tidy_tys ts e in (union ts1, e1)
  tidy_type (module_ source exports) e =
      let (x, e1) = tidy_exports exports e in (module_ source x, e1)

  pub tidy_tys : Tys → TidyEnv → Tys × TidyEnv
  tidy_tys nil e = (nil, e)
  tidy_tys (cons t ts) e =
      let (t1, e1) = tidy_type t e in let (ts1, e2) = tidy_tys ts e1 in (cons t1 ts1, e2)

  -- Where it is time for it.
  pub tidy_this : Bool → OptionTy → TidyEnv → OptionTy × TidyEnv
  tidy_this now absent e = (absent, e)
  tidy_this true (this t) e = let (t1, e1) = tidy_type t e in (this t1, e1)
  tidy_this false (this t) e = (this t, e)

  pub tidy_params : Params → TidyEnv → Params × TidyEnv
  tidy_params no_params e = (no_params, e)
  tidy_params (param p t name rest) e =
      let (t1, e1) = tidy_type t e in
      let (rest1, e2) = tidy_params rest e1 in (param p t1 name rest1, e2)

  pub tidy_props : Props → TidyEnv → Props × TidyEnv
  tidy_props no_props e = (no_props, e)
  tidy_props (prop name p t w o rest) e =
      let (t1, e1) = tidy_type t e in
      let (p1, e2) = rename_presence p e1 in
      let (w1, e3) = rename_presence w e2 in
      let (o1, e4) = rename_presence o e3 in
      let (rest1, e5) = tidy_props rest e4 in (prop name p1 t1 w1 o1 rest1, e5)

  pub tidy_tail : Tail → TidyEnv → Tail × TidyEnv
  tidy_tail closed e = (closed, e)
  tidy_tail (open_ v) e = let (w, e1) = rename_tvar v e in (open_ w, e1)
  tidy_tail (recursive n ts) e = let (ts1, e1) = tidy_tys ts e in (recursive n ts1, e1)

  pub tidy_exports : Exports → TidyEnv → Exports × TidyEnv
  tidy_exports no_exports e = (no_exports, e)
  tidy_exports (export name vars pvars preds t rest) e =
      let (preds1, e1) = tidy_preds preds e in
      let (t1, e2) = tidy_type t e1 in
      let (vars1, e3) = rename_tvars vars e2 in
      let (pvars1, e4) = rename_pvars pvars e3 in
      let (rest1, e5) = tidy_exports rest e4 in
      (export name (sort_by id vars1) (sort_by pid pvars1) preds1 t1 rest1, e5)

  pub tidy_preds : Preds → TidyEnv → Preds × TidyEnv
  tidy_preds no_preds e = (no_preds, e)
  tidy_preds (pred c ts origin rest) e =
      let (ts1, e1) = tidy_tys ts e in
      let (rest1, e2) = tidy_preds rest e1 in (pred c ts1 origin rest1, e2)

unfoldable pub tidy_scheme : TypeScheme → TidyEnv → TypeScheme × TidyEnv
unfolding tidy_type rename_tvars rename_pvars
tidy_scheme s e =
    let (preds, e1) = tidy_preds s.preds e in
    let (t, e2) = tidy_type s.ty e1 in
    let (vars, e3) = rename_tvars s.vars e2 in
    let (pvars, e4) = rename_pvars s.pvars e3 in
    (record { vars = sort_by id vars; pvars = sort_by pid pvars; preds = preds; ty = t }, e4)
