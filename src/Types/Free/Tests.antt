-- ===== src/Types/Free/Tests.antt =====
-- A scheme over one variable whose body holds a module with a scheme of its own.
use inty.Common.{◌≡◌, refl, not, ◌&&◌, ◌||◌, none, [], ◌∷◌}
use inty.Common.Dict.{has}
use inty.Types.Ty.{
  TVarName, flex, PVarName, Presence, pre, Ty, number, var, func, row, tuple, module_, nil, cons,
  absent, no_params, param, no_props, prop, open_, no_exports, export, no_preds, pred, plus,
  tvar_eq, pvar_eq,
}
use inty.Types.Free.{TypeScheme, scheme_free_vars, scheme_free_pvars}
use inty.Types.Free.Occurs.{is_in, is_in_preds, is_pvar_in, is_pvar_in_preds}
use inty.Types.Free.Exact.{has-scheme_free_vars}

abbrev v0 : TVarName
v0 = flex 0

abbrev v1 : TVarName
v1 = flex 1

abbrev v2 : TVarName
v2 = flex 2

abbrev p0 : PVarName
p0 = flex 0

abbrev exported : Ty
exported = module_ "m" (
    export "f" (v0 ∷ []) [] no_preds
      (func absent no_params (tuple (cons (var v0) (cons (var v1) nil)))) no_exports)

-- `{x?: number | v2} → module`, over `v1`, with `Plus v2`
abbrev scheme : TypeScheme
scheme = record {
  vars = v1 ∷ [];
  pvars = [];
  preds = pred plus (cons (var v2) nil) none no_preds;
  ty =
      func absent
        (param pre (row (prop "x" (Presence.var p0) number pre pre no_props) (open_ v2)) none
          no_params)
        exported;
}

free_of_scheme : scheme_free_vars scheme ≡ v2 ∷ v2 ∷ []
unfolding scheme_free_vars
free_of_scheme = refl

has-scheme_free_vars_example :
    (has (scheme_free_vars scheme) v2
      ≡ (not (has scheme.vars v2) && (is_in v2 scheme.ty || is_in_preds v2 scheme.preds)))
    × (has (scheme_free_pvars scheme) p0 ≡ (
        not (has scheme.pvars p0) && (is_pvar_in p0 scheme.ty || is_pvar_in_preds p0 scheme.preds)))
has-scheme_free_vars_example = has-scheme_free_vars scheme v2 p0
