-- ===== src/Infer/Zonk/Parts.antt =====
-- The walk over the parts of a type that `zonk_with_visited` and `zonk_filtered` share. `S` is the
-- state that the walk passes along; an action gives none where the source panics.
use inty.Common.{List}
use inty.Types.Ty.{
  TVarName, Presence, Ty, func, row, array, map, promise, tuple, named, union, maybe, module_, Tys,
  nil, cons, OptionTy, absent, this, Params, no_params, param, Props, no_props, prop, Tail, closed,
  open_, recursive, Exports, no_exports, export, Preds, no_preds, pred,
}
use inty.Common.State.{Action, ◌>>=◌, pure}
use inty.Types.Union.{list_of}
use inty.Types.Widen.{union_ty}

-- What is done at the parts of a type: at a type, at the presence of a parameter and of a field, at
-- the variable of an open row, and at a type of a scheme that quantifies variables.
pub record Visitor (S : Type 0) : Type 0 where
  pub visit : Ty → Action S Ty
  pub param_presence : Presence → Presence
  pub field_presence : Presence → Presence
  pub open_tail : TVarName → Action S TVarName
  pub in_scheme : List TVarName → Ty → Action S Ty

module _ {S : Type 0} where
  unfoldable pub each_tys : (Ty → Action S Ty) → Tys → Action S Tys
  each_tys z nil = pure nil
  each_tys z (cons t ts) = do u ← z t; us ← each_tys z ts; pure (cons u us)

  unfoldable pub each_this : (Ty → Action S Ty) → OptionTy → Action S OptionTy
  each_this z absent = pure absent
  each_this z (this t) = do u ← z t; pure (this u)

  unfoldable pub each_preds : (Ty → Action S Ty) → Preds → Action S Preds
  unfolding each_tys
  each_preds z no_preds = pure no_preds
  each_preds z (pred c ts origin rest) = do
    us ← each_tys z ts
    rest1 ← each_preds z rest
    pure (pred c us origin rest1)

  unfoldable pub each_params : Visitor S → Params → Action S Params
  each_params v no_params = pure no_params
  each_params v (param p t name rest) = do
    u ← v.visit t
    rest1 ← each_params v rest
    pure (param (v.param_presence p) u name rest1)

  unfoldable pub each_props : Visitor S → Props → Action S Props
  each_props v no_props = pure no_props
  each_props v (prop name p t w o rest) = do
    u ← v.visit t
    rest1 ← each_props v rest
    pure (prop name (v.field_presence p) u (v.field_presence w) (v.field_presence o) rest1)

  unfoldable pub each_tail : Visitor S → Tail → Action S Tail
  unfolding each_tys
  each_tail v closed = pure closed
  each_tail v (open_ name) = do renamed ← v.open_tail name; pure (open_ renamed)
  each_tail v (recursive n ts) = do us ← each_tys v.visit ts; pure (recursive n us)

  -- `zonk_scheme` of each export.
  unfoldable pub each_exports : (List TVarName → Ty → Action S Ty) → Exports → Action S Exports
  unfolding each_preds
  each_exports z no_exports = pure no_exports
  each_exports z (export name vars pvars preds t rest) = do
    preds1 ← each_preds (z vars) preds
    u ← z vars t
    rest1 ← each_exports z rest
    pure (export name vars pvars preds1 u rest1)

  -- A variable is none of the parts.
  unfoldable pub each_part : Visitor S → Ty → Action S Ty
  unfolding each_tys each_this each_params each_props each_tail each_exports union_ty
  each_part v (func this_type params ret) = do
    this1 ← each_this v.visit this_type
    params1 ← each_params v params
    ret1 ← v.visit ret
    pure (func this1 params1 ret1)
  each_part v (row props tail) = do
    props1 ← each_props v props
    tail1 ← each_tail v tail
    pure (row props1 tail1)
  each_part v (array t) = do u ← v.visit t; pure (array u)
  each_part v (map t) = do u ← v.visit t; pure (map u)
  each_part v (promise t) = do u ← v.visit t; pure (promise u)
  each_part v (maybe z t) = do u ← v.visit t; pure (maybe z u)
  each_part v (tuple ts) = do us ← each_tys v.visit ts; pure (tuple us)
  each_part v (named n ts) = do us ← each_tys v.visit ts; pure (named n us)
  each_part v (union ts) = do us ← each_tys v.visit ts; pure (union_ty (list_of us))
  each_part v (module_ source exports) = do
    xs ← each_exports v.in_scheme exports
    pure (module_ source xs)
  each_part v t = pure t
