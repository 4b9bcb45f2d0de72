-- ===== src/Infer/Zonk/Rebuilt.antt =====
-- What a walk over a type must give, former by former: the same former over what the parts give.
-- `Expand` reads types by it, and nothing of the walk that the code makes stands in it.
use inty.Common.{Bool, List}
use inty.Types.Ty.{
  TVarName, Presence, Ty, number, string, boolean, undefined, null, regex, new_target, arrow_this,
  var, func, row, array, map, promise, tuple, named, literal, union, maybe, module_, typed_array,
  error, Tys, nil, cons, OptionTy, absent, this, Params, no_params, param, Props, no_props, prop,
  Tail, closed, open_, recursive, Exports, no_exports, export, Preds, no_preds, pred,
}
use inty.Common.State.{Action, ◌>>=◌, pure}
use inty.Types.Union.{list_of}
use inty.Types.Widen.{union_ty}

-- A former over what one, two or three readings give, in this order; a panic of one is the panic of
-- all.
abbrev pub over : {A B : Type 0} → (A → B) → Action Bool A → Action Bool B
over f m = m >>= λ a. pure (f a)

abbrev pub over2 : {A B C : Type 0} → (A → B → C) → Action Bool A → Action Bool B → Action Bool C
over2 f m n = m >>= λ a. over (f a) n

abbrev pub over3 :
    {A B C D : Type 0}
    → (A → B → C → D)
    → Action Bool A
    → Action Bool B
    → Action Bool C
    → Action Bool D
over3 f m n o = m >>= λ a. over2 (f a) n o

module _ (read : Ty → Action Bool Ty) where
  abbrev pub rebuilt_tys : Tys → Action Bool Tys
  rebuilt_tys nil = pure nil
  rebuilt_tys (cons t ts) = over2 cons (read t) (rebuilt_tys ts)

  abbrev pub rebuilt_this : OptionTy → Action Bool OptionTy
  rebuilt_this absent = pure absent
  rebuilt_this (this t) = over this (read t)

  -- The class and the origin of a predicate stay.
  abbrev pub rebuilt_preds : Preds → Action Bool Preds
  rebuilt_preds no_preds = pure no_preds
  rebuilt_preds (pred c ts origin rest) =
      over2 (λ us. pred c us origin) (rebuilt_tys ts) (rebuilt_preds rest)

  -- The presences of parameters and of fields are read by one function each.
  abbrev pub rebuilt_params : (Presence → Presence) → Params → Action Bool Params
  rebuilt_params p no_params = pure no_params
  rebuilt_params p (param presence t name rest) =
      over2 (λ u. param (p presence) u name) (read t) (rebuilt_params p rest)

  abbrev pub rebuilt_props : (Presence → Presence) → Props → Action Bool Props
  rebuilt_props p no_props = pure no_props
  rebuilt_props p (prop name presence t w o rest) =
      over2 (λ u. prop name (p presence) u (p w) (p o)) (read t) (rebuilt_props p rest)

  abbrev pub rebuilt_tail : (TVarName → Action Bool TVarName) → Tail → Action Bool Tail
  rebuilt_tail v closed = pure closed
  rebuilt_tail v (open_ name) = over open_ (v name)
  rebuilt_tail v (recursive n ts) = over (recursive n) (rebuilt_tys ts)

-- An export is a scheme: what it quantifies is handed to the reading of its parts.
abbrev pub rebuilt_exports : (List TVarName → Ty → Action Bool Ty) → Exports → Action Bool Exports
rebuilt_exports read no_exports = pure no_exports
rebuilt_exports read (export name vars pvars preds t rest) =
    over3 (export name vars pvars) (rebuilt_preds (read vars) preds) (read vars t)
      (rebuilt_exports read rest)

-- How the parts of a type are read.
pub record Reading : Type 0 where
  pub part : Ty → Action Bool Ty
  pub presence_of_param : Presence → Presence
  pub presence_of_field : Presence → Presence
  pub row_var : TVarName → Action Bool TVarName
  pub part_of_scheme : List TVarName → Ty → Action Bool Ty

-- A union is normalised anew; a type without parts stays.
unfoldable pub rebuilt : Reading → Ty → Action Bool Ty
unfolding union_ty
rebuilt r (func this_type params ret) =
    over3 func (rebuilt_this r.part this_type) (rebuilt_params r.part r.presence_of_param params)
      (r.part ret)
rebuilt r (row props tail) =
    over2 row (rebuilt_props r.part r.presence_of_field props) (rebuilt_tail r.part r.row_var tail)
rebuilt r (array t) = over Ty.array (r.part t)
rebuilt r (map t) = over Ty.map (r.part t)
rebuilt r (promise t) = over promise (r.part t)
rebuilt r (maybe nullish t) = over (maybe nullish) (r.part t)
rebuilt r (tuple ts) = over tuple (rebuilt_tys r.part ts)
rebuilt r (named n ts) = over (named n) (rebuilt_tys r.part ts)
rebuilt r (union ts) = over (λ us. union_ty (list_of us)) (rebuilt_tys r.part ts)
rebuilt r (module_ source exports) =
    over (module_ source) (rebuilt_exports r.part_of_scheme exports)
rebuilt r (var v) = pure (var v)
rebuilt r (literal l) = pure (literal l)
rebuilt r (typed_array k) = pure (typed_array k)
rebuilt r number = pure number
rebuilt r string = pure string
rebuilt r boolean = pure boolean
rebuilt r undefined = pure undefined
rebuilt r null = pure null
rebuilt r regex = pure regex
rebuilt r new_target = pure new_target
rebuilt r arrow_this = pure arrow_this
rebuilt r error = pure error
