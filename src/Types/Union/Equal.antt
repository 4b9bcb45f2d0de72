-- ===== src/Types/Union/Equal.antt =====
-- `==` on types, which does not look at the names of parameters, nor at where a predicate comes from.
use inty.Common.{ℕ, Bool, true, false, ◌&&◌, List, [], ◌∷◌, ◌==◌}
use inty.Common.Dict.{string_eq, ◌=?◌}
use inty.Types.Ty.{
  tvar_eq, pvar_eq, Presence, pre, abs, ClassName, LitValue, Nothing, TypedArrayKind, int32, uint8,
  float32, float64, Ty, number, string, boolean, undefined, null, regex, new_target, arrow_this,
  var, func, row, array, map, promise, tuple, named, literal, union, maybe, module_, typed_array,
  error, Tys, nil, cons, OptionTy, absent, this, Params, no_params, param, Props, no_props, prop,
  Tail, closed, open_, recursive, Exports, no_exports, export, Preds, no_preds, pred,
}

abbrev presence_beq : Presence → Presence → Bool
presence_beq pre pre = true
presence_beq abs abs = true
presence_beq (Presence.var a) (Presence.var b) = a =? b
presence_beq _ _ = false

abbrev class_tag : ClassName → ℕ
class_tag c = elim c [
  | ClassName.plus ↦ 0
  | ClassName.indexable ↦ 1
  | ClassName.index_write ↦ 2
  | ClassName.field_write ↦ 3
  | ClassName.has_prop ↦ 4
  | ClassName.inject ↦ 5
  | ClassName.strip ↦ 6
  | ClassName.spread ↦ 7
  | ClassName.iterable ↦ 8
  | ClassName.testable ↦ 9
]

abbrev kind_tag : TypedArrayKind → ℕ
kind_tag k = elim k [ int32 ↦ 0 | uint8 ↦ 1 | float32 ↦ 2 | float64 ↦ 3 ]

abbrev nothing_tag : Nothing → ℕ
nothing_tag z = elim z [ Nothing.null ↦ 0 | Nothing.undefined ↦ 1 ]

abbrev bool_beq : Bool → Bool → Bool
bool_beq true b = b
bool_beq false true = false
bool_beq false false = true

abbrev lit_beq : LitValue → LitValue → Bool
lit_beq (LitValue.string a) (LitValue.string b) = a =? b
lit_beq (LitValue.number a) (LitValue.number b) = a == b
lit_beq (LitValue.bool a) (LitValue.bool b) = bool_beq a b
lit_beq _ _ = false

abbrev list_beq : {A : Type 0} → (A → A → Bool) → List A → List A → Bool
list_beq f [] [] = true
list_beq f (x ∷ xs) (y ∷ ys) = f x y && list_beq f xs ys
list_beq f _ _ = false

unfoldable mutual
  pub ty_beq : Ty → Ty → Bool
  ty_beq number number = true
  ty_beq string string = true
  ty_beq boolean boolean = true
  ty_beq undefined undefined = true
  ty_beq null null = true
  ty_beq regex regex = true
  ty_beq new_target new_target = true
  ty_beq arrow_this arrow_this = true
  ty_beq (var a) (var b) = a =? b
  ty_beq (func t ps r) (func u qs s) = this_beq t u && (params_beq ps qs && ty_beq r s)
  ty_beq (row ps t) (row qs u) = props_beq ps qs && tail_beq t u
  ty_beq (array t) (array u) = ty_beq t u
  ty_beq (map t) (map u) = ty_beq t u
  ty_beq (promise t) (promise u) = ty_beq t u
  ty_beq (tuple ts) (tuple us) = tys_beq ts us
  ty_beq (named n ts) (named m us) = n == m && tys_beq ts us
  ty_beq (literal l) (literal k) = lit_beq l k
  ty_beq (union ts) (union us) = tys_beq ts us
  ty_beq (maybe z t) (maybe y u) = nothing_tag z == nothing_tag y && ty_beq t u
  ty_beq (module_ a xs) (module_ b ys) = (a =? b) && exports_beq xs ys
  ty_beq (typed_array j) (typed_array k) = kind_tag j == kind_tag k
  ty_beq error error = true
  ty_beq _ _ = false

  pub tys_beq : Tys → Tys → Bool
  tys_beq nil nil = true
  tys_beq (cons t ts) (cons u us) = ty_beq t u && tys_beq ts us
  tys_beq _ _ = false

  pub this_beq : OptionTy → OptionTy → Bool
  this_beq absent absent = true
  this_beq (this t) (this u) = ty_beq t u
  this_beq _ _ = false

  pub params_beq : Params → Params → Bool
  params_beq no_params no_params = true
  params_beq (param p t name ps) (param q u other qs) =
      presence_beq p q && (ty_beq t u && params_beq ps qs)
  params_beq _ _ = false

  pub props_beq : Props → Props → Bool
  props_beq no_props no_props = true
  props_beq (prop a p t w o ps) (prop b q u v n qs) =
      (a =? b)
      && (presence_beq p q
          && (ty_beq t u && (presence_beq w v && (presence_beq o n && props_beq ps qs))))
  props_beq _ _ = false

  pub tail_beq : Tail → Tail → Bool
  tail_beq closed closed = true
  tail_beq (open_ v) (open_ w) = v =? w
  tail_beq (recursive n ts) (recursive m us) = n == m && tys_beq ts us
  tail_beq _ _ = false

  pub exports_beq : Exports → Exports → Bool
  exports_beq no_exports no_exports = true
  exports_beq (export a vs ps cs t xs) (export b ws qs ds u ys) =
      (a =? b)
      && (list_beq (◌=?◌) vs ws
          && (list_beq (◌=?◌) ps qs && (preds_beq cs ds && (ty_beq t u && exports_beq xs ys))))
  exports_beq _ _ = false

  pub preds_beq : Preds → Preds → Bool
  preds_beq no_preds no_preds = true
  preds_beq (pred c ts o ps) (pred d us n qs) =
      class_tag c == class_tag d && (tys_beq ts us && preds_beq ps qs)
  preds_beq _ _ = false
