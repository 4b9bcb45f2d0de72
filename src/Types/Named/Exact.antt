-- ===== src/Types/Named/Exact.antt =====
-- The set of named ids holds exactly the ids that stand in the type.
use inty.Common.{ℕ, ◌≡◌, refl, Bool, false, ◌||◌, List, [], ◌∷◌, arith}
use inty.Common.Dict.{nat_eq, ◌=?◌, has}
use inty.Types.Ty.{
  Ty, number, string, boolean, undefined, null, regex, new_target, arrow_this, var, func, row,
  array, map, promise, tuple, named, literal, union, maybe, module_, typed_array, error, Tys, nil,
  cons, OptionTy, absent, this, Params, no_params, param, Props, no_props, prop, Tail, closed,
  open_, recursive,
}
use inty.Types.Named.{
  collect_ids, collect_ids_tys, collect_ids_this, collect_ids_params, collect_ids_props,
  collect_ids_tail, named_ids,
}

-- An id stands at a `Named` or at a recursive row tail, outside module types.
unfoldable mutual
  pub mentions : ℕ → Ty → Bool
  mentions a number = false
  mentions a string = false
  mentions a boolean = false
  mentions a undefined = false
  mentions a null = false
  mentions a regex = false
  mentions a new_target = false
  mentions a arrow_this = false
  mentions a (var v) = false
  mentions a (literal l) = false
  mentions a (module_ source members) = false
  mentions a (typed_array k) = false
  mentions a error = false
  mentions a (func this_type params ret) =
      mentions_this a this_type || (mentions_params a params || mentions a ret)
  mentions a (row props tail) = mentions_props a props || mentions_tail a tail
  mentions a (array t) = mentions a t
  mentions a (map t) = mentions a t
  mentions a (promise t) = mentions a t
  mentions a (maybe z t) = mentions a t
  mentions a (tuple ts) = mentions_tys a ts
  mentions a (union ts) = mentions_tys a ts
  mentions a (named id ts) = (id =? a) || mentions_tys a ts

  pub mentions_tys : ℕ → Tys → Bool
  mentions_tys a nil = false
  mentions_tys a (cons t ts) = mentions a t || mentions_tys a ts

  pub mentions_this : ℕ → OptionTy → Bool
  mentions_this a absent = false
  mentions_this a (this t) = mentions a t

  pub mentions_params : ℕ → Params → Bool
  mentions_params a no_params = false
  mentions_params a (param p t name rest) = mentions a t || mentions_params a rest

  pub mentions_props : ℕ → Props → Bool
  mentions_props a no_props = false
  mentions_props a (prop name p t w o rest) = mentions a t || mentions_props a rest

  pub mentions_tail : ℕ → Tail → Bool
  mentions_tail a closed = false
  mentions_tail a (open_ v) = false
  mentions_tail a (recursive id ts) = (id =? a) || mentions_tys a ts

mutual
  unfolding collect_ids mentions

  has-collect_ids :
      (a : ℕ) (t : Ty) (out : List ℕ) → has (collect_ids t out) a ≡ (mentions a t || has out a)
  has-collect_ids a number out = refl
  has-collect_ids a string out = refl
  has-collect_ids a boolean out = refl
  has-collect_ids a undefined out = refl
  has-collect_ids a null out = refl
  has-collect_ids a regex out = refl
  has-collect_ids a new_target out = refl
  has-collect_ids a arrow_this out = refl
  has-collect_ids a (var v) out = refl
  has-collect_ids a (literal l) out = refl
  has-collect_ids a (module_ source members) out = refl
  has-collect_ids a (typed_array k) out = refl
  has-collect_ids a error out = refl
  has-collect_ids a (func this_type params ret) out = ground (
    arith,
    has-collect_ids a ret (collect_ids_params params (collect_ids_this this_type out)),
    has-collect_ids_params a params (collect_ids_this this_type out),
    has-collect_ids_this a this_type out,
  )
  has-collect_ids a (row props tail) out = ground (
    arith,
    has-collect_ids_tail a tail (collect_ids_props props out),
    has-collect_ids_props a props out,
  )
  has-collect_ids a (array t) out = has-collect_ids a t out
  has-collect_ids a (map t) out = has-collect_ids a t out
  has-collect_ids a (promise t) out = has-collect_ids a t out
  has-collect_ids a (maybe z t) out = has-collect_ids a t out
  has-collect_ids a (tuple ts) out = has-collect_ids_tys a ts out
  has-collect_ids a (union ts) out = has-collect_ids_tys a ts out
  has-collect_ids a (named id ts) out = ground (arith, has-collect_ids_tys a ts (id ∷ out))

  has-collect_ids_tys :
      (a : ℕ) (t : Tys) (out : List ℕ)
      → has (collect_ids_tys t out) a ≡ (mentions_tys a t || has out a)
  has-collect_ids_tys a nil out = refl
  has-collect_ids_tys a (cons t ts) out =
      ground (arith, has-collect_ids_tys a ts (collect_ids t out), has-collect_ids a t out)

  has-collect_ids_this :
      (a : ℕ) (t : OptionTy) (out : List ℕ)
      → has (collect_ids_this t out) a ≡ (mentions_this a t || has out a)
  has-collect_ids_this a absent out = refl
  has-collect_ids_this a (this t) out = has-collect_ids a t out

  has-collect_ids_params :
      (a : ℕ) (t : Params) (out : List ℕ)
      → has (collect_ids_params t out) a ≡ (mentions_params a t || has out a)
  has-collect_ids_params a no_params out = refl
  has-collect_ids_params a (param p t name rest) out =
      ground (arith, has-collect_ids_params a rest (collect_ids t out), has-collect_ids a t out)

  has-collect_ids_props :
      (a : ℕ) (t : Props) (out : List ℕ)
      → has (collect_ids_props t out) a ≡ (mentions_props a t || has out a)
  has-collect_ids_props a no_props out = refl
  has-collect_ids_props a (prop name p t w o rest) out =
      ground (arith, has-collect_ids_props a rest (collect_ids t out), has-collect_ids a t out)

  has-collect_ids_tail :
      (a : ℕ) (t : Tail) (out : List ℕ)
      → has (collect_ids_tail t out) a ≡ (mentions_tail a t || has out a)
  has-collect_ids_tail a closed out = refl
  has-collect_ids_tail a (open_ v) out = refl
  has-collect_ids_tail a (recursive id ts) out = ground (arith, has-collect_ids_tys a ts (id ∷ out))

-- `named_ids` holds exactly the ids that stand in the type at a `Named` or at a recursive row tail,
-- not counting what stands inside a module type.
pub has-named_ids : (t : Ty) (a : ℕ) → has (named_ids t) a ≡ mentions a t
unfolding named_ids
has-named_ids t a = ground (arith, has-collect_ids a t [])
