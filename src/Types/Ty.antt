-- ===== src/Types/Ty.antt =====
-- crates/inty/src/types/ty.rs: the representation of types. An `f64` literal is its bit pattern,
-- which is all that its equality and its order look at (`to_bits`). A map from names is the list of
-- its entries, and an `Option<Box<Type>>` or a `Vec<Type>` inside a type is a member of the block.
use Prim.Native.String.{String}
use inty.Common.{ℕ, ◌≡◌, ◌↔◌, Bool, true, false, Option, List, ◌==◌, arith}
use inty.Span.{Span}
use inty.Common.Dict.{Eq, string_eq}

-- Flexible variables may be unified; skolems are rigid.
pub data TVarName : Type 0 where
  flex skolem : ℕ → TVarName

pub data PVarName : Type 0 where
  flex skolem : ℕ → PVarName

pub data Presence : Type 0 where
  pre abs : Presence
  var : PVarName → Presence

pub data ClassName : Type 0 where
  plus indexable index_write field_write has_prop inject strip spread iterable testable : ClassName

pub data LitValue : Type 0 where
  string : String → LitValue
  number : ℕ → LitValue
  bool : Bool → LitValue

pub data Nothing : Type 0 where
  null undefined : Nothing

pub data TypedArrayKind : Type 0 where
  int32 uint8 float32 float64 : TypedArrayKind

-- `Type`, with `RowType`, `RowTail`, `FuncParam`, `FieldEntry`, `TypePred`, `QualType` and
-- `TypeScheme` as constructors of the types that hold them.
mutual
  pub data Ty : Type 0 where
    number string boolean undefined null regex new_target arrow_this : Ty
    var : TVarName → Ty
    func : OptionTy → Params → Ty → Ty
    row : Props → Tail → Ty
    array map promise : Ty → Ty
    tuple : Tys → Ty
    named : ℕ → Tys → Ty
    literal : LitValue → Ty
    union : Tys → Ty
    maybe : Nothing → Ty → Ty
    module_ : String → Exports → Ty
    typed_array : TypedArrayKind → Ty
    error : Ty

  pub data Tys : Type 0 where
    nil : Tys
    cons : Ty → Tys → Tys

  pub data OptionTy : Type 0 where
    absent : OptionTy
    this : Ty → OptionTy

  -- presence, type, name
  pub data Params : Type 0 where
    no_params : Params
    param : Presence → Ty → Option String → Params → Params

  -- name, presence, type, writable, own
  pub data Props : Type 0 where
    no_props : Props
    prop : String → Presence → Ty → Presence → Presence → Props → Props

  pub data Tail : Type 0 where
    closed : Tail
    open_ : TVarName → Tail
    recursive : ℕ → Tys → Tail

  -- the name and the scheme of an export: quantified variables, predicates and type
  pub data Exports : Type 0 where
    no_exports : Exports
    export : String → List TVarName → List PVarName → Preds → Ty → Exports → Exports

  pub data Preds : Type 0 where
    no_preds : Preds
    pred : ClassName → Tys → Option Span → Preds → Preds

abbrev pub id : TVarName → ℕ
id (flex n) = n
id (skolem n) = n

abbrev pub is_flex : TVarName → Bool
is_flex (flex _) = true
is_flex (skolem _) = false

abbrev pub tvar_beq : TVarName → TVarName → Bool
tvar_beq (flex a) (flex b) = a == b
tvar_beq (skolem a) (skolem b) = a == b
tvar_beq _ _ = false

abbrev pub pvar_beq : PVarName → PVarName → Bool
pvar_beq (flex a) (flex b) = a == b
pvar_beq (skolem a) (skolem b) = a == b
pvar_beq _ _ = false

pub tvar_beq_iff : (a b : TVarName) → (tvar_beq a b ≡ true) ↔ (a ≡ b)
tvar_beq_iff a b = ground arith

pub pvar_beq_iff : (a b : PVarName) → (pvar_beq a b ≡ true) ↔ (a ≡ b)
pvar_beq_iff a b = ground arith

instance abbrev pub tvar_eq : Eq TVarName
tvar_eq = record { beq = tvar_beq; beq_iff = tvar_beq_iff }

instance abbrev pub pvar_eq : Eq PVarName
pvar_eq = record { beq = pvar_beq; beq_iff = pvar_beq_iff }
