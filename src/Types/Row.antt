-- ===== src/Types/Row.antt =====
-- crates/inty/src/types/ty.rs: fields, rows, schemes and the names of typed arrays. A `BTreeMap` is
-- the list of its entries.
pub mod Fields
use Prim.Native.String.{String}
use text.Mathlib.Text.{◌==◌ as str_eq}
use inty.Common.{Bool, true, false, not, ◌&&◌, Option, none, some, List, [], ◌∷◌, if◌then◌else◌}
use inty.Common.Dict
use inty.Common.Dict.{string_eq, ◌=?◌}
use inty.Types.Ty.{
  TVarName, PVarName, Presence, pre, abs, Ty, number, string, bool, boolean, LitValue, Props,
  no_props, prop, Tail, closed, open_, recursive, TypedArrayKind, int32, uint8, float32, float64,
  Preds, no_preds,
}
use inty.Types.Free.{TypeScheme}

pub record FieldEntry : Type 0 where
  pub presence : Presence
  pub ty : Ty
  pub writable : Presence
  pub own : Presence

unfoldable pub pre_field : Ty → FieldEntry
pre_field t = record { presence = pre; ty = t; writable = pre; own = pre }

unfoldable pub optional_field : PVarName → Ty → FieldEntry
optional_field p t = record { presence = Presence.var p; ty = t; writable = pre; own = pre }

unfoldable pub absent_field : Ty → FieldEntry
absent_field t = record { presence = abs; ty = t; writable = pre; own = pre }

unfoldable pub getter_field : Ty → FieldEntry
getter_field t = record { presence = pre; ty = t; writable = abs; own = pre }

unfoldable pub proto_field : Ty → FieldEntry
proto_field t = record { presence = pre; ty = t; writable = abs; own = abs }

unfoldable pub with_ty : FieldEntry → Ty → FieldEntry
with_ty f t = record f { ty = t }

unfoldable pub map_field : (Presence → Presence) → Ty → FieldEntry → FieldEntry
map_field g t f = record { presence = g f.presence; ty = t; writable = g f.writable; own = g f.own }

unfoldable pub presences : FieldEntry → List Presence
presences f = f.presence ∷ f.writable ∷ f.own ∷ []

pub record RowType : Type 0 where
  pub props : Props
  pub tail : Tail

-- `props.into_iter().map(|(k, v)| (k, FieldEntry::pre(v))).collect()`
unfoldable pub pre_props : List (String × Ty) → Props
pre_props [] = no_props
pre_props ((name, t) ∷ props) = prop name pre t pre pre (pre_props props)

unfoldable pub closed_row : List (String × Ty) → RowType
unfolding pre_props
closed_row props = record { props = pre_props props; tail = closed }

unfoldable pub closed_entries : Props → RowType
closed_entries props = record { props = props; tail = closed }

unfoldable pub open_row : List (String × Ty) → TVarName → RowType
unfolding pre_props
open_row props v = record { props = pre_props props; tail = open_ v }

unfoldable pub open_entries : Props → TVarName → RowType
open_entries props v = record { props = props; tail = open_ v }

unfoldable pub empty_open : TVarName → RowType
empty_open v = record { props = no_props; tail = open_ v }

unfoldable pub empty_closed : RowType
empty_closed = record { props = no_props; tail = closed }

-- `self.props.get(name)`
unfoldable pub find_entry : String → Props → Option FieldEntry
find_entry name no_props = none
find_entry name (prop k p t w o rest) =
    if k =? name
    then some (record { presence = p; ty = t; writable = w; own = o })
    else find_entry name rest

unfoldable pub get_entry : RowType → String → Option FieldEntry
unfolding find_entry
get_entry row name = find_entry name row.props

unfoldable pub get_prop : RowType → String → Option Ty
unfolding get_entry
get_prop row name = elim (get_entry row name) [ none ↦ none | some f ↦ some f.ty ]

unfoldable pub has_prop : RowType → String → Bool
unfolding get_entry
has_prop row name = elim (get_entry row name) [ none ↦ false | some f ↦ true ]

unfoldable pub is_open : RowType → Bool
is_open row = elim row.tail [ open_ v ↦ true | _ ↦ false ]

unfoldable pub is_closed : RowType → Bool
is_closed row = elim row.tail [ closed ↦ true | _ ↦ false ]

unfoldable pub base_type : LitValue → Ty
base_type (string s) = Ty.string
base_type (number n) = Ty.number
base_type (bool b) = Ty.boolean

unfoldable pub kind_name : TypedArrayKind → String
kind_name int32 = "Int32Array"
kind_name uint8 = "Uint8Array"
kind_name float32 = "Float32Array"
kind_name float64 = "Float64Array"

-- `Self::ALL.into_iter().find(|k| k.name() == name)`
unfoldable pub find_kind : String → List TypedArrayKind → Option TypedArrayKind
unfolding kind_name
find_kind name [] = none
find_kind name (k ∷ kinds) = if str_eq (kind_name k) name then some k else find_kind name kinds

unfoldable pub from_name : String → Option TypedArrayKind
unfolding find_kind
from_name name = find_kind name (int32 ∷ uint8 ∷ float32 ∷ float64 ∷ [])

unfoldable pub mono : Ty → TypeScheme
mono t = record { vars = []; pvars = []; preds = no_preds; ty = t }

unfoldable pub poly_with_presence : List TVarName → List PVarName → Ty → TypeScheme
poly_with_presence vars pvars t = record { vars = vars; pvars = pvars; preds = no_preds; ty = t }

unfoldable pub poly : List TVarName → Ty → TypeScheme
poly vars t = record { vars = vars; pvars = []; preds = no_preds; ty = t }

unfoldable pub qualified_with_presence : List TVarName → List PVarName → Preds → Ty → TypeScheme
qualified_with_presence vars pvars preds t = record {
  vars = vars;
  pvars = pvars;
  preds = preds;
  ty = t;
}

unfoldable pub qualified : List TVarName → Preds → Ty → TypeScheme
qualified vars preds t = record { vars = vars; pvars = []; preds = preds; ty = t }

unfoldable pub is_mono : TypeScheme → Bool
is_mono s = elim s.vars [ [] ↦ elim s.pvars [ [] ↦ true | _ ∷ _ ↦ false ] | _ ∷ _ ↦ false ]
