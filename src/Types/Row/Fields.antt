-- ===== src/Types/Row/Fields.antt =====
-- What rows hold, and the names of typed arrays.
use Prim.Native.String.{String}
use text.Mathlib.Text.{◌==◌ as str_eq}
use text.Mathlib.TextEquality.{eq_iff}
use inty.Common.{
  ◌≡◌, refl, subst, ◌↔◌, Bool, true, false, Option, none, some, List, [], ◌∷◌, arith, Bool-cases,
  inl, inr,
}
use inty.Common.Dict.{string_eq, lookup}
use inty.Types.Ty.{TVarName, Ty, TypedArrayKind, int32, uint8, float32, float64}
use inty.Types.Row.{
  FieldEntry, pre_field, pre_props, closed_row, open_row, find_entry, get_entry, get_prop, has_prop,
  is_open, is_closed, kind_name, find_kind, from_name,
}

-- A field with each type of a map.
abbrev pre_entry : Option Ty → Option FieldEntry
unfolding pre_field
pre_entry none = none
pre_entry (some t) = some (pre_field t)

abbrev is_some : Option Ty → Bool
is_some none = false
is_some (some t) = true

find_entry-pre_props :
    (name : String) (props : List (String × Ty))
    → find_entry name (pre_props props) ≡ pre_entry (lookup name props)
unfolding find_entry pre_props pre_field
find_entry-pre_props name [] = refl
find_entry-pre_props name ((k, t) ∷ props) = ground (arith, find_entry-pre_props name props)

-- A row made of a map of types holds, at every name, the type of the map in a field that is there,
-- writable and own, and nothing at a name that the map lacks; closed or open as it is made.
get_entry-closed_row :
    (props : List (String × Ty)) (v : TVarName) (name : String)
    → (get_entry (closed_row props) name ≡ pre_entry (lookup name props))
      × (get_prop (closed_row props) name ≡ lookup name props)
      × (has_prop (open_row props v) name ≡ is_some (lookup name props))
      × (is_closed (closed_row props) ≡ true)
      × (is_open (open_row props v) ≡ true)
unfolding get_entry get_prop has_prop closed_row open_row is_closed is_open pre_field
get_entry-closed_row props v name =
    let e = find_entry-pre_props name props in (e, ground arith, ground arith, refl, refl)

from_name-round : (k : TypedArrayKind) → from_name (kind_name k) ≡ some k
unfolding from_name kind_name
from_name-round int32 = refl
from_name-round uint8 = refl
from_name-round float32 = refl
from_name-round float64 = refl

find_kind-name :
    (kinds : List TypedArrayKind) (k : TypedArrayKind) (name : String)
    → find_kind name kinds ≡ some k
    → kind_name k ≡ name
unfolding find_kind
find_kind-name [] k name h = absurd (ground arith)
find_kind-name (j ∷ kinds) k name h = elim (Bool-cases (str_eq (kind_name j) name)) [
  | inl e ↦
      let same : j ≡ k = ground arith in
      subst (λ i. kind_name i ≡ name) same ((eq_iff (kind_name j) name).0 e)
  | inr e ↦ find_kind-name kinds k name (ground arith)
]

-- A name is found as a typed array exactly if it is the name of that typed array.
from_name-kind_name :
    (k : TypedArrayKind) (name : String) → (from_name name ≡ some k) ↔ (kind_name k ≡ name)
unfolding from_name
from_name-kind_name k name = (
  find_kind-name (int32 ∷ uint8 ∷ float32 ∷ float64 ∷ []) k name,
  λ h. subst (λ n. from_name n ≡ some k) h (from_name-round k),
)
