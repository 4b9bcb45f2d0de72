-- ===== src/Go/Kinds.antt =====
-- crates/inty-go/src/kinds.rs: the least kinds of the places of a program. An action on the
-- constraints gives none where the source panics, which is at an index out of bounds, and where a
-- loop has used up its rounds. A `u32` id is a number; `fresh` wraps at 32 bits. A work list has its
-- top first.
pub mod Flow
pub mod Places
pub mod Joined
pub mod Solve
mod Tests
use inty.Common.{
  map, ℕ, zero, suc, ◌+◌, ◌-◌, ◌*◌, ◌%◌, ◌^◌, Bool, true, false, ◌&&◌, not, Option, none, some,
  List, [], ◌∷◌, ◌++◌, ltb, ◌==◌, if◌then◌else◌, length, get_elem?, set,
}
use inty.Common.State.{Action, ◌>>=◌, pure}

pub data Kind : Type 0 where
  unknown int float : Kind

-- The order of the constructors.
unfoldable pub rank : Kind → ℕ
rank unknown = 0
rank int = 1
rank float = 2

pub record Kinds : Type 0 where
  pub parent : List ℕ
  pub lower : List Kind
  pub edges : List (ℕ × ℕ)
  pub demanded : List ℕ
  pub links : List (ℕ × ℕ)
  pub params : List ℕ
  pub solved : List Kind

-- An element, with a panic out of bounds.
abbrev pub at : {A : Type 0} → List A → ℕ → Action Kinds A
at xs i s = elim (get_elem? xs i) [ none ↦ none | some x ↦ some (x, s) ]

unfoldable pub fresh : Action Kinds ℕ
fresh s =
    let v = length s.parent % 2 ^ 32 in
    some (v, record s { parent = s.parent ++ v ∷ []; lower = s.lower ++ unknown ∷ [] })

-- The first loop of `find`.
unfoldable pub climb : ℕ → List ℕ → ℕ → Option ℕ
climb zero parent r = none
climb (suc k) parent r = elim (get_elem? parent r) [
  | none ↦ none
  | some next ↦ let rest = climb k parent next in if next == r then some r else rest
]

-- The second loop.
unfoldable pub shorten : ℕ → ℕ → List ℕ → ℕ → Option (List ℕ)
shorten zero r parent c = none
shorten (suc k) r parent c = elim (get_elem? parent c) [
  | none ↦ none
  | some next ↦
      let rest = shorten k r (set parent c r) next in if next == r then some parent else rest
]

unfoldable pub find : ℕ → Action Kinds ℕ
unfolding climb shorten
find v s = elim (climb (suc (length s.parent)) s.parent v) [
  | none ↦ none
  | some r ↦ elim (shorten (suc (length s.parent)) r s.parent v) [
    | none ↦ none
    | some parent ↦ some (r, record s { parent = parent })
  ]
]

unfoldable pub raise : ℕ → Kind → Action Kinds (Unit {0})
unfolding find rank
raise v k = do
  r ← find v
  λ s. elim (get_elem? s.lower r) [
    | none ↦ none
    | some low ↦
        some (tt, if ltb (rank low) (rank k) then record s { lower = set s.lower r k } else s)
  ]

-- Two roots become one place.
unfoldable pub join_roots : ℕ → ℕ → Action Kinds (Unit {0})
unfolding raise
join_roots ra rb s = if ra == rb then some (tt, s) else elim (get_elem? s.lower rb) [
  | none ↦ none
  | some k ↦ raise ra k (record s { parent = set s.parent rb ra })
]

unfoldable pub union : ℕ → ℕ → Action Kinds (Unit {0})
unfolding find join_roots
union a b = do ra ← find a; rb ← find b; join_roots ra rb

unfoldable pub edge : ℕ → ℕ → Action Kinds (Unit {0})
edge a b s = some (tt, record s { edges = s.edges ++ (a, b) ∷ [] })

unfoldable pub demand : ℕ → Action Kinds (Unit {0})
demand v s = some (tt, record s { demanded = s.demanded ++ v ∷ [] })

unfoldable pub link : ℕ → ℕ → Action Kinds (Unit {0})
link a b s = some (tt, record s { links = s.links ++ (a, b) ∷ [] })

unfoldable pub param : ℕ → Action Kinds (Unit {0})
param v s = some (tt, record s { params = s.params ++ v ∷ [] })
