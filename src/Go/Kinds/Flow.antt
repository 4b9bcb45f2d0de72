-- ===== src/Go/Kinds/Flow.antt =====
-- crates/inty-go/src/kinds.rs: the kinds that flow along the edges (`propagate` and its two first
-- calls in `solve`). A work list has its top first.
pub mod Step
pub mod Fixpoint
pub mod Known
use inty.Common.{
  map, ℕ, zero, suc, ◌+◌, ◌-◌, ◌*◌, ◌%◌, ◌^◌, Bool, true, false, ◌&&◌, not, Option, none, some,
  List, [], ◌∷◌, ◌++◌, ltb, ◌==◌, if◌then◌else◌, length, get_elem?, set,
}
use inty.Go.Kinds.{Kind, unknown, int, float, rank}

-- `Vec<Vec<usize>>`: the places that each place has an edge to.
unfoldable pub push_at : List (List ℕ) → ℕ → ℕ → Option (List (List ℕ))
push_at out a b = elim (get_elem? out a) [ none ↦ none | some bs ↦ some (set out a (bs ++ b ∷ [])) ]

unfoldable pub push_all : List (ℕ × ℕ) → List (List ℕ) → Option (List (List ℕ))
unfolding push_at
push_all [] out = some out
push_all ((a, b) ∷ edges) out = elim (push_at out a b) [
  | none ↦ none
  | some out1 ↦ push_all edges out1
]

-- The inner loop of `propagate`: kinds and the work list.
unfoldable pub raise_each : Kind → List ℕ → List Kind → List ℕ → Option (List Kind × List ℕ)
unfolding rank
raise_each k [] kind work = some (kind, work)
raise_each k (b ∷ bs) kind work = elim (get_elem? kind b) [
  | none ↦ none
  | some low ↦
      raise_each k bs (if ltb (rank low) (rank k) then set kind b k else kind)
        (if ltb (rank low) (rank k) then b ∷ work else work)
]

unfoldable pub propagate : List (List ℕ) → ℕ → List Kind → List ℕ → Option (List Kind)
unfolding raise_each
propagate out zero kind work = none
propagate out (suc f) kind [] = some kind
propagate out (suc f) kind (a ∷ work) = elim (get_elem? kind a) [
  | none ↦ none
  | some k ↦ elim (get_elem? out a) [
    | none ↦ none
    | some bs ↦ elim (raise_each k bs kind work) [
      | none ↦ none
      | some (kind1, work1) ↦ propagate out f kind1 work1
    ]
  ]
]

-- Rounds that are enough for a work list over these kinds.
abbrev pub rounds : List Kind → List ℕ → ℕ
rounds kind work = suc (length work + 2 * length kind)

-- The roots among `from ..`, the last on top, above `work`.
unfoldable pub push_roots : ℕ → List ℕ → List ℕ → List ℕ
push_roots from [] work = work
push_roots from (p ∷ parent) work =
    push_roots (suc from) parent (if p == from then from ∷ work else work)

-- The roots of unknown kind in this order, and the kinds with a float in each.
abbrev pub is_unknown : Option Kind → Bool
is_unknown (some unknown) = true
is_unknown _ = false

abbrev pub unknown_of : List Kind → List ℕ → List ℕ
unknown_of kind [] = []
unknown_of kind (r ∷ roots) =
    if is_unknown (get_elem? kind r) then r ∷ unknown_of kind roots else unknown_of kind roots

abbrev pub all_float : List Kind → List ℕ → List Kind
all_float kind [] = kind
all_float kind (r ∷ roots) = all_float (set kind r float) roots

-- The least kinds, and a float for what nothing flows into, which flows on.
unfoldable pub flow : List (List ℕ) → List ℕ → List Kind → Option (List Kind)
unfolding propagate
flow out roots kind = elim (propagate out (rounds kind roots) kind roots) [
  | none ↦ none
  | some kind1 ↦
      let nothing = unknown_of kind1 roots in
      let kind2 = all_float kind1 nothing in propagate out (rounds kind2 nothing) kind2 nothing
]
