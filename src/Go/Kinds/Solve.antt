-- ===== src/Go/Kinds/Solve.antt =====
-- crates/inty-go/src/kinds.rs: `solve`, which integers some use needs, and which parameters are floats.
pub mod Marked
pub mod Settled
pub mod Graphs
pub mod Found
pub mod Placed
pub mod Stages
pub mod Solution
use inty.Common.{
  map, ℕ, zero, suc, ◌+◌, ◌-◌, ◌*◌, ◌%◌, ◌^◌, Bool, true, false, ◌&&◌, not, Option, none, some,
  List, [], ◌∷◌, ◌++◌, ltb, ◌==◌, if◌then◌else◌, length, get_elem?, set,
}
use inty.Common.State.{Action, ◌>>=◌, pure}
use inty.Go.Kinds.{Kind, unknown, int, float, rank, Kinds, find}
use inty.Go.Kinds.Flow.{push_all, propagate, rounds, push_roots, flow}

-- The inner loop of the walks back along the edges: what is marked, and the work list.
unfoldable pub mark_each : List ℕ → List Bool → List ℕ → Option (List Bool × List ℕ)
mark_each [] marked work = some (marked, work)
mark_each (a ∷ sources) marked work = elim (get_elem? marked a) [
  | none ↦ none
  | some seen ↦
      mark_each sources (if seen then marked else set marked a true)
        (if seen then work else a ∷ work)
]

unfoldable pub mark_back : List (List ℕ) → ℕ → List Bool → List ℕ → Option (List Bool)
unfolding mark_each
mark_back back zero marked work = none
mark_back back (suc f) marked [] = some marked
mark_back back (suc f) marked (b ∷ work) = elim (get_elem? back b) [
  | none ↦ none
  | some sources ↦ elim (mark_each sources marked work) [
    | none ↦ none
    | some (marked1, work1) ↦ mark_back back f marked1 work1
  ]
]

abbrev pub is_float : Kind → Bool
is_float float = true
is_float _ = false

abbrev pub is_int_kind : Kind → Bool
is_int_kind int = true
is_int_kind _ = false

-- The places `from ..` whose kind is a float, the last on top, above `work`.
unfoldable pub push_floats : ℕ → List Kind → List ℕ → List ℕ
push_floats from [] work = work
push_floats from (k ∷ kind) work =
    push_floats (suc from) kind (if is_float k then from ∷ work else work)

-- Which places' values end up in a float place.
unfoldable pub reaches_float : List (List ℕ) → List Kind → Option (List Bool)
unfolding push_floats mark_back
reaches_float back kind =
    mark_back back (suc (length kind + length kind)) (map is_float kind) (push_floats 0 kind [])

-- The loop over the parameters: kinds, and the parameters that it made floats.
unfoldable pub float_params :
    List ℕ → List Bool → List Bool → List Kind → List ℕ → Option (List Kind × List ℕ)
float_params [] needed to_float kind floats = some (kind, floats)
float_params (r ∷ params) needed to_float kind floats = elim (get_elem? kind r) [
  | none ↦ none
  | some k ↦ elim (get_elem? needed r) [
    | none ↦ none
    | some n ↦ elim (get_elem? to_float r) [
      | none ↦ none
      | some t ↦
          let now = is_int_kind k && (not n && t) in
          float_params params needed to_float (if now then set kind r float else kind)
            (if now then r ∷ floats else floats)
    ]
  ]
]

abbrev pub is_empty : {A : Type 0} → List A → Bool
is_empty [] = true
is_empty (_ ∷ _) = false

-- The last loop of `solve`: until no parameter is made a float.
unfoldable pub settle :
    (out back : List (List ℕ)) (params : List ℕ) (needed : List Bool)
    → ℕ
    → List Kind
    → Option (List Kind)
unfolding reaches_float float_params propagate
settle out back params needed zero kind = none
settle out back params needed (suc f) kind = elim (reaches_float back kind) [
  | none ↦ none
  | some to_float ↦ elim (float_params params needed to_float kind []) [
    | none ↦ none
    | some (kind1, floats) ↦
        if is_empty floats
        then some kind1
        else elim (propagate out (rounds kind1 floats) kind1 floats) [
          | none ↦ none
          | some kind2 ↦ settle out back params needed f kind2
        ]
  ]
]

unfoldable pub find_each : List ℕ → Action Kinds (List ℕ)
unfolding find
find_each [] = pure []
find_each (v ∷ vs) = do r ← find v; rs ← find_each vs; pure (r ∷ rs)

unfoldable pub find_pairs : List (ℕ × ℕ) → Action Kinds (List (ℕ × ℕ))
unfolding find
find_pairs [] = pure []
find_pairs ((a, b) ∷ pairs) = do
  ra ← find a
  rb ← find b
  rest ← find_pairs pairs
  pure ((ra, rb) ∷ rest)

-- `from`, and the `k` numbers that follow.
abbrev pub range : ℕ → ℕ → List ℕ
range from zero = []
range from (suc k) = from ∷ range (suc from) k

abbrev pub read_each : List Kind → List ℕ → Option (List Kind)
read_each kind [] = some []
read_each kind (r ∷ rs) = elim (get_elem? kind r) [
  | none ↦ none
  | some k ↦ elim (read_each kind rs) [ none ↦ none | some ks ↦ some (k ∷ ks) ]
]

abbrev pub empties : {A : Type 0} → ℕ → List (List A)
empties zero = []
empties (suc n) = [] ∷ empties n

abbrev pub flip : List (ℕ × ℕ) → List (ℕ × ℕ)
flip [] = []
flip ((a, b) ∷ pairs) = (b, a) ∷ flip pairs

-- Both ways.
abbrev pub both : List (ℕ × ℕ) → List (ℕ × ℕ)
both [] = []
both ((a, b) ∷ pairs) = (a, b) ∷ (b, a) ∷ both pairs

abbrev pub unmarked : ℕ → List Bool
unmarked zero = []
unmarked (suc n) = false ∷ unmarked n

-- Which places are needed as integers.
unfoldable pub needed_of : List (List ℕ) → List ℕ → ℕ → Option (List Bool)
unfolding mark_each mark_back
needed_of back demanded n = elim (mark_each demanded (unmarked n) []) [
  | none ↦ none
  | some (needed, work) ↦ mark_back back (suc (length work + n)) needed work
]

abbrev pub lift : {A : Type 0} → Option A → Action Kinds A
lift o s = elim o [ none ↦ none | some a ↦ some (a, s) ]

-- The parts of `solve`: the edges between roots, their lists, and the least kinds,
unfoldable pub flow_edges : Action Kinds (List (ℕ × ℕ) × (List (List ℕ) × List Kind))
unfolding find_each find_pairs push_all push_roots flow
flow_edges s =
    (do
      places ← find_each (range 0 (length s.parent))
      kind ← lift (read_each s.lower places)
      edges ← find_pairs s.edges
      out ← lift (push_all edges (empties (length s.parent)))
      kind1 ← (λ t. lift (flow out (push_roots 0 t.parent []) kind) t)
      pure (edges, (out, kind1)))
      s

-- which places are needed as integers,
unfoldable pub need_places : List (ℕ × ℕ) → Action Kinds (List Bool)
unfolding find_each find_pairs push_all needed_of
need_places edges s =
    (do
      links ← find_pairs s.links
      back ← lift (push_all (flip edges ++ both links) (empties (length s.parent)))
      demanded ← find_each s.demanded
      lift (needed_of back demanded (length s.parent)))
      s

-- which parameters are floats,
unfoldable pub settle_params :
    List (ℕ × ℕ) → List (List ℕ) → List Bool → List Kind → Action Kinds (List Kind)
unfolding find_each push_all settle
settle_params edges out needed kind s =
    (do
      back_edges ← lift (push_all (flip edges) (empties (length s.parent)))
      params ← find_each s.params
      lift (settle out back_edges params needed (suc (length s.parent + length s.parent)) kind))
      s

-- and the kinds of all places.
unfoldable pub store : List Kind → Action Kinds (Unit {0})
unfolding find_each
store kind s =
    (do
      roots ← find_each (range 0 (length s.parent))
      solved ← lift (read_each kind roots)
      λ t. some (tt, record t { solved = solved }))
      s

unfoldable pub solve : Action Kinds (Unit {0})
unfolding flow_edges need_places settle_params store
solve = do
  (edges, (out, kind)) ← flow_edges
  needed ← need_places edges
  kind1 ← settle_params edges out needed kind
  store kind1

unfoldable pub is_int : Kinds → ℕ → Bool
is_int s v = elim (get_elem? s.solved v) [ none ↦ false | some k ↦ is_int_kind k ]
