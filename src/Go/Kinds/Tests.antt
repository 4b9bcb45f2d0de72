-- ===== src/Go/Kinds/Tests.antt =====
-- Runs of the analysis of kinds.
use inty.Common.{ℕ, ◌≡◌, refl, Bool, true, false, Option, none, some, List, [], ◌∷◌}
use inty.Common.State.{Action, ◌>>=◌}
use inty.Go.Kinds.{Kind, unknown, int, float, Kinds, fresh, climb, shorten, raise, edge, union}
use inty.Common.{zero, suc, ◌<◌, ◌≤◌, subst, arith, ==→eq, length}
use inty.Common.Distinct.{contains}
use inty.Infer.VarTable.Roots.{stop, hop, HasRoot, IsForest}
use inty.Infer.VarTable.Find.{Keeps}
use inty.Go.Kinds.{find}
use inty.Go.Kinds.Places.{cells_of, cells_from, cell_of, find-HasRoot}
use inty.Go.Kinds.Joined.{Joined, union-Joined}
use inty.Go.Kinds.Flow.{flow, all_float, unknown_of}
use inty.Go.Kinds.Flow.Step.{rank_at, Below}
use inty.Go.Kinds.Flow.Fixpoint.{IsEdge, IsGraph, IsLeast, edge-contains}
use inty.Go.Kinds.Flow.Known.{flow-IsLeast}
use inty.Go.Kinds.Solve.Placed.{IsPlaced}
use inty.Go.Kinds.Solve.{solve, is_int}
use inty.Go.Kinds.Solve.Solution.{Solved, solve-Solved}

abbrev start : Kinds
start = record {
  parent = [];
  lower = [];
  edges = [];
  demanded = [];
  links = [];
  params = [];
  solved = [];
}

abbrev answers : Option (Unit {0} × Kinds) → List ℕ → List Bool
unfolding is_int
answers none vs = []
answers (some (_, s)) [] = []
answers (some (_, s)) (v ∷ vs) = is_int s v ∷ answers (some (tt, s)) vs

-- 0 is an integer and 1 a float; 0 flows into 2 and 2 into 3, and 1 into 3.
abbrev four : Action Kinds (Unit {0})
four = do
  i ← fresh
  f ← fresh
  x ← fresh
  y ← fresh
  _ ← raise i int
  _ ← raise f float
  _ ← edge i x
  _ ← edge f y
  _ ← edge x y
  solve

four_kinds : answers (four start) (0 ∷ 1 ∷ 2 ∷ 3 ∷ []) ≡ true ∷ false ∷ true ∷ false ∷ []
unfolding fresh raise edge solve climb shorten is_int
four_kinds = refl

-- The places of `four` when all has been said of them, and 4 with 3 as its parent, a parameter.
abbrev five : Kinds
five = record {
  parent = 0 ∷ 1 ∷ 2 ∷ 3 ∷ 3 ∷ [];
  lower = int ∷ float ∷ unknown ∷ unknown ∷ unknown ∷ [];
  edges = (0, 2) ∷ (1, 4) ∷ (2, 3) ∷ [];
  demanded = 2 ∷ [];
  links = (0, 1) ∷ [];
  params = 4 ∷ [];
  solved = [];
}

five_is_int :
    answers (solve five) (0 ∷ 1 ∷ 2 ∷ 3 ∷ 4 ∷ []) ≡ true ∷ false ∷ true ∷ false ∷ false ∷ []
unfolding solve climb shorten is_int
five_is_int = refl

of_4 : HasRoot (cells_of five.parent) 4 3
unfolding cells_from cell_of
of_4 = (4 ∷ [], hop refl (stop refl tt))

five-IsForest : IsForest (cells_of five.parent)
unfolding cells_from cell_of
five-IsForest zero lt = (0, ([], stop refl tt))
five-IsForest (suc zero) lt = (1, ([], stop refl tt))
five-IsForest (suc (suc zero)) lt = (2, ([], stop refl tt))
five-IsForest (suc (suc (suc zero))) lt = (3, ([], stop refl tt))
five-IsForest (suc (suc (suc (suc zero)))) lt = (3, of_4)
five-IsForest (suc (suc (suc (suc (suc n))))) lt = absurd (omega arith)

five-IsPlaced : IsPlaced five
unfolding cells_from cell_of
five-IsPlaced = record {
  forest = five-IsForest;
  same_lower = refl;
  edges_in =
      (omega arith, (omega arith, (omega arith, (omega arith, (omega arith, (omega arith, tt))))));
  links_in = (omega arith, (omega arith, tt));
  demanded_in = (omega arith, tt);
  params_in = (omega arith, tt);
}

solve-Solved_example : (t : Kinds) × (solve five ≡ some (tt, t)) × Solved five t
solve-Solved_example = solve-Solved five five-IsPlaced

find-HasRoot_example :
    (parent : List ℕ) × (find 4 five ≡ some (3, record five { parent = parent }))
    × Keeps (cells_of five.parent) (cells_of parent)
find-HasRoot_example = find-HasRoot five 4 3 of_4

of_2 : HasRoot (cells_of five.parent) 2 2
unfolding cells_from cell_of
of_2 = ([], stop refl tt)

union-Joined_example : (t : Kinds) × (union 2 4 five ≡ some (tt, t)) × Joined five t 2 3
union-Joined_example = union-Joined five 2 4 2 3 refl of_2 of_4

-- 0 is an integer, and flows into 1; nothing flows into 2.
abbrev flows : List (List ℕ)
flows = (1 ∷ []) ∷ [] ∷ [] ∷ []

abbrev before : List Kind
before = int ∷ unknown ∷ unknown ∷ []

flows-IsGraph : IsGraph flows 3
flows-IsGraph = record { same_length = refl; targets = targets }
  where
    targets : (a b : ℕ) → IsEdge flows a b → b < 3
    targets zero b edge =
        let h : contains (1 ∷ []) b ≡ true = edge-contains flows 0 b (1 ∷ []) refl edge in
        subst (λ n. n < 3) (==→eq 1 b (ground arith)) (omega arith)
    targets (suc zero) b edge =
        let h : contains [] b ≡ true = edge-contains flows 1 b [] refl edge in cc
    targets (suc (suc zero)) b edge =
        let h : contains [] b ≡ true = edge-contains flows 2 b [] refl edge in cc
    targets (suc (suc (suc n))) b (_, e, _) = cc

flows-sources : (a b : ℕ) → IsEdge flows a b → contains (2 ∷ 1 ∷ 0 ∷ []) a ≡ true
flows-sources zero b edge = refl
flows-sources (suc zero) b edge = refl
flows-sources (suc (suc zero)) b edge = refl
flows-sources (suc (suc (suc n))) b (_, e, _) = cc

roots-in : (a : ℕ) → contains (2 ∷ 1 ∷ 0 ∷ []) a ≡ true → a < 3
roots-in zero h = omega arith
roots-in (suc zero) h = omega arith
roots-in (suc (suc zero)) h = omega arith
roots-in (suc (suc (suc n))) h = ground arith

flow-IsLeast_example :
    (kind1 kind2 : List Kind) × (flow flows (2 ∷ 1 ∷ 0 ∷ []) before ≡ some kind2)
    × IsLeast flows before kind1
    × IsLeast flows (all_float kind1 (unknown_of kind1 (2 ∷ 1 ∷ 0 ∷ []))) kind2
    × ((r : ℕ) → contains (2 ∷ 1 ∷ 0 ∷ []) r ≡ true → 1 ≤ rank_at kind2 r)
    × Below before (rank_at kind2)
    × (length kind2 ≡ length before)
flow-IsLeast_example =
    flow-IsLeast flows (2 ∷ 1 ∷ 0 ∷ []) before flows-IsGraph roots-in flows-sources
