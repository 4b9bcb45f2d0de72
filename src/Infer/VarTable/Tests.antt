-- ===== src/Infer/VarTable/Tests.antt =====
-- Runs of the union-find table on small inputs.
use inty.Common.{
  ℕ, zero, suc, ◌+◌, ◌≤◌, ◌≡◌, refl, some, List, [], ◌∷◌, ◌++◌, arith, length, get_elem?,
}
use inty.Infer.VarTable.{
  Resolution, unbound, link, bound, VarTable, walk, compress, repoint, ◌>>◌, find, fresh, union,
  bind, root_resolution, restore, snapshot,
}
use inty.Infer.VarTable.Roots.{stop, hop, HasRoot, IsForest, Chase}
use inty.Infer.VarTable.Find.{Compressed}
use inty.Infer.VarTable.Union.{union-Merged, Merged}
use inty.Infer.VarTable.Binding.{bind-root_resolution}
use inty.Infer.VarTable.Rollback.{AllUnbound}
use inty.Infer.VarTable.Rollback.Runs.{
  Op, op_bind, op_union, op_fresh, op_find, op_restore, run, restore-run,
}
use inty.Infer.VarTable.Forest.{find-IsForest, fresh-IsForest, restore-IsForest}

-- Two links lead from 0 to 2; 3 is unbound, and 4 is bound.
abbrev small : VarTable ℕ
small = record {
  cells = link 1 ∷ link 2 ∷ unbound 0 1 ∷ unbound 1 0 ∷ bound 7 ∷ [];
  trail = [];
  current_level = 1;
}

root_of_0 : HasRoot small.cells 0 2
root_of_0 = (0 ∷ 1 ∷ [], hop refl (hop refl (stop refl tt)))

root_of_3 : HasRoot small.cells 3 3
root_of_3 = ([], stop refl tt)

small-IsForest : IsForest small.cells
small-IsForest zero lt = (2, root_of_0)
small-IsForest (suc zero) lt = (2, (1 ∷ [], hop refl (stop refl tt)))
small-IsForest (suc (suc zero)) lt = (2, ([], stop refl tt))
small-IsForest (suc (suc (suc zero))) lt = (3, root_of_3)
small-IsForest (suc (suc (suc (suc zero)))) lt = (4, ([], stop refl tt))
small-IsForest (suc (suc (suc (suc (suc n))))) lt = absurd (omega arith)

find_compresses :
    find 0 small
    ≡ some (
      2,
      record small {
        cells = link 2 ∷ link 2 ∷ unbound 0 1 ∷ unbound 1 0 ∷ bound 7 ∷ [];
        trail = (0, link 1) ∷ [];
      },
    )
unfolding find walk compress repoint
find_compresses = refl

-- Binding, merging and allocating, with a nested rollback.
abbrev ops : List (Op ℕ)
ops = op_union 0 3 ∷ op_find 0 ∷ op_fresh ∷ op_bind 5 9 ∷ op_restore 3 ∷ []

abbrev after : VarTable ℕ
after = record {
  cells = link 2 ∷ link 2 ∷ unbound 0 1 ∷ link 2 ∷ bound 7 ∷ unbound 1 0 ∷ [];
  trail = (2, unbound 0 1) ∷ (3, unbound 1 0) ∷ (0, link 1) ∷ [];
  current_level = 1;
}

run-ops : run ops small ≡ some (tt, after)
unfolding run find walk compress repoint union fresh bind restore
run-ops = refl

find-IsForest_example :
    (r : ℕ) × (t' : VarTable ℕ) × (find 0 small ≡ some (r, t'))
    × HasRoot small.cells 0 r
    × Compressed small t'
    × IsForest t'.cells
    × ((q : List ℕ) × Chase t'.cells 0 q r × (length q ≤ 1))
find-IsForest_example = find-IsForest small 0 small-IsForest (omega arith)

union-Merged_example :
    (t' : VarTable ℕ) × (union 0 3 small ≡ some (tt, t')) × Merged small t' 2 3 0 1 1 0
union-Merged_example =
    union-Merged small 0 3 2 3 0 1 1 0 root_of_0 root_of_3 refl refl (omega arith)

bind-root_resolution_example :
    (t' : VarTable ℕ) × ((bind 0 5 >> root_resolution 2) small ≡ some (bound 5, t'))
bind-root_resolution_example =
    bind-root_resolution small 0 2 2 0 1 5 root_of_0 ([], stop refl tt) refl

fresh-IsForest_example :
    (t' : VarTable ℕ) × (fresh small ≡ some (5, t'))
    × (get_elem? t'.cells 5 ≡ some (unbound 1 0))
    × ((i s : ℕ) → HasRoot small.cells i s → HasRoot t'.cells i s)
    × IsForest t'.cells
fresh-IsForest_example = fresh-IsForest small small-IsForest (omega arith)

restore-run_example :
    (extra : List (Resolution ℕ)) × (restore (snapshot small) after
      ≡ some (tt, record after { cells = small.cells ++ extra; trail = small.trail }))
    × (length after.cells ≡ length small.cells + length extra)
    × AllUnbound extra
unfolding snapshot
restore-run_example = restore-run ops small after (omega arith, tt) run-ops

restore-IsForest_example :
    (u : VarTable ℕ) × (restore (snapshot small) after ≡ some (tt, u))
    × IsForest u.cells
    × ((i r : ℕ) → HasRoot small.cells i r → HasRoot u.cells i r)
unfolding snapshot
restore-IsForest_example = restore-IsForest ops small after small-IsForest (omega arith, tt) run-ops
