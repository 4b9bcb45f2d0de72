-- ===== src/Infer/Zonk/Tests.antt =====
-- Runs of `zonk`, `zonk_scheme` and the look-ups of a head on a small table.
use inty.Common.{ℕ, zero, suc, ◌≡◌, refl, false, some, [], ◌∷◌, arith}
use inty.Types.Ty.{Ty, flex, var, number, array, promise, no_preds}
use inty.Types.Free.{TypeScheme}
use inty.Types.Subst.{empty}
use inty.Infer.VarTable.{unbound, link, bound, VarTable, walk, compress, repoint}
use inty.Infer.VarTable.Roots.{stop, hop, IsForest}
use inty.Infer.VarTable.Find.{Keeps}
use inty.Infer.Zonk.{Zonk, zonk, zonk_scheme}
use inty.Infer.Zonk.Expand.{expand, expand_scheme}
use inty.Infer.Zonk.Simulation.{Same}
use inty.Infer.Zonk.Refines.{zonk-expand, zonk_scheme-expand_scheme}
use inty.Infer.Zonk.Head.{Head, into_owned, zonk_head_cow, with_head}
use inty.Infer.Zonk.Head.Reads.{with_head-zonk_head_cow}

-- 0 is linked to the free root 1, 2 is bound to an array of 0, and 3 is bound to 2.
abbrev start : Zonk
start = record {
  table = record {
    cells = link 1 ∷ unbound 0 1 ∷ bound (array (var (flex 0))) ∷ bound (var (flex 2)) ∷ [];
    trail = [];
    current_level = 0;
  };
  overflowed = false;
}

start-IsForest : IsForest start.table.cells
start-IsForest zero lt = (1, (0 ∷ [], hop refl (stop refl tt)))
start-IsForest (suc zero) lt = (1, ([], stop refl tt))
start-IsForest (suc (suc zero)) lt = (2, ([], stop refl tt))
start-IsForest (suc (suc (suc zero))) lt = (3, ([], stop refl tt))
start-IsForest (suc (suc (suc (suc n)))) lt = absurd (omega arith)

-- Of 0 alone in a promise, with 3 beside it quantified.
abbrev scheme : TypeScheme
scheme = record { vars = flex 3 ∷ []; pvars = []; preds = no_preds; ty = promise (var (flex 2)) }

zonk_promise :
    zonk empty 5 (promise (var (flex 3))) start ≡ some (promise (array (var (flex 1))), start)
unfolding zonk walk compress repoint
zonk_promise = refl

zonk_quantified :
    zonk_scheme empty 5 scheme start
    ≡ some (record scheme { ty = promise (array (var (flex 1))) }, start)
unfolding zonk_scheme walk compress repoint
zonk_quantified = refl

-- 0 is linked to 1, which is bound to a number.
abbrev linked : Zonk
linked = record {
  table = record { cells = link 1 ∷ bound number ∷ []; trail = []; current_level = 0 };
  overflowed = false;
}

-- Of 0, with its root quantified.
abbrev of_linked : TypeScheme
of_linked = record { vars = flex 1 ∷ []; pvars = []; preds = no_preds; ty = var (flex 0) }

zonk_quantified_root :
    zonk_scheme empty 5 of_linked linked ≡ some (record of_linked { ty = number }, linked)
unfolding zonk_scheme walk compress repoint
zonk_quantified_root = refl

zonk-expand_example :
    Same start.table.cells
      (zonk empty 5 (promise (var (flex 3))) start)
      (expand empty 5 start.table.cells (promise (var (flex 3))) false)
zonk-expand_example = zonk-expand empty 5 (promise (var (flex 3))) start start-IsForest

zonk_scheme-expand_scheme_example :
    Same start.table.cells
      (zonk_scheme empty 5 scheme start)
      (expand_scheme empty 5 start.table.cells scheme false)
zonk_scheme-expand_scheme_example = zonk_scheme-expand_scheme empty 5 scheme start start-IsForest

abbrev is_array : Ty → ℕ
is_array (array _) = 1
is_array _ = 0

with_head-zonk_head_cow_example :
    (h : Head) × (u v : VarTable Ty) × (zonk_head_cow (var (flex 3)) start.table ≡ some (h, u))
    × (with_head is_array (var (flex 3)) start.table ≡ some (is_array (into_owned h), v))
    × Keeps start.table.cells u.cells
    × Keeps start.table.cells v.cells
with_head-zonk_head_cow_example =
    with_head-zonk_head_cow is_array (var (flex 3)) start.table start-IsForest
