-- ===== src/Infer/Zonk.antt =====
-- crates/inty/src/infer/zonk.rs: a type with the variables replaced that the table has bound. The
-- depth that `ApplySubstGuard` leaves is the fuel of the recursion; past it the type is `Error` and
-- the overflow is recorded. `Visited` serves a debug assertion alone and is left out.
pub mod Parts
pub mod Rebuilt
pub mod Expand
pub mod Tables
pub mod Simulation
pub mod Variables
pub mod Refines
pub mod Head
mod Tests
use inty.Common.{ℕ, zero, suc, Bool, true, false, Option, none, some, List, if◌then◌else◌}
use inty.Common.Dict.{has}
use inty.Types.Ty.{TVarName, flex, skolem, tvar_eq, Ty, var, error, Preds, Presence}
use inty.Types.Free.{TypeScheme}
use inty.Types.Subst.{Subst, apply_presence}
use inty.Infer.VarTable.{
  Resolution, unbound, link, bound, VarTable, Command, find, find_if_present, take_bound,
  restore_bound, root_resolution, is_free, bound_to,
}
use inty.Common.State.{Action, ◌>>=◌, pure}
use inty.Infer.Zonk.Parts.{Visitor, each_part, each_preds}

-- The table and the flag `APPLY_SUBST_OVERFLOWED`.
pub record Zonk : Type 0 where
  pub table : VarTable Ty
  pub overflowed : Bool

abbrev pub on_table : {A : Type 0} → Command Ty A → Action Zonk A
on_table m s = elim (m s.table) [ none ↦ none | some (a, t) ↦ some (a, record s { table = t }) ]

-- `let Some(_guard) = ApplySubstGuard::try_enter() else { return Type::Error; }` at the limit.
abbrev pub too_deep : Action Zonk Ty
too_deep s = some (error, record s { overflowed = true })

-- A flexible variable. `z` is the call on what it is bound to.
unfoldable pub zonk_bound : (Ty → Action Zonk Ty) → ℕ → Option Ty → Action Zonk Ty
unfolding restore_bound
zonk_bound z root none = pure (var (flex root))
zonk_bound z root (some ty) = do result ← z ty; _ ← on_table (restore_bound root ty); pure result

unfoldable pub zonk_var : (Ty → Action Zonk Ty) → ℕ → Action Zonk Ty
unfolding find_if_present take_bound zonk_bound
zonk_var z id = do
  found ← on_table (find_if_present id)
  elim found [
    | none ↦ pure (var (flex id))
    | some root ↦ (do content ← on_table (take_bound root); zonk_bound z root content)
  ]

-- A row's variable, which is looked up but not expanded.
unfoldable pub zonk_tail : TVarName → Action Zonk TVarName
unfolding find_if_present
zonk_tail (skolem n) = pure (skolem n)
zonk_tail (flex id) = do
  found ← on_table (find_if_present id)
  elim found [ none ↦ pure (flex id) | some root ↦ pure (flex root) ]

-- A flexible variable of a scheme that does not quantify it.
unfoldable pub filtered_var : (Ty → Action Zonk Ty) → ℕ → Action Zonk Ty
unfolding root_resolution find
filtered_var z id = do
  content ← on_table (root_resolution id)
  elim content [
    | unbound _ _ ↦ (do root ← on_table (find id); pure (var (flex root)))
    | bound ty ↦ z ty
    | link _ ↦ pure (var (flex id))
  ]

unfoldable pub filtered_tail : List TVarName → TVarName → Action Zonk TVarName
unfolding is_free find
filtered_tail quantified (skolem n) = pure (skolem n)
filtered_tail quantified (flex id) = if has quantified (flex id) then pure (flex id) else (do
  free ← on_table (is_free id)
  elim free [ true ↦ (do root ← on_table (find id); pure (flex root)) | false ↦ pure (flex id) ])

module _ (subst : Subst) where
  unfoldable pub zonk_filtered : ℕ → List TVarName → Ty → Action Zonk Ty
  unfolding each_part apply_presence filtered_var filtered_tail
  zonk_filtered zero quantified t = too_deep
  zonk_filtered (suc depth) quantified (var (skolem n)) = pure (var (skolem n))
  zonk_filtered (suc depth) quantified (var (flex id)) =
      if has quantified (flex id)
      then pure (var (flex id))
      else filtered_var (zonk_filtered depth quantified) id
  zonk_filtered (suc depth) quantified t =
      each_part
        (record {
          visit = zonk_filtered depth quantified;
          param_presence = apply_presence subst;
          field_presence = λ p. p;
          open_tail = filtered_tail quantified;
          in_scheme = zonk_filtered depth;
        })
        t

  -- `zonk_with_visited`
  unfoldable pub zonk : ℕ → Ty → Action Zonk Ty
  unfolding each_part apply_presence zonk_var zonk_tail zonk_filtered
  zonk zero t = too_deep
  zonk (suc depth) (var (skolem n)) = pure (var (skolem n))
  zonk (suc depth) (var (flex id)) = zonk_var (zonk depth) id
  zonk (suc depth) t =
      each_part
        (record {
          visit = zonk depth;
          param_presence = apply_presence subst;
          field_presence = apply_presence subst;
          open_tail = zonk_tail;
          in_scheme = zonk_filtered depth;
        })
        t

  unfoldable pub zonk_scheme : ℕ → TypeScheme → Action Zonk TypeScheme
  unfolding each_preds zonk_filtered
  zonk_scheme depth s = do
    preds ← each_preds (zonk_filtered depth s.vars) s.preds
    ty ← zonk_filtered depth s.vars s.ty
    pure (record { vars = s.vars; pvars = s.pvars; preds = preds; ty = ty })
