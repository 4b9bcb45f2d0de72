-- ===== src/Infer/Zonk/Expand.antt =====
-- What `zonk` means: the types that the cells of a table stand for, without a change of any cell.
-- The cells are an argument; below what a root is bound to, that root counts as unbound.
use inty.Common.{
  ℕ, zero, suc, Bool, true, Option, none, some, List, if◌then◌else◌, ltb, length, get_elem?, set,
}
use inty.Common.Dict.{has}
use inty.Types.Ty.{TVarName, flex, skolem, tvar_eq, Ty, var, error}
use inty.Types.Free.{TypeScheme}
use inty.Types.Subst.{Subst, apply_presence}
use inty.Infer.VarTable.{Resolution, unbound, bound, at_root, cycle, out_of_range, walk}
use inty.Common.State.{Action, ◌>>=◌, pure}
use inty.Infer.Zonk.Rebuilt.{rebuilt, rebuilt_preds}

abbrev pub Cells : Type 0
Cells = List (Resolution Ty)

-- The root of an id, and what is there.
unfoldable pub root_of : Cells → ℕ → Option ℕ
unfolding walk
root_of cells id = elim (walk cells (suc (length cells)) id) [
  | at_root _ r ↦ some r
  | cycle ↦ none
  | out_of_range ↦ none
]

-- An action on the root of an id, or none.
abbrev pub at_root_of : {A : Type 0} → Cells → ℕ → (ℕ → Action Bool A) → Action Bool A
at_root_of cells id f s = elim (root_of cells id) [ none ↦ none | some r ↦ f r s ]

unfoldable pub expand_content :
    (Cells → Ty → Action Bool Ty) → Cells → ℕ → Option (Resolution Ty) → Action Bool Ty
expand_content z cells root (some (bound ty)) = z (set cells root (unbound 0 0)) ty
expand_content z cells root _ = pure (var (flex root))

unfoldable pub expand_var : (Cells → Ty → Action Bool Ty) → Cells → ℕ → Action Bool Ty
unfolding root_of expand_content
expand_var z cells id =
    if ltb id (length cells)
    then at_root_of cells id (λ root. expand_content z cells root (get_elem? cells root))
    else pure (var (flex id))

unfoldable pub expand_tail : Cells → TVarName → Action Bool TVarName
unfolding root_of
expand_tail cells (skolem n) = pure (skolem n)
expand_tail cells (flex id) =
    if ltb id (length cells) then at_root_of cells id (λ root. pure (flex root)) else pure (flex id)

-- In a scheme the root stays bound below its content.
unfoldable pub content_in_scheme :
    (Ty → Action Bool Ty) → ℕ → Option (Resolution Ty) → Action Bool Ty
content_in_scheme z root (some (bound ty)) = z ty
content_in_scheme z root _ = pure (var (flex root))

unfoldable pub var_in_scheme : (Ty → Action Bool Ty) → Cells → ℕ → Action Bool Ty
unfolding root_of content_in_scheme
var_in_scheme z cells id =
    at_root_of cells id (λ root. content_in_scheme z root (get_elem? cells root))

abbrev pub free_root : ℕ → ℕ → Option (Resolution Ty) → TVarName
free_root id root (some (unbound _ _)) = flex root
free_root id root _ = flex id

unfoldable pub tail_in_scheme : List TVarName → Cells → TVarName → Action Bool TVarName
unfolding root_of
tail_in_scheme quantified cells (skolem n) = pure (skolem n)
tail_in_scheme quantified cells (flex id) =
    if has quantified (flex id)
    then pure (flex id)
    else at_root_of cells id (λ root. pure (free_root id root (get_elem? cells root)))

abbrev pub overflow : Action Bool Ty
overflow s = some (error, true)

module _ (subst : Subst) where
  unfoldable pub expand_in_scheme : ℕ → Cells → List TVarName → Ty → Action Bool Ty
  unfolding rebuilt apply_presence var_in_scheme tail_in_scheme
  expand_in_scheme zero cells quantified t = overflow
  expand_in_scheme (suc depth) cells quantified (var (skolem n)) = pure (var (skolem n))
  expand_in_scheme (suc depth) cells quantified (var (flex id)) =
      if has quantified (flex id)
      then pure (var (flex id))
      else var_in_scheme (expand_in_scheme depth cells quantified) cells id
  expand_in_scheme (suc depth) cells quantified t =
      rebuilt
        (record {
          part = expand_in_scheme depth cells quantified;
          presence_of_param = apply_presence subst;
          presence_of_field = λ p. p;
          row_var = tail_in_scheme quantified cells;
          part_of_scheme = expand_in_scheme depth cells;
        })
        t

  unfoldable pub expand : ℕ → Cells → Ty → Action Bool Ty
  unfolding rebuilt apply_presence expand_var expand_tail expand_in_scheme
  expand zero cells t = overflow
  expand (suc depth) cells (var (skolem n)) = pure (var (skolem n))
  expand (suc depth) cells (var (flex id)) = expand_var (expand depth) cells id
  expand (suc depth) cells t =
      rebuilt
        (record {
          part = expand depth cells;
          presence_of_param = apply_presence subst;
          presence_of_field = apply_presence subst;
          row_var = expand_tail cells;
          part_of_scheme = expand_in_scheme depth cells;
        })
        t

  unfoldable pub expand_scheme : ℕ → Cells → TypeScheme → Action Bool TypeScheme
  unfolding expand_in_scheme
  expand_scheme depth cells s = do
    preds ← rebuilt_preds (expand_in_scheme depth cells s.vars) s.preds
    ty ← expand_in_scheme depth cells s.vars s.ty
    pure (record { vars = s.vars; pvars = s.pvars; preds = preds; ty = ty })
