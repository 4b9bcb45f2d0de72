-- ===== src/Infer/Zonk/Head/Meaning.antt =====
-- The head of a variable, read off the cells of a table.
use inty.Common.{ℕ, zero, suc, ◌≡◌, sym, ◌∙◌, Option, none, some, get_elem?, ap}
use inty.Types.Ty.{Ty, flex, var}
use inty.Infer.VarTable.{Resolution, unbound, link, bound, VarTable, Command, ◌>>=◌}
use inty.Infer.VarTable.Find.{Keeps}
use inty.Infer.Zonk.Expand.{Cells, root_of}
use inty.Infer.Zonk.Head.{as_flex}

-- What a root with this content leads to; `go` continues at a variable.
unfoldable pub head_at : (ℕ → Ty) → ℕ → Resolution Ty → Ty
unfolding as_flex
head_at go root (bound ty) = elim (as_flex ty) [ some next ↦ go next | none ↦ ty ]
head_at go root (unbound _ _) = var (flex root)
head_at go root (link _) = var (flex root)

-- The head of a variable in the cells, at most `k` bindings away.
unfoldable pub head_of : Cells → ℕ → ℕ → Ty
unfolding root_of head_at
head_of cells zero id = var (flex id)
head_of cells (suc k) id = elim (root_of cells id) [
  | none ↦ var (flex id)
  | some root ↦ elim (get_elem? cells root) [
    | none ↦ var (flex root)
    | some c ↦ head_at (head_of cells k) root c
  ]
]

pub bind-some :
    {A B : Type 0} (m : Command Ty A) (f : A → Command Ty B) {a : A} {t u : VarTable Ty}
    → m t ≡ some (a, u)
    → (m >>= f) t ≡ f a u
bind-some m f e = ap (λ o. elim o [ none ↦ none | some (a, t') ↦ f a t' ]) e

-- A command returns a result that `view` shows as `b`, and keeps `cells`.
pub record Returns {A B : Type 0} (cells : Cells) (m : Option (A × VarTable Ty)) (view : A → B)
    (b : B) : Type 0 where
  pub result : A
  pub after : VarTable Ty
  pub returns : m ≡ some (result, after)
  pub value : view result ≡ b
  pub keeps : Keeps cells after.cells

pub Returns-by :
    {A B : Type 0} (cells : Cells) {m m' : Option (A × VarTable Ty)} (view : A → B) {b b' : B}
    → m ≡ m'
    → b ≡ b'
    → Returns cells m' view b'
    → Returns cells m view b
Returns-by cells view e f r = record {
  result = r.result;
  after = r.after;
  returns = e ∙ r.returns;
  value = r.value ∙ sym f;
  keeps = r.keeps;
}
