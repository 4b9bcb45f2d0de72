-- ===== src/Infer/VarTable/Rollback/Present.antt =====
-- The look-ups that give none past the end of the table record their writes too.
use inty.Common.{ℕ, subst, some, ltb, length, Bool-cases, inl, inr, Option, none, arith}
use inty.Infer.VarTable.{
  Resolution, find, find_if_present, root_resolution_if_present, cell, ◌>>=◌, pure,
}
use inty.Infer.VarTable.Rollback.{Grown, Grown-refl}
use inty.Infer.VarTable.Rollback.Commands.{
  Records, >>=-Records, pure-Records, find-Records, cell-Records,
}

module _ {T : Type 0} where
  pub find_if_present-Records : (id : ℕ) → Records {T = T} (find_if_present id)
  unfolding find_if_present
  find_if_present-Records id s a t e = elim (Bool-cases (ltb id (length s.cells))) [
    | inl there ↦
        >>=-Records (find id) (λ root. pure (some root)) (find-Records id)
          (λ root. pure-Records (some root)) s a t (ground arith)
    | inr beyond ↦ subst (Grown s) (ground arith) (Grown-refl s)
  ]

  pub root_resolution_if_present-Records :
      (id : ℕ) → Records {T = T} (root_resolution_if_present id)
  unfolding root_resolution_if_present
  root_resolution_if_present-Records id =
      >>=-Records (find_if_present id) _ (find_if_present-Records id) λ found. content found
    where
      content :
          (found : Option ℕ)
          → Records {T = T} {A = Option (Resolution T)}
              (elim found [ none ↦ pure none | some root ↦ (cell root >>= λ c. pure (some c)) ])
      content none = pure-Records none
      content (some root) =
          >>=-Records (cell root) (λ c. pure (some c)) (cell-Records root)
            λ c. pure-Records (some c)
