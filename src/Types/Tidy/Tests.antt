-- ===== src/Types/Tidy/Tests.antt =====
-- Tidying of small types.
use inty.Common.{ℕ, ◌+◌, ◌≡◌, ◌≢◌, refl, none, [], ◌∷◌, arith}
use inty.Types.Ty.{
  TVarName, PVarName, flex, skolem, pre, Ty, var, func, row, this, param, no_params, prop, no_props,
  open_, no_preds, tvar_eq, Presence,
}
use inty.Types.Free.{TypeScheme}
use inty.Types.Tidy.{TidyEnv, new, tidy_type, tidy_scheme}
use inty.Types.Tidy.Names.{IsNumbered, Extends, tidy_type-IsNumbered, tidy_type-distinct}
use inty.Types.Tidy.Renamed.{names, rename_scheme}
use inty.Types.Tidy.Refines.{tidy_scheme-rename}
use inty.Types.Tidy.Moved.{IsInjective, renaming}
use inty.Types.Tidy.Canonical.{tidy_scheme-rename_scheme}

-- `(this: 3, 7, { x?: 12 | … 7 }) => 12`
abbrev method : Ty
method =
    func (this (var (flex 3)))
      (param pre (var (flex 7)) none (
        param pre
          (row (prop "x" (Presence.var (PVarName.flex 5)) (var (skolem 12)) pre pre no_props)
            (open_ (flex 7)))
          none no_params))
      (var (skolem 12))

abbrev behind : TidyEnv
behind = record {
  type_vars = (flex 7, 0) ∷ (skolem 12, 1) ∷ (flex 3, 2) ∷ [];
  next_type = 3;
  presence_vars = (PVarName.flex 5, 0) ∷ [];
  next_presence = 1;
}

-- The hidden `this` is named last.
tidy_method : tidy_type method new ≡ (
  func
      (this (var (flex 2)))
      (param pre (var (flex 0)) none (
        param pre
          (row
            (prop "x" (Presence.var (PVarName.flex 0)) (var (skolem 1)) pre pre no_props)
            (open_ (flex 0)))
          none
          no_params))
      (var (skolem 1)),
  behind,
)
unfolding tidy_type
tidy_method = refl

tidy_type-IsNumbered_example :
    IsNumbered (tidy_type method new).1 × Extends new (tidy_type method new).1
tidy_type-IsNumbered_example = tidy_type-IsNumbered method new (refl, refl)

names_differ : ◌≢◌ {A = TVarName} (flex 7) (skolem 12)
names_differ h = ground arith

tidy_type-distinct_example : ◌≢◌ {A = ℕ} 0 1
unfolding tidy_type
tidy_type-distinct_example =
    tidy_type-distinct method new (flex 7) (skolem 12) 0 1 (refl, refl) (omega arith) names_differ
      refl refl

abbrev scheme : TypeScheme
scheme = record {
  vars = skolem 12 ∷ flex 7 ∷ [];
  pvars = PVarName.flex 5 ∷ [];
  preds = no_preds;
  ty = method;
}

tidy_scheme-rename_example :
    (tidy_scheme scheme new).0 ≡ rename_scheme (names (tidy_scheme scheme new).1) scheme
tidy_scheme-rename_example = tidy_scheme-rename scheme new

abbrev later : TVarName → TVarName
later (flex n) = flex (n + 100)
later (skolem n) = skolem (n + 7)

abbrev later_presence : PVarName → PVarName
later_presence (PVarName.flex n) = PVarName.flex (n + 2)
later_presence (PVarName.skolem n) = PVarName.skolem n

later-inj : (a b : TVarName) → later a ≡ later b → a ≡ b
later-inj a b h = ground arith

later_presence-inj : (a b : PVarName) → later_presence a ≡ later_presence b → a ≡ b
later_presence-inj a b h = ground arith

later-IsInjective : IsInjective later later_presence
later-IsInjective = record {
  tvar_inj = later-inj;
  pvar_inj = later_presence-inj;
  tvar_kind = λ v n. ground arith;
  pvar_kind = λ v n. ground arith;
}

tidy_scheme-rename_scheme_example :
    (tidy_scheme (rename_scheme (renaming later later_presence) scheme) new).0
    ≡ (tidy_scheme scheme new).0
tidy_scheme-rename_scheme_example =
    tidy_scheme-rename_scheme later later_presence later-IsInjective scheme
