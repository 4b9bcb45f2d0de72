-- ===== src/Types/Tidy/Moved.antt =====
-- crates/inty/src/types/tidy.rs: renamed variables get the names that the variables had got.
use inty.Common.{ℕ, ◌≡◌, refl, List, [], ◌∷◌, map as map_list, Option-cases, inl, inr}
use inty.Common.Dict.{lookup}
use inty.Types.Tidy.Keys.{move, lookup-move, insert-move}
use inty.Types.Ty.{TVarName, PVarName, tvar_eq, pvar_eq, Presence, pre, abs}
use inty.Types.Tidy.{
  TidyEnv, rename_tvar, rename_pvar, rename_presence, rename_tvars, rename_pvars, with_id, with_pid,
}
use inty.Types.Tidy.Renamed.{Renaming, rename_with}

-- Other names for the variables: different ones for different ones, flexible ones for flexible ones.
pub record IsInjective (f : TVarName → TVarName) (g : PVarName → PVarName) : Type 0 where
  pub tvar_inj : (a b : TVarName) → f a ≡ f b → a ≡ b
  pub pvar_inj : (a b : PVarName) → g a ≡ g b → a ≡ b
  pub tvar_kind : (v : TVarName) (n : ℕ) → with_id (f v) n ≡ with_id v n
  pub pvar_kind : (v : PVarName) (n : ℕ) → with_pid (g v) n ≡ with_pid v n

module _ (f : TVarName → TVarName) (g : PVarName → PVarName) where
  abbrev pub renaming : Renaming
  renaming = record { tvar = f; pvar = g; tvars = map_list f; pvars = map_list g }

module _ (f : TVarName → TVarName) (g : PVarName → PVarName) (i : IsInjective f g) where
  abbrev pub moved : TidyEnv → TidyEnv
  moved e = record e { type_vars = move f e.type_vars; presence_vars = move g e.presence_vars }

  abbrev r : Renaming
  r = renaming f g

  pub rename_tvar-moved :
      (v : TVarName) (e : TidyEnv)
      → rename_tvar (f v) (moved e) ≡ ((rename_tvar v e).0, moved (rename_tvar v e).1)
  unfolding rename_tvar
  rename_tvar-moved v e =
      let found = lookup-move f i.tvar_inj v e.type_vars in
      elim (Option-cases (lookup v e.type_vars)) [
        | inl h ↦
            rw
              (
                rename_tvar,
                found,
                h,
                i.tvar_kind v e.next_type,
                insert-move f i.tvar_inj v e.next_type e.type_vars,
              )
              refl
        | inr (n, h) ↦ rw (rename_tvar, found, h, i.tvar_kind v n) refl
      ]

  pub rename_pvar-moved :
      (v : PVarName) (e : TidyEnv)
      → rename_pvar (g v) (moved e) ≡ ((rename_pvar v e).0, moved (rename_pvar v e).1)
  unfolding rename_pvar
  rename_pvar-moved v e =
      let found = lookup-move g i.pvar_inj v e.presence_vars in
      elim (Option-cases (lookup v e.presence_vars)) [
        | inl h ↦
            rw
              (
                rename_pvar,
                found,
                h,
                i.pvar_kind v e.next_presence,
                insert-move g i.pvar_inj v e.next_presence e.presence_vars,
              )
              refl
        | inr (n, h) ↦ rw (rename_pvar, found, h, i.pvar_kind v n) refl
      ]

  pub rename_presence-moved :
      (p : Presence) (e : TidyEnv)
      → rename_presence (rename_with g p) (moved e)
        ≡ ((rename_presence p e).0, moved (rename_presence p e).1)
  unfolding rename_presence rename_with
  rename_presence-moved pre e = refl
  rename_presence-moved abs e = refl
  rename_presence-moved (Presence.var v) e = rw (rename_pvar-moved v e) refl

  pub rename_tvars-moved :
      (vs : List TVarName) (e : TidyEnv)
      → rename_tvars (map_list f vs) (moved e)
        ≡ ((rename_tvars vs e).0, moved (rename_tvars vs e).1)
  unfolding rename_tvars
  rename_tvars-moved [] e = refl
  rename_tvars-moved (v ∷ vs) e =
      rw (rename_tvar-moved v e, rename_tvars-moved vs (rename_tvar v e).1) refl

  pub rename_pvars-moved :
      (vs : List PVarName) (e : TidyEnv)
      → rename_pvars (map_list g vs) (moved e)
        ≡ ((rename_pvars vs e).0, moved (rename_pvars vs e).1)
  unfolding rename_pvars
  rename_pvars-moved [] e = refl
  rename_pvars-moved (v ∷ vs) e =
      rw (rename_pvar-moved v e, rename_pvars-moved vs (rename_pvar v e).1) refl
