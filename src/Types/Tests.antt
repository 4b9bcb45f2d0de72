-- ===== src/Types/Tests.antt =====
-- A substitution with a chain of three type variables, a cycle, and a chain of presences.
use inty.Common.{ℕ, ◌≡◌, refl, ◌⊎◌, some, [], ◌∷◌}
use inty.Types.Ty.{
  TVarName, flex, PVarName, Presence, pre, Ty, number, boolean, array, var, tvar_eq, pvar_eq,
}
use inty.Types.Subst.{
  Subst, mark, undo_to, get, get_presence, insert, insert_presence, remove, resolve,
  resolve_presence,
}
use inty.Types.Subst.Rollback.{
  Run, start, inserts, inserts_presence, removes, resolves, speculates, undo_to-Run,
}
use inty.Types.Subst.Resolve.{Resolved, resolve-Resolved}
use inty.Types.Subst.Chain.{Ends}
use inty.Types.Subst.Presences.{at_pre, hop, resolve_presence-Leads}

abbrev v : ℕ → TVarName
v n = flex n

abbrev p : ℕ → PVarName
p n = flex n

-- 0 ↦ 1 ↦ 2 ↦ array number, 4 ↦ 5 ↦ 4
abbrev chain : Subst
chain = record {
  map =
      (v 0, var (v 1))
      ∷ (v 1, var (v 2))
      ∷ (v 2, array number)
      ∷ (v 4, var (v 5))
      ∷ (v 5, var (v 4))
      ∷ [];
  presences = (p 0, Presence.var (p 1)) ∷ (p 1, pre) ∷ [];
  trail = some [];
}

resolved : (resolve (v 0) chain).0 ≡ some (array number)
unfolding resolve
resolved = refl

cycle_stays : resolve (v 4) chain ≡ (some (var (v 4)), chain)
unfolding resolve
cycle_stays = refl

-- A binding, an inner speculation that is undone, a removal and a compressing lookup.
inner : Run chain (
    undo_to
      (mark (insert (v 3) boolean chain))
      (insert_presence (p 2) pre (remove (v 1) (insert (v 3) boolean chain))))
inner = speculates (inserts (v 3) boolean start) (inserts_presence (p 2) pre (removes (v 1) start))

abbrev last : Subst
last =
    (resolve (v 0) (
      undo_to (mark (insert (v 3) boolean chain))
        (insert_presence (p 2) pre (remove (v 1) (insert (v 3) boolean chain))))).1

undo_to-Run_example :
    ((undo_to (mark chain) last).trail ≡ chain.trail)
    × ((w : TVarName) → get (undo_to (mark chain) last) w ≡ get chain w)
    × ((q : PVarName) → get_presence (undo_to (mark chain) last) q ≡ get_presence chain q)
undo_to-Run_example = undo_to-Run [] refl (resolves (v 0) inner)

resolve-Resolved_example :
    ((end : Ty) × Resolved chain (v 0) end)
    ⊎ (((end : Ty) → ¬ (Ends chain.map (var (v 0)) end)) × ((resolve (v 0) chain).1 ≡ chain))
unfolding get
resolve-Resolved_example = resolve-Resolved chain (v 0) (var (v 1)) refl

resolve_presence-Leads_example : resolve_presence chain (Presence.var (p 0)) ≡ pre
resolve_presence-Leads_example =
    resolve_presence-Leads chain (Presence.var (p 0)) pre (hop refl (hop refl at_pre))
