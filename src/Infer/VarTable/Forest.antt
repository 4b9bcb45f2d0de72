-- ===== src/Infer/VarTable/Forest.antt =====
-- The invariant of the table, `IsForest`: links stay in range and make no cycle. Every operation
-- on ids that the table holds returns, and keeps it.
use inty.Common.{
  ℕ, ◌<◌, ◌≤◌, ◌≡◌, ap, ◌∙◌, subst, inl, inr, some, List, [], ◌∷◌, ◌++◌, arith, ltb, Bool-cases,
  append-nil, append_assoc, true, length, length-append, get_elem?, get_elem?-lt,
  get_elem?-append_left, get_elem?-append_last, All,
}
use inty.Infer.VarTable.{
  Resolution, unbound, link, bound, VarTable, u32_mod, find, fresh, restore, snapshot, is_unbound,
}
use inty.Infer.VarTable.Roots.{IsRoot, Chase, stop, hop, HasRoot, IsForest, Chase-IsRoot}
use inty.Infer.VarTable.Find.{Keeps, Compressed, Direct, find-Chase}
use inty.Infer.VarTable.Union.{Merged}
use inty.Infer.VarTable.Binding.{Written, Linked}
use inty.Infer.VarTable.Rollback.{AllUnbound}
use inty.Infer.VarTable.Rollback.Runs.{Op, run, Nested, restore-run}

module _ {T : Type 0} where
  -- A change that gives each id a root keeps the invariant.
  pub IsForest-of_roots :
      (cells cells' : List (Resolution T))
      → length cells' ≡ length cells
      → ((i s : ℕ) → HasRoot cells i s → (s' : ℕ) × HasRoot cells' i s')
      → IsForest cells
      → IsForest cells'
  IsForest-of_roots cells cells' l f h i lt = let (s, r) = h i (omega arith) in f i s r

  pub Keeps-IsForest :
      {cells cells' : List (Resolution T)} → Keeps cells cells' → IsForest cells → IsForest cells'
  Keeps-IsForest {cells} {cells'} k =
      IsForest-of_roots cells cells' k.same_length (λ i s h. (s, k.roots i s h))

  append-Chase :
      (cells extra : List (Resolution T)) {i s : ℕ} {p : List ℕ}
      → Chase cells i p s
      → Chase (cells ++ extra) i p s
  append-Chase cells extra (stop {id} e h) =
      stop (get_elem?-append_left cells extra id (get_elem?-lt cells id e) ∙ e) h
  append-Chase cells extra (hop {id} e c) =
      hop (get_elem?-append_left cells extra id (get_elem?-lt cells id e) ∙ e)
        (append-Chase cells extra c)

  -- A new unbound cell is a root of its own.
  push-IsForest :
      (cells : List (Resolution T)) (c : Resolution T)
      → IsRoot c
      → IsForest cells
      → IsForest (cells ++ c ∷ [])
  push-IsForest cells c root h i lt = elim (Bool-cases (ltb i (length cells))) [
    | inl old ↦ let (s, (p, ch)) = h i (ground arith) in (s, (p, append-Chase cells (c ∷ []) ch))
    | inr new ↦
        let last : i ≡ length cells = ground (arith, length-append cells (c ∷ [])) in
        (i, ([], stop (ap (get_elem? (cells ++ c ∷ [])) last ∙ get_elem?-append_last cells c) root))
  ]

  unbound-IsRoot : (c : Resolution T) → is_unbound c ≡ true → IsRoot c
  unbound-IsRoot (unbound _ _) e = tt
  unbound-IsRoot (link _) e = cc
  unbound-IsRoot (bound _) e = tt

  append-IsForest :
      (cells extra : List (Resolution T))
      → AllUnbound extra
      → IsForest cells
      → IsForest (cells ++ extra)
  append-IsForest cells [] u h = rw append-nil h
  append-IsForest cells (c ∷ extra) u h =
      subst IsForest (append_assoc cells (c ∷ []) extra) (
        append-IsForest (cells ++ c ∷ []) extra u.1
          (push-IsForest cells c (unbound-IsRoot c u.0) h))

  -- At most one link is left between an id that `find` has visited and its root.
  short-chain :
      (cells : List (Resolution T)) (id r : ℕ) (p : List ℕ) (c : Resolution T)
      → Chase cells id p r
      → (cells' : List (Resolution T)) → All (Direct cells' r) p
      → get_elem? cells' r ≡ some c
      → IsRoot c
      → (q : List ℕ) × Chase cells' id q r × (length q ≤ 1)
  short-chain cells id r _ c (stop e h) cells' d e' h' = ([], stop e' h', omega arith)
  short-chain cells id r _ c (hop e ch) cells' d e' h' =
      (id ∷ [], hop d.0 (stop e' h'), omega arith)

  -- On a forest, which is a table whose links make no cycle, `find` returns the root of any id of
  -- the table. The table stays a forest with the same roots, root contents and classes, and the id
  -- is at most one link from its root.
  pub find-IsForest :
      (t : VarTable T) (id : ℕ)
      → IsForest t.cells
      → id < length t.cells
      → (r : ℕ) × (t' : VarTable T) × (find id t ≡ some (r, t'))
        × HasRoot t.cells id r
        × Compressed t t'
        × IsForest t'.cells
        × ((q : List ℕ) × Chase t'.cells id q r × (length q ≤ 1))
  find-IsForest t id forest lt =
      let (r, (p, ch)) = forest id lt in
      let (t', e, k, d) = find-Chase t id r ch in
      let (c, here, root) = Chase-IsRoot ch in
      (
        r,
        t',
        e,
        (p, ch),
        k,
        Keeps-IsForest k.keeps forest,
        short-chain t.cells id r p c ch t'.cells d ((k.keeps.root_cells r c root).0 here) root,
      )

  pub Merged-IsForest :
      {t t' : VarTable T} {ra rb la lb ka kb : ℕ}
      → Merged t t' ra rb la lb ka kb
      → IsForest t.cells
      → IsForest t'.cells
  Merged-IsForest {t} {t'} m =
      IsForest-of_roots t.cells t'.cells m.same_length (λ i s h. (_, m.roots i s h))

  pub Written-IsForest :
      {t t' : VarTable T} {r : ℕ} {c : Resolution T}
      → Written t t' r c
      → IsForest t.cells
      → IsForest t'.cells
  Written-IsForest {t} {t'} w =
      IsForest-of_roots t.cells t'.cells w.same_length (λ i s h. (_, w.roots i s h))

  pub Linked-IsForest :
      {t t' : VarTable T} {child parent : ℕ}
      → Linked t t' child parent
      → IsForest t.cells
      → IsForest t'.cells
  Linked-IsForest {t} {t'} w =
      IsForest-of_roots t.cells t'.cells w.same_length (λ i s h. (_, w.roots i s h))

  -- On a forest with fewer than 2^32 cells `fresh` returns the id of a cell that it adds, unbound at
  -- the current level. All earlier ids keep their roots, and the table stays a forest.
  pub fresh-IsForest :
      (t : VarTable T)
      → IsForest t.cells
      → length t.cells < u32_mod
      → (t' : VarTable T) × (fresh t ≡ some (length t.cells, t'))
        × (get_elem? t'.cells (length t.cells) ≡ some (unbound t.current_level 0))
        × ((i s : ℕ) → HasRoot t.cells i s → HasRoot t'.cells i s)
        × IsForest t'.cells
  unfolding fresh
  fresh-IsForest t forest room =
      let c : Resolution T = unbound t.current_level 0 in
      (
        record t { cells = t.cells ++ c ∷ [] },
        ap (λ n. some (n, record t { cells = t.cells ++ c ∷ [] })) (omega arith),
        get_elem?-append_last t.cells c,
        λ i s (p, ch). (p, append-Chase t.cells (c ∷ []) ch),
        push-IsForest t.cells c tt forest,
      )

  -- Rolling back a run of the commands of `Op` (all that change the table but `commit_trail`,
  -- `take_bound` and `restore_bound`) that succeeds on a forest, its inner rollbacks not below its
  -- mark, succeeds and gives a forest in which every id of the table before has the root that it had.
  pub restore-IsForest :
      (ops : List (Op T)) (s t : VarTable T)
      → IsForest s.cells
      → Nested (snapshot s) ops
      → run ops s ≡ some (tt, t)
      → (u : VarTable T) × (restore (snapshot s) t ≡ some (tt, u))
        × IsForest u.cells
        × ((i r : ℕ) → HasRoot s.cells i r → HasRoot u.cells i r)
  restore-IsForest ops s t forest h e =
      let (extra, f, _, u) = restore-run ops s t h e in
      (
        _,
        f,
        append-IsForest s.cells extra u forest,
        λ i r (p, ch). (p, append-Chase s.cells extra ch),
      )
