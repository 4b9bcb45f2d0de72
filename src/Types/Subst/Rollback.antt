-- ===== src/Types/Subst/Rollback.antt =====
-- Rolling a substitution back: `undo_to` a mark undoes every write of a run.
use inty.Common.{
  suc, ◌≡◌, refl, sym, ap, ◌∙◌, subst, some, List, [], ◌∷◌, ◌++◌, arith, length, length-append,
  le→ltb, lt→ltb,
}
use inty.Common.Dict.{lookup}
use inty.Types.Ty.{TVarName, PVarName, tvar_eq, pvar_eq, Presence, Ty}
use inty.Types.Subst.{
  SubstUndo, presence_was, Subst, mark, revert, undo_loop, undo_to, get, get_presence, insert,
  insert_presence, remove, resolve,
}
use inty.Types.Subst.Undo.{
  Same-trans, revert_all, revert_all-Same, insert_presence-Same, Grown, Grown-push, write-Grown,
  remove-Grown, resolve-Grown,
}

undo_loop-stop :
    (base : List SubstUndo) (s : Subst)
    → undo_loop (length base) base s ≡ record s { trail = some base }
unfolding undo_loop
undo_loop-stop [] s = refl
undo_loop-stop (entry ∷ base) s = rw (le→ltb (suc (length base)) (suc (length base)) (omega arith))

undo_loop-revert :
    (entries base : List SubstUndo) (s : Subst)
    → undo_loop (length base) (entries ++ base) s
      ≡ record (revert_all entries s) { trail = some base }
unfolding undo_loop
undo_loop-revert [] base s = undo_loop-stop base s
undo_loop-revert (entry ∷ entries) base s =
    rw
      (lt→ltb (length base) (suc (length (entries ++ base)))
        (omega (arith, length-append entries base)))
      (undo_loop-revert entries base (revert entry s))

undo_to-revert :
    (base entries : List SubstUndo) (t : Subst)
    → t.trail ≡ some (entries ++ base)
    → undo_to (length base) t ≡ record (revert_all entries t) { trail = some base }
unfolding undo_to
undo_to-revert base entries t tr = ground (arith, undo_loop-revert entries base t)

-- What the engine does between a mark and the rollback to it: the operations of `Subst` that
-- write, and speculation inside, which is undone before.
pub data Run : Subst → Subst → Type 0 where
  start : {s : Subst} → Run s s
  inserts : {s t : Subst} (v : TVarName) (ty : Ty) → Run s t → Run s (insert v ty t)
  inserts_presence :
      {s t : Subst} (p : PVarName) (pres : Presence) → Run s t → Run s (insert_presence p pres t)
  removes : {s t : Subst} (v : TVarName) → Run s t → Run s (remove v t)
  resolves : {s t : Subst} (v : TVarName) → Run s t → Run s (resolve v t).1
  speculates : {s t u : Subst} → Run s t → Run t u → Run s (undo_to (mark t) u)

mark-some : (s : Subst) (base : List SubstUndo) → s.trail ≡ some base → mark s ≡ length base
unfolding mark
mark-some s base h = ground arith

Run-Grown : {s t : Subst} (base : List SubstUndo) → s.trail ≡ some base → Run s t → Grown base s t
unfolding insert insert_presence
Run-Grown {s} base h start = record {
  entries = [];
  same_trail = h;
  back = record { types = λ v. refl; presences = λ p. refl };
}
Run-Grown {s} base h (inserts {t} v ty r) = write-Grown base v ty s t (Run-Grown base h r)
Run-Grown {s} base h (inserts_presence {t} p pres r) =
    Grown-push base (presence_was p (lookup p t.presences)) s t (insert_presence p pres t)
      (Run-Grown base h r) refl (insert_presence-Same p pres t)
Run-Grown {s} base h (removes {t} v r) = remove-Grown base v s t (Run-Grown base h r)
Run-Grown {s} base h (resolves {t} v r) = resolve-Grown base v s t (Run-Grown base h r)
Run-Grown {s} base h (speculates {t} {u} r q) =
    let g = Run-Grown base h r in
    let k = Run-Grown (g.entries ++ base) g.same_trail q in
    let e =
      ap (λ m. undo_to m u) (mark-some t (g.entries ++ base) g.same_trail)
      ∙ undo_to-revert (g.entries ++ base) k.entries u k.same_trail in
    subst (Grown base s) (sym e) (record {
      entries = g.entries;
      same_trail = refl;
      back =
          Same-trans
            (revert_all-Same g.entries
              (record (revert_all k.entries u) { trail = some (g.entries ++ base) }) t
              (record { types = k.back.types; presences = k.back.presences }))
            g.back;
    })

-- On a substitution with a trail, after any run of writes, path compressions and inner
-- speculations, `undo_to` the mark taken before gives back the trail and, at every type variable
-- and every presence variable, the binding or the lack of one.
pub undo_to-Run :
    {s t : Subst} (base : List SubstUndo)
    → s.trail ≡ some base
    → Run s t
    → ((undo_to (mark s) t).trail ≡ s.trail)
      × ((v : TVarName) → get (undo_to (mark s) t) v ≡ get s v)
      × ((p : PVarName) → get_presence (undo_to (mark s) t) p ≡ get_presence s p)
unfolding get get_presence
undo_to-Run {s} {t} base h r =
    let g = Run-Grown base h r in
    let e =
      ap (λ m. undo_to m t) (mark-some s base h) ∙ undo_to-revert base g.entries t g.same_trail in
    rw e (sym h, g.back.types, g.back.presences)
