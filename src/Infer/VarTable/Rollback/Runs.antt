-- ===== src/Infer/VarTable/Rollback/Runs.antt =====
-- A speculative run: any sequence of commands between `snapshot` and `restore`.
use inty.Common.{
  ℕ, suc, ◌<◌, ◌≤◌, ◌≡◌, refl, ap, ◌∙◌, subst, ◌≢◌, ◌⊎◌, sym, ◌+◌, inl, inr, some, List, [], ◌∷◌,
  ◌++◌, arith, ltb, le→ltb, length, length-set, get_elem?-some, set, All-map, Option-cases,
  Bool-cases,
}
use inty.Infer.VarTable.{
  Resolution, VarTable, Command, ◌>>=◌, ◌>>◌, pure, find, find_if_present, root_resolution,
  root_resolution_if_present, is_free, bind, force_bind_root, link_to_root, union, fresh, fresh_at,
  ensure_id, push_level, pop_level, unwind, restore, snapshot,
}
use inty.Infer.VarTable.Rollback.{
  Grown, Grown-refl, Grown-trans, undo, InRange, AllUnbound, restore-Grown, length_extra,
}
use inty.Infer.VarTable.Rollback.Present.{
  find_if_present-Records, root_resolution_if_present-Records,
}
use inty.Infer.VarTable.Rollback.Commands.{
  Records, >>=-Records, pure-Records, find-Records, root_resolution-Records, is_free-Records,
  bind-Records, force_bind_root-Records, link_to_root-Records, union-Records, fresh-Records,
  fresh_at-Records, ensure_id-Records, push_level-Records, pop_level-Records,
}

-- The commands that a caller may make between a snapshot and the `restore` to it: all that change
-- the table but `commit_trail`, and `take_bound` with its `restore_bound`, which are not recorded.
pub data Op (T : Type 0) : Type 0 where
  op_fresh : Op T
  op_fresh_at op_ensure op_find op_resolve op_is_free op_find_present op_resolve_present
        op_pop_level op_restore :
      ℕ → Op T
  op_push_level : Op T
  op_bind op_force : ℕ → T → Op T
  op_link op_union : ℕ → ℕ → Op T

module _ {T : Type 0} where
  unfoldable pub exec : Op T → Command T (Unit {0})
  exec op_fresh = fresh >>= λ _. pure tt
  exec (op_fresh_at level) = fresh_at level >>= λ _. pure tt
  exec (op_ensure id) = ensure_id id
  exec (op_find id) = find id >>= λ _. pure tt
  exec (op_resolve id) = root_resolution id >>= λ _. pure tt
  exec (op_is_free id) = is_free id >>= λ _. pure tt
  exec (op_find_present id) = find_if_present id >>= λ _. pure tt
  exec (op_resolve_present id) = root_resolution_if_present id >>= λ _. pure tt
  exec op_push_level = push_level >>= λ _. pure tt
  exec (op_pop_level saved) = pop_level saved
  exec (op_restore mark) = restore mark
  exec (op_bind id ty) = bind id ty
  exec (op_force root ty) = force_bind_root root ty
  exec (op_link child parent) = link_to_root child parent
  exec (op_union a b) = union a b

  unfoldable pub run : List (Op T) → Command T (Unit {0})
  unfolding exec
  run [] = pure tt
  run (op ∷ ops) = exec op >> run ops

  -- A nested `restore` goes to a mark taken since.
  abbrev pub Nested : ℕ → List (Op T) → Type 0
  Nested mark [] = Unit {0}
  Nested mark (op_restore m ∷ ops) = (mark ≤ m) × Nested mark ops
  Nested mark (_ ∷ ops) = Nested mark ops

  -- What is left of the added entries after a nested `restore`.
  record Rest (entries base : List (ℕ × Resolution T)) (cells : List (Resolution T)) (m : ℕ)
      : Type 0 where
    entries' : List (ℕ × Resolution T)
    cells' : List (Resolution T)
    result : unwind m (entries ++ base) cells ≡ some (entries' ++ base, cells')
    undone : undo entries' cells' ≡ undo entries cells
    in_range : InRange cells' entries'

  unwind-Rest :
      (es base : List (ℕ × Resolution T)) (cells : List (Resolution T)) (m : ℕ)
      → InRange cells es
      → length base ≤ m
      → Rest es base cells m
  unfolding unwind
  unwind-Rest [] [] cells m h l = record {
    entries' = [];
    cells' = cells;
    result = refl;
    undone = refl;
    in_range = tt;
  }
  unwind-Rest [] (e ∷ base) cells m h l = record {
    entries' = [];
    cells' = cells;
    result = rw (le→ltb m (suc (length base)) l) refl;
    undone = refl;
    in_range = tt;
  }
  unwind-Rest ((id, prev) ∷ es) base cells m h l =
      elim (Bool-cases (ltb m (suc (length (es ++ base))))) [
        | inl more ↦
            let (c, e) = get_elem?-some cells id h.0 in
            let k : InRange (set cells id prev) es =
              All-map (λ e. e.0 < length cells) (λ e. e.0 < length (set cells id prev)) es
                (λ e k. omega (arith, length-set cells id prev)) h.1 in
            let rest = unwind-Rest es base (set cells id prev) m k l in
            record {
              entries' = rest.entries';
              cells' = rest.cells';
              result = ground (arith, rest.result);
              undone = rest.undone;
              in_range = rest.in_range;
            }
        | inr stop ↦ record {
          entries' = (id, prev) ∷ es;
          cells' = cells;
          result = rw stop refl;
          undone = refl;
          in_range = h;
        }
      ]

  restore-nested :
      (m : ℕ) (s t u : VarTable T)
      → length s.trail ≤ m
      → Grown s t
      → restore m t ≡ some (tt, u)
      → Grown s u
  unfolding restore
  restore-nested m s t u l g e =
      let rest = unwind-Rest g.entries s.trail t.cells m g.in_range l in
      let result = ap (λ tr. unwind m tr t.cells) g.same_trail ∙ rest.result in
      let v : VarTable T = record t { cells = rest.cells'; trail = rest.entries' ++ s.trail } in
      let grown : Grown s v = record {
        entries = rest.entries';
        extra = g.extra;
        same_trail = refl;
        back = rest.undone ∙ g.back;
        in_range = rest.in_range;
        unbound_extra = g.unbound_extra;
      } in
      subst (Grown s) (ground arith) grown

  drop_result-Records : {A : Type 0} (m : Command T A) → Records m → Records (m >>= λ _. pure tt)
  drop_result-Records m h = >>=-Records m (λ _. pure tt) h λ _. pure-Records tt

  -- Any command but a `restore`.
  exec-Records : (op : Op T) → ((m : ℕ) → op ≢ op_restore m) → Records (exec op)
  unfolding exec
  exec-Records op_fresh ne = drop_result-Records fresh fresh-Records
  exec-Records (op_fresh_at level) ne =
      drop_result-Records (fresh_at level) (fresh_at-Records level)
  exec-Records (op_ensure id) ne = ensure_id-Records id
  exec-Records (op_find id) ne = drop_result-Records (find id) (find-Records id)
  exec-Records (op_resolve id) ne =
      drop_result-Records (root_resolution id) (root_resolution-Records id)
  exec-Records (op_is_free id) ne = drop_result-Records (is_free id) (is_free-Records id)
  exec-Records (op_find_present id) ne =
      drop_result-Records (find_if_present id) (find_if_present-Records id)
  exec-Records (op_resolve_present id) ne =
      drop_result-Records (root_resolution_if_present id) (root_resolution_if_present-Records id)
  exec-Records op_push_level ne = drop_result-Records push_level push_level-Records
  exec-Records (op_pop_level saved) ne = pop_level-Records saved
  exec-Records (op_restore mark) ne = absurd (ne mark refl)
  exec-Records (op_bind id ty) ne = bind-Records id ty
  exec-Records (op_force root ty) ne = force_bind_root-Records root ty
  exec-Records (op_link child parent) ne = link_to_root-Records child parent
  exec-Records (op_union a b) ne = union-Records a b

  -- The mark that an operation goes back to, if it is a `restore`.
  Nested-cases :
      (mark : ℕ) (op : Op T) (ops : List (Op T))
      → Nested mark (op ∷ ops)
      → ((m : ℕ) × (op ≡ op_restore m) × (mark ≤ m) × Nested mark ops)
        ⊎ (((m : ℕ) → op ≢ op_restore m) × Nested mark ops)
  Nested-cases mark (op_restore m) ops h = inl (m, refl, h.0, h.1)
  Nested-cases mark _ ops h = inr (λ m e. cc, h)

  exec-Grown :
      (op : Op T) (ops : List (Op T)) (s t u : VarTable T)
      → Nested (length s.trail) (op ∷ ops)
      → Grown s t
      → exec op t ≡ some (tt, u)
      → Grown s u
  unfolding exec
  exec-Grown op ops s t u h g e = elim (Nested-cases (length s.trail) op ops h) [
    | inl (m, same, l, _) ↦ restore-nested m s t u l g (ap (λ o. exec o t) (sym same) ∙ e)
    | inr (other, _) ↦ Grown-trans g (exec-Records op other t tt u e)
  ]

  run-Grown :
      (ops : List (Op T)) (s t u : VarTable T)
      → Nested (length s.trail) ops
      → Grown s t
      → run ops t ≡ some (tt, u)
      → Grown s u
  unfolding run
  run-Grown [] s t u h g e = subst (Grown s) (ground arith) g
  run-Grown (op ∷ ops) s t u h g e = elim (Option-cases (exec op t)) [
    | inl fail ↦ absurd (ground arith)
    | inr (r, step) ↦
        let v = r.1 in
        let g' : Grown s v = exec-Grown op ops s t v h g (ground arith) in
        let h' : Nested (length s.trail) ops = elim (Nested-cases (length s.trail) op ops h) [
          | inl (m, same, l, k) ↦ k
          | inr (other, k) ↦ k
        ] in
        run-Grown ops s v u h' g' (ground arith)
  ]

  -- After any run of the commands of `Op` (all that change the table but `commit_trail`, `take_bound` and
  -- `restore_bound`, which drop the trail or write without recording) that succeeds, and in which
  -- inner rollbacks go to marks not below the one taken before the run, `restore` to that mark
  -- succeeds and gives back the trail and every cell as they were; the cells allocated since stay,
  -- unbound. The level is that of the run's end.
  pub restore-run :
      (ops : List (Op T)) (s t : VarTable T)
      → Nested (snapshot s) ops
      → run ops s ≡ some (tt, t)
      → (extra : List (Resolution T)) × (restore (snapshot s) t
          ≡ some (tt, record t { cells = s.cells ++ extra; trail = s.trail }))
        × (length t.cells ≡ length s.cells + length extra)
        × AllUnbound extra
  unfolding snapshot
  restore-run ops s t h e =
      let g = run-Grown ops s s t h (Grown-refl s) e in
      (g.extra, restore-Grown g, length_extra g, g.unbound_extra)
