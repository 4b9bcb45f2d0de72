-- ===== src/Infer/VarTable/Rollback.antt =====
-- The undo trail: `restore` to a mark undoes every recorded write made since.
pub mod Commands
pub mod Present
pub mod Runs
use inty.Common.{
  ℕ, zero, suc, ◌+◌, ◌-◌, ◌<◌, ◌≤◌, ◌≡◌, refl, sym, ap, ◌∙◌, subst, Bool, true, Option, none, some,
  List, [], ◌∷◌, ◌++◌, append_assoc, append-nil, arith, le→ltb, lt→ltb, ltb, length, get_elem?,
  get_elem?-lt, get_elem?-some, set, set-append_left, set-set_back, length-set, length-append, All,
  All-append, All-map, Option-cases,
}
use inty.Infer.VarTable.{Resolution, VarTable, Command, unwind, restore, is_unbound, ◌>>=◌}

-- The writes that a stretch of the trail undoes, newest first.
abbrev pub undo : {T : Type 0} → List (ℕ × Resolution T) → List (Resolution T) → List (Resolution T)
undo [] cells = cells
undo ((id, prev) ∷ es) cells = undo es (set cells id prev)

abbrev pub InRange : {T : Type 0} → List (Resolution T) → List (ℕ × Resolution T) → Type 0
InRange cells = All (λ e. e.0 < length cells)

abbrev pub AllUnbound : {T : Type 0} → List (Resolution T) → Type 0
AllUnbound = All (λ c. is_unbound c ≡ true)

-- `t` has a longer trail than `s`, and undoing what was added gives the cells of `s`, followed by
-- those allocated since, which are unbound.
pub record Grown {T : Type 0} (s t : VarTable T) : Type 0 where
  pub entries : List (ℕ × Resolution T)
  pub extra : List (Resolution T)
  pub same_trail : t.trail ≡ entries ++ s.trail
  pub back : undo entries t.cells ≡ s.cells ++ extra
  pub in_range : InRange t.cells entries
  pub unbound_extra : AllUnbound extra

module _ {T : Type 0} where
  length-undo :
      (es : List (ℕ × Resolution T)) (cells : List (Resolution T))
      → length (undo es cells) ≡ length cells
  length-undo [] cells = refl
  length-undo ((id, prev) ∷ es) cells =
      length-undo es (set cells id prev) ∙ length-set cells id prev

  undo-append :
      (es fs : List (ℕ × Resolution T)) (cells : List (Resolution T))
      → undo (es ++ fs) cells ≡ undo fs (undo es cells)
  undo-append [] fs cells = refl
  undo-append ((id, prev) ∷ es) fs cells = undo-append es fs (set cells id prev)

  InRange-mono :
      (c d : List (Resolution T)) (es : List (ℕ × Resolution T))
      → length c ≤ length d
      → InRange c es
      → InRange d es
  InRange-mono c d es l h =
      All-map (λ e. e.0 < length c) (λ e. e.0 < length d) es (λ e k. omega arith) h

  undo-append_cells :
      (es : List (ℕ × Resolution T)) (cells extra : List (Resolution T))
      → InRange cells es
      → undo es (cells ++ extra) ≡ undo es cells ++ extra
  undo-append_cells [] cells extra h = refl
  undo-append_cells ((id, prev) ∷ es) cells extra h =
      ap (undo es) (set-append_left cells extra id prev h.0)
      ∙ undo-append_cells es (set cells id prev) extra
          (InRange-mono cells (set cells id prev) es (omega (arith, length-set cells id prev)) h.1)

  pub Grown-refl : (s : VarTable T) → Grown s s
  Grown-refl s = record {
    entries = [];
    extra = [];
    same_trail = refl;
    back = sym (append-nil s.cells);
    in_range = tt;
    unbound_extra = tt;
  }

  pub length_extra :
      {s t : VarTable T} (g : Grown s t) → length t.cells ≡ length s.cells + length g.extra
  length_extra {s} {t} g =
      omega (arith, length-undo g.entries t.cells, ap length g.back, length-append s.cells g.extra)

  pub length-Grown : {s t : VarTable T} → Grown s t → length s.cells ≤ length t.cells
  length-Grown g = omega (arith, length_extra g)

  pub Grown-trans : {s t u : VarTable T} → Grown s t → Grown t u → Grown s u
  Grown-trans {s} {t} {u} g h = record {
    entries = h.entries ++ g.entries;
    extra = g.extra ++ h.extra;
    same_trail =
        h.same_trail
        ∙ ap (◌++◌ h.entries) g.same_trail
        ∙ sym (append_assoc h.entries g.entries s.trail);
    back =
        undo-append h.entries g.entries u.cells
        ∙ ap (undo g.entries) h.back
        ∙ undo-append_cells g.entries t.cells h.extra g.in_range
        ∙ ap (λ c. c ++ h.extra) g.back
        ∙ append_assoc s.cells g.extra h.extra;
    in_range =
        All-append _ h.entries g.entries h.in_range
          (InRange-mono t.cells u.cells g.entries (length-Grown h) g.in_range);
    unbound_extra = All-append _ g.extra h.extra g.unbound_extra h.unbound_extra;
  }

  unwind-stop :
      (base : List (ℕ × Resolution T)) (cells : List (Resolution T))
      → unwind (length base) base cells ≡ some (base, cells)
  unfolding unwind
  unwind-stop [] cells = refl
  unwind-stop (e ∷ base) cells = rw (le→ltb (suc (length base)) (suc (length base)) (omega arith))

  pub unwind-undo :
      (es base : List (ℕ × Resolution T)) (cells : List (Resolution T))
      → InRange cells es
      → unwind (length base) (es ++ base) cells ≡ some (base, undo es cells)
  unfolding unwind
  unwind-undo [] base cells h = unwind-stop base cells
  unwind-undo ((id, prev) ∷ es) base cells h =
      let (c, e) = get_elem?-some cells id h.0 in
      let more =
        lt→ltb (length base) (suc (length (es ++ base))) (omega (arith, length-append es base)) in
      let ih =
        unwind-undo es base (set cells id prev) (
          InRange-mono cells (set cells id prev) es (omega (arith, length-set cells id prev))
            h.1) in
      ground arith

  -- `restore` to the mark of `s`.
  pub restore-Grown :
      {s t : VarTable T}
      → (g : Grown s t)
      → restore (length s.trail) t
        ≡ some (tt, record t { cells = s.cells ++ g.extra; trail = s.trail })
  unfolding restore
  restore-Grown {s} {t} g =
      let u = unwind-undo g.entries s.trail t.cells g.in_range in
      let v = ap (λ tr. unwind (length s.trail) tr t.cells) g.same_trail ∙ u in
      ground (arith, v, g.back)
