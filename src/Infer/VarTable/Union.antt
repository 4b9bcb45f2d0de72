-- ===== src/Infer/VarTable/Union.antt =====
-- `union` merges the classes of two unbound roots and no others; `bind` and `link_to_root`.
use inty.Common.{
  ℕ, ◌+◌, ◌≡◌, refl, ◌≢◌, sym, ◌∙◌, Bool, true, false, some, ◌∷◌, arith, ◌==◌, if◌then◌else◌, ltb,
  min, get_elem?, get_elem?-lt, get_elem?-set_self, get_elem?-set_ne, set, length, length-set,
}
use inty.Infer.VarTable.{
  Resolution, unbound, link, VarTable, max_rank, attach, attach_by_rank, union, find,
}
use inty.Infer.VarTable.Roots.{IsRoot, HasRoot}
use inty.Infer.VarTable.Find.{Compressed, find-Chase}
use inty.Infer.VarTable.Link.{moved, write-HasRoot, link-HasRoot}

module _ {T : Type 0} where
  -- The table `t'` is `t` with the class of the root `loser` joined to that of `winner`, whose
  -- cell is now unbound at the given level and rank. No other root's cell has changed.
  pub record Joined (t t' : VarTable T) (winner loser level rank : ℕ) : Type 0 where
    pub same_length : length t'.cells ≡ length t.cells
    pub roots : (i s : ℕ) → HasRoot t.cells i s → HasRoot t'.cells i (moved loser winner s)
    pub top : get_elem? t'.cells winner ≡ some (unbound level rank)
    pub others : (i : ℕ) → i ≢ winner → i ≢ loser → get_elem? t'.cells i ≡ get_elem? t.cells i

  attach-Joined :
      (t : VarTable T) (winner loser level rank lw kw ll kl : ℕ)
      → get_elem? t.cells winner ≡ some (unbound lw kw)
      → get_elem? t.cells loser ≡ some (unbound ll kl)
      → loser ≢ winner
      → (t' : VarTable T) × (attach winner loser level rank t ≡ some (tt, t'))
        × Joined t t' winner loser level rank
        × (t'.current_level ≡ t.current_level)
  unfolding attach
  attach-Joined t w l level rank lw kw ll kl ew el ne =
      let cells = set t.cells l (link w) in
      let ew' : get_elem? cells w ≡ some (unbound lw kw) =
        get_elem?-set_ne t.cells (link w) ne ∙ ew in
      (
        record t {
          cells = set cells w (unbound level rank);
          trail = (w, unbound lw kw) ∷ (l, unbound ll kl) ∷ t.trail;
        },
        ground arith,
        record {
          same_length = length-set cells w (unbound level rank) ∙ length-set t.cells l (link w);
          roots = λ i s h.
              write-HasRoot cells w (unbound lw kw) ew' tt (unbound level rank) i (moved l w s) tt
                (link-HasRoot t.cells l (unbound ll kl) el tt w ew tt ne i s h);
          top = get_elem?-set_self cells w (unbound level rank) (get_elem?-lt cells w ew');
          others = λ i nw nl.
              get_elem?-set_ne cells (unbound level rank) (λ e. nw (sym e))
              ∙ get_elem?-set_ne t.cells (link w) (λ e. nl (sym e));
        },
        refl,
      )

-- Union by rank: the root of the higher rank wins, the first one on a tie, and then its rank grows.
abbrev pub winner : (ra rb ka kb : ℕ) → ℕ
winner ra rb ka kb = if ltb ka kb then rb else ra

abbrev pub loser : (ra rb ka kb : ℕ) → ℕ
loser ra rb ka kb = if ltb ka kb then ra else rb

abbrev pub merged_rank : (ka kb : ℕ) → ℕ
merged_rank ka kb = if ka == kb then min (ka + 1) max_rank else (if ltb ka kb then kb else ka)

ne-winner :
    (i ra rb ka kb : ℕ) → i ≢ ra → i ≢ rb → (i ≢ winner ra rb ka kb) × (i ≢ loser ra rb ka kb)
ne-winner i ra rb ka kb na nb = ground arith

module _ {T : Type 0} where
  attach_by_rank-attach :
      (t : VarTable T) (ra rb level ka kb : ℕ)
      → attach_by_rank ra rb level ka kb t
        ≡ attach (winner ra rb ka kb) (loser ra rb ka kb) level (merged_rank ka kb) t
  unfolding attach_by_rank
  attach_by_rank-attach t ra rb level ka kb = ground arith

  -- What `union` does to a table: of two roots one wins, at the lesser level, and the contents of
  -- all other roots stay.
  pub record Merged (t t' : VarTable T) (ra rb la lb ka kb : ℕ) : Type 0 where
    pub same_length : length t'.cells ≡ length t.cells
    pub same_level : t'.current_level ≡ t.current_level
    pub roots :
        (i s : ℕ)
        → HasRoot t.cells i s
        → HasRoot t'.cells i (moved (loser ra rb ka kb) (winner ra rb ka kb) s)
    pub top :
        get_elem? t'.cells (winner ra rb ka kb) ≡ some (unbound (min la lb) (merged_rank ka kb))
    pub other_roots :
        (i : ℕ) (c : Resolution T)
        → IsRoot c
        → i ≢ ra
        → i ≢ rb
        → get_elem? t.cells i ≡ some c
        → get_elem? t'.cells i ≡ some c

  attach-pair :
      (t : VarTable T) (ra rb level rank ka kb la lb : ℕ)
      → get_elem? t.cells ra ≡ some (unbound la ka)
      → get_elem? t.cells rb ≡ some (unbound lb kb)
      → ra ≢ rb
      → (second : Bool)
      → let w = if second then rb else ra in
        let l = if second then ra else rb in
        (t' : VarTable T) × (attach w l level rank t ≡ some (tt, t'))
        × Joined t t' w l level rank
        × (t'.current_level ≡ t.current_level)
  attach-pair t ra rb level rank ka kb la lb ea eb ne true =
      attach-Joined t rb ra level rank lb kb la ka eb ea ne
  attach-pair t ra rb level rank ka kb la lb ea eb ne false =
      attach-Joined t ra rb level rank la ka lb kb ea eb (λ e. ne (sym e))

  -- The same once both roots are found.
  attach_by_rank-Merged :
      (t : VarTable T) (ra rb la lb ka kb : ℕ)
      → get_elem? t.cells ra ≡ some (unbound la ka)
      → get_elem? t.cells rb ≡ some (unbound lb kb)
      → ra ≢ rb
      → (t' : VarTable T) × (attach_by_rank ra rb (min la lb) ka kb t ≡ some (tt, t'))
        × Merged t t' ra rb la lb ka kb
  attach_by_rank-Merged t ra rb la lb ka kb ea eb ne =
      let rank = merged_rank ka kb in
      let (t', e, j, lev) = attach-pair t ra rb (min la lb) rank ka kb la lb ea eb ne (ltb ka kb) in
      (
        t',
        attach_by_rank-attach t ra rb (min la lb) ka kb ∙ e,
        record {
          same_length = j.same_length;
          same_level = lev;
          roots = j.roots;
          top = j.top;
          other_roots =
              λ i c h na nb f. let (nw, nl) = ne-winner i ra rb ka kb na nb in j.others i nw nl ∙ f;
        },
      )

  Merged-Compressed :
      {t u v : VarTable T} {ra rb la lb ka kb : ℕ}
      → Compressed t u
      → Merged u v ra rb la lb ka kb
      → Merged t v ra rb la lb ka kb
  Merged-Compressed k m = record {
    same_length = m.same_length ∙ k.keeps.same_length;
    same_level = m.same_level ∙ k.same_level;
    roots = λ i s h. m.roots i s (k.keeps.roots i s h);
    top = m.top;
    other_roots = λ i c h na nb f. m.other_roots i c h na nb ((k.keeps.root_cells i c h).0 f);
  }

  union-found :
      (t u v : VarTable T) (a b ra rb la lb ka kb : ℕ)
      → find a t ≡ some (ra, u)
      → find b u ≡ some (rb, v)
      → get_elem? v.cells ra ≡ some (unbound la ka)
      → get_elem? v.cells rb ≡ some (unbound lb kb)
      → ra ≢ rb
      → union a b t ≡ attach_by_rank ra rb (min la lb) ka kb v
  unfolding union
  union-found t u v a b ra rb la lb ka kb ea eb fa fb ne =
      let other : (ra == rb) ≡ false = ground arith in ground arith

  -- `union` of two ids whose roots are unbound and differ succeeds: the classes have one root, that
  -- of greater rank, or the first on a tie, which is unbound at the lesser level with the merged
  -- rank. No other class and no other root's contents change.
  pub union-Merged :
      (t : VarTable T) (a b ra rb la lb ka kb : ℕ)
      → HasRoot t.cells a ra
      → HasRoot t.cells b rb
      → get_elem? t.cells ra ≡ some (unbound la ka)
      → get_elem? t.cells rb ≡ some (unbound lb kb)
      → ra ≢ rb
      → (t' : VarTable T) × (union a b t ≡ some (tt, t')) × Merged t t' ra rb la lb ka kb
  union-Merged t a b ra rb la lb ka kb (p, ca) hb ea eb ne =
      let (u, e, k, _) = find-Chase t a ra ca in
      let (v, e', k', _) = find-Chase u b rb (k.keeps.roots b rb hb).1 in
      let ea' =
        (k'.keeps.root_cells ra (unbound la ka) tt).0
          ((k.keeps.root_cells ra (unbound la ka) tt).0 ea) in
      let eb' =
        (k'.keeps.root_cells rb (unbound lb kb) tt).0
          ((k.keeps.root_cells rb (unbound lb kb) tt).0 eb) in
      let (w, e'', m) = attach_by_rank-Merged v ra rb la lb ka kb ea' eb' ne in
      (
        w,
        union-found t u v a b ra rb la lb ka kb e e' ea' eb' ne ∙ e'',
        Merged-Compressed k (Merged-Compressed k' m),
      )
