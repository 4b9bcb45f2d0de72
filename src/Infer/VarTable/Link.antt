-- ===== src/Infer/VarTable/Link.antt =====
-- What a write to one root cell does to the classes of a table: `bind_shared`, `link_to_root` and
-- the two writes of `union`.
use inty.Common.{
  ℕ, ◌≡◌, ◌≢◌, sym, ◌∙◌, subst, inl, inr, true, some, List, [], ◌∷◌, arith, ◌==◌, ==→eq, Bool-cases,
  if◌then◌else◌, get_elem?, get_elem?-lt, get_elem?-set_self, get_elem?-set_ne, set,
}
use inty.Infer.VarTable.{Resolution, link}
use inty.Infer.VarTable.Roots.{IsRoot, Chase, stop, hop, HasRoot, link-ne-root}

-- The root of each id once the root `loser` is linked to the root `winner`.
abbrev pub moved : ℕ → ℕ → ℕ → ℕ
moved loser winner s = if s == loser then winner else s

module _ {T : Type 0} (cells : List (Resolution T)) (w : ℕ) (old : Resolution T)
    (here : get_elem? cells w ≡ some old) (root : IsRoot old) where
  -- A link is not the root that is written.
  away : (i next : ℕ) → get_elem? cells i ≡ some (link next) → w ≢ i
  away i next e same = link-ne-root e (subst (λ n. get_elem? cells n ≡ some old) same here) root

  written : (i : ℕ) (c : Resolution T) → (i == w) ≡ true → get_elem? (set cells w c) i ≡ some c
  written i c same =
      subst (λ n. get_elem? (set cells w c) n ≡ some c) (sym (==→eq i w same))
        (get_elem?-set_self cells w c (get_elem?-lt cells w here))

  write-Chase :
      (c : Resolution T) (i s : ℕ) {p : List ℕ}
      → IsRoot c
      → Chase cells i p s
      → Chase (set cells w c) i p s
  write-Chase c i s h (stop e' h') = elim (Bool-cases (i == w)) [
    | inl same ↦ stop (written i c same) h
    | inr other ↦ stop (get_elem?-set_ne cells c (ground arith) ∙ e') h'
  ]
  write-Chase c i s h (hop {next} e' ch) =
      hop (get_elem?-set_ne cells c (away i next e') ∙ e') (write-Chase c next s h ch)

  -- A root that gets another content, not a link, keeps its class.
  pub write-HasRoot :
      (c : Resolution T) (i s : ℕ) → IsRoot c → HasRoot cells i s → HasRoot (set cells w c) i s
  write-HasRoot c i s h (p, ch) = (p, write-Chase c i s h ch)

  link-Chase :
      (v : ℕ) {d : Resolution T}
      → get_elem? cells v ≡ some d
      → IsRoot d
      → w ≢ v
      → (i s : ℕ) {p : List ℕ} → Chase cells i p s
      → HasRoot (set cells w (link v)) i (moved w v s)
  link-Chase v e h ne i s (stop {c} e' h') = elim (Bool-cases (i == w)) [
    | inl same ↦
        rw same
          (i ∷ [], hop (written i (link v) same) (stop (get_elem?-set_ne cells (link v) ne ∙ e) h))
    | inr other ↦ rw other ([], stop (get_elem?-set_ne cells (link v) (ground arith) ∙ e') h')
  ]
  link-Chase v e h ne i s (hop {next} e' ch) =
      let (q, ch') = link-Chase v e h ne next s ch in
      (i ∷ q, hop (get_elem?-set_ne cells (link v) (away i next e') ∙ e') ch')

  -- A root that becomes a link to another root brings its class along, and moves no other id.
  pub link-HasRoot :
      (v : ℕ) {d : Resolution T}
      → get_elem? cells v ≡ some d
      → IsRoot d
      → w ≢ v
      → (i s : ℕ) → HasRoot cells i s
      → HasRoot (set cells w (link v)) i (moved w v s)
  link-HasRoot v e h ne i s (p, ch) = link-Chase v e h ne i s ch
