-- ===== src/Go/Kinds/Places.antt =====
-- The parents of places as the cells of a union-find table, and `find` on them.
use inty.Common.{
  if◌then◌else◌, ℕ, zero, suc, ◌+◌, ◌≤◌, ◌<◌, ◌≡◌, refl, ap, sym, ◌∙◌, subst, inl, inr, false, some,
  List, [], ◌∷◌, ◌==◌, ==→eq, arith, Bool-cases, Option-cases, length, get_elem?, get_elem?-lt,
  get_elem?-set_ne, set,
}
use inty.Infer.VarTable.{Resolution, unbound, link}
use inty.Infer.VarTable.Roots.{
  IsRoot, Chase, stop, hop, HasRoot, link-ne-root, Chase-unique, Chase-IsRoot, length-Chase,
}
use inty.Infer.VarTable.Find.{Keeps, Keeps-refl, Keeps-trans, redirect-Keeps, link_there}
use inty.Go.Kinds.Flow.Step.{no_cell}
use inty.Go.Kinds.{Kinds, climb, shorten, find}

some_inj : {A : Type 0} (a b : A) → some a ≡ some b → a ≡ b
some_inj a b e = cc

-- A place that is its own parent is a root.
unfoldable pub cell_of : ℕ → ℕ → Resolution (Unit {0})
cell_of i p = if p == i then unbound 0 0 else link p

unfoldable pub cells_from : ℕ → List ℕ → List (Resolution (Unit {0}))
unfolding cell_of
cells_from i [] = []
cells_from i (p ∷ parent) = cell_of i p ∷ cells_from (suc i) parent

abbrev pub cells_of : List ℕ → List (Resolution (Unit {0}))
cells_of parent = cells_from 0 parent

pub length-cells_from : (i : ℕ) (parent : List ℕ) → length (cells_from i parent) ≡ length parent
unfolding cells_from
length-cells_from i [] = refl
length-cells_from i (p ∷ parent) = ap suc (length-cells_from (suc i) parent)

get_elem?-cells_from :
    (i : ℕ) (parent : List ℕ) (j : ℕ) (p : ℕ)
    → get_elem? parent j ≡ some p
    → get_elem? (cells_from i parent) j ≡ some (cell_of (i + j) p)
unfolding cells_from
get_elem?-cells_from i [] j p e = cc
get_elem?-cells_from i (q ∷ parent) zero p e =
    let same : q ≡ p = ground arith in
    let here : i ≡ i + 0 = omega arith in
    subst (λ n. some (cell_of i q) ≡ some (cell_of n p)) here (ap (λ x. some (cell_of i x)) same)
get_elem?-cells_from i (q ∷ parent) (suc j) p e =
    let there : suc i + j ≡ i + suc j = omega arith in
    subst (λ n. get_elem? (cells_from (suc i) parent) j ≡ some (cell_of n p)) there
      (get_elem?-cells_from (suc i) parent j p e)

pub set-cells_from :
    (i : ℕ) (parent : List ℕ) (j r : ℕ)
    → (r == i + j) ≡ false
    → cells_from i (set parent j r) ≡ set (cells_from i parent) j (link r)
unfolding cells_from cell_of
set-cells_from i [] j r h = refl
set-cells_from i (q ∷ parent) zero r h =
    let ne : (r == i) ≡ false = ground arith in rw (cell_of, ne) refl
set-cells_from i (q ∷ parent) (suc j) r h =
    ap (◌∷◌ (cell_of i q)) (set-cells_from (suc i) parent j r (ground arith))

cell_of-root : (i p : ℕ) → IsRoot (cell_of i p) → p ≡ i
unfolding cell_of
cell_of-root i p root = elim (Bool-cases (p == i)) [
  | inl same ↦ ==→eq p i same
  | inr other ↦ absurd (subst IsRoot {y = link p} (rw (cell_of, other) refl) root)
]

cell_of-ne : (i p : ℕ) → (p == i) ≡ false → cell_of i p ≡ link p
unfolding cell_of
cell_of-ne i p other = rw (cell_of, other) refl

cell_of-link : (i p next : ℕ) → link next ≡ cell_of i p → (p ≡ next) × ((p == i) ≡ false)
unfolding cell_of
cell_of-link i p next e = elim (Bool-cases (p == i)) [
  | inl same ↦ let g : cell_of i p ≡ unbound 0 0 = rw (cell_of, same) refl in cc
  | inr other ↦ let g = cell_of-ne i p other in (cc, other)
]

-- What stands at a place.
module _ (parent : List ℕ) where
  at_place :
      (i : ℕ) (c : Resolution (Unit {0}))
      → get_elem? (cells_of parent) i ≡ some c
      → (p : ℕ) × (get_elem? parent i ≡ some p) × (c ≡ cell_of i p)
  at_place i c e = elim (Option-cases (get_elem? parent i)) [
    | inl out ↦ absurd (
        no_cell parent i
          (subst (λ n. i < n) (length-cells_from 0 parent) (get_elem?-lt (cells_of parent) i e))
          out)
    | inr (p, f) ↦
        let there = get_elem?-cells_from 0 parent i p f in
        let here : 0 + i ≡ i = omega arith in
        (
          p,
          f,
          some_inj c (cell_of i p)
              (sym e ∙ subst (λ n. get_elem? (cells_of parent) i ≡ some (cell_of n p)) here there),
        )
  ]

  pub root-parent :
      (i : ℕ) (c : Resolution (Unit {0}))
      → get_elem? (cells_of parent) i ≡ some c
      → IsRoot c
      → get_elem? parent i ≡ some i
  root-parent i c e root =
      let (p, f, g) = at_place i c e in
      subst (λ q. get_elem? parent i ≡ some q) (cell_of-root i p (subst IsRoot g root)) f

  pub link-parent :
      (i next : ℕ)
      → get_elem? (cells_of parent) i ≡ some (link next)
      → (get_elem? parent i ≡ some next) × ((next == i) ≡ false)
  link-parent i next e =
      let (p, f, g) = at_place i (link next) e in
      let (same, other) = cell_of-link i p next g in
      (subst (λ q. get_elem? parent i ≡ some q) same f, subst (λ q. (q == i) ≡ false) same other)

  -- The first loop of `find`.
  climb-Chase :
      {v r : ℕ} {path : List ℕ} (k : ℕ)
      → Chase (cells_of parent) v path r
      → length path < k
      → climb k parent v ≡ some r
  unfolding climb
  climb-Chase zero c l = absurd (omega arith)
  climb-Chase (suc k) (stop {id} e root) l =
      let f = root-parent id _ e root in rw (climb, f) (ground arith)
  climb-Chase (suc k) (hop {id} {next} e c) l =
      let (f, ne) = link-parent id next e in rw (climb, f, ne) (climb-Chase k c (omega arith))

-- A link that is made to point at its root makes no chain longer.
module _ {T : Type 0} (cells : List (Resolution T)) (node next r : ℕ) (path : List ℕ)
    (e : get_elem? cells node ≡ some (link next)) (c : Chase cells next path r) where
  redirect-Chase :
      (i s : ℕ) {q : List ℕ}
      → Chase cells i q s
      → (q' : List ℕ) × Chase (set cells node (link r)) i q' s × (length q' ≤ length q)
  redirect-Chase i s (stop {c = d} e' h) = (
    [],
    stop (((redirect-Keeps cells node next r path e c).root_cells i d h).0 e') h,
    omega arith,
  )
  redirect-Chase i s (hop {next = n} e' c') = elim (Bool-cases (node == i)) [
    | inl same ↦
        let (before, after) = link_there cells node next r path e c i same in
        let (d, e_r, h) = Chase-IsRoot c in
        let there : Chase cells i (i ∷ path) r = hop before c in
        let top = stop (((redirect-Keeps cells node next r path e c).root_cells r d h).0 e_r) h in
        (
          i ∷ [],
          subst (Chase (set cells node (link r)) i (i ∷ [])) (Chase-unique there (hop e' c')).1
              (hop after top),
          omega arith,
        )
    | inr other ↦
        let (q', d, l) = redirect-Chase n s c' in
        (i ∷ q', hop (get_elem?-set_ne cells (link r) (ground arith) ∙ e') d, omega arith)
  ]

root-ne-link :
    (parent : List ℕ) (c next r : ℕ) (path : List ℕ)
    → get_elem? (cells_of parent) c ≡ some (link next)
    → Chase (cells_of parent) next path r
    → (r == c) ≡ false
root-ne-link parent c next r path e ch = elim (Bool-cases (r == c)) [
  | inl same ↦
      let (d, f, h) = Chase-IsRoot ch in
      absurd
        (link-ne-root e (subst (λ i. get_elem? (cells_of parent) i ≡ some d) (==→eq r c same) f) h)
  | inr other ↦ other
]

-- The second loop of `find`.
shorten-Chase :
    (k : ℕ) (parent : List ℕ) (v r : ℕ) (path : List ℕ)
    → Chase (cells_of parent) v path r
    → length path < k
    → (parent' : List ℕ) × (shorten k r parent v ≡ some parent')
      × Keeps (cells_of parent) (cells_of parent')
unfolding shorten
shorten-Chase zero parent v r path c l = absurd (omega arith)
shorten-Chase (suc k) parent v r _ (stop e root) l =
    let f = root-parent parent v _ e root in
    (parent, rw (shorten, f) (ground arith), Keeps-refl (cells_of parent))
shorten-Chase (suc k) parent v r _ (hop {next} {path} e c) l =
    let (f, ne) = link-parent parent v next e in
    elim (Bool-cases (next == r)) [
      | inl same ↦ (parent, rw (shorten, f, same) refl, Keeps-refl (cells_of parent))
      | inr other ↦
          let (q, d, m) = redirect-Chase (cells_of parent) v next r path e c next r c in
          let here : 0 + v ≡ v = omega arith in
          let same =
            set-cells_from 0 parent v r
              (subst (λ n. (r == n) ≡ false) (sym here) (root-ne-link parent v next r path e c)) in
          let (parent', g, keeps) =
            shorten-Chase k (set parent v r) next r q (subst (λ cs. Chase cs next q r) (sym same) d)
              (omega arith) in
          (
            parent',
            rw (shorten, f, other) g,
            Keeps-trans
                (subst (Keeps (cells_of parent)) (sym same)
                  (redirect-Keeps (cells_of parent) v next r path e c))
                keeps,
          )
    ]

-- `find` returns the root of a place, and only shortens the chains of parents.
pub find-HasRoot :
    (s : Kinds) (v r : ℕ)
    → HasRoot (cells_of s.parent) v r
    → (parent : List ℕ) × (find v s ≡ some (r, record s { parent = parent }))
      × Keeps (cells_of s.parent) (cells_of parent)
unfolding find
find-HasRoot s v r (path, c) =
    let l = length-Chase c in
    let n = length-cells_from 0 s.parent in
    let e = climb-Chase s.parent (suc (length s.parent)) c (omega arith) in
    let (parent, f, keeps) =
      shorten-Chase (suc (length s.parent)) s.parent v r path c (omega arith) in
    (parent, rw (find, e, f) refl, keeps)
