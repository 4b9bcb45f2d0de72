-- ===== src/Go/Kinds/Joined.antt =====
-- What `raise` and `union` do to places and their lower bounds.
use inty.Common.{
  if◌then◌else◌, ℕ, max, ◌+◌, ◌≤◌, ◌<◌, ◌≡◌, ◌≢◌, refl, ap, sym, ◌∙◌, subst, inl, inr, Bool, true,
  false, some, List, [], ltb, ◌==◌, ==→eq, arith, Bool-cases, Option-cases, length, get_elem?,
  get_elem?-lt, set, length-set,
}
use inty.Common.State.{◌>>=◌, bind-some}
use inty.Infer.VarTable.Roots.{HasRoot, Chase-IsRoot, stop}
use inty.Infer.VarTable.Find.{Keeps, Keeps-trans}
use inty.Infer.VarTable.Link.{moved, link-HasRoot}
use inty.Go.Kinds.{Kind, Kinds, rank, find, raise, join_roots, union}
use inty.Go.Kinds.Places.{cells_of, length-cells_from, set-cells_from, find-HasRoot}
use inty.Go.Kinds.Flow.Step.{no_cell, rank_at, rank_at-some, rank_at-set_self, rank_at-set_ne}

-- The bound of `r` is at least `k` now, and no other has changed.
pub record Bounded (lower lower' : List Kind) (r k : ℕ) : Type 0 where
  pub same_length : length lower' ≡ length lower
  pub here : rank_at lower' r ≡ max (rank_at lower r) k
  pub elsewhere : (i : ℕ) → i ≢ r → rank_at lower' i ≡ rank_at lower i

raised : List Kind → ℕ → Kind → Kind → List Kind
raised lower r low k = if ltb (rank low) (rank k) then set lower r k else lower

raised-Bounded :
    (lower : List Kind) (r : ℕ) (low k : Kind)
    → get_elem? lower r ≡ some low
    → Bounded lower (raised lower r low k) r (rank k)
unfolding raised
raised-Bounded lower r low k e = elim (Bool-cases (ltb (rank low) (rank k))) [
  | inl less ↦
      rw (raised, less)
        (record {
          same_length = length-set lower r k;
          here =
              let g : rank low < rank k = ground arith in
              omega (
                arith,
                rank_at-set_self lower r k (get_elem?-lt lower r e),
                rank_at-some lower r low e,
              );
          elsewhere = λ i ne. rank_at-set_ne lower r i k (λ q. ne (sym q));
        })
  | inr more ↦
      rw (raised, more)
        (record {
          same_length = refl;
          here =
              let g : rank k ≤ rank low = ground arith in omega (arith, rank_at-some lower r low e);
          elsewhere = λ i ne. refl;
        })
]

either_lower :
    (b : Bool) (s : Kinds) (lower : List Kind)
    → (if b then record s { lower = lower } else s)
      ≡ record s { lower = if b then lower else s.lower }
either_lower true s lower = refl
either_lower false s lower = refl

-- `raise` of a place raises the bound of its root.
pub raise-Bounded :
    (s : Kinds) (v r : ℕ) (k : Kind)
    → HasRoot (cells_of s.parent) v r
    → r < length s.lower
    → (parent : List ℕ) × (lower : List Kind) × (raise v k s
        ≡ some (tt, record s { parent = parent; lower = lower }))
      × Keeps (cells_of s.parent) (cells_of parent)
      × Bounded s.lower lower r (rank k)
unfolding raise raised
raise-Bounded s v r k root lt =
    let (p, e, keeps) = find-HasRoot s v r root in
    elim (Option-cases (get_elem? s.lower r)) [
      | inl out ↦ absurd (no_cell s.lower r lt out)
      | inr (low, f) ↦ (
        p,
        raised s.lower r low k,
        bind-some (find v) _ e
            ∙ rw f (
                ap (λ x. some (tt, x))
                  (either_lower (ltb (rank low) (rank k)) (record s { parent = p })
                    (set s.lower r k))),
        keeps,
        raised-Bounded s.lower r low k f,
      )
    ]

-- The places after two roots have become one: `rb` has the root `ra` now.
pub record Joined (s t : Kinds) (ra rb : ℕ) : Type 0 where
  pub roots :
      (i r : ℕ) → HasRoot (cells_of s.parent) i r → HasRoot (cells_of t.parent) i (moved rb ra r)
  pub same_length : length t.lower ≡ length s.lower
  pub here : rank_at t.lower ra ≡ max (rank_at s.lower ra) (rank_at s.lower rb)
  pub elsewhere : (i : ℕ) → i ≢ ra → rank_at t.lower i ≡ rank_at s.lower i

-- The parent of the root `rb` is the root `ra`.
linked-HasRoot :
    (parent : List ℕ) (a b ra rb : ℕ)
    → HasRoot (cells_of parent) a ra
    → HasRoot (cells_of parent) b rb
    → (ra == rb) ≡ false
    → (i r : ℕ) → HasRoot (cells_of parent) i r
    → HasRoot (cells_of (set parent rb ra)) i (moved rb ra r)
linked-HasRoot parent a b ra rb root_a root_b ne i r h =
    let (c, e, x) = Chase-IsRoot root_a.1 in
    let (d, f, y) = Chase-IsRoot root_b.1 in
    let here : rb ≡ 0 + rb = omega arith in
    subst (λ cs. HasRoot cs i (moved rb ra r))
      (sym (set-cells_from 0 parent rb ra (subst (λ n. (ra == n) ≡ false) here ne)))
      (link-HasRoot (cells_of parent) rb d f y ra e x (ground arith) i r h)

moved-same : (ra rb r : ℕ) → ra ≡ rb → moved rb ra r ≡ r
moved-same ra rb r e = elim (Bool-cases (r == rb)) [
  | inl same ↦ rw (moved, same) (e ∙ sym (==→eq r rb same))
  | inr other ↦ rw (moved, other) refl
]

moved-ne : (ra rb : ℕ) → (ra == rb) ≡ false → moved rb ra ra ≡ ra
moved-ne ra rb e = rw (moved, e) refl

root-lt : (parent : List ℕ) (v r : ℕ) → HasRoot (cells_of parent) v r → r < length parent
root-lt parent v r h =
    let (c, e, _) = Chase-IsRoot h.1 in
    subst (λ n. r < n) (length-cells_from 0 parent) (get_elem?-lt (cells_of parent) r e)

module _ (s : Kinds) (a b ra rb : ℕ) (l : length s.lower ≡ length s.parent)
    (root_a : HasRoot (cells_of s.parent) a ra) (root_b : HasRoot (cells_of s.parent) b rb) where
  join_roots-same :
      (q : List ℕ)
      → Keeps (cells_of s.parent) (cells_of q)
      → ra ≡ rb
      → (t : Kinds) × (join_roots ra rb (record s { parent = q }) ≡ some (tt, t)) × Joined s t ra rb
  unfolding join_roots
  join_roots-same q k same = (
    record s { parent = q },
    let e : (ra == rb) ≡ true = ground arith in rw (join_roots, e) refl,
    record {
      roots =
          λ i r h. subst (HasRoot (cells_of q) i) (sym (moved-same ra rb r same)) (k.roots i r h);
      same_length = refl;
      here = let e = ap (rank_at s.lower) same in omega arith;
      elsewhere = λ i ne. refl;
    },
  )

  join_roots-other :
      (q : List ℕ)
      → Keeps (cells_of s.parent) (cells_of q)
      → (ra == rb) ≡ false
      → (t : Kinds) × (join_roots ra rb (record s { parent = q }) ≡ some (tt, t)) × Joined s t ra rb
  unfolding join_roots
  join_roots-other q k other = elim (Option-cases (get_elem? s.lower rb)) [
    | inl out ↦
        absurd (no_cell s.lower rb (subst (λ n. rb < n) (sym l) (root-lt s.parent b rb root_b)) out)
    | inr (low, g) ↦
        let link = linked-HasRoot q a b ra rb (k.roots a ra root_a) (k.roots b rb root_b) other in
        let (c, f, x) = Chase-IsRoot (k.roots a ra root_a).1 in
        let top =
          subst (HasRoot (cells_of (set q rb ra)) ra) (moved-ne ra rb other)
            (link ra ra ([], stop f x)) in
        let (p, lower, e, keeps, bounded) =
          raise-Bounded (record s { parent = set q rb ra }) ra ra low top
            (subst (λ n. ra < n) (sym l) (root-lt s.parent a ra root_a)) in
        (
          record s { parent = p; lower = lower },
          rw (join_roots, other, g) e,
          record {
            roots = λ i r h. keeps.roots i (moved rb ra r) (link i r (k.roots i r h));
            same_length = bounded.same_length;
            here = omega (arith, bounded.here, rank_at-some s.lower rb low g);
            elsewhere = bounded.elsewhere;
          },
        )
  ]

  -- `union` of two places gives their classes the root of the first, whose bound becomes the greater
  -- of the two; every other place keeps its root, and every other root its bound.
  pub union-Joined : (t : Kinds) × (union a b s ≡ some (tt, t)) × Joined s t ra rb
  unfolding union
  union-Joined =
      let (p, e, k) = find-HasRoot s a ra root_a in
      let (q, f, m) = find-HasRoot (record s { parent = p }) b rb (k.roots b rb root_b) in
      let found =
        bind-some (find a) (λ x. find b >>= λ y. join_roots x y) {s = s} e
        ∙ bind-some (find b) (λ y. join_roots ra y) {s = record s { parent = p }} f in
      let (t, g, j) = joined q (Keeps-trans k m) in (t, found ∙ g, j)
    where
      joined :
          (q : List ℕ)
          → Keeps (cells_of s.parent) (cells_of q)
          → (t : Kinds) × (join_roots ra rb (record s { parent = q }) ≡ some (tt, t))
            × Joined s t ra rb
      joined q k = elim (Bool-cases (ra == rb)) [
        | inl same ↦ join_roots-same q k (==→eq ra rb same)
        | inr other ↦ join_roots-other q k other
      ]
