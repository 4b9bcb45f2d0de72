-- ===== src/Go/Kinds/Solve/Found.antt =====
-- The roots that `solve` looks up, and the kinds that it reads at them.
use inty.Common.{
  if◌then◌else◌, ℕ, zero, suc, ◌+◌, ◌≤◌, ◌<◌, ◌≡◌, refl, ap, sym, ◌∙◌, subst, inl, inr, ◌⊎◌, Bool,
  true, false, some, List, [], ◌∷◌, ◌==◌, ==→eq, arith, Bool-cases, Option-cases, length, get_elem?,
}
use inty.Common.Distinct.{contains}
use inty.Common.State.{bind-some}
use inty.Infer.VarTable.Roots.{HasRoot, IsForest, Chase-unique}
use inty.Infer.VarTable.Find.{Keeps, Keeps-trans}
use inty.Go.Kinds.{Kind, Kinds, find, rank}
use inty.Go.Kinds.Places.{cells_of, find-HasRoot}
use inty.Go.Kinds.Flow.{push_roots}
use inty.Go.Kinds.Flow.Step.{no_cell, rank_at, rank_at-some}
use inty.Go.Kinds.Solve.Graphs.{HasPair}
use inty.Go.Kinds.Solve.{find_each, find_pairs, read_each, range}

module _ (parent : List ℕ) where
  -- The roots of some places.
  abbrev pub Roots : List ℕ → List ℕ → Type 0
  Roots [] [] = Unit {0}
  Roots (v ∷ vs) (r ∷ rs) = HasRoot (cells_of parent) v r × Roots vs rs
  Roots _ _ = ⊥

  -- The roots of some pairs of places.
  abbrev pub RootPairs : List (ℕ × ℕ) → List (ℕ × ℕ) → Type 0
  RootPairs [] [] = Unit {0}
  RootPairs ((a, b) ∷ ps) ((ra, rb) ∷ qs) =
      HasRoot (cells_of parent) a ra × (HasRoot (cells_of parent) b rb × RootPairs ps qs)
  RootPairs _ _ = ⊥

  -- Each place is there.
  abbrev pub AreIn : List ℕ → Type 0
  AreIn [] = Unit {0}
  AreIn (v ∷ vs) = (v < length (cells_of parent)) × AreIn vs

  abbrev pub PairsAreIn : List (ℕ × ℕ) → Type 0
  PairsAreIn [] = Unit {0}
  PairsAreIn ((a, b) ∷ ps) =
      (a < length (cells_of parent)) × ((b < length (cells_of parent)) × PairsAreIn ps)

  module _ (forest : IsForest (cells_of parent)) where
    pub find_each-Roots :
        (vs : List ℕ) (s : Kinds)
        → Keeps (cells_of parent) (cells_of s.parent)
        → AreIn vs
        → (rs : List ℕ) × (p : List ℕ) × (find_each vs s ≡ some (rs, record s { parent = p }))
          × Keeps (cells_of parent) (cells_of p)
          × Roots vs rs
    unfolding find_each
    find_each-Roots [] s keeps h = ([], s.parent, refl, keeps, tt)
    find_each-Roots (v ∷ vs) s keeps h =
        let (r, root) = forest v h.0 in
        let (p, e, k) = find-HasRoot s v r (keeps.roots v r root) in
        let (rs, q, f, l, roots) =
          find_each-Roots vs (record s { parent = p }) (Keeps-trans keeps k) h.1 in
        (r ∷ rs, q, bind-some (find v) _ e ∙ bind-some (find_each vs) _ f, l, (root, roots))

    pub find_pairs-RootPairs :
        (ps : List (ℕ × ℕ)) (s : Kinds)
        → Keeps (cells_of parent) (cells_of s.parent)
        → PairsAreIn ps
        → (qs : List (ℕ × ℕ)) × (p : List ℕ) × (find_pairs ps s
            ≡ some (qs, record s { parent = p }))
          × Keeps (cells_of parent) (cells_of p)
          × RootPairs ps qs
    unfolding find_pairs
    find_pairs-RootPairs [] s keeps h = ([], s.parent, refl, keeps, tt)
    find_pairs-RootPairs ((a, b) ∷ ps) s keeps h =
        let (ra, root_a) = forest a h.0 in
        let (p, e, k) = find-HasRoot s a ra (keeps.roots a ra root_a) in
        let k1 = Keeps-trans keeps k in
        let (rb, root_b) = forest b h.1.0 in
        let (q, f, l) = find-HasRoot (record s { parent = p }) b rb (k1.roots b rb root_b) in
        let (qs, u, g, m, roots) =
          find_pairs-RootPairs ps (record s { parent = q }) (Keeps-trans k1 l) h.1.1 in
        (
          (ra, rb) ∷ qs,
          u,
          bind-some (find a) _ e ∙ (bind-some (find b) _ f ∙ bind-some (find_pairs ps) _ g),
          m,
          (root_a, (root_b, roots)),
        )

-- The places `from ..` are there.
pub AreIn-range :
    (parent : List ℕ) (from k : ℕ)
    → from + k ≤ length (cells_of parent)
    → AreIn parent (range from k)
AreIn-range parent from zero h = tt
AreIn-range parent from (suc k) h = (omega arith, AreIn-range parent (suc from) k (omega arith))

read_cons :
    (parent : List ℕ) (kind : List Kind) (k : Kind) (ks : List Kind) (v r : ℕ) (vs : List ℕ)
    → rank_at kind r ≡ rank k
    → HasRoot (cells_of parent) v r
    → ((i w q : ℕ)
        → get_elem? vs i ≡ some w
        → HasRoot (cells_of parent) w q
        → rank_at ks i ≡ rank_at kind q)
    → (i w q : ℕ) → get_elem? (v ∷ vs) i ≡ some w
    → HasRoot (cells_of parent) w q
    → rank_at (k ∷ ks) i ≡ rank_at kind q
unfolding rank_at
read_cons parent kind k ks v r vs e root h zero w q f root_w =
    let same : v ≡ w = ground arith in
    let eq = (Chase-unique (subst (λ x. HasRoot (cells_of parent) x r) same root).1 root_w.1).1 in
    sym e ∙ ap (rank_at kind) eq
read_cons parent kind k ks v r vs e root h (suc i) w q f root_w = h i w q f root_w

-- The kinds at the roots of some places, in their order.
pub read_each-Roots :
    (parent : List ℕ) (kind : List Kind) (vs rs : List ℕ)
    → Roots parent vs rs
    → ((v r : ℕ) → HasRoot (cells_of parent) v r → r < length kind)
    → (ks : List Kind) × (read_each kind rs ≡ some ks)
      × (length ks ≡ length vs)
      × ((i v r : ℕ)
          → get_elem? vs i ≡ some v
          → HasRoot (cells_of parent) v r
          → rank_at ks i ≡ rank_at kind r)
read_each-Roots parent kind [] [] h lt = ([], refl, refl, λ i v r e. cc)
read_each-Roots parent kind [] (_ ∷ _) h lt = absurd h
read_each-Roots parent kind (_ ∷ _) [] h lt = absurd h
read_each-Roots parent kind (v ∷ vs) (r ∷ rs) h lt = elim (Option-cases (get_elem? kind r)) [
  | inl e ↦ absurd (no_cell kind r (lt v r h.0) e)
  | inr (k, e) ↦
      let (ks, f, l, same) = read_each-Roots parent kind vs rs h.1 lt in
      (
        k ∷ ks,
        rw (read_each, e, f) refl,
        ap suc l,
        read_cons parent kind k ks v r vs (rank_at-some kind r k e) h.0 same,
      )
]

module _ (parent : List ℕ) where
  pub Roots-contains :
      (vs rs : List ℕ) (r : ℕ)
      → Roots parent vs rs
      → contains rs r ≡ true
      → (v : ℕ) × HasRoot (cells_of parent) v r
  Roots-contains [] [] r h e = cc
  Roots-contains [] (_ ∷ _) r h e = absurd h
  Roots-contains (_ ∷ _) [] r h e = absurd h
  Roots-contains (v ∷ vs) (q ∷ rs) r h e = elim (Bool-cases (q == r)) [
    | inl same ↦ (v, subst (HasRoot (cells_of parent) v) (==→eq q r same) h.0)
    | inr other ↦ Roots-contains vs rs r h.1 (ground arith)
  ]

  -- The pairs of roots come from pairs of places,
  pub RootPairs-from :
      (ps qs : List (ℕ × ℕ)) (ra rb : ℕ)
      → RootPairs parent ps qs
      → HasPair qs ra rb
      → (a b : ℕ) × HasRoot (cells_of parent) a ra × HasRoot (cells_of parent) b rb
  RootPairs-from [] [] ra rb h p = absurd p
  RootPairs-from [] (_ ∷ _) ra rb h p = absurd h
  RootPairs-from (_ ∷ _) [] ra rb h p = absurd h
  RootPairs-from ((a, b) ∷ ps) ((qa, qb) ∷ qs) ra rb h (inl (e, f)) =
      (a, b, subst (HasRoot (cells_of parent) a) e h.0, subst (HasRoot (cells_of parent) b) f h.1.0)
  RootPairs-from ((a, b) ∷ ps) ((qa, qb) ∷ qs) ra rb h (inr p) = RootPairs-from ps qs ra rb h.1.1 p

  -- and each pair of places has one.
  pub RootPairs-to :
      (ps qs : List (ℕ × ℕ)) (a b : ℕ)
      → RootPairs parent ps qs
      → HasPair ps a b
      → (ra rb : ℕ) × HasRoot (cells_of parent) a ra
        × HasRoot (cells_of parent) b rb
        × HasPair qs ra rb
  RootPairs-to [] [] a b h p = absurd p
  RootPairs-to [] (_ ∷ _) a b h p = absurd h
  RootPairs-to (_ ∷ _) [] a b h p = absurd h
  RootPairs-to ((x, y) ∷ ps) ((qa, qb) ∷ qs) a b h (inl (e, f)) = (
    qa,
    qb,
    subst (λ v. HasRoot (cells_of parent) v qa) e h.0,
    subst (λ v. HasRoot (cells_of parent) v qb) f h.1.0,
    inl (refl, refl),
  )
  RootPairs-to ((x, y) ∷ ps) ((qa, qb) ∷ qs) a b h (inr p) =
      let (ra, rb, c, d, g) = RootPairs-to ps qs a b h.1.1 p in (ra, rb, c, d, inr g)

push_roots-stays :
    (from : ℕ) (parent work : List ℕ) (a : ℕ)
    → contains work a ≡ true
    → contains (push_roots from parent work) a ≡ true
unfolding push_roots
push_roots-stays from [] work a h = h
push_roots-stays from (p ∷ parent) work a h =
    push_roots-stays (suc from) parent _ a (pushed (p == from) h)
  where
    pushed :
        (b : Bool) → contains work a ≡ true → contains (if b then from ∷ work else work) a ≡ true
    pushed false g = g
    pushed true g = ground arith

-- Every root is on the work list that `solve` starts with, and nothing that is no place.
pub push_roots-root :
    (from : ℕ) (parent work : List ℕ) (j : ℕ)
    → get_elem? parent j ≡ some (from + j)
    → contains (push_roots from parent work) (from + j) ≡ true
unfolding push_roots
push_roots-root from [] work j e = cc
push_roots-root from (p ∷ parent) work zero e =
    let same : (p == from) ≡ true = ground arith in
    push_roots-stays (suc from) parent _ (from + 0) (rw same (ground arith))
push_roots-root from (p ∷ parent) work (suc j) e =
    let there : suc from + j ≡ from + suc j = omega arith in
    subst
      (λ n.
        contains (push_roots (suc from) parent (if p == from then from ∷ work else work)) n ≡ true)
      there (push_roots-root (suc from) parent _ j (e ∙ ap some (sym there)))

pub push_roots-within :
    (from : ℕ) (parent work : List ℕ) (a : ℕ)
    → contains (push_roots from parent work) a ≡ true
    → (contains work a ≡ true) ⊎ (a < from + length parent)
unfolding push_roots
push_roots-within from [] work a h = inl h
push_roots-within from (p ∷ parent) work a h = elim (push_roots-within (suc from) parent _ a h) [
  | inl g ↦ pushed (p == from) g
  | inr lt ↦ inr (omega arith)
]
  where
    pushed :
        (b : Bool)
        → contains (if b then from ∷ work else work) a ≡ true
        → (contains work a ≡ true) ⊎ (a < from + suc (length parent))
    pushed false g = inl g
    pushed true g = elim (Bool-cases (from == a)) [
      | inl same ↦ let eq = ==→eq from a same in inr (omega arith)
      | inr other ↦ inl (ground arith)
    ]
