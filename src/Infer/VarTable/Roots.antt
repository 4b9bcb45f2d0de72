-- ===== src/Infer/VarTable/Roots.antt =====
-- Chains of links in the cells of a table, and the walk along one (the first loop of `find`).
use inty.Common.{
  ℕ, zero, suc, ◌≤◌, ◌<◌, ◌≡◌, refl, ap, subst, inl, inr, true, Option, some, List, [], ◌∷◌, arith,
  ◌==◌, ==→eq, Bool-cases, length, get_elem?, get_elem?-lt, All,
}
use inty.Common.Distinct.{contains, Distinct, length-le_of_Distinct}
use inty.Infer.VarTable.{Resolution, unbound, link, bound, at_root, walk}

abbrev pub IsRoot : {T : Type 0} → Resolution T → Type 0
IsRoot (link _) = ⊥
IsRoot _ = Unit {0}

module _ {T : Type 0} where
  -- From `id` the links of `path` lead to the root `r`.
  pub data Chase (cells : List (Resolution T)) : ℕ → List ℕ → ℕ → Type 0 where
    stop :
        {id : ℕ} {c : Resolution T} → get_elem? cells id ≡ some c → IsRoot c → Chase cells id [] id
    hop :
        {id next r : ℕ} {path : List ℕ}
        → get_elem? cells id ≡ some (link next)
        → Chase cells next path r
        → Chase cells id (id ∷ path) r

  abbrev pub HasRoot : List (Resolution T) → ℕ → ℕ → Type 0
  HasRoot cells id r = (path : List ℕ) × Chase cells id path r

  -- Every id has a root: links stay in range and make no cycle.
  abbrev pub IsForest : List (Resolution T) → Type 0
  IsForest cells = (id : ℕ) → id < length cells → (r : ℕ) × HasRoot cells id r

  pub link-ne-root :
      {o : Option (Resolution T)} {next : ℕ} {c : Resolution T}
      → o ≡ some (link next)
      → o ≡ some c
      → IsRoot c
      → ⊥
  link-ne-root {c = link _} e e' h = h
  link-ne-root {c = unbound _ _} e e' h = cc
  link-ne-root {c = bound _} e e' h = cc

  pub HasRoot-lt : (cells : List (Resolution T)) (id r : ℕ) → HasRoot cells id r → id < length cells
  HasRoot-lt cells id r (_, stop e h) = get_elem?-lt cells id e
  HasRoot-lt cells id r (_, hop e c) = get_elem?-lt cells id e

  module _ {cells : List (Resolution T)} where
    pub Chase-unique :
        {id r s : ℕ} {p q : List ℕ} → Chase cells id p r → Chase cells id q s → (p ≡ q) × (r ≡ s)
    Chase-unique (stop e h) (stop e' h') = (refl, refl)
    Chase-unique (stop e h) (hop e' c) = absurd (link-ne-root e' e h)
    Chase-unique (hop e c) (stop e' h') = absurd (link-ne-root e e' h')
    Chase-unique {s} (hop {id} {next} e c) (hop {next = next'} {path = path'} e' c') =
        let same : next' ≡ next = cc (e, e') in
        let (paths, roots) = Chase-unique c (subst (λ n. Chase cells n path' s) same c') in
        (ap (◌∷◌ id) paths, roots)

    -- The root of a chain is a root.
    pub Chase-IsRoot :
        {id r : ℕ} {p : List ℕ}
        → Chase cells id p r
        → (c : Resolution T) × (get_elem? cells r ≡ some c) × IsRoot c
    Chase-IsRoot (stop {c} e h) = (c, e, h)
    Chase-IsRoot (hop e c) = Chase-IsRoot c

    -- Each id on the way has a chain that is no longer.
    Chase-member :
        {id r : ℕ} {p : List ℕ} (m : ℕ)
        → Chase cells id p r
        → contains p m ≡ true
        → (q : List ℕ) × Chase cells m q r × (length q ≤ length p)
    Chase-member m (stop e h) i = cc
    Chase-member m (hop {id} {r} {path} e c) i = elim (Bool-cases (id == m)) [
      | inl here ↦ (
        id ∷ path,
        subst (λ n. Chase cells n (id ∷ path) r) (==→eq id m here) (hop e c),
        omega arith,
      )
      | inr there ↦ let (q, c', l) = Chase-member m c (ground arith) in (q, c', omega arith)
    ]

    pub walk-Chase :
        {id r : ℕ} {p : List ℕ} (k : ℕ)
        → Chase cells id p r
        → length p < k
        → walk cells k id ≡ at_root p r
    unfolding walk
    walk-Chase zero c h = absurd (omega arith)
    walk-Chase (suc k) (stop {c = link _} e h) l = absurd h
    walk-Chase (suc k) (stop {c = unbound _ _} e h) l = rw (e, walk)
    walk-Chase (suc k) (stop {c = bound _} e h) l = rw (e, walk)
    walk-Chase (suc k) (hop e c) l = rw (e, walk, walk-Chase k c (omega arith))

    Chase-Distinct : {id r : ℕ} {p : List ℕ} → Chase cells id p r → Distinct p
    Chase-Distinct (stop e h) = tt
    Chase-Distinct (hop {id} {r} {path} e c) = (
      elim (Bool-cases (contains path id)) [
        | inl again ↦
            let (q, c', l) = Chase-member id c again in
            absurd (omega (arith, ap length (Chase-unique (hop e c) c').0))
        | inr new ↦ new
      ],
      Chase-Distinct c,
    )

    Chase-All : {id r : ℕ} {p : List ℕ} → Chase cells id p r → All (λ i. i < length cells) p
    Chase-All (stop e h) = tt
    Chase-All (hop {id} e c) = (get_elem?-lt cells id e, Chase-All c)

    -- No chain is longer than the table.
    pub length-Chase : {id r : ℕ} {p : List ℕ} → Chase cells id p r → length p ≤ length cells
    length-Chase {p} c = length-le_of_Distinct (length cells) p (Chase-Distinct c) (Chase-All c)

    -- The bound of `find`'s first loop suffices.
    pub walk-root :
        {id r : ℕ} {p : List ℕ}
        → Chase cells id p r
        → walk cells (suc (length cells)) id ≡ at_root p r
    walk-root {p} c = walk-Chase (suc (length cells)) c (omega (arith, length-Chase c))
