-- ===== src/Infer/VarTable/Find.antt =====
-- `find` returns the root of an id, and its path compression changes no class.
use inty.Common.{
  ℕ, ◌≡◌, refl, ◌≢◌, ◌↔◌, sym, ◌∙◌, subst, inl, inr, true, some, List, [], ◌∷◌, arith, ◌==◌, ==→eq,
  Bool-cases, length, get_elem?, get_elem?-lt, get_elem?-set_self, get_elem?-set_ne, length-set,
  set, All, All-map,
}
use inty.Infer.VarTable.{Resolution, link, VarTable, repoint, compress, find}
use inty.Infer.VarTable.Roots.{
  IsRoot, Chase, stop, hop, HasRoot, link-ne-root, Chase-unique, Chase-IsRoot, walk-root,
}

module _ {T : Type 0} where
  -- Same roots with the same contents, and each id keeps its root.
  pub record Keeps (cells cells' : List (Resolution T)) : Type 0 where
    pub same_length : length cells' ≡ length cells
    pub root_cells :
        (i : ℕ) (c : Resolution T)
        → IsRoot c
        → (get_elem? cells i ≡ some c) ↔ (get_elem? cells' i ≡ some c)
    pub roots : (i r : ℕ) → HasRoot cells i r → HasRoot cells' i r

  pub Keeps-refl : (cells : List (Resolution T)) → Keeps cells cells
  Keeps-refl cells = record {
    same_length = refl;
    root_cells = λ i c h. (λ e. e, λ e. e);
    roots = λ i r h. h;
  }

  pub Keeps-trans :
      {cells cells' cells'' : List (Resolution T)}
      → Keeps cells cells'
      → Keeps cells' cells''
      → Keeps cells cells''
  Keeps-trans k l = record {
    same_length = l.same_length ∙ k.same_length;
    root_cells = λ i c h. (
      λ e. (l.root_cells i c h).0 ((k.root_cells i c h).0 e),
      λ e. (k.root_cells i c h).1 ((l.root_cells i c h).1 e),
    );
    roots = λ i r h. l.roots i r (k.roots i r h);
  }

  -- A link that is made to point at its root.
  module _ (cells : List (Resolution T)) (node next r : ℕ) (path : List ℕ)
      (e : get_elem? cells node ≡ some (link next)) (c : Chase cells next path r) where
    pub link_there :
        (i : ℕ)
        → (node == i) ≡ true
        → (get_elem? cells i ≡ some (link next))
          × (get_elem? (set cells node (link r)) i ≡ some (link r))
    link_there i same =
        let eq = ==→eq node i same in
        (
          subst (λ n. get_elem? cells n ≡ some (link next)) eq e,
          subst (λ n. get_elem? (set cells node (link r)) n ≡ some (link r)) eq
              (get_elem?-set_self cells node (link r) (get_elem?-lt cells node e)),
        )

    redirect-root_cells :
        (i : ℕ) (c : Resolution T)
        → IsRoot c
        → (get_elem? cells i ≡ some c) ↔ (get_elem? (set cells node (link r)) i ≡ some c)
    redirect-root_cells i c h = elim (Bool-cases (node == i)) [
      | inl same ↦
          let (before, after) = link_there i same in
          (λ e'. absurd (link-ne-root before e' h), λ e'. absurd (link-ne-root after e' h))
      | inr other ↦
          let ne : node ≢ i = ground arith in
          (
            λ e'. get_elem?-set_ne cells (link r) ne ∙ e',
            λ e'. sym (get_elem?-set_ne cells (link r) ne) ∙ e',
          )
    ]

    redirect-roots :
        (i s : ℕ) {q : List ℕ} → Chase cells i q s → HasRoot (set cells node (link r)) i s
    redirect-roots i s (stop {c = d} e' h) = ([], stop ((redirect-root_cells i d h).0 e') h)
    redirect-roots i s (hop {next = n} e' c') = elim (Bool-cases (node == i)) [
      | inl same ↦
          let (before, after) = link_there i same in
          let (d, e_r, h) = Chase-IsRoot c in
          let there : Chase cells i (i ∷ path) r = hop before c in
          subst (HasRoot (set cells node (link r)) i) (Chase-unique there (hop e' c')).1
            (i ∷ [], hop after (stop ((redirect-root_cells r d h).0 e_r) h))
      | inr other ↦
          let ne : node ≢ i = ground arith in
          let (q', d) = redirect-roots n s c' in
          (i ∷ q', hop (get_elem?-set_ne cells (link r) ne ∙ e') d)
    ]

    pub redirect-Keeps : Keeps cells (set cells node (link r))
    redirect-Keeps = record {
      same_length = length-set cells node (link r);
      root_cells = redirect-root_cells;
      roots = λ i s (q, d). redirect-roots i s d;
    }

  -- `i` is below the root `r`.
  abbrev Below : List (Resolution T) → ℕ → ℕ → Type 0
  Below cells r i = HasRoot cells i r × (i ≢ r)

  Chase-Below :
      {cells : List (Resolution T)} {i r : ℕ} {p : List ℕ}
      → Chase cells i p r
      → All (Below cells r) p
  Chase-Below (stop e h) = tt
  Chase-Below {cells} (hop {id} {r} e c) =
      let (d, e_r, h) = Chase-IsRoot c in
      (
        (
          (_, hop e c),
          λ same. link-ne-root e (subst (λ n. get_elem? cells n ≡ some d) (sym same) e_r) h,
        ),
        Chase-Below c,
      )

  abbrev pub Direct : List (Resolution T) → ℕ → ℕ → Type 0
  Direct cells r i = get_elem? cells i ≡ some (link r)

  pub record Compressed (t t' : VarTable T) : Type 0 where
    pub keeps : Keeps t.cells t'.cells
    pub same_level : t'.current_level ≡ t.current_level

  -- What one round does to a table.
  record Repointed (t t' : VarTable T) (r node : ℕ) : Type 0 where
    compressed : Compressed t t'
    direct : Direct t'.cells r node
    stays : (i : ℕ) → Direct t.cells r i → Direct t'.cells r i

  repoint-Chase :
      (t : VarTable T) (r node : ℕ) {p : List ℕ}
      → Chase t.cells node p r
      → node ≢ r
      → (t' : VarTable T) × (repoint r node t ≡ some (tt, t')) × Repointed t t' r node
  unfolding repoint
  repoint-Chase t r node (stop e h) ne = absurd (ne refl)
  repoint-Chase t r node (hop {next} {path} e c) ne = elim (Bool-cases (next == r)) [
    | inl same ↦ (
      t,
      ground arith,
      record {
        compressed = record { keeps = Keeps-refl t.cells; same_level = refl };
        direct = subst (λ n. get_elem? t.cells node ≡ some (link n)) (==→eq next r same) e;
        stays = λ i h. h;
      },
    )
    | inr other ↦ (
      record t { cells = set t.cells node (link r); trail = (node, link next) ∷ t.trail },
      ground arith,
      record {
        compressed = record {
          keeps = redirect-Keeps t.cells node next r path e c;
          same_level = refl;
        };
        direct = get_elem?-set_self t.cells node (link r) (get_elem?-lt t.cells node e);
        stays = λ i h. elim (Bool-cases (node == i)) [
          | inl same ↦ (link_there t.cells node next r path e c i same).1
          | inr ne ↦ get_elem?-set_ne t.cells (link r) (ground arith) ∙ h
        ];
      },
    )
  ]

  Below-Keeps :
      {cells cells' : List (Resolution T)} {r : ℕ} (i : ℕ)
      → Keeps cells cells'
      → Below cells r i
      → Below cells' r i
  Below-Keeps i k (h, ne) = (k.roots i _ h, ne)

  compress-Below :
      (t : VarTable T) (r : ℕ) (p : List ℕ)
      → All (Below t.cells r) p
      → (t' : VarTable T) × (compress r p t ≡ some (tt, t'))
        × Compressed t t'
        × All (Direct t'.cells r) p
        × ((i : ℕ) → Direct t.cells r i → Direct t'.cells r i)
  unfolding compress
  compress-Below t r [] b =
      (t, refl, record { keeps = Keeps-refl t.cells; same_level = refl }, tt, λ i h. h)
  compress-Below t r (node ∷ p) b =
      let (u, e, once) = repoint-Chase t r node b.0.0.1 b.0.1 in
      let (v, e', rest, direct, stays) = compress-Below u r p (
        All-map (Below t.cells r) (Below u.cells r) p (λ i. Below-Keeps i once.compressed.keeps)
          b.1) in
      (
        v,
        ground arith,
        record {
          keeps = Keeps-trans once.compressed.keeps rest.keeps;
          same_level = rest.same_level ∙ once.compressed.same_level;
        },
        (stays node once.direct, direct),
        λ i h. stays i (once.stays i h),
      )

  -- `find` returns the root, and leaves every link that it followed pointing at the root.
  pub find-Chase :
      (t : VarTable T) (id r : ℕ) {p : List ℕ}
      → Chase t.cells id p r
      → (t' : VarTable T) × (find id t ≡ some (r, t')) × Compressed t t' × All (Direct t'.cells r) p
  unfolding find
  find-Chase t id r {p} c =
      let (t', e, compressed, direct, stays) = compress-Below t r p (Chase-Below c) in
      (t', ground (arith, walk-root c), compressed, direct)
