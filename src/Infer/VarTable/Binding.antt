-- ===== src/Infer/VarTable/Binding.antt =====
-- `root_resolution`, `is_free`, `bind`, `force_bind_root` and `link_to_root` on classes.
use inty.Common.{
  ℕ, ◌≡◌, refl, ◌≢◌, sym, ◌∙◌, subst, inl, inr, some, ◌∷◌, arith, ◌==◌, Bool-cases, get_elem?,
  get_elem?-lt, get_elem?-set_self, get_elem?-set_ne, set, length, length-set,
}
use inty.Infer.VarTable.{
  Resolution, unbound, link, bound, VarTable, ◌>>◌, is_unbound, overwrite, bind, force_bind_root,
  root_resolution, is_free, link_to_root,
}
use inty.Infer.VarTable.Roots.{IsRoot, HasRoot}
use inty.Infer.VarTable.Find.{Compressed, find-Chase}
use inty.Infer.VarTable.Link.{moved, write-HasRoot, link-HasRoot}

module _ {T : Type 0} where
  -- `root_resolution` reads the root's cell.
  pub root_resolution-HasRoot :
      (t : VarTable T) (id r : ℕ) (c : Resolution T)
      → HasRoot t.cells id r
      → get_elem? t.cells r ≡ some c
      → IsRoot c
      → (t' : VarTable T) × (root_resolution id t ≡ some (c, t')) × Compressed t t'
  unfolding root_resolution
  root_resolution-HasRoot t id r c (p, ch) e h =
      let (u, f, k, _) = find-Chase t id r ch in
      let e' = (k.keeps.root_cells r c h).0 e in (u, ground arith, k)

  pub is_free-HasRoot :
      (t : VarTable T) (id r : ℕ) (c : Resolution T)
      → HasRoot t.cells id r
      → get_elem? t.cells r ≡ some c
      → IsRoot c
      → (t' : VarTable T) × (is_free id t ≡ some (is_unbound c, t')) × Compressed t t'
  unfolding is_free
  is_free-HasRoot t id r c (p, ch) e h =
      let (u, f, k, _) = find-Chase t id r ch in
      let e' = (k.keeps.root_cells r c h).0 e in (u, ground arith, k)

  -- The root `r` has the content `c` now; all else is as before.
  pub record Written (t t' : VarTable T) (r : ℕ) (c : Resolution T) : Type 0 where
    pub same_length : length t'.cells ≡ length t.cells
    pub same_level : t'.current_level ≡ t.current_level
    pub roots : (i s : ℕ) → HasRoot t.cells i s → HasRoot t'.cells i s
    pub top : get_elem? t'.cells r ≡ some c
    pub other_roots :
        (i : ℕ) (d : Resolution T)
        → IsRoot d
        → i ≢ r
        → get_elem? t.cells i ≡ some d
        → get_elem? t'.cells i ≡ some d

  pub overwrite-Written :
      (t : VarTable T) (r : ℕ) (old c : Resolution T)
      → get_elem? t.cells r ≡ some old
      → IsRoot old
      → IsRoot c
      → (t' : VarTable T) × (overwrite r c t ≡ some (tt, t')) × Written t t' r c
  unfolding overwrite
  overwrite-Written t r old c e h h' = (
    record t { cells = set t.cells r c; trail = (r, old) ∷ t.trail },
    ground arith,
    record {
      same_length = length-set t.cells r c;
      same_level = refl;
      roots = λ i s. write-HasRoot t.cells r old e h c i s h';
      top = get_elem?-set_self t.cells r c (get_elem?-lt t.cells r e);
      other_roots = λ i d _ ne f. get_elem?-set_ne t.cells c (λ same. ne (sym same)) ∙ f;
    },
  )

  pub Written-Compressed :
      {t u v : VarTable T} {r : ℕ} {c : Resolution T}
      → Compressed t u
      → Written u v r c
      → Written t v r c
  Written-Compressed k w = record {
    same_length = w.same_length ∙ k.keeps.same_length;
    same_level = w.same_level ∙ k.same_level;
    roots = λ i s h. w.roots i s (k.keeps.roots i s h);
    top = w.top;
    other_roots = λ i d h ne f. w.other_roots i d h ne ((k.keeps.root_cells i d h).0 f);
  }

  -- `bind` gives the root of the id the content `bound ty`.
  pub bind-Written :
      (t : VarTable T) (id r level rank : ℕ) (ty : T)
      → HasRoot t.cells id r
      → get_elem? t.cells r ≡ some (unbound level rank)
      → (t' : VarTable T) × (bind id ty t ≡ some (tt, t')) × Written t t' r (bound ty)
  unfolding bind
  bind-Written t id r level rank ty (p, ch) e =
      let (u, f, k, _) = find-Chase t id r ch in
      let e' = (k.keeps.root_cells r (unbound level rank) tt).0 e in
      let (v, g, w) = overwrite-Written u r (unbound level rank) (bound ty) e' tt tt in
      (v, ground arith, Written-Compressed k w)

  pub force_bind_root-Written :
      (t : VarTable T) (r : ℕ) (old : Resolution T) (ty : T)
      → get_elem? t.cells r ≡ some old
      → IsRoot old
      → (t' : VarTable T) × (force_bind_root r ty t ≡ some (tt, t')) × Written t t' r (bound ty)
  unfolding force_bind_root
  force_bind_root-Written t r old ty e h = overwrite-Written t r old (bound ty) e h tt

  -- After `bind` of an id whose root is unbound, both of which succeed, `root_resolution` of every
  -- id of its class gives the type.
  pub bind-root_resolution :
      (t : VarTable T) (id j r level rank : ℕ) (ty : T)
      → HasRoot t.cells id r
      → HasRoot t.cells j r
      → get_elem? t.cells r ≡ some (unbound level rank)
      → (t' : VarTable T) × ((bind id ty >> root_resolution j) t ≡ some (bound ty, t'))
  bind-root_resolution t id j r level rank ty hi hj e =
      let (u, f, w) = bind-Written t id r level rank ty hi e in
      let (v, g, _) = root_resolution-HasRoot u j r (bound ty) (w.roots j r hj) w.top tt in
      (v, ground arith)

  -- The root `child` is a link to the root `parent` now.
  pub record Linked (t t' : VarTable T) (child parent : ℕ) : Type 0 where
    pub same_length : length t'.cells ≡ length t.cells
    pub same_level : t'.current_level ≡ t.current_level
    pub roots : (i s : ℕ) → HasRoot t.cells i s → HasRoot t'.cells i (moved child parent s)
    pub others : (i : ℕ) → i ≢ child → get_elem? t'.cells i ≡ get_elem? t.cells i

  -- `link_to_root` of two roots succeeds: the ids of the child's class have the parent as their
  -- root, all others keep theirs, and no cell but the child's changes. A root that is linked to
  -- itself stays as it is.
  link_to_root-Linked :
      (t : VarTable T) (child parent : ℕ) (c d : Resolution T)
      → get_elem? t.cells child ≡ some c
      → IsRoot c
      → get_elem? t.cells parent ≡ some d
      → IsRoot d
      → (t' : VarTable T) × (link_to_root child parent t ≡ some (tt, t')) × Linked t t' child parent
  unfolding link_to_root overwrite
  link_to_root-Linked t child parent c d e h e' h' = elim (Bool-cases (child == parent)) [
    | inl same ↦ (
      t,
      ground arith,
      record {
        same_length = refl;
        same_level = refl;
        roots = λ i s f. subst (HasRoot t.cells i) (ground arith) f;
        others = λ i ne. refl;
      },
    )
    | inr other ↦ (
      record t { cells = set t.cells child (link parent); trail = (child, c) ∷ t.trail },
      ground arith,
      record {
        same_length = length-set t.cells child (link parent);
        same_level = refl;
        roots = λ i s f. link-HasRoot t.cells child c e h parent e' h' (ground arith) i s f;
        others = λ i ne. get_elem?-set_ne t.cells (link parent) (λ same. ne (sym same));
      },
    )
  ]
