-- ===== src/Infer/Zonk/Head/Reads.antt =====
-- The two loops that look for a head give the head that the cells say.
use inty.Common.{
  ℕ, zero, suc, ◌≡◌, refl, sym, ◌∙◌, inl, inr, false, Option, none, some, [], ltb, length, arith,
  Bool-cases, Option-cases, get_elem?, ap,
}
use inty.Types.Ty.{Ty, flex, var}
use inty.Infer.VarTable.{
  Resolution, unbound, link, bound, VarTable, find_if_present, root_resolution, bound_to,
}
use inty.Infer.VarTable.Roots.{stop, IsRoot, IsForest, HasRoot-lt}
use inty.Infer.VarTable.Find.{Keeps, Keeps-refl, Keeps-trans, find-Chase}
use inty.Infer.VarTable.Binding.{root_resolution-HasRoot}
use inty.Infer.Zonk.Expand.{Cells}
use inty.Infer.Zonk.Tables.{Rooted, Rooted-IsForest, root_of-out_of_range, root_of-HasRoot}
use inty.Infer.Zonk.Head.{
  Head, borrowed, shared, owned, into_owned, max_rounds, as_flex, head_rounds, zonk_head_cow,
  look_rounds, with_head, head_at_content, look_at,
}
use inty.Infer.Zonk.Head.Meaning.{head_at, head_of, bind-some, Returns, Returns-by}

module _ (cells : Cells) (forest : IsForest cells) where
  head_of-Rooted :
      (k id : ℕ) (g : Rooted cells id)
      → head_of cells (suc k) id ≡ head_at (head_of cells k) g.root g.content
  unfolding head_of head_at
  head_of-Rooted k id g = rw (head_of, root_of-HasRoot cells id g.root g.has, g.here) refl

  head_of-out_of_range :
      (k id : ℕ) → ltb id (length cells) ≡ false → head_of cells (suc k) id ≡ var (flex id)
  unfolding head_of
  head_of-out_of_range k id out = rw (head_of, root_of-out_of_range cells id out) refl

  find_if_present-out_of_range :
      (t : VarTable Ty)
      → length t.cells ≡ length cells
      → (id : ℕ) → ltb id (length cells) ≡ false
      → find_if_present id t ≡ some (none, t)
  unfolding find_if_present
  find_if_present-out_of_range t l id out = rw (l, out) refl

  -- The steps of a round at an id that the table holds.
  module _ (t : VarTable Ty) (keeps : Keeps cells t.cells) (id : ℕ) (g : Rooted cells id) where
    find_root :
        (u : VarTable Ty) × (find_if_present id t ≡ some (some g.root, u)) × Keeps cells u.cells
    unfolding find_if_present
    find_root =
        let (u, e, c, _) = find-Chase t id g.root (keeps.roots id g.root g.has).1 in
        (
          u,
          ground (arith, HasRoot-lt t.cells id g.root (keeps.roots id g.root g.has)),
          Keeps-trans keeps c.keeps,
        )

    read_root :
        (u : VarTable Ty) × (root_resolution g.root t ≡ some (g.content, u)) × Keeps cells u.cells
    read_root =
        let e = (keeps.root_cells g.root g.content g.is_root).0 g.here in
        let (u, f, c) =
          root_resolution-HasRoot t g.root g.root g.content ([], stop e g.is_root) e g.is_root in
        (u, f, Keeps-trans keeps c.keeps)

  module _ (k id root : ℕ) (t u : VarTable Ty)
      (found : find_if_present id t ≡ some (some root, u)) where
    module _ (c : Resolution Ty) (v : VarTable Ty)
        (read : root_resolution root u ≡ some (c, v)) where
      round-content : head_rounds (suc k) id t ≡ head_at_content (head_rounds k) root c v
      unfolding head_rounds
      round-content =
          bind-some (find_if_present id) _ found ∙ bind-some (root_resolution root) _ read

    round-head_at :
        ((next : ℕ) (v : VarTable Ty)
          → Keeps cells v.cells
          → Returns cells (head_rounds k next v) into_owned (head_of cells k next))
        → (c : Resolution Ty) (v : VarTable Ty) → root_resolution root u ≡ some (c, v)
        → IsRoot c
        → Keeps cells v.cells
        → Returns cells (head_rounds (suc k) id t) into_owned (head_at (head_of cells k) root c)
    unfolding head_at into_owned head_at_content
    round-head_at h (link _) v e is_root keeps = absurd is_root
    round-head_at h (unbound x y) v e is_root keeps = record {
      result = owned (var (flex root));
      after = v;
      returns = round-content (unbound x y) v e;
      value = refl;
      keeps = keeps;
    }
    round-head_at h (bound ty) v e is_root keeps = elim (Option-cases (as_flex ty)) [
      | inl skip ↦ record {
        result = shared ty;
        after = v;
        returns = round-content (bound ty) v e ∙ rw (head_at_content, skip) refl;
        value = rw (head_at, skip) refl;
        keeps = keeps;
      }
      | inr (next, f) ↦
          Returns-by cells {m' = head_rounds k next v} into_owned
            (round-content (bound ty) v e ∙ rw (head_at_content, f) refl) (rw (head_at, f) refl)
            (h next v keeps)
    ]

  head_rounds-head_of :
      (k id : ℕ) (t : VarTable Ty)
      → Keeps cells t.cells
      → Returns cells (head_rounds k id t) into_owned (head_of cells k id)
  unfolding head_rounds head_of into_owned
  head_rounds-head_of zero id t keeps = record {
    result = owned (var (flex id));
    after = t;
    returns = refl;
    value = refl;
    keeps = keeps;
  }
  head_rounds-head_of (suc k) id t keeps = elim (Bool-cases (ltb id (length cells))) [
    | inl present ↦
        let g = Rooted-IsForest cells id forest present in
        let (u, e, l) = find_root t keeps id g in
        let (v, f, l2) = read_root u l id g in
        Returns-by cells into_owned refl (head_of-Rooted k id g)
          (round-head_at k id g.root t u e (head_rounds-head_of k) g.content v f g.is_root l2)
    | inr out ↦ record {
      result = owned (var (flex id));
      after = t;
      returns =
          bind-some (find_if_present id) _
            (find_if_present-out_of_range t keeps.same_length id out);
      value = sym (head_of-out_of_range k id out);
      keeps = keeps;
    }
  ]

  module _ {R : Type 0} (f : Ty → R) where
    module _ (k id : ℕ) (t : VarTable Ty) (keeps : Keeps cells t.cells) (g : Rooted cells id) where
      look-content :
          (o : Option Ty) (u : VarTable Ty)
          → find_if_present id t ≡ some (some g.root, u)
          → bound_to u g.root ≡ o
          → look_rounds f (suc k) id t ≡ look_at f (look_rounds f k) g.root o u
      unfolding look_rounds
      look-content o u e there =
          bind-some (find_if_present id) _ e
          ∙ ap (λ p. look_at f (look_rounds f k) g.root p u) there

      look-head_at :
          ((next : ℕ) (v : VarTable Ty)
            → Keeps cells v.cells
            → Returns cells (look_rounds f k next v) (λ r. r) (f (head_of cells k next)))
          → (c : Resolution Ty) (u : VarTable Ty) → find_if_present id t ≡ some (some g.root, u)
          → get_elem? u.cells g.root ≡ some c
          → IsRoot c
          → Keeps cells u.cells
          → Returns cells
              (look_rounds f (suc k) id t)
              (λ r. r)
              (f (head_at (head_of cells k) g.root c))
      unfolding look_at head_at bound_to
      look-head_at h (link _) u e there is_root kept = absurd is_root
      look-head_at h (unbound x y) u e there is_root kept = record {
        result = f (var (flex g.root));
        after = u;
        returns = look-content none u e (rw (bound_to, there) refl);
        value = refl;
        keeps = kept;
      }
      look-head_at h (bound ty) u e there is_root kept = elim (Option-cases (as_flex ty)) [
        | inl skip ↦ record {
          result = f ty;
          after = u;
          returns =
              look-content (some ty) u e (rw (bound_to, there) refl) ∙ rw (look_at, skip) refl;
          value = rw (head_at, skip) refl;
          keeps = kept;
        }
        | inr (next, q) ↦
            Returns-by cells {m' = look_rounds f k next u} (λ r. r)
              (look-content (some ty) u e (rw (bound_to, there) refl) ∙ rw (look_at, q) refl)
              (rw (head_at, q) refl) (h next u kept)
      ]

    look_rounds-head_of :
        (k id : ℕ) (t : VarTable Ty)
        → Keeps cells t.cells
        → Returns cells (look_rounds f k id t) (λ r. r) (f (head_of cells k id))
    unfolding look_rounds head_of
    look_rounds-head_of zero id t keeps = record {
      result = f (var (flex id));
      after = t;
      returns = refl;
      value = refl;
      keeps = keeps;
    }
    look_rounds-head_of (suc k) id t keeps = elim (Bool-cases (ltb id (length cells))) [
      | inl present ↦
          let g = Rooted-IsForest cells id forest present in
          let (u, e, l) = find_root t keeps id g in
          Returns-by cells (λ r. r) refl (ap f (head_of-Rooted k id g))
            (look-head_at k id t keeps g (look_rounds-head_of k) g.content u e
              ((l.root_cells g.root g.content g.is_root).0 g.here) g.is_root l)
      | inr out ↦ record {
        result = f (var (flex id));
        after = t;
        returns =
            bind-some (find_if_present id) _
              (find_if_present-out_of_range t keeps.same_length id out);
        value = ap f (sym (head_of-out_of_range k id out));
        keeps = keeps;
      }
    ]

look_rounds-head_rounds :
    {R : Type 0} (f : Ty → R) (k id : ℕ) (t : VarTable Ty)
    → IsForest t.cells
    → (h : Head) × (u v : VarTable Ty) × (head_rounds k id t ≡ some (h, u))
      × (look_rounds f k id t ≡ some (f (into_owned h), v))
      × Keeps t.cells u.cells
      × Keeps t.cells v.cells
look_rounds-head_rounds f k id t forest =
    let a = head_rounds-head_of t.cells forest k id t (Keeps-refl t.cells) in
    let b = look_rounds-head_of t.cells forest f k id t (Keeps-refl t.cells) in
    (
      a.result,
      a.after,
      b.after,
      a.returns,
      b.returns ∙ ap (λ r. some (r, b.after)) (b.value ∙ sym (ap f a.value)),
      a.keeps,
      b.keeps,
    )

-- On a forest `zonk_head_cow` returns, and `with_head` returns what `f` says of that head. Both leave
-- the roots, their contents and the classes as they are.
pub with_head-zonk_head_cow :
    {R : Type 0} (f : Ty → R) (ty : Ty) (t : VarTable Ty)
    → IsForest t.cells
    → (h : Head) × (u v : VarTable Ty) × (zonk_head_cow ty t ≡ some (h, u))
      × (with_head f ty t ≡ some (f (into_owned h), v))
      × Keeps t.cells u.cells
      × Keeps t.cells v.cells
unfolding zonk_head_cow with_head into_owned
with_head-zonk_head_cow f ty t forest = elim (Option-cases (as_flex ty)) [
  | inl skip ↦ (
    borrowed ty,
    t,
    t,
    rw (zonk_head_cow, skip) refl,
    rw (with_head, skip) refl,
    Keeps-refl t.cells,
    Keeps-refl t.cells,
  )
  | inr (id, q) ↦
      let (h, u, v, e, d, k, l) = look_rounds-head_rounds f max_rounds id t forest in
      (h, u, v, rw (zonk_head_cow, q) e, rw (with_head, q) d, k, l)
]
