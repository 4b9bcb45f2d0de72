-- ===== src/Infer/Zonk/Tables.antt =====
-- What the steps of `zonk` do to the table: a look-up keeps the classes and the root contents, and
-- so does a root that is taken out and put back with a visit between.
use inty.Common.{
  ℕ, ◌≡◌, refl, ◌≢◌, sym, ◌∙◌, subst, inl, inr, Option, some, List, ltb, true, false, ◌<◌, arith,
  Bool-cases, ◌==◌, get_elem?, get_elem?-lt, get_elem?-set_self, get_elem?-set_ne, set,
  set-set_back, length-set, length, ==→eq, none, get_elem?-ge,
}
use inty.Types.Ty.{Ty}
use inty.Infer.VarTable.{
  Resolution, unbound, bound, VarTable, find, find_if_present, is_free, root_resolution, is_unbound,
  walk,
}
use inty.Infer.VarTable.Roots.{IsRoot, HasRoot, IsForest, walk-root, Chase-IsRoot, HasRoot-lt}
use inty.Infer.VarTable.Find.{Keeps, Keeps-trans, find-Chase}
use inty.Infer.VarTable.Link.{write-HasRoot}
use inty.Infer.VarTable.Binding.{root_resolution-HasRoot, is_free-HasRoot}
use inty.Infer.VarTable.Forest.{IsForest-of_roots}
use inty.Infer.Zonk.{Zonk, on_table}
use inty.Infer.Zonk.Expand.{Cells, root_of}

module _ {T : Type 0} (cells : List (Resolution T)) (r : ℕ) (old : Resolution T)
    (here : get_elem? cells r ≡ some old) (root : IsRoot old) where
  pub set-IsForest : (d : Resolution T) → IsRoot d → IsForest cells → IsForest (set cells r d)
  set-IsForest d h =
      IsForest-of_roots cells (set cells r d) (length-set cells r d)
        (λ i s g. (s, write-HasRoot cells r old here root d i s h g))

  unset-HasRoot :
      (d : Resolution T) (i s : ℕ) → IsRoot d → HasRoot (set cells r d) i s → HasRoot cells i s
  unset-HasRoot d i s h g =
      subst (λ x. HasRoot x i s) (set-set_back cells r d here)
        (write-HasRoot (set cells r d) r d
          (get_elem?-set_self cells r d (get_elem?-lt cells r here)) h old i s root g)

  set_at :
      (xs : List (Resolution T)) (d : Resolution T) (i : ℕ)
      → r < length xs
      → (r == i) ≡ true
      → get_elem? (set xs r d) i ≡ some d
  set_at xs d i lt same =
      subst (λ n. get_elem? (set xs r d) n ≡ some d) (==→eq r i same) (get_elem?-set_self xs r d lt)

  module _ (cells' : List (Resolution T)) (k : Keeps cells cells') where
    pub Keeps-set : (d : Resolution T) → IsRoot d → Keeps (set cells r d) (set cells' r d)
    Keeps-set d h = record {
      same_length = length-set cells' r d ∙ k.same_length ∙ sym (length-set cells r d);
      root_cells = λ i c g. elim (Bool-cases (r == i)) [
        | inl same ↦
            let x = set_at cells d i (get_elem?-lt cells r here) same in
            let y =
              set_at cells' d i (get_elem?-lt cells' r ((k.root_cells r old root).0 here)) same in
            (λ e. y ∙ (sym x ∙ e), λ e. x ∙ (sym y ∙ e))
        | inr other ↦
            let ne : r ≢ i = ground arith in
            let x = get_elem?-set_ne cells d ne in
            let y = get_elem?-set_ne cells' d ne in
            (
              λ e. y ∙ (k.root_cells i c g).0 (sym x ∙ e),
              λ e. x ∙ (k.root_cells i c g).1 (sym y ∙ e),
            )
      ];
      roots = λ i s g.
          write-HasRoot cells' r old ((k.root_cells r old root).0 here) root d i s h
            (k.roots i s (unset-HasRoot d i s h g));
    }

-- The content of a root is back after a visit of the table in which the root was unbound.
pub Keeps-restore :
    {T : Type 0} (cells cells' : List (Resolution T)) (r : ℕ) (ty : T)
    → get_elem? cells r ≡ some (bound ty)
    → Keeps (set cells r (unbound 0 0)) cells'
    → Keeps cells (set cells' r (bound ty))
Keeps-restore cells cells' r ty here k =
    subst (λ x. Keeps x (set cells' r (bound ty))) (set-set_back cells r (unbound 0 0) here)
      (Keeps-set (set cells r (unbound 0 0)) r (unbound 0 0)
        (get_elem?-set_self cells r (unbound 0 0) (get_elem?-lt cells r here)) tt cells' k
        (bound ty) tt)

pub root_of-HasRoot : (cells : Cells) (id r : ℕ) → HasRoot cells id r → root_of cells id ≡ some r
unfolding root_of
root_of-HasRoot cells id r h = rw (root_of, walk-root h.1) refl

-- An action that gives `a` at `s`, and keeps `cells`.
pub record Looks {A : Type 0} (cells : Cells) (s : Zonk) (m : Option (A × Zonk)) (a : A)
    : Type 0 where
  pub after : Zonk
  pub result : m ≡ some (a, after)
  pub keeps : Keeps cells after.table.cells
  pub same_flag : after.overflowed ≡ s.overflowed

module _ (cells : Cells) (s : Zonk) (k : Keeps cells s.table.cells) (id r : ℕ)
    (h : HasRoot cells id r) where
  pub find-Looks : Looks cells s (on_table (find id) s) r
  find-Looks =
      let (t', e, c, _) = find-Chase s.table id r (k.roots id r h).1 in
      record {
        after = record s { table = t' };
        result = ground arith;
        keeps = Keeps-trans k c.keeps;
        same_flag = refl;
      }

  pub find_if_present-Looks : Looks cells s (on_table (find_if_present id) s) (some r)
  unfolding find_if_present
  find_if_present-Looks =
      let (t', e, c, _) = find-Chase s.table id r (k.roots id r h).1 in
      record {
        after = record s { table = t' };
        result = ground (arith, HasRoot-lt s.table.cells id r (k.roots id r h));
        keeps = Keeps-trans k c.keeps;
        same_flag = refl;
      }

  module _ (c : Resolution Ty) (here : get_elem? cells r ≡ some c) (root : IsRoot c) where
    pub root_resolution-Looks : Looks cells s (on_table (root_resolution id) s) c
    root_resolution-Looks =
        let (t', e, l) =
          root_resolution-HasRoot s.table id r c (k.roots id r h) ((k.root_cells r c root).0 here)
            root in
        record {
          after = record s { table = t' };
          result = ground arith;
          keeps = Keeps-trans k l.keeps;
          same_flag = refl;
        }

    pub is_free-Looks : Looks cells s (on_table (is_free id) s) (is_unbound c)
    is_free-Looks =
        let (t', e, l) =
          is_free-HasRoot s.table id r c (k.roots id r h) ((k.root_cells r c root).0 here) root in
        record {
          after = record s { table = t' };
          result = ground arith;
          keeps = Keeps-trans k l.keeps;
          same_flag = refl;
        }

-- An id with its root and what is there.
pub record Rooted (cells : Cells) (id : ℕ) : Type 0 where
  pub root : ℕ
  pub content : Resolution Ty
  pub has : HasRoot cells id root
  pub here : get_elem? cells root ≡ some content
  pub is_root : IsRoot content

pub Rooted-IsForest :
    (cells : Cells) (id : ℕ) → IsForest cells → ltb id (length cells) ≡ true → Rooted cells id
Rooted-IsForest cells id forest h =
    let lt : id < length cells = ground arith in
    let (r, has) = forest id lt in
    let (c, e, root) = Chase-IsRoot has.1 in
    record { root = r; content = c; has = has; here = e; is_root = root }

-- An id that the cells do not hold: `find` panics, and so does all that starts with it.
module _ (cells : Cells) (id : ℕ) (out : ltb id (length cells) ≡ false) where
  pub root_of-out_of_range : root_of cells id ≡ none
  unfolding root_of walk
  root_of-out_of_range = let e = get_elem?-ge cells id (ground arith) in ground arith

  pub find-out_of_range : (t : VarTable Ty) → length t.cells ≡ length cells → find id t ≡ none
  unfolding find walk
  find-out_of_range t l = let e = get_elem?-ge t.cells id (ground arith) in ground arith
