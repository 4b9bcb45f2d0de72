-- ===== src/Infer/Zonk/Variables.antt =====
-- `zonk`, `zonk_filtered` and `expand` at a variable.
use inty.Common.{
  ℕ, ◌≡◌, refl, sym, subst, inl, inr, Bool, Option, none, some, List, ltb, true, false, arith,
  Bool-cases, get_elem?, get_elem?-lt, set, length, get_elem?-set_self, ap,
}
use inty.Common.Dict.{has}
use inty.Types.Ty.{tvar_eq, TVarName, Ty, flex, skolem, var}
use inty.Infer.VarTable.{
  Resolution, unbound, link, bound, find, find_if_present, take_bound, restore_bound,
  root_resolution, is_free,
}
use inty.Infer.VarTable.Roots.{IsRoot, IsForest}
use inty.Infer.Zonk.{Zonk, on_table, zonk_bound, zonk_var, zonk_tail, filtered_var, filtered_tail}
use inty.Common.State.{Action, ◌>>=◌, pure}
use inty.Infer.Zonk.Expand.{
  Cells, expand_content, expand_var, expand_tail, content_in_scheme, var_in_scheme, tail_in_scheme,
  free_root,
}
use inty.Infer.Zonk.Tables.{
  Keeps-restore, Keeps-set, set-IsForest, Looks, root_of-HasRoot, find-Looks, find_if_present-Looks,
  root_resolution-Looks, is_free-Looks, Rooted, Rooted-IsForest, find-out_of_range,
  root_of-out_of_range,
}
use inty.Infer.Zonk.Simulation.{Same, Simulates, Simulates-pure}

pub Same-by :
    {A : Type 0} (cells : Cells) {m m' : Option (A × Zonk)} {n n' : Option (A × Bool)}
    → m ≡ m'
    → n ≡ n'
    → Same cells m' n'
    → Same cells m n
Same-by cells {m} {m'} {n} {n'} e f h =
    subst (λ x. Same cells x n) (sym e) (subst (λ x. Same cells m' x) (sym f) h)

-- A step that only looks, and then what follows.
Same-Looks :
    {A B : Type 0} (cells : Cells) (s : Zonk) (m : Action Zonk A) (a : A) (f : A → Action Zonk B)
    (n : Action Bool B)
    → Looks cells s (m s) a
    → Simulates cells (f a) n
    → Same cells ((m >>= f) s) (n s.overflowed)
Same-Looks cells s m a f n l h =
    Same-by cells (ap (λ o. elim o [ none ↦ none | some (b, t) ↦ f b t ]) l.result)
      (ap n (sym l.same_flag)) (h l.after l.keeps)

-- A root that is put back after what it is bound to was visited.
abbrev put_back : ℕ → Ty → Option (Ty × Zonk) → Option (Ty × Zonk)
unfolding restore_bound
put_back r ty m = elim m [
  | none ↦ none
  | some (u, s) ↦ (on_table (restore_bound r ty) >>= λ _. pure u) s
]

Same-put_back :
    (cells : Cells) (r : ℕ) (ty : Ty) (m : Option (Ty × Zonk)) (n : Option (Ty × Bool))
    → get_elem? cells r ≡ some (bound ty)
    → Same (set cells r (unbound 0 0)) m n
    → Same cells (put_back r ty m) n
unfolding restore_bound
Same-put_back cells r ty none none e h = tt
Same-put_back cells r ty none (some _) e h = absurd h
Same-put_back cells r ty (some _) none e h = absurd h
Same-put_back cells r ty (some (u, s)) (some (v, w)) e h =
    let there =
      (h.1.0.root_cells r (unbound 0 0) tt).0
        (get_elem?-set_self cells r (unbound 0 0) (get_elem?-lt cells r e)) in
    Same-by cells
      {m' = some
        (u, record s { table = record s.table { cells = set s.table.cells r (bound ty) } })}
      (ground arith) refl (h.0, (Keeps-restore cells s.table.cells r ty e h.1.0, h.1.1))

-- A root that is taken out, visited and put back.
module _ (cells : Cells) (forest : IsForest cells) (z : Ty → Action Zonk Ty)
    (y : Cells → Ty → Action Bool Ty)
    (h : (cells' : Cells) → IsForest cells' → (t : Ty) → Simulates cells' (z t) (y cells' t)) where
  Simulates-content :
      (r : ℕ) (c : Resolution Ty)
      → get_elem? cells r ≡ some c
      → IsRoot c
      → Simulates cells
          (on_table (take_bound r) >>= zonk_bound z r)
          (expand_content y cells r (some c))
  unfolding take_bound zonk_bound expand_content
  Simulates-content r (link _) e root s k = absurd root
  Simulates-content r (unbound l n) e root s k =
      let e' = (k.root_cells r (unbound l n) tt).0 e in
      Same-by cells {m' = some (var (flex r), s)} (ground arith) refl (refl, (k, refl))
  Simulates-content r (bound ty) e root s k =
      let e' = (k.root_cells r (bound ty) tt).0 e in
      let taken : Zonk = record s {
        table = record s.table { cells = set s.table.cells r (unbound 0 0) };
      } in
      Same-by cells {m' = put_back r ty (z ty taken)} (ground arith) refl (
        Same-put_back cells r ty (z ty taken) _ e (
          h (set cells r (unbound 0 0))
            (set-IsForest cells r (bound ty) e tt (unbound 0 0) tt forest) ty taken
            (Keeps-set cells r (bound ty) e tt s.table.cells k (unbound 0 0) tt)))

  Simulates-rooted_var :
      (id : ℕ) (g : Rooted cells id)
      → Simulates cells (zonk_var z id) (expand_content y cells g.root (some g.content))
  unfolding zonk_var
  Simulates-rooted_var id g s k =
      Same-Looks cells s (on_table (find_if_present id)) (some g.root) _
        (expand_content y cells g.root (some g.content))
        (find_if_present-Looks cells s k id g.root g.has)
        (Simulates-content g.root g.content g.here g.is_root)

  pub Simulates-var : (id : ℕ) → Simulates cells (zonk_var z id) (expand_var y cells id)
  unfolding zonk_var expand_var
  Simulates-var id s k = elim (Bool-cases (ltb id (length cells))) [
    | inl present ↦
        let g = Rooted-IsForest cells id forest present in
        Same-by cells refl
          (let e = root_of-HasRoot cells id g.root g.has in let f = g.here in ground arith)
          (Simulates-rooted_var id g s k)
    | inr new ↦
        Same-by cells {m' = some (var (flex id), s)} {n' = some (var (flex id), s.overflowed)}
          (ground (arith, k.same_length)) (rw (new) refl) (refl, (k, refl))
  ]

module _ (cells : Cells) (forest : IsForest cells) where
  pub Simulates-tail : (name : TVarName) → Simulates cells (zonk_tail name) (expand_tail cells name)
  unfolding zonk_tail expand_tail
  Simulates-tail (skolem n) s k = (refl, (k, refl))
  Simulates-tail (flex id) s k = elim (Bool-cases (ltb id (length cells))) [
    | inl present ↦
        let g = Rooted-IsForest cells id forest present in
        let e = root_of-HasRoot cells id g.root g.has in
        Same-by cells {n' = some (flex g.root, s.overflowed)} refl (ground arith) (
          Same-Looks cells s (on_table (find_if_present id)) (some g.root) _ (pure (flex g.root))
            (find_if_present-Looks cells s k id g.root g.has) (Simulates-pure cells (flex g.root)))
    | inr new ↦
        Same-by cells {m' = some (flex id, s)} {n' = some (flex id, s.overflowed)}
          (ground (arith, k.same_length)) (rw new refl) (refl, (k, refl))
  ]

  -- In a scheme.
  module _ (z : Ty → Action Zonk Ty) (y : Ty → Action Bool Ty)
      (h : (t : Ty) → Simulates cells (z t) (y t)) where
    Simulates-rooted_in_scheme :
        (id : ℕ) (g : Rooted cells id)
        → (c : Resolution Ty) → get_elem? cells g.root ≡ some c
        → IsRoot c
        → Simulates cells (filtered_var z id) (content_in_scheme y g.root (some c))
    unfolding filtered_var content_in_scheme
    Simulates-rooted_in_scheme id g (link _) e root s k = absurd root
    Simulates-rooted_in_scheme id g (bound ty) e root s k =
        Same-Looks cells s (on_table (root_resolution id)) (bound ty) _ (y ty)
          (root_resolution-Looks cells s k id g.root g.has (bound ty) e tt) (h ty)
    Simulates-rooted_in_scheme id g (unbound l n) e root s k =
        Same-Looks cells s (on_table (root_resolution id)) (unbound l n) _
          (pure (var (flex g.root)))
          (root_resolution-Looks cells s k id g.root g.has (unbound l n) e tt)
          (λ s1 k1.
            Same-Looks cells s1 (on_table (find id)) g.root _ (pure (var (flex g.root)))
              (find-Looks cells s1 k1 id g.root g.has) (Simulates-pure cells (var (flex g.root))))

    pub Simulates-var_in_scheme :
        (id : ℕ) → Simulates cells (filtered_var z id) (var_in_scheme y cells id)
    unfolding filtered_var var_in_scheme
    Simulates-var_in_scheme id s k = elim (Bool-cases (ltb id (length cells))) [
      | inl present ↦
          let g = Rooted-IsForest cells id forest present in
          Same-by cells refl
            (let e = root_of-HasRoot cells id g.root g.has in let f = g.here in ground arith)
            (Simulates-rooted_in_scheme id g g.content g.here g.is_root s k)
      | inr new ↦
          let e = find-out_of_range cells id new s.table k.same_length in
          let f = root_of-out_of_range cells id new in
          Same-by cells {m' = none} {n' = none} (ground arith) (ground arith) tt
    ]

  Simulates-rooted_tail :
      (quantified : List TVarName) (id : ℕ)
      → has quantified (flex id) ≡ false
      → (g : Rooted cells id) → (c : Resolution Ty) → get_elem? cells g.root ≡ some c
      → IsRoot c
      → Simulates cells (filtered_tail quantified (flex id)) (pure (free_root id g.root (some c)))
  unfolding filtered_tail
  Simulates-rooted_tail quantified id free g (link _) e root = absurd root
  Simulates-rooted_tail quantified id free g (bound ty) e root = rw free (λ s k.
      Same-Looks cells s (on_table (is_free id)) false _ (pure (flex id))
        (is_free-Looks cells s k id g.root g.has (bound ty) e tt) (Simulates-pure cells (flex id)))
  Simulates-rooted_tail quantified id free g (unbound l n) e root = rw free (λ s k.
      Same-Looks cells s (on_table (is_free id)) true _ (pure (flex g.root))
        (is_free-Looks cells s k id g.root g.has (unbound l n) e tt)
        (λ s1 k1.
          Same-Looks cells s1 (on_table (find id)) g.root _ (pure (flex g.root))
            (find-Looks cells s1 k1 id g.root g.has) (Simulates-pure cells (flex g.root))))

  pub Simulates-tail_in_scheme :
      (quantified : List TVarName) (name : TVarName)
      → Simulates cells (filtered_tail quantified name) (tail_in_scheme quantified cells name)
  unfolding filtered_tail tail_in_scheme
  Simulates-tail_in_scheme quantified (skolem n) s k = (refl, (k, refl))
  Simulates-tail_in_scheme quantified (flex id) s k = elim (Bool-cases (has quantified (flex id))) [
    | inl kept ↦
        Same-by cells {m' = some (flex id, s)} {n' = some (flex id, s.overflowed)} (rw kept refl)
          (rw kept refl) (refl, (k, refl))
    | inr free ↦ elim (Bool-cases (ltb id (length cells))) [
      | inl present ↦
          let g = Rooted-IsForest cells id forest present in
          let e = root_of-HasRoot cells id g.root g.has in
          let f = g.here in
          Same-by cells refl (ground arith)
            (Simulates-rooted_tail quantified id free g g.content g.here g.is_root s k)
      | inr new ↦
          let e = find-out_of_range cells id new s.table k.same_length in
          let f = root_of-out_of_range cells id new in
          Same-by cells {m' = none} {n' = none} (ground arith) (ground arith) tt
    ]
  ]
