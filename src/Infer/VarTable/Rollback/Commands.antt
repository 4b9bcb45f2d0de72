-- ===== src/Infer/VarTable/Rollback/Commands.antt =====
-- Each command of the table records its writes, so that a run of commands can be undone.
use inty.Common.{
  ℕ, zero, suc, ◌+◌, ◌-◌, ◌%◌, ◌≡◌, refl, sym, ◌∙◌, subst, ◌⊎◌, inl, inr, some, List, [], ◌∷◌, ◌++◌,
  append_assoc, append-nil, arith, ltb, length, get_elem?, get_elem?-lt, set, set-set_back,
  length-set, Option-cases, Bool-cases, min, ◌==◌, if◌then◌else◌,
}
use inty.Infer.VarTable.{
  Resolution, unbound, bound, link, VarTable, Command, Walk, at_root, cycle, out_of_range, walk,
  cell, overwrite, repoint, points_at, compress, find, root_resolution, is_free, bind,
  force_bind_root, link_to_root, unbound_root, attach, attach_by_rank, union, fresh, fresh_at,
  ensure_id, pad, push_level, pop_level, is_unbound, ◌>>=◌, pure, max_rank, u32_mod,
}
use inty.Infer.VarTable.Rollback.{Grown, Grown-refl, Grown-trans, AllUnbound}

-- A command under which a table only grows.
abbrev pub Records : {T A : Type 0} → Command T A → Type 0
Records {T} {A} m = (s : VarTable T) (a : A) (t : VarTable T) → m s ≡ some (a, t) → Grown s t

Walk-cases :
    (w : Walk) → ((p : List ℕ) × (r : ℕ) × (w ≡ at_root p r)) ⊎ ((w ≡ cycle) ⊎ (w ≡ out_of_range))
Walk-cases (at_root p r) = inl (p, r, refl)
Walk-cases cycle = inr (inl refl)
Walk-cases out_of_range = inr (inr refl)

module _ {T : Type 0} where
  pub pure-Records : {A : Type 0} (a : A) → Records {T = T} (pure a)
  pure-Records a s b t e = subst (Grown s) (ground arith) (Grown-refl s)

  pub >>=-Records :
      {A B : Type 0} (m : Command T A) (f : A → Command T B)
      → Records m
      → ((a : A) → Records (f a))
      → Records (m >>= f)
  >>=-Records m f h k s b u e = elim (Option-cases (m s)) [
    | inl fail ↦ absurd (ground arith)
    | inr (r, run) ↦ Grown-trans (h s r.0 r.1 run) (k r.0 r.1 b u (ground arith))
  ]

  overwrite-Records : (id : ℕ) (c : Resolution T) → Records (overwrite id c)
  unfolding overwrite
  overwrite-Records id c s a t e = elim (Option-cases (get_elem? s.cells id)) [
    | inl fail ↦ absurd (ground arith)
    | inr (prev, here) ↦
        let u : VarTable T = record s { cells = set s.cells id c; trail = (id, prev) ∷ s.trail } in
        let grown : Grown s u = record {
          entries = (id, prev) ∷ [];
          extra = [];
          same_trail = refl;
          back = set-set_back s.cells id c here ∙ sym (append-nil s.cells);
          in_range = (omega (arith, get_elem?-lt s.cells id here, length-set s.cells id c), tt);
          unbound_extra = tt;
        } in
        subst (Grown s) (ground arith) grown
  ]

  pub cell-Records : (id : ℕ) → Records {T = T} (cell id)
  unfolding cell
  cell-Records id s a t e = elim (Option-cases (get_elem? s.cells id)) [
    | inl fail ↦ absurd (ground arith)
    | inr (prev, here) ↦ subst (Grown s) (ground arith) (Grown-refl s)
  ]

  repoint-Records : (r node : ℕ) → Records {T = T} (repoint r node)
  unfolding repoint
  repoint-Records r node s a t e = elim (Option-cases (get_elem? s.cells node)) [
    | inl fail ↦ absurd (ground arith)
    | inr (prev, here) ↦ elim (Bool-cases (points_at r prev)) [
      | inl direct ↦ subst (Grown s) (ground arith) (Grown-refl s)
      | inr far ↦ overwrite-Records node (link r) s a t (ground arith)
    ]
  ]

  compress-Records : (r : ℕ) (path : List ℕ) → Records {T = T} (compress r path)
  unfolding compress
  compress-Records r [] = pure-Records tt
  compress-Records r (node ∷ path) =
      >>=-Records (repoint r node) _ (repoint-Records r node) (λ _. compress-Records r path)

  pub find-Records : (id : ℕ) → Records {T = T} (find id)
  unfolding find
  find-Records id s a t e = elim (Walk-cases (walk s.cells (suc (length s.cells)) id)) [
    | inl (p, r, w) ↦
        >>=-Records (compress r p) (λ _. pure r) (compress-Records r p) (λ _. pure-Records r) s a t
          (ground arith)
    | inr (inl w) ↦ subst (Grown s) (ground arith) (Grown-refl s)
    | inr (inr w) ↦ absurd (ground arith)
  ]

  pub root_resolution-Records : (id : ℕ) → Records {T = T} (root_resolution id)
  unfolding root_resolution
  root_resolution-Records id = >>=-Records (find id) cell (find-Records id) cell-Records

  pub is_free-Records : (id : ℕ) → Records {T = T} (is_free id)
  unfolding is_free
  is_free-Records id =
      >>=-Records (find id) (λ r. cell r >>= λ c. pure (is_unbound c)) (find-Records id)
        λ r.
          >>=-Records (cell r) (λ c. pure (is_unbound c)) (cell-Records r)
            λ c. pure-Records (is_unbound c)

  pub bind-Records : (id : ℕ) (ty : T) → Records (bind id ty)
  unfolding bind
  bind-Records id ty =
      >>=-Records (find id) (λ r. overwrite r (bound ty)) (find-Records id)
        λ r. overwrite-Records r (bound ty)

  pub force_bind_root-Records : (r : ℕ) (ty : T) → Records (force_bind_root r ty)
  unfolding force_bind_root
  force_bind_root-Records r ty = overwrite-Records r (bound ty)

  pub link_to_root-Records : (child parent : ℕ) → Records {T = T} (link_to_root child parent)
  unfolding link_to_root
  link_to_root-Records child parent s a t e = elim (Bool-cases (child == parent)) [
    | inl same ↦ subst (Grown s) (ground arith) (Grown-refl s)
    | inr other ↦ overwrite-Records child (link parent) s a t (ground arith)
  ]

  unbound_root-Records : (r : ℕ) → Records {T = T} (unbound_root r)
  unfolding unbound_root
  unbound_root-Records r s a t e = subst (Grown s) (ground arith) (Grown-refl s)

  attach-Records : (w l level rank : ℕ) → Records {T = T} (attach w l level rank)
  unfolding attach
  attach-Records w l level rank =
      >>=-Records (overwrite l (link w)) (λ _. overwrite w (unbound level rank))
        (overwrite-Records l (link w)) λ _. overwrite-Records w (unbound level rank)

  attach_by_rank-Records :
      (ra rb level ka kb : ℕ) → Records {T = T} (attach_by_rank ra rb level ka kb)
  unfolding attach_by_rank
  attach_by_rank-Records ra rb level ka kb s a t e = elim (Bool-cases (ltb ka kb)) [
    | inl lt ↦ attach-Records rb ra level kb s a t (ground arith)
    | inr ge ↦ elim (Bool-cases (ltb kb ka)) [
      | inl gt ↦ attach-Records ra rb level ka s a t (ground arith)
      | inr tie ↦ attach-Records ra rb level (min (ka + 1) max_rank) s a t (ground arith)
    ]
  ]

  joined : ℕ → ℕ → Command T (Unit {0})
  joined ra rb s =
      (if ra == rb
          then pure tt
          else (unbound_root ra >>= λ p.
              unbound_root rb >>= λ q. attach_by_rank ra rb (min p.0 q.0) p.1 q.1))
        s

  joined-Records : (ra rb : ℕ) → Records (joined ra rb)
  unfolding joined
  joined-Records ra rb s a t e = elim (Bool-cases (ra == rb)) [
    | inl same ↦ subst (Grown s) (ground arith) (Grown-refl s)
    | inr other ↦
        >>=-Records (unbound_root ra) _ (unbound_root-Records ra)
          (λ p.
            >>=-Records (unbound_root rb) _ (unbound_root-Records rb)
              λ q. attach_by_rank-Records ra rb (min p.0 q.0) p.1 q.1)
          s a t (ground arith)
  ]

  pub union-Records : (a b : ℕ) → Records {T = T} (union a b)
  unfolding union joined
  union-Records a b =
      >>=-Records (find a) _ (find-Records a)
        λ ra. >>=-Records (find b) _ (find-Records b) λ rb. joined-Records ra rb

  Grown-by :
      (s : VarTable T) (extra : List (Resolution T)) (level : ℕ)
      → AllUnbound extra
      → Grown s (record s { cells = s.cells ++ extra; current_level = level })
  Grown-by s extra level h = record {
    entries = [];
    extra = extra;
    same_trail = refl;
    back = refl;
    in_range = tt;
    unbound_extra = h;
  }

  pub fresh_at-Records : (level : ℕ) → Records {T = T} (fresh_at level)
  unfolding fresh_at
  fresh_at-Records level s a t e =
      subst (Grown s) (ground arith) (Grown-by s (unbound level 0 ∷ []) s.current_level (refl, tt))

  pub fresh-Records : Records {T = T} fresh
  unfolding fresh
  fresh-Records s a t e =
      subst (Grown s) (ground arith)
        (Grown-by s (unbound s.current_level 0 ∷ []) s.current_level (refl, tt))

  Grown-level : (s : VarTable T) (level : ℕ) → Grown s (record s { current_level = level })
  Grown-level s level = record {
    entries = [];
    extra = [];
    same_trail = refl;
    back = sym (append-nil s.cells);
    in_range = tt;
    unbound_extra = tt;
  }

  pub push_level-Records : Records {T = T} push_level
  unfolding push_level
  push_level-Records s a t e =
      subst (Grown s) (ground arith) (Grown-level s ((s.current_level + 1) % u32_mod))

  pub pop_level-Records : (saved : ℕ) → Records {T = T} (pop_level saved)
  unfolding pop_level
  pop_level-Records saved s a t e = subst (Grown s) (ground arith) (Grown-level s saved)

  pad-append :
      (k : ℕ) (cells : List (Resolution T))
      → (extra : List (Resolution T)) × (pad k cells ≡ cells ++ extra) × AllUnbound extra
  unfolding pad
  pad-append zero cells = ([], sym (append-nil cells), tt)
  pad-append (suc k) cells =
      let (extra, e, h) = pad-append k (cells ++ unbound 0 0 ∷ []) in
      (unbound 0 0 ∷ extra, e ∙ append_assoc cells (unbound 0 0 ∷ []) extra, (refl, h))

  pub ensure_id-Records : (id : ℕ) → Records {T = T} (ensure_id id)
  unfolding ensure_id
  ensure_id-Records id s a t e =
      let (extra, f, h) = pad-append ((id + 1) - length s.cells) s.cells in
      subst (Grown s) (ground arith) (Grown-by s extra s.current_level h)
