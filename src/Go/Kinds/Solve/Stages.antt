-- ===== src/Go/Kinds/Solve/Stages.antt =====
-- What each part of `solve` returns.
use inty.Common.{
  ℕ, suc, ◌+◌, ◌≤◌, ◌<◌, ◌≡◌, ap, sym, ◌∙◌, subst, inl, inr, Bool, true, some, List, [], ◌++◌,
  arith, length,
}
use inty.Common.Distinct.{contains}
use inty.Common.State.{◌>>=◌, pure, bind-some}
use inty.Infer.VarTable.Roots.{HasRoot, HasRoot-lt}
use inty.Infer.VarTable.Find.{Keeps, Keeps-refl}
use inty.Go.Kinds.{Kind, Kinds}
use inty.Go.Kinds.Places.{cells_of}
use inty.Go.Kinds.Flow.{push_all, push_roots, flow}
use inty.Go.Kinds.Flow.Step.{rank_at, slack-le}
use inty.Go.Kinds.Flow.Fixpoint.{IsEdge, IsGraph, IsSolution}
use inty.Go.Kinds.Flow.Known.{flow-IsLeast}
use inty.Go.Kinds.Solve.{
  find_each, find_pairs, read_each, range, empties, flip, both, lift, needed_of, settle, flow_edges,
  need_places, settle_params, store,
}
use inty.Go.Kinds.Solve.Graphs.{HasPair, push_all-graph}
use inty.Go.Kinds.Solve.Marked.{needed_of-total}
use inty.Go.Kinds.Solve.Settled.{Ready, Settled, settle-Settled}
use inty.Go.Kinds.Solve.Found.{
  RootPairs, AreIn, find_each-Roots, find_pairs-RootPairs, AreIn-range, read_each-Roots,
  Roots-contains, RootPairs-from, push_roots-within,
}
use inty.Go.Kinds.Solve.Placed.{
  IsPlaced, lift-some, get_elem?-range, length-range, places_number, root-lt, moved, same_number,
  pairs-lt, all_places, root-on_list, place-of_root, root-of_root, flip-lt, either-lt,
}

module _ (s : Kinds) (placed : IsPlaced s) where
  -- The kinds after the first part.
  pub record Flowed (p : List ℕ) (edges : List (ℕ × ℕ)) (out : List (List ℕ)) (kind : List Kind)
      : Type 0 where
    pub keeps : Keeps (cells_of s.parent) (cells_of p)
    pub pairs : RootPairs s.parent s.edges edges
    pub graph : IsGraph out (length s.parent)
    pub new : (a b : ℕ) → HasPair edges a b → IsEdge out a b
    pub same_length : length kind ≡ length s.parent
    pub solution : IsSolution out (rank_at kind)
    pub known : (v r : ℕ) → HasRoot (cells_of s.parent) v r → 1 ≤ rank_at kind r
    pub above : (v r : ℕ) → HasRoot (cells_of s.parent) v r → rank_at s.lower r ≤ rank_at kind r

  pub flow_edges-Flowed :
      (edges : List (ℕ × ℕ)) × (out : List (List ℕ)) × (kind : List Kind) × (p : List ℕ)
      × (flow_edges s ≡ some ((edges, (out, kind)), moved s p))
      × Flowed p edges out kind
  unfolding flow_edges
  flow_edges-Flowed =
      let n = length s.parent in
      let (places, p1, e1, k1, rs) =
        find_each-Roots s.parent placed.forest (range 0 n) s (Keeps-refl (cells_of s.parent))
          (all_places s) in
      let (kind, e2, l2, at2) =
        read_each-Roots s.parent s.lower (range 0 n) places rs
          (λ v r h. subst (λ m. r < m) (sym placed.same_lower) (root-lt s v r h)) in
      let (edges, p3, e3, k3, pairs) =
        find_pairs-RootPairs s.parent placed.forest s.edges (moved s p1) k1 placed.edges_in in
      let (out, e4, graph, only, new) = push_all-graph edges n (pairs-lt s s.edges edges pairs) in
      let l = l2 ∙ length-range 0 n in
      let within : (a : ℕ) → contains (push_roots 0 p3 []) a ≡ true → a < length kind = λ a h.
        elim (push_roots-within 0 p3 [] a h) [
          | inl absent ↦ cc
          | inr lt ↦ omega (arith, same_number s p3 k3)
        ] in
      let sources : (a b : ℕ) → IsEdge out a b → contains (push_roots 0 p3 []) a ≡ true = λ a b e.
        let (x, y, c, d) = RootPairs-from s.parent s.edges edges a b pairs (only a b e) in
        root-on_list s p3 k3 x a c in
      let (kind1, kind2, e5, q, r, known, above, l5) =
        flow-IsLeast out (push_roots 0 p3 []) kind (subst (IsGraph out) (sym l) graph) within
          sources in
      (
        edges,
        out,
        kind2,
        p3,
        bind-some (find_each (range 0 n)) _ e1
            ∙ (bind-some (lift (read_each s.lower places)) _ (lift-some _ kind (moved s p1) e2)
                ∙ (bind-some (find_pairs s.edges) _ e3
                    ∙ (bind-some (lift (push_all edges (empties n))) _
                          (lift-some _ out (moved s p3) e4)
                        ∙ bind-some (λ t. lift (flow out (push_roots 0 t.parent []) kind) t)
                            (λ k. pure (edges, (out, k))) {s = moved s p3}
                            (lift-some _ kind2 (moved s p3) e5)))),
        record {
          keeps = k3;
          pairs = pairs;
          graph = graph;
          new = new;
          same_length = l5 ∙ l;
          solution = r.solution;
          known = λ v x h. known x (root-on_list s p3 k3 v x h);
          above = λ v x h.
              omega (arith, above x, at2 x x x (place-of_root s v x h) (root-of_root s v x h));
        },
      )

  pub need_places-total :
      (edges : List (ℕ × ℕ)) (p : List ℕ)
      → RootPairs s.parent s.edges edges
      → Keeps (cells_of s.parent) (cells_of p)
      → (needed : List Bool) × (q : List ℕ) × (need_places edges (moved s p)
          ≡ some (needed, moved s q))
        × (length needed ≡ length s.parent)
        × Keeps (cells_of s.parent) (cells_of q)
  unfolding need_places
  need_places-total edges p pairs k =
      let n = same_number s p k in
      let (links, p1, e1, k1, linked) =
        find_pairs-RootPairs s.parent placed.forest s.links (moved s p) k placed.links_in in
      let (back, e2, graph, _, _) = push_all-graph (flip edges ++ both links) (length p) (λ a b h.
        subst (λ m. (a < m) × (b < m)) (sym n) (either-lt s edges links pairs linked a b h)) in
      let (demanded, p3, e3, k3, roots) =
        find_each-Roots s.parent placed.forest s.demanded (moved s p1) k1 placed.demanded_in in
      let (needed, e4, l) = needed_of-total back demanded (length p) graph (λ a h.
        let (v, root) = Roots-contains s.parent s.demanded demanded a roots h in
        subst (λ m. a < m) (sym n) (root-lt s v a root)) in
      (
        needed,
        p3,
        bind-some (find_pairs s.links) _ e1
            ∙ (bind-some (lift (push_all (flip edges ++ both links) (empties (length p)))) _
                  (lift-some _ back (moved s p1) e2)
                ∙ (bind-some (find_each s.demanded) (λ d. lift (needed_of back d (length p)))
                      {s = moved s p1} e3
                    ∙ lift-some _ needed (moved s p3) e4)),
        l ∙ n,
        k3,
      )

  pub settle_params-Settled :
      (p : List ℕ) (edges : List (ℕ × ℕ)) (out : List (List ℕ)) (needed : List Bool)
      (kind : List Kind) (q : List ℕ)
      → Flowed p edges out kind
      → length needed ≡ length s.parent
      → Keeps (cells_of s.parent) (cells_of q)
      → (kind1 : List Kind) × (u : List ℕ) × (settle_params edges out needed kind (moved s q)
          ≡ some (kind1, moved s u))
        × Settled out kind kind1
        × Keeps (cells_of s.parent) (cells_of u)
  unfolding settle_params
  settle_params-Settled p edges out needed kind q f l k =
      let n = same_number s q k in
      let (back, e1, graph, _, _) =
        push_all-graph (flip edges) (length q)
          (λ a b h. subst (λ m. (a < m) × (b < m)) (sym n) (flip-lt s edges f.pairs a b h)) in
      let (params, u, e2, k2, roots) =
        find_each-Roots s.parent placed.forest s.params (moved s q) k placed.params_in in
      let ready : Ready out back params needed kind = record {
        graph = subst (IsGraph out) (sym f.same_length) f.graph;
        back_graph = subst (IsGraph back) (n ∙ sym f.same_length) graph;
        same_needed = l ∙ sym f.same_length;
        within = λ a h.
            let (v, root) = Roots-contains s.parent s.params params a roots h in
            subst (λ m. a < m) (sym f.same_length) (root-lt s v a root);
        solution = f.solution;
      } in
      let (kind1, e3, settled) =
        settle-Settled out back params needed (suc (length q + length q)) kind ready
          (omega (arith, slack-le kind, f.same_length, n)) in
      (
        kind1,
        u,
        bind-some (lift (push_all (flip edges) (empties (length q)))) _
              (lift-some _ back (moved s q) e1)
            ∙ (bind-some (find_each s.params)
                  (λ r. lift (settle out back r needed (suc (length q + length q)) kind))
                  {s = moved s q} e2
                ∙ lift-some _ kind1 (moved s u) e3),
        settled,
        k2,
      )

  pub store-kinds :
      (kind : List Kind) (p : List ℕ)
      → length kind ≡ length s.parent
      → Keeps (cells_of s.parent) (cells_of p)
      → (solved : List Kind) × (q : List ℕ) × (store kind (moved s p)
          ≡ some (tt, record s { parent = q; solved = solved }))
        × (length solved ≡ length s.parent)
        × ((v r : ℕ) → HasRoot (cells_of s.parent) v r → rank_at solved v ≡ rank_at kind r)
        × Keeps (cells_of s.parent) (cells_of q)
  unfolding store
  store-kinds kind p l k =
      let n = same_number s p k in
      let there : AreIn s.parent (range 0 (length p)) =
        AreIn-range s.parent 0 (length p) (omega (arith, n, places_number s)) in
      let (roots, q, e1, k1, rs) =
        find_each-Roots s.parent placed.forest (range 0 (length p)) (moved s p) k there in
      let (solved, e2, m, at) =
        read_each-Roots s.parent kind (range 0 (length p)) roots rs
          (λ v r h. subst (λ x. r < x) (sym l) (root-lt s v r h)) in
      (
        solved,
        q,
        bind-some (find_each (range 0 (length p)))
              (λ r. lift (read_each kind r) >>= λ ks t. some (tt, record t { solved = ks }))
              {s = moved s p} e1
            ∙ bind-some (lift (read_each kind roots)) (λ ks t. some (tt, record t { solved = ks }))
                {s = moved s q} (lift-some _ solved (moved s q) e2),
        m ∙ (length-range 0 (length p) ∙ n),
        λ v r h.
            at v v r
              (get_elem?-range 0 (length p) v
                  (omega (arith, HasRoot-lt (cells_of s.parent) v r h, n, places_number s))
                ∙ ap some (omega arith))
              h,
        k1,
      )
