-- ===== src/Go/Kinds/Solve/Solution.antt =====
-- `solve` ends with kinds that hold what was asked of them.
use inty.Common.{ℕ, ◌≤◌, ◌≡◌, sym, ◌∙◌, some, arith, length}
use inty.Common.State.{◌>>=◌, bind-some}
use inty.Infer.VarTable.Roots.{HasRoot}
use inty.Infer.VarTable.Find.{Keeps}
use inty.Go.Kinds.{Kinds}
use inty.Go.Kinds.Places.{cells_of}
use inty.Go.Kinds.Flow.Step.{rank_at}
use inty.Go.Kinds.Solve.Placed.{IsPlaced}
use inty.Go.Kinds.Solve.{flow_edges, need_places, settle_params, store, solve}
use inty.Go.Kinds.Solve.Graphs.{HasPair}
use inty.Go.Kinds.Solve.Found.{RootPairs-to}
use inty.Go.Kinds.Solve.Stages.{
  flow_edges-Flowed, need_places-total, settle_params-Settled, store-kinds,
}

module _ (s : Kinds) where
  -- The kinds that `solve` stores.
  pub record Solved (t : Kinds) : Type 0 where
    pub same_length : length t.solved ≡ length s.parent
    -- A place has a kind, which is the one of its root.
    pub known : (v r : ℕ) → HasRoot (cells_of s.parent) v r → 1 ≤ rank_at t.solved v
    pub one_place :
        (v w r : ℕ)
        → HasRoot (cells_of s.parent) v r
        → HasRoot (cells_of s.parent) w r
        → rank_at t.solved v ≡ rank_at t.solved w
    -- What flows in is at most the kind.
    pub above : (v r : ℕ) → HasRoot (cells_of s.parent) v r → rank_at s.lower r ≤ rank_at t.solved v
    pub flows : (a b : ℕ) → HasPair s.edges a b → rank_at t.solved a ≤ rank_at t.solved b
    pub keeps : Keeps (cells_of s.parent) (cells_of t.parent)

  -- If the chains of parents end, each place has a bound and all places that are named are there,
  -- `solve` ends, and the kinds that it stores are known, the same for all names of a place, at least
  -- what flows in, and go up along every edge. The places stay as they are.
  pub solve-Solved : IsPlaced s → (t : Kinds) × (solve s ≡ some (tt, t)) × Solved t
  unfolding solve
  solve-Solved placed =
      let (edges, out, kind, p, e1, f) = flow_edges-Flowed s placed in
      let (needed, q, e2, l, k2) = need_places-total s placed edges p f.pairs f.keeps in
      let (kind1, u, e3, settled, k3) =
        settle_params-Settled s placed p edges out needed kind q f l k2 in
      let (solved, w, e4, m, at, k4) =
        store-kinds s placed kind1 u (settled.same_length ∙ f.same_length) k3 in
      (
        record s { parent = w; solved = solved },
        bind-some flow_edges
              (λ (edges1, (out1, kind0)).
                need_places edges1 >>= λ needed1. settle_params edges1 out1 needed1 kind0 >>= store)
              {s = s} e1
            ∙ (bind-some (need_places edges)
                  (λ needed1. settle_params edges out needed1 kind >>= store)
                  {s = record s { parent = p }} e2
                ∙ (bind-some (settle_params edges out needed kind) store
                      {s = record s { parent = q }} e3
                    ∙ e4)),
        record {
          same_length = m;
          known = λ v r h. omega (arith, at v r h, settled.above r, f.known v r h);
          one_place = λ v x r h g. at v r h ∙ sym (at x r g);
          above = λ v r h. omega (arith, at v r h, settled.above r, f.above v r h);
          flows = λ a b h.
              let (ra, rb, c, d, g) = RootPairs-to s.parent s.edges edges a b f.pairs h in
              omega (arith, at a ra c, at b rb d, settled.solution ra rb (f.new ra rb g));
          keeps = k4;
        },
      )
