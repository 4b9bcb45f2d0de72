-- ===== src/Go/Kinds/Solve/Placed.antt =====
-- Constraints whose places are all there, and look-ups on them.
use inty.Common.{
  ℕ, zero, suc, ◌+◌, ◌<◌, ◌≡◌, refl, ap, sym, ◌∙◌, subst, inl, inr, true, Option, some, List, [],
  ◌++◌, arith, length, get_elem?, get_elem?-lt,
}
use inty.Common.Distinct.{contains}
use inty.Infer.VarTable.Roots.{stop, HasRoot, IsForest, Chase-IsRoot}
use inty.Infer.VarTable.Find.{Keeps}
use inty.Go.Kinds.{Kinds}
use inty.Go.Kinds.Places.{cells_of, length-cells_from, root-parent}
use inty.Go.Kinds.Flow.{push_roots}
use inty.Go.Kinds.Solve.{range, flip, both, lift}
use inty.Go.Kinds.Solve.Graphs.{HasPair, HasPair-flip, HasPair-both, HasPair-append}
use inty.Go.Kinds.Solve.Found.{
  RootPairs, AreIn, PairsAreIn, AreIn-range, RootPairs-from, push_roots-root,
}

-- The chains of parents end, each place has a bound, and all places that are named are there.
pub record IsPlaced (s : Kinds) : Type 0 where
  pub forest : IsForest (cells_of s.parent)
  pub same_lower : length s.lower ≡ length s.parent
  pub edges_in : PairsAreIn s.parent s.edges
  pub links_in : PairsAreIn s.parent s.links
  pub demanded_in : AreIn s.parent s.demanded
  pub params_in : AreIn s.parent s.params

pub lift-some :
    {A : Type 0} (o : Option A) (a : A) (t : Kinds) → o ≡ some a → lift o t ≡ some (a, t)
lift-some o a t e = ap (λ p. lift p t) e

pub get_elem?-range : (from k i : ℕ) → i < k → get_elem? (range from k) i ≡ some (from + i)
get_elem?-range from zero i h = absurd (omega arith)
get_elem?-range from (suc k) zero h = ap some (omega arith)
get_elem?-range from (suc k) (suc i) h =
    get_elem?-range (suc from) k i (omega arith) ∙ ap some (omega arith)

pub length-range : (from k : ℕ) → length (range from k) ≡ k
length-range from zero = refl
length-range from (suc k) = ap suc (length-range (suc from) k)

module _ (s : Kinds) where
  -- The number of places.
  pub places_number : length (cells_of s.parent) ≡ length s.parent
  places_number = length-cells_from 0 s.parent

  pub root-lt : (v r : ℕ) → HasRoot (cells_of s.parent) v r → r < length s.parent
  root-lt v r h =
      let (c, e, _) = Chase-IsRoot h.1 in
      subst (λ n. r < n) places_number (get_elem?-lt (cells_of s.parent) r e)

  -- With other parents that have the same roots.
  abbrev pub moved : List ℕ → Kinds
  moved p = record s { parent = p }

  pub same_number :
      (p : List ℕ) → Keeps (cells_of s.parent) (cells_of p) → length p ≡ length s.parent
  same_number p k = sym (length-cells_from 0 p) ∙ (k.same_length ∙ places_number)

  pub pairs-lt :
      (ps qs : List (ℕ × ℕ))
      → RootPairs s.parent ps qs
      → (a b : ℕ) → HasPair qs a b
      → (a < length s.parent) × (b < length s.parent)
  pairs-lt ps qs h a b p =
      let (x, y, c, d) = RootPairs-from s.parent ps qs a b h p in (root-lt x a c, root-lt y b d)

  pub all_places : AreIn s.parent (range 0 (length s.parent))
  all_places = AreIn-range s.parent 0 (length s.parent) (omega (arith, places_number))

  -- A root of the places is its own parent after look-ups too.
  pub root-on_list :
      (p : List ℕ)
      → Keeps (cells_of s.parent) (cells_of p)
      → (v r : ℕ) → HasRoot (cells_of s.parent) v r
      → contains (push_roots 0 p []) r ≡ true
  root-on_list p k v r h =
      let (c, e, root) = Chase-IsRoot h.1 in
      let f = root-parent p r c ((k.root_cells r c root).0 e) root in
      let here : r ≡ 0 + r = omega arith in
      subst (λ n. contains (push_roots 0 p []) n ≡ true) (sym here)
        (push_roots-root 0 p [] r (f ∙ ap some here))

  pub place-of_root :
      (v r : ℕ) → HasRoot (cells_of s.parent) v r → get_elem? (range 0 (length s.parent)) r ≡ some r
  place-of_root v r h =
      get_elem?-range 0 (length s.parent) r (root-lt v r h) ∙ ap some (omega arith)

  pub root-of_root : (v r : ℕ) → HasRoot (cells_of s.parent) v r → HasRoot (cells_of s.parent) r r
  root-of_root v r h = let (c, e, root) = Chase-IsRoot h.1 in ([], stop e root)

  pub flip-lt :
      (edges : List (ℕ × ℕ))
      → RootPairs s.parent s.edges edges
      → (a b : ℕ) → HasPair (flip edges) a b
      → (a < length s.parent) × (b < length s.parent)
  flip-lt edges pairs a b h =
      let (y, x) = pairs-lt s.edges edges pairs b a (HasPair-flip edges a b h) in (x, y)

  pub either-lt :
      (edges links : List (ℕ × ℕ))
      → RootPairs s.parent s.edges edges
      → RootPairs s.parent s.links links
      → (a b : ℕ) → HasPair (flip edges ++ both links) a b
      → (a < length s.parent) × (b < length s.parent)
  either-lt edges links pairs linked a b h = elim (HasPair-append (flip edges) (both links) a b h) [
    | inl e ↦ flip-lt edges pairs a b e
    | inr l ↦ elim (HasPair-both links a b l) [
      | inl f ↦ pairs-lt s.links links linked a b f
      | inr f ↦ let (y, x) = pairs-lt s.links links linked b a f in (x, y)
    ]
  ]
