-- ===== src/Go/Kinds/Solve/Graphs.antt =====
-- The lists of edges that `solve` builds, and the roots that it starts with.
use inty.Common.{
  ℕ, zero, suc, ◌<◌, ◌≡◌, refl, ap, sym, ◌∙◌, subst, inl, inr, ◌⊎◌, true, ◌||◌, some, List, [], ◌∷◌,
  ◌++◌, ◌==◌, ==→eq, arith, Bool-cases, Option-cases, length, get_elem?, get_elem?-lt,
  get_elem?-set_self, get_elem?-set_ne, set, length-set,
}
use inty.Common.Distinct.{contains}
use inty.Go.Kinds.Flow.{push_at, push_all}
use inty.Go.Kinds.Flow.Step.{no_cell}
use inty.Go.Kinds.Flow.Fixpoint.{IsEdge, IsGraph, edge-contains}
use inty.Go.Kinds.Solve.{empties, flip, both}

abbrev pub HasPair : List (ℕ × ℕ) → ℕ → ℕ → Type 0
HasPair [] a b = ⊥
HasPair ((x, y) ∷ pairs) a b = ((x ≡ a) × (y ≡ b)) ⊎ HasPair pairs a b

contains-snoc : (bs : List ℕ) (b y : ℕ) → contains (bs ++ b ∷ []) y ≡ (contains bs y || (b == y))
contains-snoc [] b y = ground arith
contains-snoc (x ∷ bs) b y = ground (arith, contains-snoc bs b y)

-- The edges of `out` and the pairs, and no other.
pub record Pushed (out : List (List ℕ)) (pairs : List (ℕ × ℕ)) (out' : List (List ℕ)) : Type 0 where
  pub same_length : length out' ≡ length out
  pub only : (a b : ℕ) → IsEdge out' a b → IsEdge out a b ⊎ HasPair pairs a b
  pub old : (a b : ℕ) → IsEdge out a b → IsEdge out' a b
  pub new : (a b : ℕ) → HasPair pairs a b → IsEdge out' a b

module _ (out : List (List ℕ)) (a b : ℕ) (bs : List ℕ) (e : get_elem? out a ≡ some bs) where
  abbrev pushed : List (List ℕ)
  pushed = set out a (bs ++ b ∷ [])

  here : get_elem? pushed a ≡ some (bs ++ b ∷ [])
  here = get_elem?-set_self out a (bs ++ b ∷ []) (get_elem?-lt out a e)

  only_here : (y : ℕ) → IsEdge pushed a y → IsEdge out a y ⊎ HasPair ((a, b) ∷ []) a y
  only_here y edge =
      let h = sym (contains-snoc bs b y) ∙ edge-contains pushed a y (bs ++ b ∷ []) here edge in
      elim (Bool-cases (b == y)) [
        | inl same ↦ inr (inl (refl, ==→eq b y same))
        | inr other ↦ inl (bs, e, ground arith)
      ]

  old_here : (y : ℕ) → IsEdge out a y → IsEdge pushed a y
  old_here y edge =
      let h = edge-contains out a y bs e edge in
      (bs ++ b ∷ [], here, contains-snoc bs b y ∙ ground arith)

  one-Pushed : Pushed out ((a, b) ∷ []) pushed
  one-Pushed = record {
    same_length = length-set out a (bs ++ b ∷ []);
    only = λ x y edge. elim (Bool-cases (a == x)) [
      | inl same ↦
          subst (λ j. IsEdge pushed j y → IsEdge out j y ⊎ HasPair ((a, b) ∷ []) j y)
            (==→eq a x same) (only_here y) edge
      | inr other ↦
          let (cs, f, h) = edge in
          inl (cs, sym (get_elem?-set_ne out (bs ++ b ∷ []) (ground arith)) ∙ f, h)
    ];
    old = λ x y edge. elim (Bool-cases (a == x)) [
      | inl same ↦
          subst (λ j. IsEdge out j y → IsEdge pushed j y) (==→eq a x same) (old_here y) edge
      | inr other ↦
          let (cs, f, h) = edge in (cs, get_elem?-set_ne out (bs ++ b ∷ []) (ground arith) ∙ f, h)
    ];
    new = λ x y p. elim p [
      | inl (f, g) ↦
          subst (λ j. IsEdge pushed j y) f (bs ++ b ∷ [], here, contains-snoc bs b y ∙ ground arith)
      | inr empty_ ↦ absurd empty_
    ];
  }

Pushed-trans :
    {out out' out'' : List (List ℕ)} {a b : ℕ} {pairs : List (ℕ × ℕ)}
    → Pushed out ((a, b) ∷ []) out'
    → Pushed out' pairs out''
    → Pushed out ((a, b) ∷ pairs) out''
Pushed-trans r q = record {
  same_length = q.same_length ∙ r.same_length;
  only = λ x y e. elim (q.only x y e) [
    | inr p ↦ inr (inr p)
    | inl f ↦ elim (r.only x y f) [
      | inl g ↦ inl g
      | inr p ↦ inr (elim p [ inl here ↦ inl here | inr empty_ ↦ absurd empty_ ])
    ]
  ];
  old = λ x y e. q.old x y (r.old x y e);
  new =
      λ x y p. elim p [ inl here ↦ q.old x y (r.new x y (inl here)) | inr there ↦ q.new x y there ];
}

push_all-Pushed :
    (pairs : List (ℕ × ℕ)) (out : List (List ℕ))
    → ((a b : ℕ) → HasPair pairs a b → a < length out)
    → (out' : List (List ℕ)) × (push_all pairs out ≡ some out') × Pushed out pairs out'
unfolding push_all push_at
push_all-Pushed [] out h = (
  out,
  refl,
  record { same_length = refl; only = λ a b e. inl e; old = λ a b e. e; new = λ a b p. absurd p },
)
push_all-Pushed ((a, b) ∷ pairs) out h = elim (Option-cases (get_elem? out a)) [
  | inl e ↦ absurd (no_cell out a (h a b (inl (refl, refl))) e)
  | inr (bs, e) ↦
      let once = one-Pushed out a b bs e in
      let (out', f, rest) =
        push_all-Pushed pairs (set out a (bs ++ b ∷ []))
          (λ x y p. subst (λ n. x < n) (sym once.same_length) (h x y (inr p))) in
      (out', rw (push_all, push_at, e) f, Pushed-trans once rest)
]

length-empties : (n : ℕ) → length (empties {A = ℕ} n) ≡ n
length-empties zero = refl
length-empties (suc n) = ap suc (length-empties n)

empties-IsEdge : (n a b : ℕ) → IsEdge (empties n) a b → ⊥
empties-IsEdge zero a b (bs, e, h) = cc
empties-IsEdge (suc n) zero b (bs, e, h) =
    let g : contains [] b ≡ true = edge-contains (empties (suc n)) zero b [] refl (bs, e, h) in cc
empties-IsEdge (suc n) (suc a) b (bs, e, h) = empties-IsEdge n a b (bs, e, h)

-- The edges of a list of pairs between places below `n`.
pub push_all-graph :
    (pairs : List (ℕ × ℕ)) (n : ℕ)
    → ((a b : ℕ) → HasPair pairs a b → (a < n) × (b < n))
    → (out : List (List ℕ)) × (push_all pairs (empties n) ≡ some out)
      × IsGraph out n
      × ((a b : ℕ) → IsEdge out a b → HasPair pairs a b)
      × ((a b : ℕ) → HasPair pairs a b → IsEdge out a b)
push_all-graph pairs n h =
    let l = length-empties n in
    let (out, e, p) =
      push_all-Pushed pairs (empties n) (λ a b g. subst (λ m. a < m) (sym l) (h a b g).0) in
    let only : (a b : ℕ) → IsEdge out a b → HasPair pairs a b =
      λ a b f. elim (p.only a b f) [ inl g ↦ absurd (empties-IsEdge n a b g) | inr g ↦ g ] in
    (
      out,
      e,
      record { same_length = p.same_length ∙ l; targets = λ a b f. (h a b (only a b f)).1 },
      only,
      p.new,
    )

pub HasPair-flip : (pairs : List (ℕ × ℕ)) (a b : ℕ) → HasPair (flip pairs) a b → HasPair pairs b a
HasPair-flip [] a b h = h
HasPair-flip ((x, y) ∷ pairs) a b (inl (e, f)) = inl (f, e)
HasPair-flip ((x, y) ∷ pairs) a b (inr h) = inr (HasPair-flip pairs a b h)

pub HasPair-both :
    (pairs : List (ℕ × ℕ)) (a b : ℕ)
    → HasPair (both pairs) a b
    → HasPair pairs a b ⊎ HasPair pairs b a
HasPair-both [] a b h = inl h
HasPair-both ((x, y) ∷ pairs) a b (inl e) = inl (inl e)
HasPair-both ((x, y) ∷ pairs) a b (inr (inl (e, f))) = inr (inl (f, e))
HasPair-both ((x, y) ∷ pairs) a b (inr (inr h)) = elim (HasPair-both pairs a b h) [
  | inl g ↦ inl (inr g)
  | inr g ↦ inr (inr g)
]

pub HasPair-append :
    (ps qs : List (ℕ × ℕ)) (a b : ℕ) → HasPair (ps ++ qs) a b → HasPair ps a b ⊎ HasPair qs a b
HasPair-append [] qs a b h = inr h
HasPair-append ((x, y) ∷ ps) qs a b (inl e) = inl (inl e)
HasPair-append ((x, y) ∷ ps) qs a b (inr h) = elim (HasPair-append ps qs a b h) [
  | inl g ↦ inl (inr g)
  | inr g ↦ inr g
]
