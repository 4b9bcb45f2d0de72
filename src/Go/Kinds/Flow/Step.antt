-- ===== src/Go/Kinds/Flow/Step.antt =====
-- What the inner loop of `propagate` does to the kinds and the work list.
use inty.Common.{
  if◌then◌else◌, ℕ, zero, suc, ◌+◌, ◌-◌, ◌≤◌, ◌<◌, ◌≡◌, refl, ◌≢◌, sym, ◌∙◌, subst, inl, inr, ◌⊎◌,
  true, none, some, List, [], ◌∷◌, ltb, ◌==◌, ==→eq, arith, Bool-cases, Option-cases, length,
  get_elem?, get_elem?-lt, get_elem?-set_self, get_elem?-set_ne, length-set, set,
}
use inty.Common.Distinct.{contains}
use inty.Go.Kinds.{Kind, unknown, int, float, rank}
use inty.Go.Kinds.Flow.{raise_each}

-- The rank of a place's kind, 0 for one that there is not.
unfoldable pub rank_at : List Kind → ℕ → ℕ
unfolding rank
rank_at kind i = elim (get_elem? kind i) [ none ↦ 0 | some k ↦ rank k ]

pub no_cell : {A : Type 0} (xs : List A) (i : ℕ) → i < length xs → get_elem? xs i ≡ none → ⊥
no_cell [] i h e = omega arith
no_cell (x ∷ xs) zero h e = cc
no_cell (x ∷ xs) (suc i) h e = no_cell xs i (omega arith) e

-- How far the kinds can still rise.
unfoldable pub slack : List Kind → ℕ
unfolding rank
slack [] = 0
slack (k ∷ kind) = (2 - rank k) + slack kind

pub rank-le_2 : (k : Kind) → rank k ≤ 2
unfolding rank
rank-le_2 unknown = omega arith
rank-le_2 int = omega arith
rank-le_2 float = omega arith

slack-set :
    (kind : List Kind) (b : ℕ) (low k : Kind)
    → get_elem? kind b ≡ some low
    → rank low < rank k
    → suc (slack (set kind b k)) ≤ slack kind
unfolding slack
slack-set [] b low k e h = cc
slack-set (x ∷ kind) zero low k e h =
    let same : rank x ≡ rank low = ground arith in omega (arith, rank-le_2 k)
slack-set (x ∷ kind) (suc b) low k e h = omega (arith, slack-set kind b low k e h)

pub slack-le : (kind : List Kind) → slack kind ≤ length kind + length kind
unfolding slack
slack-le [] = omega arith
slack-le (k ∷ kind) = omega (arith, slack-le kind)

pub rank_at-set_self :
    (kind : List Kind) (b : ℕ) (k : Kind) → b < length kind → rank_at (set kind b k) b ≡ rank k
unfolding rank_at
rank_at-set_self kind b k h = rw (rank_at, get_elem?-set_self kind b k h) refl

pub rank_at-set_ne :
    (kind : List Kind) (b i : ℕ) (k : Kind) → b ≢ i → rank_at (set kind b k) i ≡ rank_at kind i
unfolding rank_at
rank_at-set_ne kind b i k h = rw (rank_at, get_elem?-set_ne kind k h) refl

pub rank_at-some :
    (kind : List Kind) (i : ℕ) (k : Kind) → get_elem? kind i ≡ some k → rank_at kind i ≡ rank k
unfolding rank_at
rank_at-some kind i k e = rw (rank_at, e) refl

-- Kinds rise, and what has risen is on the work list.
pub record Raised (kind : List Kind) (work : List ℕ) (kind' : List Kind) (work' : List ℕ)
    : Type 0 where
  pub same_length : length kind' ≡ length kind
  pub grows : (i : ℕ) → rank_at kind i ≤ rank_at kind' i
  pub cause : (i : ℕ) → (rank_at kind' i ≡ rank_at kind i) ⊎ (contains work' i ≡ true)
  pub stays : (i : ℕ) → contains work i ≡ true → contains work' i ≡ true
  pub within : (i : ℕ) → contains work' i ≡ true → (contains work i ≡ true) ⊎ (i < length kind)
  pub measure : length work' + slack kind' ≤ length work + slack kind

pub Raised-refl : (kind : List Kind) (work : List ℕ) → Raised kind work kind work
Raised-refl kind work = record {
  same_length = refl;
  grows = λ i. omega arith;
  cause = λ i. inl refl;
  stays = λ i h. h;
  within = λ i h. inl h;
  measure = omega arith;
}

pub Raised-trans :
    {kind kind' kind'' : List Kind} {work work' work'' : List ℕ}
    → Raised kind work kind' work'
    → Raised kind' work' kind'' work''
    → Raised kind work kind'' work''
Raised-trans {work''} r q = record {
  same_length = q.same_length ∙ r.same_length;
  grows = λ i. omega (arith, r.grows i, q.grows i);
  cause = λ i. elim (q.cause i) [
    | inr h ↦ inr h
    | inl e ↦ elim (r.cause i) [ inl d ↦ inl (e ∙ d) | inr h ↦ inr (q.stays i h) ]
  ];
  stays = λ i h. q.stays i (r.stays i h);
  within = λ i h. elim (q.within i h) [
    | inl g ↦ r.within i g
    | inr g ↦ inr (omega (arith, r.same_length))
  ];
  measure = omega (arith, r.measure, q.measure);
}

-- One place that rises.
module _ (kind : List Kind) (work : List ℕ) (b : ℕ) (low k : Kind) (e : get_elem? kind b ≡ some low)
    (h : rank low < rank k) where
  rank_at-set_grows : (i : ℕ) → rank_at kind i ≤ rank_at (set kind b k) i
  rank_at-set_grows i = elim (Bool-cases (b == i)) [
    | inl same ↦
        subst (λ j. rank_at kind j ≤ rank_at (set kind b k) j) (==→eq b i same)
          (omega
            (arith, rank_at-some kind b low e, rank_at-set_self kind b k (get_elem?-lt kind b e)))
    | inr other ↦ omega (arith, rank_at-set_ne kind b i k (ground arith))
  ]

  pub Raised-set : Raised kind work (set kind b k) (b ∷ work)
  Raised-set = record {
    same_length = length-set kind b k;
    grows = rank_at-set_grows;
    cause = λ i. elim (Bool-cases (b == i)) [
      | inl same ↦ inr (rw same refl)
      | inr other ↦ inl (rank_at-set_ne kind b i k (ground arith))
    ];
    stays = λ i g. ground arith;
    within = λ i g. elim (Bool-cases (b == i)) [
      | inl same ↦ inr (subst (λ j. j < length kind) (==→eq b i same) (get_elem?-lt kind b e))
      | inr other ↦ inl (ground arith)
    ];
    measure = omega (arith, slack-set kind b low k e h);
  }

-- The kinds are below a bound.
abbrev pub Below : List Kind → (ℕ → ℕ) → Type 0
Below kind u = (i : ℕ) → rank_at kind i ≤ u i

-- The kinds are raised so that each of `bs` is at least `k`, and none above a bound which they and
-- `k` at each of `bs` had.
pub record RaisedTo (k : Kind) (bs : List ℕ) (kind : List Kind) (work : List ℕ) (kind' : List Kind)
    (work' : List ℕ) : Type 0 where
  pub raised : Raised kind work kind' work'
  pub reached : (b : ℕ) → contains bs b ≡ true → rank k ≤ rank_at kind' b
  pub bounded :
      (u : ℕ → ℕ) → ((b : ℕ) → contains bs b ≡ true → rank k ≤ u b) → Below kind u → Below kind' u

abbrev raised_kind : Kind → ℕ → Kind → List Kind → List Kind
raised_kind k b low kind = if ltb (rank low) (rank k) then set kind b k else kind

abbrev raised_work : Kind → ℕ → Kind → List ℕ → List ℕ
raised_work k b low work = if ltb (rank low) (rank k) then b ∷ work else work

one-RaisedTo :
    (k : Kind) (b : ℕ) (kind : List Kind) (work : List ℕ) (low : Kind)
    → get_elem? kind b ≡ some low
    → RaisedTo k (b ∷ []) kind work (raised_kind k b low kind) (raised_work k b low work)
one-RaisedTo k b kind work low e = elim (Bool-cases (ltb (rank low) (rank k))) [
  | inl rises ↦ rw rises (record {
    raised = Raised-set kind work b low k e (ground arith);
    reached = λ c h.
        subst (λ j. rank k ≤ rank_at (set kind b k) j) (==→eq b c (ground arith))
          (omega (arith, rank_at-set_self kind b k (get_elem?-lt kind b e)));
    bounded = λ u h g i. elim (Bool-cases (b == i)) [
      | inl same ↦
          subst (λ j. rank_at (set kind b k) j ≤ u j) (==→eq b i same)
            (omega (arith, rank_at-set_self kind b k (get_elem?-lt kind b e), h b (ground arith)))
      | inr other ↦ omega (arith, g i, rank_at-set_ne kind b i k (ground arith))
    ];
  })
  | inr stays ↦ rw stays (record {
    raised = Raised-refl kind work;
    reached = λ c h.
        subst (λ j. rank k ≤ rank_at kind j) (==→eq b c (ground arith))
          (let g : rank k ≤ rank low = ground arith in omega (arith, rank_at-some kind b low e));
    bounded = λ u _ g. g;
  })
]

RaisedTo-cons :
    {k : Kind} {b : ℕ} {bs : List ℕ} {kind kind' kind'' : List Kind} {work work' work'' : List ℕ}
    → RaisedTo k (b ∷ []) kind work kind' work'
    → RaisedTo k bs kind' work' kind'' work''
    → RaisedTo k (b ∷ bs) kind work kind'' work''
RaisedTo-cons {k} {b} {bs} {kind''} r q = record {
  raised = Raised-trans r.raised q.raised;
  reached = λ c h. elim (Bool-cases (b == c)) [
    | inl same ↦ omega (arith, r.reached c (ground arith), q.raised.grows c)
    | inr other ↦ q.reached c (ground arith)
  ];
  bounded =
      λ u h g. q.bounded u (λ c e. h c (ground arith)) (r.bounded u (λ c e. h c (ground arith)) g);
}

pub raise_each-RaisedTo :
    (k : Kind) (bs : List ℕ) (kind : List Kind) (work : List ℕ)
    → ((b : ℕ) → contains bs b ≡ true → b < length kind)
    → (kind' : List Kind) × (work' : List ℕ) × (raise_each k bs kind work ≡ some (kind', work'))
      × RaisedTo k bs kind work kind' work'
unfolding raise_each
raise_each-RaisedTo k [] kind work h = (
  kind,
  work,
  refl,
  record { raised = Raised-refl kind work; reached = λ b e. cc; bounded = λ u _ g. g },
)
raise_each-RaisedTo k (b ∷ bs) kind work h =
    let lt : b < length kind = h b (ground arith) in
    elim (Option-cases (get_elem? kind b)) [
      | inl e ↦ absurd (no_cell kind b lt e)
      | inr (low, e) ↦
          let once = one-RaisedTo k b kind work low e in
          let (kind', work', f, rest) =
            raise_each-RaisedTo k bs (raised_kind k b low kind) (raised_work k b low work)
              (λ c g. subst (λ n. c < n) (sym once.raised.same_length) (h c (ground arith))) in
          (kind', work', rw (raise_each, e) f, RaisedTo-cons once rest)
    ]
