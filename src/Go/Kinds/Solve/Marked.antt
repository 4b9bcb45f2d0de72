-- ===== src/Go/Kinds/Solve/Marked.antt =====
-- The walks back along the edges end.
use inty.Common.{
  if◌then◌else◌, ℕ, zero, suc, ◌+◌, ◌≤◌, ◌<◌, ◌≡◌, refl, sym, ◌∙◌, subst, inl, inr, ◌⊎◌, Bool, true,
  false, some, List, [], ◌∷◌, ◌==◌, ==→eq, arith, Bool-cases, Option-cases, length, get_elem?,
  get_elem?-lt, set, length-set, map, ap,
}
use inty.Common.Distinct.{contains}
use inty.Go.Kinds.{Kind}
use inty.Go.Kinds.Flow.Step.{no_cell}
use inty.Go.Kinds.Flow.Fixpoint.{IsGraph}
use inty.Go.Kinds.Solve.{
  mark_each, mark_back, reaches_float, push_floats, is_float, needed_of, unmarked,
}

-- How many are left to mark_back.
abbrev pub left : List Bool → ℕ
left [] = 0
left (b ∷ marked) = (if b then 0 else 1) + left marked

left-le : (marked : List Bool) → left marked ≤ length marked
left-le [] = omega arith
left-le (true ∷ marked) = omega (arith, left-le marked)
left-le (false ∷ marked) = omega (arith, left-le marked)

left-set :
    (marked : List Bool) (a : ℕ)
    → get_elem? marked a ≡ some false
    → suc (left (set marked a true)) ≡ left marked
left-set [] a e = cc
left-set (true ∷ marked) zero e = cc
left-set (false ∷ marked) zero e = omega arith
left-set (b ∷ marked) (suc a) e = omega (arith, left-set marked a e)

-- The work list grows by no more than what was marked.
record Marks (marked : List Bool) (work : List ℕ) (marked' : List Bool) (work' : List ℕ)
    : Type 0 where
  same_length : length marked' ≡ length marked
  within : (i : ℕ) → contains work' i ≡ true → (contains work i ≡ true) ⊎ (i < length marked)
  measure : length work' + left marked' ≤ length work + left marked

Marks-refl : (marked : List Bool) (work : List ℕ) → Marks marked work marked work
Marks-refl marked work = record { same_length = refl; within = λ i h. inl h; measure = omega arith }

Marks-trans :
    {marked marked' marked'' : List Bool} {work work' work'' : List ℕ}
    → Marks marked work marked' work'
    → Marks marked' work' marked'' work''
    → Marks marked work marked'' work''
Marks-trans r q = record {
  same_length = q.same_length ∙ r.same_length;
  within = λ i h. elim (q.within i h) [
    | inl g ↦ r.within i g
    | inr g ↦ inr (omega (arith, r.same_length))
  ];
  measure = omega (arith, r.measure, q.measure);
}

one-Marks :
    (marked : List Bool) (work : List ℕ) (a : ℕ) (seen : Bool)
    → get_elem? marked a ≡ some seen
    → Marks marked work
        (if seen then marked else set marked a true)
        (if seen then work else a ∷ work)
one-Marks marked work a true e = Marks-refl marked work
one-Marks marked work a false e = record {
  same_length = length-set marked a true;
  within = λ i h. elim (Bool-cases (a == i)) [
    | inl same ↦ inr (subst (λ j. j < length marked) (==→eq a i same) (get_elem?-lt marked a e))
    | inr other ↦ inl (ground arith)
  ];
  measure = omega (arith, left-set marked a e);
}

mark_each-Marks :
    (sources : List ℕ) (marked : List Bool) (work : List ℕ)
    → ((a : ℕ) → contains sources a ≡ true → a < length marked)
    → (marked' : List Bool) × (work' : List ℕ) × (mark_each sources marked work
        ≡ some (marked', work'))
      × Marks marked work marked' work'
unfolding mark_each
mark_each-Marks [] marked work h = (marked, work, refl, Marks-refl marked work)
mark_each-Marks (a ∷ sources) marked work h = elim (Option-cases (get_elem? marked a)) [
  | inl e ↦ absurd (no_cell marked a (h a (ground arith)) e)
  | inr (seen, e) ↦
      let once = one-Marks marked work a seen e in
      let (marked', work', f, rest) =
        mark_each-Marks sources (if seen then marked else set marked a true)
          (if seen then work else a ∷ work)
          (λ c g. subst (λ n. c < n) (sym once.same_length) (h c (ground arith))) in
      (marked', work', rw (mark_each, e) f, Marks-trans once rest)
]

pub mark_back-total :
    (back : List (List ℕ)) (f : ℕ) (marked : List Bool) (work : List ℕ)
    → IsGraph back (length marked)
    → ((a : ℕ) → contains work a ≡ true → a < length marked)
    → length work + left marked < f
    → (marked' : List Bool) × (mark_back back f marked work ≡ some marked')
      × (length marked' ≡ length marked)
unfolding mark_back
mark_back-total back zero marked work graph within l = absurd (omega arith)
mark_back-total back (suc f) marked [] graph within l = (marked, refl, refl)
mark_back-total back (suc f) marked (b ∷ work) graph within l =
    elim (Option-cases (get_elem? back b)) [
      | inl e ↦
          absurd (
            no_cell back b (subst (λ n. b < n) (sym graph.same_length) (within b (ground arith))) e)
      | inr (sources, e) ↦
          let (marked1, work1, g, r) =
            mark_each-Marks sources marked work (λ a c. graph.targets b a (sources, e, c)) in
          let (marked2, h, same) =
            mark_back-total back f marked1 work1 (subst (IsGraph back) (sym r.same_length) graph)
              (λ a c.
                subst (λ n. a < n) (sym r.same_length)
                  (elim (r.within a c) [ inl old ↦ within a (ground arith) | inr lt ↦ lt ]))
              (omega (arith, r.measure)) in
          (marked2, rw (mark_back, e, g) h, same ∙ r.same_length)
    ]

length-unmarked : (n : ℕ) → length (unmarked n) ≡ n
length-unmarked zero = refl
length-unmarked (suc n) = ap suc (length-unmarked n)

pub needed_of-total :
    (back : List (List ℕ)) (demanded : List ℕ) (n : ℕ)
    → IsGraph back n
    → ((a : ℕ) → contains demanded a ≡ true → a < n)
    → (needed : List Bool) × (needed_of back demanded n ≡ some needed) × (length needed ≡ n)
unfolding needed_of
needed_of-total back demanded n graph within =
    let l = length-unmarked n in
    let (marked, work, e, r) =
      mark_each-Marks demanded (unmarked n) [] (λ a h. subst (λ m. a < m) (sym l) (within a h)) in
    let (needed, f, same) =
      mark_back-total back (suc (length work + n)) marked work
        (subst (IsGraph back) (sym (r.same_length ∙ l)) graph)
        (λ a h. elim (r.within a h) [
          | inl absent ↦ cc
          | inr lt ↦ subst (λ m. a < m) (sym r.same_length) lt
        ])
        (omega (arith, left-le marked, r.same_length, l)) in
    (needed, rw (needed_of, e) f, same ∙ (r.same_length ∙ l))

length-map_floats : (kind : List Kind) → length (map is_float kind) ≡ length kind
length-map_floats [] = refl
length-map_floats (k ∷ kind) = ap suc (length-map_floats kind)

length-push_floats :
    (from : ℕ) (kind : List Kind) (work : List ℕ)
    → length (push_floats from kind work) ≤ length kind + length work
unfolding push_floats
length-push_floats from [] work = omega arith
length-push_floats from (k ∷ kind) work = elim (Bool-cases (is_float k)) [
  | inl flt ↦ rw flt (omega (arith, length-push_floats (suc from) kind (from ∷ work)))
  | inr other ↦ rw other (omega (arith, length-push_floats (suc from) kind work))
]

push_floats-within :
    (from : ℕ) (kind : List Kind) (work : List ℕ) (a : ℕ)
    → contains (push_floats from kind work) a ≡ true
    → (contains work a ≡ true) ⊎ (a < from + length kind)
unfolding push_floats
push_floats-within from [] work a h = inl h
push_floats-within from (k ∷ kind) work a h = elim (push_floats-within (suc from) kind _ a h) [
  | inl g ↦ pushed (is_float k) g
  | inr lt ↦ inr (omega arith)
]
  where
    pushed :
        (b : Bool)
        → contains (if b then from ∷ work else work) a ≡ true
        → (contains work a ≡ true) ⊎ (a < from + suc (length kind))
    pushed false g = inl g
    pushed true g = elim (Bool-cases (from == a)) [
      | inl same ↦ let eq = ==→eq from a same in inr (omega arith)
      | inr other ↦ inl (ground arith)
    ]

pub reaches_float-total :
    (back : List (List ℕ)) (kind : List Kind)
    → IsGraph back (length kind)
    → (marked : List Bool) × (reaches_float back kind ≡ some marked) × (length marked ≡ length kind)
unfolding reaches_float
reaches_float-total back kind graph =
    let l = length-map_floats kind in
    let (marked, e, same) =
      mark_back-total back (suc (length kind + length kind)) (map is_float kind)
        (push_floats 0 kind []) (subst (IsGraph back) (sym l) graph)
        (λ a h. elim (push_floats-within 0 kind [] a h) [
          | inl absent ↦ cc
          | inr lt ↦ omega (arith, l)
        ])
        (omega (arith, left-le (map is_float kind), length-push_floats 0 kind [], l)) in
    (marked, rw (reaches_float, e) refl, same ∙ l)
