-- ===== src/Types/Subst/Chain.antt =====
-- Chains of variables in a substitution, and the type that a chain ends at.
use inty.Common.{
  ℕ, zero, suc, ◌<◌, ◌≡◌, refl, sym, ap, subst, inl, inr, true, none, some, List, [], ◌∷◌, arith,
  Bool-cases, Option-cases, All,
}
use inty.Common.Dict.{◌=?◌, has, lookup}
use inty.Common.Outside.{outside, outside-cons_lt, keys, lookup-keys}
use inty.Types.Ty.{TVarName, tvar_eq, Ty, var}
use inty.Types.Subst.{Trace, ends, loops, through, follow, as_var}

-- `n` hops from the first type to the second, at which the chain ends: a type that is no variable,
-- or a variable without a binding.
pub data Leads (map : List (TVarName × Ty)) : ℕ → Ty → Ty → Type 0 where
  at_type : {ty : Ty} → as_var ty ≡ none → Leads map 0 ty ty
  at_free : {v : TVarName} → lookup v map ≡ none → Leads map 0 (var v) (var v)
  hop :
      {n : ℕ} {v : TVarName} {next end : Ty}
      → lookup v map ≡ some next
      → Leads map n next end
      → Leads map (suc n) (var v) end

abbrev pub Ends : List (TVarName × Ty) → Ty → Ty → Type 0
Ends map a b = (n : ℕ) × Leads map n a b

-- A key with a binding, and the end of its chain.
abbrev pub Bound : List (TVarName × Ty) → Ty → TVarName → Type 0
Bound map end v = ((next : Ty) × (lookup v map ≡ some next)) × Ends map (var v) end

as_var-some : (ty : Ty) (v : TVarName) → as_var ty ≡ some v → ty ≡ var v
as_var-some ty v h = ground arith

module _ (map : List (TVarName × Ty)) where
  pub Leads-unique : {n m : ℕ} {a b c : Ty} → Leads map n a b → Leads map m a c → (n ≡ m) × (b ≡ c)
  Leads-unique (at_type h) (at_type k) = (refl, refl)
  Leads-unique (at_type h) (at_free k) = absurd (ground arith)
  Leads-unique (at_type h) (hop k r) = absurd (ground arith)
  Leads-unique (at_free h) (at_type k) = absurd (ground arith)
  Leads-unique (at_free h) (at_free k) = (refl, refl)
  Leads-unique (at_free h) (hop k r) = absurd (ground arith)
  Leads-unique (hop h r) (at_type k) = absurd (ground arith)
  Leads-unique (hop h r) (at_free k) = absurd (ground arith)
  Leads-unique {c = c} (hop {n} {v} {next} {end} h r) (hop {n = m} {v = v'} {next = next'} k q) =
      let same : next' ≡ next = ground arith in
      let (e, f) = Leads-unique r (subst (λ x. Leads map m x c) same q) in (ap suc e, f)

  -- An end is its own end.
  pub Leads-end : {n : ℕ} {a b : Ty} → Leads map n a b → Leads map 0 b b
  Leads-end (at_type h) = at_type h
  Leads-end (at_free h) = at_free h
  Leads-end (hop h r) = Leads-end r

  through-ends :
      (v : TVarName) (trace : Trace) (chain : List TVarName) (end : Ty)
      → through v trace ≡ ends chain end
      → (rest : List TVarName) × (trace ≡ ends rest end) × (chain ≡ v ∷ rest)
  through-ends v (ends rest ty) chain end h = (rest, ground arith, ground arith)
  through-ends v (loops ty) chain end h = absurd (ground arith)

  follow-Ends_stop :
      (chain : List TVarName) (current end : Ty)
      → ends [] current ≡ ends chain end
      → Ends map current current
      → Ends map current end × All (Bound map end) chain
  follow-Ends_stop [] current end h e = (subst (Ends map current) (ground arith) e, tt)
  follow-Ends_stop (v ∷ chain) current end h e = absurd (ground arith)

  -- A chain that `follow` goes through ends where it says.
  pub follow-Ends :
      (k : ℕ) (visited chain : List TVarName) (current end : Ty)
      → follow map k visited current ≡ ends chain end
      → Ends map current end × All (Bound map end) chain
  unfolding follow
  follow-Ends zero visited chain current end h = absurd (ground arith)
  follow-Ends (suc k) visited chain current end h = elim (Option-cases (as_var current)) [
    | inl e ↦ follow-Ends_stop chain current end (ground arith) (0, at_type e)
    | inr (v, e) ↦ elim (Bool-cases (has visited v)) [
      | inl seen ↦ absurd (ground arith)
      | inr new ↦ elim (Option-cases (lookup v map)) [
        | inl free ↦
            follow-Ends_stop chain current end (ground arith)
              (subst (λ a. Ends map a a) (sym (as_var-some current v e)) (0, at_free free))
        | inr (next, found) ↦
            let (rest, r, same) =
              through-ends v (follow map k (v ∷ visited) next) chain end (ground arith) in
            let ((n, led), all) = follow-Ends k (v ∷ visited) rest next end r in
            (
              subst (λ a. Ends map a end) (sym (as_var-some current v e)) (suc n, hop found led),
              subst (All (Bound map end)) (sym same) (((next, found), (suc n, hop found led)), all),
            )
      ]
    ]
  ]

  -- What was visited is farther from the end.
  abbrev pub Behind : ℕ → Ty → List TVarName → Type 0
  Behind n end visited =
      (u : TVarName) → has visited u ≡ true → (m : ℕ) × (n < m) × Leads map m (var u) end

  pub follow-ends :
      {n : ℕ} {current end : Ty} (k : ℕ) (visited : List TVarName)
      → Leads map n current end
      → Behind n end visited
      → outside (keys map) visited < k
      → (chain : List TVarName) × (follow map k visited current ≡ ends chain end)
  unfolding follow
  follow-ends zero visited r behind l = absurd (omega arith)
  follow-ends (suc k) visited (at_type h) behind l = ([], ground arith)
  follow-ends (suc k) visited (at_free {v} h) behind l = elim (Bool-cases (has visited v)) [
    | inl seen ↦
        let (m, less, q) = behind v seen in absurd (omega (arith, (Leads-unique q (at_free h)).0))
    | inr new ↦ ([], ground arith)
  ]
  follow-ends (suc k) visited (hop {n} {v} {next} {end} h r) behind l =
      elim (Bool-cases (has visited v)) [
        | inl seen ↦
            let (m, less, q) = behind v seen in absurd (omega (arith, (Leads-unique q (hop h r)).0))
        | inr new ↦
            let (chain, e) =
              follow-ends k (v ∷ visited) r
                (λ u i. elim (Bool-cases (v =? u)) [
                  | inl same ↦ (
                    suc n,
                    omega arith,
                    subst (λ w. Leads map (suc n) (var w) end) ((tvar_eq.beq_iff v u).0 same)
                        (hop h r),
                  )
                  | inr other ↦ let (m, less, q) = behind u (ground arith) in (m, omega arith, q)
                ])
                (omega
                  (arith, outside-cons_lt (keys map) visited v (lookup-keys v next map h) new)) in
            (v ∷ chain, ground arith)
      ]
