-- ===== src/Types/Subst/Presences.antt =====
-- `resolve_presence`: chains of presence variables.
use inty.Common.{
  ℕ, zero, suc, ◌<◌, ◌≡◌, refl, ap, subst, inl, inr, true, none, some, List, [], ◌∷◌, arith, length,
  Bool-cases,
}
use inty.Common.Dict.{◌=?◌, has, lookup}
use inty.Common.Outside.{outside, outside_nil, outside-cons_lt, keys, lookup-keys, length-keys}
use inty.Types.Ty.{PVarName, pvar_eq, Presence, pre, abs, var}
use inty.Types.Subst.{Subst, resolve_loop, resolve_presence}

-- `n` hops from the first presence to the second, at which the chain ends.
pub data Leads (m : List (PVarName × Presence)) : ℕ → Presence → Presence → Type 0 where
  at_pre : Leads m 0 pre pre
  at_abs : Leads m 0 abs abs
  at_free : {v : PVarName} → lookup v m ≡ none → Leads m 0 (var v) (var v)
  hop :
      {n : ℕ} {v : PVarName} {next end : Presence}
      → lookup v m ≡ some next
      → Leads m n next end
      → Leads m (suc n) (var v) end

module _ (m : List (PVarName × Presence)) where
  Leads-unique : {i j : ℕ} {a b c : Presence} → Leads m i a b → Leads m j a c → i ≡ j
  Leads-unique at_pre at_pre = refl
  Leads-unique at_abs at_abs = refl
  Leads-unique (at_free h) (at_free k) = refl
  Leads-unique (at_free h) (hop k r) = absurd (ground arith)
  Leads-unique (hop h r) (at_free k) = absurd (ground arith)
  Leads-unique {c = c} (hop {next = next} h r) (hop {n = j} {next = next'} k q) =
      let same : next' ≡ next = ground arith in
      ap suc (Leads-unique r (subst (λ x. Leads m j x c) same q))

  resolve_loop-end :
      {n : ℕ} {current end : Presence} (k : ℕ) (visited : List PVarName)
      → Leads m n current end
      → ((u : PVarName) → has visited u ≡ true → (j : ℕ) × (n < j) × Leads m j (var u) end)
      → outside (keys m) visited < k
      → resolve_loop m k visited current ≡ end
  unfolding resolve_loop
  resolve_loop-end zero visited r behind l = absurd (omega arith)
  resolve_loop-end (suc k) visited at_pre behind l = refl
  resolve_loop-end (suc k) visited at_abs behind l = refl
  resolve_loop-end (suc k) visited (at_free {v} h) behind l = ground arith
  resolve_loop-end (suc k) visited (hop {n} {v} {next} {end} h r) behind l =
      elim (Bool-cases (has visited v)) [
        | inl seen ↦
            let (j, less, q) = behind v seen in absurd (omega (arith, Leads-unique q (hop h r)))
        | inr new ↦
            let rest =
              resolve_loop-end k (v ∷ visited) r
                (λ u i. elim (Bool-cases (v =? u)) [
                  | inl same ↦ (
                    suc n,
                    omega arith,
                    subst (λ w. Leads m (suc n) (var w) end) ((pvar_eq.beq_iff v u).0 same)
                        (hop h r),
                  )
                  | inr other ↦ let (j, less, q) = behind u (ground arith) in (j, omega arith, q)
                ])
                (omega (arith, outside-cons_lt (keys m) visited v (lookup-keys v next m h) new)) in
            ground arith
      ]

-- `resolve_presence` returns the end of every chain of presence variables that ends, at `Pre`, at
-- `Abs` or at an unbound variable.
pub resolve_presence-Leads :
    {n : ℕ} (s : Subst) (first end : Presence)
    → Leads s.presences n first end
    → resolve_presence s first ≡ end
unfolding resolve_presence
resolve_presence-Leads s first end r =
    resolve_loop-end s.presences (suc (length s.presences)) [] r (λ u i. absurd (ground arith))
      (omega (arith, outside_nil (keys s.presences), length-keys s.presences))
