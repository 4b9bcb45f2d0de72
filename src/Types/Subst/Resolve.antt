-- ===== src/Types/Subst/Resolve.antt =====
-- `resolve`: the lookup that compresses paths.
use inty.Common.{
  ℕ, suc, ◌≡◌, refl, subst, ◌⊎◌, ◌↔◌, inl, inr, some, List, [], ◌∷◌, arith, length, Bool-cases,
  Option-cases, All, All-map,
}
use inty.Common.Dict
use inty.Common.Dict.{Eq, ◌=?◌, =?-self, has, lookup, lookup-insert}
use inty.Common.Outside.{outside_nil, outside-cons_le, keys, length-keys}
use inty.Types.Ty.{TVarName, tvar_eq, Ty, var}
use inty.Types.Subst.{
  Subst, Trace, ends, loops, follow, as_var, write, rebind, compress, resolve, get,
}
use inty.Types.Subst.Chain.{
  Leads, at_type, at_free, hop, Ends, Bound, Leads-unique, Leads-end, follow-Ends, follow-ends,
}

-- Every chain ends in the second map where it ends in the first, and no other chain ends.
abbrev pub SameEnds : (before after : List (TVarName × Ty)) → Type 0
SameEnds before after = (a b : Ty) → Ends before a b ↔ Ends after a b

-- A bound key of a map is bound to the end of its chain.
module _ (map : List (TVarName × Ty)) (u : TVarName) (end : Ty) (bound : Bound map end u) where
  insert-stop : {a b : Ty} → Leads map 0 a b → Leads (Dict.insert u end map) 0 a b
  insert-stop (at_type h) = at_type h
  insert-stop (at_free {v} h) =
      at_free (ground (arith, tvar_eq.beq_iff u v, bound.0.1, lookup-insert u v end map))

  insert-Ends : {n : ℕ} {a b : Ty} → Leads map n a b → Ends (Dict.insert u end map) a b
  insert-Ends (at_type h) = (0, at_type h)
  insert-Ends (at_free {v} h) =
      (0, at_free (ground (arith, tvar_eq.beq_iff u v, bound.0.1, lookup-insert u v end map)))
  insert-Ends {b = b} (hop {v = v} {next = next} h r) = elim (Bool-cases (u =? v)) [
    | inl same ↦
        let here = subst (λ w. Ends map (var w) end) ((tvar_eq.beq_iff u v).0 same) bound.1 in
        let e = (Leads-unique map here.1 (hop h r)).1 in
        let last = insert-stop (Leads-end map bound.1.1) in
        subst (Ends (Dict.insert u end map) (var v)) e
          (1, hop (ground (arith, lookup-insert u v end map)) last)
    | inr other ↦
        let (m, q) = insert-Ends r in (suc m, hop (ground (arith, lookup-insert u v end map)) q)
  ]

  Ends-insert : {n : ℕ} {a b : Ty} → Leads (Dict.insert u end map) n a b → Ends map a b
  Ends-insert (at_type h) = (0, at_type h)
  Ends-insert (at_free {v} h) = (0, at_free (ground (arith, lookup-insert u v end map)))
  Ends-insert {b = b} (hop {v = v} {next = next} h r) = elim (Bool-cases (u =? v)) [
    | inl same ↦
        let e : next ≡ end = ground (arith, lookup-insert u v end map) in
        let (m, q) = Ends-insert r in
        let stops =
          (Leads-unique map (Leads-end map bound.1.1) (subst (λ x. Leads map m x b) e q)).1 in
        subst (λ w. Ends map (var w) b) ((tvar_eq.beq_iff u v).0 same)
          (subst (Ends map (var u)) stops bound.1)
    | inr other ↦
        let (m, q) = Ends-insert r in (suc m, hop (ground (arith, lookup-insert u v end map)) q)
  ]

  insert-SameEnds : SameEnds map (Dict.insert u end map)
  insert-SameEnds a b = ((λ (n, r). insert-Ends r), (λ (n, r). Ends-insert r))

insert-Bound :
    (map : List (TVarName × Ty)) (u : TVarName) (end : Ty)
    → Bound map end u
    → (v : TVarName) → Bound map end v
    → Bound (Dict.insert u end map) end v
insert-Bound map u end h v ((next, found), led) = elim (Bool-cases (u =? v)) [
  | inl same ↦ (
    (end, ground (arith, lookup-insert u v end map)),
    (insert-SameEnds map u end h (var v) end).0 led,
  )
  | inr other ↦ (
    (next, ground (arith, lookup-insert u v end map)),
    (insert-SameEnds map u end h (var v) end).0 led,
  )
]

rebind-SameEnds :
    (end : Ty) (chain : List TVarName) (s : Subst)
    → All (Bound s.map end) chain
    → SameEnds s.map (rebind end chain s).map
unfolding rebind write
rebind-SameEnds end [] s h a b = ((λ x. x), (λ x. x))
rebind-SameEnds end (v ∷ chain) s h a b =
    let one = insert-SameEnds s.map v end h.0 a b in
    let more =
      rebind-SameEnds end chain (write v end s)
        (All-map (Bound s.map end) (Bound (Dict.insert v end s.map) end) chain
          (insert-Bound s.map v end h.0) h.1)
        a b in
    ((λ x. more.0 (one.0 x)), (λ x. one.1 (more.1 x)))

rebind-keeps :
    (end : Ty) (chain : List TVarName) (v : TVarName) (s : Subst)
    → lookup v s.map ≡ some end
    → lookup v (rebind end chain s).map ≡ some end
unfolding rebind write
rebind-keeps end [] v s h = h
rebind-keeps end (u ∷ chain) v s h =
    rebind-keeps end chain v (write u end s) (ground (arith, lookup-insert u v end s.map))

rebind-first :
    (end : Ty) (chain : List TVarName) (v : TVarName) (s : Subst)
    → lookup v (rebind end (v ∷ chain) s).map ≡ some end
unfolding rebind write
rebind-first end chain v s =
    rebind-keeps end chain v (write v end s)
      (ground (arith, lookup-insert v v end s.map, =?-self v))

-- The chain of `v` ends at `end`: `resolve` returns it, `v` is now bound to it, and chains end
-- where they did.
pub record Resolved (s : Subst) (v : TVarName) (end : Ty) : Type 0 where
  pub led : Ends s.map (var v) end
  pub returned : (resolve v s).0 ≡ some end
  pub direct : get (resolve v s).1 v ≡ some end
  pub ends : SameEnds s.map (resolve v s).1.map

-- `resolve` on a bound variable. If the chain of bindings from it ends, at a type that is no
-- variable or at an unbound variable, then it returns that end and binds the variable to it, and
-- every chain of the substitution ends where it did. If it does not end, the substitution stays as
-- it is. The rounds of the loop are enough for every chain that ends.
pub resolve-Resolved :
    (s : Subst) (v : TVarName) (first : Ty)
    → get s v ≡ some first
    → ((end : Ty) × Resolved s v end)
      ⊎ (((end : Ty) → ¬ (Ends s.map (var v) end)) × ((resolve v s).1 ≡ s))
unfolding get resolve compress
resolve-Resolved s v first h = elim (Option-cases (as_var first)) [
  | inl e ↦ inl (
    first,
    record {
      led = (1, hop h (at_type e));
      returned = ground arith;
      direct = rw (resolve, h, e) h;
      ends = rw (resolve, h, e) (λ a b. ((λ x. x), (λ x. x)));
    },
  )
  | inr (w, e) ↦ go w e (follow s.map (suc (length s.map)) (v ∷ []) first) refl
]
  where
    go :
        (w : TVarName)
        → as_var first ≡ some w
        → (trace : Trace) → follow s.map (suc (length s.map)) (v ∷ []) first ≡ trace
        → ((end : Ty) × Resolved s v end)
          ⊎ (((end : Ty) → ¬ (Ends s.map (var v) end)) × ((resolve v s).1 ≡ s))
    go w e (ends chain end) run =
        let ((n, led), all) = follow-Ends s.map (suc (length s.map)) (v ∷ []) chain first end run in
        inl (
          end,
          record {
            led = (suc n, hop h led);
            returned = ground arith;
            direct = rw (resolve, h, e, run) (rebind-first end chain v s);
            ends =
                rw (resolve, h, e, run)
                  (rebind-SameEnds end (v ∷ chain) s (((first, h), (suc n, hop h led)), all));
          },
        )
    go w e (loops ty) run = inr (never, ground arith)
      where
        never : (end : Ty) → ¬ (Ends s.map (var v) end)
        never end (_, at_type k) = ground arith
        never end (_, at_free k) = ground arith
        never end (_, hop {n} {next = next} k r) =
            let same : next ≡ first = ground arith in
            let (chain, out) =
              follow-ends s.map (suc (length s.map)) (v ∷ []) r
                (λ u i. (
                  suc n,
                  omega arith,
                  subst (λ x. Leads s.map (suc n) (var x) end)
                      ((tvar_eq.beq_iff v u).0 (ground arith)) (hop k r),
                ))
                (omega (
                  arith,
                  outside-cons_le (keys s.map) [] v,
                  outside_nil (keys s.map),
                  length-keys s.map,
                )) in
            let out' =
              subst (λ x. follow s.map (suc (length s.map)) (v ∷ []) x ≡ ends chain end) same out in
            ground arith
