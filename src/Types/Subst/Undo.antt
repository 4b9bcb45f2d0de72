-- ===== src/Types/Subst/Undo.antt =====
-- Each operation that writes leaves on the trail what undoes it.
use inty.Common.{
  suc, ◌≡◌, refl, ap, ◌∙◌, inl, inr, false, none, some, List, [], ◌∷◌, ◌++◌, arith, length,
  Option-cases,
}
use inty.Common.Dict
use inty.Common.Dict.{Eq, ◌=?◌, lookup, lookup-insert, lookup-remove}
use inty.Types.Ty.{TVarName, PVarName, tvar_eq, pvar_eq, Presence, Ty}
use inty.Types.Subst.{
  SubstUndo, type_was, presence_was, Subst, log, write, revert, insert_presence, remove, Trace,
  ends, loops, follow, rebind, compress, resolve, as_var,
}

-- The same bindings.
pub record Same (a b : Subst) : Type 0 where
  pub types : (v : TVarName) → lookup v a.map ≡ lookup v b.map
  pub presences : (p : PVarName) → lookup p a.presences ≡ lookup p b.presences

pub Same-trans : {a b c : Subst} → Same a b → Same b c → Same a c
Same-trans f g = record {
  types = λ v. f.types v ∙ g.types v;
  presences = λ p. f.presences p ∙ g.presences p;
}

abbrev pub revert_all : List SubstUndo → Subst → Subst
revert_all [] s = s
revert_all (entry ∷ entries) s = revert_all entries (revert entry s)

revert-Same : (entry : SubstUndo) (a b : Subst) → Same a b → Same (revert entry a) (revert entry b)
unfolding revert
revert-Same (type_was v none) a b h = record {
  types = λ w. ground (arith, lookup-remove v w a.map, lookup-remove v w b.map, h.types w);
  presences = h.presences;
}
revert-Same (type_was v (some ty)) a b h = record {
  types = λ w. ground (arith, lookup-insert v w ty a.map, lookup-insert v w ty b.map, h.types w);
  presences = h.presences;
}
revert-Same (presence_was p none) a b h = record {
  types = h.types;
  presences = λ q.
      ground (arith, lookup-remove p q a.presences, lookup-remove p q b.presences, h.presences q);
}
revert-Same (presence_was p (some pres)) a b h = record {
  types = h.types;
  presences = λ q. ground (
    arith,
    lookup-insert p q pres a.presences,
    lookup-insert p q pres b.presences,
    h.presences q,
  );
}

pub revert_all-Same :
    (entries : List SubstUndo) (a b : Subst)
    → Same a b
    → Same (revert_all entries a) (revert_all entries b)
revert_all-Same [] a b h = h
revert_all-Same (entry ∷ entries) a b h =
    revert_all-Same entries (revert entry a) (revert entry b) (revert-Same entry a b h)

revert_type-Same :
    (v : TVarName) (s t : Subst)
    → ((w : TVarName) → (v =? w) ≡ false → lookup w t.map ≡ lookup w s.map)
    → t.presences ≡ s.presences
    → Same (revert (type_was v (lookup v s.map)) t) s
unfolding revert
revert_type-Same v s t h k = elim (Option-cases (lookup v s.map)) [
  | inl e ↦ rw e (record {
    types = λ w. ground (arith, lookup-remove v w t.map, tvar_eq.beq_iff v w, h w);
    presences = λ p. ap (lookup p) k;
  })
  | inr (ty, e) ↦ rw e (record {
    types = λ w. ground (arith, lookup-insert v w ty t.map, tvar_eq.beq_iff v w, h w);
    presences = λ p. ap (lookup p) k;
  })
]

write-Same :
    (v : TVarName) (ty : Ty) (s : Subst)
    → Same (revert (type_was v (lookup v s.map)) (write v ty s)) s
unfolding write
write-Same v ty s =
    revert_type-Same v s (write v ty s) (λ w o. ground (arith, lookup-insert v w ty s.map)) refl

pub insert_presence-Same :
    (p : PVarName) (pres : Presence) (s : Subst)
    → Same (revert (presence_was p (lookup p s.presences)) (insert_presence p pres s)) s
unfolding revert insert_presence
insert_presence-Same p pres s = elim (Option-cases (lookup p s.presences)) [
  | inl e ↦ rw e (record {
    types = λ v. refl;
    presences = λ q. ground (
      arith,
      lookup-remove p q (Dict.insert p pres s.presences),
      lookup-insert p q pres s.presences,
      pvar_eq.beq_iff p q,
    );
  })
  | inr (old, e) ↦ rw e (record {
    types = λ v. refl;
    presences = λ q. ground (
      arith,
      lookup-insert p q old (Dict.insert p pres s.presences),
      lookup-insert p q pres s.presences,
      pvar_eq.beq_iff p q,
    );
  })
]

-- The trail of `t` is that of `s` with entries on top, and undoing these gives the bindings of `s`.
pub record Grown (base : List SubstUndo) (s t : Subst) : Type 0 where
  pub entries : List SubstUndo
  pub same_trail : t.trail ≡ some (entries ++ base)
  pub back : Same (revert_all entries t) s

pub Grown-push :
    (base : List SubstUndo) (entry : SubstUndo) (s t u : Subst)
    → Grown base s t
    → u.trail ≡ log entry t.trail
    → Same (revert entry u) t
    → Grown base s u
unfolding log
Grown-push base entry s t u g tr h = record {
  entries = entry ∷ g.entries;
  same_trail = tr ∙ ap (log entry) g.same_trail;
  back = Same-trans (revert_all-Same g.entries (revert entry u) t h) g.back;
}

pub write-Grown :
    (base : List SubstUndo) (v : TVarName) (ty : Ty) (s t : Subst)
    → Grown base s t
    → Grown base s (write v ty t)
unfolding write
write-Grown base v ty s t g =
    Grown-push base (type_was v (lookup v t.map)) s t (write v ty t) g refl (write-Same v ty t)

rebind-Grown :
    (base : List SubstUndo) (ty : Ty) (chain : List TVarName) (s t : Subst)
    → Grown base s t
    → Grown base s (rebind ty chain t)
unfolding rebind
rebind-Grown base ty [] s t g = g
rebind-Grown base ty (v ∷ chain) s t g =
    rebind-Grown base ty chain s (write v ty t) (write-Grown base v ty s t g)

pub remove-Grown :
    (base : List SubstUndo) (v : TVarName) (s t : Subst)
    → Grown base s t
    → Grown base s (remove v t)
unfolding remove revert
remove-Grown base v s t g = elim (Option-cases (lookup v t.map)) [
  | inl e ↦
      rw (remove, e)
        (record {
          entries = g.entries;
          same_trail = g.same_trail;
          back =
              Same-trans
                (revert_all-Same g.entries (record t { map = Dict.remove v t.map }) t
                  (record {
                    types = λ w. ground (arith, lookup-remove v w t.map, tvar_eq.beq_iff v w);
                    presences = λ p. refl;
                  }))
                g.back;
        })
  | inr (prev, e) ↦
      rw (remove, e)
        (Grown-push base (type_was v (some prev)) s t
          (record t { map = Dict.remove v t.map; trail = log (type_was v (some prev)) t.trail }) g
          refl
          (record {
            types = λ w. ground (
              arith,
              lookup-insert v w prev (Dict.remove v t.map),
              lookup-remove v w t.map,
              tvar_eq.beq_iff v w,
            );
            presences = λ p. refl;
          }))
]

compress-Grown :
    (base : List SubstUndo) (v : TVarName) (trace : Trace) (s t : Subst)
    → Grown base s t
    → Grown base s (compress v trace t).1
unfolding compress
compress-Grown base v (ends chain ty) s t g = rebind-Grown base ty (v ∷ chain) s t g
compress-Grown base v (loops ty) s t g = g

pub resolve-Grown :
    (base : List SubstUndo) (v : TVarName) (s t : Subst)
    → Grown base s t
    → Grown base s (resolve v t).1
unfolding resolve
resolve-Grown base v s t g = elim (Option-cases (lookup v t.map)) [
  | inl e ↦ rw (resolve, e) g
  | inr (first, e) ↦ elim (Option-cases (as_var first)) [
    | inl ty ↦ rw (resolve, e, ty) g
    | inr (w, link) ↦
        rw (resolve, e, link)
          (compress-Grown base v (follow t.map (suc (length t.map)) (v ∷ []) first) s t g)
  ]
]
