-- ===== src/Infer/Zonk/Simulation.antt =====
-- An action on the table beside an action that only reads cells: if they do the same at the parts of
-- a type, they do the same at the type.
use inty.Common.{◌≡◌, refl, subst, Bool, Option, none, some, List}
use inty.Types.Ty.{
  TVarName, Presence, Ty, number, string, boolean, undefined, null, regex, new_target, arrow_this,
  var, func, row, array, map, promise, tuple, named, literal, union, maybe, module_, typed_array,
  error, Tys, nil, cons, OptionTy, absent, this, Params, no_params, param, Props, no_props, prop,
  Tail, closed, open_, recursive, Exports, no_exports, export, Preds, no_preds, pred,
}
use inty.Types.Widen.{union_ty}
use inty.Types.Union.{list_of}
use inty.Infer.VarTable.Find.{Keeps}
use inty.Infer.Zonk.{Zonk}
use inty.Common.State.{Action, ◌>>=◌, pure}
use inty.Infer.Zonk.Parts.{
  Visitor, each_tys, each_this, each_preds, each_params, each_props, each_tail, each_exports,
  each_part,
}
use inty.Infer.Zonk.Rebuilt.{
  Reading, rebuilt, rebuilt_tys, rebuilt_this, rebuilt_preds, rebuilt_params, rebuilt_props,
  rebuilt_tail, rebuilt_exports,
}
use inty.Infer.Zonk.Expand.{Cells}

module _ (cells : Cells) where
  -- Both panic, or both give the same and the table has the classes and the root contents of `cells`.
  abbrev pub Same : {A : Type 0} → Option (A × Zonk) → Option (A × Bool) → Type 0
  Same none none = Unit {0}
  Same (some (a, s)) (some (b, f)) = (a ≡ b) × (Keeps cells s.table.cells × (s.overflowed ≡ f))
  Same _ _ = ⊥

  abbrev pub Simulates : {A : Type 0} → Action Zonk A → Action Bool A → Type 0
  Simulates m n = (s : Zonk) → Keeps cells s.table.cells → Same (m s) (n s.overflowed)

  pub Simulates-pure : {A : Type 0} → (a : A) → Simulates (pure a) (pure a)
  Simulates-pure a s k = (refl, (k, refl))

  pub Simulates-bind :
      {A B : Type 0} (m : Action Zonk A) (n : Action Bool A) (f : A → Action Zonk B)
      (g : A → Action Bool B)
      → Simulates m n
      → ((a : A) → Simulates (f a) (g a))
      → Simulates (m >>= f) (n >>= g)
  Simulates-bind {A = A} {B = B} m n f g h i s k = go (m s) (n s.overflowed) (h s k)
    where
      go :
          (o : Option (A × Zonk)) (p : Option (A × Bool))
          → Same o p
          → Same
              (elim o [ none ↦ none | some (a, t) ↦ f a t ])
              (elim p [ none ↦ none | some (a, t) ↦ g a t ])
      go none none e = tt
      go none (some _) e = absurd e
      go (some _) none e = absurd e
      go (some (a, t)) (some (b, w)) (e, (l, q)) =
          subst (λ x. Same (f a t) (g x w)) e (subst (λ x. Same (f a t) (g a x)) q (i a t l))

  -- A last step that makes a value of the one before.
  pub Simulates-map :
      {A B : Type 0} (m : Action Zonk A) (n : Action Bool A) (f : A → B)
      → Simulates m n
      → Simulates (m >>= λ a. pure (f a)) (n >>= λ a. pure (f a))
  Simulates-map m n f h = Simulates-bind m n _ _ h (λ a. Simulates-pure (f a))

  module _ (z : Ty → Action Zonk Ty) (y : Ty → Action Bool Ty)
      (h : (t : Ty) → Simulates (z t) (y t)) where
    pub Simulates-each_tys : (ts : Tys) → Simulates (each_tys z ts) (rebuilt_tys y ts)
    unfolding each_tys
    Simulates-each_tys nil = Simulates-pure nil
    Simulates-each_tys (cons t ts) =
        Simulates-bind (z t) (y t) _ _ (h t)
          (λ u. Simulates-map (each_tys z ts) (rebuilt_tys y ts) (cons u) (Simulates-each_tys ts))

    pub Simulates-each_this : (t : OptionTy) → Simulates (each_this z t) (rebuilt_this y t)
    unfolding each_this
    Simulates-each_this absent = Simulates-pure absent
    Simulates-each_this (this t) = Simulates-map (z t) (y t) this (h t)

    pub Simulates-each_preds : (ps : Preds) → Simulates (each_preds z ps) (rebuilt_preds y ps)
    unfolding each_preds
    Simulates-each_preds no_preds = Simulates-pure no_preds
    Simulates-each_preds (pred c ts origin rest) =
        Simulates-bind (each_tys z ts) (rebuilt_tys y ts) _ _ (Simulates-each_tys ts) (λ us.
          Simulates-map (each_preds z rest) (rebuilt_preds y rest) (pred c us origin)
            (Simulates-each_preds rest))

  module _ (v : Visitor Zonk) (w : Reading) where
    -- The two do the same at each part.
    pub record Agree : Type 0 where
      pub visit : (t : Ty) → Simulates (v.visit t) (w.part t)
      pub param_presence : (p : Presence) → v.param_presence p ≡ w.presence_of_param p
      pub field_presence : (p : Presence) → v.field_presence p ≡ w.presence_of_field p
      pub open_tail : (name : TVarName) → Simulates (v.open_tail name) (w.row_var name)
      pub in_scheme :
          (vars : List TVarName) (t : Ty) → Simulates (v.in_scheme vars t) (w.part_of_scheme vars t)

  module _ (v : Visitor Zonk) (w : Reading) (a : Agree v w) where
    Simulates-each_params :
        (ps : Params) → Simulates (each_params v ps) (rebuilt_params w.part w.presence_of_param ps)
    unfolding each_params
    Simulates-each_params no_params = Simulates-pure no_params
    Simulates-each_params (param p t name rest) = rw (a.param_presence p) (
        Simulates-bind (v.visit t) (w.part t) _ _ (a.visit t) (λ u.
          Simulates-map (each_params v rest) (rebuilt_params w.part w.presence_of_param rest)
            (param (w.presence_of_param p) u name) (Simulates-each_params rest)))

    Simulates-each_props :
        (ps : Props) → Simulates (each_props v ps) (rebuilt_props w.part w.presence_of_field ps)
    unfolding each_props
    Simulates-each_props no_props = Simulates-pure no_props
    Simulates-each_props (prop name p t x o rest) =
        rw (a.field_presence p, a.field_presence x, a.field_presence o)
          (Simulates-bind (v.visit t) (w.part t) _ _ (a.visit t) (λ u.
            Simulates-map (each_props v rest) (rebuilt_props w.part w.presence_of_field rest)
              (prop name (w.presence_of_field p) u (w.presence_of_field x) (w.presence_of_field o))
              (Simulates-each_props rest)))

    Simulates-each_tail : (t : Tail) → Simulates (each_tail v t) (rebuilt_tail w.part w.row_var t)
    unfolding each_tail
    Simulates-each_tail closed = Simulates-pure closed
    Simulates-each_tail (open_ name) =
        Simulates-map (v.open_tail name) (w.row_var name) open_ (a.open_tail name)
    Simulates-each_tail (recursive n ts) =
        Simulates-map (each_tys v.visit ts) (rebuilt_tys w.part ts) (recursive n)
          (Simulates-each_tys v.visit w.part a.visit ts)

    Simulates-each_exports :
        (xs : Exports)
        → Simulates (each_exports v.in_scheme xs) (rebuilt_exports w.part_of_scheme xs)
    unfolding each_exports
    Simulates-each_exports no_exports = Simulates-pure no_exports
    Simulates-each_exports (export name vars pvars preds t rest) =
        Simulates-bind (each_preds (v.in_scheme vars) preds)
          (rebuilt_preds (w.part_of_scheme vars) preds) _ _
          (Simulates-each_preds (v.in_scheme vars) (w.part_of_scheme vars) (a.in_scheme vars) preds)
          (λ preds1.
            Simulates-bind (v.in_scheme vars t) (w.part_of_scheme vars t) _ _ (a.in_scheme vars t)
              (λ u.
                Simulates-map (each_exports v.in_scheme rest)
                  (rebuilt_exports w.part_of_scheme rest) (export name vars pvars preds1 u)
                  (Simulates-each_exports rest)))

    pub Simulates-each_part : (t : Ty) → Simulates (each_part v t) (rebuilt w t)
    unfolding each_part rebuilt
    Simulates-each_part (func this_type params ret) =
        Simulates-bind (each_this v.visit this_type) (rebuilt_this w.part this_type) _ _
          (Simulates-each_this v.visit w.part a.visit this_type)
          (λ this1.
            Simulates-bind (each_params v params) (rebuilt_params w.part w.presence_of_param params)
              _ _ (Simulates-each_params params)
              (λ params1.
                Simulates-map (v.visit ret) (w.part ret) (func this1 params1) (a.visit ret)))
    Simulates-each_part (row props tail) =
        Simulates-bind (each_props v props) (rebuilt_props w.part w.presence_of_field props) _ _
          (Simulates-each_props props)
          (λ props1.
            Simulates-map (each_tail v tail) (rebuilt_tail w.part w.row_var tail) (row props1)
              (Simulates-each_tail tail))
    Simulates-each_part (array t) = Simulates-map (v.visit t) (w.part t) Ty.array (a.visit t)
    Simulates-each_part (map t) = Simulates-map (v.visit t) (w.part t) Ty.map (a.visit t)
    Simulates-each_part (promise t) = Simulates-map (v.visit t) (w.part t) Ty.promise (a.visit t)
    Simulates-each_part (maybe z t) = Simulates-map (v.visit t) (w.part t) (maybe z) (a.visit t)
    Simulates-each_part (tuple ts) =
        Simulates-map (each_tys v.visit ts) (rebuilt_tys w.part ts) tuple
          (Simulates-each_tys v.visit w.part a.visit ts)
    Simulates-each_part (named n ts) =
        Simulates-map (each_tys v.visit ts) (rebuilt_tys w.part ts) (named n)
          (Simulates-each_tys v.visit w.part a.visit ts)
    Simulates-each_part (union ts) =
        Simulates-map (each_tys v.visit ts) (rebuilt_tys w.part ts) (λ us. union_ty (list_of us))
          (Simulates-each_tys v.visit w.part a.visit ts)
    Simulates-each_part (module_ source xs) =
        Simulates-map (each_exports v.in_scheme xs) (rebuilt_exports w.part_of_scheme xs)
          (module_ source) (Simulates-each_exports xs)
    Simulates-each_part (var v1) = Simulates-pure (var v1)
    Simulates-each_part (literal l) = Simulates-pure (literal l)
    Simulates-each_part (typed_array k) = Simulates-pure (typed_array k)
    Simulates-each_part number = Simulates-pure number
    Simulates-each_part string = Simulates-pure string
    Simulates-each_part boolean = Simulates-pure boolean
    Simulates-each_part undefined = Simulates-pure undefined
    Simulates-each_part null = Simulates-pure null
    Simulates-each_part regex = Simulates-pure regex
    Simulates-each_part new_target = Simulates-pure new_target
    Simulates-each_part arrow_this = Simulates-pure arrow_this
    Simulates-each_part error = Simulates-pure error
