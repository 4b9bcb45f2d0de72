-- ===== src/Infer/Zonk/Refines.antt =====
-- `zonk` and `zonk_scheme` give what `expand` and `expand_scheme` say.
use inty.Common.{ℕ, zero, suc, refl, inl, inr, some, List, Bool-cases}
use inty.Common.Dict.{has}
use inty.Types.Ty.{
  tvar_eq, TVarName, Ty, flex, skolem, var, number, string, boolean, undefined, null, regex,
  new_target, arrow_this, func, row, array, map, promise, tuple, named, literal, union, maybe,
  module_, typed_array, error,
}
use inty.Types.Free.{TypeScheme}
use inty.Types.Subst.{Subst, apply_presence}
use inty.Infer.VarTable.Roots.{IsForest}
use inty.Infer.VarTable.Find.{Keeps-refl}
use inty.Infer.Zonk.{
  Zonk, zonk_var, zonk_tail, filtered_var, filtered_tail, zonk_filtered, zonk, zonk_scheme, Preds,
  each_preds,
}
use inty.Infer.Zonk.Rebuilt.{rebuilt_preds}
use inty.Common.State.{◌>>=◌, pure}
use inty.Infer.Zonk.Expand.{
  Cells, expand_var, expand_tail, var_in_scheme, tail_in_scheme, expand_in_scheme, expand,
  expand_scheme,
}
use inty.Infer.Zonk.Simulation.{
  Same, Simulates, Simulates-bind, Simulates-map, Simulates-each_preds, Agree, Simulates-each_part,
}
use inty.Infer.Zonk.Variables.{
  Same-by, Simulates-var, Simulates-tail, Simulates-var_in_scheme, Simulates-tail_in_scheme,
}

module _ (pvars : Subst) (depth : ℕ) (cells : Cells) (forest : IsForest cells) where
  -- One level of a type in a scheme, given the level below.
  module _ (quantified : List TVarName)
      (h : (vars : List TVarName) (t : Ty)
        → Simulates cells
            (zonk_filtered pvars depth vars t)
            (expand_in_scheme pvars depth cells vars t)) where
    filtered_parts :
        Agree cells
          (record {
            visit = zonk_filtered pvars depth quantified;
            param_presence = apply_presence pvars;
            field_presence = λ p. p;
            open_tail = filtered_tail quantified;
            in_scheme = zonk_filtered pvars depth;
          })
          (record {
            part = expand_in_scheme pvars depth cells quantified;
            presence_of_param = apply_presence pvars;
            presence_of_field = λ p. p;
            row_var = tail_in_scheme quantified cells;
            part_of_scheme = expand_in_scheme pvars depth cells;
          })
    filtered_parts = record {
      visit = h quantified;
      param_presence = λ p. refl;
      field_presence = λ p. refl;
      open_tail = Simulates-tail_in_scheme cells forest quantified;
      in_scheme = h;
    }

    Simulates-filtered_level :
        (t : Ty)
        → Simulates cells
            (zonk_filtered pvars (suc depth) quantified t)
            (expand_in_scheme pvars (suc depth) cells quantified t)
    unfolding zonk_filtered expand_in_scheme
    Simulates-filtered_level (var (skolem n)) s k = (refl, (k, refl))
    Simulates-filtered_level (var (flex id)) s k = elim (Bool-cases (has quantified (flex id))) [
      | inl kept ↦
          Same-by cells {m' = some (var (flex id), s)} {n' = some (var (flex id), s.overflowed)}
            (rw kept refl) (rw kept refl) (refl, (k, refl))
      | inr free ↦
          Same-by cells {m' = filtered_var (zonk_filtered pvars depth quantified) id s}
            {n' = var_in_scheme (expand_in_scheme pvars depth cells quantified) cells id
              s.overflowed}
            (rw free refl) (rw free refl)
            (Simulates-var_in_scheme cells forest (zonk_filtered pvars depth quantified)
              (expand_in_scheme pvars depth cells quantified) (h quantified) id s k)
    ]
    Simulates-filtered_level number s k = Simulates-each_part cells _ _ filtered_parts number s k
    Simulates-filtered_level string s k = Simulates-each_part cells _ _ filtered_parts string s k
    Simulates-filtered_level boolean s k = Simulates-each_part cells _ _ filtered_parts boolean s k
    Simulates-filtered_level undefined s k =
        Simulates-each_part cells _ _ filtered_parts undefined s k
    Simulates-filtered_level null s k = Simulates-each_part cells _ _ filtered_parts null s k
    Simulates-filtered_level regex s k = Simulates-each_part cells _ _ filtered_parts regex s k
    Simulates-filtered_level new_target s k =
        Simulates-each_part cells _ _ filtered_parts new_target s k
    Simulates-filtered_level arrow_this s k =
        Simulates-each_part cells _ _ filtered_parts arrow_this s k
    Simulates-filtered_level (func a b c) s k =
        Simulates-each_part cells _ _ filtered_parts (func a b c) s k
    Simulates-filtered_level (row a b) s k =
        Simulates-each_part cells _ _ filtered_parts (row a b) s k
    Simulates-filtered_level (array a) s k =
        Simulates-each_part cells _ _ filtered_parts (Ty.array a) s k
    Simulates-filtered_level (map a) s k =
        Simulates-each_part cells _ _ filtered_parts (Ty.map a) s k
    Simulates-filtered_level (promise a) s k =
        Simulates-each_part cells _ _ filtered_parts (promise a) s k
    Simulates-filtered_level (tuple a) s k =
        Simulates-each_part cells _ _ filtered_parts (tuple a) s k
    Simulates-filtered_level (named a b) s k =
        Simulates-each_part cells _ _ filtered_parts (named a b) s k
    Simulates-filtered_level (literal a) s k =
        Simulates-each_part cells _ _ filtered_parts (literal a) s k
    Simulates-filtered_level (union a) s k =
        Simulates-each_part cells _ _ filtered_parts (union a) s k
    Simulates-filtered_level (maybe a b) s k =
        Simulates-each_part cells _ _ filtered_parts (maybe a b) s k
    Simulates-filtered_level (module_ a b) s k =
        Simulates-each_part cells _ _ filtered_parts (module_ a b) s k
    Simulates-filtered_level (typed_array a) s k =
        Simulates-each_part cells _ _ filtered_parts (typed_array a) s k
    Simulates-filtered_level error s k = Simulates-each_part cells _ _ filtered_parts error s k

  -- One level of a type, given the level below.
  module _
      (v : (id : ℕ)
        → Simulates cells
            (zonk_var (zonk pvars depth) id)
            (expand_var (expand pvars depth) cells id))
      (h : (t : Ty) → Simulates cells (zonk pvars depth t) (expand pvars depth cells t))
      (g : (vars : List TVarName) (t : Ty)
        → Simulates cells
            (zonk_filtered pvars depth vars t)
            (expand_in_scheme pvars depth cells vars t)) where
    parts :
        Agree cells
          (record {
            visit = zonk pvars depth;
            param_presence = apply_presence pvars;
            field_presence = apply_presence pvars;
            open_tail = zonk_tail;
            in_scheme = zonk_filtered pvars depth;
          })
          (record {
            part = expand pvars depth cells;
            presence_of_param = apply_presence pvars;
            presence_of_field = apply_presence pvars;
            row_var = expand_tail cells;
            part_of_scheme = expand_in_scheme pvars depth cells;
          })
    parts = record {
      visit = h;
      param_presence = λ p. refl;
      field_presence = λ p. refl;
      open_tail = Simulates-tail cells forest;
      in_scheme = g;
    }

    Simulates-level :
        (t : Ty) → Simulates cells (zonk pvars (suc depth) t) (expand pvars (suc depth) cells t)
    unfolding zonk expand
    Simulates-level (var (skolem n)) s k = (refl, (k, refl))
    Simulates-level (var (flex id)) s k = v id s k
    Simulates-level number s k = Simulates-each_part cells _ _ parts number s k
    Simulates-level string s k = Simulates-each_part cells _ _ parts string s k
    Simulates-level boolean s k = Simulates-each_part cells _ _ parts boolean s k
    Simulates-level undefined s k = Simulates-each_part cells _ _ parts undefined s k
    Simulates-level null s k = Simulates-each_part cells _ _ parts null s k
    Simulates-level regex s k = Simulates-each_part cells _ _ parts regex s k
    Simulates-level new_target s k = Simulates-each_part cells _ _ parts new_target s k
    Simulates-level arrow_this s k = Simulates-each_part cells _ _ parts arrow_this s k
    Simulates-level (func a b c) s k = Simulates-each_part cells _ _ parts (func a b c) s k
    Simulates-level (row a b) s k = Simulates-each_part cells _ _ parts (row a b) s k
    Simulates-level (array a) s k = Simulates-each_part cells _ _ parts (Ty.array a) s k
    Simulates-level (map a) s k = Simulates-each_part cells _ _ parts (Ty.map a) s k
    Simulates-level (promise a) s k = Simulates-each_part cells _ _ parts (promise a) s k
    Simulates-level (tuple a) s k = Simulates-each_part cells _ _ parts (tuple a) s k
    Simulates-level (named a b) s k = Simulates-each_part cells _ _ parts (named a b) s k
    Simulates-level (literal a) s k = Simulates-each_part cells _ _ parts (literal a) s k
    Simulates-level (union a) s k = Simulates-each_part cells _ _ parts (union a) s k
    Simulates-level (maybe a b) s k = Simulates-each_part cells _ _ parts (maybe a b) s k
    Simulates-level (module_ a b) s k = Simulates-each_part cells _ _ parts (module_ a b) s k
    Simulates-level (typed_array a) s k = Simulates-each_part cells _ _ parts (typed_array a) s k
    Simulates-level error s k = Simulates-each_part cells _ _ parts error s k

module _ (pvars : Subst) where
  Simulates-zonk_filtered :
      (depth : ℕ) (cells : Cells)
      → IsForest cells
      → (quantified : List TVarName) (t : Ty)
      → Simulates cells
          (zonk_filtered pvars depth quantified t)
          (expand_in_scheme pvars depth cells quantified t)
  unfolding zonk_filtered expand_in_scheme
  Simulates-zonk_filtered zero cells forest quantified t = λ s k. (refl, (k, refl))
  Simulates-zonk_filtered (suc depth) cells forest quantified t =
      Simulates-filtered_level pvars depth cells forest quantified
        (Simulates-zonk_filtered depth cells forest) t

  Simulates-zonk :
      (depth : ℕ) (cells : Cells)
      → IsForest cells
      → (t : Ty) → Simulates cells (zonk pvars depth t) (expand pvars depth cells t)
  unfolding zonk expand
  Simulates-zonk zero cells forest t = λ s k. (refl, (k, refl))
  Simulates-zonk (suc depth) cells forest t =
      Simulates-level pvars depth cells forest
        (Simulates-var cells forest (zonk pvars depth) (expand pvars depth) (Simulates-zonk depth))
        (Simulates-zonk depth cells forest) (Simulates-zonk_filtered depth cells forest) t

  -- On a forest `zonk` returns, or panics, as `expand` of the cells says, and so it does with the
  -- overflow. If it returns, the table has the same roots and classes as before, with the same
  -- contents.
  pub zonk-expand :
      (depth : ℕ) (t : Ty) (s : Zonk)
      → IsForest s.table.cells
      → Same s.table.cells (zonk pvars depth t s) (expand pvars depth s.table.cells t s.overflowed)
  zonk-expand depth t s forest =
      Simulates-zonk depth s.table.cells forest t s (Keeps-refl s.table.cells)

  -- The same of `zonk_scheme` and `expand_scheme`: on a forest it returns or panics as that says, and
  -- so with the overflow, and the table that it leaves has the same roots, classes and contents. A
  -- variable is kept as quantified by its own name alone: one that is linked to a quantified root is
  -- read at that root.
  pub zonk_scheme-expand_scheme :
      (depth : ℕ) (scheme : TypeScheme) (s : Zonk)
      → IsForest s.table.cells
      → Same s.table.cells
          (zonk_scheme pvars depth scheme s)
          (expand_scheme pvars depth s.table.cells scheme s.overflowed)
  unfolding zonk_scheme expand_scheme
  zonk_scheme-expand_scheme depth scheme s forest =
      let cells = s.table.cells in
      let vars = scheme.vars in
      let z = zonk_filtered pvars depth vars in
      let y = expand_in_scheme pvars depth cells vars in
      let h = Simulates-zonk_filtered depth cells forest vars in
      let close : Preds → Ty → TypeScheme =
        λ preds ty. record { vars = vars; pvars = scheme.pvars; preds = preds; ty = ty } in
      Simulates-bind cells {A = Preds} {B = TypeScheme} (each_preds z scheme.preds)
        (rebuilt_preds y scheme.preds) (λ preds. z scheme.ty >>= λ ty. pure (close preds ty))
        (λ preds. y scheme.ty >>= λ ty. pure (close preds ty))
        (Simulates-each_preds cells z y h scheme.preds)
        (λ preds. Simulates-map cells (z scheme.ty) (y scheme.ty) (close preds) (h scheme.ty)) s
        (Keeps-refl cells)
