-- ===== src/Optimizer/Bounds/Sound.antt =====
-- src/optimizer/optimizer.c, `optimizer_detect_contradiction`: its answer against the rows of a WHERE clause.
use compute_ql.Shared.{
  ◌≡◌, ◌≢◌, refl, inl, inr, Bool, true, false, not, ◌&&◌, ◌||◌, arith, if◌then◌else◌, Bool-cases,
  Option-cases, List, [], ◌∷◌, All, get_or, ◌==◌, ltb,
}
use compute_ql.Float.{Float}
use compute_ql.Ir.{NodeType, Node, has_type}
use compute_ql.Optimizer.{Relation, JoinStep, Conjunct}
use compute_ql.Optimizer.Assign.{is_dropped, step_at}
use compute_ql.Optimizer.Refs.{optimizer_mask_popcount}
use compute_ql.Optimizer.Logic.{holds, Row, meaning, all_hold}
use compute_ql.Optimizer.Bounds.{
  ColumnBounds, ColumnOperand, Sides, optimizer_column_operand, comparison_sides, no_bounds,
  optimizer_find_bounds, optimizer_bounds_apply, is_passed_over, apply_comparison, detect_conjunct,
  detect_loop, optimizer_detect_contradiction, optimizer_column_type_is_comparable_number,
  is_string8,
}
use compute_ql.Optimizer.Bounds.Passes.{ReadsColumns, Passes, sides_pass}
use compute_ql.Optimizer.Bounds.Tighten.{apply-key, apply-fits}
use compute_ql.Optimizer.Bounds.Entries.{
  All-get_or, All-set, both_left, both_right, where_live, Entry, IsOf, fresh-Entry, find_bounds_lem,
}

module _ (fl : Float) {V : Type 0} (row : Row V) (rs : List Relation)
    (reads : ReadsColumns fl row rs) where
  -- The entries after a step, and that it has reported nothing.
  Keeps : List (ColumnBounds fl.F64) × Bool → Type 0
  Keeps (bs, empty) = All (Entry fl row rs reads) bs × (empty ≡ false)

  quiet-Keeps :
      (bs : List (ColumnBounds fl.F64)) → All (Entry fl row rs reads) bs → Keeps (bs, false)
  unfolding Keeps
  quiet-Keeps bs h = (h, refl)

  Keeps-parts :
      (p : List (ColumnBounds fl.F64) × Bool)
      → Keeps p
      → All (Entry fl row rs reads) p.0 × (p.1 ≡ false)
  unfolding Keeps
  Keeps-parts (bs, b) h = h

  both_hold :
      (b : Bool) (n : Node) (ns : List Node)
      → all_hold row (if b then n ∷ ns else ns) ≡ holds
      → (b ≡ true → meaning row n ≡ holds) × (all_hold row ns ≡ holds)
  unfolding all_hold
  both_hold true n ns h = (
    (λ e. both_left (meaning row n) (all_hold row ns) h),
    both_right (meaning row n) (all_hold row ns) h,
  )
  both_hold false n ns h = ((λ e. cc), h)

  Keeps-if :
      (b : Bool) (p q : List (ColumnBounds fl.F64) × Bool)
      → Keeps p
      → (b ≡ false → Keeps q)
      → Keeps (if b then p else q)
  Keeps-if true p q h k = h
  Keeps-if false p q h k = k refl

  stored-Entry :
      (b : ColumnBounds fl.F64) (sides : Sides) (o : ColumnOperand)
      → Entry fl row rs reads b
      → IsOf fl row rs reads b o.relation o.column
      → Passes fl row rs reads sides o
      → (is_string8 o.type ≡ false → optimizer_column_type_is_comparable_number o.type ≡ true)
      → let after = optimizer_bounds_apply fl b sides.op sides.literal_node o.type in
        Entry fl row rs reads after.0 × (after.1 ≡ false)
  unfolding Entry Passes
  stored-Entry b sides o h (same_number, same_text) (numbers, texts) is_number =
      let x = reads.number b.relation b.column in
      let s = reads.text b.relation b.column in
      let (relation, column) = apply-key fl b sides.op sides.literal_node o.type in
      let (after, quiet) =
        apply-fits fl b sides.op sides.literal_node o.type x s h
          (λ ty numeric. rw same_number (numbers (is_number ty) numeric))
          (λ ty literal. rw same_text (texts ty literal)) in
      (rw (relation, column) after, quiet)

  comparable : (a b c d e : Bool) → (e || not ((a && b) || (c && d))) ≡ false → a ≡ false → c ≡ true
  comparable a b c d e h n = ground arith

  number_pair :
      (steps : List JoinStep) (sides : Sides) (o : ColumnOperand)
      → is_passed_over fl steps sides o ≡ false
      → is_string8 o.type ≡ false
      → optimizer_column_type_is_comparable_number o.type ≡ true
  unfolding is_passed_over
  number_pair steps sides o h e =
      comparable (is_string8 o.type) (has_type sides.literal_node NodeType.literal)
        (optimizer_column_type_is_comparable_number o.type)
        (has_type sides.literal_node NodeType.numeric)
        (ltb 0 o.relation && (step_at steps o.relation).null_supplying) h e

  apply_comparison-Keeps :
      (steps : List JoinStep) (bs : List (ColumnBounds fl.F64)) (sides : Sides) (o : ColumnOperand)
      → All (Entry fl row rs reads) bs
      → Passes fl row rs reads sides o
      → is_passed_over fl steps sides o ≡ false
      → Keeps (apply_comparison fl bs sides o)
  unfolding apply_comparison Keeps
  apply_comparison-Keeps steps bs sides o h p guard =
      elim (Option-cases (optimizer_find_bounds fl bs o.relation o.column)) [
        | inl e ↦ rw (apply_comparison, e) (h, refl)
        | inr ((found, i), e) ↦
            let (entries, is_of) =
              find_bounds_lem fl row rs reads bs found o.relation o.column i h e in
            let (entry, quiet) =
              stored-Entry (get_or found i (no_bounds fl)) sides o
                (All-get_or (Entry fl row rs reads) found i (no_bounds fl) entries
                  (fresh-Entry fl row rs reads 0 []))
                is_of p (number_pair steps sides o guard) in
            rw (apply_comparison, e)
              (All-set (Entry fl row rs reads) found i _ entries entry, quiet)
      ]

  required : (a b c d : Bool) → (not a || b || c || d) ≡ false → (a && not c) ≡ true
  required a b c d h = ground arith

  detect_conjunct-Keeps :
      (steps : List JoinStep) (c : Conjunct) (bs : List (ColumnBounds fl.F64))
      → All (Entry fl row rs reads) bs
      → ((c.from_where && not (is_dropped c.destination)) ≡ true → meaning row c.node ≡ holds)
      → Keeps (detect_conjunct fl rs steps c bs)
  unfolding detect_conjunct
  detect_conjunct-Keeps steps c bs h truth =
      elim (Bool-cases (
        not c.from_where
        || c.unresolved
        || is_dropped c.destination
        || not (optimizer_mask_popcount c.mask == 1))) [
          | inl e ↦ rw e (quiet-Keeps bs h)
          | inr e ↦ rw e (elim (Option-cases (comparison_sides c.node)) [
            | inl f ↦ rw f (quiet-Keeps bs h)
            | inr (sides, f) ↦
                rw f (elim (Option-cases (optimizer_column_operand rs sides.column_node)) [
                  | inl g ↦ rw g (quiet-Keeps bs h)
                  | inr (o, g) ↦
                      let holding =
                        truth (required c.from_where c.unresolved (is_dropped c.destination) _ e) in
                      rw g (
                        Keeps-if (is_passed_over fl steps sides o) (bs, false)
                          (apply_comparison fl bs sides o) (quiet-Keeps bs h)
                          (apply_comparison-Keeps steps bs sides o h
                            (sides_pass fl row rs reads c.node sides o f g holding)))
                ])
          ])
        ]

  detect_loop-quiet :
      (steps : List JoinStep) (cs : List Conjunct) (bs : List (ColumnBounds fl.F64))
      → All (Entry fl row rs reads) bs
      → all_hold row (where_live cs) ≡ holds
      → detect_loop fl rs steps cs bs ≡ false
  unfolding detect_loop where_live
  detect_loop-quiet steps [] bs h t = refl
  detect_loop-quiet steps (c ∷ cs) bs h t =
      let (first, later) =
        both_hold (c.from_where && not (is_dropped c.destination)) c.node (where_live cs) t in
      let (entries, quiet) =
        Keeps-parts (detect_conjunct fl rs steps c bs) (detect_conjunct-Keeps steps c bs h first) in
      rw quiet (detect_loop-quiet steps cs (detect_conjunct fl rs steps c bs).0 entries later)

  -- When optimizer_detect_contradiction finds one, no row passes the conjuncts of WHERE that are not
  -- dropped, for rows that compare a column with a constant by its number or text, and where no two
  -- columns of a relation differ in case only.
  pub detect_contradiction_sound :
      (steps : List JoinStep) (cs : List Conjunct)
      → optimizer_detect_contradiction fl rs steps cs ≡ true
      → all_hold row (where_live cs) ≢ holds
  unfolding optimizer_detect_contradiction
  detect_contradiction_sound steps cs e t =
      absurd (ground (arith, detect_loop-quiet steps cs [] tt t))
