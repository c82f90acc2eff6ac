-- ===== src/Optimizer/Fold/Sound.antt =====
-- src/optimizer/optimizer.c: constant folding agrees with what a condition means.
use compute_ql.Shared.{
  ◌≡◌, refl, sym, ◌∙◌, subst, ◌⊎◌, inl, inr, Bool, true, false, not, ◌&&◌, ◌||◌, Option, none, some,
  if◌then◌else◌, ◌==◌, arith, Bool-cases, Option-cases,
}
use compute_ql.Text.{Text, str8_lit}
use compute_ql.Text.Match.{str8_match_exact_iff}
use compute_ql.Float.{Float, f64_from_str8}
use compute_ql.Ir.{NodeType, Node, Nodes, node, nil, cons, has_type, value_of, same_type, tag}
use compute_ql.Optimizer.{is_and}
use compute_ql.Optimizer.Logic.{
  Truth, no, unknown, holds, both, of_bool, Row, operand, meaning, first_meaning, second_meaning,
}
use compute_ql.Optimizer.Fold.{
  is_op, optimizer_number_from_literal, optimizer_compare_numbers, compare_strings, fold_operands,
  optimizer_fold_comparison, optimizer_ir_is_constant_false, first_is_constant_false,
  second_is_constant_false,
}
use compute_ql.Optimizer.Fold.Symbols.{
  Symbol, meaning-Symbol, Tests, ComparesConstants, equal, equal_equal, differs, below, at_most,
  above, at_least,
}

both_no : (a b : Truth) → (a ≡ no) ⊎ (b ≡ no) → both a b ≡ no
both_no no b h = refl
both_no unknown no h = refl
both_no unknown unknown (inl e) = cc
both_no unknown unknown (inr e) = cc
both_no unknown holds (inl e) = cc
both_no unknown holds (inr e) = cc
both_no holds b (inl e) = cc
both_no holds b (inr e) = e

or_cases : (a b : Bool) → (a || b) ≡ true → (a ≡ true) ⊎ (b ≡ true)
or_cases true b e = inl refl
or_cases false b e = inr e

folded_false :
    (o : Option Bool) → (elim o [ none ↦ false | some b ↦ not b ]) ≡ true → o ≡ some false
folded_false none e = cc
folded_false (some true) e = cc
folded_false (some false) e = refl

module _ (fl : Float) {V : Type 0} (row : Row V) (laws : ComparesConstants fl row) where
  named :
      (op name : Text) (v w : V) (b c : Bool)
      → Symbol name
      → row.compare name v w ≡ b
      → is_op op name ≡ true
      → b ≡ c
      → Tests row op v w c
  unfolding Tests
  named op name v w b c s e m same =
      let op_is : name ≡ op = sym ((str8_match_exact_iff op name).0 m) in
      subst (λ o. Symbol o × (row.compare o v w ≡ c)) op_is (s, e ∙ same)

  numbers_sound :
      (op : Text) (l r : Node) (b : Bool)
      → has_type l NodeType.numeric ≡ true
      → has_type r NodeType.numeric ≡ true
      → optimizer_compare_numbers fl op
          (f64_from_str8 fl (value_of l))
          (f64_from_str8 fl (value_of r))
        ≡ some b
      → Tests row op (row.constant l) (row.constant r) b
  unfolding optimizer_compare_numbers
  numbers_sound op l r b hl hr e =
      let v : V = row.constant l in
      let w : V = row.constant r in
      let (eq, eqq, ne, lt, le_, gt, ge) = laws.numbers l r hl hr in
      elim (Bool-cases (is_op op (str8_lit "="))) [
        | inl m0 ↦ named op (str8_lit "=") v w _ b equal eq m0 (ground arith)
        | inr n0 ↦ elim (Bool-cases (is_op op (str8_lit "=="))) [
          | inl m1 ↦ named op (str8_lit "==") v w _ b equal_equal eqq m1 (ground arith)
          | inr n1 ↦ elim (Bool-cases (is_op op (str8_lit "!="))) [
            | inl m2 ↦ named op (str8_lit "!=") v w _ b differs ne m2 (ground arith)
            | inr n2 ↦ elim (Bool-cases (is_op op (str8_lit "<"))) [
              | inl m3 ↦ named op (str8_lit "<") v w _ b below lt m3 (ground arith)
              | inr n3 ↦ elim (Bool-cases (is_op op (str8_lit "<="))) [
                | inl m4 ↦ named op (str8_lit "<=") v w _ b at_most le_ m4 (ground arith)
                | inr n4 ↦ elim (Bool-cases (is_op op (str8_lit ">"))) [
                  | inl m5 ↦ named op (str8_lit ">") v w _ b above gt m5 (ground arith)
                  | inr n5 ↦ elim (Bool-cases (is_op op (str8_lit ">="))) [
                    | inl m6 ↦ named op (str8_lit ">=") v w _ b at_least ge m6 (ground arith)
                    | inr n6 ↦ absurd (ground arith)
                  ]
                ]
              ]
            ]
          ]
        ]
      ]

  texts_sound :
      (op : Text) (l r : Node) (b : Bool)
      → has_type l NodeType.literal ≡ true
      → has_type r NodeType.literal ≡ true
      → compare_strings fl op (value_of l) (value_of r) ≡ some b
      → Tests row op (row.constant l) (row.constant r) b
  unfolding compare_strings
  texts_sound op l r b hl hr e =
      let v : V = row.constant l in
      let w : V = row.constant r in
      let (eq, eqq, ne) = laws.texts l r hl hr in
      elim (Bool-cases (is_op op (str8_lit "="))) [
        | inl m0 ↦ named op (str8_lit "=") v w _ b equal eq m0 (ground arith)
        | inr n0 ↦ elim (Bool-cases (is_op op (str8_lit "=="))) [
          | inl m1 ↦ named op (str8_lit "==") v w _ b equal_equal eqq m1 (ground arith)
          | inr n1 ↦ elim (Bool-cases (is_op op (str8_lit "!="))) [
            | inl m2 ↦ named op (str8_lit "!=") v w _ b differs ne m2 (ground arith)
            | inr n2 ↦ absurd (ground arith)
          ]
        ]
      ]

  no_column :
      (n : Node) (t : NodeType)
      → has_type n t ≡ true
      → (tag t == 1) ≡ false
      → operand row (some n) ≡ some (row.constant n)
  unfolding operand same_type
  no_column n t h other = ground arith

  Tests-meaning :
      (t u w : NodeType) (v : Text) (l r : Node) (rest : Nodes) (b : Bool)
      → same_type t NodeType.operator ≡ true
      → has_type l u ≡ true
      → (tag u == 1) ≡ false
      → has_type r w ≡ true
      → (tag w == 1) ≡ false
      → Tests row v (row.constant l) (row.constant r) b
      → meaning row (node t v (cons l (cons r rest))) ≡ of_bool b
  unfolding Tests
  Tests-meaning t u w v l r rest b op hl nl hr nr (symbol, e) =
      meaning-Symbol row t v l r rest symbol op
      ∙ rw (no_column l u hl nl, no_column r w hr nr, e) refl

  number_some :
      (n : Node) (a : fl.F64)
      → optimizer_number_from_literal fl (some n) ≡ some a
      → (has_type n NodeType.numeric ≡ true) × (f64_from_str8 fl (value_of n) ≡ a)
  unfolding optimizer_number_from_literal
  number_some n a e = ground arith

  strings_sound :
      (t : NodeType) (v : Text) (l r : Node) (rest : Nodes) (b : Bool)
      → same_type t NodeType.operator ≡ true
      → (if has_type l NodeType.literal && has_type r NodeType.literal
          then compare_strings fl v (value_of l) (value_of r)
          else none)
        ≡ some b
      → meaning row (node t v (cons l (cons r rest))) ≡ of_bool b
  unfolding tag
  strings_sound t v l r rest b op e =
      elim (Bool-cases (has_type l NodeType.literal && has_type r NodeType.literal)) [
        | inr none_of ↦ absurd (ground arith)
        | inl literals ↦
            let hl : has_type l NodeType.literal ≡ true = ground arith in
            let hr : has_type r NodeType.literal ≡ true = ground arith in
            Tests-meaning t NodeType.literal NodeType.literal v l r rest b op hl refl hr refl
              (texts_sound v l r b hl hr (rw literals at e))
      ]

  operands_sound :
      (t : NodeType) (v : Text) (l r : Node) (rest : Nodes) (b : Bool)
      → same_type t NodeType.operator ≡ true
      → fold_operands fl v l r ≡ some b
      → meaning row (node t v (cons l (cons r rest))) ≡ of_bool b
  unfolding fold_operands tag
  operands_sound t v l r rest b op e =
      elim (Option-cases (optimizer_number_from_literal fl (some l))) [
        | inl n ↦ strings_sound t v l r rest b op (rw (fold_operands, n) at e)
        | inr (x, ex) ↦ elim (Option-cases (optimizer_number_from_literal fl (some r))) [
          | inl n ↦ strings_sound t v l r rest b op (rw (fold_operands, ex, n) at e)
          | inr (y, ey) ↦
              let (hl, vl) = number_some l x ex in
              let (hr, vr) = number_some r y ey in
              Tests-meaning t NodeType.numeric NodeType.numeric v l r rest b op hl refl hr refl
                (numbers_sound v l r b hl hr (rw (vl, vr) (rw (fold_operands, ex, ey) at e)))
        ]
      ]

  -- A comparison of constants that is folded has the truth value that the folding gives, on every
  -- row that compares constants by their values.
  pub fold_comparison_sound :
      (n : Node) (b : Bool) → optimizer_fold_comparison fl n ≡ some b → meaning row n ≡ of_bool b
  unfolding optimizer_fold_comparison
  fold_comparison_sound (node t v nil) b e = cc
  fold_comparison_sound (node t v (cons l nil)) b e = cc
  fold_comparison_sound (node t v (cons l (cons r rest))) b e =
      elim (Bool-cases (same_type t NodeType.operator)) [
        | inl op ↦ operands_sound t v l r rest b op (rw op at e)
        | inr other ↦ absurd (ground arith)
      ]

  mutual
    unfolding optimizer_ir_is_constant_false meaning

    constant_false : (n : Node) → optimizer_ir_is_constant_false fl n ≡ true → meaning row n ≡ no
    constant_false (node t v cs) e = elim (Bool-cases (is_and (node t v cs))) [
      | inl conj ↦ rw conj (
          both_no (first_meaning row cs) (second_meaning row cs)
            (elim (or_cases (first_is_constant_false fl cs) (second_is_constant_false fl cs)
              (rw conj at e)) [ inl l ↦ inl (first_false cs l) | inr r ↦ inr (second_false cs r) ]))
      | inr other ↦
          fold_comparison_sound (node t v cs) false
            (folded_false (optimizer_fold_comparison fl (node t v cs)) (rw other at e))
    ]

    first_false : (cs : Nodes) → first_is_constant_false fl cs ≡ true → first_meaning row cs ≡ no
    first_false nil e = cc
    first_false (cons c cs) e = constant_false c e

    second_false : (cs : Nodes) → second_is_constant_false fl cs ≡ true → second_meaning row cs ≡ no
    second_false nil e = cc
    second_false (cons c nil) e = cc
    second_false (cons c (cons d cs)) e = constant_false d e

  -- A condition that optimizer_ir_is_constant_false accepts is false on every row that compares
  -- constants by their values.
  pub is_constant_false_sound :
      (n : Node) → optimizer_ir_is_constant_false fl n ≡ true → meaning row n ≡ no
  is_constant_false_sound n e = constant_false n e
