-- ===== src/Optimizer/Bounds/Passes.antt =====
-- src/optimizer/optimizer.c, `optimizer_detect_contradiction`: what a comparison that holds says of
-- the column in it.
use compute_ql.Shared.{
  ℕ, ◌≡◌, ◌≢◌, refl, sym, ◌∙◌, subst, inl, inr, Bool, true, false, Option, none, some, arith,
  Bool-cases, List,
}
use compute_ql.Text.{Text, str8_match, match_any_case}
use compute_ql.Float.{Float, f64_from_str8}
use compute_ql.Ir.{NodeType, Node, Nodes, node, nil, cons, has_type, value_of, same_type}
use compute_ql.Optimizer.{Relation}
use compute_ql.Optimizer.Logic.{holds, Row, operand, meaning, test_pair, of_bool}
use compute_ql.Optimizer.Fold.{optimizer_compare_numbers, compare_strings}
use compute_ql.Optimizer.Fold.Symbols.{Symbol, meaning-Symbol}
use compute_ql.Optimizer.Bounds.{
  ColumnOperand, Sides, optimizer_column_operand, comparison_sides, optimizer_flip_comparison,
  optimizer_column_type_is_comparable_number, is_string8,
}
use compute_ql.Optimizer.Bounds.Symbols.{
  IsOther, Symbol-cases, compare_numbers-other, compare_numbers-flip, compare_strings-other,
  compare_strings-flip,
}

-- What is asked of a row: a column that resolves has a number or a text, by which it is compared with
-- a constant, and columns of one relation are not told apart by case.
pub record ReadsColumns (fl : Float) {V : Type 0} (row : Row V) (rs : List Relation) : Type 0 where
  pub number : ℕ → Text → fl.F64
  pub text : ℕ → Text → Text
  pub number_alike :
      (r : ℕ) (c d : Text) → str8_match c d match_any_case ≡ true → number r c ≡ number r d
  pub text_alike : (r : ℕ) (c d : Text) → str8_match c d match_any_case ≡ true → text r c ≡ text r d
  pub numbers :
      (n l : Node) (o : ColumnOperand) (op : Text) (v : V)
      → optimizer_column_operand rs n ≡ some o
      → row.column (value_of n) ≡ some v
      → optimizer_column_type_is_comparable_number o.type ≡ true
      → has_type l NodeType.numeric ≡ true
      → (row.compare op v (row.constant l) ≡ true
          → optimizer_compare_numbers fl op
              (number o.relation o.column)
              (f64_from_str8 fl (value_of l))
            ≢ some false)
        × (row.compare op (row.constant l) v ≡ true
            → optimizer_compare_numbers fl op
                (f64_from_str8 fl (value_of l))
                (number o.relation o.column)
              ≢ some false)
  pub texts :
      (n l : Node) (o : ColumnOperand) (op : Text) (v : V)
      → optimizer_column_operand rs n ≡ some o
      → row.column (value_of n) ≡ some v
      → is_string8 o.type ≡ true
      → has_type l NodeType.literal ≡ true
      → (row.compare op v (row.constant l) ≡ true
          → compare_strings fl op (text o.relation o.column) (value_of l) ≢ some false)
        × (row.compare op (row.constant l) v ≡ true
            → compare_strings fl op (value_of l) (text o.relation o.column) ≢ some false)

some_not_none {ℓ} : {A : Type ℓ} (o : Option A) (b : A) → o ≡ none → o ≢ some b
some_not_none o b e f = cc

pair_holds :
    {V : Type 0} (row : Row V) (v w : Option V) (p : V → V → Bool)
    → test_pair row v w p ≡ holds
    → (x : V) × (y : V) × (v ≡ some x) × (w ≡ some y) × (p x y ≡ true)
pair_holds row none w p h = cc
pair_holds row (some x) none p h = cc
pair_holds row (some x) (some y) p h = (x, y, refl, refl, of_bool_holds (p x y) h)
  where
    of_bool_holds : (b : Bool) → of_bool b ≡ holds → b ≡ true
    of_bool_holds true h = refl
    of_bool_holds false h = cc

is_column :
    (rs : List Relation) (n : Node) (o : ColumnOperand)
    → optimizer_column_operand rs n ≡ some o
    → has_type n NodeType.column ≡ true
unfolding optimizer_column_operand
is_column rs n o e = ground arith

module _ (fl : Float) {V : Type 0} (row : Row V) (rs : List Relation)
    (reads : ReadsColumns fl row rs) where
  -- The comparison holds of the column's value.
  unfoldable pub Passes : Sides → ColumnOperand → Type 0
  Passes sides o =
      (optimizer_column_type_is_comparable_number o.type ≡ true
        → has_type sides.literal_node NodeType.numeric ≡ true
        → optimizer_compare_numbers fl sides.op (reads.number o.relation o.column)
            (f64_from_str8 fl (value_of sides.literal_node))
          ≢ some false)
      × (is_string8 o.type ≡ true
          → has_type sides.literal_node NodeType.literal ≡ true
          → compare_strings fl sides.op (reads.text o.relation o.column)
              (value_of sides.literal_node)
            ≢ some false)

  constant_is :
      (n : Node) (y : V)
      → operand row (some n) ≡ some y
      → operand row (some n) ≡ some (row.constant n)
      → row.constant n ≡ y
  constant_is n y p q = cc

  constant_operand :
      (n : Node) (t : NodeType)
      → has_type n t ≡ true
      → same_type t NodeType.column ≡ false
      → operand row (some n) ≡ some (row.constant n)
  unfolding operand same_type
  constant_operand n t h other = ground arith

  column_operand :
      (n : Node)
      → has_type n NodeType.column ≡ true
      → operand row (some n) ≡ row.column (value_of n)
  unfolding operand
  column_operand n h = rw h refl

  first-Passes :
      (t : NodeType) (v : Text) (l r : Node) (rest : Nodes) (o : ColumnOperand)
      → same_type t NodeType.operator ≡ true
      → optimizer_column_operand rs l ≡ some o
      → meaning row (node t v (cons l (cons r rest))) ≡ holds
      → Symbol v
      → Passes (record { column_node = l; literal_node = r; op = v }) o
  unfolding Passes same_type
  first-Passes t v l r rest o op e h s =
      let pair = sym (meaning-Symbol row t v l r rest s op) ∙ h in
      let (x, y, ex, ey, c) =
        pair_holds row (operand row (some l)) (operand row (some r)) (row.compare v) pair in
      let ex' = sym (column_operand l (is_column rs l o e)) ∙ ex in
      (
        (λ ty numeric.
            (reads.numbers l r o v x e ex' ty numeric).0
              (rw (constant_is r y ey (constant_operand r NodeType.numeric numeric refl)) c)),
        (λ ty literal.
            (reads.texts l r o v x e ex' ty literal).0
              (rw (constant_is r y ey (constant_operand r NodeType.literal literal refl)) c)),
      )

  second-Passes :
      (t : NodeType) (v : Text) (l r : Node) (rest : Nodes) (o : ColumnOperand)
      → same_type t NodeType.operator ≡ true
      → optimizer_column_operand rs r ≡ some o
      → meaning row (node t v (cons l (cons r rest))) ≡ holds
      → Symbol v
      → Passes (record { column_node = r; literal_node = l; op = optimizer_flip_comparison v }) o
  unfolding Passes same_type
  second-Passes t v l r rest o op e h s =
      let pair = sym (meaning-Symbol row t v l r rest s op) ∙ h in
      let (x, y, ex, ey, c) =
        pair_holds row (operand row (some l)) (operand row (some r)) (row.compare v) pair in
      let ey' = sym (column_operand r (is_column rs r o e)) ∙ ey in
      (
        (λ ty numeric.
            rw
              (compare_numbers-flip fl v (reads.number o.relation o.column)
                (f64_from_str8 fl (value_of l)))
              ((reads.numbers r l o v y e ey' ty numeric).1
                (rw (constant_is l x ex (constant_operand l NodeType.numeric numeric refl)) c))),
        (λ ty literal.
            rw (compare_strings-flip fl v (reads.text o.relation o.column) (value_of l)) (
              (reads.texts r l o v y e ey' ty literal).1
                (rw (constant_is l x ex (constant_operand l NodeType.literal literal refl)) c))),
      )

  other-Passes :
      (v : Text) (c l : Node) (o : ColumnOperand)
      → IsOther v
      → Passes (record { column_node = c; literal_node = l; op = v }) o
        × Passes (record { column_node = c; literal_node = l; op = optimizer_flip_comparison v }) o
  unfolding Passes
  other-Passes v c l o other =
      let x = reads.number o.relation o.column in
      let y = f64_from_str8 fl (value_of l) in
      let s = reads.text o.relation o.column in
      (
        (
          (λ ty h.
              some_not_none (optimizer_compare_numbers fl v x y) false
                (compare_numbers-other fl v x y other)),
          (λ ty h.
              some_not_none (compare_strings fl v s (value_of l)) false
                (compare_strings-other fl v s (value_of l) other)),
        ),
        (
          (λ ty h. rw (compare_numbers-flip fl v x y) (
              some_not_none (optimizer_compare_numbers fl v y x) false
                (compare_numbers-other fl v y x other))),
          (λ ty h. rw (compare_strings-flip fl v s (value_of l)) (
              some_not_none (compare_strings fl v (value_of l) s) false
                (compare_strings-other fl v (value_of l) s other))),
        ),
      )

  made-Passes :
      (made sides : Sides) (o : ColumnOperand)
      → some made ≡ some sides
      → (optimizer_column_operand rs made.column_node ≡ some o → Passes made o)
      → optimizer_column_operand rs sides.column_node ≡ some o
      → Passes sides o
  made-Passes made sides o e f =
      subst (λ s. optimizer_column_operand rs s.column_node ≡ some o → Passes s o) (some_same e) f
    where
      some_same : some made ≡ some sides → made ≡ sides
      some_same e = cc

  -- A condition that holds passes on both of its sides.
  pub sides_pass :
      (n : Node) (sides : Sides) (o : ColumnOperand)
      → comparison_sides n ≡ some sides
      → optimizer_column_operand rs sides.column_node ≡ some o
      → meaning row n ≡ holds
      → Passes sides o
  unfolding comparison_sides
  sides_pass (node t v nil) sides o e c h = cc
  sides_pass (node t v (cons l nil)) sides o e c h = cc
  sides_pass (node t v (cons l (cons r rest))) sides o e c h =
      elim (Bool-cases (same_type t NodeType.operator)) [
        | inr other ↦ absurd (ground arith)
        | inl op ↦ elim (Bool-cases (has_type l NodeType.column)) [
          | inl column ↦
              made-Passes _ sides o (rw (op, column) at e)
                (λ at_l. elim (Symbol-cases v) [
                  | inl y ↦ first-Passes t v l r rest o op at_l h y
                  | inr other ↦ (other-Passes v l r o other).0
                ])
                c
          | inr no_column ↦
              made-Passes _ sides o (rw (op, no_column) at e)
                (λ at_r. elim (Symbol-cases v) [
                  | inl y ↦ second-Passes t v l r rest o op at_r h y
                  | inr other ↦ (other-Passes v r l o other).1
                ])
                c
        ]
      ]
