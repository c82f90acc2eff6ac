-- ===== src/Optimizer/Fold.antt =====
-- src/optimizer/optimizer.c: constant folding, `optimizer_number_from_literal` to
-- `optimizer_fold_constants`.

pub mod Symbols
pub mod Sound
pub mod Whole
use compute_ql.Shared.{
  Bool, true, false, not, ◌&&◌, ◌||◌, List, [], ◌∷◌, Option, none, some, if◌then◌else◌,
}
use compute_ql.Text.{Text, str8_lit, str8_match, match_exact}
use compute_ql.Float.{Float, f64_from_str8, le}
use compute_ql.Ir.{
  NodeType, Node, Nodes, node, nil, cons, has_type, value_of, ir_node_make, ir_node_add_child,
}
use compute_ql.Optimizer.{JoinStep, Conjunct, Destination, is_and}
use compute_ql.Optimizer.Assign.{step_at}

-- `str8_match(op, name, 0)`.
abbrev pub is_op : Text → Text → Bool
is_op op name = str8_match op name match_exact

-- `!conjunct->from_where && steps[conjunct->step].null_supplying`.
unfoldable pub on_left_join : List JoinStep → Conjunct → Bool
on_left_join steps c = not c.from_where && (step_at steps c.step).null_supplying

module _ (fl : Float) where
  unfoldable pub optimizer_number_from_literal : Option Node → Option fl.F64
  optimizer_number_from_literal none = none
  optimizer_number_from_literal (some n) =
      if has_type n NodeType.numeric then some (f64_from_str8 fl (value_of n)) else none

  unfoldable pub optimizer_compare_numbers : Text → fl.F64 → fl.F64 → Option Bool
  optimizer_compare_numbers op left right =
      if is_op op (str8_lit "=") || is_op op (str8_lit "==")
      then some (fl.eq left right)
      else if is_op op (str8_lit "!=")
      then some (not (fl.eq left right))
      else if is_op op (str8_lit "<")
      then some (fl.lt left right)
      else if is_op op (str8_lit "<=")
      then some (le fl left right)
      else if is_op op (str8_lit ">")
      then some (fl.lt right left)
      else if is_op op (str8_lit ">=")
      then some (le fl right left)
      else none

  -- The part for two string literals.
  unfoldable pub compare_strings : Text → Text → Text → Option Bool
  compare_strings op left right =
      if is_op op (str8_lit "=") || is_op op (str8_lit "==")
      then some (str8_match left right match_exact)
      else if is_op op (str8_lit "!=")
      then some (not (str8_match left right match_exact))
      else none

  unfoldable pub fold_operands : Text → Node → Node → Option Bool
  unfolding compare_strings
  fold_operands op left right =
      let strings : Option Bool =
        if has_type left NodeType.literal && has_type right NodeType.literal
        then compare_strings op (value_of left) (value_of right)
        else none in
      elim (optimizer_number_from_literal (some left)) [
        | none ↦ strings
        | some a ↦ elim (optimizer_number_from_literal (some right)) [
          | none ↦ strings
          | some b ↦ optimizer_compare_numbers op a b
        ]
      ]

  -- The result, where the comparison is one of constants.
  unfoldable pub optimizer_fold_comparison : Node → Option Bool
  optimizer_fold_comparison (node t v nil) = none
  optimizer_fold_comparison (node t v (cons left nil)) = none
  optimizer_fold_comparison (node t v (cons left (cons right rest))) =
      if has_type (node t v (cons left (cons right rest))) NodeType.operator
      then fold_operands v left right
      else none

  unfoldable mutual
    pub optimizer_ir_is_constant_false : Node → Bool
    optimizer_ir_is_constant_false (node t v cs) =
        let left : Bool = first_is_constant_false cs in
        let right : Bool = second_is_constant_false cs in
        if is_and (node t v cs)
        then left || right
        else elim (optimizer_fold_comparison (node t v cs)) [ none ↦ false | some b ↦ not b ]

    pub first_is_constant_false : Nodes → Bool
    first_is_constant_false nil = false
    first_is_constant_false (cons c cs) = optimizer_ir_is_constant_false c

    pub second_is_constant_false : Nodes → Bool
    second_is_constant_false nil = false
    second_is_constant_false (cons c nil) = false
    second_is_constant_false (cons c (cons d cs)) = optimizer_ir_is_constant_false d

  -- The body of the loop of `optimizer_fold_constants`: the conjunct, and `always_empty`.
  unfoldable pub fold_conjunct : List JoinStep → Conjunct → Bool → Conjunct × Bool
  fold_conjunct steps c empty = elim (optimizer_fold_comparison c.node) [
    | none ↦ (c, empty)
    | some true ↦ (record c { destination = Destination.dropped }, empty)
    | some false ↦ (c, if on_left_join steps c then empty else true)
  ]

  unfoldable pub optimizer_fold_constants :
      List JoinStep → List Conjunct → Bool → List Conjunct × Bool
  optimizer_fold_constants steps [] empty = ([], empty)
  optimizer_fold_constants steps (c ∷ cs) empty =
      let (c', empty') = fold_conjunct steps c empty in
      let (cs', empty'') = optimizer_fold_constants steps cs empty' in (c' ∷ cs', empty'')

unfoldable pub optimizer_make_constant_false : Node
optimizer_make_constant_false =
    ir_node_add_child
      (ir_node_add_child (ir_node_make NodeType.operator (str8_lit "="))
        (ir_node_make NodeType.numeric (str8_lit "0")))
      (ir_node_make NodeType.numeric (str8_lit "1"))
