-- ===== src/Optimizer/Bounds.antt =====
-- src/optimizer/optimizer.h and src/optimizer/optimizer.c: the bounds that WHERE sets to a column, and
-- `optimizer_detect_contradiction`.
pub mod Symbols
pub mod Tighten
pub mod Passes
pub mod Entries
pub mod Sound
use compute_ql.Shared.{
  ℕ, suc, Bool, true, false, not, ◌&&◌, ◌||◌, List, [], ◌∷◌, ◌++◌, Option, none, some,
  if◌then◌else◌, ◌==◌, ltb, leb, length, get_elem?, get_or, set,
}
use compute_ql.Text.{Text, str8_lit, str8_match, match_exact, match_any_case}
use compute_ql.Float.{Float, le}
use compute_ql.Ir.{NodeType, Node, node, nil, cons, has_type, value_of}
use compute_ql.Catalog.{ColumnType, cql_table_find_column}
use compute_ql.Optimizer.{Relation, JoinStep, Conjunct}
use compute_ql.Optimizer.Refs.{
  optimizer_resolve_column, optimizer_mask_popcount, qe_bare_column_name, no_relation,
}
use compute_ql.Optimizer.Assign.{step_at, is_dropped}
use compute_ql.Optimizer.Load.{max_conjuncts}
use compute_ql.Optimizer.Fold.{is_op, optimizer_number_from_literal}

-- OPT_ColumnBounds.
pub record ColumnBounds (F64 : Type 0) : Type 0 where
  pub relation : ℕ
  pub column : Text
  pub has_lower : Bool
  pub lower_strict : Bool
  pub lower : F64
  pub has_upper : Bool
  pub upper_strict : Bool
  pub upper : F64
  pub has_equal : Bool
  pub equal : F64
  pub has_equal_string : Bool
  pub equal_string : Text

unfoldable pub optimizer_column_type_is_comparable_number : ColumnType → Bool
optimizer_column_type_is_comparable_number ColumnType.u32 = true
optimizer_column_type_is_comparable_number ColumnType.u64 = true
optimizer_column_type_is_comparable_number ColumnType.i32 = true
optimizer_column_type_is_comparable_number ColumnType.i64 = true
optimizer_column_type_is_comparable_number ColumnType.f64 = true
optimizer_column_type_is_comparable_number ColumnType.bool = true
optimizer_column_type_is_comparable_number _ = false

unfoldable pub is_string8 : ColumnType → Bool
is_string8 ColumnType.string8 = true
is_string8 _ = false

-- The relation, the bare name and the type of a column operand.
pub record ColumnOperand : Type 0 where
  pub relation : ℕ
  pub column : Text
  pub type : ColumnType

unfoldable pub optimizer_column_operand : List Relation → Node → Option ColumnOperand
optimizer_column_operand rs n =
    let index : ℕ = optimizer_resolve_column rs (value_of n) in
    let bare : Text = qe_bare_column_name (value_of n) in
    if not (has_type n NodeType.column) || (index == no_relation)
    then none
    else elim (get_elem? rs index) [
      | none ↦ none
      | some r ↦ elim (cql_table_find_column r.table bare) [
        | none ↦ none
        | some c ↦ some (record { relation = index; column = bare; type = c.type })
      ]
    ]

unfoldable pub optimizer_flip_comparison : Text → Text
optimizer_flip_comparison op =
    if is_op op (str8_lit "<")
    then str8_lit ">"
    else if is_op op (str8_lit ">")
    then str8_lit "<"
    else if is_op op (str8_lit "<=")
    then str8_lit ">="
    else if is_op op (str8_lit ">=")
    then str8_lit "<="
    else op

-- The two operands and the operator, the column first.
pub record Sides : Type 0 where
  pub column_node : Node
  pub literal_node : Node
  pub op : Text

unfoldable pub comparison_sides : Node → Option Sides
unfolding optimizer_flip_comparison
comparison_sides (node t v nil) = none
comparison_sides (node t v (cons left nil)) = none
comparison_sides (node t v (cons left (cons right rest))) =
    if has_type (node t v (cons left (cons right rest))) NodeType.operator
    then (if has_type left NodeType.column
        then some (record { column_node = left; literal_node = right; op = v })
        else some
            (record { column_node = right; literal_node = left; op = optimizer_flip_comparison v }))
    else none

module _ (fl : Float) where
  -- A zeroed entry.
  abbrev pub no_bounds : ColumnBounds fl.F64
  no_bounds = record {
    relation = 0;
    column = [];
    has_lower = false;
    lower_strict = false;
    lower = fl.zero_value;
    has_upper = false;
    upper_strict = false;
    upper = fl.zero_value;
    has_equal = false;
    equal = fl.zero_value;
    has_equal_string = false;
    equal_string = [];
  }

  -- The loop of `optimizer_find_bounds`.
  unfoldable pub bounds_index : List (ColumnBounds fl.F64) → ℕ → Text → Option ℕ
  bounds_index [] relation column = none
  bounds_index (b ∷ bs) relation column =
      let rest : Option ℕ = bounds_index bs relation column in
      if (b.relation == relation) && str8_match b.column column match_any_case
      then some 0
      else elim rest [ none ↦ none | some i ↦ some (suc i) ]

  -- The entries after the call, and the index of the one that is returned.
  unfoldable pub optimizer_find_bounds :
      List (ColumnBounds fl.F64) → ℕ → Text → Option (List (ColumnBounds fl.F64) × ℕ)
  optimizer_find_bounds bs relation column = elim (bounds_index bs relation column) [
    | some i ↦ some (bs, i)
    | none ↦
        if leb max_conjuncts (length bs)
        then none
        else some (bs ++ record no_bounds { relation = relation; column = column } ∷ [], length bs)
  ]

  unfoldable pub optimizer_bounds_are_contradictory : ColumnBounds fl.F64 → Bool
  optimizer_bounds_are_contradictory b =
      (b.has_lower
        && b.has_upper
        && (fl.lt b.upper b.lower || (fl.eq b.lower b.upper && (b.lower_strict || b.upper_strict))))
      || (b.has_equal
          && b.has_lower
          && (fl.lt b.equal b.lower || (fl.eq b.equal b.lower && b.lower_strict)))
      || (b.has_equal
          && b.has_upper
          && (fl.lt b.upper b.equal || (fl.eq b.equal b.upper && b.upper_strict)))

  -- The part of `optimizer_bounds_apply` for a number; `none` is the return of 1.
  unfoldable pub tighten : ColumnBounds fl.F64 → Text → fl.F64 → Option (ColumnBounds fl.F64)
  tighten b op value =
      if is_op op (str8_lit "=") || is_op op (str8_lit "==")
      then (if b.has_equal && not (fl.eq b.equal value)
          then none
          else some (record b { has_equal = true; equal = value }))
      else if is_op op (str8_lit ">")
      then some (
          if not b.has_lower || le fl b.lower value
          then record b { has_lower = true; lower = value; lower_strict = true }
          else b)
      else if is_op op (str8_lit ">=")
      then some (
          if not b.has_lower || fl.lt b.lower value
          then record b { has_lower = true; lower = value; lower_strict = false }
          else b)
      else if is_op op (str8_lit "<")
      then some (
          if not b.has_upper || le fl value b.upper
          then record b { has_upper = true; upper = value; upper_strict = true }
          else b)
      else if is_op op (str8_lit "<=")
      then some (
          if not b.has_upper || fl.lt value b.upper
          then record b { has_upper = true; upper = value; upper_strict = false }
          else b)
      else some b

  -- The part for a column of strings.
  unfoldable pub apply_string : ColumnBounds fl.F64 → Text → Node → ColumnBounds fl.F64 × Bool
  apply_string b op literal =
      if not (has_type literal NodeType.literal)
        || not (is_op op (str8_lit "=") || is_op op (str8_lit "=="))
      then (b, false)
      else if b.has_equal_string && not (str8_match b.equal_string (value_of literal) match_exact)
      then (b, true)
      else (record b { has_equal_string = true; equal_string = value_of literal }, false)

  abbrev pub checked :
      ColumnBounds fl.F64 → Option (ColumnBounds fl.F64) → ColumnBounds fl.F64 × Bool
  checked b none = (b, true)
  checked b (some b') = (b', optimizer_bounds_are_contradictory b')

  unfoldable pub optimizer_bounds_apply :
      ColumnBounds fl.F64 → Text → Node → ColumnType → ColumnBounds fl.F64 × Bool
  unfolding apply_string
  optimizer_bounds_apply b op literal type =
      if is_string8 type
      then apply_string b op literal
      else elim (optimizer_number_from_literal fl (some literal)) [
        | none ↦ (b, false)
        | some value ↦ checked b (tighten b op value)
      ]

  -- The conditions of the two `continue`s behind `optimizer_column_operand`.
  unfoldable pub is_passed_over : List JoinStep → Sides → ColumnOperand → Bool
  is_passed_over steps sides o =
      let string_pair : Bool = is_string8 o.type && has_type sides.literal_node NodeType.literal in
      let number_pair : Bool =
        optimizer_column_type_is_comparable_number o.type
        && has_type sides.literal_node NodeType.numeric in
      (ltb 0 o.relation && (step_at steps o.relation).null_supplying)
      || not (string_pair || number_pair)

  -- The entry of the column, with the comparison applied.
  unfoldable pub apply_comparison :
      List (ColumnBounds fl.F64) → Sides → ColumnOperand → List (ColumnBounds fl.F64) × Bool
  apply_comparison bs sides o = elim (optimizer_find_bounds bs o.relation o.column) [
    | none ↦ (bs, false)
    | some (found, i) ↦
        let (entry, empty) =
          optimizer_bounds_apply (get_or found i no_bounds) sides.op sides.literal_node o.type in
        (set found i entry, empty)
  ]

  -- The body of the loop of `optimizer_detect_contradiction`.
  unfoldable pub detect_conjunct :
      List Relation
      → List JoinStep
      → Conjunct
      → List (ColumnBounds fl.F64)
      → List (ColumnBounds fl.F64) × Bool
  detect_conjunct rs steps c bs =
      if not c.from_where
        || c.unresolved
        || is_dropped c.destination
        || not (optimizer_mask_popcount c.mask == 1)
      then (bs, false)
      else elim (comparison_sides c.node) [
        | none ↦ (bs, false)
        | some sides ↦ elim (optimizer_column_operand rs sides.column_node) [
          | none ↦ (bs, false)
          | some o ↦
              if is_passed_over steps sides o then (bs, false) else apply_comparison bs sides o
        ]
      ]

  unfoldable pub detect_loop :
      List Relation → List JoinStep → List Conjunct → List (ColumnBounds fl.F64) → Bool
  detect_loop rs steps [] bs = false
  detect_loop rs steps (c ∷ cs) bs =
      let (bs', empty) = detect_conjunct rs steps c bs in
      let rest : Bool = detect_loop rs steps cs bs' in if empty then true else rest

  unfoldable pub optimizer_detect_contradiction :
      List Relation → List JoinStep → List Conjunct → Bool
  optimizer_detect_contradiction rs steps cs = detect_loop rs steps cs []
