-- ===== src/Optimizer/RejectsNull.antt =====
-- src/optimizer/optimizer.c: `optimizer_rejects_null`, which turns a LEFT JOIN into an inner one.
pub mod Sound
use compute_ql.Shared.{
  ℕ, Bool, true, false, ◌&&◌, ◌||◌, List, Option, none, some, if◌then◌else◌, ◌==◌,
}
use compute_ql.Text.{str8_lit}
use compute_ql.Ir.{NodeType, Node, Nodes, node, nil, cons, first, second, has_type, value_of}
use compute_ql.Optimizer.{Relation, is_operator, is_and, is_or}
use compute_ql.Optimizer.Refs.{optimizer_resolve_column}
use compute_ql.Optimizer.Logic.{is_comparison}

-- `operand && operand->type == IR_NodeType_Column && optimizer_resolve_column(...) == relation`.
unfoldable pub is_column_of : List Relation → ℕ → Option Node → Bool
is_column_of rs relation none = false
is_column_of rs relation (some n) =
    if has_type n NodeType.column
    then optimizer_resolve_column rs (value_of n) == relation
    else false

-- The part for an operator that is neither AND nor OR.
unfoldable pub leaf_rejects_null : List Relation → ℕ → Node → Option Node → Option Node → Bool
leaf_rejects_null rs relation n left right =
    if is_operator n (str8_lit "is null")
    then false
    else if is_operator n (str8_lit "is not null")
        || is_operator n (str8_lit "in")
        || is_operator n (str8_lit "not in")
    then is_column_of rs relation left
    else if is_comparison n
    then is_column_of rs relation left || is_column_of rs relation right
    else false

unfoldable mutual
  pub optimizer_rejects_null : List Relation → ℕ → Node → Bool
  optimizer_rejects_null rs relation (node t v cs) =
      let left : Bool = first_rejects_null rs relation cs in
      let right : Bool = second_rejects_null rs relation cs in
      if has_type (node t v cs) NodeType.operator
      then (if is_and (node t v cs)
          then left || right
          else if is_or (node t v cs)
          then left && right
          else leaf_rejects_null rs relation (node t v cs) (first cs) (second cs))
      else false

  -- An operand that is missing rejects nothing.
  pub first_rejects_null : List Relation → ℕ → Nodes → Bool
  first_rejects_null rs relation nil = false
  first_rejects_null rs relation (cons c cs) = optimizer_rejects_null rs relation c

  pub second_rejects_null : List Relation → ℕ → Nodes → Bool
  second_rejects_null rs relation nil = false
  second_rejects_null rs relation (cons c nil) = false
  second_rejects_null rs relation (cons c (cons d cs)) = optimizer_rejects_null rs relation d
