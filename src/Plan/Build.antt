-- ===== src/Plan/Build.antt =====
-- src/planner/planner.c: `plan_build_from_select`, up to the passes that only set costs and orderings.
-- The optimizer's switch and its rewrite of FROM and WHERE are a parameter, for which every
-- statement holds.
pub mod Clauses
use compute_ql.Shared.{Bool, true, false, not, ◌&&◌, ◌||◌, Option, none, some, if◌then◌else◌}
use compute_ql.Text.{str8_lit, str8_match, match_any_case}
use compute_ql.Ir.{
  NodeType, Node, Nodes, node, nil, cons, has_type, value_of, children_of, ir_node_find_child,
}
use compute_ql.Catalog.{Database}
use compute_ql.Plan.{Plan, PlanType, PlanFields, plan, absent, no_fields}
use compute_ql.Plan.From.{plan_node_make, build_from, add_semi_joins}
use compute_ql.Optimizer.Refs.{qe_bare_column_name, is_found}
use compute_ql.Optimizer.Load.{is_plan_type}

-- `qe_ir_is_fuzzy_call(node, 0)`.
unfoldable pub qe_ir_is_fuzzy_call : Node → Bool
qe_ir_is_fuzzy_call n =
    if has_type n NodeType.aggregate_call
    then str8_match (value_of n) (str8_lit "similarity") match_any_case
      || str8_match (value_of n) (str8_lit "edit_distance") match_any_case
      || str8_match (value_of n) (str8_lit "levenshtein") match_any_case
    else false

unfoldable pub plan_ir_is_window_call : Node → Bool
unfolding is_found
plan_ir_is_window_call n =
    has_type n NodeType.aggregate_call && is_found (ir_node_find_child (some n) NodeType.window)

-- A call that aggregates.
unfoldable pub is_aggregate : Node → Bool
unfolding qe_ir_is_fuzzy_call plan_ir_is_window_call
is_aggregate n =
    has_type n NodeType.aggregate_call
    && not (qe_ir_is_fuzzy_call n)
    && not (plan_ir_is_window_call n)

-- Over a chain of nodes.
unfoldable pub plan_ir_contains_aggregate : Nodes → Bool
unfolding is_aggregate
plan_ir_contains_aggregate nil = false
plan_ir_contains_aggregate (cons (node t v cs) rest) =
    let below : Bool = plan_ir_contains_aggregate cs in
    let beside : Bool = plan_ir_contains_aggregate rest in
    if is_aggregate (node t v cs) || below then true else beside

unfoldable mutual
  pub optimizer_ir_strip_column_qualifiers : Node → Node
  optimizer_ir_strip_column_qualifiers (node t v cs) =
      let stripped : Nodes = strip_children cs in
      if has_type (node t v cs) NodeType.subquery || has_type (node t v cs) NodeType.exists
      then node t v cs
      else node t (if has_type (node t v cs) NodeType.column then qe_bare_column_name v else v)
          stripped

  pub strip_children : Nodes → Nodes
  strip_children nil = nil
  strip_children (cons c cs) = cons (optimizer_ir_strip_column_qualifiers c) (strip_children cs)

-- The select after the assignments through `where_ir`, which is its first WHERE child.
unfoldable pub strip_where : Nodes → Nodes
strip_where nil = nil
strip_where (cons c cs) =
    let rest : Nodes = strip_where cs in
    if has_type c NodeType.where_clause
    then cons (optimizer_ir_strip_column_qualifiers c) cs
    else cons c rest

-- `optimizer_enabled()` and `optimizer_rewrite_from_where`, with `none` for its NULL.
pub record Rewriting : Type 0 where
  pub enabled : Bool
  pub rewrite_from_where : Plan → Option Node → Node → Option Plan

abbrev pub chain_of : Option Node → Nodes
chain_of none = nil
chain_of (some n) = children_of n

-- `rewritten_plan`.
unfoldable pub rewritten : Rewriting → Plan → Option Node → Node → Option Plan
rewritten rules absent where_ir select_ir = none
rewritten rules (plan t l r f) where_ir select_ir =
    if rules.enabled then rules.rewrite_from_where (plan t l r f) where_ir select_ir else none

unfoldable pub add_where : Option Plan → Plan → Option Node → Plan
add_where (some rewritten_plan) from_plan where_ir = rewritten_plan
add_where none from_plan none = from_plan
add_where none from_plan (some w) =
    plan_node_make PlanType.filter from_plan (record no_fields { condition = some w })

-- FROM and WHERE, of a select whose WHERE is stripped where FROM is one scan.
unfoldable pub build_from_where : Rewriting → Database → Node → Plan
unfolding rewritten add_where
build_from_where rules db (node t v cs) =
    let from_plan : Plan = build_from db absent cs in
    let cs' : Nodes = if is_plan_type from_plan PlanType.scan then strip_where cs else cs in
    let where_ir : Option Node = ir_node_find_child (some (node t v cs')) NodeType.where_clause in
    add_where (rewritten rules from_plan where_ir (node t v cs')) from_plan where_ir

unfoldable pub needs_aggregate : Node → Bool
unfolding is_found
needs_aggregate select_ir =
    is_found (ir_node_find_child (some select_ir) NodeType.group_by)
    || plan_ir_contains_aggregate
        (chain_of (ir_node_find_child (some select_ir) NodeType.column_list))
    || plan_ir_contains_aggregate (chain_of (ir_node_find_child (some select_ir) NodeType.having))

unfoldable pub has_window : Nodes → Bool
unfolding plan_ir_is_window_call
has_window nil = false
has_window (cons c cs) = plan_ir_is_window_call c || has_window cs

-- A node over `input`, where the test holds.
abbrev pub over_if : Bool → PlanType → PlanFields → Plan → Plan
over_if true t f input = plan_node_make t input f
over_if false t f input = input

-- The nodes over FROM, WHERE and the semi joins.
unfoldable pub add_clauses : Node → Plan → Plan
unfolding needs_aggregate has_window
add_clauses select_ir input =
    let column_list : Option Node = ir_node_find_child (some select_ir) NodeType.column_list in
    let group_by : Option Node = ir_node_find_child (some select_ir) NodeType.group_by in
    let having : Option Node = ir_node_find_child (some select_ir) NodeType.having in
    let order_by : Option Node = ir_node_find_child (some select_ir) NodeType.order_by in
    let limit : Option Node = ir_node_find_child (some select_ir) NodeType.limit in
    let offset : Option Node = ir_node_find_child (some select_ir) NodeType.offset in
    let aggregated : Plan =
      over_if (needs_aggregate select_ir) PlanType.aggregate
        (record no_fields { group_by = group_by; column_list = column_list }) input in
    let windowed : Plan =
      over_if (has_window (chain_of column_list)) PlanType.window
        (record no_fields { column_list = column_list; order_by = order_by }) aggregated in
    let kept : Plan =
      over_if (is_found having) PlanType.having (record no_fields { condition = having })
        windowed in
    let projected : Plan =
      plan_node_make PlanType.project kept (record no_fields { column_list = column_list }) in
    let sorted : Plan =
      over_if (is_found order_by) PlanType.sort (record no_fields { order_by = order_by })
        projected in
    over_if (is_found limit || is_found offset) PlanType.limit
      (record no_fields { limit_node = limit; offset_node = offset }) sorted

unfoldable pub plan_build_from_select : Rewriting → Database → Option Node → Plan
unfolding add_clauses
plan_build_from_select rules db none = absent
plan_build_from_select rules db (some (node t v cs)) =
    add_clauses (node t v cs) (add_semi_joins db (build_from_where rules db (node t v cs)) cs)
