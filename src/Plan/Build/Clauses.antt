-- ===== src/Plan/Build/Clauses.antt =====
-- src/planner/planner.c, `plan_build_from_select`: the order of the nodes that the clauses become.
use compute_ql.Shared.{
  Bool, true, false, not, ◌&&◌, ◌||◌, List, [], ◌∷◌, Option, none, some, if◌then◌else◌,
}
use compute_ql.Text.{Text, str8_lit, str8_match, match_exact}
use compute_ql.Ir.{
  NodeType, Node, Nodes, node, nil, cons, has_type, children_of, ir_node_find_child,
}
use compute_ql.Plan.{Plan, PlanType, PlanFields, plan}
use compute_ql.Plan.Build.{needs_aggregate, has_window, chain_of, qe_ir_is_fuzzy_call}
use compute_ql.Optimizer.Refs.{is_found}

-- `top` reaches `base` by `input`, over nodes of the types listed from the top.
pub data Stack : List PlanType → Plan → Plan → Type 0 where
  base_plan : (base : Plan) → Stack [] base base
  over :
      (t : PlanType) (ts : List PlanType) (input input2 base : Plan) (f : PlanFields)
      → Stack ts input base
      → Stack (t ∷ ts) (plan t input input2 f) base

abbrev pub when : Bool → PlanType → List PlanType → List PlanType
when true t ts = t ∷ ts
when false t ts = ts

-- Whether a select has a clause: a child of the type.
unfoldable pub has_clause : NodeType → Nodes → Bool
has_clause kind nil = false
has_clause kind (cons c cs) = has_type c kind || has_clause kind cs

-- The children of the first clause of the type.
unfoldable pub clause_items : NodeType → Nodes → Nodes
clause_items kind nil = nil
clause_items kind (cons c cs) = if has_type c kind then children_of c else clause_items kind cs

-- A call over a window: one with a Window child.
unfoldable pub is_over_window : Node → Bool
is_over_window (node t v cs) =
    has_type (node t v cs) NodeType.aggregate_call && has_clause NodeType.window cs

unfoldable pub some_over_window : Nodes → Bool
some_over_window nil = false
some_over_window (cons c cs) = is_over_window c || some_over_window cs

-- A call that stands for a group of rows, anywhere in the trees: one that is over no window and is
-- none of the fuzzy searches.
unfoldable mutual
  pub groups_rows : Node → Bool
  groups_rows (node t v cs) =
      (has_type (node t v cs) NodeType.aggregate_call
        && not (qe_ir_is_fuzzy_call (node t v cs))
        && not (is_over_window (node t v cs)))
      || some_groups_rows cs

  pub some_groups_rows : Nodes → Bool
  some_groups_rows nil = false
  some_groups_rows (cons c cs) = groups_rows c || some_groups_rows cs

-- The steps of SQL's evaluation behind FROM and WHERE, in their order, each with what makes a select
-- have it.
unfoldable pub evaluation : Nodes → List (Bool × PlanType)
evaluation cs =
    (
      has_clause NodeType.group_by cs
          || some_groups_rows (clause_items NodeType.column_list cs)
          || some_groups_rows (clause_items NodeType.having cs),
      PlanType.aggregate,
    )
    ∷ (some_over_window (clause_items NodeType.column_list cs), PlanType.window)
    ∷ (has_clause NodeType.having cs, PlanType.having)
    ∷ (true, PlanType.project)
    ∷ (has_clause NodeType.order_by cs, PlanType.sort)
    ∷ (has_clause NodeType.limit cs || has_clause NodeType.offset cs, PlanType.limit)
    ∷ []

-- A later step stands over the earlier ones.
abbrev pub over_all : List (Bool × PlanType) → List PlanType → List PlanType
over_all [] ts = ts
over_all ((b, t) ∷ steps) ts = over_all steps (when b t ts)

unfoldable pub clause_types : Nodes → List PlanType → List PlanType
unfolding evaluation
clause_types cs ts = over_all (evaluation cs) ts

-- The same, by the tests of the code.
unfoldable built_types : Node → List PlanType → List PlanType
built_types n ts =
    when
      (is_found (ir_node_find_child (some n) NodeType.limit)
        || is_found (ir_node_find_child (some n) NodeType.offset))
      PlanType.limit
      (when (is_found (ir_node_find_child (some n) NodeType.order_by)) PlanType.sort (
        PlanType.project
        ∷ when (is_found (ir_node_find_child (some n) NodeType.having)) PlanType.having (
            when (has_window (chain_of (ir_node_find_child (some n) NodeType.column_list)))
              PlanType.window (when (needs_aggregate n) PlanType.aggregate ts))))

-- The join that a semi join of at least three children becomes.
unfoldable pub semi_type : Text → Nodes → Option PlanType
semi_type v (cons outer_key (cons inner_key (cons table_ir rest))) =
    some (
      if str8_match v (str8_lit "anti") match_exact then PlanType.anti_join else PlanType.semi_join)
semi_type v _ = none

abbrev pub and_over : Option PlanType → List PlanType → List PlanType
and_over none ts = ts
and_over (some t) ts = t ∷ ts

-- The later one stands over the earlier ones.
unfoldable pub semi_types : Nodes → List PlanType → List PlanType
unfolding semi_type
semi_types nil ts = ts
semi_types (cons (node t v cs) rest) ts =
    semi_types rest
      (if has_type (node t v cs) NodeType.semi_join then and_over (semi_type v cs) ts else ts)

-- A plan with a node.
data IsPlan : Plan → Type 0 where
  is_plan : (t : PlanType) (l r : Plan) (f : PlanFields) → IsPlan (plan t l r f)
