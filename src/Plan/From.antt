-- ===== src/Plan/From.antt =====
-- src/planner/planner.c: the FROM tree of a select, and the semi joins that its subqueries become.
pub mod Flattens
use compute_ql.Shared.{[], none, some, if◌then◌else◌}
use compute_ql.Text.{Text, str8_lit, str8_match, match_exact}
use compute_ql.Ir.{
  NodeType, Node, Nodes, node, nil, cons, has_type, value_of, first, last, ir_node_make,
  ir_node_add_child, ir_node_find_child,
}
use compute_ql.Catalog.{Database, cql_database_find_table_or_catalog}
use compute_ql.Plan.{Plan, PlanType, PlanFields, plan, absent, no_fields}
use compute_ql.Optimizer.Conjuncts.{optimizer_ir_clone}

-- `plan_node_make`, with one input.
abbrev pub plan_node_make : PlanType → Plan → PlanFields → Plan
plan_node_make t input f = plan t input absent f

unfoldable pub plan_alias_from_table_ir : Node → Text
plan_alias_from_table_ir table_ir = elim (ir_node_find_child (some table_ir) NodeType.alias) [
  | none ↦ []
  | some a ↦ value_of a
]

-- The scan node of a table.
unfoldable pub plan_scan : Database → Node → Plan
unfolding plan_alias_from_table_ir
plan_scan db table_ir = plan PlanType.scan absent absent (record no_fields {
  value = value_of table_ir;
  table = cql_database_find_table_or_catalog db (value_of table_ir);
  alias = plan_alias_from_table_ir table_ir;
})

unfoldable pub cross_join : Plan → Plan → Plan
cross_join absent scan = scan
cross_join (plan t l r f) scan =
    plan PlanType.join (plan t l r f) scan (record no_fields { value = str8_lit "cross" })

-- The join with the first child, on the last one. The parser gives a join two children; the code
-- reads through a null pointer where it has none, which is out of the model.
unfoldable pub written_join : Database → Plan → Node → Plan
unfolding plan_scan
written_join db from_plan (node t v nil) = from_plan
written_join db from_plan (node t v (cons table_ir rest)) =
    plan PlanType.join from_plan (plan_scan db table_ir)
      (record no_fields { value = v; condition = last (cons table_ir rest) })

unfoldable pub from_step : Database → Plan → Node → Plan
unfolding cross_join written_join
from_step db from_plan child =
    if has_type child NodeType.table
    then cross_join from_plan (plan_scan db child)
    else if has_type child NodeType.join
    then written_join db from_plan child
    else from_plan

-- The first loop of `plan_build_from_select`.
unfoldable pub build_from : Database → Plan → Nodes → Plan
unfolding from_step
build_from db from_plan nil = from_plan
build_from db from_plan (cons c cs) = build_from db (from_step db from_plan c) cs

-- The join over the children outer key, inner key, table and an optional filter. The code reads
-- through a null pointer where the first three are not there, which is out of the model.
unfoldable pub semi_join_parts : Database → Plan → Text → Nodes → Plan
unfolding plan_scan
semi_join_parts db input v (cons outer_key (cons inner_key (cons table_ir rest))) =
    let scan : Plan = plan_scan db table_ir in
    let right : Plan = elim (first rest) [
      | none ↦ scan
      | some filter_ir ↦
          plan_node_make PlanType.filter scan (record no_fields { condition = some filter_ir })
    ] in
    let equality : Node =
      ir_node_add_child
        (ir_node_add_child (ir_node_make NodeType.operator (str8_lit "="))
          (optimizer_ir_clone outer_key))
        (optimizer_ir_clone inner_key) in
    plan
      (if str8_match v (str8_lit "anti") match_exact
        then PlanType.anti_join
        else PlanType.semi_join)
      input right (record no_fields { value = v; condition = some equality })
semi_join_parts db input v _ = input

unfoldable pub plan_add_semi_join : Database → Plan → Node → Plan
unfolding semi_join_parts
plan_add_semi_join db input (node t v cs) = semi_join_parts db input v cs

-- The second loop of `plan_build_from_select`; with no plan nothing is added.
unfoldable pub add_semi_joins : Database → Plan → Nodes → Plan
unfolding plan_add_semi_join
add_semi_joins db absent cs = absent
add_semi_joins db (plan t l r f) nil = plan t l r f
add_semi_joins db (plan t l r f) (cons c cs) =
    add_semi_joins db
      (if has_type c NodeType.semi_join
        then plan_add_semi_join db (plan t l r f) c
        else plan t l r f)
      cs
