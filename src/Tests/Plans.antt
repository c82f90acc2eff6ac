-- ===== src/Tests/Plans.antt =====
-- The plan of a select, and LIMIT and OFFSET on a result.
use compute_ql.Shared.{ℕ, ◌≡◌, refl, true, false, [], ◌∷◌, Option, none, some, length, arith}
use compute_ql.Text.{str8_lit}
use compute_ql.Ir.{Node, NodeType, Nodes, node, nil, cons, same_type, tag}
use compute_ql.Plan.{Plan, PlanType, plan, absent}
use compute_ql.Catalog.{ColumnType}
use compute_ql.Plan.From.{build_from}
use compute_ql.Plan.From.Flattens.{FromItems, table_item, join_item, done, flatten_from-build_from}
use compute_ql.Plan.Build.{Rewriting}
use compute_ql.Plan.Build.Clauses.{
  clause_types, evaluation, has_clause, clause_items, some_over_window, is_over_window, groups_rows,
  semi_types,
}
use compute_ql.Plan.Rows.{
  RowSet, ExecResult, plan_apply_limit, plan_result_row_count, plan_reverse_rowset, clause_number,
  max_u64,
}
use compute_ql.Plan.Rows.Page.{view, view_page, visible_rows, apply_limit_page, CountsFit}
use compute_ql.Plan.Rows.Readable.{Readable, apply_limit-Readable}
use compute_ql.Optimizer.Load.{Flat, optimizer_flatten_from}
use compute_ql.Tests.Data.{orders, items, shop, sku_is_five}

abbrev orders_ir : Node
orders_ir = node NodeType.table (str8_lit "orders") nil

abbrev items_ir : Node
items_ir = node NodeType.table (str8_lit "items") nil

-- FROM orders LEFT JOIN items ON sku = 5
abbrev from_children : Nodes
from_children =
    cons orders_ir
      (cons (node NodeType.join (str8_lit "left") (cons items_ir (cons sku_is_five nil))) nil)

two_items : FromItems shop false from_children 2
unfolding same_type compute_ql.Catalog.cql_database_find_table_or_catalog
    compute_ql.Catalog.find_table_in compute_ql.Text.str8_match compute_ql.Text.match_loop
    compute_ql.Text.adjust_char
two_items =
    table_item false orders_ir _ 1 orders refl refl
      (join_item (str8_lit "left") items_ir (cons sku_is_five nil) nil 0 items refl done)

flatten_from-build_from_example :
    (t : Flat) × (optimizer_flatten_from
        (build_from shop absent from_children)
        (record { relations = []; steps = [] })
      ≡ some t)
    × (length t.relations ≡ 2)
flatten_from-build_from_example =
    flatten_from-build_from shop from_children 2 two_items (omega arith)

-- Nothing is rewritten.
abbrev plain_rules : Rewriting
plain_rules = record { enabled = false; rewrite_from_where = λ p w s. none }

-- SELECT … FROM orders ORDER BY … LIMIT 2
abbrev select_children : Nodes
select_children =
    cons orders_ir
      (cons (node NodeType.order_by [] nil) (cons (node NodeType.limit (str8_lit "2") nil) nil))

-- The select is sorted last, then limited.
sorted_then_limited :
    clause_types select_children (semi_types select_children [])
    ≡ PlanType.limit ∷ PlanType.sort ∷ PlanType.project ∷ []
unfolding clause_types evaluation has_clause clause_items some_over_window is_over_window
    groups_rows same_type semi_types
sorted_then_limited = refl

abbrev four_rows : RowSet ℕ
four_rows = record {
  tables = some orders ∷ [];
  aliases = [] ∷ [];
  row_indices = (10 ∷ 11 ∷ 12 ∷ 13 ∷ []) ∷ [];
  count = 4;
  scores = some (7 ∷ 8 ∷ 9 ∷ 10 ∷ []);
  score_is_distance = false;
  score_column_name = [];
  score_needle = [];
}

abbrev result : ExecResult ℕ
result = record {
  supported = true;
  is_materialized = false;
  rows = four_rows;
  materialized = record {
    columns =
        record {
          name = [];
          type = ColumnType.u64;
          decimal_scale = 0;
          numeric_values = some (1 ∷ []);
          string_values = none;
          is_null = none;
        }
        ∷ [];
    count = 1;
  };
}

abbrev one : Option Node
one = some (node NodeType.offset (str8_lit "1") nil)

abbrev two : Option Node
two = some (node NodeType.limit (str8_lit "2") nil)

-- LIMIT 2 OFFSET 1
middle_rows : visible_rows (plan_apply_limit result one two).rows ≡ (11 ∷ 12 ∷ []) ∷ []
unfolding plan_apply_limit visible_rows compute_ql.Plan.Rows.limit_rows
    compute_ql.Text.u64_from_str8 compute_ql.Plan.Rows.u64_sub
middle_rows = refl

result_fits : CountsFit result
result_fits = (omega arith, omega arith)

apply_limit_page_example :
    view (plan_apply_limit result one two)
    ≡ view_page (clause_number one 0) (clause_number two max_u64) (view result)
apply_limit_page_example = apply_limit_page result one two result_fits

apply_limit-Readable_example : Readable (plan_apply_limit result one two)
apply_limit-Readable_example =
    apply_limit-Readable result one two result_fits
      (((omega arith, tt), omega arith), ((omega arith, tt, tt), tt))
