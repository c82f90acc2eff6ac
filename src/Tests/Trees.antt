-- ===== src/Tests/Trees.antt =====
-- The lowering of a syntax tree, and the comparison of texts.
use compute_ql.Shared.{◌≡◌, refl, ◌↔◌, ◌||◌, true, false, [], ◌∷◌, map, length}
use compute_ql.Text.{Text, str8_lit, str8_match, match_any_case, match_exact}
use compute_ql.Text.Match.{adjusted, str8_match_iff}
use compute_ql.Sql.Tree.{SqlNodeType, SqlNode, SqlNodes, sql}
use compute_ql.Ir.{NodeType, Node, node, nil, cons}
use compute_ql.Ir.Columns.{
  ir_create_active_column_list, ir_expand_star_to_columns, is_listed, uses, distinct,
  active_column_list-exact,
}
use compute_ql.Tests.Data.{both_tests, shop}
use compute_ql.Ir.Lower.{ir_generate_recursive, ir_generate_from_ast}
use compute_ql.Ir.Lower.Faithful.{image, from_ast_image}
use compute_ql.Ir.Lower.RoundTrip.{
  raise, is_plain, mentions, raise-ir_generate_recursive, ir_generate_recursive-no_semi_join,
}

-- SELECT … FROM t
abbrev select_tree : SqlNode
select_tree = sql SqlNodeType.select [] (
    SqlNodes.cons (sql SqlNodeType.column_list [] SqlNodes.nil)
      (SqlNodes.cons (sql SqlNodeType.table (str8_lit "t") SqlNodes.nil) SqlNodes.nil))

from_ast_image_example :
    ir_generate_from_ast (select_tree ∷ [])
    ≡ record { execution_nodes = map image (select_tree ∷ []); count = length (select_tree ∷ []) }
from_ast_image_example = from_ast_image (select_tree ∷ [])

plain : is_plain select_tree ≡ true
unfolding is_plain compute_ql.Ir.Lower.RoundTrip.is_plain_type
plain = refl

raise-ir_generate_recursive_example : raise (ir_generate_recursive select_tree) ≡ select_tree
raise-ir_generate_recursive_example = raise-ir_generate_recursive select_tree plain

ir_generate_recursive-no_semi_join_example :
    mentions NodeType.semi_join (ir_generate_recursive select_tree) ≡ false
ir_generate_recursive-no_semi_join_example = ir_generate_recursive-no_semi_join select_tree

str8_match_iff_example :
    (str8_match (str8_lit "And") (str8_lit "AND") match_any_case ≡ true)
    ↔ (adjusted match_any_case (str8_lit "And") ≡ adjusted match_any_case (str8_lit "AND"))
str8_match_iff_example = str8_match_iff (str8_lit "And") (str8_lit "AND") match_any_case refl

none_twice : distinct [] ≡ true
unfolding distinct
none_twice = refl

active_column_list-exact_example :
    (distinct (ir_create_active_column_list both_tests []) ≡ true)
    × ((name : Text)
        → is_listed (ir_create_active_column_list both_tests []) name
          ≡ (is_listed [] name || uses both_tests name))
active_column_list-exact_example = active_column_list-exact both_tests [] none_twice

active_columns_run :
    ir_create_active_column_list both_tests [] ≡ str8_lit "id" ∷ (str8_lit "sku" ∷ [])
unfolding ir_create_active_column_list compute_ql.Ir.same_type compute_ql.Ir.Columns.note_column
    is_listed str8_match
active_columns_run = refl

-- SELECT * FROM orders
abbrev star_query : Node
star_query = node NodeType.select [] (
    cons (node NodeType.column_list [] (cons (node NodeType.column (str8_lit "*") nil) nil))
      (cons (node NodeType.table (str8_lit "orders") nil) nil))

star_run :
    ir_expand_star_to_columns shop star_query
    ≡ node NodeType.select [] (
        cons
          (node NodeType.column_list [] (cons (node NodeType.column (str8_lit "id") nil) nil))
          (cons (node NodeType.table (str8_lit "orders") nil) nil))
unfolding ir_expand_star_to_columns compute_ql.Ir.ir_node_find_child compute_ql.Ir.same_type
    compute_ql.Ir.Columns.is_star str8_match compute_ql.Text.match_loop compute_ql.Text.adjust_char
    compute_ql.Ir.Columns.write_children compute_ql.Ir.Columns.column_nodes
    compute_ql.Catalog.cql_database_find_table_or_catalog compute_ql.Catalog.find_table_in
star_run = refl
