-- ===== src/Ir/Lower.antt =====
-- src/ir_gen/ir_gen.c: the lowering of the syntax tree, `ir_generate_from_ast` and what it calls.
pub mod Faithful
pub mod RoundTrip
use compute_ql.Shared.{ℕ, ◌+◌, List, [], ◌∷◌, ◌++◌}
use compute_ql.Sql.Tree.{SqlNodeType, SqlNode, SqlNodes, sql}
use compute_ql.Ir.{NodeType, Node, Nodes, node, nil, ir_node_add_child}

unfoldable pub ir_type_from_sql_node_type : SqlNodeType → NodeType
ir_type_from_sql_node_type SqlNodeType.use_stmt = NodeType.use_stmt
ir_type_from_sql_node_type SqlNodeType.select = NodeType.select
ir_type_from_sql_node_type SqlNodeType.column = NodeType.column
ir_type_from_sql_node_type SqlNodeType.column_list = NodeType.column_list
ir_type_from_sql_node_type SqlNodeType.table = NodeType.table
ir_type_from_sql_node_type SqlNodeType.database = NodeType.database
ir_type_from_sql_node_type SqlNodeType.where_clause = NodeType.where_clause
ir_type_from_sql_node_type SqlNodeType.operator = NodeType.operator
ir_type_from_sql_node_type SqlNodeType.numeric = NodeType.numeric
ir_type_from_sql_node_type SqlNodeType.literal = NodeType.literal
ir_type_from_sql_node_type SqlNodeType.insert = NodeType.insert
ir_type_from_sql_node_type SqlNodeType.import = NodeType.import
ir_type_from_sql_node_type SqlNodeType.delete = NodeType.delete
ir_type_from_sql_node_type SqlNodeType.create = NodeType.create
ir_type_from_sql_node_type SqlNodeType.drop = NodeType.condition
ir_type_from_sql_node_type SqlNodeType.index = NodeType.index
ir_type_from_sql_node_type SqlNodeType.drop_index = NodeType.drop_index
ir_type_from_sql_node_type SqlNodeType.null = NodeType.null
ir_type_from_sql_node_type SqlNodeType.not_null = NodeType.not_null
ir_type_from_sql_node_type SqlNodeType.unique = NodeType.unique
ir_type_from_sql_node_type SqlNodeType.primary_key = NodeType.primary_key
ir_type_from_sql_node_type SqlNodeType.foreign_key = NodeType.foreign_key
ir_type_from_sql_node_type SqlNodeType.check = NodeType.check
ir_type_from_sql_node_type SqlNodeType.alter = NodeType.alter
ir_type_from_sql_node_type SqlNodeType.row = NodeType.value_group
ir_type_from_sql_node_type SqlNodeType.value = NodeType.value
ir_type_from_sql_node_type SqlNodeType.value_group = NodeType.value_group
ir_type_from_sql_node_type SqlNodeType.type = NodeType.type
ir_type_from_sql_node_type SqlNodeType.order_by = NodeType.order_by
ir_type_from_sql_node_type SqlNodeType.ascending = NodeType.ascending
ir_type_from_sql_node_type SqlNodeType.descending = NodeType.descending
ir_type_from_sql_node_type SqlNodeType.alter_add_column = NodeType.add_column
ir_type_from_sql_node_type SqlNodeType.alter_column_type = NodeType.type
ir_type_from_sql_node_type SqlNodeType.alter_drop_column = NodeType.drop_column
ir_type_from_sql_node_type SqlNodeType.alter_rename = NodeType.rename
ir_type_from_sql_node_type SqlNodeType.join = NodeType.join
ir_type_from_sql_node_type SqlNodeType.alias = NodeType.alias
ir_type_from_sql_node_type SqlNodeType.group_by = NodeType.group_by
ir_type_from_sql_node_type SqlNodeType.having = NodeType.having
ir_type_from_sql_node_type SqlNodeType.limit = NodeType.limit
ir_type_from_sql_node_type SqlNodeType.offset = NodeType.offset
ir_type_from_sql_node_type SqlNodeType.aggregate_call = NodeType.aggregate_call
ir_type_from_sql_node_type SqlNodeType.describe = NodeType.describe
ir_type_from_sql_node_type SqlNodeType.explain = NodeType.explain
ir_type_from_sql_node_type SqlNodeType.analyze = NodeType.analyze
ir_type_from_sql_node_type SqlNodeType.enum_def = NodeType.enum_def
ir_type_from_sql_node_type SqlNodeType.enum_value = NodeType.enum_value
ir_type_from_sql_node_type SqlNodeType.cte_list = NodeType.cte_list
ir_type_from_sql_node_type SqlNodeType.cte = NodeType.cte
ir_type_from_sql_node_type SqlNodeType.subquery = NodeType.subquery
ir_type_from_sql_node_type SqlNodeType.in_list = NodeType.in_list
ir_type_from_sql_node_type SqlNodeType.exists = NodeType.exists
ir_type_from_sql_node_type SqlNodeType.window = NodeType.window
ir_type_from_sql_node_type SqlNodeType.partition_by = NodeType.partition_by
ir_type_from_sql_node_type _ = NodeType.condition

unfoldable mutual
  -- `ir_generate_recursive`: each child is lowered and hung behind those before it.
  pub ir_generate_recursive : SqlNode → Node
  ir_generate_recursive (sql t v cs) =
      ir_generate_children cs (node (ir_type_from_sql_node_type t) v nil)

  pub ir_generate_children : SqlNodes → Node → Node
  ir_generate_children SqlNodes.nil parent = parent
  ir_generate_children (SqlNodes.cons c cs) parent =
      ir_generate_children cs (ir_node_add_child parent (ir_generate_recursive c))

-- IR_Query: the chain of statements and its length.
pub record IrQuery : Type 0 where
  pub execution_nodes : List Node
  pub count : ℕ

unfoldable pub ir_generate_loop : List SqlNode → IrQuery → IrQuery
unfolding ir_generate_recursive
ir_generate_loop [] q = q
ir_generate_loop (n ∷ ns) q = ir_generate_loop ns (record {
  execution_nodes = q.execution_nodes ++ (ir_generate_recursive n ∷ []);
  count = q.count + 1;
})

unfoldable pub ir_generate_from_ast : List SqlNode → IrQuery
unfolding ir_generate_loop
ir_generate_from_ast ast = ir_generate_loop ast (record { execution_nodes = []; count = 0 })
