-- ===== src/Sql/Tree.antt =====
-- src/ir_gen/sql_parser.h: the syntax tree that the parser hands to the lowering.
use compute_ql.Text.{Text}

pub data SqlNodeType : Type 0 where
  use_stmt select column column_list table database where_clause operator numeric identifier :
      SqlNodeType
  literal insert import delete create drop index drop_index null not_null unique primary_key :
      SqlNodeType
  foreign_key check alter row value value_group type order_by ascending descending : SqlNodeType
  alter_add_column alter_column_type alter_drop_column alter_rename join alias group_by having :
      SqlNodeType
  limit offset aggregate_call describe explain analyze enum_def enum_value cte_list cte :
      SqlNodeType
  subquery in_list exists window partition_by : SqlNodeType

mutual
  pub data SqlNode : Type 0 where
    sql : SqlNodeType → Text → SqlNodes → SqlNode

  pub data SqlNodes : Type 0 where
    nil : SqlNodes
    cons : SqlNode → SqlNodes → SqlNodes
