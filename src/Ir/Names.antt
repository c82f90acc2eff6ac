-- ===== src/Ir/Names.antt =====
-- src/ir_gen/ir_gen.c: `ir_node_type_to_string`.
use compute_ql.Text.{Text, str8_lit}
use compute_ql.Ir.{NodeType}

unfoldable pub ir_node_type_to_string : NodeType → Text
ir_node_type_to_string NodeType.use_stmt = str8_lit "IR_NodeType_Use"
ir_node_type_to_string NodeType.describe = str8_lit "IR_NodeType_Describe"
ir_node_type_to_string NodeType.explain = str8_lit "IR_NodeType_Explain"
ir_node_type_to_string NodeType.analyze = str8_lit "IR_NodeType_Analyze"
ir_node_type_to_string NodeType.enum_def = str8_lit "IR_NodeType_EnumDef"
ir_node_type_to_string NodeType.enum_value = str8_lit "IR_NodeType_EnumValue"
ir_node_type_to_string NodeType.select = str8_lit "IR_NodeType_Select"
ir_node_type_to_string NodeType.column = str8_lit "IR_NodeType_Column"
ir_node_type_to_string NodeType.table = str8_lit "IR_NodeType_Table"
ir_node_type_to_string NodeType.database = str8_lit "IR_NodeType_Database"
ir_node_type_to_string NodeType.where_clause = str8_lit "IR_NodeType_Where"
ir_node_type_to_string NodeType.create = str8_lit "IR_NodeType_Create"
ir_node_type_to_string NodeType.condition = str8_lit "IR_NodeType_Condition"
ir_node_type_to_string NodeType.operator = str8_lit "IR_NodeType_Operator"
ir_node_type_to_string NodeType.numeric = str8_lit "IR_NodeType_Numeric"
ir_node_type_to_string NodeType.literal = str8_lit "IR_NodeType_Literal"
ir_node_type_to_string NodeType.order_by = str8_lit "IR_NodeType_OrderBy"
ir_node_type_to_string NodeType.ascending = str8_lit "IR_NodeType_Ascending"
ir_node_type_to_string NodeType.descending = str8_lit "IR_NodeType_Descending"
ir_node_type_to_string NodeType.insert = str8_lit "IR_NodeType_Insert"
ir_node_type_to_string NodeType.import = str8_lit "IR_NodeType_Import"
ir_node_type_to_string NodeType.value = str8_lit "IR_NodeType_Value"
ir_node_type_to_string NodeType.value_group = str8_lit "IR_NodeType_ValueGroup"
ir_node_type_to_string NodeType.column_list = str8_lit "IR_NodeType_ColumnList"
ir_node_type_to_string NodeType.delete = str8_lit "IR_NodeType_Delete"
ir_node_type_to_string NodeType.alter = str8_lit "IR_NodeType_Alter"
ir_node_type_to_string NodeType.add_column = str8_lit "IR_NodeType_AddColumn"
ir_node_type_to_string NodeType.type = str8_lit "IR_NodeType_Type"
ir_node_type_to_string NodeType.drop_column = str8_lit "IR_NodeType_DropColumn"
ir_node_type_to_string NodeType.rename = str8_lit "IR_NodeType_Rename"
ir_node_type_to_string NodeType.join = str8_lit "IR_NodeType_Join"
ir_node_type_to_string NodeType.alias = str8_lit "IR_NodeType_Alias"
ir_node_type_to_string NodeType.group_by = str8_lit "IR_NodeType_GroupBy"
ir_node_type_to_string NodeType.having = str8_lit "IR_NodeType_Having"
ir_node_type_to_string NodeType.limit = str8_lit "IR_NodeType_Limit"
ir_node_type_to_string NodeType.offset = str8_lit "IR_NodeType_Offset"
ir_node_type_to_string NodeType.aggregate_call = str8_lit "IR_NodeType_AggregateCall"
ir_node_type_to_string NodeType.index = str8_lit "IR_NodeType_Index"
ir_node_type_to_string NodeType.drop_index = str8_lit "IR_NodeType_DropIndex"
ir_node_type_to_string NodeType.null = str8_lit "IR_NodeType_Null"
ir_node_type_to_string NodeType.not_null = str8_lit "IR_NodeType_NotNull"
ir_node_type_to_string NodeType.unique = str8_lit "IR_NodeType_Unique"
ir_node_type_to_string NodeType.primary_key = str8_lit "IR_NodeType_PrimaryKey"
ir_node_type_to_string NodeType.foreign_key = str8_lit "IR_NodeType_ForeignKey"
ir_node_type_to_string NodeType.check = str8_lit "IR_NodeType_Check"
ir_node_type_to_string NodeType.cte_list = str8_lit "IR_NodeType_CteList"
ir_node_type_to_string NodeType.cte = str8_lit "IR_NodeType_Cte"
ir_node_type_to_string NodeType.subquery = str8_lit "IR_NodeType_Subquery"
ir_node_type_to_string NodeType.in_list = str8_lit "IR_NodeType_InList"
ir_node_type_to_string NodeType.exists = str8_lit "IR_NodeType_Exists"
ir_node_type_to_string NodeType.window = str8_lit "IR_NodeType_Window"
ir_node_type_to_string NodeType.partition_by = str8_lit "IR_NodeType_PartitionBy"
ir_node_type_to_string NodeType.semi_join = str8_lit "IR_NodeType_SemiJoin"
