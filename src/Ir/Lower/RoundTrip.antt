-- ===== src/Ir/Lower/RoundTrip.antt =====
-- src/ir_gen/ir_gen.c: which syntax trees the lowering keeps apart, and a type that it never makes.
use compute_ql.Shared.{◌≡◌, refl, Bool, true, false, ◌&&◌, ◌||◌, arith}
use compute_ql.Sql.Tree.{SqlNodeType, SqlNode, SqlNodes, sql}
use compute_ql.Ir.{NodeType, Node, Nodes, node, same_type}
use compute_ql.Ir.Lower.{ir_type_from_sql_node_type, ir_generate_recursive}
use compute_ql.Ir.Lower.Faithful.{image, images, recursive_image}

-- The syntax type that an IR type comes from, where there is one.
raise_type : NodeType → SqlNodeType
raise_type NodeType.select = SqlNodeType.select
raise_type NodeType.column = SqlNodeType.column
raise_type NodeType.table = SqlNodeType.table
raise_type NodeType.database = SqlNodeType.database
raise_type NodeType.where_clause = SqlNodeType.where_clause
raise_type NodeType.create = SqlNodeType.create
raise_type NodeType.operator = SqlNodeType.operator
raise_type NodeType.numeric = SqlNodeType.numeric
raise_type NodeType.literal = SqlNodeType.literal
raise_type NodeType.order_by = SqlNodeType.order_by
raise_type NodeType.ascending = SqlNodeType.ascending
raise_type NodeType.descending = SqlNodeType.descending
raise_type NodeType.insert = SqlNodeType.insert
raise_type NodeType.import = SqlNodeType.import
raise_type NodeType.value = SqlNodeType.value
raise_type NodeType.value_group = SqlNodeType.value_group
raise_type NodeType.column_list = SqlNodeType.column_list
raise_type NodeType.delete = SqlNodeType.delete
raise_type NodeType.alter = SqlNodeType.alter
raise_type NodeType.add_column = SqlNodeType.alter_add_column
raise_type NodeType.drop_column = SqlNodeType.alter_drop_column
raise_type NodeType.rename = SqlNodeType.alter_rename
raise_type NodeType.type = SqlNodeType.type
raise_type NodeType.use_stmt = SqlNodeType.use_stmt
raise_type NodeType.join = SqlNodeType.join
raise_type NodeType.alias = SqlNodeType.alias
raise_type NodeType.group_by = SqlNodeType.group_by
raise_type NodeType.having = SqlNodeType.having
raise_type NodeType.limit = SqlNodeType.limit
raise_type NodeType.offset = SqlNodeType.offset
raise_type NodeType.aggregate_call = SqlNodeType.aggregate_call
raise_type NodeType.index = SqlNodeType.index
raise_type NodeType.drop_index = SqlNodeType.drop_index
raise_type NodeType.null = SqlNodeType.null
raise_type NodeType.not_null = SqlNodeType.not_null
raise_type NodeType.unique = SqlNodeType.unique
raise_type NodeType.primary_key = SqlNodeType.primary_key
raise_type NodeType.foreign_key = SqlNodeType.foreign_key
raise_type NodeType.check = SqlNodeType.check
raise_type NodeType.describe = SqlNodeType.describe
raise_type NodeType.explain = SqlNodeType.explain
raise_type NodeType.analyze = SqlNodeType.analyze
raise_type NodeType.enum_def = SqlNodeType.enum_def
raise_type NodeType.enum_value = SqlNodeType.enum_value
raise_type NodeType.cte_list = SqlNodeType.cte_list
raise_type NodeType.cte = SqlNodeType.cte
raise_type NodeType.subquery = SqlNodeType.subquery
raise_type NodeType.in_list = SqlNodeType.in_list
raise_type NodeType.exists = SqlNodeType.exists
raise_type NodeType.window = SqlNodeType.window
raise_type NodeType.partition_by = SqlNodeType.partition_by
raise_type _ = SqlNodeType.drop

mutual
  pub raise : Node → SqlNode
  raise (node t v cs) = sql (raise_type t) v (raise_all cs)

  pub raise_all : Nodes → SqlNodes
  raise_all Nodes.nil = SqlNodes.nil
  raise_all (Nodes.cons c cs) = SqlNodes.cons (raise c) (raise_all cs)

-- Row, Alter_ColumnType and Identifier share an IR type with ValueGroup, Type and Drop.
unfoldable pub is_plain_type : SqlNodeType → Bool
is_plain_type SqlNodeType.row = false
is_plain_type SqlNodeType.alter_column_type = false
is_plain_type SqlNodeType.identifier = false
is_plain_type _ = true

unfoldable mutual
  pub is_plain : SqlNode → Bool
  is_plain (sql t v cs) = is_plain_type t && are_plain cs

  pub are_plain : SqlNodes → Bool
  are_plain SqlNodes.nil = true
  are_plain (SqlNodes.cons c cs) = is_plain c && are_plain cs

raise_type_lowered :
    (t : SqlNodeType) → is_plain_type t ≡ true → raise_type (ir_type_from_sql_node_type t) ≡ t
unfolding raise_type ir_type_from_sql_node_type is_plain_type
raise_type_lowered SqlNodeType.row h = cc
raise_type_lowered SqlNodeType.alter_column_type h = cc
raise_type_lowered SqlNodeType.identifier h = cc
raise_type_lowered _ h = refl

mutual
  unfolding raise image is_plain

  raise-image : (n : SqlNode) → is_plain n ≡ true → raise (image n) ≡ n
  raise-image (sql t v cs) h = ground (arith, raise_type_lowered t, raise_images cs)

  raise_images : (cs : SqlNodes) → are_plain cs ≡ true → raise_all (images cs) ≡ cs
  raise_images SqlNodes.nil h = refl
  raise_images (SqlNodes.cons c cs) h = ground (arith, raise-image c, raise_images cs)

-- The lowering loses nothing on a tree without Row, Alter_ColumnType and Identifier nodes: the
-- syntax tree is read back from the IR tree.
pub raise-ir_generate_recursive :
    (n : SqlNode) → is_plain n ≡ true → raise (ir_generate_recursive n) ≡ n
raise-ir_generate_recursive n h = rw (recursive_image n) (raise-image n h)

unfoldable mutual
  pub mentions : NodeType → Node → Bool
  mentions u (node t v cs) = same_type t u || any_mentions u cs

  pub any_mentions : NodeType → Nodes → Bool
  any_mentions u Nodes.nil = false
  any_mentions u (Nodes.cons c cs) = mentions u c || any_mentions u cs

lowered_type_ne_semi_join :
    (t : SqlNodeType) → same_type (ir_type_from_sql_node_type t) NodeType.semi_join ≡ false
unfolding ir_type_from_sql_node_type same_type
lowered_type_ne_semi_join SqlNodeType.use_stmt = refl
lowered_type_ne_semi_join _ = refl

mutual
  unfolding mentions image

  image_no_semi_join : (n : SqlNode) → mentions NodeType.semi_join (image n) ≡ false
  image_no_semi_join (sql t v cs) =
      ground (arith, lowered_type_ne_semi_join t, images_no_semi_join cs)

  images_no_semi_join : (cs : SqlNodes) → any_mentions NodeType.semi_join (images cs) ≡ false
  images_no_semi_join SqlNodes.nil = refl
  images_no_semi_join (SqlNodes.cons c cs) =
      ground (arith, image_no_semi_join c, images_no_semi_join cs)

-- SemiJoin is the planner's own: no node of a lowered tree has that type, at any depth.
pub ir_generate_recursive-no_semi_join :
    (n : SqlNode) → mentions NodeType.semi_join (ir_generate_recursive n) ≡ false
ir_generate_recursive-no_semi_join n = rw (recursive_image n) (image_no_semi_join n)
