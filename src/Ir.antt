-- ===== src/Ir.antt =====
-- src/ir_gen/ir_gen.h and src/ir_gen/ir_gen.c: the IR tree. A node's chain of children is a list; `first`,
-- `last` and `next` are read off it, and an absent pointer is `none`.
pub mod Lower
pub mod Names
pub mod Columns
use compute_ql.Shared.{ℕ, Bool, ◌==◌, Option, none, some, if◌then◌else◌}
use compute_ql.Text.{Text}

pub data NodeType : Type 0 where
  select column table database where_clause create condition operator numeric literal order_by :
      NodeType
  ascending descending insert import value value_group column_list delete alter add_column :
      NodeType
  drop_column rename type use_stmt join alias group_by having limit offset aggregate_call index :
      NodeType
  drop_index null not_null unique primary_key foreign_key check describe explain analyze : NodeType
  enum_def enum_value cte_list cte subquery in_list exists window partition_by semi_join : NodeType

-- The number of an enumerator, by which C compares two of them.
unfoldable pub tag : NodeType → ℕ
tag NodeType.select = 0
tag NodeType.column = 1
tag NodeType.table = 2
tag NodeType.database = 3
tag NodeType.where_clause = 4
tag NodeType.create = 5
tag NodeType.condition = 6
tag NodeType.operator = 7
tag NodeType.numeric = 8
tag NodeType.literal = 9
tag NodeType.order_by = 10
tag NodeType.ascending = 11
tag NodeType.descending = 12
tag NodeType.insert = 13
tag NodeType.import = 14
tag NodeType.value = 15
tag NodeType.value_group = 16
tag NodeType.column_list = 17
tag NodeType.delete = 18
tag NodeType.alter = 19
tag NodeType.add_column = 20
tag NodeType.drop_column = 21
tag NodeType.rename = 22
tag NodeType.type = 23
tag NodeType.use_stmt = 24
tag NodeType.join = 25
tag NodeType.alias = 26
tag NodeType.group_by = 27
tag NodeType.having = 28
tag NodeType.limit = 29
tag NodeType.offset = 30
tag NodeType.aggregate_call = 31
tag NodeType.index = 32
tag NodeType.drop_index = 33
tag NodeType.null = 34
tag NodeType.not_null = 35
tag NodeType.unique = 36
tag NodeType.primary_key = 37
tag NodeType.foreign_key = 38
tag NodeType.check = 39
tag NodeType.describe = 40
tag NodeType.explain = 41
tag NodeType.analyze = 42
tag NodeType.enum_def = 43
tag NodeType.enum_value = 44
tag NodeType.cte_list = 45
tag NodeType.cte = 46
tag NodeType.subquery = 47
tag NodeType.in_list = 48
tag NodeType.exists = 49
tag NodeType.window = 50
tag NodeType.partition_by = 51
tag NodeType.semi_join = 52

unfoldable pub same_type : NodeType → NodeType → Bool
unfolding tag
same_type t u = tag t == tag u

mutual
  pub data Node : Type 0 where
    node : NodeType → Text → Nodes → Node

  pub data Nodes : Type 0 where
    nil : Nodes
    cons : Node → Nodes → Nodes

abbrev pub type_of : Node → NodeType
type_of (node t v cs) = t

abbrev pub value_of : Node → Text
value_of (node t v cs) = v

abbrev pub children_of : Node → Nodes
children_of (node t v cs) = cs

-- `node->type == type`.
abbrev pub has_type : Node → NodeType → Bool
has_type n t = same_type (type_of n) t

-- A chain that is walked by `next`.
abbrev pub first : Nodes → Option Node
first nil = none
first (cons c cs) = some c

-- `first ? first->next : NULL`.
abbrev pub second : Nodes → Option Node
second nil = none
second (cons c cs) = first cs

abbrev pub last : Nodes → Option Node
last nil = none
last (cons c nil) = some c
last (cons c (cons d cs)) = last (cons d cs)

-- `ir_node_make`.
unfoldable pub ir_node_make : NodeType → Text → Node
ir_node_make t v = node t v nil

-- The new child goes behind `last`.
unfoldable pub add_last : Nodes → Node → Nodes
add_last nil c = cons c nil
add_last (cons d cs) c = cons d (add_last cs c)

unfoldable pub ir_node_add_child : Node → Node → Node
unfolding add_last
ir_node_add_child (node t v cs) c = node t v (add_last cs c)

-- The loop of `ir_node_find_child`.
unfoldable pub find_in : Nodes → NodeType → Option Node
find_in nil t = none
find_in (cons c cs) t = if has_type c t then some c else find_in cs t

unfoldable pub ir_node_find_child : Option Node → NodeType → Option Node
unfolding find_in
ir_node_find_child none t = none
ir_node_find_child (some n) t = find_in (children_of n) t
