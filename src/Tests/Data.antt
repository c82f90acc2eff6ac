-- ===== src/Tests/Data.antt =====
-- A database of two tables, and conditions on it.
-- No code of the repository is modelled here.
use compute_ql.Shared.{ℕ, Bool, true, false, List, [], ◌∷◌, none, some}
use compute_ql.Text.{Text, str8_lit}
use compute_ql.Ir.{NodeType, Node, node, nil, cons}
use compute_ql.Catalog.{ColumnType, Table, Database}
use compute_ql.Plan.{Plan, PlanType, plan, absent, no_fields}
use compute_ql.Optimizer.{Relation, JoinStep, Conjunct, Destination}
use compute_ql.Optimizer.Logic.{no, Row}

abbrev pub orders : Table
orders = record {
  name = str8_lit "orders";
  columns = record { name = str8_lit "id"; type = ColumnType.u64 } ∷ [];
}

abbrev pub items : Table
items = record {
  name = str8_lit "items";
  columns = record { name = str8_lit "sku"; type = ColumnType.u64 } ∷ [];
}

abbrev pub shop : Database
shop = record { tables = orders ∷ items ∷ []; temp_tables = []; column_catalog = items }

abbrev pub scan_of : Table → Plan
scan_of t = plan PlanType.scan absent absent (record no_fields { value = t.name; table = some t })

abbrev pub relations : List Relation
relations =
    record { scan = scan_of orders; table = orders; alias = [] }
    ∷ record { scan = scan_of items; table = items; alias = [] }
    ∷ []

abbrev pub column : Text → Node
column name = node NodeType.column name nil

abbrev pub number : Text → Node
number v = node NodeType.numeric v nil

abbrev pub apply : Text → Node → Node → Node
apply op a b = node NodeType.operator op (cons a (cons b nil))

-- sku = 5
abbrev pub sku_is_five : Node
sku_is_five = apply (str8_lit "=") (column (str8_lit "sku")) (number (str8_lit "5"))

-- id < 3
abbrev pub id_below_three : Node
id_below_three = apply (str8_lit "<") (column (str8_lit "id")) (number (str8_lit "3"))

-- sku IS NULL
abbrev pub sku_is_null : Node
sku_is_null = node NodeType.operator (str8_lit "is null") (cons (column (str8_lit "sku")) nil)

-- id < 3 AND sku = 5
abbrev pub both_tests : Node
both_tests = apply (str8_lit "AND") id_below_three sku_is_five

-- FROM orders LEFT JOIN items
abbrev pub left_join_steps : List JoinStep
left_join_steps =
    record { type = []; on_condition = none; null_supplying = false }
    ∷ record { type = str8_lit "left"; on_condition = some sku_is_five; null_supplying = true }
    ∷ []

abbrev pub conjunct_of : Node → ℕ → Bool → ℕ → Conjunct
conjunct_of n mask from_where step = record {
  node = n;
  mask = mask;
  unresolved = false;
  from_where = from_where;
  step = step;
  destination = Destination.residual;
  target = 0;
}

-- A row in which every column is NULL.
abbrev pub null_row : Row ℕ
null_row = record {
  column = λ name. none;
  constant = λ n. 5;
  compare = λ op a b. false;
  member = λ list v. false;
  other = λ n. no;
}
