-- ===== src/Catalog.antt =====
-- src/cql/cql.h and src/cql/cql.c: tables and columns as the planner and the optimizer look them up.
use compute_ql.Shared.{List, [], ◌∷◌, Option, none, some, reverse, if◌then◌else◌}
use compute_ql.Text.{Text, str8_lit, str8_match, match_exact, match_any_case}

-- CQL_ColumnType.
pub data ColumnType : Type 0 where
  invalid u32 u64 f32 f64 string8 bool i32 i64 date timestamp decimal enum : ColumnType

pub record Column : Type 0 where
  pub name : Text
  pub type : ColumnType

pub record Table : Type 0 where
  pub name : Text
  pub columns : List Column

-- `column_catalog` is the table that `cql_database_build_column_catalog` makes of the database.
-- `temp_tables` is in the order of registration.
pub record Database : Type 0 where
  pub tables : List Table
  pub temp_tables : List Table
  pub column_catalog : Table

unfoldable pub find_table_in : List Table → Text → Option Table
find_table_in [] name = none
find_table_in (t ∷ ts) name =
    if str8_match t.name name match_exact then some t else find_table_in ts name

unfoldable pub cql_database_find_table : Database → Text → Option Table
cql_database_find_table db name = find_table_in db.tables name

-- The temporary tables are searched from the newest to the oldest.
unfoldable pub cql_database_find_table_or_catalog : Database → Text → Option Table
unfolding cql_database_find_table
cql_database_find_table_or_catalog db name = elim (find_table_in (reverse db.temp_tables) name) [
  | some t ↦ some t
  | none ↦
      if str8_match name (str8_lit "column_catalog") match_any_case
      then some db.column_catalog
      else cql_database_find_table db name
]

unfoldable pub find_column_in : List Column → Text → Option Column
find_column_in [] name = none
find_column_in (c ∷ cs) name =
    if str8_match c.name name match_exact then some c else find_column_in cs name

unfoldable pub cql_table_find_column : Table → Text → Option Column
cql_table_find_column t name = find_column_in t.columns name
