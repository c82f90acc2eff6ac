-- ===== src/Plan/Rows.antt =====
-- src/query_exec/query_exec.h and src/planner/planner.c: the result of a plan node, LIMIT and OFFSET, and
-- the reversal of a row set. A pointer into an array is the list from there on, so `p + n` drops n
-- entries; F64 is a parameter, since no number is computed here.
pub mod Page
pub mod Readable
use compute_ql.Shared.{
  ℕ, zero, suc, ◌+◌, ◌-◌, ◌%◌, ◌^◌, Bool, true, false, List, [], ◌∷◌, Option, none, some,
  if◌then◌else◌, leb, min, max, map, drop, get_or, length,
}
use compute_ql.Text.{Text, u64_from_str8}
use compute_ql.Ir.{Node, value_of}
use compute_ql.Catalog.{Table, ColumnType}

-- One list of row indices for each table.
pub record RowSet (F64 : Type 0) : Type 0 where
  pub tables : List (Option Table)
  pub aliases : List Text
  pub row_indices : List (List ℕ)
  pub count : ℕ
  pub scores : Option (List F64)
  pub score_is_distance : Bool
  pub score_column_name : Text
  pub score_needle : Text

pub record AggColumn (F64 : Type 0) : Type 0 where
  pub name : Text
  pub type : ColumnType
  pub decimal_scale : ℕ
  pub numeric_values : Option (List F64)
  pub string_values : Option (List Text)
  pub is_null : Option (List ℕ)

pub record Materialized (F64 : Type 0) : Type 0 where
  pub columns : List (AggColumn F64)
  pub count : ℕ

pub record ExecResult (F64 : Type 0) : Type 0 where
  pub supported : Bool
  pub is_materialized : Bool
  pub rows : RowSet F64
  pub materialized : Materialized F64

abbrev pub max_u64 : ℕ
max_u64 = 2 ^ 64 - 1

-- `a - b` on two U64.
unfoldable pub u64_sub : ℕ → ℕ → ℕ
u64_sub a b = (a + 2 ^ 64 - b) % 2 ^ 64

-- The number that a clause gives, or `fallback` without the clause.
unfoldable pub clause_number : Option Node → ℕ → ℕ
clause_number none fallback = fallback
clause_number (some n) fallback = u64_from_str8 (value_of n) 10

-- A null pointer is not moved.
abbrev pub move {ℓ} : {A : Type ℓ} → ℕ → Option (List A) → Option (List A)
move n none = none
move n (some xs) = some (drop n xs)

-- The loop that fills an array of `count` entries from behind; `n` entries are still to come.
unfoldable pub fill_reversed {ℓ} : {A : Type ℓ} → A → List A → ℕ → List A
fill_reversed d xs zero = []
fill_reversed d xs (suc n) = get_or xs n d ∷ fill_reversed d xs n

module _ {F64 : Type 0} where
  unfoldable pub plan_result_row_count : ExecResult F64 → ℕ
  plan_result_row_count r = if r.is_materialized then r.materialized.count else r.rows.count

  unfoldable pub move_column : ℕ → AggColumn F64 → AggColumn F64
  move_column offset c = record c {
    numeric_values = move offset c.numeric_values;
    string_values = move offset c.string_values;
    is_null = move offset c.is_null;
  }

  unfoldable pub limit_materialized : ℕ → ℕ → Materialized F64 → Materialized F64
  limit_materialized offset limit m =
      if leb m.count offset then record m { count = 0 } else record m {
        columns = map (move_column offset) m.columns;
        count = min (u64_sub m.count offset) limit;
      }

  unfoldable pub limit_rows : ℕ → ℕ → RowSet F64 → RowSet F64
  limit_rows offset limit rs = if leb rs.count offset then record rs { count = 0 } else record rs {
    row_indices = map (drop offset) rs.row_indices;
    count = min (u64_sub rs.count offset) limit;
  }

  -- `plan_apply_limit(result, offset_node, limit_node)`.
  unfoldable pub plan_apply_limit : ExecResult F64 → Option Node → Option Node → ExecResult F64
  unfolding clause_number
  plan_apply_limit r offset_node limit_node =
      let offset : ℕ = clause_number offset_node 0 in
      let limit : ℕ = clause_number limit_node max_u64 in
      if r.is_materialized
      then record r { materialized = limit_materialized offset limit r.materialized }
      else record r { rows = limit_rows offset limit r.rows }

  unfoldable pub plan_reverse_rowset : F64 → RowSet F64 → RowSet F64
  unfolding fill_reversed
  plan_reverse_rowset zero_value rs = record rs {
    row_indices = map (λ xs. fill_reversed 0 xs rs.count) rs.row_indices;
    scores = elim rs.scores [ none ↦ none | some xs ↦ some (fill_reversed zero_value xs rs.count) ];
  }
