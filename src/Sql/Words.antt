-- ===== src/Sql/Words.antt =====
-- src/ir_gen/sql_parser.h and src/ir_gen/sql_parser.c: the words, operators and symbols that the
-- tokenizer knows.
use compute_ql.Shared.{Bool, true, false, List, [], ◌∷◌, if◌then◌else◌}
use compute_ql.Text.{Text, str8_lit, str8_match, match_any_case}

unfoldable pub g_sql_keywords : List Text
g_sql_keywords =
    str8_lit "select"
    ∷ str8_lit "from"
    ∷ str8_lit "where"
    ∷ str8_lit "and"
    ∷ str8_lit "or"
    ∷ str8_lit "join"
    ∷ str8_lit "on"
    ∷ str8_lit "to"
    ∷ str8_lit "group"
    ∷ str8_lit "order"
    ∷ str8_lit "by"
    ∷ str8_lit "asc"
    ∷ str8_lit "desc"
    ∷ str8_lit "having"
    ∷ str8_lit "limit"
    ∷ str8_lit "offset"
    ∷ str8_lit "use"
    ∷ str8_lit "into"
    ∷ str8_lit "insert"
    ∷ str8_lit "import"
    ∷ str8_lit "create"
    ∷ str8_lit "describe"
    ∷ str8_lit "explain"
    ∷ str8_lit "analyze"
    ∷ str8_lit "contains"
    ∷ str8_lit "equals"
    ∷ str8_lit "drop"
    ∷ str8_lit "table"
    ∷ str8_lit "database"
    ∷ str8_lit "delete"
    ∷ str8_lit "values"
    ∷ str8_lit "alter"
    ∷ str8_lit "add"
    ∷ str8_lit "rename"
    ∷ str8_lit "column"
    ∷ str8_lit "index"
    ∷ str8_lit "null"
    ∷ str8_lit "is"
    ∷ str8_lit "not"
    ∷ str8_lit "unique"
    ∷ str8_lit "primary"
    ∷ str8_lit "key"
    ∷ str8_lit "references"
    ∷ str8_lit "check"
    ∷ str8_lit "as"
    ∷ str8_lit "inner"
    ∷ str8_lit "left"
    ∷ str8_lit "outer"
    ∷ str8_lit "u32"
    ∷ str8_lit "u64"
    ∷ str8_lit "f32"
    ∷ str8_lit "f64"
    ∷ str8_lit "string8"
    ∷ str8_lit "bool"
    ∷ str8_lit "i32"
    ∷ str8_lit "i64"
    ∷ str8_lit "true"
    ∷ str8_lit "false"
    ∷ str8_lit "date"
    ∷ str8_lit "timestamp"
    ∷ str8_lit "decimal"
    ∷ str8_lit "numeric"
    ∷ str8_lit "type"
    ∷ str8_lit "enum"
    ∷ str8_lit "with"
    ∷ str8_lit "in"
    ∷ str8_lit "exists"
    ∷ str8_lit "over"
    ∷ str8_lit "partition"
    ∷ []

unfoldable pub g_sql_operators : List Text
g_sql_operators =
    str8_lit "="
    ∷ str8_lit "=="
    ∷ str8_lit "!="
    ∷ str8_lit ">"
    ∷ str8_lit "<"
    ∷ str8_lit ">="
    ∷ str8_lit "<="
    ∷ []

unfoldable pub g_sql_symbols : List Text
g_sql_symbols =
    str8_lit "," ∷ str8_lit "(" ∷ str8_lit ")" ∷ str8_lit ";" ∷ str8_lit "*" ∷ str8_lit "." ∷ []

-- The loop of the three tests below.
unfoldable pub matches_some : List Text → Text → Bool
matches_some [] s = false
matches_some (w ∷ ws) s = if str8_match w s match_any_case then true else matches_some ws s

unfoldable pub sql_is_string_keyword : Text → Bool
sql_is_string_keyword s = matches_some g_sql_keywords s

unfoldable pub sql_is_string_operator : Text → Bool
sql_is_string_operator s = matches_some g_sql_operators s

unfoldable pub sql_is_string_symbol : Text → Bool
sql_is_string_symbol s = matches_some g_sql_symbols s
