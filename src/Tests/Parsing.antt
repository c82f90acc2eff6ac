-- ===== src/Tests/Parsing.antt =====
-- The parser of conditions of src/ir_gen/sql_parser.c at work.
use compute_ql.Shared.{ℕ, ◌+◌, ◌≡◌, refl, false, [], ◌∷◌, ◌++◌, arith}
use compute_ql.Text.{Text, str8_lit}
use compute_ql.Sql.Print.{
  plain_column, qualified_column, number_value, text_value, number_item, Spots, word, compare_with,
  member_of, conj, disj, Condition, condition_tokens, condition_node,
}
use compute_ql.Sql.Tree.{SqlNodeType, sql, nil, cons}
use compute_ql.Sql.Cursor.{Context, Parsed, ParseError, keyword_at}
use compute_ql.Sql.Parse.{Statements, sql_parse_logical_expression, sql_parse_where_clause}
use compute_ql.Sql.Parse.Comparison.{before_word}
use compute_ql.Sql.Parse.RoundTrip.{logical_expression-condition, where_clause-condition}

-- No statement is known inside a condition.
abbrev no_statements : Statements
no_statements = record {
  select_statement = λ ctx. Parsed.failed ParseError.elsewhere;
  window_spec = λ ctx. Parsed.failed ParseError.elsewhere;
}

-- Each token has a byte of its own.
abbrev from : ℕ → Spots
from k n = (k + n, k + n + 1)

-- o.id > 3 AND (name = 'x' OR id IN (1, 2))
abbrev sample : Condition
sample =
    conj (from 3)
      (compare_with (from 3) (str8_lit ">")
        (qualified_column (from 0) (str8_lit "o") (str8_lit "id"))
        (number_value (from 4) (str8_lit "3")))
      (disj (from 6)
        (compare_with (from 9) (str8_lit "=") (plain_column (from 8) (str8_lit "name"))
          (text_value (from 10) (str8_lit "x")))
        (member_of (from 13) false (plain_column (from 12) (str8_lit "id"))
          (number_item (from 16) (str8_lit "1")) (number_item (from 18) (str8_lit "2") ∷ [])))

-- ORDER BY ...
abbrev behind : Context
behind = word (20, 21) (str8_lit "order") ∷ word (21, 22) (str8_lit "by") ∷ []

order_is_not_and : keyword_at behind (str8_lit "and") ≡ false
unfolding compute_ql.Sql.Cursor.sql_check compute_ql.Text.str8_match
order_is_not_and = refl

order_is_not_or : keyword_at behind (str8_lit "or") ≡ false
unfolding compute_ql.Sql.Cursor.sql_check compute_ql.Text.str8_match
order_is_not_or = refl

logical_expression-condition_example :
    sql_parse_logical_expression no_statements 22 (condition_tokens 0 sample ++ behind)
    ≡ Parsed.parsed (condition_node sample) behind
logical_expression-condition_example =
    logical_expression-condition no_statements sample behind 21
      (before_word (20, 21) (str8_lit "order") (word (21, 22) (str8_lit "by") ∷ []))
      order_is_not_and order_is_not_or (omega arith)

where_clause-condition_example :
    sql_parse_where_clause no_statements
      (word (0, 1) (str8_lit "where") ∷ (condition_tokens 0 sample ++ behind))
    ≡ Parsed.parsed (sql SqlNodeType.where_clause [] (cons (condition_node sample) nil)) behind
where_clause-condition_example =
    where_clause-condition no_statements (0, 1) sample behind
      (before_word (20, 21) (str8_lit "order") (word (21, 22) (str8_lit "by") ∷ []))
      order_is_not_and order_is_not_or
