-- ===== src/Tests/Lexing.antt =====
-- The tokenizer of src/ir_gen/sql_parser.c at work.
use compute_ql.Shared.{suc, ◌++◌, ℕ, ◌+◌, ◌≡◌, refl, true, false, [], ◌∷◌, some, length, arith}
use compute_ql.Text.{Text, str8_lit}
use compute_ql.Sql.Lex.{
  TokenType, TokenizeResult, Step, token, sql_tokenize_from_text, lex_step, operator_run, quote,
  ends_operator,
}
use compute_ql.Sql.Lex.Whole.{tokenize-StandInOrder}
use compute_ql.Sql.Lex.Ranges.{StandInOrder}
use compute_ql.Sql.Lex.Literals.{written, escape}
use compute_ql.Sql.Lex.Strings.{tokenize-written, tokenize-unclosed, operator_before_quote}

-- Nothing that reads as a digit stands behind the table.
abbrev past : ℕ → ℕ
past c = 255

abbrev query : Text
query = str8_lit "where x1 >= -2.5;"

abbrev query_result : TokenizeResult
query_result = record {
  tokens =
      token TokenType.keyword (str8_lit "where") 0 5
      ∷ token TokenType.identifier (str8_lit "x1") 6 8
      ∷ token TokenType.operator (str8_lit ">=") 9 11
      ∷ token TokenType.number (str8_lit "-2.5") 12 16
      ∷ token TokenType.symbol (str8_lit ";") 16 17
      ∷ [];
  unterminated = false;
}

query_run : sql_tokenize_from_text past query ≡ some query_result
unfolding sql_tokenize_from_text compute_ql.Sql.Lex.tokenize_loop lex_step
    compute_ql.Sql.Lex.space_run compute_ql.Text.char_is_space compute_ql.Text.char_is_digit
    compute_ql.Text.char_is_alpha compute_ql.Text.char_is_upper compute_ql.Text.char_is_lower
    compute_ql.Sql.Lex.word_step compute_ql.Sql.Lex.word_run
    compute_ql.Sql.Words.sql_is_string_symbol compute_ql.Sql.Words.matches_some
    compute_ql.Sql.Words.g_sql_symbols compute_ql.Text.str8_match compute_ql.Text.match_loop
    compute_ql.Text.adjust_char compute_ql.Sql.Lex.branch_step ends_operator
    compute_ql.Sql.Lex.number_last compute_ql.Sql.Lex.number_run compute_ql.Sql.Lex.number_step
    operator_run compute_ql.Sql.Lex.operator_step compute_ql.Sql.Lex.symbol_step
    compute_ql.Sql.Words.g_sql_keywords compute_ql.Sql.Words.g_sql_operators
    compute_ql.Sql.Words.sql_is_string_keyword compute_ql.Sql.Words.sql_is_string_operator
    compute_ql.Text.char_to_upper compute_ql.Text.integer_symbol_reverse compute_ql.Text.str8_substr
query_run = refl

tokenize-StandInOrder_example :
    (r : TokenizeResult) × (sql_tokenize_from_text past query ≡ some r)
    × StandInOrder query 0 r.tokens
tokenize-StandInOrder_example = tokenize-StandInOrder past query

tokenize-written_example :
    sql_tokenize_from_text past (written (str8_lit "it's"))
    ≡ some (record {
      tokens = token TokenType.string (str8_lit "it's") 0 (length (written (str8_lit "it's"))) ∷ [];
      unterminated = false;
    })
tokenize-written_example = tokenize-written past (str8_lit "it's")

tokenize-unclosed_example :
    sql_tokenize_from_text past (quote ∷ escape (str8_lit "it's"))
    ≡ some (record { tokens = []; unterminated = true })
tokenize-unclosed_example = tokenize-unclosed past (str8_lit "it's")

equals_goes_on : ends_operator past b'=' ≡ false
unfolding ends_operator compute_ql.Text.char_is_space compute_ql.Text.char_is_alpha
    compute_ql.Text.char_is_upper compute_ql.Text.char_is_lower compute_ql.Text.char_is_digit
    compute_ql.Sql.Words.sql_is_string_symbol compute_ql.Sql.Words.matches_some
    compute_ql.Sql.Words.g_sql_symbols compute_ql.Text.str8_match compute_ql.Text.match_loop
    compute_ql.Text.adjust_char
equals_goes_on = refl

-- name='abc'
operator_before_quote_example :
    lex_step past (str8_lit "name" ++ (b'=' ∷ ([] ++ (quote ∷ str8_lit "abc'")))) 4
    ≡ Step.skip (4 + (1 + suc (operator_run past (str8_lit "abc'"))))
operator_before_quote_example =
    operator_before_quote past (str8_lit "name") b'=' [] (str8_lit "abc'") (equals_goes_on, tt)
      (λ e. omega arith)
