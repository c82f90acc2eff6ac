-- ===== src/Sql/Parse.antt =====
-- src/ir_gen/sql_parser.c: the parsers of conditions. The parsers of statements and of window
-- specifications, which conditions call back, are an argument.
pub mod Comparison
pub mod Levels
pub mod RoundTrip
use compute_ql.Shared.{
  ℕ, zero, suc, ◌+◌, Bool, true, false, not, ◌&&◌, ◌||◌, List, [], ◌∷◌, ◌++◌, if◌then◌else◌, ◌==◌,
  length, drop, get_or,
}
use compute_ql.Text.{Text, str8_lit, str8_match, match_exact, match_any_case}
use compute_ql.Sql.Tree.{SqlNodeType, SqlNode, SqlNodes, sql, nil, cons}
use compute_ql.Sql.Lex.{TokenType, Token, token}
use compute_ql.Sql.Cursor.{
  Context, sql_peek, sql_advance, is_type, ParseError, Parsed, and_then, keyword_at, symbol_at,
  second_is, sql_check_paren_select, leaf, closed_by, sql_parse_column_ref, literal_node, snoc,
  call_arguments, in_items, operator_node, connective_loop,
}

-- The two parsers that conditions call back.
pub record Statements : Type 0 where
  pub select_statement : Context → Parsed
  pub window_spec : Context → Parsed

module _ (st : Statements) where
  unfoldable pub sql_parse_parenthesized_select : Context → Parsed
  sql_parse_parenthesized_select ctx =
      and_then (st.select_statement (sql_advance ctx 1))
        (closed_by (str8_lit ")") ParseError.close_subquery)

  abbrev pub with_window : SqlNode → Context → Parsed
  with_window (sql kind name args) ctx =
      if keyword_at ctx (str8_lit "over")
      then and_then (st.window_spec (sql_advance ctx 1))
          (λ window rest. Parsed.parsed (sql kind name (snoc args window)) rest)
      else Parsed.parsed (sql kind name args) ctx

  unfoldable pub sql_parse_aggregate_call : Context → Text → Parsed
  sql_parse_aggregate_call ctx name =
      let call : SqlNode = leaf SqlNodeType.aggregate_call name in
      let inner : Context = sql_advance ctx 2 in
      let arguments : Parsed =
        if symbol_at inner (str8_lit ")")
        then Parsed.parsed call inner
        else call_arguments (suc (length inner)) call inner in
      and_then arguments
        (λ n rest. and_then (closed_by (str8_lit ")") ParseError.close_call n rest) with_window)

  abbrev pub as_subquery : SqlNode → Context → Parsed
  as_subquery select rest = Parsed.parsed (sql SqlNodeType.subquery [] (cons select nil)) rest

  unfoldable pub sql_parse_expression : Context → Parsed
  sql_parse_expression [] = Parsed.failed ParseError.end_of_input
  sql_parse_expression (t ∷ rest) =
      if sql_check_paren_select (t ∷ rest)
      then and_then (sql_parse_parenthesized_select (t ∷ rest)) as_subquery
      else if is_type t TokenType.identifier
      then (if is_type (sql_peek rest 0) TokenType.symbol
            && str8_match (sql_peek rest 0).value (str8_lit "(") match_exact
          then sql_parse_aggregate_call (t ∷ rest) t.value
          else sql_parse_column_ref (t ∷ rest))
      else if is_type t TokenType.number || is_type t TokenType.string
      then Parsed.parsed (literal_node t) rest
      else if is_type t TokenType.keyword
          && (str8_match t.value (str8_lit "true") match_any_case
              || str8_match t.value (str8_lit "false") match_any_case)
      then Parsed.parsed
          (leaf SqlNodeType.numeric (
            if str8_match t.value (str8_lit "true") match_any_case
            then str8_lit "1"
            else str8_lit "0"))
          rest
      else Parsed.failed ParseError.unexpected_token

  abbrev pub negated : Context → Text → Bool
  negated ctx name = keyword_at ctx (str8_lit "not") && second_is ctx name

  unfoldable pub exists_test : Bool → Context → Parsed
  exists_test negate ctx =
      if sql_check_paren_select ctx
      then and_then (sql_parse_parenthesized_select ctx) (λ select rest.
        Parsed.parsed
          (sql SqlNodeType.exists (if negate then str8_lit "not" else []) (cons select nil)) rest)
      else Parsed.failed ParseError.select_after_exists

  -- Behind the IS of a null test.
  unfoldable pub null_test : SqlNode → Context → Parsed
  null_test left ctx =
      let negate : Bool = keyword_at ctx (str8_lit "not") in
      let rest : Context = if negate then sql_advance ctx 1 else ctx in
      if keyword_at rest (str8_lit "null")
      then Parsed.parsed
          (sql SqlNodeType.operator (if negate then str8_lit "is not null" else str8_lit "is null")
            (cons left nil))
          (sql_advance rest 1)
      else Parsed.failed ParseError.null_after_is

  -- The right-hand side of IN.
  unfoldable pub in_right : Context → Parsed
  in_right ctx =
      let inner : Context = sql_advance ctx 1 in
      if sql_check_paren_select ctx
      then and_then (sql_parse_parenthesized_select ctx) as_subquery
      else if symbol_at ctx (str8_lit "(")
      then and_then (in_items (suc (length inner)) (leaf SqlNodeType.in_list []) inner)
          (closed_by (str8_lit ")") ParseError.close_in)
      else Parsed.failed ParseError.open_after_in

  unfoldable pub in_test : Bool → SqlNode → Context → Parsed
  in_test negate left ctx = and_then (in_right ctx) (λ right rest.
      Parsed.parsed (operator_node (if negate then str8_lit "not in" else str8_lit "in") left right)
        rest)

  unfoldable pub operator_test : SqlNode → Context → Parsed
  operator_test left ctx =
      let op : Token = sql_peek ctx 0 in
      if is_type op TokenType.operator || is_type op TokenType.keyword
      then and_then (sql_parse_expression (sql_advance ctx 1))
          (λ right rest. Parsed.parsed (operator_node op.value left right) rest)
      else Parsed.failed ParseError.comparison_operator

  -- What follows the left operand.
  unfoldable pub comparison_tail : SqlNode → Context → Parsed
  comparison_tail left ctx =
      if keyword_at ctx (str8_lit "is")
      then null_test left (sql_advance ctx 1)
      else if negated ctx (str8_lit "in")
      then in_test true left (sql_advance ctx 2)
      else if keyword_at ctx (str8_lit "in")
      then in_test false left (sql_advance ctx 1)
      else operator_test left ctx

  -- `group` parses the condition in parentheses.
  unfoldable pub sql_parse_comparison_expression : (Context → Parsed) → Context → Parsed
  sql_parse_comparison_expression group ctx =
      if negated ctx (str8_lit "exists")
      then exists_test true (sql_advance ctx 2)
      else if keyword_at ctx (str8_lit "exists")
      then exists_test false (sql_advance ctx 1)
      else if not (sql_check_paren_select ctx) && symbol_at ctx (str8_lit "(")
      then and_then (group (sql_advance ctx 1)) (closed_by (str8_lit ")") ParseError.close_group)
      else and_then (sql_parse_expression ctx) comparison_tail

  unfoldable pub sql_parse_and_expression : (Context → Parsed) → Context → Parsed
  sql_parse_and_expression group ctx =
      and_then (sql_parse_comparison_expression group ctx) (λ left rest.
        connective_loop (str8_lit "and") (sql_parse_comparison_expression group) (suc (length rest))
          left rest)

  -- The fuel bounds the depth of parentheses, each of which is a token.
  unfoldable pub sql_parse_logical_expression : ℕ → Context → Parsed
  sql_parse_logical_expression zero ctx = Parsed.exhausted
  sql_parse_logical_expression (suc fuel) ctx =
      let group : Context → Parsed = sql_parse_logical_expression fuel in
      and_then (sql_parse_and_expression group ctx) (λ left rest.
        connective_loop (str8_lit "or") (sql_parse_and_expression group) (suc (length rest)) left
          rest)

  unfoldable pub sql_parse_where_clause : Context → Parsed
  sql_parse_where_clause ctx =
      let inner : Context = sql_advance ctx 1 in
      if keyword_at ctx (str8_lit "where")
      then and_then (sql_parse_logical_expression (suc (length inner)) inner)
          (λ n rest. Parsed.parsed (sql SqlNodeType.where_clause [] (cons n nil)) rest)
      else Parsed.failed ParseError.where_keyword
