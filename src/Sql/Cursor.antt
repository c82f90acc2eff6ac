-- ===== src/Sql/Cursor.antt =====
-- src/ir_gen/sql_parser.c: the parse context, and the parsers that call back no statement. A context is
-- the list of the tokens from its position on.
use compute_ql.Shared.{
  ℕ, zero, suc, Bool, true, false, not, ◌&&◌, ◌||◌, List, [], ◌∷◌, ◌++◌, if◌then◌else◌, ◌==◌,
  length, drop, get_or,
}
use compute_ql.Text.{Text, str8_lit, str8_match, match_any_case}
use compute_ql.Sql.Tree.{SqlNodeType, SqlNode, SqlNodes, sql, nil, cons}
use compute_ql.Sql.Lex.{TokenType, Token, token}

abbrev pub token_tag : TokenType → ℕ
token_tag TokenType.keyword = 0
token_tag TokenType.identifier = 1
token_tag TokenType.operator = 2
token_tag TokenType.symbol = 3
token_tag TokenType.number = 4
token_tag TokenType.string = 5
token_tag TokenType.eof = 6

abbrev pub same_token_type : TokenType → TokenType → Bool
same_token_type a b = token_tag a == token_tag b

abbrev pub Context : Type 0
Context = List Token

-- Behind the last token stands one of type EOF. Its range is used for messages only.
abbrev pub end_token : Token
end_token = token TokenType.eof (str8_lit "<end of input>") 0 0

abbrev pub sql_peek : Context → ℕ → Token
sql_peek ctx lookahead = get_or ctx lookahead end_token

abbrev pub sql_advance : Context → ℕ → Context
sql_advance ctx n = drop n ctx

abbrev pub is_type : Token → TokenType → Bool
is_type t type = same_token_type t.type type

-- The messages of `sql_parse_error_at` in the parsers below.
pub data ParseError : Type 0 where
  select_after_exists close_group null_after_is open_after_in in_item close_in : ParseError
  comparison_operator end_of_input unexpected_token column_name close_subquery : ParseError
  close_call where_keyword elsewhere : ParseError

-- A node and the context behind it, the error, or the end of the fuel.
pub data Parsed : Type 0 where
  parsed : SqlNode → Context → Parsed
  failed : ParseError → Parsed
  exhausted : Parsed

abbrev pub and_then : Parsed → (SqlNode → Context → Parsed) → Parsed
and_then (Parsed.parsed n ctx) f = f n ctx
and_then (Parsed.failed e) f = Parsed.failed e
and_then Parsed.exhausted f = Parsed.exhausted

unfoldable pub sql_check : Context → TokenType → Text → Bool
sql_check ctx type value =
    is_type (sql_peek ctx 0) type
    && ((length value == 0) || str8_match (sql_peek ctx 0).value value match_any_case)

abbrev pub keyword_at : Context → Text → Bool
keyword_at ctx name = sql_check ctx TokenType.keyword name

abbrev pub symbol_at : Context → Text → Bool
symbol_at ctx name = sql_check ctx TokenType.symbol name

-- The keyword behind the next token.
abbrev pub second_is : Context → Text → Bool
second_is ctx name =
    is_type (sql_peek ctx 1) TokenType.keyword
    && str8_match (sql_peek ctx 1).value name match_any_case

unfoldable pub sql_check_paren_select : Context → Bool
sql_check_paren_select ctx = symbol_at ctx (str8_lit "(") && second_is ctx (str8_lit "select")

abbrev pub leaf : SqlNodeType → Text → SqlNode
leaf kind value = sql kind value nil

-- `sql_match` of the symbol that closes what was parsed.
abbrev pub closed_by : Text → ParseError → SqlNode → Context → Parsed
closed_by symbol error n ctx =
    if symbol_at ctx symbol then Parsed.parsed n (sql_advance ctx 1) else Parsed.failed error

unfoldable pub sql_parse_column_ref : Context → Parsed
sql_parse_column_ref ctx =
    let name : Text = (sql_peek ctx 0).value in
    let rest : Context = sql_advance ctx 1 in
    if not (sql_check ctx TokenType.identifier [])
    then Parsed.failed ParseError.column_name
    else if symbol_at rest (str8_lit ".") && is_type (sql_peek rest 1) TokenType.identifier
    then Parsed.parsed (leaf SqlNodeType.column (name ++ b'.' ∷ (sql_peek rest 1).value))
        (sql_advance rest 2)
    else Parsed.parsed (leaf SqlNodeType.column name) rest

abbrev pub literal_node : Token → SqlNode
literal_node t =
    leaf (if is_type t TokenType.number then SqlNodeType.numeric else SqlNodeType.literal) t.value

abbrev pub snoc : SqlNodes → SqlNode → SqlNodes
snoc nil n = cons n nil
snoc (cons m ms) n = cons m (snoc ms n)

-- One argument of a call.
unfoldable pub call_argument : Context → Parsed
call_argument ctx =
    if symbol_at ctx (str8_lit "*")
    then Parsed.parsed (leaf SqlNodeType.column (str8_lit "*")) (sql_advance ctx 1)
    else if sql_check ctx TokenType.number [] || sql_check ctx TokenType.string []
    then Parsed.parsed (literal_node (sql_peek ctx 0)) (sql_advance ctx 1)
    else sql_parse_column_ref ctx

-- The loop over the arguments; the node gathers them. Each takes a token, so the tokens left are
-- enough fuel.
unfoldable pub call_arguments : ℕ → SqlNode → Context → Parsed
call_arguments zero call ctx = Parsed.exhausted
call_arguments (suc fuel) (sql kind name args) ctx = and_then (call_argument ctx) (λ arg rest.
    elim (symbol_at rest (str8_lit ",")) [
      | true ↦ call_arguments fuel (sql kind name (snoc args arg)) (sql_advance rest 1)
      | false ↦ Parsed.parsed (sql kind name (snoc args arg)) rest
    ])

-- The items of an IN list, as the loop over them.
unfoldable pub in_items : ℕ → SqlNode → Context → Parsed
in_items zero items ctx = Parsed.exhausted
in_items (suc fuel) (sql kind name items) ctx =
    let item : SqlNode = literal_node (sql_peek ctx 0) in
    elim (is_type (sql_peek ctx 0) TokenType.number || is_type (sql_peek ctx 0) TokenType.string) [
      | false ↦ Parsed.failed ParseError.in_item
      | true ↦ elim (symbol_at (sql_advance ctx 1) (str8_lit ",")) [
        | true ↦ in_items fuel (sql kind name (snoc items item)) (sql_advance ctx 2)
        | false ↦ Parsed.parsed (sql kind name (snoc items item)) (sql_advance ctx 1)
      ]
    ]

abbrev pub operator_node : Text → SqlNode → SqlNode → SqlNode
operator_node value left right = sql SqlNodeType.operator value (cons left (cons right nil))

-- The loops over AND and over OR: `next` parses an operand. Each round takes a token.
unfoldable pub connective_loop : Text → (Context → Parsed) → ℕ → SqlNode → Context → Parsed
connective_loop name next zero left ctx = Parsed.exhausted
connective_loop name next (suc fuel) left ctx = elim (keyword_at ctx name) [
  | true ↦ and_then (next (sql_advance ctx 1)) (λ right rest.
      connective_loop name next fuel (operator_node (sql_peek ctx 0).value left right) rest)
  | false ↦ Parsed.parsed left ctx
]
