-- ===== src/Sql/Lex.antt =====
-- src/ir_gen/sql_parser.c, `sql_tokenize_from_text`: SQL text to tokens. A position indexes the
-- text as in the source; a run is measured on the bytes from the position on.
pub mod Runs
pub mod Ranges
pub mod Whole
pub mod Literals
pub mod Strings
use compute_ql.Shared.{
  length, ℕ, zero, suc, ◌+◌, Bool, true, false, ◌&&◌, ◌||◌, not, List, [], ◌∷◌, Option, none, some,
  ◌==◌, if◌then◌else◌, drop,
}
use compute_ql.Text.{Text, char_is_digit, char_is_space, char_is_alpha, str8_substr}
use compute_ql.Sql.Words.{sql_is_string_keyword, sql_is_string_operator, sql_is_string_symbol}

pub data TokenType : Type 0 where
  keyword identifier operator symbol number string eof : TokenType

pub record Token : Type 0 where
  pub type : TokenType
  pub value : Text
  pub range_min : ℕ
  pub range_max : ℕ

-- The tokens, and whether an unterminated string was logged.
pub record TokenizeResult : Type 0 where
  pub tokens : List Token
  pub unterminated : Bool

abbrev pub quote : ℕ
quote = 0x27

-- The scan for the terminator of a string, from the byte after its opening quote: the offset of the
-- terminator and `has_escape`.
unfoldable pub scan_string : Text → Bool → Option (ℕ × Bool)
scan_string [] escape = none
scan_string (c ∷ []) escape = if c == quote then some (0, escape) else none
scan_string (c ∷ (d ∷ s)) escape = elim (c == quote) [
  | true ↦ elim (d == quote) [
    | true ↦ elim (scan_string s true) [ none ↦ none | some (n, e) ↦ some (suc (suc n), e) ]
    | false ↦ some (0, escape)
  ]
  | false ↦ elim (scan_string (d ∷ s) escape) [ none ↦ none | some (n, e) ↦ some (suc n, e) ]
]

-- The copy of a string with escapes: `skip` says that the byte before was a quote.
unfoldable pub unescape : Bool → Text → Text
unescape skip [] = []
unescape true (c ∷ s) = unescape false s
unescape false (c ∷ s) = c ∷ unescape (c == quote) s

-- What one round of the main loop does: it ends, logs the error, emits a token or only moves on.
pub data Step : Type 0 where
  finished : Step
  failed : Step
  emit : Token → ℕ → Step
  skip : ℕ → Step

unfoldable pub space_run : Text → ℕ
space_run [] = 0
space_run (c ∷ s) = let n : ℕ = space_run s in if char_is_space c then suc n else 0

abbrev pub token : TokenType → Text → ℕ → ℕ → Token
token t v a b = record { type = t; value = v; range_min = a; range_max = b }

-- The string branch, given the scan that starts behind the opening quote at `pos`.
unfoldable pub string_step : Text → ℕ → Option (ℕ × Bool) → Step
string_step text pos none = failed
string_step text pos (some (n, escape)) =
    let inside : Text = str8_substr text (suc pos) (suc pos + n) in
    emit
      (token TokenType.string (if escape then unescape false inside else inside) pos
        (suc pos + n + 1))
      (suc pos + n + 1)

abbrev pub after_space : Text → ℕ → ℕ
after_space text pos = pos + space_run (drop pos text)

abbrev pub push_token : Token → Option TokenizeResult → Option TokenizeResult
push_token t none = none
push_token t (some r) = some (record r { tokens = t ∷ r.tokens })

module _ (past : ℕ → ℕ) where
  abbrev pub is_digit : ℕ → Bool
  is_digit c = char_is_digit past c 10

  abbrev pub starts_with_digit : Text → Bool
  starts_with_digit [] = false
  starts_with_digit (c ∷ s) = is_digit c

  unfoldable pub number_run : Bool → Text → ℕ
  number_run has_dot [] = 0
  number_run has_dot (c ∷ s) = elim (is_digit c || (not has_dot && (c == b'.'))) [
    | true ↦ elim (c == b'.') [
      | true ↦ elim (starts_with_digit s) [ true ↦ suc (number_run true s) | false ↦ 0 ]
      | false ↦ suc (number_run has_dot s)
    ]
    | false ↦ 0
  ]

  unfoldable pub word_run : Text → ℕ
  word_run [] = 0
  word_run (c ∷ s) =
      let n : ℕ = word_run s in if (is_digit c || char_is_alpha c) || (c == b'_') then suc n else 0

  -- The bytes that end an operator.
  unfoldable pub ends_operator : ℕ → Bool
  ends_operator c =
      char_is_space c || char_is_alpha c || is_digit c || sql_is_string_symbol (c ∷ [])

  unfoldable pub operator_run : Text → ℕ
  unfolding ends_operator
  operator_run [] = 0
  operator_run (c ∷ s) = let n : ℕ = operator_run s in if ends_operator c then 0 else suc n

  -- Where a number ends that starts at `pos` with the byte `c`.
  unfoldable pub number_last : ℕ → ℕ → Text → ℕ
  number_last pos c s =
      if c == b'-' then suc pos + number_run false s else pos + number_run false (c ∷ s)

  unfoldable pub number_step : Text → ℕ → ℕ → Text → Step
  number_step text pos c s =
      let last : ℕ = number_last pos c s in
      emit (token TokenType.number (str8_substr text pos last) pos last) last

  unfoldable pub word_step : Text → ℕ → Text → Step
  word_step text pos rest =
      let last : ℕ = pos + word_run rest in
      let value : Text = str8_substr text pos last in
      emit
        (token (if sql_is_string_keyword value then TokenType.keyword else TokenType.identifier)
          value pos last)
        last

  unfoldable pub symbol_step : Text → ℕ → Step
  symbol_step text pos =
      emit (token TokenType.symbol (str8_substr text pos (suc pos)) pos (suc pos)) (suc pos)

  unfoldable pub operator_step : Text → ℕ → Text → Step
  operator_step text pos rest =
      let last : ℕ = pos + operator_run rest in
      let value : Text = str8_substr text pos last in
      if sql_is_string_operator value
      then emit (token TokenType.operator value pos last) last
      else skip last

  -- The branches on the byte at `pos`; `rest` is the text from there on.
  unfoldable pub branch_step : Text → ℕ → Text → Step
  branch_step text pos [] = finished
  branch_step text pos (c ∷ s) =
      if c == quote
      then string_step text pos (scan_string s false)
      else if is_digit c || ((c == b'-') && starts_with_digit s)
      then number_step text pos c s
      else if char_is_alpha c
      then word_step text pos (c ∷ s)
      else if sql_is_string_symbol (c ∷ [])
      then symbol_step text pos
      else operator_step text pos (c ∷ s)

  unfoldable pub lex_step : Text → ℕ → Step
  unfolding branch_step
  lex_step text pos = branch_step text (after_space text pos) (drop (after_space text pos) text)

  -- The main loop; `none` is an exhausted fuel.
  unfoldable pub tokenize_loop : ℕ → Text → ℕ → Option TokenizeResult
  tokenize_loop zero text pos = none
  tokenize_loop (suc fuel) text pos = elim (lex_step text pos) [
    | finished ↦ some (record { tokens = []; unterminated = false })
    | failed ↦ some (record { tokens = []; unterminated = true })
    | emit t next ↦ push_token t (tokenize_loop fuel text next)
    | skip next ↦ tokenize_loop fuel text next
  ]

  -- Every round moves on by a byte at least.
  unfoldable pub sql_tokenize_from_text : Text → Option TokenizeResult
  sql_tokenize_from_text text = tokenize_loop (suc (length text)) text 0
