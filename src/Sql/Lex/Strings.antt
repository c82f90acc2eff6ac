-- ===== src/Sql/Lex/Strings.antt =====
-- src/ir_gen/sql_parser.c, `sql_tokenize_from_text`: string literals, and operators before them.
use compute_ql.Shared.{
  ℕ, suc, ◌+◌, ◌-◌, ◌≡◌, ◌≢◌, ◌||◌, ◌&&◌, refl, ap, ◌∙◌, Bool, true, false, [], ◌∷◌, ◌++◌, some,
  take, length, arith, sym, All, drop_front, ◌==◌, drop_all,
}
use compute_ql.Text.{
  Text, str8_substr, char_is_space, char_is_digit, char_is_alpha, integer_symbol_reverse,
}
use compute_ql.Sql.Words.{
  sql_is_string_symbol, sql_is_string_operator, g_sql_operators, matches_some,
}
use compute_ql.Sql.Lex.{
  TokenType, Token, Step, space_run, branch_step, lex_step, tokenize_loop, push_token,
  sql_tokenize_from_text, quote, scan_string, string_step, token, ends_operator, operator_run,
  operator_step, starts_with_digit,
}
use compute_ql.Sql.Lex.Literals.{escape, scan_escaped, scan_unclosed, written, literal_step}

module _ (past : ℕ → ℕ) where
  quote_step :
      (s : Text) → lex_step past (quote ∷ s) 0 ≡ string_step (quote ∷ s) 0 (scan_string s false)
  unfolding lex_step space_run char_is_space branch_step
  quote_step s = refl

  loop_emit :
      (fuel : ℕ) (text : Text) (pos : ℕ) {t : Token} {next : ℕ}
      → lex_step past text pos ≡ Step.emit t next
      → tokenize_loop past (suc fuel) text pos ≡ push_token t (tokenize_loop past fuel text next)
  unfolding tokenize_loop
  loop_emit fuel text pos e = rw (tokenize_loop, e) refl

  loop_failed :
      (fuel : ℕ) (text : Text) (pos : ℕ)
      → lex_step past text pos ≡ Step.failed
      → tokenize_loop past (suc fuel) text pos ≡ some (record { tokens = []; unterminated = true })
  unfolding tokenize_loop
  loop_failed fuel text pos e = rw (tokenize_loop, e) refl

  lex_step-end : (text : Text) → lex_step past text (length text) ≡ Step.finished
  unfolding lex_step space_run branch_step
  lex_step-end text =
      rw
        (
          drop_all (length text) text (omega arith),
          plus_zero (length text),
          drop_all (length text) text (omega arith),
        )
        refl
    where
      plus_zero : (n : ℕ) → n + 0 ≡ n
      plus_zero n = omega arith

  loop_end :
      (fuel : ℕ) (text : Text)
      → tokenize_loop past (suc fuel) text (length text)
        ≡ some (record { tokens = []; unterminated = false })
  unfolding tokenize_loop
  loop_end fuel text = rw (tokenize_loop, lex_step-end text) refl

  -- A written text, its quotes doubled and quotes put around it, is tokenized to the one string
  -- token of that text, over the whole range.
  pub tokenize-written :
      (t : Text)
      → sql_tokenize_from_text past (written t)
        ≡ some (record {
          tokens = token TokenType.string t 0 (length (written t)) ∷ [];
          unterminated = false;
        })
  unfolding sql_tokenize_from_text
  tokenize-written t =
      let scan = ap (string_step (written t) 0) (scan_escaped t [] false refl) in
      let first = quote_step (escape t ++ quote ∷ []) ∙ scan ∙ literal_step t in
      loop_emit (length (written t)) (written t) 0 first
      ∙ ap (push_token (token TokenType.string t 0 (length (written t))))
          (loop_end (length (escape t ++ quote ∷ [])) (written t))

  -- Without the closing quote there is no token and the error is logged.
  pub tokenize-unclosed :
      (t : Text)
      → sql_tokenize_from_text past (quote ∷ escape t)
        ≡ some (record { tokens = []; unterminated = true })
  unfolding sql_tokenize_from_text string_step
  tokenize-unclosed t =
      loop_failed (suc (length (escape t))) (quote ∷ escape t) 0
        (quote_step (escape t) ∙ ap (string_step (quote ∷ escape t) 0) (scan_unclosed t false))

  none_of :
      (a b c d : Bool)
      → (a || b || c || d) ≡ false
      → (a ≡ false) × (b ≡ false) × (c ≡ false) × (d ≡ false)
  none_of a b c d h = ground arith

  -- No operator of the table holds a quote.
  not_operator : (c : ℕ) (o t : Text) → sql_is_string_operator (c ∷ (o ++ (quote ∷ t))) ≡ false
  unfolding sql_is_string_operator matches_some g_sql_operators compute_ql.Text.str8_match
      compute_ql.Text.match_loop compute_ql.Text.adjust_char compute_ql.Text.char_to_upper
      compute_ql.Text.char_is_lower
  not_operator c [] [] = ground arith
  not_operator c [] (d ∷ t) = ground arith
  not_operator c (d ∷ []) t = ground arith
  not_operator c (d ∷ (e ∷ o)) t = ground arith

  quote_not_digit : char_is_digit past quote 10 ≡ false
  unfolding char_is_digit integer_symbol_reverse
  quote_not_digit = refl

  quote_goes_on : ends_operator past quote ≡ false
  unfolding ends_operator char_is_space char_is_alpha compute_ql.Text.char_is_upper
      compute_ql.Text.char_is_lower sql_is_string_symbol matches_some
      compute_ql.Sql.Words.g_sql_symbols compute_ql.Text.str8_match compute_ql.Text.match_loop
      compute_ql.Text.adjust_char compute_ql.Text.char_to_upper
  quote_goes_on = rw quote_not_digit refl

  not_equal : (c : ℕ) → c ≢ quote → (c == quote) ≡ false
  not_equal c n = ground arith

  and_false : (b : Bool) → (b && false) ≡ false
  and_false b = ground arith

  -- Bytes that do not end an operator.
  abbrev pub GoesOn : ℕ → Type 0
  GoesOn c = ends_operator past c ≡ false

  suc_more : (m n : ℕ) → suc (m + n) ≡ suc m + n
  suc_more m n = omega arith

  run_over :
      (o s : Text)
      → All GoesOn o
      → operator_run past (o ++ (quote ∷ s)) ≡ length o + suc (operator_run past s)
  unfolding operator_run
  run_over [] s h = rw quote_goes_on (omega arith)
  run_over (c ∷ o) s (h, hs) =
      rw (h, run_over o s hs) (suc_more (length o) (suc (operator_run past s)))

  digit_first : (o s : Text) → All GoesOn o → starts_with_digit past (o ++ (quote ∷ s)) ≡ false
  unfolding ends_operator
  digit_first [] s h = quote_not_digit
  digit_first (c ∷ o) s (h, hs) =
      let (space, alpha, digit, symbol) =
        none_of (char_is_space c) (char_is_alpha c) (char_is_digit past c 10)
          (sql_is_string_symbol (c ∷ [])) h in
      digit

  take_more : (xs ys : Text) (k : ℕ) → take (length xs + k) (xs ++ ys) ≡ xs ++ take k ys
  take_more [] ys k = ap (λ j. take j ys) (zero_more k)
    where
      zero_more : (n : ℕ) → 0 + n ≡ n
      zero_more n = omega arith
  take_more (x ∷ xs) ys k =
      ap (λ j. take j (x ∷ (xs ++ ys))) (sym (suc_more (length xs) k))
      ∙ ap (λ zs. x ∷ zs) (take_more xs ys k)

  span : (a b : ℕ) → a + b - a ≡ b
  span a b = omega arith

  -- The bytes before, the operator and what the quote begins.
  abbrev before_quote : Text → ℕ → Text → Text → Text
  before_quote before c o s = before ++ (c ∷ (o ++ (quote ∷ s)))

  substr_over :
      (before : Text) (c : ℕ) (o s : Text) (n : ℕ)
      → str8_substr
          (before_quote before c o s)
          (length before)
          (length before + (length (c ∷ o) + suc n))
        ≡ c ∷ (o ++ (quote ∷ take n s))
  unfolding str8_substr
  substr_over before c o s n =
      rw (span (length before) (length (c ∷ o) + suc n), drop_front before (c ∷ (o ++ (quote ∷ s))))
        (take_more (c ∷ o) (quote ∷ s) (suc n))

  operator_lost :
      (before : Text) (c : ℕ) (o s : Text)
      → All GoesOn (c ∷ o)
      → operator_step past (before_quote before c o s) (length before) (c ∷ (o ++ (quote ∷ s)))
        ≡ Step.skip (length before + (length (c ∷ o) + suc (operator_run past s)))
  unfolding operator_step
  operator_lost before c o s h =
      rw
        (
          run_over (c ∷ o) s h,
          substr_over before c o s (operator_run past s),
          not_operator c o (take (operator_run past s) s),
        )
        refl

  stays : (n : ℕ) → n + 0 ≡ n
  stays n = omega arith

  -- Anywhere in a text, bytes that begin an operator and go on to a quote without a space are passed
  -- over by one round, without a token or an error, and the quote with them: no operator of one, two
  -- or more bytes is read before a string literal that follows at once, and the literal is not opened.
  pub operator_before_quote :
      (before : Text) (c : ℕ) (o s : Text)
      → All GoesOn (c ∷ o)
      → c ≢ quote
      → lex_step past (before ++ (c ∷ (o ++ (quote ∷ s)))) (length before)
        ≡ Step.skip (length before + (length (c ∷ o) + suc (operator_run past s)))
  unfolding lex_step space_run branch_step ends_operator
  operator_before_quote before c o s (h, hs) n =
      let (space, alpha, digit, symbol) =
        none_of (char_is_space c) (char_is_alpha c) (char_is_digit past c 10)
          (sql_is_string_symbol (c ∷ [])) h in
      rw
        (
          lex_step,
          drop_front before (c ∷ (o ++ (quote ∷ s))),
          space,
          stays (length before),
          drop_front before (c ∷ (o ++ (quote ∷ s))),
          not_equal c n,
          digit,
          digit_first o s hs,
          and_false (c == b'-'),
          alpha,
          symbol,
        )
        (operator_lost before c o s (h, hs))
