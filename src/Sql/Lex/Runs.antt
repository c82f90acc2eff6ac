-- ===== src/Sql/Lex/Runs.antt =====
-- src/ir_gen/sql_parser.c, `sql_tokenize_from_text`: the runs of the inner loops stay inside the
-- text, and where they move on.
use compute_ql.Shared.{
  ℕ, suc, ◌≤◌, ◌<◌, ◌≡◌, ◌⊎◌, refl, Bool, true, false, [], ◌∷◌, Option, none, some, take, drop,
  length, arith, inl,
}
use compute_ql.Text.{Text, char_is_space, char_is_digit, char_is_alpha}
use compute_ql.Sql.Lex.{
  space_run, number_run, word_run, operator_run, ends_operator, scan_string, unescape, is_digit,
}

pub space_run-le : (s : Text) → space_run s ≤ length s
unfolding space_run
space_run-le [] = omega arith
space_run-le (c ∷ s) = ground (arith, space_run-le s)

abbrev pub head_is_space : Text → Bool
head_is_space [] = false
head_is_space (c ∷ s) = char_is_space c

pub space_run-stops : (s : Text) → head_is_space (drop (space_run s) s) ≡ false
unfolding space_run
space_run-stops [] = refl
space_run-stops (d ∷ s) = ground (arith, space_run-stops s)

module _ (past : ℕ → ℕ) where
  pub word_run-le : (s : Text) → word_run past s ≤ length s
  unfolding word_run
  word_run-le [] = omega arith
  word_run-le (c ∷ s) = ground (arith, word_run-le s)

  pub operator_run-le : (s : Text) → operator_run past s ≤ length s
  unfolding operator_run
  operator_run-le [] = omega arith
  operator_run-le (c ∷ s) = ground (arith, operator_run-le s)

  pub number_run-le : (dot : Bool) (s : Text) → number_run past dot s ≤ length s
  unfolding number_run
  number_run-le dot [] = omega arith
  number_run-le dot (c ∷ s) = ground (arith, number_run-le true s, number_run-le dot s)

  pub word_run-moves : (c : ℕ) (s : Text) → char_is_alpha c ≡ true → 0 < word_run past (c ∷ s)
  unfolding word_run
  word_run-moves c s h = ground arith

  pub number_run-moves :
      (c : ℕ) (s : Text) → is_digit past c ≡ true → 0 < number_run past false (c ∷ s)
  unfolding number_run char_is_digit compute_ql.Text.integer_symbol_reverse
  number_run-moves c s h = ground arith

  pub operator_run-moves :
      (c : ℕ) (s : Text) → ends_operator past c ≡ false → 0 < operator_run past (c ∷ s)
  unfolding operator_run
  operator_run-moves c s h = ground arith

-- One more than the offset of the terminator, 0 without one.
abbrev pub scanned : Option (ℕ × Bool) → ℕ
scanned none = 0
scanned (some (n, e)) = suc n

pub scanned-le : (s : Text) (escape : Bool) → scanned (scan_string s escape) ≤ length s
unfolding scan_string
scanned-le [] escape = omega arith
scanned-le (c ∷ []) escape = ground arith
scanned-le (c ∷ (d ∷ s)) escape = ground (arith, scanned-le s true, scanned-le (d ∷ s) escape)

abbrev pub found_escape : Option (ℕ × Bool) → Bool
found_escape none = false
found_escape (some (n, e)) = e

-- The inside of a string, with its escapes.
abbrev pub inside : Text → Option (ℕ × Bool) → Text
inside s none = []
inside s (some (n, e)) = take n s

escape_stays :
    (s : Text) → (scanned (scan_string s true) ≡ 0) ⊎ (found_escape (scan_string s true) ≡ true)
unfolding scan_string
escape_stays [] = inl refl
escape_stays (c ∷ []) = ground arith
escape_stays (c ∷ (d ∷ s)) = ground (arith, escape_stays s, escape_stays (d ∷ s))

-- A string without escapes is its own copy.
pub unescape-inside :
    (s : Text) (escape : Bool)
    → found_escape (scan_string s escape) ≡ false
    → unescape false (inside s (scan_string s escape)) ≡ inside s (scan_string s escape)
unfolding scan_string unescape
unescape-inside [] escape h = refl
unescape-inside (c ∷ []) escape h = ground arith
unescape-inside (c ∷ (d ∷ s)) escape h =
    ground (arith, unescape-inside s true, unescape-inside (d ∷ s) escape, escape_stays s)
