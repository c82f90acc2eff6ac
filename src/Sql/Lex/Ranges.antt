-- ===== src/Sql/Lex/Ranges.antt =====
-- src/ir_gen/sql_parser.c, `sql_tokenize_from_text`: where the
-- tokens stand that one round makes.
use compute_ql.Shared.{
  ℕ, zero, suc, ◌+◌, ◌-◌, ◌≤◌, ◌<◌, ◌≡◌, refl, sym, ◌&&◌, ◌||◌, Bool, true, false, [], ◌∷◌, Option,
  none, some, ◌==◌, take, drop, length, arith, Bool-cases, inl, inr, List, if◌then◌else◌,
}
use compute_ql.Text.{Text, char_is_space, char_is_alpha, str8_substr}
use compute_ql.Sql.Words.{sql_is_string_symbol, sql_is_string_operator}
use compute_ql.Sql.Lex.{
  TokenType, Token, Step, quote, scan_string, unescape, string_step, number_step, word_step,
  symbol_step, operator_step, branch_step, is_digit, starts_with_digit, ends_operator, operator_run,
  word_run, number_last,
}
use compute_ql.Sql.Lex.Runs.{
  head_is_space, word_run-le, operator_run-le, number_run-le, word_run-moves, number_run-moves,
  operator_run-moves, scanned, scanned-le, inside, found_escape, unescape-inside,
}

-- The text that a token stands for: its range, and between the quotes of a string the text with
-- each doubled quote read as one.
abbrev pub spelled : Text → Token → Text
spelled text t = elim t.type [
  | TokenType.string ↦ unescape false (str8_substr text (suc t.range_min) (t.range_max - 1))
  | _ ↦ str8_substr text t.range_min t.range_max
]

-- `t` stands in the text at `pos` or after, has a byte at least and the value of its range.
abbrev pub StandsFrom : Text → ℕ → Token → Type 0
StandsFrom text pos t =
    (pos ≤ t.range_min)
    × (t.range_min < t.range_max)
    × (t.range_max ≤ length text)
    × (t.value ≡ spelled text t)

-- The tokens stand in order and apart.
abbrev pub StandInOrder : Text → ℕ → List Token → Type 0
StandInOrder text pos [] = Unit
StandInOrder text pos (t ∷ ts) = StandsFrom text pos t × StandInOrder text t.range_max ts

-- What a round that goes on has done.
abbrev pub Advances : Text → ℕ → Step → Type 0
Advances text pos Step.finished = Unit
Advances text pos Step.failed = Unit
Advances text pos (Step.emit t next) = StandsFrom text pos t × (t.range_max ≡ next)
Advances text pos (Step.skip next) = (pos < next) × (next ≤ length text)

back_one : (n : ℕ) → n + 1 - 1 ≡ n
back_one n = omega arith

apart : (m n : ℕ) → m + n - m ≡ n
apart m n = omega arith

string_value :
    (text : Text) (pos : ℕ) (s : Text) (n : ℕ) (escape : Bool)
    → drop (suc pos) text ≡ s
    → (escape ≡ false → unescape false (take n s) ≡ take n s)
    → (if escape
        then unescape false (str8_substr text (suc pos) (suc pos + n))
        else str8_substr text (suc pos) (suc pos + n))
      ≡ unescape false (str8_substr text (suc pos) (suc pos + n + 1 - 1))
unfolding str8_substr
string_value text pos s n true d u = rw (back_one (suc pos + n)) refl
string_value text pos s n false d u =
    rw (back_one (suc pos + n), d, apart (suc pos) n) (sym (u refl))

string_step-Advances :
    (text : Text) (pos : ℕ) (s : Text) (o : Option (ℕ × Bool))
    → drop (suc pos) text ≡ s
    → scanned o ≤ length s
    → (found_escape o ≡ false → unescape false (inside s o) ≡ inside s o)
    → length s + suc pos ≤ length text
    → Advances text pos (string_step text pos o)
unfolding string_step str8_substr
string_step-Advances text pos s none d l u h = tt
string_step-Advances text pos s (some (n, escape)) d l u h =
    ((omega arith, omega arith, omega arith, string_value text pos s n escape d u), refl)

module _ (past : ℕ → ℕ) where
  word_step-Advances :
      (text : Text) (pos c : ℕ) (s : Text)
      → char_is_alpha c ≡ true
      → length (c ∷ s) + pos ≤ length text
      → Advances text pos (word_step past text pos (c ∷ s))
  unfolding word_step
  word_step-Advances text pos c s h l =
      elim (Bool-cases (
        compute_ql.Sql.Words.sql_is_string_keyword
          (str8_substr text pos (pos + word_run past (c ∷ s))))) [
            | inl e ↦ rw e (
              (
                omega arith,
                omega (arith, word_run-moves past c s h),
                omega (arith, word_run-le past (c ∷ s)),
                refl,
              ),
              refl,
            )
            | inr e ↦ rw e (
              (
                omega arith,
                omega (arith, word_run-moves past c s h),
                omega (arith, word_run-le past (c ∷ s)),
                refl,
              ),
              refl,
            )
          ]

  symbol_step-Advances :
      (text : Text) (pos : ℕ) → pos < length text → Advances text pos (symbol_step past text pos)
  unfolding symbol_step
  symbol_step-Advances text pos h = ((omega arith, omega arith, omega arith, refl), refl)

  operator_step-Advances :
      (text : Text) (pos c : ℕ) (s : Text)
      → ends_operator past c ≡ false
      → length (c ∷ s) + pos ≤ length text
      → Advances text pos (operator_step past text pos (c ∷ s))
  unfolding operator_step
  operator_step-Advances text pos c s h l =
      elim (Bool-cases
        (sql_is_string_operator (str8_substr text pos (pos + operator_run past (c ∷ s))))) [
          | inl e ↦ rw e (
            (
              omega arith,
              omega (arith, operator_run-moves past c s h),
              omega (arith, operator_run-le past (c ∷ s)),
              refl,
            ),
            refl,
          )
          | inr e ↦ rw e (
            omega (arith, operator_run-moves past c s h),
            omega (arith, operator_run-le past (c ∷ s)),
          )
        ]

  not_an_end :
      (c : ℕ)
      → char_is_space c ≡ false
      → char_is_alpha c ≡ false
      → is_digit past c ≡ false
      → sql_is_string_symbol (c ∷ []) ≡ false
      → ends_operator past c ≡ false
  unfolding ends_operator
  not_an_end c p q r s = rw (p, q, r, s) refl

  number_last-lt :
      (pos c : ℕ) (s : Text)
      → (is_digit past c || ((c == b'-') && starts_with_digit past s)) ≡ true
      → pos < number_last past pos c s
  unfolding number_last
  number_last-lt pos c s h = ground (arith, number_run-moves past c s)

  number_last-le : (pos c : ℕ) (s : Text) → number_last past pos c s ≤ length (c ∷ s) + pos
  unfolding number_last
  number_last-le pos c s =
      ground (arith, number_run-le past false s, number_run-le past false (c ∷ s))

  number_step-Advances :
      (text : Text) (pos c : ℕ) (s : Text)
      → (is_digit past c || ((c == b'-') && starts_with_digit past s)) ≡ true
      → length (c ∷ s) + pos ≤ length text
      → Advances text pos (number_step past text pos c s)
  unfolding number_step
  number_step-Advances text pos c s h l =
      ((omega arith, number_last-lt pos c s h, omega (arith, number_last-le pos c s), refl), refl)

  tail_of : (text : Text) (pos c : ℕ) (s : Text) → drop pos text ≡ c ∷ s → drop (suc pos) text ≡ s
  tail_of [] zero c s d = cc
  tail_of [] (suc pos) c s d = cc
  tail_of (x ∷ text) zero c s d = cc
  tail_of (x ∷ text) (suc pos) c s d = tail_of text pos c s d

  operator_branch :
      (text : Text) (pos c : ℕ) (s : Text)
      → char_is_space c ≡ false
      → (is_digit past c || ((c == b'-') && starts_with_digit past s)) ≡ false
      → char_is_alpha c ≡ false
      → sql_is_string_symbol (c ∷ []) ≡ false
      → length (c ∷ s) + pos ≤ length text
      → Advances text pos (operator_step past text pos (c ∷ s))
  operator_branch text pos c s space digit alpha symbol = operator_step-Advances text pos c s (
      not_an_end c space alpha
        (first_of (is_digit past c) ((c == b'-') && starts_with_digit past s) digit) symbol)
    where
      first_of : (b d : Bool) → (b || d) ≡ false → b ≡ false
      first_of true d h = h
      first_of false d h = refl

  pub branch_step-Advances :
      (text : Text) (pos : ℕ) (rest : Text)
      → drop pos text ≡ rest
      → head_is_space rest ≡ false
      → length rest + pos ≤ length text
      → Advances text pos (branch_step past text pos rest)
  unfolding branch_step
  branch_step-Advances text pos [] d n l = tt
  branch_step-Advances text pos (c ∷ s) d n l = elim (Bool-cases (c == quote)) [
    | inl e ↦ rw e (
        string_step-Advances text pos s (scan_string s false) (tail_of text pos c s d)
          (scanned-le s false) (unescape-inside s false) (omega arith))
    | inr e ↦
        rw e (elim (Bool-cases (is_digit past c || ((c == b'-') && starts_with_digit past s))) [
          | inl h ↦ rw h (number_step-Advances text pos c s h l)
          | inr h ↦ rw h (elim (Bool-cases (char_is_alpha c)) [
            | inl a ↦ rw a (word_step-Advances text pos c s a l)
            | inr a ↦ rw a (elim (Bool-cases (sql_is_string_symbol (c ∷ []))) [
              | inl b ↦ rw b (symbol_step-Advances text pos (omega arith))
              | inr b ↦ rw b (operator_branch text pos c s n h a b l)
            ])
          ])
        ])
  ]
