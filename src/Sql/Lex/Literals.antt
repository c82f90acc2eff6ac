-- ===== src/Sql/Lex/Literals.antt =====
-- src/ir_gen/sql_parser.c, `sql_tokenize_from_text`: how a string literal is written and read.
use compute_ql.Shared.{
  ℕ, suc, ◌+◌, ◌-◌, ◌≡◌, refl, Bool, true, false, [], ◌∷◌, ◌++◌, Option, none, some, length, arith,
  length-append, ◌==◌, if◌then◌else◌, Bool-cases, inl, inr, take_front,
}
use compute_ql.Text.{Text, str8_substr}
use compute_ql.Sql.Lex.{TokenType, Step, quote, scan_string, unescape, string_step, token}

-- How a text is written in a literal: each quote twice.
unfoldable pub escape : Text → Text
escape [] = []
escape (c ∷ s) = if c == quote then quote ∷ (quote ∷ escape s) else c ∷ escape s

unfoldable pub has_quote : Bool → Text → Bool
has_quote seen [] = seen
has_quote seen (c ∷ s) = if c == quote then has_quote true s else has_quote seen s

abbrev shift : ℕ → Option (ℕ × Bool) → Option (ℕ × Bool)
shift k none = none
shift k (some (n, e)) = some (k + n, e)

abbrev head_is_quote : Text → Bool
head_is_quote [] = false
head_is_quote (c ∷ s) = c == quote

scan_other :
    (c : ℕ) (s : Text) (e : Bool)
    → (c == quote) ≡ false
    → scan_string (c ∷ s) e ≡ shift 1 (scan_string s e)
unfolding scan_string
scan_other c [] e h = ground arith
scan_other c (d ∷ s) e h = ground arith

scan_pair :
    (s : Text) (e : Bool) → scan_string (quote ∷ (quote ∷ s)) e ≡ shift 2 (scan_string s true)
unfolding scan_string
scan_pair s e = ground arith

scan_end : (s : Text) (e : Bool) → head_is_quote s ≡ false → scan_string (quote ∷ s) e ≡ some (0, e)
unfolding scan_string
scan_end [] e h = refl
scan_end (d ∷ s) e h = ground arith

-- The scan of a written text ends at its closing quote.
pub scan_escaped :
    (t s : Text) (e : Bool)
    → head_is_quote s ≡ false
    → scan_string (escape t ++ quote ∷ s) e ≡ some (length (escape t), has_quote e t)
unfolding escape has_quote
scan_escaped [] s e h = scan_end s e h
scan_escaped (c ∷ t) s e h = elim (Bool-cases (c == quote)) [
  | inl q ↦ rw (q, scan_pair (escape t ++ quote ∷ s) e, scan_escaped t s true h) (ground arith)
  | inr q ↦ rw (q, scan_other c (escape t ++ quote ∷ s) e q, scan_escaped t s e h) (ground arith)
]

-- Without the closing quote the scan finds none.
pub scan_unclosed : (t : Text) (e : Bool) → scan_string (escape t) e ≡ none
unfolding escape scan_string
scan_unclosed [] e = refl
scan_unclosed (c ∷ t) e = elim (Bool-cases (c == quote)) [
  | inl q ↦ rw (q, scan_pair (escape t) e, scan_unclosed t true) refl
  | inr q ↦ rw (q, scan_other c (escape t) e q, scan_unclosed t e) refl
]

unescape-escape : (t : Text) → unescape false (escape t) ≡ t
unfolding unescape escape
unescape-escape [] = refl
unescape-escape (c ∷ t) = ground (arith, unescape-escape t)

has_quote-seen : (t : Text) → has_quote true t ≡ true
unfolding has_quote
has_quote-seen [] = refl
has_quote-seen (c ∷ t) = ground (arith, has_quote-seen t)

escape_same : (t : Text) → has_quote false t ≡ false → escape t ≡ t
unfolding has_quote escape
escape_same [] h = refl
escape_same (c ∷ t) h = ground (arith, escape_same t, has_quote-seen t)

value_lem :
    (t : Text) (b : Bool)
    → has_quote false t ≡ b
    → (if b then unescape false (escape t) else escape t) ≡ t
value_lem t true h = unescape-escape t
value_lem t false h = escape_same t h

-- The literal of a text.
abbrev pub written : Text → Text
written t = quote ∷ (escape t ++ quote ∷ [])

suc_length : (t : Text) → 1 + length (escape t) + 1 ≡ length (written t)
suc_length t = omega (arith, length-append (escape t) (quote ∷ []))

back_zero : (n : ℕ) → n - 0 ≡ n
back_zero n = omega arith

apart : (n : ℕ) → suc n - 1 ≡ n
apart n = omega arith

literal_slice : (t : Text) → str8_substr (written t) 1 (1 + length (escape t)) ≡ escape t
unfolding str8_substr
literal_slice t =
    rw (one_more (length (escape t)), apart (length (escape t)))
      (take_front (escape t) (quote ∷ []))
  where
    one_more : (n : ℕ) → 1 + n ≡ suc n
    one_more n = omega arith

pub literal_step :
    (t : Text)
    → string_step (written t) 0 (some (length (escape t), has_quote false t))
      ≡ Step.emit (token TokenType.string t 0 (length (written t))) (length (written t))
unfolding string_step
literal_step t = rw (suc_length t, literal_slice t, value_lem t (has_quote false t) refl) refl
