-- ===== src/Float.antt =====
-- src/base/base_strings.c, `f64_from_str8`, over the C type F64. The type, its comparisons, the C
-- library's `atof` and the memory `past` the table of digits are a parameter; the laws are those of IEEE 754, which hold with NaN too.
use compute_ql.Shared.{
  ℕ, ◌+◌, ◌≡◌, Bool, true, false, ◌&&◌, ◌||◌, [], ◌∷◌, if◌then◌else◌, ◌==◌, leb, ltb, length,
}
use compute_ql.Text.{Text, char_is_digit}

pub record Float : Type 1 where
  pub F64 : Type 0
  pub past : ℕ → ℕ
  pub lt : F64 → F64 → Bool
  pub eq : F64 → F64 → Bool
  pub mul : F64 → F64 → F64
  pub zero_value : F64
  pub one_value : F64
  pub minus_one_value : F64
  pub atof : Text → F64
  pub lt_irrefl : (a : F64) → lt a a ≡ false
  pub lt_trans : (a b c : F64) → lt a b ≡ true → lt b c ≡ true → lt a c ≡ true
  pub eq_symm : (a b : F64) → eq a b ≡ true → eq b a ≡ true
  pub eq_trans : (a b c : F64) → eq a b ≡ true → eq b c ≡ true → eq a c ≡ true
  pub eq_lt : (a b c : F64) → eq a b ≡ true → lt b c ≡ true → lt a c ≡ true
  pub lt_eq : (a b c : F64) → lt a b ≡ true → eq b c ≡ true → lt a c ≡ true

module _ (fl : Float) where
  -- `char_is_digit(c, 10)`, over the table of 128 entries and what stands behind it.
  abbrev is_decimal : ℕ → Bool
  is_decimal c = char_is_digit fl.past c 10

  -- The gathering loop: `taken` is `num_valid_chars`, `exp` says that an 'e' was copied last.
  unfoldable pub gather_number : ℕ → Bool → Text → Text
  gather_number taken exp [] = []
  gather_number taken exp (c ∷ s) =
      let keeps : Bool =
        is_decimal c || (c == b'.') || (c == b'e') || (exp && ((c == b'+') || (c == b'-'))) in
      let next : ℕ = if keeps then taken + 1 else taken in
      let rest : Text = gather_number next (if keeps then c == b'e' else exp) s in
      if leb 63 taken then [] else if keeps then c ∷ rest else rest

  abbrev sign_of : Text → fl.F64
  sign_of [] = fl.one_value
  sign_of (c ∷ s) = if c == b'-' then fl.minus_one_value else fl.one_value

  unfoldable pub f64_from_str8 : Text → fl.F64
  unfolding gather_number
  f64_from_str8 s =
      if ltb 0 (length s)
      then fl.mul (sign_of s) (fl.atof (gather_number 0 false s))
      else fl.zero_value

  -- `a <= b`.
  abbrev pub le : fl.F64 → fl.F64 → Bool
  le a b = fl.lt a b || fl.eq a b
