-- ===== src/Text/Match.antt =====
-- src/base/base_strings.c, `str8_match`: what the comparison of names decides.
use compute_ql.Shared.{◌≡◌, refl, true, [], ◌∷◌, ◌↔◌, length, map, false, arith}
use compute_ql.Text.{Text, MatchFlags, match_exact, adjust_char, match_loop, str8_match}

-- The text as the comparison sees it.
abbrev pub adjusted : MatchFlags → Text → Text
adjusted flags = map (adjust_char flags)

match_loop_sound :
    (flags : MatchFlags) (a b : Text)
    → length a ≡ length b
    → match_loop flags a b ≡ true
    → adjusted flags a ≡ adjusted flags b
unfolding match_loop
match_loop_sound flags [] [] l h = refl
match_loop_sound flags [] (y ∷ b) l h = absurd (omega arith)
match_loop_sound flags (x ∷ a) [] l h = absurd (omega arith)
match_loop_sound flags (x ∷ a) (y ∷ b) l h = ground (arith, match_loop_sound flags a b)

match_loop_complete :
    (flags : MatchFlags) (a b : Text)
    → adjusted flags a ≡ adjusted flags b
    → (length a ≡ length b) × (match_loop flags a b ≡ true)
unfolding match_loop
match_loop_complete flags [] [] e = (refl, refl)
match_loop_complete flags [] (y ∷ b) e = cc
match_loop_complete flags (x ∷ a) [] e = cc
match_loop_complete flags (x ∷ a) (y ∷ b) e = ground (arith, match_loop_complete flags a b)

-- Without the sloppy flag, str8_match is true exactly when the two texts become the same list of
-- bytes under the adjustment of each byte that the flags ask for.
pub str8_match_iff :
    (a b : Text) (flags : MatchFlags)
    → flags.right_side_sloppy ≡ false
    → (str8_match a b flags ≡ true) ↔ (adjusted flags a ≡ adjusted flags b)
unfolding str8_match
str8_match_iff a b flags h = (
  (λ m. ground (arith, match_loop_sound flags a b)),
  (λ e. ground (arith, match_loop_complete flags a b)),
)

adjust_exact : (a : Text) → adjusted match_exact a ≡ a
unfolding adjust_char
adjust_exact [] = refl
adjust_exact (x ∷ a) = ground (arith, adjust_exact a)

-- Without flags, str8_match is true exactly when the two texts are equal.
pub str8_match_exact_iff : (a b : Text) → (str8_match a b match_exact ≡ true) ↔ (a ≡ b)
str8_match_exact_iff a b =
    let both = str8_match_iff a b match_exact refl in
    ((λ m. ground (arith, both.0 m, adjust_exact a, adjust_exact b)), (λ e. both.1 (ground arith)))
