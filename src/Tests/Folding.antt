-- ===== src/Tests/Folding.antt =====
-- Constant folding on natural numbers.
use compute_ql.Shared.{
  ℕ, ◌≡◌, refl, ◌*◌, Bool, true, false, not, ◌||◌, List, [], ◌∷◌, none, if◌then◌else◌, ltb, ◌==◌,
  arith,
}
use compute_ql.Text.{
  Text, str8_lit, str8_match, match_exact, match_loop, adjust_char, u64_from_str8,
}
use compute_ql.Float.{Float, f64_from_str8}
use compute_ql.Ir.{NodeType, Node, has_type, value_of, same_type}
use compute_ql.Optimizer.{Conjunct}
use compute_ql.Optimizer.Logic.{Row, meaning, no, all_hold}
use compute_ql.Optimizer.Fold.{is_op, optimizer_fold_constants, optimizer_ir_is_constant_false}
use compute_ql.Optimizer.Fold.Symbols.{ComparesConstants}
use compute_ql.Optimizer.Fold.Sound.{is_constant_false_sound}
use compute_ql.Optimizer.Fold.Whole.{live, required, fold_constants_sound}
use compute_ql.Tests.Data.{apply, number, conjunct_of, left_join_steps, id_below_three}

-- The comparisons of ℕ have the laws.
abbrev pub naturals : Float
naturals = record {
  F64 = ℕ;
  past = λ c. 255;
  lt = ltb;
  eq = λ a b. a == b;
  mul = λ a b. a * b;
  zero_value = 0;
  one_value = 1;
  minus_one_value = 0;
  atof = λ s. u64_from_str8 s 10;
  lt_irrefl = λ a. ground arith;
  lt_trans = λ a b c h k. ground arith;
  eq_symm = λ a b h. ground arith;
  eq_trans = λ a b c h k. ground arith;
  eq_lt = λ a b c h k. ground arith;
  lt_eq = λ a b c h k. ground arith;
}

abbrev number_test : Text → ℕ → ℕ → Bool
number_test op a b =
    if is_op op (str8_lit "=") || is_op op (str8_lit "==")
    then a == b
    else if is_op op (str8_lit "!=")
    then not (a == b)
    else if is_op op (str8_lit "<")
    then ltb a b
    else if is_op op (str8_lit "<=")
    then ltb a b || (a == b)
    else if is_op op (str8_lit ">")
    then ltb b a
    else ltb b a || (b == a)

abbrev text_test : Text → Text → Text → Bool
text_test op a b =
    if is_op op (str8_lit "!=")
    then not (str8_match a b match_exact)
    else str8_match a b match_exact

-- No column has a value; a constant stands for itself.
abbrev constants_row : Row Node
constants_row = record {
  column = λ name. none;
  constant = λ n. n;
  compare = λ op l r.
      if has_type l NodeType.numeric
      then number_test op (f64_from_str8 naturals (value_of l))
          (f64_from_str8 naturals (value_of r))
      else text_test op (value_of l) (value_of r);
  member = λ list v. false;
  other = λ n. no;
}

literal_not_numeric :
    (n : Node) → has_type n NodeType.literal ≡ true → has_type n NodeType.numeric ≡ false
unfolding same_type
literal_not_numeric n h = ground arith

constants_compared : ComparesConstants naturals constants_row
unfolding str8_match match_loop adjust_char
constants_compared = record {
  numbers = λ l r hl hr. rw hl (refl, refl, refl, refl, refl, refl, refl);
  texts = λ l r hl hr. rw (literal_not_numeric l hl) (refl, refl, refl);
}

-- 1 = 1
abbrev one_is_one : Node
one_is_one = apply (str8_lit "=") (number (str8_lit "1")) (number (str8_lit "1"))

-- 1 = 2
abbrev one_is_two : Node
one_is_two = apply (str8_lit "=") (number (str8_lit "1")) (number (str8_lit "2"))

-- id < 3 AND 1 = 2
abbrev never : Node
never = apply (str8_lit "and") id_below_three one_is_two

never_is_false : optimizer_ir_is_constant_false naturals never ≡ true
unfolding compute_ql.Text.char_is_digit optimizer_ir_is_constant_false
    compute_ql.Optimizer.is_operator same_type str8_match match_loop adjust_char
    compute_ql.Optimizer.Fold.optimizer_fold_comparison compute_ql.Optimizer.Fold.fold_operands
    compute_ql.Optimizer.Fold.optimizer_number_from_literal
    compute_ql.Optimizer.Fold.optimizer_compare_numbers f64_from_str8 u64_from_str8
never_is_false = refl

is_constant_false_sound_example : meaning constants_row never ≡ no
is_constant_false_sound_example =
    is_constant_false_sound naturals constants_row constants_compared never never_is_false

-- WHERE 1 = 1 AND 1 = 2
abbrev two_constants : List Conjunct
two_constants = conjunct_of one_is_one 0 true 0 ∷ conjunct_of one_is_two 0 true 0 ∷ []

fold_constants_sound_example :
    (all_hold constants_row
        (live (optimizer_fold_constants naturals left_join_steps two_constants false).0)
      ≡ all_hold constants_row (live two_constants))
    × ((optimizer_fold_constants naturals left_join_steps two_constants false).1 ≡ true
        → all_hold constants_row (required left_join_steps two_constants) ≡ no)
fold_constants_sound_example =
    fold_constants_sound naturals constants_row constants_compared left_join_steps two_constants

said_empty : (optimizer_fold_constants naturals left_join_steps two_constants false).1 ≡ true
unfolding compute_ql.Text.char_is_digit optimizer_fold_constants
    compute_ql.Optimizer.Fold.fold_conjunct compute_ql.Optimizer.Fold.optimizer_fold_comparison
    same_type compute_ql.Optimizer.Fold.fold_operands
    compute_ql.Optimizer.Fold.optimizer_number_from_literal
    compute_ql.Optimizer.Fold.optimizer_compare_numbers str8_match match_loop adjust_char
    f64_from_str8 u64_from_str8 compute_ql.Optimizer.Fold.on_left_join
said_empty = refl
