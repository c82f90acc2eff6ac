-- ===== src/Tests/Contradictions.antt =====
-- A WHERE without a row, on natural numbers.
use compute_ql.Shared.{
  ℕ, ◌≡◌, ◌≢◌, refl, Bool, true, false, ◌&&◌, List, [], ◌∷◌, Option, none, some, arith,
}
use compute_ql.Text.{Text, str8_lit}
use compute_ql.Float.{f64_from_str8}
use compute_ql.Ir.{Node, value_of}
use compute_ql.Optimizer.{Conjunct}
use compute_ql.Optimizer.Logic.{Row, no, holds, all_hold}
use compute_ql.Optimizer.Fold.{optimizer_compare_numbers, compare_strings}
use compute_ql.Optimizer.Bounds.{optimizer_detect_contradiction}
use compute_ql.Optimizer.Bounds.Passes.{ReadsColumns}
use compute_ql.Optimizer.Bounds.Entries.{where_live}
use compute_ql.Optimizer.Bounds.Sound.{detect_contradiction_sound}
use compute_ql.Tests.Data.{apply, column, number, conjunct_of, relations, left_join_steps}
use compute_ql.Tests.Folding.{naturals}

abbrev passes : Option Bool → Bool
passes none = true
passes (some b) = b

-- A value is a number and a text; every column holds 4, "four".
abbrev four_row : Row (ℕ × Text)
four_row = record {
  column = λ name. some (4, str8_lit "four");
  constant = λ n. (f64_from_str8 naturals (value_of n), value_of n);
  compare = λ op v w.
      passes (optimizer_compare_numbers naturals op v.0 w.0)
      && passes (compare_strings naturals op v.1 w.1);
  member = λ list v. false;
  other = λ n. no;
}

passes_both :
    (a b : Option Bool) → (passes a && passes b) ≡ true → (a ≢ some false) × (b ≢ some false)
passes_both a b h = (
  not_false a (and_left (passes a) (passes b) h),
  not_false b (and_right (passes a) (passes b) h),
)
  where
    and_left : (a b : Bool) → (a && b) ≡ true → a ≡ true
    and_left a b h = ground arith

    and_right : (a b : Bool) → (a && b) ≡ true → b ≡ true
    and_right a b h = ground arith

    not_false : (o : Option Bool) → passes o ≡ true → o ≢ some false
    not_false none h e = cc
    not_false (some true) h e = cc
    not_false (some false) h e = cc

is_four : (v : ℕ × Text) → some (4, str8_lit "four") ≡ some v → (4, str8_lit "four") ≡ v
is_four v e = cc

four_reads : ReadsColumns naturals four_row relations
four_reads = record {
  number = λ r c. 4;
  text = λ r c. str8_lit "four";
  number_alike = λ r c d h. refl;
  text_alike = λ r c d h. refl;
  numbers = λ n l o op v e at ty h. rw (← is_four v at) (
    λ c.
        (passes_both (optimizer_compare_numbers naturals op 4 (f64_from_str8 naturals (value_of l)))
          (compare_strings naturals op (str8_lit "four") (value_of l)) c).0,
    λ c.
        (passes_both (optimizer_compare_numbers naturals op (f64_from_str8 naturals (value_of l)) 4)
          (compare_strings naturals op (value_of l) (str8_lit "four")) c).0,
  );
  texts = λ n l o op v e at ty h. rw (← is_four v at) (
    λ c.
        (passes_both (optimizer_compare_numbers naturals op 4 (f64_from_str8 naturals (value_of l)))
          (compare_strings naturals op (str8_lit "four") (value_of l)) c).1,
    λ c.
        (passes_both (optimizer_compare_numbers naturals op (f64_from_str8 naturals (value_of l)) 4)
          (compare_strings naturals op (value_of l) (str8_lit "four")) c).1,
  );
}

-- id > 5 AND 3 > id
abbrev crossed : List Conjunct
crossed =
    conjunct_of (apply (str8_lit ">") (column (str8_lit "id")) (number (str8_lit "5"))) 1 true 0
    ∷ conjunct_of (apply (str8_lit ">") (number (str8_lit "3")) (column (str8_lit "id"))) 1 true 0
    ∷ []

crossed_found : optimizer_detect_contradiction naturals relations left_join_steps crossed ≡ true
unfolding compute_ql.Text.char_is_digit optimizer_detect_contradiction
    compute_ql.Optimizer.Bounds.detect_loop compute_ql.Optimizer.Bounds.detect_conjunct
    compute_ql.Optimizer.Refs.optimizer_mask_popcount compute_ql.Optimizer.Refs.popcount_loop
    compute_ql.Optimizer.Bounds.comparison_sides compute_ql.Ir.same_type
    compute_ql.Optimizer.Bounds.optimizer_column_operand
    compute_ql.Optimizer.Refs.optimizer_resolve_column compute_ql.Optimizer.Refs.resolve_loop
    compute_ql.Optimizer.Refs.qe_column_belongs_to_table compute_ql.Optimizer.Refs.find_dot
    compute_ql.Catalog.cql_table_find_column compute_ql.Catalog.find_column_in
    compute_ql.Text.str8_match compute_ql.Text.match_loop compute_ql.Text.adjust_char f64_from_str8
    compute_ql.Optimizer.Bounds.apply_comparison compute_ql.Optimizer.Bounds.bounds_index
    compute_ql.Optimizer.Bounds.is_passed_over compute_ql.Optimizer.Bounds.is_string8
    compute_ql.Optimizer.Bounds.optimizer_bounds_apply
    compute_ql.Optimizer.Bounds.optimizer_bounds_are_contradictory
    compute_ql.Optimizer.Bounds.optimizer_column_type_is_comparable_number
    compute_ql.Optimizer.Bounds.optimizer_find_bounds
    compute_ql.Optimizer.Bounds.optimizer_flip_comparison compute_ql.Optimizer.Bounds.tighten
    compute_ql.Optimizer.Fold.optimizer_number_from_literal compute_ql.Optimizer.Refs.is_found
    compute_ql.Optimizer.Refs.qe_bare_column_name compute_ql.Text.u64_from_str8
crossed_found = refl

detect_contradiction_sound_example : all_hold four_row (where_live crossed) ≢ holds
detect_contradiction_sound_example =
    detect_contradiction_sound naturals four_row relations four_reads left_join_steps crossed
      crossed_found
