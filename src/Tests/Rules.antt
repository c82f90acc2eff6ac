-- ===== src/Tests/Rules.antt =====
-- The rules of src/optimizer/optimizer.c at work.
use compute_ql.Shared.{◌≡◌, refl, ◌≢◌, true, false, [], ◌∷◌, arith}
use compute_ql.Shared.Bits.{bit_at}
use compute_ql.Text.{Text}
use compute_ql.Ir.{Node}
use compute_ql.Optimizer.{Conjunct, is_operator}
use compute_ql.Optimizer.Logic.{meaning, holds, operand, leaf_meaning, is_comparison}
use compute_ql.Optimizer.RejectsNull.{optimizer_rejects_null, leaf_rejects_null, is_column_of}
use compute_ql.Optimizer.RejectsNull.Sound.{rejects_null_sound}
use compute_ql.Optimizer.Refs.{
  optimizer_resolve_column, optimizer_mask_highest, optimizer_mask_popcount,
}
use compute_ql.Optimizer.Assign.{optimizer_convert_left_joins, assign_destination}
use compute_ql.Optimizer.Assign.Convert.{may_be_null, convert_left_joins_keep}
use compute_ql.Optimizer.Assign.Legal.{Placed, assign_destination_legal}
use compute_ql.Tests.Data.{
  relations, sku_is_five, sku_is_null, null_row, left_join_steps, conjunct_of,
}

sku_rejects_null : optimizer_rejects_null relations 1 sku_is_five ≡ true
unfolding optimizer_rejects_null compute_ql.Ir.same_type is_operator compute_ql.Text.str8_match
    leaf_rejects_null is_comparison compute_ql.Text.match_loop compute_ql.Text.adjust_char
    is_column_of optimizer_resolve_column compute_ql.Optimizer.Refs.resolve_loop
    compute_ql.Optimizer.Refs.qe_column_belongs_to_table compute_ql.Optimizer.Refs.find_dot
    compute_ql.Catalog.cql_table_find_column compute_ql.Catalog.find_column_in
sku_rejects_null = refl

rejects_null_sound_example : meaning null_row sku_is_five ≢ holds
rejects_null_sound_example =
    rejects_null_sound null_row relations 1 sku_is_five (λ name e. refl) sku_rejects_null

abbrev null_test : Conjunct
null_test = conjunct_of sku_is_null 2 true 0

null_test_holds : meaning null_row sku_is_null ≡ holds
unfolding meaning is_operator compute_ql.Ir.same_type compute_ql.Text.str8_match leaf_meaning
    compute_ql.Text.match_loop compute_ql.Text.adjust_char operand
null_test_holds = refl

convert_left_joins_keep_example :
    may_be_null (optimizer_convert_left_joins relations 2 (null_test ∷ []) left_join_steps) 1
    ≡ may_be_null left_join_steps 1
convert_left_joins_keep_example =
    convert_left_joins_keep null_row relations 1 2 (null_test ∷ []) left_join_steps (λ name e. refl)
      ((λ w. null_test_holds), tt)

-- WHERE sku = 5 makes the LEFT JOIN an inner one.
join_becomes_inner :
    may_be_null
      (optimizer_convert_left_joins relations 2
        (conjunct_of sku_is_five 2 true 0 ∷ [])
        left_join_steps)
      1
    ≡ false
unfolding optimizer_convert_left_joins compute_ql.Optimizer.Assign.convert_relations
    compute_ql.Optimizer.Assign.convert_relation compute_ql.Optimizer.Assign.mask_has bit_at
    optimizer_rejects_null compute_ql.Ir.same_type is_operator compute_ql.Text.str8_match
    leaf_rejects_null is_comparison compute_ql.Text.match_loop compute_ql.Text.adjust_char
    is_column_of optimizer_resolve_column compute_ql.Optimizer.Refs.resolve_loop
    compute_ql.Optimizer.Refs.qe_column_belongs_to_table compute_ql.Optimizer.Refs.find_dot
    compute_ql.Catalog.cql_table_find_column compute_ql.Catalog.find_column_in
    compute_ql.Optimizer.Assign.clear_null_supplying compute_ql.Optimizer.Refs.is_found
join_becomes_inner = refl

abbrev on_test : Conjunct
on_test = conjunct_of sku_is_five 2 false 1

assign_destination_legal_example :
    Placed false left_join_steps on_test
      (assign_destination left_join_steps on_test).destination
      (assign_destination left_join_steps on_test).target
    × (record (assign_destination left_join_steps on_test) {
      destination = on_test.destination;
      target = on_test.target;
    }
        ≡ on_test)
assign_destination_legal_example =
    assign_destination_legal left_join_steps on_test (omega arith) refl
