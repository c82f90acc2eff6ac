-- ===== src/Tests/Loading.antt =====
-- Conjuncts, the relations that they touch, and the arrays they are loaded to.
use compute_ql.Shared.{
  none, ℕ, List, true, false, ◌≡◌, refl, ◌≤◌, [], ◌∷◌, some, length, arith, take, if◌then◌else◌,
  leb, map,
}
use compute_ql.Shared.Bits.{bit_at}
use compute_ql.Ir.{Node, NodeType, node, nil, cons}
use compute_ql.Plan.{Plan, PlanType, plan, no_fields}
use compute_ql.Text.{str8_lit}
use compute_ql.Optimizer.{Relation, JoinStep, Conjunct, Destination}
use compute_ql.Optimizer.Assemble.{Search}
use compute_ql.Shared.Bits.{bit_at}
use compute_ql.Order.Laws.{count}
use compute_ql.Optimizer.Assemble.Keeps.{live_conjuncts, weight}
use compute_ql.Optimizer.Logic.{meaning}
use compute_ql.Optimizer.Conjuncts.{optimizer_ir_collect_conjuncts, optimizer_ir_and_chain}
use compute_ql.Optimizer.Conjuncts.Laws.{
  conjuncts, collect_conjuncts_lem, and_chain-collect_meaning,
}
use compute_ql.Optimizer.Refs.{optimizer_collect_relation_refs}
use compute_ql.Optimizer.Refs.Touches.{touches, as_bit, no_refs, refs_bit_lem}
use compute_ql.Optimizer.Load.{Flat, optimizer_flatten_from, optimizer_load_conjuncts, note_refs}
use compute_ql.Optimizer.Load.Flatten.{scans, flatten_from_lem}
use compute_ql.Optimizer.Load.Whole.{all_conditions, load_conjuncts_lem}
use compute_ql.Tests.Data.{
  conjunct_of, relations, orders, items, scan_of, both_tests, sku_is_five, id_below_three, null_row,
  left_join_steps,
}

collect_conjuncts_lem_example :
    optimizer_ir_collect_conjuncts 64 both_tests (record { stored = []; count = 0 })
    ≡ record { stored = take 64 (conjuncts both_tests); count = length (conjuncts both_tests) }
collect_conjuncts_lem_example = collect_conjuncts_lem 64 both_tests

two_collected :
    optimizer_ir_collect_conjuncts 64 both_tests (record { stored = []; count = 0 })
    ≡ record { stored = id_below_three ∷ sku_is_five ∷ []; count = 2 }
unfolding optimizer_ir_collect_conjuncts compute_ql.Optimizer.is_operator compute_ql.Ir.same_type
    compute_ql.Text.str8_match compute_ql.Text.match_loop compute_ql.Text.adjust_char
    compute_ql.Optimizer.Conjuncts.store_leaf
two_collected = refl

-- The chain of the two.
abbrev rebuilt : Node
rebuilt = node NodeType.operator (str8_lit "and") (cons id_below_three (cons sku_is_five nil))

two_fit :
    (optimizer_ir_collect_conjuncts 64 both_tests (record { stored = []; count = 0 })).count ≤ 64
two_fit = rw two_collected (omega arith)

two_rebuilt :
    optimizer_ir_and_chain
      (optimizer_ir_collect_conjuncts 64 both_tests (record { stored = []; count = 0 })).stored
    ≡ some rebuilt
unfolding optimizer_ir_and_chain compute_ql.Ir.ir_node_add_child compute_ql.Ir.ir_node_make
    compute_ql.Optimizer.Conjuncts.optimizer_ir_clone
two_rebuilt = rw two_collected refl

and_chain-collect_meaning_example : meaning null_row rebuilt ≡ meaning null_row both_tests
and_chain-collect_meaning_example =
    and_chain-collect_meaning null_row 64 both_tests rebuilt two_fit two_rebuilt

refs_bit_lem_example :
    bit_at 1 (optimizer_collect_relation_refs relations both_tests no_refs).mask
    ≡ as_bit (touches relations 1 both_tests)
refs_bit_lem_example = refs_bit_lem relations 1 both_tests (omega arith) (omega arith)

abbrev left_join : Plan
left_join =
    plan PlanType.join (scan_of orders) (scan_of items)
      (record no_fields { value = str8_lit "left"; condition = some sku_is_five })

abbrev flattened : Flat
flattened = record { relations = relations; steps = left_join_steps }

left_join-flattened :
    optimizer_flatten_from left_join (record { relations = []; steps = [] }) ≡ some flattened
unfolding optimizer_flatten_from compute_ql.Plan.same_plan_type
    compute_ql.Optimizer.Load.flatten_scan compute_ql.Optimizer.Load.note_step
    compute_ql.Text.str8_match compute_ql.Text.match_loop compute_ql.Text.adjust_char
left_join-flattened = refl

flatten_from_lem_example :
    (map (λ (r : Relation). r.scan) flattened.relations ≡ scans left_join)
    × (length flattened.steps ≡ length flattened.relations)
    × (length flattened.relations ≤ 32)
flatten_from_lem_example = flatten_from_lem left_join flattened left_join-flattened

abbrev where_node : Node
where_node = node NodeType.where_clause [] (cons both_tests nil)

load_conjuncts_lem_example :
    optimizer_load_conjuncts (some where_node) left_join_steps 2 relations ≡ (
      if leb (length (all_conditions (some where_node) left_join_steps 2)) 64
      then map (note_refs relations) (all_conditions (some where_node) left_join_steps 2)
      else [])
load_conjuncts_lem_example = load_conjuncts_lem (some where_node) left_join_steps 2 relations

-- One filter, one ON condition, one residual condition and a dropped one.
abbrev four_conjuncts : List Conjunct
four_conjuncts =
    record (conjunct_of id_below_three 1 true 0) { destination = Destination.filter; target = 0 }
    ∷ record (conjunct_of sku_is_five 3 false 1) { destination = Destination.on_clause; target = 1 }
    ∷ conjunct_of both_tests 3 true 0
    ∷ record (conjunct_of sku_is_five 2 true 0) { destination = Destination.dropped }
    ∷ []

three_live : weight (λ c. 1) (live_conjuncts four_conjuncts) ≡ 3
unfolding weight live_conjuncts
three_live = refl

abbrev orders_relation : Relation
orders_relation = record { scan = scan_of orders; table = orders; alias = [] }

abbrev items_relation : Relation
items_relation = record { scan = scan_of items; table = items; alias = [] }

-- Two inner joins that the search has swapped, with an equality of its own.
abbrev inner_steps : List JoinStep
inner_steps =
    record { type = []; on_condition = none; null_supplying = false }
    ∷ record { type = str8_lit "inner"; on_condition = some sku_is_five; null_supplying = false }
    ∷ []

abbrev swapping : Search
swapping = record { reordered = true; derived = λ position. some sku_is_five }

abbrev swapped : List (ℕ × Relation)
swapped = (1, items_relation) ∷ (0, orders_relation) ∷ []
