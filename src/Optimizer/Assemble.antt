-- ===== src/Optimizer/Assemble.antt =====
-- src/optimizer/optimizer.c: `optimizer_build_relation_plan`, `optimizer_final_join_type` and the end of
-- `optimizer_rewrite_from_where`, which puts the plan together in the order that the join search has
-- found or, without one, as it is written. The search itself is a parameter, the record Search.
pub mod Keeps
pub mod Totals
pub mod Leaves
pub mod Strip
use compute_ql.Shared.{
  ℕ, zero, suc, ◌+◌, ◌-◌, Bool, true, false, not, ◌&&◌, ◌||◌, ◌++◌, leb, List, [], ◌∷◌, Option,
  none, some, map, if◌then◌else◌, ◌==◌, ltb, length,
}
use compute_ql.Shared.Bits.{bit_at}
use compute_ql.Text.{Text, str8_lit, str8_match, match_any_case}
use compute_ql.Ir.{Node}
use compute_ql.Plan.{Plan, PlanType, plan, absent, no_fields}
use compute_ql.Plan.Build.{optimizer_ir_strip_column_qualifiers}
use compute_ql.Optimizer.{Relation, JoinStep, Conjunct, Destination}
use compute_ql.Optimizer.Assign.{step_at}
use compute_ql.Optimizer.Conjuncts.{optimizer_ir_and_chain, optimizer_ir_make_where}

-- What `optimizer_plan_join_order` decides, besides the order: whether it has reordered, and the equality
-- that its graph adds where a relation joins no earlier one by a written equality.
pub record Search : Type 0 where
  pub reordered : Bool
  pub derived : ℕ → Option Node

-- `position_of[relation]`, which is zeroed before the loop over `order`.
unfoldable pub position_in : List ℕ → ℕ → ℕ → ℕ → ℕ
position_in [] position relation found = found
position_in (i ∷ is) position relation found =
    position_in is (position + 1) relation (if i == relation then position else found)

-- The loop of `optimizer_reorderable_group_size`, from step `index` on.
unfoldable pub group_size_loop : List JoinStep → ℕ → ℕ → ℕ
group_size_loop steps zero index = index
group_size_loop steps (suc rounds) index =
    let rest : ℕ = group_size_loop steps rounds (index + 1) in
    if (step_at steps index).null_supplying then index else rest

unfoldable pub optimizer_reorderable_group_size : List JoinStep → ℕ → ℕ
unfolding group_size_loop
optimizer_reorderable_group_size steps relation_count =
    if ltb 1 relation_count then group_size_loop steps (relation_count - 1) 1 else relation_count

-- The loop over the relations of the group, from `index` on.
unfoldable pub last_position : List ℕ → ℕ → ℕ → ℕ → ℕ → ℕ
unfolding position_in
last_position order mask zero index last = last
last_position order mask (suc rounds) index last =
    let position : ℕ = position_in order 0 index 0 in
    last_position order mask rounds (index + 1)
      (if (bit_at index mask == 1) && ltb last position then position else last)

unfoldable pub optimizer_step_position_for_conjunct : List ℕ → ℕ → Conjunct → ℕ
unfolding last_position
optimizer_step_position_for_conjunct order group_size c =
    if (group_size == 0) || leb group_size c.target
    then c.target
    else last_position order c.mask group_size 0 0

abbrev pub is_filter : Destination → Bool
is_filter Destination.filter = true
is_filter _ = false

abbrev pub is_on : Destination → Bool
is_on Destination.on_clause = true
is_on _ = false

abbrev pub is_residual : Destination → Bool
is_residual Destination.residual = true
is_residual _ = false

-- The loop that gathers the nodes of some conjuncts keeps their order.
unfoldable pub pick : (Conjunct → Bool) → List Conjunct → List Conjunct
pick p [] = []
pick p (c ∷ cs) = if p c then c ∷ pick p cs else pick p cs

abbrev pub nodes_of : List Conjunct → List Node
nodes_of cs = map (λ (c : Conjunct). c.node) cs

unfoldable pub filter_conjuncts : ℕ → List Conjunct → List Conjunct
filter_conjuncts relation cs = pick (λ c. is_filter c.destination && (c.target == relation)) cs

unfoldable pub on_conjuncts : (Conjunct → ℕ) → ℕ → List Conjunct → List Conjunct
on_conjuncts step_position position cs =
    pick (λ c. is_on c.destination && (step_position c == position)) cs

unfoldable pub residual_conjuncts : List Conjunct → List Conjunct
residual_conjuncts cs = pick (λ c. is_residual c.destination) cs

-- A filter with a WHERE of the chain over `input`, where there is a chain.
abbrev pub filter_over : Plan → Option Node → Plan
filter_over input none = input
filter_over input (some chain) =
    plan PlanType.filter input absent
      (record no_fields { condition = some (optimizer_ir_make_where chain) })

abbrev pub stripped : Option Node → Option Node
stripped none = none
stripped (some chain) = some (optimizer_ir_strip_column_qualifiers chain)

unfoldable pub optimizer_build_relation_plan : Relation → ℕ → List Conjunct → Plan
unfolding filter_conjuncts
optimizer_build_relation_plan relation index cs =
    filter_over relation.scan
      (stripped (optimizer_ir_and_chain (nodes_of (filter_conjuncts index cs))))

unfoldable pub optimizer_final_join_type : JoinStep → Bool → Text
optimizer_final_join_type step has_on_conditions =
    if step.null_supplying
    then str8_lit "left"
    else if str8_match step.type (str8_lit "cross") match_any_case && not has_on_conditions
    then str8_lit "cross"
    else str8_lit "inner"

abbrev pub one_or_none : Option Node → List Node
one_or_none none = []
one_or_none (some n) = n ∷ []

-- `on_nodes` of the join at `position`.
unfoldable pub join_nodes : (Conjunct → ℕ) → ℕ → (ℕ → Option Node) → List Conjunct → ℕ → List Node
unfolding on_conjuncts
join_nodes step_position group_size derived cs position =
    let written : List Node = nodes_of (on_conjuncts step_position position cs) in
    if ltb position group_size then written ++ one_or_none (derived position) else written

unfoldable pub join_type : List JoinStep → ℕ → ℕ → List Node → Text
join_type steps group_size position on_nodes =
    if ltb position group_size
    then str8_lit "inner"
    else optimizer_final_join_type (step_at steps position) (ltb 0 (length on_nodes))

-- The relations from `position` of the order on, each with its index and joined to the plan so far.
unfoldable pub join_relations :
    List JoinStep
    → (Conjunct → ℕ)
    → ℕ
    → (ℕ → Option Node)
    → List Conjunct
    → ℕ
    → List (ℕ × Relation)
    → Plan
    → Plan
unfolding join_nodes join_type
join_relations steps step_position group_size derived cs position [] joined = joined
join_relations steps step_position group_size derived cs position ((index, r) ∷ rs) joined =
    let on_nodes : List Node = join_nodes step_position group_size derived cs position in
    join_relations steps step_position group_size derived cs (position + 1) rs (
      plan PlanType.join joined (optimizer_build_relation_plan r index cs) (record no_fields {
        value = join_type steps group_size position on_nodes;
        condition = optimizer_ir_and_chain on_nodes;
      }))

abbrev pub indices : List (ℕ × Relation) → List ℕ
indices rs = map (λ (r : ℕ × Relation). r.0) rs

-- `reorder_group_size`.
unfoldable pub reorder_group_size : Search → List JoinStep → ℕ → ℕ
unfolding optimizer_reorderable_group_size
reorder_group_size search steps relation_count =
    if search.reordered then optimizer_reorderable_group_size steps relation_count else 0

abbrev pub place_of : Search → List JoinStep → List (ℕ × Relation) → Conjunct → ℕ
place_of search steps rs c =
    optimizer_step_position_for_conjunct (indices rs) (reorder_group_size search steps (length rs))
      c

-- From the first relation of the order to the residual filter on top; each relation stands with its
-- index in the written order.
unfoldable pub assemble : Search → List (ℕ × Relation) → List JoinStep → List Conjunct → Plan
unfolding residual_conjuncts reorder_group_size
assemble search [] steps cs = absent
assemble search ((index, r) ∷ rs) steps cs =
    filter_over
      (join_relations steps (place_of search steps ((index, r) ∷ rs))
        (reorder_group_size search steps (length ((index, r) ∷ rs))) search.derived cs 1 rs
        (optimizer_build_relation_plan r index cs))
      (optimizer_ir_and_chain (nodes_of (residual_conjuncts cs)))
