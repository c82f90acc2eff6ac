-- ===== src/Optimizer/Assign.antt =====
-- src/optimizer/optimizer.c: `optimizer_convert_left_joins` and `optimizer_assign_destinations`. The
-- array of steps is a list; what stands behind its end is the zeroed step.
pub mod Convert
pub mod Legal
use compute_ql.Shared.{
  ℕ, zero, suc, ◌+◌, ◌-◌, Bool, true, false, not, ◌&&◌, ◌||◌, List, [], ◌∷◌, none, map,
  if◌then◌else◌, ◌==◌, ltb, get_or, set,
}
use compute_ql.Shared.Bits.{bit_at}
use compute_ql.Text.{str8_lit, str8_match, match_any_case}
use compute_ql.Optimizer.{Relation, JoinStep, Conjunct, Destination}
use compute_ql.Optimizer.Refs.{optimizer_mask_popcount, optimizer_mask_highest}
use compute_ql.Optimizer.RejectsNull.{optimizer_rejects_null}

abbrev pub zero_step : JoinStep
zero_step = record { type = []; on_condition = none; null_supplying = false }

abbrev pub step_at : List JoinStep → ℕ → JoinStep
step_at steps i = get_or steps i zero_step

-- `(mask & ((U64)1 << index)) != 0`.
unfoldable pub mask_has : ℕ → ℕ → Bool
mask_has mask index = not (bit_at index mask == 0)

-- `steps[index].null_supplying = 0`.
unfoldable pub clear_null_supplying : List JoinStep → ℕ → List JoinStep
clear_null_supplying steps index =
    set steps index (record (step_at steps index) { null_supplying = false })

-- The body of the inner loop of `optimizer_convert_left_joins`.
unfoldable pub convert_relation : List Relation → Conjunct → ℕ → List JoinStep → List JoinStep
convert_relation rs c index steps =
    if not (mask_has c.mask index) || not (step_at steps index).null_supplying
    then steps
    else if optimizer_rejects_null rs index c.node
    then clear_null_supplying steps index
    else steps

-- Relations `index`, `index + 1`, … for `rounds` rounds.
unfoldable pub convert_relations : List Relation → Conjunct → ℕ → ℕ → List JoinStep → List JoinStep
convert_relations rs c zero index steps = steps
convert_relations rs c (suc rounds) index steps =
    convert_relations rs c rounds (index + 1) (convert_relation rs c index steps)

unfoldable pub optimizer_convert_left_joins :
    List Relation → ℕ → List Conjunct → List JoinStep → List JoinStep
optimizer_convert_left_joins rs relation_count [] steps = steps
optimizer_convert_left_joins rs relation_count (c ∷ cs) steps =
    optimizer_convert_left_joins rs relation_count cs (
      if not c.from_where || c.unresolved
      then steps
      else convert_relations rs c (relation_count - 1) 1 steps)

-- A conjunct of WHERE that is not dropped.
unfoldable pub assign_where : List JoinStep → Conjunct → Conjunct
assign_where steps c =
    let touched : ℕ = optimizer_mask_popcount c.mask in
    let highest : ℕ = optimizer_mask_highest c.mask in
    if c.unresolved || (touched == 0)
    then record c { destination = Destination.residual }
    else if touched == 1
    then (if ltb 0 highest && (step_at steps highest).null_supplying
        then record c { destination = Destination.residual }
        else record c { destination = Destination.filter; target = highest })
    else if (step_at steps highest).null_supplying
    then record c { destination = Destination.residual }
    else record c { destination = Destination.on_clause; target = highest }

-- A conjunct of the ON clause of `c.step` that is not dropped.
unfoldable pub assign_on : List JoinStep → Conjunct → Conjunct
assign_on steps c =
    let touched : ℕ = optimizer_mask_popcount c.mask in
    let highest : ℕ = optimizer_mask_highest c.mask in
    let here : Conjunct = record c { destination = Destination.on_clause; target = c.step } in
    if not c.unresolved && (touched == 0)
    then record c { destination = Destination.filter; target = c.step }
    else if (c.unresolved || (touched == 0)) || ltb 1 touched
    then here
    else if ltb c.step highest
    then here
    else if highest == c.step
    then record c { destination = Destination.filter; target = highest }
    else if not (str8_match (step_at steps c.step).type (str8_lit "left") match_any_case)
        && not (ltb 0 highest && (step_at steps highest).null_supplying)
    then record c { destination = Destination.filter; target = highest }
    else here

abbrev pub is_dropped : Destination → Bool
is_dropped Destination.dropped = true
is_dropped _ = false

unfoldable pub assign_destination : List JoinStep → Conjunct → Conjunct
assign_destination steps c =
    if is_dropped c.destination
    then c
    else if c.from_where
    then assign_where steps c
    else assign_on steps c

unfoldable pub optimizer_assign_destinations : List JoinStep → List Conjunct → List Conjunct
unfolding assign_destination
optimizer_assign_destinations steps = map (assign_destination steps)
