-- ===== src/Optimizer/Load/Whole.antt =====
-- src/optimizer/optimizer.c: `optimizer_load_conjuncts` loads all conditions or none.
use compute_ql.Shared.{
  ℕ, zero, suc, ◌+◌, ◌-◌, ◌≤◌, ◌≡◌, refl, List, [], ◌++◌, Option, none, some, map, arith, length,
  length-append, length-map, if◌then◌else◌, leb, ltb, true, false, take_all,
}
use mathlib.Core.List.{append-nil, append_assoc}
use compute_ql.Ir.{Node}
use compute_ql.Optimizer.{Relation, JoinStep, Conjunct}
use compute_ql.Optimizer.Conjuncts.{optimizer_ir_collect_conjuncts}
use compute_ql.Optimizer.Conjuncts.Laws.{conjuncts, collect_conjuncts_lem}
use compute_ql.Optimizer.Assign.{step_at}
use compute_ql.Optimizer.Load.{
  max_conjuncts, empty_leaves, new_conjunct, where_condition, load_where, load_step, load_steps,
  note_refs, optimizer_load_conjuncts,
}

-- The conjuncts of a clause, each with its clause noted.
abbrev pub from_clause : (Node → Conjunct) → Option Node → List Conjunct
from_clause make none = []
from_clause make (some n) = map make (conjuncts n)

abbrev pub from_steps : List JoinStep → ℕ → ℕ → List Conjunct
from_steps steps zero step = []
from_steps steps (suc rounds) step =
    from_clause (new_conjunct false step) (step_at steps step).on_condition
    ++ from_steps steps rounds (step + 1)

-- All conditions of the query: WHERE first, then every ON clause.
abbrev pub all_conditions : Option Node → List JoinStep → ℕ → List Conjunct
all_conditions where_ir steps relation_count =
    from_clause (new_conjunct true 0) (where_condition where_ir)
    ++ from_steps steps (relation_count - 1) 1

-- One condition's conjuncts behind `loaded`, at an array of any size.
part_whole :
    (capacity : ℕ) (n : Node) (make : Node → Conjunct) (loaded : List Conjunct)
    → (if ltb capacity
          (length loaded + (optimizer_ir_collect_conjuncts capacity n empty_leaves).count)
        then none
        else some
            (loaded ++ map make (optimizer_ir_collect_conjuncts capacity n empty_leaves).stored))
      ≡ (if leb (length loaded + length (map make (conjuncts n))) capacity
          then some (loaded ++ map make (conjuncts n))
          else none)
part_whole capacity n make loaded = ground (
  arith,
  collect_conjuncts_lem capacity n,
  take_all capacity (conjuncts n),
  length-map (conjuncts n) make,
)

step_whole :
    (step : ℕ) (o : Option Node) (loaded : List Conjunct)
    → length loaded ≤ max_conjuncts
    → load_step step o loaded ≡ (
        if leb (length loaded + length (from_clause (new_conjunct false step) o)) max_conjuncts
        then some (loaded ++ from_clause (new_conjunct false step) o)
        else none)
unfolding load_step
step_whole step none loaded h = ground (arith, append-nil loaded)
step_whole step (some n) loaded h = part_whole max_conjuncts n (new_conjunct false step) loaded

steps_whole :
    (steps : List JoinStep) (rounds step : ℕ) (loaded : List Conjunct)
    → length loaded ≤ max_conjuncts
    → load_steps steps rounds step loaded ≡ (
        if leb (length loaded + length (from_steps steps rounds step)) max_conjuncts
        then some (loaded ++ from_steps steps rounds step)
        else none)
unfolding load_steps
steps_whole steps zero step loaded h = ground (arith, append-nil loaded)
steps_whole steps (suc rounds) step loaded h =
    let here = from_clause (new_conjunct false step) (step_at steps step).on_condition in
    let later = from_steps steps rounds (step + 1) in
    ground (
      arith,
      step_whole step (step_at steps step).on_condition loaded h,
      steps_whole steps rounds (step + 1) (loaded ++ here),
      append_assoc loaded here later,
      length-append loaded here,
      length-append here later,
    )

first_part_whole :
    (capacity : ℕ) (n : Node) (make : Node → Conjunct)
    → (if ltb capacity (optimizer_ir_collect_conjuncts capacity n empty_leaves).count
        then none
        else some (map make (optimizer_ir_collect_conjuncts capacity n empty_leaves).stored))
      ≡ (if leb (length (map make (conjuncts n))) capacity
          then some (map make (conjuncts n))
          else none)
first_part_whole capacity n make = ground (
  arith,
  collect_conjuncts_lem capacity n,
  take_all capacity (conjuncts n),
  length-map (conjuncts n) make,
)

where_whole :
    (o : Option Node)
    → load_where o ≡ (
        if leb (length (from_clause (new_conjunct true 0) o)) max_conjuncts
        then some (from_clause (new_conjunct true 0) o)
        else none)
unfolding load_where
where_whole none = refl
where_whole (some n) = first_part_whole max_conjuncts n (new_conjunct true 0)

-- The conjuncts of WHERE and of every ON clause are loaded in that order, each with its clause and
-- with the relations that it touches, if they are 64 at most in all; otherwise none is loaded.
pub load_conjuncts_lem :
    (where_ir : Option Node) (steps : List JoinStep) (relation_count : ℕ) (rs : List Relation)
    → optimizer_load_conjuncts where_ir steps relation_count rs ≡ (
        if leb (length (all_conditions where_ir steps relation_count)) 64
        then map (note_refs rs) (all_conditions where_ir steps relation_count)
        else [])
unfolding optimizer_load_conjuncts
load_conjuncts_lem where_ir steps relation_count rs =
    let first_part = from_clause (new_conjunct true 0) (where_condition where_ir) in
    ground (
      arith,
      where_whole (where_condition where_ir),
      steps_whole steps (relation_count - 1) 1 first_part,
      length-append first_part (from_steps steps (relation_count - 1) 1),
    )
