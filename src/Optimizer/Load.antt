-- ===== src/Optimizer/Load.antt =====
-- src/optimizer/optimizer.c: `optimizer_flatten_from` and `optimizer_load_conjuncts`, which read the FROM
-- tree and the conditions into the arrays that the rules work on.
pub mod Flatten
pub mod Whole
use compute_ql.Shared.{
  ℕ, zero, suc, ◌+◌, ◌-◌, Bool, true, false, List, [], ◌∷◌, ◌++◌, Option, none, some, map,
  if◌then◌else◌, ltb, leb, length, set, not, ◌>>=◌,
}
use compute_ql.Text.{str8_lit, str8_match, match_any_case}
use compute_ql.Ir.{Node, children_of, first}
use compute_ql.Plan.{Plan, PlanType, PlanFields, plan, absent, same_plan_type}
use compute_ql.Optimizer.{Relation, JoinStep, Conjunct, Destination}
use compute_ql.Optimizer.Conjuncts.{Leaves, optimizer_ir_collect_conjuncts}
use compute_ql.Optimizer.Refs.{Refs, optimizer_collect_relation_refs}
use compute_ql.Optimizer.Assign.{zero_step, step_at}

abbrev pub max_relations : ℕ
max_relations = 32

abbrev pub max_conjuncts : ℕ
max_conjuncts = 64

-- The arrays `relations` and `steps`, filled up to `*io_count`.
pub record Flat : Type 0 where
  pub relations : List Relation
  pub steps : List JoinStep

-- The array slot of one scan; its step stays zeroed.
unfoldable pub flatten_scan : Plan → PlanFields → Flat → Option Flat
flatten_scan node f s = elim f.table [
  | none ↦ none
  | some table ↦ some (record {
    relations = s.relations ++ (record { scan = node; table = table; alias = f.alias } ∷ []);
    steps = s.steps ++ (zero_step ∷ []);
  })
]

abbrev pub is_plan_type : Plan → PlanType → Bool
is_plan_type absent t = false
is_plan_type (plan u l r f) t = same_plan_type u t

-- `steps[*io_count - 1]` of a join whose two sides are read.
unfoldable pub note_step : PlanFields → Flat → Flat
note_step f s = record s {
  steps = set s.steps (length s.relations - 1) (record {
    type = f.value;
    on_condition = f.condition;
    null_supplying = str8_match f.value (str8_lit "left") match_any_case;
  });
}

unfoldable pub optimizer_flatten_from : Plan → Flat → Option Flat
optimizer_flatten_from absent s = none
optimizer_flatten_from (plan t left right f) s =
    let sides : Option Flat = (do
      s' ← optimizer_flatten_from left s
      s'' ← optimizer_flatten_from right s'
      some (note_step f s'')) in
    if leb max_relations (length s.relations)
    then none
    else if same_plan_type t PlanType.scan
    then flatten_scan (plan t left right f) f s
    else if not (same_plan_type t PlanType.join)
    then none
    else if not (is_plan_type right PlanType.scan)
    then none
    else sides

abbrev pub empty_leaves : Leaves
empty_leaves = record { stored = []; count = 0 }

-- A slot of the zeroed array, with the node and its clause written.
abbrev pub new_conjunct : Bool → ℕ → Node → Conjunct
new_conjunct from_where step n = record {
  node = n;
  mask = 0;
  unresolved = false;
  from_where = from_where;
  step = step;
  destination = Destination.residual;
  target = 0;
}

abbrev pub where_condition : Option Node → Option Node
where_condition none = none
where_condition (some w) = first (children_of w)

-- The first part: the conjuncts of WHERE. `none` is the early `return 0`.
unfoldable pub load_where : Option Node → Option (List Conjunct)
load_where none = some []
load_where (some n) =
    let leaves = optimizer_ir_collect_conjuncts max_conjuncts n empty_leaves in
    if ltb max_conjuncts leaves.count then none else some (map (new_conjunct true 0) leaves.stored)

-- One round of the loop over the steps.
unfoldable pub load_step : ℕ → Option Node → List Conjunct → Option (List Conjunct)
load_step step none loaded = some loaded
load_step step (some n) loaded =
    let leaves = optimizer_ir_collect_conjuncts max_conjuncts n empty_leaves in
    if ltb max_conjuncts (length loaded + leaves.count)
    then none
    else some (loaded ++ map (new_conjunct false step) leaves.stored)

-- Steps `step`, `step + 1`, … for `rounds` rounds.
unfoldable pub load_steps : List JoinStep → ℕ → ℕ → List Conjunct → Option (List Conjunct)
load_steps steps zero step loaded = some loaded
load_steps steps (suc rounds) step loaded = do
  loaded' ← load_step step (step_at steps step).on_condition loaded
  load_steps steps rounds (step + 1) loaded'

-- The last loop: what each conjunct touches.
unfoldable pub note_refs : List Relation → Conjunct → Conjunct
note_refs rs c =
    let refs =
      optimizer_collect_relation_refs rs c.node (record { mask = 0; unresolved = false }) in
    record c { mask = refs.mask; unresolved = refs.unresolved }

abbrev pub or_empty {ℓ} : {A : Type ℓ} → Option (List A) → List A
or_empty none = []
or_empty (some xs) = xs

-- A returned count of 0 is the empty list.
unfoldable pub optimizer_load_conjuncts :
    Option Node → List JoinStep → ℕ → List Relation → List Conjunct
optimizer_load_conjuncts where_ir steps relation_count rs = map (note_refs rs) (
    or_empty (do
      loaded ← load_where (where_condition where_ir)
      load_steps steps (relation_count - 1) 1 loaded))
