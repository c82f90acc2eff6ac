-- ===== src/Optimizer/Assign/Convert.antt =====
-- src/optimizer/optimizer.c: `optimizer_convert_left_joins` keeps every row of the query.
use compute_ql.Shared.{
  ℕ, zero, suc, ◌+◌, ◌-◌, ◌≡◌, refl, ◌≢◌, ◌∙◌, Bool, true, false, List, [], ◌∷◌, none, arith,
  get_or-set_ne, All,
}
use compute_ql.Text.{Text}
use compute_ql.Optimizer.{Relation, JoinStep, Conjunct}
use compute_ql.Optimizer.Refs.{optimizer_resolve_column}
use compute_ql.Optimizer.Logic.{holds, Row, meaning}
use compute_ql.Optimizer.RejectsNull.Sound.{rejects_null_sound}
use compute_ql.Optimizer.Assign.{
  zero_step, step_at, clear_null_supplying, convert_relation, convert_relations,
  optimizer_convert_left_joins,
}
use native.Mathlib.Decide.{ℕ_discrete}

-- Whether relation `r` may still be extended by NULLs.
abbrev pub may_be_null : List JoinStep → ℕ → Bool
may_be_null steps r = (step_at steps r).null_supplying

clear_other :
    (steps : List JoinStep) (i r : ℕ)
    → i ≢ r
    → may_be_null (clear_null_supplying steps i) r ≡ may_be_null steps r
unfolding clear_null_supplying
clear_other steps i r h = ground (
  arith,
  get_or-set_ne steps i r (record (step_at steps i) { null_supplying = false }) zero_step h,
)

-- A conjunct of WHERE is true on the row.
abbrev pub PassesWhere : {V : Type 0} → Row V → Conjunct → Type 0
PassesWhere row c = c.from_where ≡ true → meaning row c.node ≡ holds

module _ {V : Type 0} (row : Row V) (rs : List Relation) (r : ℕ)
    (nulls : (name : Text) → optimizer_resolve_column rs name ≡ r → row.column name ≡ none) where
  relation_kept :
      (c : Conjunct) (i : ℕ) (steps : List JoinStep)
      → meaning row c.node ≡ holds
      → may_be_null (convert_relation rs c i steps) r ≡ may_be_null steps r
  unfolding convert_relation
  relation_kept c i steps m = elim (ℕ_discrete i r) [
    | yes e ↦ ground (arith, rejects_null_sound row rs r c.node nulls, e)
    | no n ↦ ground (arith, clear_other steps i r n)
  ]

  relations_kept :
      (c : Conjunct) (rounds i : ℕ) (steps : List JoinStep)
      → meaning row c.node ≡ holds
      → may_be_null (convert_relations rs c rounds i steps) r ≡ may_be_null steps r
  unfolding convert_relations
  relations_kept c zero i steps m = refl
  relations_kept c (suc rounds) i steps m =
      relations_kept c rounds (i + 1) (convert_relation rs c i steps) m ∙ relation_kept c i steps m

  conversions_kept :
      (relation_count : ℕ) (cs : List Conjunct) (steps : List JoinStep)
      → All (PassesWhere row) cs
      → may_be_null (optimizer_convert_left_joins rs relation_count cs steps) r
        ≡ may_be_null steps r
  unfolding optimizer_convert_left_joins
  conversions_kept relation_count [] steps p = refl
  conversions_kept relation_count (c ∷ cs) steps (p, ps) = ground (
    arith,
    conversions_kept relation_count cs steps ps,
    conversions_kept relation_count cs (convert_relations rs c (relation_count - 1) 1 steps) ps,
    relations_kept c (relation_count - 1) 1 steps,
  )

-- If some row that is NULL in all columns of relation r passes every WHERE conjunct, the conversion
-- leaves the LEFT JOIN that supplies r as it was.
pub convert_left_joins_keep :
    {V : Type 0} (row : Row V) (rs : List Relation) (r relation_count : ℕ) (cs : List Conjunct)
    (steps : List JoinStep)
    → ((name : Text) → optimizer_resolve_column rs name ≡ r → row.column name ≡ none)
    → All (PassesWhere row) cs
    → may_be_null (optimizer_convert_left_joins rs relation_count cs steps) r ≡ may_be_null steps r
convert_left_joins_keep row rs r relation_count cs steps nulls p =
    conversions_kept row rs r nulls relation_count cs steps p
