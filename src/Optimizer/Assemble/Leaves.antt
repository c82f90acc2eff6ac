-- ===== src/Optimizer/Assemble/Leaves.antt =====
-- src/optimizer/optimizer.c: the conjuncts in the conditions of an assembled plan.
use compute_ql.Shared.{ℕ, suc, ◌≡◌, if◌then◌else◌, List, map, Option, ltb}
use compute_ql.Ir.{Node}
use compute_ql.Plan.{Plan}
use compute_ql.Plan.Build.{optimizer_ir_strip_column_qualifiers}
use compute_ql.Optimizer.{Relation, JoinStep, Conjunct}
use compute_ql.Optimizer.Assemble.{Search, reorder_group_size}
use compute_ql.Optimizer.Assemble.Keeps.{sum_from}
use compute_ql.Optimizer.Assemble.Totals.{leaf_total, option_total}

abbrev pub relations_of : List (ℕ × Relation) → List Relation
relations_of rs = map (λ (r : ℕ × Relation). r.1) rs

module _ (g : Node → ℕ) (same : (n : Node) → g (optimizer_ir_strip_column_qualifiers n) ≡ g n) where
  -- The weight of a conjunct.
  unfoldable pub conjunct_total : Conjunct → ℕ
  conjunct_total c = leaf_total g same c.node

  -- The equalities that the search adds to the joins from `position` on.
  abbrev added : ℕ → (ℕ → Option Node) → ℕ → ℕ
  added group_size derived position =
      if ltb position group_size then option_total g same (derived position) else 0

  -- The equalities that the search adds to the joins of the plan.
  unfoldable pub derived_total : Search → List JoinStep → ℕ → ℕ
  derived_total search steps joins =
      sum_from (added (reorder_group_size search steps (suc joins)) search.derived) 1 joins
