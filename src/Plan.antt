-- ===== src/Plan.antt =====
-- src/planner/plan_node.h: the plan tree. An absent plan pointer is `absent`; the estimates, costs and
-- reasons that the cost model writes for EXPLAIN are left out.
pub mod Rows
pub mod From
pub mod Build
use compute_ql.Shared.{ℕ, Bool, ◌==◌, ◌||◌, Option, none, []}
use compute_ql.Text.{Text}
use compute_ql.Ir.{Node}
use compute_ql.Catalog.{Table}

pub data PlanType : Type 0 where
  scan filter join aggregate having project sort limit window top_n semi_join anti_join : PlanType

unfoldable pub plan_tag : PlanType → ℕ
plan_tag PlanType.scan = 0
plan_tag PlanType.filter = 1
plan_tag PlanType.join = 2
plan_tag PlanType.aggregate = 3
plan_tag PlanType.having = 4
plan_tag PlanType.project = 5
plan_tag PlanType.sort = 6
plan_tag PlanType.limit = 7
plan_tag PlanType.window = 8
plan_tag PlanType.top_n = 9
plan_tag PlanType.semi_join = 10
plan_tag PlanType.anti_join = 11

unfoldable pub same_plan_type : PlanType → PlanType → Bool
unfolding plan_tag
same_plan_type t u = plan_tag t == plan_tag u

pub data ScanStrategy : Type 0 where
  auto identity index cpu gpu : ScanStrategy

-- The fields of PLAN_Node beside its type and inputs.
pub record PlanFields : Type 0 where
  pub value : Text
  pub table : Option Table
  pub alias : Text
  pub condition : Option Node
  pub group_by : Option Node
  pub column_list : Option Node
  pub order_by : Option Node
  pub limit_node : Option Node
  pub offset_node : Option Node
  pub scan_strategy : ScanStrategy

pub data Plan : Type 0 where
  absent : Plan
  plan : PlanType → Plan → Plan → PlanFields → Plan

-- `push_array` zeroes the node.
abbrev pub no_fields : PlanFields
no_fields = record {
  value = [];
  table = none;
  alias = [];
  condition = none;
  group_by = none;
  column_list = none;
  order_by = none;
  limit_node = none;
  offset_node = none;
  scan_strategy = ScanStrategy.auto;
}

-- `plan_node_is_join`.
unfoldable pub plan_node_is_join : PlanType → Bool
plan_node_is_join t =
    same_plan_type t PlanType.join
    || same_plan_type t PlanType.semi_join
    || same_plan_type t PlanType.anti_join
