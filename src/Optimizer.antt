-- ===== src/Optimizer.antt =====
-- src/optimizer/optimizer.h and src/optimizer/optimizer.c: the rewrite rules over the IR of a condition.
pub mod Conjuncts
pub mod Logic
pub mod Refs
pub mod RejectsNull
pub mod Assign
pub mod Load
pub mod Fold
pub mod Bounds
pub mod Assemble
use compute_ql.Shared.{
  ℕ, zero, suc, ◌+◌, Bool, true, false, ◌&&◌, List, [], ◌∷◌, Option, none, some, if◌then◌else◌,
}
use compute_ql.Text.{Text, str8_lit, str8_match, match_any_case}
use compute_ql.Ir.{NodeType, Node, Nodes, node, type_of, value_of, has_type}
use compute_ql.Catalog.{Table}
use compute_ql.Plan.{Plan}

-- `optimizer_ir_is_operator` of a node that is there.
unfoldable pub is_operator : Node → Text → Bool
is_operator n name =
    if has_type n NodeType.operator then str8_match (value_of n) name match_any_case else false

abbrev pub is_and : Node → Bool
is_and n = is_operator n (str8_lit "and")

abbrev pub is_or : Node → Bool
is_or n = is_operator n (str8_lit "or")

-- OPT_Relation: one FROM item.
pub record Relation : Type 0 where
  pub scan : Plan
  pub table : Table
  pub alias : Text

-- OPT_JoinStep: step k joins relation k to all before it.
pub record JoinStep : Type 0 where
  pub type : Text
  pub on_condition : Option Node
  pub null_supplying : Bool

-- OPT_Destination.
pub data Destination : Type 0 where
  residual filter on_clause dropped : Destination

-- OPT_Conjunct.
pub record Conjunct : Type 0 where
  pub node : Node
  pub mask : ℕ
  pub unresolved : Bool
  pub from_where : Bool
  pub step : ℕ
  pub destination : Destination
  pub target : ℕ
