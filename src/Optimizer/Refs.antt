-- ===== src/Optimizer/Refs.antt =====
-- src/optimizer/optimizer.c: which relations a condition touches, and the masks that record it; the
-- name lookups of src/query_exec/query_exec.c that it uses.
pub mod Masks
pub mod Touches
use Prim.Native.Nat.{bit_or}
use compute_ql.Shared.{
  ℕ, zero, suc, ◌+◌, ◌-◌, ◌*◌, ◌/◌, ◌%◌, ◌^◌, Bool, true, false, List, [], ◌∷◌, Option, none, some,
  if◌then◌else◌, ◌==◌, ltb, length,
}
use compute_ql.Text.{Text, str8_match, match_any_case, str8_prefix, str8_skip}
use compute_ql.Ir.{NodeType, Node, Nodes, node, nil, cons}
use compute_ql.Catalog.{Table, cql_table_find_column}
use compute_ql.Optimizer.{Relation}

-- The position of the first dot, which the loops over a column name stop at.
unfoldable pub find_dot : ℕ → Text → Option ℕ
find_dot i [] = none
find_dot i (c ∷ s) = let rest : Option ℕ = find_dot (i + 1) s in if c == b'.' then some i else rest

unfoldable pub qe_bare_column_name : Text → Text
qe_bare_column_name name = elim (find_dot 0 name) [ none ↦ name | some i ↦ str8_skip name (i + 1) ]

unfoldable pub is_found {ℓ} : {A : Type ℓ} → Option A → Bool
is_found none = false
is_found (some a) = true

unfoldable pub qe_column_belongs_to_table : Table → Text → Text → Bool
unfolding is_found
qe_column_belongs_to_table table alias name = elim (find_dot 0 name) [
  | none ↦ is_found (cql_table_find_column table name)
  | some i ↦
      let shown : Text = if ltb 0 (length alias) then alias else table.name in
      if str8_match (str8_prefix name i) shown match_any_case
      then is_found (cql_table_find_column table (str8_skip name (i + 1)))
      else false
]

-- max_U32.
abbrev pub no_relation : ℕ
no_relation = 2 ^ 32 - 1

-- The loop of `optimizer_resolve_column`, from relation `index` on.
unfoldable pub resolve_loop : List Relation → ℕ → Text → ℕ → ℕ → ℕ × ℕ
resolve_loop [] index name count matched = (count, matched)
resolve_loop (r ∷ rs) index name count matched =
    let belongs : Bool = qe_column_belongs_to_table r.table r.alias name in
    resolve_loop rs (index + 1) name (if belongs then count + 1 else count)
      (if belongs then index else matched)

unfoldable pub optimizer_resolve_column : List Relation → Text → ℕ
optimizer_resolve_column relations name =
    let (count, matched) = resolve_loop relations 0 name 0 no_relation in
    if count == 1 then matched else no_relation

-- What `optimizer_collect_relation_refs` writes through its two pointers.
pub record Refs : Type 0 where
  pub mask : ℕ
  pub unresolved : Bool

unfoldable pub add_relation : ℕ → Refs → Refs
add_relation index refs =
    if index == no_relation
    then record refs { unresolved = true }
    else record refs { mask = bit_or refs.mask (2 ^ index % 2 ^ 64) }

unfoldable mutual
  pub optimizer_collect_relation_refs : List Relation → Node → Refs → Refs
  optimizer_collect_relation_refs rs (node NodeType.column v cs) refs =
      add_relation (optimizer_resolve_column rs v) refs
  optimizer_collect_relation_refs rs (node NodeType.numeric v cs) refs = refs
  optimizer_collect_relation_refs rs (node NodeType.literal v cs) refs = refs
  optimizer_collect_relation_refs rs (node NodeType.operator v cs) refs =
      collect_children_refs rs cs refs
  optimizer_collect_relation_refs rs (node NodeType.in_list v cs) refs =
      collect_children_refs rs cs refs
  optimizer_collect_relation_refs rs (node NodeType.aggregate_call v cs) refs =
      collect_children_refs rs cs refs
  optimizer_collect_relation_refs rs (node _ v cs) refs = record refs { unresolved = true }

  pub collect_children_refs : List Relation → Nodes → Refs → Refs
  collect_children_refs rs nil refs = refs
  collect_children_refs rs (cons c cs) refs =
      collect_children_refs rs cs (optimizer_collect_relation_refs rs c refs)

-- `while (mask != 0) { count += mask & 1; mask >>= 1; }`. A U64 is used up in 64 rounds.
unfoldable pub popcount_loop : ℕ → ℕ → ℕ → ℕ
popcount_loop zero mask count = count
popcount_loop (suc fuel) mask count =
    let rest : ℕ = popcount_loop fuel (mask / 2) (count + mask % 2) in
    if mask == 0 then count else rest

unfoldable pub optimizer_mask_popcount : ℕ → ℕ
optimizer_mask_popcount mask = popcount_loop 64 mask 0

unfoldable pub highest_loop : ℕ → ℕ → ℕ → ℕ → ℕ
highest_loop zero mask bit highest = highest
highest_loop (suc fuel) mask bit highest =
    let rest : ℕ =
      highest_loop fuel (mask / 2) (bit + 1) (if mask % 2 == 1 then bit else highest) in
    if mask == 0 then highest else rest

unfoldable pub optimizer_mask_highest : ℕ → ℕ
optimizer_mask_highest mask = highest_loop 64 mask 0 0
