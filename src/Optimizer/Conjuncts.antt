-- ===== src/Optimizer/Conjuncts.antt =====
-- src/optimizer/optimizer.c: `optimizer_ir_clone`, `optimizer_ir_collect_conjuncts`,
-- `optimizer_ir_and_chain`, `optimizer_ir_make_where`.
pub mod Laws
use compute_ql.Shared.{ℕ, ◌+◌, List, [], ◌∷◌, ◌++◌, Option, none, some, if◌then◌else◌, ltb}
use compute_ql.Text.{str8_lit}
use compute_ql.Ir.{NodeType, Node, Nodes, node, nil, cons, ir_node_make, ir_node_add_child}
use compute_ql.Optimizer.{is_and}

unfoldable mutual
  pub optimizer_ir_clone : Node → Node
  optimizer_ir_clone (node t v cs) = clone_children cs (ir_node_make t v)

  pub clone_children : Nodes → Node → Node
  clone_children nil copy = copy
  clone_children (cons c cs) copy =
      clone_children cs (ir_node_add_child copy (optimizer_ir_clone c))

-- The conjuncts stored so far, and how many there were.
pub record Leaves : Type 0 where
  pub stored : List Node
  pub count : ℕ

-- `if (count < capacity) out_conjuncts[count] = root; return count + 1;`
unfoldable pub store_leaf : ℕ → Node → Leaves → Leaves
store_leaf capacity root acc = record {
  stored = if ltb acc.count capacity then acc.stored ++ (root ∷ []) else acc.stored;
  count = acc.count + 1;
}

unfoldable mutual
  pub optimizer_ir_collect_conjuncts : ℕ → Node → Leaves → Leaves
  optimizer_ir_collect_conjuncts capacity (node t v cs) acc =
      let both : Leaves = collect_operands capacity cs acc in
      if is_and (node t v cs) then both else store_leaf capacity (node t v cs) acc

  -- The left operand, then the right one; either may be missing.
  pub collect_operands : ℕ → Nodes → Leaves → Leaves
  collect_operands capacity nil acc = acc
  collect_operands capacity (cons left nil) acc = optimizer_ir_collect_conjuncts capacity left acc
  collect_operands capacity (cons left (cons right rest)) acc =
      optimizer_ir_collect_conjuncts capacity right
        (optimizer_ir_collect_conjuncts capacity left acc)

-- The loop of `optimizer_ir_and_chain`, left nested.
unfoldable pub and_chain_loop : Node → List Node → Node
and_chain_loop chain [] = chain
and_chain_loop chain (c ∷ cs) =
    and_chain_loop
      (ir_node_add_child (ir_node_add_child (ir_node_make NodeType.operator (str8_lit "and")) chain)
        (optimizer_ir_clone c))
      cs

unfoldable pub optimizer_ir_and_chain : List Node → Option Node
unfolding and_chain_loop
optimizer_ir_and_chain [] = none
optimizer_ir_and_chain (c ∷ cs) = some (and_chain_loop (optimizer_ir_clone c) cs)

unfoldable pub optimizer_ir_make_where : Node → Node
optimizer_ir_make_where e = ir_node_add_child (ir_node_make NodeType.where_clause []) e
