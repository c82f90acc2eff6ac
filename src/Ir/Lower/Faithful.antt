-- ===== src/Ir/Lower/Faithful.antt =====
-- src/ir_gen/ir_gen.c: what the lowering keeps of the syntax tree.
use compute_ql.Shared.{ℕ, ◌+◌, ◌≡◌, refl, List, [], ◌∷◌, ◌++◌, length, map, arith}
use mathlib.Core.List.{append_assoc, append-nil}
use compute_ql.Sql.Tree.{SqlNode, SqlNodes, sql}
use compute_ql.Ir.{NodeType, Node, Nodes, node, ir_node_add_child, add_last}
use compute_ql.Ir.Lower.{
  IrQuery, ir_type_from_sql_node_type, ir_generate_recursive, ir_generate_children,
  ir_generate_loop, ir_generate_from_ast,
}

-- The IR tree of the same shape with the same values, written without the loop over children.
unfoldable mutual
  pub image : SqlNode → Node
  image (sql t v cs) = node (ir_type_from_sql_node_type t) v (images cs)

  pub images : SqlNodes → Nodes
  images SqlNodes.nil = Nodes.nil
  images (SqlNodes.cons c cs) = Nodes.cons (image c) (images cs)

joined : Nodes → Nodes → Nodes
joined Nodes.nil ds = ds
joined (Nodes.cons c cs) ds = Nodes.cons c (joined cs ds)

joined-nil : (cs : Nodes) → joined cs Nodes.nil ≡ cs
unfolding joined
joined-nil Nodes.nil = refl
joined-nil (Nodes.cons c cs) = cc (joined-nil cs)

joined-add_last :
    (cs ds : Nodes) (c : Node) → joined (add_last cs c) ds ≡ joined cs (Nodes.cons c ds)
unfolding joined add_last
joined-add_last Nodes.nil ds c = refl
joined-add_last (Nodes.cons d cs) ds c = cc (joined-add_last cs ds c)

mutual
  unfolding ir_generate_recursive image joined ir_node_add_child

  pub recursive_image : (n : SqlNode) → ir_generate_recursive n ≡ image n
  recursive_image (sql t v cs) = children_image cs (ir_type_from_sql_node_type t) v Nodes.nil

  children_image :
      (cs : SqlNodes) (t : NodeType) (v : List ℕ) (done : Nodes)
      → ir_generate_children cs (node t v done) ≡ node t v (joined done (images cs))
  children_image SqlNodes.nil t v done = rw (joined-nil done)
  children_image (SqlNodes.cons c cs) t v done = rw (
    children_image cs t v (add_last done (ir_generate_recursive c)),
    recursive_image c,
    joined-add_last done (images cs) (image c),
  )

queries_image :
    (ast : List SqlNode) (q : IrQuery)
    → ir_generate_loop ast q ≡ record {
      execution_nodes = q.execution_nodes ++ map image ast;
      count = q.count + length ast;
    }
unfolding ir_generate_loop
queries_image [] q = ground (arith, append-nil q.execution_nodes)
queries_image (n ∷ ns) q = ground (
  arith,
  recursive_image n,
  append_assoc q.execution_nodes (image n ∷ []) (map image ns),
  queries_image ns (record {
    execution_nodes = q.execution_nodes ++ (ir_generate_recursive n ∷ []);
    count = q.count + 1;
  }),
)

-- The lowered query holds, in order, the image of each statement of the syntax tree: the same tree
-- with each type mapped and each value kept. Its count is the number of statements.
pub from_ast_image :
    (ast : List SqlNode)
    → ir_generate_from_ast ast ≡ record { execution_nodes = map image ast; count = length ast }
unfolding ir_generate_from_ast
from_ast_image ast = ground (arith, queries_image ast (record { execution_nodes = []; count = 0 }))
