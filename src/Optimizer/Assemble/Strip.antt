-- ===== src/Optimizer/Assemble/Strip.antt =====
-- src/optimizer/optimizer.c, `optimizer_ir_strip_column_qualifiers`: it keeps the ANDs of a condition.
use compute_ql.Shared.{◌≡◌, refl, true, arith}
use compute_ql.Text.{Text}
use compute_ql.Ir.{NodeType, Node, Nodes, node, same_type}
use compute_ql.Plan.Build.{optimizer_ir_strip_column_qualifiers, strip_children}
use compute_ql.Optimizer.{is_operator, is_and}

pub strip-and :
    (t : NodeType) (v : Text) (cs : Nodes)
    → is_and (node t v cs) ≡ true
    → optimizer_ir_strip_column_qualifiers (node t v cs) ≡ node t v (strip_children cs)
unfolding optimizer_ir_strip_column_qualifiers is_operator same_type
strip-and t v cs e = ground arith

pub is_and-children :
    (t : NodeType) (v : Text) (cs ds : Nodes) → is_and (node t v cs) ≡ is_and (node t v ds)
unfolding is_operator
is_and-children t v cs ds = refl

pub is_and-strip : (n : Node) → is_and (optimizer_ir_strip_column_qualifiers n) ≡ is_and n
unfolding optimizer_ir_strip_column_qualifiers is_operator same_type
is_and-strip (node t v cs) = ground arith
