-- ===== src/Optimizer/Assemble/Totals.antt =====
-- src/optimizer/optimizer.c: weights of the leaves of a condition and of a plan.
use compute_ql.Shared.{
  ℕ, ◌+◌, ◌≡◌, refl, sym, ap, ◌∙◌, true, false, List, [], ◌∷◌, ◌++◌, Option, none, some,
  if◌then◌else◌, arith, Bool-cases, inl, inr,
}
use compute_ql.Text.{Text, str8_lit, str8_match, match_loop, adjust_char}
use compute_ql.Ir.{
  NodeType, Node, Nodes, node, nil, cons, same_type, ir_node_make, ir_node_add_child,
}
use compute_ql.Plan.{Plan, PlanType, plan, absent, same_plan_type}
use compute_ql.Plan.Build.{optimizer_ir_strip_column_qualifiers, strip_children}
use compute_ql.Optimizer.{Relation, is_operator, is_and}
use compute_ql.Optimizer.Conjuncts.{optimizer_ir_and_chain, and_chain_loop, optimizer_ir_make_where}
use compute_ql.Optimizer.Conjuncts.Laws.{conjuncts, operand_conjuncts, clone_lem}
use compute_ql.Optimizer.Load.{where_condition}
use compute_ql.Optimizer.Assemble.{filter_over, stripped}
use compute_ql.Optimizer.Assemble.Strip.{strip-and, is_and-children, is_and-strip}

-- A weight of conditions that does not see the qualifiers of columns.
module _ (g : Node → ℕ) (same : (n : Node) → g (optimizer_ir_strip_column_qualifiers n) ≡ g n) where
  unfoldable pub total : List Node → ℕ
  total [] = 0
  total (n ∷ ns) = g n + total ns

  total-append : (ms ns : List Node) → total (ms ++ ns) ≡ total ms + total ns
  unfolding total
  total-append [] ns = omega arith
  total-append (m ∷ ms) ns = omega (arith, total-append ms ns)

  -- Over the conjuncts of a condition.
  unfoldable pub leaf_total : Node → ℕ
  unfolding total
  leaf_total n = total (conjuncts n)

  abbrev pub option_total : Option Node → ℕ
  option_total none = 0
  option_total (some n) = leaf_total n

  unfoldable pub list_total : List Node → ℕ
  list_total [] = 0
  list_total (n ∷ ns) = leaf_total n + list_total ns

  pub list_total-append :
      (ms ns : List Node) → list_total (ms ++ ns) ≡ list_total ms + list_total ns
  unfolding list_total
  list_total-append [] ns = omega arith
  list_total-append (m ∷ ms) ns = omega (arith, list_total-append ms ns)

  leaf_total-and :
      (a b : Node)
      → leaf_total (
          ir_node_add_child
            (ir_node_add_child (ir_node_make NodeType.operator (str8_lit "and")) a)
            b)
        ≡ leaf_total a + leaf_total b
  unfolding leaf_total ir_node_add_child ir_node_make conjuncts is_operator same_type str8_match
      match_loop adjust_char
  leaf_total-and a b = total-append (conjuncts a) (conjuncts b)

  leaf_total-chain :
      (chain : Node) (ns : List Node)
      → leaf_total (and_chain_loop chain ns) ≡ leaf_total chain + list_total ns
  unfolding and_chain_loop list_total
  leaf_total-chain chain [] = omega arith
  leaf_total-chain chain (n ∷ ns) = rw (clone_lem n) (
      omega (
        arith,
        leaf_total-and chain n,
        leaf_total-chain
            (ir_node_add_child
              (ir_node_add_child (ir_node_make NodeType.operator (str8_lit "and")) chain) n)
            ns,
      ))

  pub chain_total : (ns : List Node) → option_total (optimizer_ir_and_chain ns) ≡ list_total ns
  unfolding optimizer_ir_and_chain list_total
  chain_total [] = refl
  chain_total (n ∷ ns) = rw (clone_lem n) (leaf_total-chain n ns)

  leaf_total-leaf : (n : Node) → is_and n ≡ false → leaf_total n ≡ g n + 0
  unfolding leaf_total conjuncts total
  leaf_total-leaf (node t v cs) e = rw e refl

  leaf_total-root :
      (t : NodeType) (v : Text) (cs : Nodes)
      → is_and (node t v cs) ≡ true
      → leaf_total (node t v cs) ≡ total (operand_conjuncts cs)
  unfolding leaf_total conjuncts
  leaf_total-root t v cs e = rw e refl

  mutual
    unfolding optimizer_ir_strip_column_qualifiers leaf_total conjuncts

    leaf_total-strip :
        (n : Node) → leaf_total (optimizer_ir_strip_column_qualifiers n) ≡ leaf_total n
    leaf_total-strip (node t v cs) = elim (Bool-cases (is_and (node t v cs))) [
      | inl e ↦ rw (strip-and t v cs e) (
          leaf_total-root t v (strip_children cs) (is_and-children t v (strip_children cs) cs ∙ e)
          ∙ (operands_strip cs ∙ sym (leaf_total-root t v cs e)))
      | inr e ↦
          leaf_total-leaf (optimizer_ir_strip_column_qualifiers (node t v cs))
            (is_and-strip (node t v cs) ∙ e)
          ∙ (ap (λ k. k + 0) (same (node t v cs)) ∙ sym (leaf_total-leaf (node t v cs) e))
    ]

    operands_strip :
        (cs : Nodes) → total (operand_conjuncts (strip_children cs)) ≡ total (operand_conjuncts cs)
    operands_strip nil = refl
    operands_strip (cons a nil) = leaf_total-strip a
    operands_strip (cons a (cons b rest)) = omega (
      arith,
      total-append (conjuncts (optimizer_ir_strip_column_qualifiers a))
          (conjuncts (optimizer_ir_strip_column_qualifiers b)),
      total-append (conjuncts a) (conjuncts b),
      leaf_total-strip a,
      leaf_total-strip b,
    )

  -- The conditions of a plan: a filter's is a WHERE, whose child counts.
  unfoldable pub plan_total : Plan → ℕ
  plan_total absent = 0
  plan_total (plan t left right f) =
      let below : ℕ = plan_total left + plan_total right in
      option_total
        (if same_plan_type t PlanType.filter then where_condition f.condition else f.condition)
      + below

  unfoldable pub scans_total : List Relation → ℕ
  scans_total [] = 0
  scans_total (r ∷ rs) = plan_total r.scan + scans_total rs

  pub filter_over_total :
      (input : Plan) (chain : Option Node)
      → plan_total (filter_over input chain) ≡ plan_total input + option_total chain
  unfolding plan_total same_plan_type optimizer_ir_make_where ir_node_add_child ir_node_make
  filter_over_total input none = omega arith
  filter_over_total input (some n) = omega arith

  pub stripped_total : (o : Option Node) → option_total (stripped o) ≡ option_total o
  stripped_total none = refl
  stripped_total (some n) = leaf_total-strip n
