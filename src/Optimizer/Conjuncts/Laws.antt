-- ===== src/Optimizer/Conjuncts/Laws.antt =====
-- src/optimizer/optimizer.c: splitting a condition at its ANDs and joining the parts again.
use compute_ql.Shared.{
  ℕ, zero, suc, ◌+◌, ◌-◌, ◌≤◌, ◌≡◌, refl, sym, ◌∙◌, List, [], ◌∷◌, ◌++◌, some, if◌then◌else◌,
  length, length-append, take, arith, Bool-cases, ltb, inl, inr, take_all,
}
use mathlib.Core.List.{append_assoc, append-nil}
use compute_ql.Text.{Text, str8_lit, str8_match, match_loop, adjust_char}
use compute_ql.Ir.{
  NodeType, Node, Nodes, node, nil, cons, ir_node_make, ir_node_add_child, add_last, same_type,
}
use compute_ql.Optimizer.{is_and, is_operator}
use compute_ql.Optimizer.Logic.{
  both, Row, meaning, first_meaning, second_meaning, all_hold, both_assoc, both-holds,
}
use compute_ql.Optimizer.Conjuncts.{
  optimizer_ir_clone, clone_children, Leaves, store_leaf, optimizer_ir_collect_conjuncts,
  collect_operands, and_chain_loop, optimizer_ir_and_chain,
}

add_all : Nodes → Nodes → Nodes
add_all done nil = done
add_all done (cons c cs) = add_all (add_last done c) cs

add_all-cons : (c : Node) (done cs : Nodes) → add_all (cons c done) cs ≡ cons c (add_all done cs)
unfolding add_all add_last
add_all-cons c done nil = refl
add_all-cons c done (cons d cs) = add_all-cons c (add_last done d) cs

add_all-nil : (cs : Nodes) → add_all nil cs ≡ cs
unfolding add_all add_last
add_all-nil nil = refl
add_all-nil (cons c cs) = rw (add_all-cons c nil cs, add_all-nil cs)

mutual
  unfolding optimizer_ir_clone ir_node_make ir_node_add_child add_all

  -- A clone is the tree that it copies.
  pub clone_lem : (n : Node) → optimizer_ir_clone n ≡ n
  clone_lem (node t v cs) = rw (children_clone cs t v nil, add_all-nil cs)

  children_clone :
      (cs : Nodes) (t : NodeType) (v : Text) (done : Nodes)
      → clone_children cs (node t v done) ≡ node t v (add_all done cs)
  children_clone nil t v done = refl
  children_clone (cons c cs) t v done = rw (clone_lem c, children_clone cs t v (add_last done c))

-- The operands of the ANDs, left to right, written without the counted array.
unfoldable mutual
  pub conjuncts : Node → List Node
  conjuncts (node t v cs) =
      let parts : List Node = operand_conjuncts cs in
      if is_and (node t v cs) then parts else node t v cs ∷ []

  pub operand_conjuncts : Nodes → List Node
  operand_conjuncts nil = []
  operand_conjuncts (cons left nil) = conjuncts left
  operand_conjuncts (cons left (cons right rest)) = conjuncts left ++ conjuncts right

-- What the walk has made of the conjuncts that it has met.
abbrev pub gathered : ℕ → Leaves → List Node → Leaves
gathered capacity acc ns = record {
  stored = acc.stored ++ take (capacity - acc.count) ns;
  count = acc.count + length ns;
}

take-append {ℓ} :
    {A : Type ℓ} (n : ℕ) (xs ys : List A) → take n (xs ++ ys) ≡ take n xs ++ take (n - length xs) ys
take-append zero xs ys = ground arith
take-append (suc n) [] ys = ground arith
take-append (suc n) (x ∷ xs) ys = ground (arith, take-append n xs ys)

gathered-append :
    (capacity : ℕ) (acc : Leaves) (ms ns : List Node)
    → gathered capacity (gathered capacity acc ms) ns ≡ gathered capacity acc (ms ++ ns)
gathered-append capacity acc ms ns = ground (
  arith,
  take-append (capacity - acc.count) ms ns,
  length-append ms ns,
  append_assoc acc.stored (take (capacity - acc.count) ms)
      (take (capacity - (acc.count + length ms)) ns),
)

take-nil {ℓ} : {A : Type ℓ} (n : ℕ) → take {A = A} n [] ≡ []
take-nil zero = refl
take-nil (suc n) = refl

gathered-nil : (capacity : ℕ) (acc : Leaves) → acc ≡ gathered capacity acc []
gathered-nil capacity acc =
    ground (arith, take-nil {A = Node} (capacity - acc.count), append-nil acc.stored)

take-one :
    (k : ℕ) (n : Node) (xs : List Node)
    → xs ++ take k (n ∷ []) ≡ (if ltb 0 k then xs ++ (n ∷ []) else xs)
take-one zero n xs = ground (arith, append-nil xs)
take-one (suc zero) n xs = ground arith
take-one (suc (suc k)) n xs = ground arith

gathered-leaf :
    (capacity : ℕ) (n : Node) (acc : Leaves)
    → store_leaf capacity n acc ≡ gathered capacity acc (n ∷ [])
unfolding store_leaf
gathered-leaf capacity n acc = ground (arith, take-one (capacity - acc.count) n acc.stored)

mutual
  unfolding optimizer_ir_collect_conjuncts conjuncts

  collect_gathered :
      (capacity : ℕ) (n : Node) (acc : Leaves)
      → optimizer_ir_collect_conjuncts capacity n acc ≡ gathered capacity acc (conjuncts n)
  collect_gathered capacity (node t v cs) acc = elim (Bool-cases (is_and (node t v cs))) [
    | inl e ↦ rw e (operands_gathered capacity cs acc)
    | inr e ↦ rw e (gathered-leaf capacity (node t v cs) acc)
  ]

  operands_gathered :
      (capacity : ℕ) (cs : Nodes) (acc : Leaves)
      → collect_operands capacity cs acc ≡ gathered capacity acc (operand_conjuncts cs)
  operands_gathered capacity nil acc = gathered-nil capacity acc
  operands_gathered capacity (cons left nil) acc = collect_gathered capacity left acc
  operands_gathered capacity (cons left (cons right rest)) acc =
      rw
        (
          collect_gathered capacity left acc,
          collect_gathered capacity right (gathered capacity acc (conjuncts left)),
        )
        (gathered-append capacity acc (conjuncts left) (conjuncts right))

-- The walk over a condition stores its conjuncts in order, as many as the array holds, and counts
-- them all.
pub collect_conjuncts_lem :
    (capacity : ℕ) (root : Node)
    → optimizer_ir_collect_conjuncts capacity root (record { stored = []; count = 0 })
      ≡ record { stored = take capacity (conjuncts root); count = length (conjuncts root) }
collect_conjuncts_lem capacity root =
    collect_gathered capacity root (record { stored = []; count = 0 }) ∙ ground arith

abbrev and_node : Node → Node → Node
and_node a b =
    ir_node_add_child (ir_node_add_child (ir_node_make NodeType.operator (str8_lit "and")) a) b

module _ {V : Type 0} (row : Row V) where
  all_hold-append :
      (ms ns : List Node) → all_hold row (ms ++ ns) ≡ both (all_hold row ms) (all_hold row ns)
  unfolding all_hold
  all_hold-append [] ns = refl
  all_hold-append (m ∷ ms) ns =
      rw (all_hold-append ms ns, both_assoc (meaning row m) (all_hold row ms) (all_hold row ns))

  mutual
    unfolding conjuncts meaning all_hold

    all_hold-conjuncts : (n : Node) → all_hold row (conjuncts n) ≡ meaning row n
    all_hold-conjuncts (node t v cs) =
        ground (arith, all_hold-operands cs, both-holds (meaning row (node t v cs)))

    all_hold-operands :
        (cs : Nodes)
        → all_hold row (operand_conjuncts cs) ≡ both (first_meaning row cs) (second_meaning row cs)
    all_hold-operands nil = refl
    all_hold-operands (cons left nil) =
        all_hold-conjuncts left ∙ sym (both-holds (meaning row left))
    all_hold-operands (cons left (cons right rest)) =
        all_hold-append (conjuncts left) (conjuncts right)
        ∙ rw (all_hold-conjuncts left, all_hold-conjuncts right)

  meaning-and_node :
      (a b : Node) → meaning row (and_node a b) ≡ both (meaning row a) (meaning row b)
  unfolding meaning ir_node_add_child ir_node_make is_operator str8_match match_loop same_type
      adjust_char
  meaning-and_node a b = refl

  chain_meaning :
      (chain : Node) (ns : List Node)
      → meaning row (and_chain_loop chain ns) ≡ both (meaning row chain) (all_hold row ns)
  unfolding and_chain_loop all_hold
  chain_meaning chain [] = sym (both-holds (meaning row chain))
  chain_meaning chain (n ∷ ns) = rw (clone_lem n) (
      chain_meaning (and_node chain n) ns
      ∙ rw (meaning-and_node chain n)
          (both_assoc (meaning row chain) (meaning row n) (all_hold row ns)))

  chain_all_hold :
      (ns : List Node) (chain : Node)
      → optimizer_ir_and_chain ns ≡ some chain
      → meaning row chain ≡ all_hold row ns
  unfolding optimizer_ir_and_chain all_hold
  chain_all_hold [] chain e = cc
  chain_all_hold (n ∷ ns) chain e =
      ground (arith, chain_meaning (optimizer_ir_clone n) ns, clone_lem n)

-- A condition whose conjuncts fit the array means what the chain of its collected conjuncts means,
-- in SQL's three-valued logic: rebuilding it changes no row's answer.
pub and_chain-collect_meaning :
    {V : Type 0} (row : Row V) (capacity : ℕ) (root chain : Node)
    → (optimizer_ir_collect_conjuncts capacity root (record { stored = []; count = 0 })).count
      ≤ capacity
    → optimizer_ir_and_chain
        (optimizer_ir_collect_conjuncts capacity root (record { stored = []; count = 0 })).stored
      ≡ some chain
    → meaning row chain ≡ meaning row root
and_chain-collect_meaning row capacity root chain fits e = ground (
  arith,
  collect_conjuncts_lem capacity root,
  chain_all_hold row (conjuncts root) chain,
  take_all capacity (conjuncts root),
  all_hold-conjuncts row root,
)
