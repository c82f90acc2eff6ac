-- ===== src/Optimizer/Refs/Touches.antt =====
-- src/optimizer/optimizer.c: what `optimizer_collect_relation_refs` records of a condition.
use Prim.Native.Nat.{bit_or}
use compute_ql.Shared.{
  ℕ, ◌+◌, ◌%◌, ◌^◌, ◌≤◌, ◌<◌, ◌≡◌, refl, ap, Bool, true, false, ◌||◌, List, [], ◌∷◌, arith, ◌==◌,
  ◌⊎◌, inl, inr, length, max, Bool-cases,
}
use mathlib.Core.Bool.{false≢true}
use compute_ql.Shared.Bits.{
  bit_at-none, bit_at, bit_at-bit_or, bit_at-pow_self, bit_at-pow_ne, pow-lt,
}
use compute_ql.Text.{Text}
use compute_ql.Ir.{NodeType, Node, Nodes, node, nil, cons}
use compute_ql.Optimizer.{Relation}
use compute_ql.Optimizer.Refs.{
  no_relation, resolve_loop, optimizer_resolve_column, Refs, add_relation,
  optimizer_collect_relation_refs, collect_children_refs,
}
use native.Mathlib.Decide.{ℕ_discrete}

-- The loop leaves `matched` alone, or sets it to a position of the list.
resolve_loop_range :
    (rs : List Relation) (index : ℕ) (name : Text) (count matched : ℕ)
    → ((resolve_loop rs index name count matched).1 ≡ matched)
      ⊎ ((resolve_loop rs index name count matched).1 < index + length rs)
unfolding resolve_loop
resolve_loop_range [] index name count matched = inl refl
resolve_loop_range (r ∷ rs) index name count matched = ground (
  arith,
  resolve_loop_range rs (index + 1) name (count + 1) index,
  resolve_loop_range rs (index + 1) name count matched,
)

-- A column resolves to a relation of the list, or to none.
pub resolve_column_range :
    (rs : List Relation) (name : Text)
    → (optimizer_resolve_column rs name ≡ no_relation)
      ⊎ (optimizer_resolve_column rs name < length rs)
unfolding optimizer_resolve_column
resolve_column_range rs name = ground (arith, resolve_loop_range rs 0 name 0 no_relation)

-- Whether a column under operators, IN lists and aggregate calls only resolves to relation `k`.
unfoldable mutual
  pub touches : List Relation → ℕ → Node → Bool
  touches rs k (node NodeType.column v cs) = optimizer_resolve_column rs v == k
  touches rs k (node NodeType.operator v cs) = any_touches rs k cs
  touches rs k (node NodeType.in_list v cs) = any_touches rs k cs
  touches rs k (node NodeType.aggregate_call v cs) = any_touches rs k cs
  touches rs k (node _ v cs) = false

  pub any_touches : List Relation → ℕ → Nodes → Bool
  any_touches rs k nil = false
  any_touches rs k (cons c cs) = touches rs k c || any_touches rs k cs

abbrev pub as_bit : Bool → ℕ
as_bit true = 1
as_bit false = 0

power_fits : (i : ℕ) → i < 32 → 2 ^ i % 2 ^ 64 ≡ 2 ^ i
power_fits i h = omega (arith, pow-lt i 64 (omega arith))

-- Setting bit `i` of a mask shows at bit `i` alone.
set_bit : (k i mask : ℕ) → bit_at k (bit_or mask (2 ^ i)) ≡ max (bit_at k mask) (as_bit (i == k))
set_bit k i mask = elim (ℕ_discrete k i) [
  | yes p ↦ ground (
    arith,
    bit_at-bit_or k mask (2 ^ i),
    bit_at-pow_self k,
    p,
    ap (λ (j : ℕ). bit_at k (2 ^ j)) p,
  )
  | no p ↦ ground (arith, bit_at-bit_or k mask (2 ^ i), bit_at-pow_ne k i p)
]

module _ (rs : List Relation) (few : length rs ≤ 32) (k : ℕ) (small : k < 64) where
  add_relation_bit :
      (v : Text) (refs : Refs)
      → bit_at k (add_relation (optimizer_resolve_column rs v) refs).mask
        ≡ max (bit_at k refs.mask) (as_bit (optimizer_resolve_column rs v == k))
  unfolding add_relation
  add_relation_bit v refs = elim (resolve_column_range rs v) [
    | inl e ↦ ground arith
    | inr l ↦
        let fits = power_fits (optimizer_resolve_column rs v) (omega arith) in
        ground (arith, fits, set_bit k (optimizer_resolve_column rs v) refs.mask)
  ]

  mutual
    unfolding optimizer_collect_relation_refs touches

    refs_bit :
        (n : Node) (refs : Refs)
        → bit_at k (optimizer_collect_relation_refs rs n refs).mask
          ≡ max (bit_at k refs.mask) (as_bit (touches rs k n))
    refs_bit (node NodeType.column v cs) refs = add_relation_bit v refs
    refs_bit (node NodeType.operator v cs) refs = children_bit cs refs
    refs_bit (node NodeType.in_list v cs) refs = children_bit cs refs
    refs_bit (node NodeType.aggregate_call v cs) refs = children_bit cs refs
    refs_bit (node NodeType.numeric v cs) refs = omega arith
    refs_bit (node NodeType.literal v cs) refs = omega arith
    refs_bit (node _ v cs) refs = omega arith

    children_bit :
        (cs : Nodes) (refs : Refs)
        → bit_at k (collect_children_refs rs cs refs).mask
          ≡ max (bit_at k refs.mask) (as_bit (any_touches rs k cs))
    children_bit nil refs = omega arith
    children_bit (cons c cs) refs =
        ground (arith, children_bit cs (optimizer_collect_relation_refs rs c refs), refs_bit c refs)

abbrev pub no_refs : Refs
no_refs = record { mask = 0; unresolved = false }

-- With 32 relations at most, bit k of the 64 bits of the mask of a condition is set exactly when a
-- column that stands under operators, IN lists and aggregate calls only resolves to relation k. What
-- stands below any other node, such as EXISTS, a subquery or a window, sets no bit.
pub refs_bit_lem :
    (rs : List Relation) (k : ℕ) (n : Node)
    → length rs ≤ 32
    → k < 64
    → bit_at k (optimizer_collect_relation_refs rs n no_refs).mask ≡ as_bit (touches rs k n)
refs_bit_lem rs k n few small = omega (arith, refs_bit rs few k small n no_refs, bit_at-none k)

module _ (rs : List Relation) (k : ℕ) (small : k < 64) where
  mutual
    unfolding touches

    touches_range : (n : Node) → touches rs k n ≡ true → k < length rs
    touches_range (node NodeType.column v cs) e = ground (arith, resolve_column_range rs v)
    touches_range (node NodeType.operator v cs) e = any_touches_range cs e
    touches_range (node NodeType.in_list v cs) e = any_touches_range cs e
    touches_range (node NodeType.aggregate_call v cs) e = any_touches_range cs e
    touches_range (node _ v cs) e = absurd (false≢true e)

    any_touches_range : (cs : Nodes) → any_touches rs k cs ≡ true → k < length rs
    any_touches_range nil e = absurd (false≢true e)
    any_touches_range (cons c cs) e = elim (Bool-cases (touches rs k c)) [
      | inl t ↦ touches_range c t
      | inr f ↦ any_touches_range cs (rw f at e)
    ]

-- A bit of the mask is the position of a relation.
pub refs_range :
    (rs : List Relation) (k : ℕ) (n : Node)
    → length rs ≤ 32
    → k < 64
    → bit_at k (optimizer_collect_relation_refs rs n no_refs).mask ≡ 1
    → k < length rs
refs_range rs k n few small e =
    touches_range rs k small n (ground (arith, refs_bit_lem rs k n few small))
