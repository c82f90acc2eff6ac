-- ===== src/Order/Sift.antt =====
-- src/query_exec/query_exec.c, `qe_order_sift_down`: the rows that a heap holds around a sift.
use compute_ql.Shared.{
  ℕ, zero, suc, ◌+◌, ◌-◌, ◌*◌, ◌/◌, ◌≤◌, ◌<◌, ◌≡◌, ◌≢◌, refl, ◌∙◌, ap, Bool, true, false, List, [],
  ◌∷◌, arith, leb, ◌==◌, if◌then◌else◌, length, set, Bool-cases, inl, inr, ◌⊎◌, length-set,
  get_or-set_ne,
}
use compute_ql.Order.{qe_order_before, at, later_child, sift_loop, qe_order_sift_down, heapify_loop}
use compute_ql.Order.Laws.{count, count-set, ahead}

abbrev pub parent : ℕ → ℕ
parent c = (c - 1) / 2

abbrev pub swap : List ℕ → ℕ → ℕ → List ℕ
swap heap i j = set (set heap i (at heap j)) j (at heap i)

pub at-set :
    (heap : List ℕ) (i v k : ℕ)
    → i < length heap
    → at (set heap i v) k ≡ (if k == i then v else at heap k)
at-set [] i v k h = elim h [ ]
at-set (x ∷ xs) zero v zero h = refl
at-set (x ∷ xs) zero v (suc k) h = ground arith
at-set (x ∷ xs) (suc i) v zero h = ground arith
at-set (x ∷ xs) (suc i) v (suc k) h = ground (arith, at-set xs i v k)

pub at-swap :
    (heap : List ℕ) (i j k : ℕ)
    → i < length heap
    → j < length heap
    → at (swap heap i j) k ≡ (if k == j then at heap i else if k == i then at heap j else at heap k)
at-swap heap i j k h l = ground (
  arith,
  at-set (set heap i (at heap j)) j (at heap i) k,
  at-set heap i (at heap j) k,
  length-set heap i (at heap j),
)

pub length-swap : (heap : List ℕ) (i j : ℕ) → length (swap heap i j) ≡ length heap
length-swap heap i j =
    length-set (set heap i (at heap j)) j (at heap i) ∙ length-set heap i (at heap j)

abbrev said : ℕ → ℕ → ℕ
said a k = if a == k then 1 else 0

pub count-swap :
    (a : ℕ) (heap : List ℕ) (i j : ℕ)
    → i < length heap
    → j < length heap
    → i ≢ j
    → count a (swap heap i j) ≡ count a heap
count-swap a heap i j h l n = omega (
  arith,
  count-set a (set heap i (at heap j)) j (at heap i),
  count-set a heap i (at heap j),
  length-set heap i (at heap j),
  ap (said a) (get_or-set_ne heap i j (at heap j) 0 n),
)

pub one_of_two : (c i : ℕ) → 0 < c → parent c ≡ i → (c ≡ i * 2 + 1) ⊎ (c ≡ i * 2 + 1 + 1)
one_of_two c i h e = elim (Bool-cases (c == i * 2 + 1)) [
  | inl left ↦ inl (ground arith)
  | inr right ↦ inr (ground arith)
]

module _ (less : ℕ → ℕ → Bool) where
  -- No row of the heap of `size` rows is behind its parent, for the parents from `low` on.
  pub record IsHeapFrom (low size : ℕ) (heap : List ℕ) : Type 0 where
    pub edges :
        (c : ℕ)
        → 0 < c
        → c < size
        → low ≤ parent c
        → ahead less (at heap c) (at heap (parent c)) ≡ true

  -- Only the children of `i` may be behind it.
  pub record IsOpenAt (low size : ℕ) (heap : List ℕ) (i : ℕ) : Type 0 where
    pub edges :
        (c : ℕ)
        → 0 < c
        → c < size
        → low ≤ parent c
        → parent c ≢ i
        → ahead less (at heap c) (at heap (parent c)) ≡ true
    pub bridged :
        (c : ℕ)
        → 0 < c
        → c < size
        → parent c ≡ i
        → 0 < i
        → low ≤ parent i
        → ahead less (at heap c) (at heap (parent i)) ≡ true

  module _ (fuel size i : ℕ) (heap : List ℕ) where
    pub sift_leaf : leb size (i * 2 + 1) ≡ true → sift_loop less (suc fuel) heap size i ≡ heap
    unfolding sift_loop
    sift_leaf h = ground arith

    pub sift_end :
        leb size (i * 2 + 1) ≡ false
        → qe_order_before less (at heap i) (at heap (later_child less heap size i)) ≡ false
        → sift_loop less (suc fuel) heap size i ≡ heap
    unfolding sift_loop
    sift_end h k = ground arith

    pub sift_on :
        leb size (i * 2 + 1) ≡ false
        → qe_order_before less (at heap i) (at heap (later_child less heap size i)) ≡ true
        → sift_loop less (suc fuel) heap size i
          ≡ sift_loop less fuel
              (swap heap i (later_child less heap size i))
              size
              (later_child less heap size i)
    unfolding sift_loop
    sift_on h k = ground arith

  pub later_child_bounds :
      (heap : List ℕ) (size i : ℕ)
      → i * 2 + 1 < size
      → (later_child less heap size i < size) × (i < later_child less heap size i)
  unfolding later_child
  later_child_bounds heap size i h = ground arith

  length-sift_loop :
      (fuel size i : ℕ) (heap : List ℕ) → length (sift_loop less fuel heap size i) ≡ length heap
  unfolding sift_loop
  length-sift_loop zero size i heap = refl
  length-sift_loop (suc fuel) size i heap = ground (
    arith,
    length-swap heap i (later_child less heap size i),
    length-sift_loop fuel size (later_child less heap size i)
        (swap heap i (later_child less heap size i)),
  )

  pub length-sift_down :
      (heap : List ℕ) (size i : ℕ) → length (qe_order_sift_down less heap size i) ≡ length heap
  unfolding qe_order_sift_down
  length-sift_down heap size i = length-sift_loop size size i heap

  sift_loop-count :
      (a fuel size i : ℕ) (heap : List ℕ)
      → size ≤ length heap
      → count a (sift_loop less fuel heap size i) ≡ count a heap
  unfolding sift_loop
  sift_loop-count a zero size i heap fits = refl
  sift_loop-count a (suc fuel) size i heap fits =
      let m : ℕ = later_child less heap size i in
      ground (
        arith,
        later_child_bounds heap size i,
        length-swap heap i m,
        count-swap a heap i m,
        sift_loop-count a fuel size m (swap heap i m),
      )

  pub sift_down-count :
      (a : ℕ) (heap : List ℕ) (size i : ℕ)
      → size ≤ length heap
      → count a (qe_order_sift_down less heap size i) ≡ count a heap
  unfolding qe_order_sift_down
  sift_down-count a heap size i fits = sift_loop-count a size size i heap fits

  pub length-heapify :
      (root size : ℕ) (heap : List ℕ) → length (heapify_loop less root heap size) ≡ length heap
  unfolding heapify_loop
  length-heapify zero size heap = refl
  length-heapify (suc root) size heap =
      length-heapify root size (qe_order_sift_down less heap size root)
      ∙ length-sift_down heap size root

  pub heapify-count :
      (a root size : ℕ) (heap : List ℕ)
      → size ≤ length heap
      → count a (heapify_loop less root heap size) ≡ count a heap
  unfolding heapify_loop
  heapify-count a zero size heap fits = refl
  heapify-count a (suc root) size heap fits =
      heapify-count a root size (qe_order_sift_down less heap size root)
        (omega (arith, length-sift_down heap size root))
      ∙ sift_down-count a heap size root fits
