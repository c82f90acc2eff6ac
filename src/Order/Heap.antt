-- ===== src/Order/Heap.antt =====
-- src/query_exec/query_exec.c, `qe_order_sift_down`: the order of a heap around a sift.
use compute_ql.Shared.{
  ℕ, zero, suc, ◌+◌, ◌*◌, ◌≤◌, ◌<◌, ◌≡◌, refl, Bool, true, List, arith, leb, ◌==◌, if◌then◌else◌,
  length, Bool-cases, inl, inr,
}
use compute_ql.Order.{qe_order_before, at, later_child, sift_loop, qe_order_sift_down, heapify_loop}
use compute_ql.Order.Laws.{IsWeakOrder, ahead, ahead_refl, ahead_total, ahead_trans}
use compute_ql.Order.Sift.{
  parent, swap, at-swap, length-swap, one_of_two, IsHeapFrom, IsOpenAt, sift_leaf, sift_end,
  sift_on, length-sift_down,
}

module _ (less : ℕ → ℕ → Bool) where
  module _ (w : IsWeakOrder less) where
    -- The child is a later one than its sibling.
    record IsLaterChild (size : ℕ) (heap : List ℕ) (i m : ℕ) : Type 0 where
      inside : m < size
      child : parent m ≡ i
      above : i < m
      latest : (c : ℕ) → 0 < c → c < size → parent c ≡ i → ahead less (at heap c) (at heap m) ≡ true

    later_child_lem :
        (heap : List ℕ) (size i : ℕ)
        → i * 2 + 1 < size
        → IsLaterChild size heap i (later_child less heap size i)
    unfolding later_child
    later_child_lem heap size i h = record {
      inside = ground arith;
      child = ground arith;
      above = ground arith;
      latest = λ c p q r. ground (
        arith,
        ahead_refl less w (at heap c),
        one_of_two c i p r,
        ahead_total less w (at heap (i * 2 + 1 + 1)) (at heap (i * 2 + 1)),
      );
    }

    swap-IsOpenAt :
        (low size : ℕ) (heap : List ℕ) (i m : ℕ)
        → size ≤ length heap
        → IsOpenAt less low size heap i
        → IsLaterChild size heap i m
        → qe_order_before less (at heap i) (at heap m) ≡ true
        → IsOpenAt less low size (swap heap i m) m
    swap-IsOpenAt low size heap i m fits v s below =
        let lower : m < length heap = omega (arith, s.inside) in
        let upper : i < length heap = omega (arith, s.inside, s.above) in
        let spot : (k : ℕ)
            → at (swap heap i m) k
              ≡ (if k == m then at heap i else if k == i then at heap m else at heap k) =
          λ k. at-swap heap i m k upper lower in
        let turned : ahead less (at heap i) (at heap m) ≡ true =
          ahead_total less w (at heap m) (at heap i) (rw below refl) in
        record {
          edges = λ c p q r t. ground (
            arith,
            spot c,
            spot (parent c),
            v.edges c,
            v.bridged m,
            s.latest c,
            s.child,
            s.above,
            s.inside,
            turned,
          );
          bridged = λ c p q r t u.
              ground (arith, spot c, spot (parent m), v.edges c, s.child, s.above, s.inside);
        }

    sift_loop-IsHeapFrom :
        (fuel low size i : ℕ) (heap : List ℕ)
        → size ≤ length heap
        → size ≤ fuel + i
        → IsOpenAt less low size heap i
        → IsHeapFrom less low size (sift_loop less fuel heap size i)
    unfolding sift_loop
    sift_loop-IsHeapFrom zero low size i heap fits enough v = record {
      edges = λ c p q r. v.edges c p q r (λ e. absurd (omega arith));
    }
    sift_loop-IsHeapFrom (suc fuel) low size i heap fits enough v =
        elim (Bool-cases (leb size (i * 2 + 1))) [
          | inl leaf ↦
              rw (sift_leaf less fuel size i heap leaf)
                record { edges = λ c p q r. v.edges c p q r (λ e. absurd (ground arith)) }
          | inr inner ↦
              let m : ℕ = later_child less heap size i in
              let s : IsLaterChild size heap i m = later_child_lem heap size i (ground arith) in
              elim (Bool-cases (qe_order_before less (at heap i) (at heap m))) [
                | inl below ↦ rw (sift_on less fuel size i heap inner below) (
                    sift_loop-IsHeapFrom fuel low size m (swap heap i m)
                      (omega (arith, length-swap heap i m)) (omega (arith, s.above))
                      (swap-IsOpenAt low size heap i m fits v s below))
                | inr settled ↦
                    let first : ahead less (at heap m) (at heap i) ≡ true = rw settled refl in
                    rw (sift_end less fuel size i heap inner settled) record {
                      edges = λ c p q r. elim (Bool-cases (parent c == i)) [
                        | inl e ↦
                            let e' : parent c ≡ i = ground arith in
                            rw e' (
                              ahead_trans less w (at heap c) (at heap m) (at heap i)
                                (s.latest c p q e') first)
                        | inr n ↦ v.edges c p q r (ground arith)
                      ];
                    }
              ]
        ]

    pub sift_down-IsHeapFrom :
        (low size i : ℕ) (heap : List ℕ)
        → size ≤ length heap
        → IsOpenAt less low size heap i
        → IsHeapFrom less low size (qe_order_sift_down less heap size i)
    unfolding qe_order_sift_down
    sift_down-IsHeapFrom low size i heap fits v =
        sift_loop-IsHeapFrom size low size i heap fits (omega arith) v

    -- Each round of the loop orders one more parent.
    pub heapify_loop-IsHeapFrom :
        (root size : ℕ) (heap : List ℕ)
        → size ≤ length heap
        → IsHeapFrom less root size heap
        → IsHeapFrom less 0 size (heapify_loop less root heap size)
    unfolding heapify_loop
    heapify_loop-IsHeapFrom zero size heap fits v = v
    heapify_loop-IsHeapFrom (suc root) size heap fits v =
        heapify_loop-IsHeapFrom root size (qe_order_sift_down less heap size root)
          (omega (arith, length-sift_down less heap size root))
          (sift_down-IsHeapFrom root size root heap fits record {
            edges = λ c p q r t. v.edges c p q (ground arith);
            bridged = λ c p q r t u. absurd (omega arith);
          })

    -- The root of a heap is its last row.
    pub root_last :
        (size : ℕ) (heap : List ℕ) (bound c : ℕ)
        → IsHeapFrom less 0 size heap
        → c < bound
        → c < size
        → ahead less (at heap c) (at heap 0) ≡ true
    root_last size heap zero c v h q = absurd (omega arith)
    root_last size heap (suc bound) zero v h q = ahead_refl less w (at heap 0)
    root_last size heap (suc bound) (suc c) v h q =
        ahead_trans less w (at heap (suc c)) (at heap (parent (suc c))) (at heap 0)
          (v.edges (suc c) (omega arith) q (omega arith))
          (root_last size heap bound (parent (suc c)) v (omega arith) (omega arith))
