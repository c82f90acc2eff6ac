-- ===== src/Order/Native/Loops.antt =====
-- src/query_exec/query_exec.c: the copy of the heap does what the heap does.
use compute_ql.Shared.{ℕ, zero, suc, ◌≡◌, refl, Bool, List, set}
use compute_ql.Order.{qe_order_before, at, later_child, sift_loop, qe_order_sift_down, heapify_loop}
use compute_ql.Order.Native.{
  native_child, native_sift_loop, qe_top_k_native_sift_down, native_heapify_loop,
}

module _ (less : ℕ → ℕ → Bool) where
  native_sift_loop_lem :
      (fuel : ℕ) (heap : List ℕ) (count root : ℕ)
      → native_sift_loop (qe_order_before less) fuel heap count root
        ≡ sift_loop less fuel heap count root
  unfolding native_sift_loop sift_loop native_child later_child
  native_sift_loop_lem zero heap count root = refl
  native_sift_loop_lem (suc fuel) heap count root =
      let child : ℕ = later_child less heap count root in
      rw
        (native_sift_loop_lem fuel (set (set heap root (at heap child)) child (at heap root)) count
          child)
        refl

  pub native_sift_down_lem :
      (heap : List ℕ) (count root : ℕ)
      → qe_top_k_native_sift_down (qe_order_before less) heap count root
        ≡ qe_order_sift_down less heap count root
  unfolding qe_top_k_native_sift_down qe_order_sift_down
  native_sift_down_lem heap count root = native_sift_loop_lem count heap count root

  pub native_heapify_lem :
      (root : ℕ) (heap : List ℕ) (count : ℕ)
      → native_heapify_loop (qe_order_before less) root heap count
        ≡ heapify_loop less root heap count
  unfolding native_heapify_loop heapify_loop
  native_heapify_lem zero heap count = refl
  native_heapify_lem (suc root) heap count =
      rw (native_sift_down_lem heap count root)
        (native_heapify_lem root (qe_order_sift_down less heap count root) count)
