-- ===== src/Order/Native/Tasks.antt =====
-- src/query_exec/query_exec.c: what a task of the top-k over native keys leaves in its heap.
use compute_ql.Shared.{
  ℕ, zero, suc, ◌+◌, ◌-◌, ◌/◌, ◌<◌, ◌≡◌, refl, sym, ◌∙◌, ap, subst, min, Bool, List, ltb,
  if◌then◌else◌, length, set, arith, Bool-cases, inl, inr,
}
use compute_ql.Float.{Float}
use compute_ql.ThreadPool.{Range}
use compute_ql.Order.{
  at, heapify_loop, qe_order_merge_sort, positions, range_loop, qe_order_select_top_range,
  select_loop, merge_widths,
}
use compute_ql.Order.Laws.{IsWeakOrder, count}
use compute_ql.Order.Sift.{IsHeapFrom, length-heapify}
use compute_ql.Order.Offer.{count-at, offer, length-offer, IsKept, select_loop-IsKept}
use compute_ql.Order.Select.{heapified-IsKept}
use compute_ql.Order.Range.{
  length-positions, IsBelow, same_offer, offer-IsBelow, same_loop, heap-IsBelow,
}
use compute_ql.Order.TopK.Numeric.{range_none}
use compute_ql.Order.Native.{
  TopKKey, qe_top_k_native_sift_down, native_heapify_loop, qe_top_k_native_heapify,
  qe_top_k_native_sort, qe_top_k_native_before, native_displaces, native_loop, qe_top_k_native_task,
}
use compute_ql.Order.Native.Loops.{native_sift_down_lem, native_heapify_lem}
use compute_ql.Order.Native.Keys.{
  native_less, KeysAreOrdered, native_less-IsWeakOrder, native_before_lem, native_displaces_lem,
}
use compute_ql.Order.Native.Sort.{native_sort-merge_sort}

module _ (fl : Float) (ks : List (TopKKey fl)) (h : KeysAreOrdered fl ks) where
  abbrev pub less : ℕ → ℕ → Bool
  less = native_less fl ks

  pub w : IsWeakOrder less
  w = native_less-IsWeakOrder fl ks h

  -- One round of the loop of a task.
  native_offer :
      (heap : List ℕ) (index : ℕ)
      → 0 < length heap
      → IsBelow less index heap
      → (if native_displaces fl ks index (at heap 0)
          then qe_top_k_native_sift_down
              (qe_top_k_native_before fl ks)
              (set heap 0 index)
              (length heap)
              0
          else heap)
        ≡ offer less heap index
  native_offer heap index filled below =
      rw
        (
          native_displaces_lem fl ks index (at heap 0) (below (at heap 0) (count-at heap 0 filled)),
          native_before_lem fl ks h,
          native_sift_down_lem less (set heap 0 index) (length heap) 0,
        )
        (same_offer less heap index filled below)

  native_loop_lem :
      (start n : ℕ) (heap : List ℕ)
      → 0 < length heap
      → IsBelow less start heap
      → native_loop fl ks heap (positions start n) ≡ select_loop less heap (positions start n)
  unfolding positions native_loop select_loop
  native_loop_lem start zero heap filled below = refl
  native_loop_lem start (suc n) heap filled below =
      ap (λ k. native_loop fl ks k (positions (start + 1) n)) (native_offer heap start filled below)
      ∙ native_loop_lem (start + 1) n (offer less heap start)
          (omega (arith, length-offer less heap start)) (offer-IsBelow less heap start filled below)

  -- The heap of a task behind its loop.
  abbrev first_heap : ℕ → ℕ → List ℕ
  first_heap start kept = heapify_loop less (kept / 2) (positions start kept) kept

  last_heap :
      (start kept rest : ℕ)
      → 0 < kept
      → IsKept less kept
          (λ a. count a (positions start kept) + count a (positions (start + kept) rest))
          (select_loop less (first_heap start kept) (positions (start + kept) rest))
  last_heap start kept rest some_row =
      select_loop-IsKept less w kept (λ a. count a (positions start kept)) (first_heap start kept)
        (positions (start + kept) rest) some_row
        (subst
          (λ n.
            IsKept less n (λ a. count a (positions start kept))
              (heapify_loop less (n / 2) (positions start kept) n))
          (length-positions start kept) (heapified-IsKept less w (positions start kept)))

  -- To sort a heap of `size` rows in place.
  sort_sized :
      (size : ℕ) (heap : List ℕ)
      → length heap ≡ size
      → IsHeapFrom less 0 size heap
      → qe_top_k_native_sort (qe_top_k_native_before fl ks) heap size
        ≡ qe_order_merge_sort less heap
  sort_sized size heap e v =
      rw (native_before_lem fl ks h, ← e)
        (native_sort-merge_sort less w heap (subst (λ n. IsHeapFrom less 0 n heap) (sym e) v))

  full_task :
      (start kept rest : ℕ)
      → 0 < kept
      → qe_top_k_native_sort
          (qe_top_k_native_before fl ks)
          (native_loop fl ks
            (qe_top_k_native_heapify (qe_top_k_native_before fl ks) (positions start kept) kept)
            (positions (start + kept) rest))
          kept
        ≡ qe_order_merge_sort less
            (range_loop less (first_heap start kept) (positions (start + kept) rest))
  unfolding qe_top_k_native_heapify
  full_task start kept rest some_row =
      let filled : 0 < length (first_heap start kept) = omega (
        arith,
        length-heapify less (kept / 2) kept (positions start kept),
        length-positions start kept,
      ) in
      let below = heap-IsBelow less start kept in
      let same : native_heapify_loop (qe_top_k_native_before fl ks) (kept / 2)
            (positions start kept) kept
          ≡ first_heap start kept =
        rw (native_before_lem fl ks h)
          (native_heapify_lem less (kept / 2) (positions start kept) kept) in
      let last = last_heap start kept rest some_row in
      rw
        (
          same,
          native_loop_lem (start + kept) rest (first_heap start kept) filled below,
          same_loop less (start + kept) rest (first_heap start kept) filled below,
        )
        (sort_sized kept (select_loop less (first_heap start kept) (positions (start + kept) rest))
          last.sized last.ordered)

  empty_task :
      (start : ℕ) (rows : List ℕ)
      → qe_top_k_native_sort
          (qe_top_k_native_before fl ks)
          (qe_top_k_native_heapify (qe_top_k_native_before fl ks) (positions start 0) 0)
          0
        ≡ qe_order_merge_sort less (range_loop less (first_heap start 0) rows)
  unfolding qe_top_k_native_heapify qe_top_k_native_sort native_heapify_loop heapify_loop positions
      qe_order_merge_sort merge_widths
  empty_task start rows = ap (qe_order_merge_sort less) (sym (range_none less rows))

  pub native_task_lem :
      (keep : ℕ) (r : Range)
      → qe_top_k_native_task fl ks keep r
        ≡ qe_order_select_top_range less r.min_value r.max_value keep
  unfolding qe_top_k_native_task qe_order_select_top_range
  native_task_lem keep r =
      let start : ℕ = r.min_value in
      let kept : ℕ = min keep (r.max_value - start) in
      let rest : ℕ = r.max_value - (start + kept) in
      elim (Bool-cases (ltb 0 kept)) [
        | inl some_row ↦ rw some_row (full_task start kept rest (ground arith))
        | inr no_row ↦
            let none_kept : kept ≡ 0 = ground arith in
            rw no_row (
              subst
                (λ n.
                  qe_top_k_native_sort (qe_top_k_native_before fl ks)
                    (qe_top_k_native_heapify (qe_top_k_native_before fl ks) (positions start n) n) n
                  ≡ qe_order_merge_sort less
                      (range_loop less (first_heap start n) (positions (start + kept) rest)))
                (sym none_kept) (empty_task start (positions (start + kept) rest)))
      ]
