-- ===== src/Order/Native/Sort.antt =====
-- src/query_exec/query_exec.c, `qe_top_k_native_sort`: a heap is sorted in place.
use compute_ql.Shared.{
  ℕ, zero, suc, ◌+◌, ◌≤◌, ◌<◌, ◌≡◌, refl, sym, ◌∙◌, ap, subst, Bool, true, List, [], ◌∷◌, ◌==◌,
  if◌then◌else◌, length, take, drop, set, All, arith, length-take, drop_all,
}
use compute_ql.Order.{
  qe_order_before, at, later_child, sift_loop, qe_order_sift_down, qe_order_merge_sort,
}
use compute_ql.Order.Laws.{IsWeakOrder, count, count-take, ahead, IsSorted, IsSorted-eq}
use compute_ql.Order.Runs.{merge_sort-count}
use compute_ql.Order.Merge.{merge_sort-IsSorted}
use compute_ql.Order.Sift.{
  parent, swap, at-swap, length-swap, count-swap, later_child_bounds, IsHeapFrom, IsOpenAt,
  length-sift_down, sift_down-count,
}
use compute_ql.Order.Heap.{sift_down-IsHeapFrom, root_last}
use compute_ql.Order.Offer.{place}
use compute_ql.Order.Native.{qe_top_k_native_sort}
use compute_ql.Order.Native.Loops.{native_sift_down_lem}

drop-set : (n i v : ℕ) (xs : List ℕ) → i < n → drop n (set xs i v) ≡ drop n xs
drop-set zero i v xs h = absurd (omega arith)
drop-set (suc n) i v [] h = refl
drop-set (suc n) zero v (x ∷ xs) h = refl
drop-set (suc n) (suc i) v (x ∷ xs) h = drop-set n i v xs (omega arith)

drop-at : (n : ℕ) (xs : List ℕ) → n < length xs → drop n xs ≡ at xs n ∷ drop (suc n) xs
drop-at n [] h = elim h [ ]
drop-at zero (x ∷ xs) h = refl
drop-at (suc n) (x ∷ xs) h = drop-at n xs (omega arith)

at-take : (k n : ℕ) (xs : List ℕ) → k < n → at (take n xs) k ≡ at xs k
at-take k zero xs h = absurd (omega arith)
at-take k (suc n) [] h = refl
at-take zero (suc n) (x ∷ xs) h = refl
at-take (suc k) (suc n) (x ∷ xs) h = at-take k n xs (omega arith)

itself : (x : ℕ) → 0 < count x (x ∷ [])
unfolding count
itself x = ground arith

module _ (less : ℕ → ℕ → Bool) where
  -- A sift leaves what is behind its heap.
  sift_loop-drop :
      (fuel size i : ℕ) (heap : List ℕ)
      → i < size
      → drop size (sift_loop less fuel heap size i) ≡ drop size heap
  unfolding sift_loop
  sift_loop-drop zero size i heap h = refl
  sift_loop-drop (suc fuel) size i heap h =
      let m : ℕ = later_child less heap size i in
      ground (
        arith,
        later_child_bounds less heap size i,
        sift_loop-drop fuel size m (swap heap i m),
        drop-set size m (at heap i) (set heap i (at heap m)),
        drop-set size i (at heap m) heap,
      )

  -- The first `end` rows are a heap, the others are sorted behind them.
  record IsHalfSorted (end : ℕ) (heap : List ℕ) : Type 0 where
    fits : end ≤ length heap
    ordered : IsHeapFrom less 0 end heap
    sorted : IsSorted less (drop end heap)
    cross : (a : ℕ) → 0 < count a (take end heap) → All (λ y. ahead less a y ≡ true) (drop end heap)

  module _ (w : IsWeakOrder less) where
    -- The heap behind one round of the loop.
    abbrev rounded : ℕ → List ℕ → List ℕ
    rounded n heap = qe_order_sift_down less (swap heap 0 n) n 0

    swap-IsOpenAt_root :
        (n : ℕ) (heap : List ℕ)
        → 0 < n
        → n < length heap
        → IsHeapFrom less 0 (suc n) heap
        → IsOpenAt less 0 n (swap heap 0 n) 0
    swap-IsOpenAt_root n heap p h v =
        let spot : (k : ℕ)
            → at (swap heap 0 n) k
              ≡ (if k == n then at heap 0 else if k == 0 then at heap n else at heap k) =
          λ k. at-swap heap 0 n k (omega arith) h in
        record {
          edges = λ c q r s t. ground (arith, spot c, spot (parent c), v.edges c);
          bridged = λ c q r s t u. absurd (omega arith);
        }

    rounded-drop :
        (n : ℕ) (heap : List ℕ)
        → 0 < n
        → n < length heap
        → drop n (rounded n heap) ≡ at heap 0 ∷ drop (suc n) heap
    unfolding qe_order_sift_down
    rounded-drop n heap p h =
        sift_loop-drop n n 0 (swap heap 0 n) p
        ∙ drop-at n (swap heap 0 n) (omega (arith, length-swap heap 0 n))
        ∙ ground (
          arith,
          at-swap heap 0 n n,
          drop-set (suc n) n (at heap 0) (set heap 0 (at heap n)),
          drop-set (suc n) 0 (at heap n) heap,
        )

    rounded-counts :
        (a n : ℕ) (heap : List ℕ)
        → 0 < n
        → n < length heap
        → count a (take n (rounded n heap)) + count a (at heap 0 ∷ []) ≡ count a (take (suc n) heap)
    unfolding count
    rounded-counts a n heap p h = omega (
      arith,
      count-take a n (rounded n heap),
      count-take a (suc n) heap,
      ap (count a) (rounded-drop n heap p h),
      sift_down-count less a (swap heap 0 n) n 0,
      length-swap heap 0 n,
      count-swap a heap 0 n (omega arith) h (omega arith),
    )

    root_ahead :
        (n : ℕ) (heap : List ℕ)
        → IsHalfSorted (suc n) heap
        → (a : ℕ) → 0 < count a (take (suc n) heap)
        → ahead less a (at heap 0) ≡ true
    root_ahead n heap v a m =
        let (i, below, e) = place a (take (suc n) heap) m in
        let inside : i < suc n = omega (arith, below, length-take (suc n) heap) in
        subst (λ b. ahead less b (at heap 0) ≡ true) (sym (at-take i (suc n) heap inside) ∙ e)
          (root_last less w (suc n) heap (suc i) i v.ordered (omega arith) inside)

    rounded-IsHalfSorted :
        (n : ℕ) (heap : List ℕ)
        → 0 < n
        → IsHalfSorted (suc n) heap
        → IsHalfSorted n (rounded n heap)
    unfolding count
    rounded-IsHalfSorted n heap p v =
        let inside : n < length heap = omega (arith, v.fits) in
        let behind = rounded-drop n heap p inside in
        let from : (a : ℕ)
            → 0 < count a (take n (rounded n heap))
            → 0 < count a (take (suc n) heap) =
          λ a m. omega (arith, rounded-counts a n heap p inside) in
        let filled : 0 < count (at heap 0) (take (suc n) heap) =
          omega (arith, rounded-counts (at heap 0) n heap p inside, itself (at heap 0)) in
        record {
          fits = omega (arith, length-sift_down less (swap heap 0 n) n 0, length-swap heap 0 n);
          ordered =
              sift_down-IsHeapFrom less w 0 n 0 (swap heap 0 n)
                (omega (arith, length-swap heap 0 n))
                (swap-IsOpenAt_root n heap p inside v.ordered);
          sorted = subst (IsSorted less) (sym behind) (v.cross (at heap 0) filled, v.sorted);
          cross = λ a m.
              subst (All (λ y. ahead less a y ≡ true)) (sym behind)
                (root_ahead n heap v a (from a m), v.cross a (from a m));
        }

    rounded-count :
        (a n : ℕ) (heap : List ℕ)
        → 0 < n
        → n < length heap
        → count a (rounded n heap) ≡ count a heap
    rounded-count a n heap p h = omega (
      arith,
      sift_down-count less a (swap heap 0 n) n 0,
      length-swap heap 0 n,
      count-swap a heap 0 n (omega arith) h (omega arith),
    )

    sort_half :
        (end : ℕ) (heap : List ℕ)
        → IsHalfSorted end heap
        → IsSorted less (qe_top_k_native_sort (qe_order_before less) heap end)
          × ((a : ℕ)
              → count a (qe_top_k_native_sort (qe_order_before less) heap end) ≡ count a heap)
    unfolding qe_top_k_native_sort
    sort_half zero heap v = (v.sorted, λ a. refl)
    sort_half (suc zero) [] v = absurd (omega (arith, v.fits))
    sort_half (suc zero) (x ∷ xs) v = ((v.cross x (itself x), v.sorted), λ a. refl)
    sort_half (suc (suc n)) heap v =
        let inside : suc n < length heap = omega (arith, v.fits) in
        let rest =
          sort_half (suc n) (rounded (suc n) heap)
            (rounded-IsHalfSorted (suc n) heap (omega arith) v) in
        rw (native_sift_down_lem less (swap heap 0 (suc n)) (suc n) 0)
          (rest.0, λ a. rest.1 a ∙ rounded-count a (suc n) heap (omega arith) inside)

    -- Sorting a heap in place gives what the merge sort gives, for a comparison that orders the rows.
    pub native_sort-merge_sort :
        (heap : List ℕ)
        → IsHeapFrom less 0 (length heap) heap
        → qe_top_k_native_sort (qe_order_before less) heap (length heap)
          ≡ qe_order_merge_sort less heap
    native_sort-merge_sort heap v =
        let empty : drop (length heap) heap ≡ [] = drop_all (length heap) heap (omega arith) in
        let sorts = sort_half (length heap) heap record {
          fits = omega arith;
          ordered = v;
          sorted = rw empty tt;
          cross = λ a m. rw empty tt;
        } in
        IsSorted-eq less w (qe_top_k_native_sort (qe_order_before less) heap (length heap))
          (qe_order_merge_sort less heap) sorts.0 (merge_sort-IsSorted less w heap)
          (λ a. omega (arith, sorts.1 a, merge_sort-count less a heap))
