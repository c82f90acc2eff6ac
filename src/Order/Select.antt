-- ===== src/Order/Select.antt =====
-- src/query_exec/query_exec.c, `qe_order_select_top` and `qe_order_select_top_range`:
-- their results against the order of all rows.
use mathlib.Core.List.{append-nil}
use compute_ql.Shared.{
  ℕ, ◌/◌, ◌≤◌, ◌<◌, ◌≡◌, sym, ◌∙◌, ap, subst, Bool, true, min, List, [], ◌∷◌, ◌++◌, arith, ltb,
  length, take, drop, All, Bool-cases, inl, inr, length-take, take_whole, take_all,
}
use compute_ql.Order.{at, heapify_loop, select_loop, qe_order_select_top, qe_order_merge_sort}
use compute_ql.Order.Laws.{
  IsWeakOrder, count, count-append, count-take, All-count, count-All, ahead, IsSorted, IsSorted-eq,
  ahead_trans,
}
use compute_ql.Order.Runs.{merge_sort-count, length-merge_sort}
use compute_ql.Order.Merge.{merge_sort-IsSorted}
use compute_ql.Order.Sift.{IsHeapFrom, length-heapify, heapify-count}
use compute_ql.Order.Heap.{heapify_loop-IsHeapFrom}
use compute_ql.Order.Offer.{take-min, IsKept, select_top_none, heap_ahead, select_loop-IsKept}

module _ (less : ℕ → ℕ → Bool) where
  module _ (w : IsWeakOrder less) where
    -- A sorted list that stands before another.
    pub IsSorted-append :
        (xs ys : List ℕ)
        → IsSorted less xs
        → IsSorted less ys
        → ((a : ℕ) → 0 < count a xs → All (λ y. ahead less a y ≡ true) ys)
        → IsSorted less (xs ++ ys)
    unfolding count
    IsSorted-append [] ys s t h = t
    IsSorted-append (x ∷ xs) ys s t h = (
      All-count (ahead less x) (xs ++ ys) (λ a m. elim (Bool-cases (ltb 0 (count a xs))) [
        | inl here ↦ count-All (ahead less x) xs s.0 a (ground arith)
        | inr there ↦
            count-All (ahead less x) ys (h x (ground arith)) a
              (ground (arith, count-append a xs ys))
      ]),
      IsSorted-append xs ys s.1 t (λ a m. h a (omega arith)),
    )

    -- A heap that holds the first rows of a list, sorted, is the front of the sorted list.
    kept_front :
        (size : ℕ) (order heap : List ℕ)
        → IsKept less size (λ a. count a order) heap
        → qe_order_merge_sort less heap ≡ take size (qe_order_merge_sort less order)
    kept_front size order heap k =
        let v : IsHeapFrom less 0 (length heap) heap =
          subst (λ n. IsHeapFrom less 0 n heap) (sym k.sized) k.ordered in
        let front : List ℕ = qe_order_merge_sort less heap in
        let back : List ℕ = qe_order_merge_sort less k.dropped in
        let cross : (a : ℕ) → 0 < count a front → All (λ y. ahead less a y ≡ true) back = λ a m.
          All-count (ahead less a) back (λ b n.
            ahead_trans less w a (at heap 0) b
              (heap_ahead less w heap v a (omega (arith, merge_sort-count less a heap)))
              (count-All (ahead less (at heap 0)) k.dropped k.behind b
                (omega (arith, merge_sort-count less b k.dropped)))) in
        let whole : front ++ back ≡ qe_order_merge_sort less order =
          IsSorted-eq less w (front ++ back) (qe_order_merge_sort less order)
            (IsSorted-append front back (merge_sort-IsSorted less w heap)
              (merge_sort-IsSorted less w k.dropped) cross)
            (merge_sort-IsSorted less w order)
            (λ a. omega (
              arith,
              count-append a front back,
              merge_sort-count less a heap,
              merge_sort-count less a k.dropped,
              merge_sort-count less a order,
              k.total a,
            )) in
        sym (take_whole size front back (length-merge_sort less heap ∙ k.sized))
        ∙ ap (take size) whole

    pub heapified-IsKept :
        (heap : List ℕ)
        → IsKept less
            (length heap)
            (λ a. count a heap)
            (heapify_loop less (length heap / 2) heap (length heap))
    unfolding count
    heapified-IsKept heap = record {
      dropped = [];
      sized = length-heapify less (length heap / 2) (length heap) heap;
      ordered =
          heapify_loop-IsHeapFrom less w (length heap / 2) (length heap) heap (omega arith)
            record { edges = λ c p q r. absurd (omega arith) };
      total = λ a. omega (arith, heapify-count less a (length heap / 2) (length heap) heap);
      behind = tt;
    }

    -- The heap that qe_order_select_top sorts.
    abbrev pub selected : List ℕ → ℕ → List ℕ
    selected order kept =
        select_loop less (heapify_loop less (kept / 2) (take kept order) kept) (drop kept order)

    pub selected-IsKept :
        (order : List ℕ) (kept : ℕ)
        → 0 < kept
        → kept ≤ length order
        → IsKept less kept (λ a. count a order) (selected order kept)
    selected-IsKept order kept some_row fits =
        let size : length (take kept order) ≡ kept = omega (arith, length-take kept order) in
        let first : IsKept less kept (λ a. count a (take kept order))
            (heapify_loop less (kept / 2) (take kept order) kept) =
          subst
            (λ n.
              IsKept less n (λ a. count a (take kept order))
                (heapify_loop less (n / 2) (take kept order) n))
            size (heapified-IsKept (take kept order)) in
        let last =
          select_loop-IsKept less w kept (λ a. count a (take kept order))
            (heapify_loop less (kept / 2) (take kept order) kept) (drop kept order) some_row
            first in
        record {
          dropped = last.dropped;
          sized = last.sized;
          ordered = last.ordered;
          total = λ a. omega (arith, last.total a, count-take a kept order);
          behind = last.behind;
        }

    pub select_top_front :
        (order : List ℕ) (kept : ℕ)
        → 0 < kept
        → kept ≤ length order
        → qe_order_merge_sort less (selected order kept)
          ≡ take kept (qe_order_merge_sort less order)
    select_top_front order kept some_row fits =
        kept_front kept order (selected order kept) (selected-IsKept order kept some_row fits)

    -- The heap keeps the first `keep` rows of the order and sorts them: the result is that of sorting
    -- all rows and taking the first `keep`, for a comparison that orders the rows and a `keep` of at
    -- least 1.
    pub select_top-take :
        (order : List ℕ) (keep : ℕ)
        → 0 < keep
        → qe_order_select_top less order keep ≡ take keep (qe_order_merge_sort less order)
    unfolding qe_order_select_top
    select_top-take [] keep some_row =
        select_top_none less keep
        ∙ append-nil (qe_order_merge_sort less [])
        ∙ sym
            (take_all keep (qe_order_merge_sort less []) (omega (arith, length-merge_sort less [])))
    select_top-take (x ∷ xs) keep some_row =
        select_top_front (x ∷ xs) (min keep (length (x ∷ xs))) (omega arith) (omega arith)
        ∙ take-min keep (length (x ∷ xs)) (qe_order_merge_sort less (x ∷ xs))
            (length-merge_sort less (x ∷ xs))
