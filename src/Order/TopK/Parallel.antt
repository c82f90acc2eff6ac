-- ===== src/Order/TopK/Parallel.antt =====
-- src/query_exec/query_exec.c, `qe_sort_rows_top_k_parallel`: what is kept range by
-- range against the order of all rows.
use mathlib.Core.List.{append-nil}
use compute_ql.Shared.{
  ℕ, zero, suc, ◌+◌, ◌-◌, ◌^◌, ◌≤◌, ◌<◌, ◌≡◌, refl, sym, ◌∙◌, ap, min, Bool, true, List, [], ◌∷◌,
  ◌++◌, ltb, take, All, arith, Bool-cases, inl, inr, take_all, take-take,
}
use compute_ql.Float.{Float}
use compute_ql.ThreadPool.{Range, tp_divide_work, ranges_from, ceil_integer_div}
use compute_ql.Order.{
  merge_runs, qe_order_merge_sort, positions, qe_order_select_top_range, heapify_loop, range_loop,
  merge_widths,
}
use compute_ql.Order.Laws.{IsWeakOrder, count, count-append, ahead, IsSorted, IsSorted-eq}
use compute_ql.Order.Runs.{merge_sort-count, merge_runs-count}
use compute_ql.Order.Merge.{merge_sort-IsSorted, merge_runs-IsSorted}
use compute_ql.Order.Select.{select_top-take}
use compute_ql.Order.Range.{select_top_range-positions}
use compute_ql.Order.Keys.{SortKey, qe_sort_rows_less}
use compute_ql.Order.Keys.Laws.{IsOrdered, sort_rows_less-IsWeakOrder}
use compute_ql.Order.TopK.{
  qe_top_k_task, top_k_task_count, top_k_candidates, qe_sort_rows_top_k_parallel,
}
use compute_ql.Order.TopK.Numeric.{top_k_task_lem}
use compute_ql.Order.TopK.Ranges.{All-take, range_rows, first_ranges, ranges-rows}

module _ (less : ℕ → ℕ → Bool) where
  -- The first rows of a merge come from the first rows of the runs.
  take-merge_left :
      (k j : ℕ) (xs ys : List ℕ)
      → k ≤ j
      → take k (merge_runs less (take j xs) ys) ≡ take k (merge_runs less xs ys)
  unfolding merge_runs
  take-merge_left zero j xs ys h = refl
  take-merge_left (suc k) zero xs ys h = absurd (omega arith)
  take-merge_left (suc k) (suc j) [] ys h = refl
  take-merge_left (suc k) (suc j) (x ∷ xs) [] h = ap (◌∷◌ x) (take-take k j xs (omega arith))
  take-merge_left (suc k) (suc j) (x ∷ xs) (y ∷ ys) h =
      ground (arith, take-merge_left k j xs (y ∷ ys), take-merge_left k (suc j) (x ∷ xs) ys)

  take-IsSorted : (k : ℕ) (xs : List ℕ) → IsSorted less xs → IsSorted less (take k xs)
  take-IsSorted zero xs s = tt
  take-IsSorted (suc k) [] s = tt
  take-IsSorted (suc k) (x ∷ xs) s =
      (All-take (λ y. ahead less x y ≡ true) k xs s.0, take-IsSorted k xs s.1)

  no_front :
      (start end keep : ℕ)
      → end - start ≡ 0
      → qe_order_select_top_range less start end keep
        ≡ take keep (qe_order_merge_sort less (positions start 0))
  unfolding qe_order_select_top_range heapify_loop range_loop qe_order_merge_sort merge_widths
      positions
  no_front start end keep e =
      let none_kept : min keep (end - start) ≡ 0 = omega arith in
      let none_left : end - (start + 0) ≡ 0 = omega arith in
      rw (qe_order_select_top_range, none_kept, none_left) (sym (take_all keep [] (omega arith)))

  module _ (w : IsWeakOrder less) where
    sort_same :
        (xs ys : List ℕ)
        → ((a : ℕ) → count a xs ≡ count a ys)
        → qe_order_merge_sort less xs ≡ qe_order_merge_sort less ys
    sort_same xs ys h =
        IsSorted-eq less w (qe_order_merge_sort less xs) (qe_order_merge_sort less ys)
          (merge_sort-IsSorted less w xs) (merge_sort-IsSorted less w ys)
          (λ a. omega (arith, merge_sort-count less a xs, merge_sort-count less a ys, h a))

    -- To sort two lists is to merge them sorted, however the first is sorted.
    sort_merged :
        (xs ys zs : List ℕ)
        → IsSorted less zs
        → ((a : ℕ) → count a zs ≡ count a xs)
        → qe_order_merge_sort less (xs ++ ys) ≡ merge_runs less zs (qe_order_merge_sort less ys)
    sort_merged xs ys zs s h =
        IsSorted-eq less w (qe_order_merge_sort less (xs ++ ys))
          (merge_runs less zs (qe_order_merge_sort less ys)) (merge_sort-IsSorted less w (xs ++ ys))
          (merge_runs-IsSorted less w zs (qe_order_merge_sort less ys) s
            (merge_sort-IsSorted less w ys))
          (λ a. omega (
            arith,
            merge_sort-count less a (xs ++ ys),
            merge_sort-count less a ys,
            count-append a xs ys,
            h a,
            merge_runs-count less a zs (qe_order_merge_sort less ys),
          ))

    -- Rows behind the first `keep` of their part do not matter.
    top_of_part :
        (keep : ℕ) (part ys : List ℕ)
        → take keep (qe_order_merge_sort less (take keep (qe_order_merge_sort less part) ++ ys))
          ≡ take keep (qe_order_merge_sort less (part ++ ys))
    top_of_part keep part ys =
        let sorted : List ℕ = qe_order_merge_sort less part in
        let s : IsSorted less sorted = merge_sort-IsSorted less w part in
        ap (take keep) (
          sort_merged (take keep sorted) ys (take keep sorted) (take-IsSorted keep sorted s)
            (λ a. refl))
        ∙ take-merge_left keep keep sorted (qe_order_merge_sort less ys) (omega arith)
        ∙ ap (take keep) (sym (sort_merged part ys sorted s (λ a. merge_sort-count less a part)))

    pub range_front :
        (start end keep : ℕ)
        → 0 < keep
        → qe_order_select_top_range less start end keep
          ≡ take keep (qe_order_merge_sort less (positions start (end - start)))
    range_front start end keep some_row = elim (Bool-cases (ltb start end)) [
      | inl filled ↦
          select_top_range-positions less start end keep (ground arith) some_row
          ∙ select_top-take less w (positions start (end - start)) keep some_row
      | inr empty ↦
          let none_left : end - start ≡ 0 = ground arith in
          no_front start end keep none_left
          ∙ ap (take keep) (ap (qe_order_merge_sort less) (ap (positions start) (sym none_left)))
    ]

    module _ (keep : ℕ) (some_row : 0 < keep) (task : Range → List ℕ)
        (fronts : (r : Range)
          → task r ≡ qe_order_select_top_range less r.min_value r.max_value keep) where
      -- What the tasks keep, one behind the other.
      unfoldable pub kept_rows : List Range → List ℕ
      kept_rows [] = []
      kept_rows (r ∷ rs) = task r ++ kept_rows rs

      pub kept_rows_top :
          (rs : List Range) (ys : List ℕ)
          → take keep (qe_order_merge_sort less (kept_rows rs ++ ys))
            ≡ take keep (qe_order_merge_sort less (range_rows rs ++ ys))
      unfolding kept_rows range_rows
      kept_rows_top [] ys = refl
      kept_rows_top (r ∷ rs) ys =
          let rows : List ℕ = positions r.min_value (r.max_value - r.min_value) in
          let front : List ℕ = take keep (qe_order_merge_sort less rows) in
          let kept : task r ≡ front =
            fronts r ∙ range_front r.min_value r.max_value keep some_row in
          let sorts : (xs zs : List ℕ)
              → ((a : ℕ) → count a xs ≡ count a zs)
              → take keep (qe_order_merge_sort less xs) ≡ take keep (qe_order_merge_sort less zs) =
            λ xs zs h. ap (take keep) (sort_same xs zs h) in
          rw kept (
            sorts ((front ++ kept_rows rs) ++ ys) (front ++ (kept_rows rs ++ ys)) (λ a. omega (
              arith,
              count-append a (front ++ kept_rows rs) ys,
              count-append a front (kept_rows rs),
              count-append a front (kept_rows rs ++ ys),
              count-append a (kept_rows rs) ys,
            ))
            ∙ top_of_part keep rows (kept_rows rs ++ ys)
            ∙ sorts (rows ++ (kept_rows rs ++ ys)) (kept_rows rs ++ (rows ++ ys)) (λ a. omega (
              arith,
              count-append a rows (kept_rows rs ++ ys),
              count-append a (kept_rows rs) ys,
              count-append a (kept_rows rs) (rows ++ ys),
              count-append a rows ys,
            ))
            ∙ kept_rows_top rs (rows ++ ys)
            ∙ sorts (range_rows rs ++ (rows ++ ys)) ((rows ++ range_rows rs) ++ ys) (λ a. omega (
              arith,
              count-append a (range_rows rs) (rows ++ ys),
              count-append a rows ys,
              count-append a (rows ++ range_rows rs) ys,
              count-append a rows (range_rows rs),
            )))

module _ (fl : Float) where
  pub task_count_bounds :
      (worker_count row_count keep : ℕ)
      → (0 < top_k_task_count fl worker_count row_count keep)
        × (top_k_task_count fl worker_count row_count keep ≤ worker_count + 1)
  unfolding top_k_task_count
  task_count_bounds worker_count row_count keep = (omega arith, omega arith)

module _ (fl : Float) (ks : List (SortKey fl)) (h : All (λ k. IsOrdered fl k.column) ks) where
  candidates_lem :
      (keep : ℕ) (some_row : 0 < keep) (rs : List Range)
      → top_k_candidates fl ks keep rs
        ≡ kept_rows
            (qe_sort_rows_less fl ks)
            (sort_rows_less-IsWeakOrder fl ks h)
            keep
            some_row
            (qe_top_k_task fl ks keep)
            (top_k_task_lem fl ks keep)
            rs
  unfolding top_k_candidates kept_rows
  candidates_lem keep some_row [] = refl
  candidates_lem keep some_row (r ∷ rs) =
      ap (λ c. qe_top_k_task fl ks keep r ++ c) (candidates_lem keep some_row rs)

  -- The parallel search for the first `keep` rows gives what sorting all rows and taking the first
  -- `keep` gives, whatever the number of workers: for keys whose numbers are no NaN, a `keep` of at
  -- least 1, a number of workers that is a U32, and at most 2^63 rows.
  pub top_k_parallel-take :
      (worker_count row_count keep : ℕ)
      → 0 < keep
      → worker_count < 2 ^ 32
      → row_count ≤ 2 ^ 63
      → qe_sort_rows_top_k_parallel fl worker_count ks row_count keep
        ≡ take keep (qe_order_merge_sort (qe_sort_rows_less fl ks) (positions 0 row_count))
  unfolding qe_sort_rows_top_k_parallel
  top_k_parallel-take worker_count row_count keep some_row workers rows =
      let less : ℕ → ℕ → Bool = qe_sort_rows_less fl ks in
      let w : IsWeakOrder less = sort_rows_less-IsWeakOrder fl ks h in
      let tasks : ℕ = top_k_task_count fl worker_count row_count keep in
      let (some_task, few_tasks) = task_count_bounds fl worker_count row_count keep in
      let ranges : List Range = ranges_from row_count (ceil_integer_div row_count tasks) tasks 0 in
      let front : take tasks (tp_divide_work row_count tasks) ≡ ranges =
        first_ranges row_count tasks in
      let all_rows : range_rows ranges ≡ positions 0 row_count =
        ranges-rows row_count tasks some_task (omega arith) in
      let kept : List ℕ = top_k_candidates fl ks keep ranges in
      rw front (
        select_top-take less w kept keep some_row
        ∙ ap (λ c. take keep (qe_order_merge_sort less c))
            (candidates_lem keep some_row ranges
              ∙ sym (
                  append-nil (
                    kept_rows less w keep some_row (qe_top_k_task fl ks keep)
                      (top_k_task_lem fl ks keep) ranges)))
        ∙ kept_rows_top less w keep some_row (qe_top_k_task fl ks keep) (top_k_task_lem fl ks keep)
            ranges []
        ∙ ap (λ c. take keep (qe_order_merge_sort less c))
            (append-nil (range_rows ranges) ∙ all_rows))
