-- ===== src/Order/TopK.antt =====
-- src/query_exec/query_exec.c: the first rows of an ORDER BY with LIMIT, found range by range. The
-- tasks of the pool write each to its own part of the arrays, so that the result of task t is entry t
-- of a list, whatever order they run in.
pub mod Numeric
pub mod Ranges
pub mod Parallel
use compute_ql.Shared.{
  ℕ, zero, suc, ◌+◌, ◌-◌, ◌*◌, ◌/◌, ◌%◌, ◌^◌, min, max, Bool, true, false, not, ◌&&◌, List, [], ◌∷◌,
  ◌++◌, ltb, ◌==◌, if◌then◌else◌, length, take, set,
}
use compute_ql.Float.{Float}
use compute_ql.ThreadPool.{Range, tp_divide_work}
use compute_ql.Order.{
  at, qe_order_sift_down, heapify_loop, qe_order_merge_sort, qe_order_select_top, positions,
  qe_order_select_top_range,
}
use compute_ql.Order.Keys.{SortKey, KeyColumn, strings, numbers, number_at, qe_sort_rows_less}

module _ (fl : Float) where
  -- The loop of qe_order_select_top_range_numeric.
  unfoldable pub numeric_loop : (ℕ → ℕ → Bool) → List fl.F64 → Bool → List ℕ → List ℕ → List ℕ
  numeric_loop less values descending heap [] = heap
  numeric_loop less values descending heap (index ∷ rest) =
      let value : fl.F64 = number_at fl values index in
      let root_value : fl.F64 = number_at fl values (at heap 0) in
      let displaces : Bool =
        if descending then fl.lt root_value value else fl.lt value root_value in
      numeric_loop less values descending
        (if displaces then qe_order_sift_down less (set heap 0 index) (length heap) 0 else heap)
        rest

  unfoldable pub qe_order_select_top_range_numeric :
      (ℕ → ℕ → Bool) → List fl.F64 → Bool → ℕ → ℕ → ℕ → List ℕ
  qe_order_select_top_range_numeric less values descending start end keep =
      let kept : ℕ = min keep (end - start) in
      let heap : List ℕ = heapify_loop less (kept / 2) (positions start kept) kept in
      qe_order_merge_sort less (
        if ltb 0 kept
        then numeric_loop less values descending heap
            (positions (start + kept) (end - (start + kept)))
        else heap)

  -- One numeric key has the loop of its own.
  unfoldable pub qe_top_k_task : List (SortKey fl) → ℕ → Range → List ℕ
  qe_top_k_task [] keep range =
      qe_order_select_top_range (qe_sort_rows_less fl []) range.min_value range.max_value keep
  qe_top_k_task (k ∷ l ∷ ks) keep range =
      qe_order_select_top_range (qe_sort_rows_less fl (k ∷ l ∷ ks)) range.min_value range.max_value
        keep
  qe_top_k_task (k ∷ []) keep range = elim k.column [
    | strings chunk ↦
        qe_order_select_top_range (qe_sort_rows_less fl (k ∷ [])) range.min_value range.max_value
          keep
    | numbers values ↦
        qe_order_select_top_range_numeric (qe_sort_rows_less fl (k ∷ [])) values k.descending
          range.min_value range.max_value keep
  ]

  -- `task_count`, of which `worker_count` is a U32.
  unfoldable pub top_k_task_count : ℕ → ℕ → ℕ → ℕ
  top_k_task_count worker_count count keep =
      max 1 (min worker_count (max 1 (count / max 32768 (keep * 4 % 2 ^ 64))))

  -- What the tasks keep, one behind the other.
  unfoldable pub top_k_candidates : List (SortKey fl) → ℕ → List Range → List ℕ
  top_k_candidates ks keep [] = []
  top_k_candidates ks keep (r ∷ rs) = qe_top_k_task ks keep r ++ top_k_candidates ks keep rs

  unfoldable pub qe_sort_rows_top_k_parallel : ℕ → List (SortKey fl) → ℕ → ℕ → List ℕ
  qe_sort_rows_top_k_parallel worker_count ks count keep =
      let task_count : ℕ = top_k_task_count worker_count count keep in
      qe_order_select_top (qe_sort_rows_less fl ks)
        (top_k_candidates ks keep (take task_count (tp_divide_work count task_count))) keep
