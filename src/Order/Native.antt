-- ===== src/Order/Native.antt =====
-- src/query_exec/query_exec.c: the first rows of an ORDER BY over numeric columns that are read in place.
-- Its heap is a copy of that of `qe_order_sift_down` over another comparison, and is sorted in place.
pub mod Loops
pub mod Sort
pub mod Keys
pub mod Tasks
pub mod Parallel
use Prim.Native.Nat.{Ordering}
use compute_ql.Shared.{
  ℕ, zero, suc, ◌+◌, ◌-◌, ◌*◌, ◌/◌, ◌^◌, min, Bool, true, false, not, ◌&&◌, ◌||◌, List, [], ◌∷◌,
  ◌++◌, Option, none, some, ltb, leb, ◌==◌, if◌then◌else◌, length, take, set, get_or,
}
use compute_ql.Float.{Float}
use compute_ql.ThreadPool.{Range, tp_divide_work}
use compute_ql.Order.{at, positions}
use compute_ql.Order.Keys.{compare_numbers}
use compute_ql.Order.TopK.{top_k_task_count}

-- The loops over the heap, for a comparison `before`.
module _ (before : ℕ → ℕ → Bool) where
  unfoldable pub native_child : List ℕ → ℕ → ℕ → ℕ
  native_child heap count root =
      let child : ℕ = root * 2 + 1 in
      if ltb (child + 1) count && before (at heap child) (at heap (child + 1))
      then child + 1
      else child

  unfoldable pub native_sift_loop : ℕ → List ℕ → ℕ → ℕ → List ℕ
  native_sift_loop zero heap count root = heap
  native_sift_loop (suc fuel) heap count root =
      let child : ℕ = native_child heap count root in
      let down : List ℕ =
        native_sift_loop fuel (set (set heap root (at heap child)) child (at heap root)) count
          child in
      if leb count (root * 2 + 1)
      then heap
      else if not (before (at heap root) (at heap child))
      then heap
      else down

  unfoldable pub qe_top_k_native_sift_down : List ℕ → ℕ → ℕ → List ℕ
  qe_top_k_native_sift_down heap count root = native_sift_loop count heap count root

  unfoldable pub native_heapify_loop : ℕ → List ℕ → ℕ → List ℕ
  native_heapify_loop zero heap count = heap
  native_heapify_loop (suc root) heap count =
      native_heapify_loop root (qe_top_k_native_sift_down heap count root) count

  unfoldable pub qe_top_k_native_heapify : List ℕ → ℕ → List ℕ
  qe_top_k_native_heapify heap count = native_heapify_loop (count / 2) heap count

  -- The loop over `end`, down to 2: the root, which is the last row, goes behind the heap.
  unfoldable pub qe_top_k_native_sort : List ℕ → ℕ → List ℕ
  qe_top_k_native_sort heap zero = heap
  qe_top_k_native_sort heap (suc zero) = heap
  qe_top_k_native_sort heap (suc (suc n)) =
      qe_top_k_native_sort
        (qe_top_k_native_sift_down (set (set heap 0 (at heap (suc n))) (suc n) (at heap 0)) (suc n)
          0)
        (suc n)

  -- The loop over the rows that the tasks have kept.
  unfoldable pub native_merge_loop : ℕ → List ℕ → List ℕ → List ℕ
  native_merge_loop keep merged [] = merged
  native_merge_loop keep merged (row ∷ rows) =
      native_merge_loop keep
        (if ltb (length merged) keep
          then if length merged + 1 == keep
            then qe_top_k_native_heapify (merged ++ row ∷ []) keep
            else merged ++ row ∷ []
          else if before row (at merged 0)
          then qe_top_k_native_sift_down (set merged 0 row) keep 0
          else merged)
        rows

module _ (fl : Float) where
  -- QE_TopKKey. The data behind `base_ptr` is the numbers that qe_native_numeric_value reads there.
  pub record TopKKey : Type 0 where
    pub table_rows : List ℕ
    pub base_ptr : Option (List fl.F64)
    pub min_row : ℕ
    pub descending : Bool

  -- PLAN_NULL_ROW is the greatest U64.
  unfoldable pub qe_top_k_key_value : TopKKey → ℕ → fl.F64
  qe_top_k_key_value key position =
      let row : ℕ = get_or key.table_rows position 0 in
      if row == 2 ^ 64 - 1 then fl.zero_value else elim key.base_ptr [
        | none ↦ fl.zero_value
        | some values ↦ get_or values (row - key.min_row) fl.zero_value
      ]

  -- A comparison of one key, turned where it is descending.
  unfoldable pub native_key_compare : TopKKey → ℕ → ℕ → Ordering
  native_key_compare key a b =
      elim (compare_numbers fl (qe_top_k_key_value key a) (qe_top_k_key_value key b)) [
        | Ordering.lt ↦ if key.descending then Ordering.gt else Ordering.lt
        | Ordering.eq ↦ Ordering.eq
        | Ordering.gt ↦ if key.descending then Ordering.lt else Ordering.gt
      ]

  unfoldable pub qe_top_k_native_compare : List TopKKey → ℕ → ℕ → Ordering
  qe_top_k_native_compare [] a b = Ordering.eq
  qe_top_k_native_compare (k ∷ ks) a b = elim (native_key_compare k a b) [
    | Ordering.lt ↦ Ordering.lt
    | Ordering.eq ↦ qe_top_k_native_compare ks a b
    | Ordering.gt ↦ Ordering.gt
  ]

  unfoldable pub qe_top_k_native_before : List TopKKey → ℕ → ℕ → Bool
  qe_top_k_native_before ks a b = elim (qe_top_k_native_compare ks a b) [
    | Ordering.lt ↦ true
    | Ordering.eq ↦ ltb a b
    | Ordering.gt ↦ false
  ]

  -- Whether a later row displaces the root: the leading key decides, and on a tie the other keys.
  unfoldable pub native_displaces : List TopKKey → ℕ → ℕ → Bool
  native_displaces [] position root = false
  native_displaces (lead ∷ ks) position root = elim (native_key_compare lead position root) [
    | Ordering.lt ↦ true
    | Ordering.eq ↦
        if not (length ks == 0) then qe_top_k_native_before (lead ∷ ks) position root else false
    | Ordering.gt ↦ false
  ]

  unfoldable pub native_loop : List TopKKey → List ℕ → List ℕ → List ℕ
  native_loop ks heap [] = heap
  native_loop ks heap (position ∷ rest) =
      native_loop ks
        (if native_displaces ks position (at heap 0)
          then qe_top_k_native_sift_down (qe_top_k_native_before ks) (set heap 0 position)
              (length heap) 0
          else heap)
        rest

  unfoldable pub qe_top_k_native_task : List TopKKey → ℕ → Range → List ℕ
  qe_top_k_native_task ks most range =
      let keep : ℕ = min most (range.max_value - range.min_value) in
      let heap : List ℕ =
        qe_top_k_native_heapify (qe_top_k_native_before ks) (positions range.min_value keep) keep in
      qe_top_k_native_sort (qe_top_k_native_before ks)
        (if ltb 0 keep
          then native_loop ks heap
              (positions (range.min_value + keep) (range.max_value - (range.min_value + keep)))
          else heap)
        keep

  unfoldable pub native_candidates : List TopKKey → ℕ → List Range → List ℕ
  native_candidates ks keep [] = []
  native_candidates ks keep (r ∷ rs) =
      qe_top_k_native_task ks keep r ++ native_candidates ks keep rs

  -- Behind the reading of the columns.
  unfoldable pub qe_sort_rows_top_k_native : ℕ → List TopKKey → ℕ → ℕ → List ℕ
  qe_sort_rows_top_k_native worker_count ks count keep =
      let task_count : ℕ = top_k_task_count fl worker_count count keep in
      let merged : List ℕ =
        native_merge_loop (qe_top_k_native_before ks) keep []
          (native_candidates ks keep (take task_count (tp_divide_work count task_count))) in
      qe_top_k_native_sort (qe_top_k_native_before ks) merged (length merged)
