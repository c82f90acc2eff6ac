-- ===== src/Order/Native/Parallel.antt =====
-- src/query_exec/query_exec.c, `qe_sort_rows_top_k_native`: its result against the order of the rows.
use mathlib.Core.List.{append_assoc, append-nil}
use compute_ql.Shared.{
  Bool, ℕ, ◌+◌, ◌-◌, ◌/◌, ◌^◌, ◌≤◌, ◌<◌, ◌≡◌, refl, sym, ◌∙◌, ap, subst, min, List, [], ◌∷◌, ◌++◌,
  length, take, drop, set, arith, length-append, length-take, take-append-drop,
}
use compute_ql.Float.{Float}
use compute_ql.ThreadPool.{Range, tp_divide_work, ranges_from, ceil_integer_div}
use compute_ql.Order.{qe_order_before, heapify_loop, qe_order_merge_sort, positions, select_loop}
use compute_ql.Order.Sift.{IsHeapFrom, length-heapify}
use compute_ql.Order.Offer.{offer, length-offer}
use compute_ql.Order.Select.{selected, selected-IsKept, select_top_front}
use compute_ql.Order.Range.{length-positions}
use compute_ql.Order.Runs.{length-merge_sort}
use compute_ql.Order.TopK.{top_k_task_count}
use compute_ql.Order.TopK.Ranges.{range_rows, ranges-rows, first_ranges}
use compute_ql.Order.TopK.Parallel.{range_front, kept_rows, kept_rows_top, task_count_bounds}
use compute_ql.Order.Native.{
  TopKKey, qe_top_k_native_heapify, qe_top_k_native_sort, native_merge_loop, qe_top_k_native_before,
  qe_top_k_native_task, native_candidates, qe_sort_rows_top_k_native,
}
use compute_ql.Order.Native.Loops.{native_sift_down_lem, native_heapify_lem}
use compute_ql.Order.Native.Keys.{KeysAreOrdered, native_before_lem}
use compute_ql.Order.Native.Sort.{native_sort-merge_sort}
use compute_ql.Order.Native.Tasks.{less, w, native_task_lem}

module _ (fl : Float) (ks : List (TopKKey fl)) (h : KeysAreOrdered fl ks) where
  abbrev row_less : ℕ → ℕ → Bool
  row_less = less fl ks h

  -- The rounds of the loop that merges what the tasks have kept.
  merge_grow :
      (keep : ℕ) (merged rows : List ℕ) (row : ℕ)
      → length merged + 1 < keep
      → native_merge_loop (qe_order_before row_less) keep merged (row ∷ rows)
        ≡ native_merge_loop (qe_order_before row_less) keep (merged ++ row ∷ []) rows
  unfolding native_merge_loop
  merge_grow keep merged rows row h = ground arith

  merge_full :
      (keep : ℕ) (merged rows : List ℕ) (row : ℕ)
      → length merged + 1 ≡ keep
      → native_merge_loop (qe_order_before row_less) keep merged (row ∷ rows)
        ≡ native_merge_loop
            (qe_order_before row_less)
            keep
            (qe_top_k_native_heapify (qe_order_before row_less) (merged ++ row ∷ []) keep)
            rows
  unfolding native_merge_loop
  merge_full keep merged rows row h = ground arith

  merge_offer :
      (keep : ℕ) (merged rows : List ℕ) (row : ℕ)
      → length merged ≡ keep
      → native_merge_loop (qe_order_before row_less) keep merged (row ∷ rows)
        ≡ native_merge_loop (qe_order_before row_less) keep (offer row_less merged row) rows
  unfolding native_merge_loop
  merge_offer keep merged rows row h =
      ground (arith, native_sift_down_lem row_less (set merged 0 row) keep 0)

  -- Once the first `keep` rows are there, they are made a heap.
  fill_lem :
      (keep : ℕ) (merged rows rest : List ℕ) (row : ℕ)
      → length merged + length (row ∷ rows) ≡ keep
      → native_merge_loop (qe_order_before row_less) keep merged ((row ∷ rows) ++ rest)
        ≡ native_merge_loop
            (qe_order_before row_less)
            keep
            (qe_top_k_native_heapify (qe_order_before row_less) (merged ++ row ∷ rows) keep)
            rest
  fill_lem keep merged [] rest row e = merge_full keep merged rest row (omega arith)
  fill_lem keep merged (second ∷ rows) rest row e =
      merge_grow keep merged ((second ∷ rows) ++ rest) row (omega arith)
      ∙ fill_lem keep (merged ++ row ∷ []) rows rest second
          (omega (arith, length-append merged (row ∷ [])))
      ∙ ap
          (λ m.
            native_merge_loop (qe_order_before row_less) keep
              (qe_top_k_native_heapify (qe_order_before row_less) m keep) rest)
          (append_assoc merged (row ∷ []) (second ∷ rows))

  full_lem :
      (keep : ℕ) (merged rows : List ℕ)
      → length merged ≡ keep
      → native_merge_loop (qe_order_before row_less) keep merged rows
        ≡ select_loop row_less merged rows
  unfolding native_merge_loop select_loop
  full_lem keep merged [] e = refl
  full_lem keep merged (row ∷ rows) e =
      merge_offer keep merged rows row e
      ∙ full_lem keep (offer row_less merged row) rows (length-offer row_less merged row ∙ e)

  parts_lem :
      (keep : ℕ) (rows rest : List ℕ)
      → 0 < keep
      → length rows ≡ keep
      → native_merge_loop (qe_order_before row_less) keep [] (rows ++ rest)
        ≡ select_loop row_less (heapify_loop row_less (keep / 2) rows keep) rest
  unfolding qe_top_k_native_heapify
  parts_lem keep [] rest some_row e = absurd (omega arith)
  parts_lem keep (row ∷ rows) rest some_row e =
      fill_lem keep [] rows rest row (omega arith)
      ∙ ap (λ m. native_merge_loop (qe_order_before row_less) keep m rest)
          (native_heapify_lem row_less (keep / 2) (row ∷ rows) keep)
      ∙ full_lem keep (heapify_loop row_less (keep / 2) (row ∷ rows) keep) rest
          (length-heapify row_less (keep / 2) keep (row ∷ rows) ∙ e)

  merged_lem :
      (keep : ℕ) (rows : List ℕ)
      → 0 < keep
      → keep ≤ length rows
      → native_merge_loop (qe_order_before row_less) keep [] rows
        ≡ selected row_less (w fl ks h) rows keep
  merged_lem keep rows some_row enough =
      ap (native_merge_loop (qe_order_before row_less) keep []) (sym (take-append-drop keep rows))
      ∙ parts_lem keep (take keep rows) (drop keep rows) some_row
          (omega (arith, length-take keep rows))

  -- Merging what the tasks have kept, and sorting it in place.
  merged_top :
      (keep : ℕ) (rows : List ℕ)
      → 0 < keep
      → keep ≤ length rows
      → (let merged : List ℕ = native_merge_loop (qe_top_k_native_before fl ks) keep [] rows in
          qe_top_k_native_sort (qe_top_k_native_before fl ks) merged (length merged)
          ≡ take keep (qe_order_merge_sort row_less rows))
  merged_top keep rows some_row enough =
      let k = selected-IsKept row_less (w fl ks h) rows keep some_row enough in
      let heap : List ℕ = selected row_less (w fl ks h) rows keep in
      rw (native_before_lem fl ks h, merged_lem keep rows some_row enough)
        (native_sort-merge_sort row_less (w fl ks h) heap
            (subst (λ n. IsHeapFrom row_less 0 n heap) (sym k.sized) k.ordered)
          ∙ select_top_front row_less (w fl ks h) rows keep some_row enough)

  length-native_task :
      (keep : ℕ) (r : Range)
      → 0 < keep
      → length (qe_top_k_native_task fl ks keep r) ≡ min keep (r.max_value - r.min_value)
  length-native_task keep r some_row =
      let rows : List ℕ = positions r.min_value (r.max_value - r.min_value) in
      let whole : length (qe_top_k_native_task fl ks keep r)
          ≡ length (take keep (qe_order_merge_sort row_less rows)) =
        ap (length {A = ℕ}) (
          native_task_lem fl ks h keep r
          ∙ range_front row_less (w fl ks h) r.min_value r.max_value keep some_row) in
      omega (
        arith,
        whole,
        length-take keep (qe_order_merge_sort row_less rows),
        length-merge_sort row_less rows,
        length-positions r.min_value (r.max_value - r.min_value),
      )

  kept_enough :
      (keep : ℕ) (some_row : 0 < keep) (rs : List Range)
      → min keep (length (range_rows rs))
        ≤ length (
            kept_rows row_less
              (w fl ks h)
              keep
              some_row
              (qe_top_k_native_task fl ks keep)
              (native_task_lem fl ks h keep)
              rs)
  unfolding range_rows kept_rows
  kept_enough keep some_row [] = omega arith
  kept_enough keep some_row (r ∷ rs) = omega (
    arith,
    kept_enough keep some_row rs,
    length-native_task keep r some_row,
    length-append (positions r.min_value (r.max_value - r.min_value)) (range_rows rs),
    length-append (qe_top_k_native_task fl ks keep r) (
        kept_rows row_less (w fl ks h) keep some_row (qe_top_k_native_task fl ks keep)
          (native_task_lem fl ks h keep) rs),
    length-positions r.min_value (r.max_value - r.min_value),
  )

  candidates_lem :
      (keep : ℕ) (some_row : 0 < keep) (rs : List Range)
      → native_candidates fl ks keep rs
        ≡ kept_rows row_less
            (w fl ks h)
            keep
            some_row
            (qe_top_k_native_task fl ks keep)
            (native_task_lem fl ks h keep)
            rs
  unfolding native_candidates kept_rows
  candidates_lem keep some_row [] = refl
  candidates_lem keep some_row (r ∷ rs) =
      ap (λ c. qe_top_k_native_task fl ks keep r ++ c) (candidates_lem keep some_row rs)

  -- The search over columns that are read in place gives what sorting all rows and taking the first
  -- `keep` gives, whatever the number of workers: for keys whose values are no NaN, a `keep` from 1 to
  -- the number of rows, a number of workers that is a U32, and at most 2^63 rows.
  pub top_k_native-take :
      (worker_count row_count keep : ℕ)
      → 0 < keep
      → keep ≤ row_count
      → worker_count < 2 ^ 32
      → row_count ≤ 2 ^ 63
      → qe_sort_rows_top_k_native fl worker_count ks row_count keep
        ≡ take keep (qe_order_merge_sort row_less (positions 0 row_count))
  unfolding qe_sort_rows_top_k_native
  top_k_native-take worker_count row_count keep some_row enough workers rows =
      let tasks : ℕ = top_k_task_count fl worker_count row_count keep in
      let (some_task, few_tasks) = task_count_bounds fl worker_count row_count keep in
      let ranges : List Range = ranges_from row_count (ceil_integer_div row_count tasks) tasks 0 in
      let front : take tasks (tp_divide_work row_count tasks) ≡ ranges =
        first_ranges row_count tasks in
      let all_rows : range_rows ranges ≡ positions 0 row_count =
        ranges-rows row_count tasks some_task (omega arith) in
      let kept : List ℕ =
        kept_rows row_less (w fl ks h) keep some_row (qe_top_k_native_task fl ks keep)
          (native_task_lem fl ks h keep) ranges in
      let all_kept : keep ≤ length kept = omega (
        arith,
        kept_enough keep some_row ranges,
        ap (length {A = ℕ}) all_rows,
        length-positions 0 row_count,
      ) in
      rw (front, candidates_lem keep some_row ranges)
        (merged_top keep kept some_row all_kept
          ∙ ap (λ c. take keep (qe_order_merge_sort row_less c)) (sym (append-nil kept))
          ∙ kept_rows_top row_less (w fl ks h) keep some_row (qe_top_k_native_task fl ks keep)
              (native_task_lem fl ks h keep) ranges []
          ∙ ap (λ c. take keep (qe_order_merge_sort row_less c))
              (append-nil (range_rows ranges) ∙ all_rows))
