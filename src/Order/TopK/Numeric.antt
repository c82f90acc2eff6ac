-- ===== src/Order/TopK/Numeric.antt =====
-- src/query_exec/query_exec.c, `qe_order_select_top_range_numeric`: comparing with the value of the root
-- is comparing by the key.
use compute_ql.Shared.{
  ℕ, ◌+◌, ◌-◌, ◌/◌, ◌≡◌, refl, sym, ap, subst, min, Bool, List, [], ◌∷◌, ltb, if◌then◌else◌, length,
  set, arith, Bool-cases, inl, inr,
}
use compute_ql.Float.{Float}
use compute_ql.ThreadPool.{Range}
use compute_ql.Order.{
  at, qe_order_sift_down, heapify_loop, qe_order_merge_sort, range_loop, positions, sift_loop,
  qe_order_select_top_range,
}
use compute_ql.Order.Keys.{
  SortKey, KeyColumn, numbers, strings, number_at, compare_numbers, key_compare,
  qe_sort_rows_compare_ctx, qe_sort_rows_less,
}
use compute_ql.Order.TopK.{numeric_loop, qe_order_select_top_range_numeric, qe_top_k_task}

pub range_none : (less : ℕ → ℕ → Bool) (rows : List ℕ) → range_loop less [] rows ≡ []
unfolding range_loop qe_order_sift_down sift_loop
range_none less [] = refl
range_none less (row ∷ rows) = elim (Bool-cases (less row 0)) [
  | inl e ↦ rw e (range_none less rows)
  | inr e ↦ rw e (range_none less rows)
]

module _ (fl : Float) where
  abbrev one_key : List fl.F64 → Bool → List (SortKey fl)
  one_key values descending = record { column = numbers values; descending = descending } ∷ []

  less_value :
      (values : List fl.F64) (descending : Bool) (a b : ℕ)
      → qe_sort_rows_less fl (one_key values descending) a b ≡ (
          if descending
          then fl.lt (number_at fl values b) (number_at fl values a)
          else fl.lt (number_at fl values a) (number_at fl values b))
  unfolding qe_sort_rows_less qe_sort_rows_compare_ctx key_compare compare_numbers
  less_value values descending a b = ground (
    arith,
    fl.lt_irrefl (number_at fl values a),
    fl.lt_trans (number_at fl values a) (number_at fl values b) (number_at fl values a),
  )

  numeric_loop_lem :
      (values : List fl.F64) (descending : Bool) (heap rows : List ℕ)
      → numeric_loop fl
          (qe_sort_rows_less fl (one_key values descending))
          values
          descending
          heap
          rows
        ≡ range_loop (qe_sort_rows_less fl (one_key values descending)) heap rows
  unfolding numeric_loop range_loop
  numeric_loop_lem values descending heap [] = refl
  numeric_loop_lem values descending heap (row ∷ rows) =
      let less : ℕ → ℕ → Bool = qe_sort_rows_less fl (one_key values descending) in
      let root : ℕ = at heap 0 in
      let displaces : Bool =
        if descending
        then fl.lt (number_at fl values root) (number_at fl values row)
        else fl.lt (number_at fl values row) (number_at fl values root) in
      rw (less_value values descending row root) (
        numeric_loop_lem values descending
          (if displaces then qe_order_sift_down less (set heap 0 row) (length heap) 0 else heap)
          rows)

  range_numeric_lem :
      (values : List fl.F64) (descending : Bool) (start end keep : ℕ)
      → qe_order_select_top_range_numeric fl
          (qe_sort_rows_less fl (one_key values descending))
          values
          descending
          start
          end
          keep
        ≡ qe_order_select_top_range
            (qe_sort_rows_less fl (one_key values descending))
            start
            end
            keep
  unfolding qe_order_select_top_range_numeric qe_order_select_top_range heapify_loop positions
  range_numeric_lem values descending start end keep =
      let less : ℕ → ℕ → Bool = qe_sort_rows_less fl (one_key values descending) in
      let kept : ℕ = min keep (end - start) in
      let heap : List ℕ = heapify_loop less (kept / 2) (positions start kept) kept in
      let rows : List ℕ = positions (start + kept) (end - (start + kept)) in
      ap (qe_order_merge_sort less) (elim (Bool-cases (ltb 0 kept)) [
        | inl some_row ↦ rw some_row (numeric_loop_lem values descending heap rows)
        | inr no_row ↦
            let none_kept : kept ≡ 0 = ground arith in
            rw no_row (
              subst
                (λ n.
                  heapify_loop less (n / 2) (positions start n) n
                  ≡ range_loop less (heapify_loop less (n / 2) (positions start n) n) rows)
                (sym none_kept) (sym (range_none less rows)))
      ])

  key_task :
      (column : KeyColumn fl) (descending : Bool) (keep : ℕ) (range : Range)
      → (let k : SortKey fl = record { column = column; descending = descending } in
          qe_top_k_task fl (k ∷ []) keep range
          ≡ qe_order_select_top_range
              (qe_sort_rows_less fl (k ∷ []))
              range.min_value
              range.max_value
              keep)
  unfolding qe_top_k_task
  key_task (strings chunk) descending keep range = refl
  key_task (numbers values) descending keep range =
      range_numeric_lem values descending range.min_value range.max_value keep

  one_key_task :
      (k : SortKey fl) (keep : ℕ) (range : Range)
      → qe_top_k_task fl (k ∷ []) keep range
        ≡ qe_order_select_top_range
            (qe_sort_rows_less fl (k ∷ []))
            range.min_value
            range.max_value
            keep
  one_key_task k keep range = key_task k.column k.descending keep range

  -- Every task keeps the rows that qe_order_select_top_range keeps.
  pub top_k_task_lem :
      (ks : List (SortKey fl)) (keep : ℕ) (range : Range)
      → qe_top_k_task fl ks keep range
        ≡ qe_order_select_top_range (qe_sort_rows_less fl ks) range.min_value range.max_value keep
  unfolding qe_top_k_task
  top_k_task_lem [] keep range = refl
  top_k_task_lem (k ∷ []) keep range = one_key_task k keep range
  top_k_task_lem (k ∷ l ∷ ks) keep range = refl
