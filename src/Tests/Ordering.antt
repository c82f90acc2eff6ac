-- ===== src/Tests/Ordering.antt =====
-- The order of rows, on keys of natural numbers.
use compute_ql.Shared.{some, ℕ, ◌≡◌, refl, true, false, List, [], ◌∷◌, take, arith, All}
use compute_ql.Text.{str8_lit}
use compute_ql.Order.{
  qe_order_before, merge_runs, merge_pass, merge_widths, qe_order_merge_sort, later_child,
  sift_loop, qe_order_sift_down, heapify_loop, select_loop, qe_order_select_top, positions,
}
use compute_ql.Order.Laws.{IsWeakOrder, IsSorted, count}
use compute_ql.Order.Merge.{merge_sort_lem}
use compute_ql.Order.Select.{select_top-take}
use compute_ql.Order.Keys.{
  SortKey, strings, numbers, number_at, compare_numbers, key_compare, memory_compare,
  qe_str8_compare, chunk_string, qe_sort_rows_compare_ctx, qe_sort_rows_less,
}
use compute_ql.Order.Keys.Laws.{IsOrdered, sort_rows_less-IsWeakOrder}
use compute_ql.ThreadPool.{tp_divide_work, ranges_from, work_range, ceil_integer_div}
use compute_ql.Order.TopK.{qe_sort_rows_top_k_parallel, top_k_task_count}
use compute_ql.Order.Native.{
  TopKKey, qe_sort_rows_top_k_native, native_candidates, qe_top_k_native_task, native_loop,
  native_displaces, native_merge_loop, qe_top_k_native_sort, qe_top_k_native_heapify,
  native_heapify_loop, qe_top_k_native_sift_down, native_sift_loop, native_child,
  qe_top_k_native_before, qe_top_k_native_compare, native_key_compare, qe_top_k_key_value,
}
use compute_ql.Order.Native.Keys.{native_less, KeysAreOrdered}
use compute_ql.Order.Native.Parallel.{top_k_native-take}
use compute_ql.Order.TopK.Parallel.{top_k_parallel-take}
use compute_ql.Tests.Folding.{naturals}

-- ORDER BY price DESC, name.
abbrev keys : List (SortKey naturals)
keys =
    record { column = numbers (5 ∷ 7 ∷ 5 ∷ 9 ∷ 5 ∷ []); descending = true }
    ∷ record {
      column =
          strings
            record { bytes = str8_lit "catantbeebeeant"; offsets = 0 ∷ 3 ∷ 6 ∷ 9 ∷ 12 ∷ 15 ∷ [] };
      descending = false;
    }
    ∷ []

keys-IsOrdered : All (λ k. IsOrdered naturals k.column) keys
keys-IsOrdered = (λ a b c h k. ground arith, (tt, tt))

sort_rows_less-IsWeakOrder_example : IsWeakOrder (qe_sort_rows_less naturals keys)
sort_rows_less-IsWeakOrder_example = sort_rows_less-IsWeakOrder naturals keys keys-IsOrdered

abbrev order_of_keys : IsWeakOrder (qe_sort_rows_less naturals keys)
order_of_keys = sort_rows_less-IsWeakOrder naturals keys keys-IsOrdered

sorted_rows :
    qe_order_merge_sort (qe_sort_rows_less naturals keys) (positions 0 5) ≡ 3 ∷ 1 ∷ 4 ∷ 2 ∷ 0 ∷ []
unfolding qe_order_merge_sort merge_widths merge_pass merge_runs qe_order_before qe_sort_rows_less
    qe_sort_rows_compare_ctx key_compare compare_numbers number_at qe_str8_compare memory_compare
    chunk_string positions
sorted_rows = refl

selected_rows :
    qe_order_select_top (qe_sort_rows_less naturals keys) (positions 0 5) 3 ≡ 3 ∷ 1 ∷ 4 ∷ []
unfolding qe_order_select_top select_loop heapify_loop qe_order_sift_down sift_loop later_child
    qe_order_merge_sort merge_widths merge_pass merge_runs qe_order_before qe_sort_rows_less
    qe_sort_rows_compare_ctx key_compare compare_numbers number_at qe_str8_compare memory_compare
    chunk_string positions
selected_rows = refl

merge_sort_lem_example :
    IsSorted
      (qe_sort_rows_less naturals keys)
      (qe_order_merge_sort (qe_sort_rows_less naturals keys) (positions 0 5))
    × ((a : ℕ)
        → count a (qe_order_merge_sort (qe_sort_rows_less naturals keys) (positions 0 5))
          ≡ count a (positions 0 5))
merge_sort_lem_example =
    merge_sort_lem (qe_sort_rows_less naturals keys) order_of_keys (positions 0 5)

select_top-take_example :
    qe_order_select_top (qe_sort_rows_less naturals keys) (positions 0 5) 3
    ≡ take 3 (qe_order_merge_sort (qe_sort_rows_less naturals keys) (positions 0 5))
select_top-take_example =
    select_top-take (qe_sort_rows_less naturals keys) order_of_keys (positions 0 5) 3 (omega arith)

top_k_parallel-take_example :
    qe_sort_rows_top_k_parallel naturals 4 keys 5 2
    ≡ take 2 (qe_order_merge_sort (qe_sort_rows_less naturals keys) (positions 0 5))
top_k_parallel-take_example =
    top_k_parallel-take naturals keys keys-IsOrdered 4 5 2 (omega arith) (omega arith) (omega arith)

-- The same prices, read in place: row 3 is a NULL of an outer join.
abbrev native_keys : List (TopKKey naturals)
native_keys =
    record {
      table_rows = 10 ∷ 11 ∷ 12 ∷ 18446744073709551615 ∷ 13 ∷ [];
      base_ptr = some (5 ∷ 7 ∷ 5 ∷ 9 ∷ []);
      min_row = 10;
      descending = true;
    }
    ∷ []

native_keys-AreOrdered : KeysAreOrdered naturals native_keys
native_keys-AreOrdered = (λ a b c h k. ground arith, tt)

native_rows : qe_sort_rows_top_k_native naturals 4 native_keys 5 3 ≡ 4 ∷ 1 ∷ 0 ∷ []
unfolding qe_sort_rows_top_k_native native_candidates qe_top_k_native_task native_loop
    native_displaces native_merge_loop qe_top_k_native_sort qe_top_k_native_heapify
    native_heapify_loop qe_top_k_native_sift_down native_sift_loop native_child
    qe_top_k_native_before qe_top_k_native_compare native_key_compare qe_top_k_key_value
    compare_numbers positions top_k_task_count tp_divide_work ranges_from work_range
    ceil_integer_div
native_rows = refl

top_k_native-take_example :
    qe_sort_rows_top_k_native naturals 4 native_keys 5 3
    ≡ take 3 (qe_order_merge_sort (native_less naturals native_keys) (positions 0 5))
top_k_native-take_example =
    top_k_native-take naturals native_keys native_keys-AreOrdered 4 5 3 (omega arith) (omega arith)
      (omega arith) (omega arith)
