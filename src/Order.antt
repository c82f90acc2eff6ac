-- ===== src/Order.antt =====
-- src/query_exec/query_exec.c: the order of rows, its merge sort, and the heap that keeps the first
-- rows of an order. A row is its position, a U64; an index that only moves forward through a run is the
-- part of the run that is left. An array is in memory, so that its indices and twice a width do not
-- wrap.
pub mod Laws
pub mod Runs
pub mod Merge
pub mod Sift
pub mod Heap
pub mod Offer
pub mod Select
pub mod Range
pub mod Keys
pub mod TopK
pub mod Native
use compute_ql.Shared.{
  ℕ, zero, suc, ◌+◌, ◌-◌, ◌*◌, ◌/◌, min, Bool, true, false, not, ◌&&◌, List, [], ◌∷◌, ◌++◌, ltb,
  leb, if◌then◌else◌, length, take, drop, get_or, set,
}

-- `heap[i]`.
abbrev pub at : List ℕ → ℕ → ℕ
at heap i = get_or heap i 0

-- The positions from `start` on.
unfoldable pub positions : ℕ → ℕ → List ℕ
positions start zero = []
positions start (suc n) = start ∷ positions (start + 1) n

-- `less` with its context is the argument.
module _ (less : ℕ → ℕ → Bool) where
  unfoldable pub qe_order_before : ℕ → ℕ → Bool
  qe_order_before a b = if less a b then true else if less b a then false else ltb a b

  -- The three inner loops: what is left of the two runs.
  unfoldable pub merge_runs : List ℕ → List ℕ → List ℕ
  merge_runs [] right = right
  merge_runs (l ∷ left) [] = l ∷ left
  merge_runs (l ∷ left) (r ∷ right) = elim (qe_order_before r l) [
    | true ↦ r ∷ merge_runs (l ∷ left) right
    | false ↦ l ∷ merge_runs left (r ∷ right)
  ]

  -- The loop over `start`: what is left of the source. Each round takes an entry at least.
  unfoldable pub merge_pass : ℕ → ℕ → List ℕ → List ℕ
  merge_pass zero width source = source
  merge_pass (suc fuel) width [] = []
  merge_pass (suc fuel) width (x ∷ xs) =
      merge_runs (take width (x ∷ xs)) (take width (drop width (x ∷ xs)))
      ++ merge_pass fuel width (drop (2 * width) (x ∷ xs))

  -- The loop over `width`, which grows in each round.
  unfoldable pub merge_widths : ℕ → ℕ → List ℕ → List ℕ
  merge_widths zero width source = source
  merge_widths (suc fuel) width source = elim (ltb width (length source)) [
    | true ↦ merge_widths fuel (width * 2) (merge_pass (length source) width source)
    | false ↦ source
  ]

  unfoldable pub qe_order_merge_sort : List ℕ → List ℕ
  qe_order_merge_sort order = merge_widths (length order) 1 order

  unfoldable pub later_child : List ℕ → ℕ → ℕ → ℕ
  later_child heap count root =
      let child : ℕ = root * 2 + 1 in
      if ltb (child + 1) count && qe_order_before (at heap child) (at heap (child + 1))
      then child + 1
      else child

  -- Every round moves down, so that `count` rounds are enough.
  unfoldable pub sift_loop : ℕ → List ℕ → ℕ → ℕ → List ℕ
  sift_loop zero heap count root = heap
  sift_loop (suc fuel) heap count root =
      let child : ℕ = later_child heap count root in
      let down : List ℕ =
        sift_loop fuel (set (set heap root (at heap child)) child (at heap root)) count child in
      if leb count (root * 2 + 1)
      then heap
      else if not (qe_order_before (at heap root) (at heap child))
      then heap
      else down

  unfoldable pub qe_order_sift_down : List ℕ → ℕ → ℕ → List ℕ
  qe_order_sift_down heap count root = sift_loop count heap count root

  -- The loop from the last parent, which is `root - 1`, to the root of the heap.
  unfoldable pub heapify_loop : ℕ → List ℕ → ℕ → List ℕ
  heapify_loop zero heap count = heap
  heapify_loop (suc root) heap count = heapify_loop root (qe_order_sift_down heap count root) count

  -- The loop over the rows behind the heap.
  unfoldable pub select_loop : List ℕ → List ℕ → List ℕ
  select_loop heap [] = heap
  select_loop heap (row ∷ rows) =
      select_loop
        (if qe_order_before row (at heap 0)
          then qe_order_sift_down (set heap 0 row) (length heap) 0
          else heap)
        rows

  -- The first entries of `order`, whose number is returned: the heap is the first `keep` entries, and
  -- those behind it are only read. `keep` is not 0.
  unfoldable pub qe_order_select_top : List ℕ → ℕ → List ℕ
  qe_order_select_top order keep =
      let kept : ℕ = min keep (length order) in
      qe_order_merge_sort
        (select_loop (heapify_loop (kept / 2) (take kept order) kept) (drop kept order))

  -- The loop over the later positions, which asks `less` alone.
  unfoldable pub range_loop : List ℕ → List ℕ → List ℕ
  range_loop heap [] = heap
  range_loop heap (index ∷ rest) =
      range_loop
        (if less index (at heap 0)
          then qe_order_sift_down (set heap 0 index) (length heap) 0
          else heap)
        rest

  unfoldable pub qe_order_select_top_range : ℕ → ℕ → ℕ → List ℕ
  qe_order_select_top_range start end keep =
      let kept : ℕ = min keep (end - start) in
      qe_order_merge_sort (
        range_loop (heapify_loop (kept / 2) (positions start kept) kept)
          (positions (start + kept) (end - (start + kept))))
