-- ===== src/Order/Range.antt =====
-- src/query_exec/query_exec.c, `qe_order_select_top_range`: the shortcut for positions that follow one
-- another.
use compute_ql.Shared.{
  ℕ, zero, suc, ◌+◌, ◌-◌, ◌/◌, ◌≤◌, ◌<◌, ◌≡◌, refl, ◌∙◌, ap, subst, Bool, min, List, ◌∷◌, arith,
  if◌then◌else◌, length, take, drop, set, length-set,
}
use compute_ql.Order.{
  qe_order_before, at, qe_order_sift_down, heapify_loop, select_loop, qe_order_select_top,
  qe_order_merge_sort, positions, range_loop, qe_order_select_top_range,
}
use compute_ql.Order.Laws.{count, count-set}
use compute_ql.Order.Sift.{sift_down-count, length-heapify, heapify-count}
use compute_ql.Order.Offer.{count-at, offer, length-offer}

pub length-positions : (start n : ℕ) → length (positions start n) ≡ n
unfolding positions
length-positions start zero = refl
length-positions start (suc n) = ap suc (length-positions (start + 1) n)

count-positions : (a start n : ℕ) → 0 < count a (positions start n) → (start ≤ a) × (a < start + n)
unfolding positions count
count-positions a start zero h = absurd (omega arith)
count-positions a start (suc n) h = ground (arith, count-positions a (start + 1) n)

take-positions : (start k n : ℕ) → k ≤ n → take k (positions start n) ≡ positions start k
unfolding positions
take-positions start zero n h = refl
take-positions start (suc k) zero h = absurd (omega arith)
take-positions start (suc k) (suc n) h =
    ap (◌∷◌ start) (take-positions (start + 1) k n (omega arith))

one_more : (start k : ℕ) → start + 1 + k ≡ start + suc k
one_more start k = omega arith

no_more : (start : ℕ) → start ≡ start + 0
no_more start = omega arith

drop-positions : (start k n : ℕ) → drop k (positions start (k + n)) ≡ positions (start + k) n
unfolding positions
drop-positions start zero n =
    let e : 0 + n ≡ n = omega arith in rw e (ap (λ s. positions s n) (no_more start))
drop-positions start (suc k) n =
    let e : suc k + n ≡ suc (k + n) = omega arith in
    rw e (drop-positions (start + 1) k n ∙ ap (λ s. positions s n) (one_more start k))

module _ (less : ℕ → ℕ → Bool) where
  abbrev range_offer : List ℕ → ℕ → List ℕ
  range_offer heap index =
      if less index (at heap 0)
      then qe_order_sift_down less (set heap 0 index) (length heap) 0
      else heap

  -- No row of the heap is later than `bound`.
  abbrev pub IsBelow : ℕ → List ℕ → Type 0
  IsBelow bound heap = (a : ℕ) → 0 < count a heap → a < bound

  -- A tie with an earlier root does not displace it.
  pub same_offer :
      (heap : List ℕ) (index : ℕ)
      → 0 < length heap
      → IsBelow index heap
      → range_offer heap index ≡ offer less heap index
  unfolding qe_order_before
  same_offer heap index filled below = ground (arith, below (at heap 0), count-at heap 0 filled)

  pub offer-IsBelow :
      (heap : List ℕ) (index : ℕ)
      → 0 < length heap
      → IsBelow index heap
      → IsBelow (index + 1) (offer less heap index)
  unfolding count
  offer-IsBelow heap index filled below a m = ground (
    arith,
    below a,
    sift_down-count less a (set heap 0 index) (length heap) 0,
    count-set a heap 0 index filled,
    length-set heap 0 index,
  )

  pub same_loop :
      (start n : ℕ) (heap : List ℕ)
      → 0 < length heap
      → IsBelow start heap
      → range_loop less heap (positions start n) ≡ select_loop less heap (positions start n)
  unfolding positions range_loop select_loop
  same_loop start zero heap filled below = refl
  same_loop start (suc n) heap filled below =
      ap (λ h. range_loop less h (positions (start + 1) n)) (same_offer heap start filled below)
      ∙ same_loop (start + 1) n (offer less heap start)
          (omega (arith, length-offer less heap start)) (offer-IsBelow heap start filled below)

  pub heap-IsBelow :
      (start kept : ℕ)
      → IsBelow (start + kept) (heapify_loop less (kept / 2) (positions start kept) kept)
  heap-IsBelow start kept a m = omega (
    arith,
    heapify-count less a (kept / 2) kept (positions start kept),
    length-positions start kept,
    count-positions a start kept,
  )

  range_front :
      (start kept rest : ℕ)
      → 0 < kept
      → range_loop less
          (heapify_loop less (kept / 2) (positions start kept) kept)
          (positions (start + kept) rest)
        ≡ select_loop less
            (heapify_loop less (kept / 2) (take kept (positions start (kept + rest))) kept)
            (drop kept (positions start (kept + rest)))
  range_front start kept rest some_row =
      rw (take-positions start kept (kept + rest) (omega arith), drop-positions start kept rest)
        (same_loop (start + kept) rest (heapify_loop less (kept / 2) (positions start kept) kept)
          (omega (
            arith,
            length-heapify less (kept / 2) kept (positions start kept),
            length-positions start kept,
          ))
          (heap-IsBelow start kept))

  -- Over the positions of a range the shortcut that asks `less` alone gives what qe_order_select_top
  -- gives, for a range that is not empty and a `keep` of at least 1.
  pub select_top_range-positions :
      (start end keep : ℕ)
      → start < end
      → 0 < keep
      → qe_order_select_top_range less start end keep
        ≡ qe_order_select_top less (positions start (end - start)) keep
  unfolding qe_order_select_top_range qe_order_select_top
  select_top_range-positions start end keep filled some_row =
      let kept : ℕ = min keep (end - start) in
      let rest : ℕ = end - (start + kept) in
      let whole : kept + rest ≡ end - start = omega arith in
      let size : length (positions start (end - start)) ≡ end - start =
        length-positions start (end - start) in
      rw size (
        subst
          (λ n.
            qe_order_merge_sort less (
              range_loop less (heapify_loop less (kept / 2) (positions start kept) kept)
                (positions (start + kept) rest))
            ≡ qe_order_merge_sort less (
                select_loop less (heapify_loop less (kept / 2) (take kept (positions start n)) kept)
                  (drop kept (positions start n))))
          whole (ap (qe_order_merge_sort less) (range_front start kept rest (omega arith))))
