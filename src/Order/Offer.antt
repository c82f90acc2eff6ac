-- ===== src/Order/Offer.antt =====
-- src/query_exec/query_exec.c: one row offered to the heap of the rows that are kept.
use mathlib.Core.List.{append-nil}
use compute_ql.Shared.{
  ℕ, zero, suc, ◌+◌, ◌<◌, ◌≡◌, refl, sym, ◌∙◌, subst, Bool, true, false, min, List, [], ◌∷◌, ◌++◌,
  arith, leb, ◌==◌, if◌then◌else◌, length, take, set, All, Bool-cases, inl, inr, length-set,
  take_all,
}
use compute_ql.Order.{
  qe_order_before, at, qe_order_sift_down, heapify_loop, select_loop, qe_order_select_top,
  qe_order_merge_sort,
}
use compute_ql.Order.Laws.{IsWeakOrder, count, count-set, ahead, ahead_total, ahead_trans}
use compute_ql.Order.Sift.{parent, IsHeapFrom, length-sift_down, sift_down-count, at-set}
use compute_ql.Order.Heap.{sift_down-IsHeapFrom, root_last}

pub count-at : (xs : List ℕ) (i : ℕ) → i < length xs → 0 < count (at xs i) xs
unfolding count
count-at [] i h = elim h [ ]
count-at (x ∷ xs) zero h = ground arith
count-at (x ∷ xs) (suc i) h = omega (arith, count-at xs i (omega arith))

-- Where a row of a list stands.
pub place : (a : ℕ) (xs : List ℕ) → 0 < count a xs → (i : ℕ) × (i < length xs) × (at xs i ≡ a)
unfolding count
place a [] h = absurd (omega arith)
place a (x ∷ xs) h = elim (Bool-cases (a == x)) [
  | inl e ↦ (0, omega arith, ground arith)
  | inr n ↦ let (i, below, e) = place a xs (ground arith) in (suc i, omega arith, e)
]

same_number : (x a : ℕ) → (a == x) ≡ true → x ≡ a
same_number x a h = ground arith

not_there : (a x : ℕ) → (a == x) ≡ false → count a (x ∷ []) ≡ 0
unfolding count
not_there a x h = ground arith

pub take-min {ℓ} :
    {A : Type ℓ} (n k : ℕ) (xs : List A) → length xs ≡ k → take (min n k) xs ≡ take n xs
take-min n k xs h = elim (Bool-cases (leb n k)) [
  | inl short ↦ let e : min n k ≡ n = ground arith in rw e refl
  | inr long ↦
      let e : min n k ≡ k = ground arith in
      rw e (take_all k xs (omega arith) ∙ sym (take_all n xs (ground arith)))
]

module _ (less : ℕ → ℕ → Bool) where
  -- One round of the loop over the rows behind the heap.
  abbrev pub offer : List ℕ → ℕ → List ℕ
  offer heap row =
      if qe_order_before less row (at heap 0)
      then qe_order_sift_down less (set heap 0 row) (length heap) 0
      else heap

  pub length-offer : (heap : List ℕ) (row : ℕ) → length (offer heap row) ≡ length heap
  length-offer heap row =
      ground (arith, length-sift_down less (set heap 0 row) (length heap) 0, length-set heap 0 row)

  -- The heap holds the first `size` of the rows that `sum` counts, the others are behind its root.
  pub record IsKept (size : ℕ) (sum : ℕ → ℕ) (heap : List ℕ) : Type 0 where
    pub dropped : List ℕ
    pub sized : length heap ≡ size
    pub ordered : IsHeapFrom less 0 size heap
    pub total : (a : ℕ) → count a heap + count a dropped ≡ sum a
    pub behind : All (λ d. ahead less (at heap 0) d ≡ true) dropped

  pub select_top_none :
      (keep : ℕ) → qe_order_select_top less [] keep ≡ qe_order_merge_sort less [] ++ []
  unfolding qe_order_select_top heapify_loop select_loop
  select_top_none keep =
      let none_kept : min keep 0 ≡ 0 = omega arith in
      rw none_kept (sym (append-nil (qe_order_merge_sort less [])))

  module _ (w : IsWeakOrder less) where
    pub heap_ahead :
        (heap : List ℕ)
        → IsHeapFrom less 0 (length heap) heap
        → (a : ℕ) → 0 < count a heap
        → ahead less a (at heap 0) ≡ true
    heap_ahead heap v a m =
        let (i, below, e) = place a heap m in
        subst (λ b. ahead less b (at heap 0) ≡ true) e
          (root_last less w (length heap) heap (suc i) i v (omega arith) below)

    All-behind :
        (a b : ℕ) (ds : List ℕ)
        → ahead less a b ≡ true
        → All (λ d. ahead less b d ≡ true) ds
        → All (λ d. ahead less a d ≡ true) ds
    All-behind a b [] h k = tt
    All-behind a b (d ∷ ds) h k = (ahead_trans less w a b d h k.0, All-behind a b ds h k.1)

    -- The heap with `row` in place of its root.
    replaced :
        (heap : List ℕ) (row : ℕ)
        → 0 < length heap
        → IsHeapFrom less 0 (length heap) heap
        → IsHeapFrom less 0 (length heap) (qe_order_sift_down less (set heap 0 row) (length heap) 0)
    replaced heap row some_row v =
        let spot : (k : ℕ) → at (set heap 0 row) k ≡ (if k == 0 then row else at heap k) =
          λ k. at-set heap 0 row k some_row in
        sift_down-IsHeapFrom less w 0 (length heap) 0 (set heap 0 row)
          (omega (arith, length-set heap 0 row))
          record {
            edges = λ c p q r t. ground (arith, spot c, spot (parent c), v.edges c);
            bridged = λ c p q r t u. absurd (omega arith);
          }

    -- What stands in the heap after that is the row or was there.
    replaced_counts :
        (heap : List ℕ) (row a : ℕ)
        → 0 < length heap
        → count a (qe_order_sift_down less (set heap 0 row) (length heap) 0)
            + count a (at heap 0 ∷ [])
          ≡ count a heap + count a (row ∷ [])
    unfolding count
    replaced_counts heap row a some_row = omega (
      arith,
      sift_down-count less a (set heap 0 row) (length heap) 0,
      count-set a heap 0 row some_row,
      length-set heap 0 row,
    )

    -- Where the row is in front of the root, the new root is too.
    replaced_root :
        (heap : List ℕ) (row : ℕ)
        → 0 < length heap
        → IsHeapFrom less 0 (length heap) heap
        → ahead less row (at heap 0) ≡ true
        → ahead less (at (qe_order_sift_down less (set heap 0 row) (length heap) 0) 0) (at heap 0)
          ≡ true
    replaced_root heap row some_row v first =
        let heap' : List ℕ = qe_order_sift_down less (set heap 0 row) (length heap) 0 in
        let root : ℕ = at heap' 0 in
        let there : 0 < count root heap' = count-at heap' 0 (
          omega (
            arith,
            length-sift_down less (set heap 0 row) (length heap) 0,
            length-set heap 0 row,
          )) in
        elim (Bool-cases (root == row)) [
          | inl e ↦ subst (λ b. ahead less b (at heap 0) ≡ true) (same_number row root e) first
          | inr n ↦
              heap_ahead heap v root
                (omega (arith, there, replaced_counts heap row root some_row, not_there root row n))
        ]

    offer-IsKept :
        (size : ℕ) (sum : ℕ → ℕ) (heap : List ℕ) (row : ℕ)
        → 0 < size
        → IsKept size sum heap
        → IsKept size (λ a. sum a + count a (row ∷ [])) (offer heap row)
    unfolding count
    offer-IsKept size sum heap row some_row k =
        let v : IsHeapFrom less 0 (length heap) heap =
          subst (λ n. IsHeapFrom less 0 n heap) (sym k.sized) k.ordered in
        let filled : 0 < length heap = omega (arith, k.sized) in
        elim (Bool-cases (qe_order_before less row (at heap 0))) [
          | inl before ↦
              let first : ahead less row (at heap 0) ≡ true =
                ahead_total less w (at heap 0) row (rw before refl) in
              let root = replaced_root heap row filled v first in
              rw before record {
                dropped = at heap 0 ∷ k.dropped;
                sized = omega (
                  arith,
                  k.sized,
                  length-sift_down less (set heap 0 row) (length heap) 0,
                  length-set heap 0 row,
                );
                ordered =
                    subst
                      (λ n.
                        IsHeapFrom less 0 n
                          (qe_order_sift_down less (set heap 0 row) (length heap) 0))
                      k.sized (replaced heap row filled v);
                total = λ a. omega (arith, k.total a, replaced_counts heap row a filled);
                behind = (
                  root,
                  All-behind (at (qe_order_sift_down less (set heap 0 row) (length heap) 0) 0)
                      (at heap 0) k.dropped root k.behind,
                );
              }
          | inr after ↦ rw after record {
            dropped = row ∷ k.dropped;
            sized = k.sized;
            ordered = k.ordered;
            total = λ a. omega (arith, k.total a);
            behind = (rw after refl, k.behind);
          }
        ]

    pub select_loop-IsKept :
        (size : ℕ) (sum : ℕ → ℕ) (heap rows : List ℕ)
        → 0 < size
        → IsKept size sum heap
        → IsKept size (λ a. sum a + count a rows) (select_loop less heap rows)
    unfolding select_loop count
    select_loop-IsKept size sum heap [] some_row k = record {
      dropped = k.dropped;
      sized = k.sized;
      ordered = k.ordered;
      total = λ a. omega (arith, k.total a);
      behind = k.behind;
    }
    select_loop-IsKept size sum heap (row ∷ rows) some_row k =
        let rest : IsKept size (λ a. sum a + count a (row ∷ []) + count a rows)
            (select_loop less (offer heap row) rows) =
          select_loop-IsKept size (λ a. sum a + count a (row ∷ [])) (offer heap row) rows some_row
            (offer-IsKept size sum heap row some_row k) in
        record {
          dropped = rest.dropped;
          sized = rest.sized;
          ordered = rest.ordered;
          total = λ a. omega (arith, rest.total a);
          behind = rest.behind;
        }
