-- ===== src/Order/Merge.antt =====
-- src/query_exec/query_exec.c, `qe_order_merge_sort`: its result against the order of the rows.
use mathlib.Core.List.{append-nil}
use compute_ql.Shared.{
  ℕ, zero, suc, ◌+◌, ◌*◌, ◌≤◌, ◌<◌, ◌≡◌, refl, sym, subst, Bool, true, List, [], ◌∷◌, arith, ltb,
  leb, length, take, drop, All, Bool-cases, inl, inr, length-drop, take_whole, drop_whole, take_all,
  drop_all,
}
use compute_ql.Order.{qe_order_before, merge_runs, merge_pass, merge_widths, qe_order_merge_sort}
use compute_ql.Order.Laws.{
  IsWeakOrder, count, All-count, count-All, ahead, IsSorted, ahead_total, ahead_trans,
}
use compute_ql.Order.Runs.{
  twice, twice_drop, take_none, merge_runs-count, right_first, left_first, pass_nil, pass_step,
  merged_bound, merged_size, length-merge_pass, widths_on, widths_end, merge_sort-count,
}

module _ (less : ℕ → ℕ → Bool) where
  -- A list whose pieces of `width` rows are sorted; the number bounds the pieces.
  unfoldable HasRuns : ℕ → ℕ → List ℕ → Type 0
  HasRuns zero width xs = xs ≡ []
  HasRuns (suc n) width xs = IsSorted less (take width xs) × HasRuns n width (drop width xs)

  module _ (w : IsWeakOrder less) where
    All-merge :
        (z : ℕ) (xs ys : List ℕ)
        → All (λ y. ahead less z y ≡ true) xs
        → All (λ y. ahead less z y ≡ true) ys
        → All (λ y. ahead less z y ≡ true) (merge_runs less xs ys)
    All-merge z xs ys h k = All-count (ahead less z) (merge_runs less xs ys) (λ a m.
        elim (Bool-cases (ltb 0 (count a xs))) [
          | inl here ↦ count-All (ahead less z) xs h a (ground arith)
          | inr none_here ↦
              count-All (ahead less z) ys k a (ground (arith, merge_runs-count less a xs ys))
        ])

    All-weaken :
        (x y : ℕ) (ys : List ℕ)
        → ahead less x y ≡ true
        → All (λ z. ahead less y z ≡ true) ys
        → All (λ z. ahead less x z ≡ true) ys
    All-weaken x y [] h k = tt
    All-weaken x y (z ∷ ys) h k = (ahead_trans less w x y z h k.0, All-weaken x y ys h k.1)

    pub merge_runs-IsSorted :
        (xs ys : List ℕ)
        → IsSorted less xs
        → IsSorted less ys
        → IsSorted less (merge_runs less xs ys)
    unfolding merge_runs
    merge_runs-IsSorted [] ys h k = k
    merge_runs-IsSorted (x ∷ xs) [] h k = h
    merge_runs-IsSorted (x ∷ xs) (y ∷ ys) h k = elim (Bool-cases (qe_order_before less y x)) [
      | inl before ↦
          let first : ahead less y x ≡ true = ahead_total less w x y (rw before refl) in
          rw (right_first less x y xs ys before) (
            All-merge y (x ∷ xs) ys (first, All-weaken y x xs first h.0) k.0,
            merge_runs-IsSorted (x ∷ xs) ys h k.1,
          )
      | inr behind ↦
          let first : ahead less x y ≡ true = rw behind refl in
          rw (left_first less x y xs ys behind) (
            All-merge x xs (y ∷ ys) h.0 (first, All-weaken x y ys first k.0),
            merge_runs-IsSorted xs (y ∷ ys) h.1 k,
          )
    ]

    HasRuns-nil : (n width : ℕ) → HasRuns n width []
    unfolding HasRuns
    HasRuns-nil zero width = refl
    HasRuns-nil (suc n) zero = (tt, HasRuns-nil n zero)
    HasRuns-nil (suc n) (suc width) = (tt, HasRuns-nil n (suc width))

    HasRuns-more : (n width : ℕ) (xs : List ℕ) → HasRuns n width xs → HasRuns (suc n) width xs
    unfolding HasRuns
    HasRuns-more zero width xs h = rw h (HasRuns-nil 1 width)
    HasRuns-more (suc n) width xs h = (h.0, HasRuns-more n width (drop width xs) h.1)

    HasRuns-one : (xs : List ℕ) → HasRuns (length xs) 1 xs
    unfolding HasRuns
    HasRuns-one [] = refl
    HasRuns-one (x ∷ xs) = ((tt, tt), HasRuns-one xs)

    HasRuns-whole :
        (n width : ℕ) (xs : List ℕ) → length xs ≤ width → HasRuns n width xs → IsSorted less xs
    unfolding HasRuns
    HasRuns-whole zero width xs short h = rw h tt
    HasRuns-whole (suc n) width xs short h = subst (IsSorted less) (take_all width xs short) h.0

    second_run :
        (n width : ℕ) (xs : List ℕ)
        → HasRuns n width (drop width xs)
        → IsSorted less (take width (drop width xs)) × HasRuns n width (drop (2 * width) xs)
    unfolding HasRuns
    second_run zero width xs h =
        let all_out : drop (2 * width) xs ≡ [] =
          rw (twice_drop width xs, h) (drop_all {A = ℕ} width [] (omega arith)) in
        (rw h (take_none less width), all_out)
    second_run (suc n) width xs h =
        (h.0, rw (twice_drop width xs) (HasRuns-more n width (drop width (drop width xs)) h.1))

    merge_pass-HasRuns :
        (fuel width n : ℕ) (xs : List ℕ)
        → 0 < width
        → length xs ≤ fuel
        → HasRuns n width xs
        → HasRuns n (2 * width) (merge_pass less fuel width xs)
    unfolding HasRuns
    merge_pass-HasRuns fuel width zero xs p short h = rw (h, pass_nil less) refl
    merge_pass-HasRuns fuel width (suc n) [] p short h =
        rw (pass_nil less) (HasRuns-nil (suc n) (2 * width))
    merge_pass-HasRuns zero width (suc n) (x ∷ xs) p short h = absurd (omega arith)
    merge_pass-HasRuns (suc fuel) width (suc n) (x ∷ xs) p short h =
        let source : List ℕ = x ∷ xs in
        let second = second_run n width source h.1 in
        let merged : List ℕ =
          merge_runs less (take width source) (take width (drop width source)) in
        let rest : List ℕ = merge_pass less fuel width (drop (2 * width) source) in
        let sorted : IsSorted less merged =
          merge_runs-IsSorted (take width source) (take width (drop width source)) h.0 second.0 in
        let later : HasRuns n (2 * width) rest =
          merge_pass-HasRuns fuel width n (drop (2 * width) source) p
            (omega (arith, length-drop {A = ℕ} (2 * width) source)) second.1 in
        rw (pass_step less) (elim (Bool-cases (leb (2 * width) (length source))) [
          | inl long ↦
              let size : length merged ≡ 2 * width = merged_size less width source (ground arith) in
              (
                subst (IsSorted less) (sym (take_whole (2 * width) merged rest size)) sorted,
                subst (HasRuns n (2 * width)) (sym (drop_whole (2 * width) merged rest size)) later,
              )
          | inr last ↦
              let empty : rest ≡ [] =
                rw (drop_all (2 * width) source (ground arith)) (pass_nil less fuel width) in
              let size : length merged ≤ 2 * width = merged_bound less width source in
              rw (empty, append-nil)
                (
                  subst (IsSorted less) (sym (take_all (2 * width) merged size)) sorted,
                  subst (HasRuns n (2 * width)) (sym (drop_all (2 * width) merged size))
                      (HasRuns-nil n (2 * width)),
                )
        ])

    widths-IsSorted :
        (fuel width n : ℕ) (xs : List ℕ)
        → 0 < width
        → length xs ≤ fuel + width
        → HasRuns n width xs
        → IsSorted less (merge_widths less fuel width xs)
    unfolding merge_widths
    widths-IsSorted zero width n xs p enough h = HasRuns-whole n width xs (omega arith) h
    widths-IsSorted (suc fuel) width n xs p enough h = elim (Bool-cases (ltb width (length xs))) [
      | inl more ↦ rw (widths_on less fuel width xs more) (
          widths-IsSorted fuel (width * 2) n (merge_pass less (length xs) width xs) (omega arith)
            (omega (arith, length-merge_pass less (length xs) width xs))
            (subst (λ k. HasRuns n k (merge_pass less (length xs) width xs)) (twice width)
              (merge_pass-HasRuns (length xs) width n xs p (omega arith) h)))
      | inr done ↦
          rw (widths_end less fuel width xs done) (HasRuns-whole n width xs (ground arith) h)
    ]

    pub merge_sort-IsSorted : (xs : List ℕ) → IsSorted less (qe_order_merge_sort less xs)
    unfolding qe_order_merge_sort
    merge_sort-IsSorted xs =
        widths-IsSorted (length xs) 1 (length xs) xs (omega arith) (omega arith) (HasRuns-one xs)

    -- The merge sort puts the rows in order and keeps each as often as it was there, for a comparison
    -- that orders the rows.
    pub merge_sort_lem :
        (xs : List ℕ)
        → IsSorted less (qe_order_merge_sort less xs)
          × ((a : ℕ) → count a (qe_order_merge_sort less xs) ≡ count a xs)
    merge_sort_lem xs = (merge_sort-IsSorted xs, λ a. merge_sort-count less a xs)
