-- ===== src/Order/Runs.antt =====
-- src/query_exec/query_exec.c, `qe_order_merge_sort`: the rows that its runs and passes hold.
use compute_ql.Shared.{
  ℕ, zero, suc, ◌+◌, ◌*◌, ◌≤◌, ◌≡◌, refl, ap, Bool, true, false, List, [], ◌∷◌, ◌++◌, arith, ltb,
  length, take, drop, length-append, length-take, length-drop, drop-drop,
}
use compute_ql.Order.{qe_order_before, merge_runs, merge_pass, merge_widths, qe_order_merge_sort}
use compute_ql.Order.Laws.{count, count-append, count-take, IsSorted}

two_of : (n : ℕ) → 2 * n ≡ n + n
two_of n = omega arith

pub twice : (n : ℕ) → 2 * n ≡ n * 2
twice n = omega arith

pub twice_drop {ℓ} : {A : Type ℓ} (n : ℕ) (xs : List A) → drop (2 * n) xs ≡ drop n (drop n xs)
twice_drop n xs = rw (two_of n) (drop-drop n n xs)

pub take_none : (less : ℕ → ℕ → Bool) (n : ℕ) → IsSorted less (take n [])
take_none less zero = tt
take_none less (suc n) = tt

module _ (less : ℕ → ℕ → Bool) where
  pub merge_runs-count :
      (a : ℕ) (xs ys : List ℕ) → count a (merge_runs less xs ys) ≡ count a xs + count a ys
  unfolding merge_runs count
  merge_runs-count a [] ys = omega arith
  merge_runs-count a (x ∷ xs) [] = omega arith
  merge_runs-count a (x ∷ xs) (y ∷ ys) =
      ground (arith, merge_runs-count a xs (y ∷ ys), merge_runs-count a (x ∷ xs) ys)

  length-merge_runs : (xs ys : List ℕ) → length (merge_runs less xs ys) ≡ length xs + length ys
  unfolding merge_runs
  length-merge_runs [] ys = omega arith
  length-merge_runs (x ∷ xs) [] = omega arith
  length-merge_runs (x ∷ xs) (y ∷ ys) =
      ground (arith, length-merge_runs xs (y ∷ ys), length-merge_runs (x ∷ xs) ys)

  pub right_first :
      (x y : ℕ) (xs ys : List ℕ)
      → qe_order_before less y x ≡ true
      → merge_runs less (x ∷ xs) (y ∷ ys) ≡ y ∷ merge_runs less (x ∷ xs) ys
  unfolding merge_runs
  right_first x y xs ys h = ground arith

  pub left_first :
      (x y : ℕ) (xs ys : List ℕ)
      → qe_order_before less y x ≡ false
      → merge_runs less (x ∷ xs) (y ∷ ys) ≡ x ∷ merge_runs less xs (y ∷ ys)
  unfolding merge_runs
  left_first x y xs ys h = ground arith

  pub pass_nil : (fuel width : ℕ) → merge_pass less fuel width [] ≡ []
  unfolding merge_pass
  pass_nil zero width = refl
  pass_nil (suc fuel) width = refl

  pub pass_step :
      (fuel width x : ℕ) (xs : List ℕ)
      → merge_pass less (suc fuel) width (x ∷ xs)
        ≡ merge_runs less (take width (x ∷ xs)) (take width (drop width (x ∷ xs)))
          ++ merge_pass less fuel width (drop (2 * width) (x ∷ xs))
  unfolding merge_pass
  pass_step fuel width x xs = refl

  pub merged_bound :
      (width : ℕ) (xs : List ℕ)
      → length (merge_runs less (take width xs) (take width (drop width xs))) ≤ 2 * width
  merged_bound width xs = omega (
    arith,
    length-merge_runs (take width xs) (take width (drop width xs)),
    length-take width xs,
    length-take width (drop width xs),
  )

  pub merged_size :
      (width : ℕ) (xs : List ℕ)
      → 2 * width ≤ length xs
      → length (merge_runs less (take width xs) (take width (drop width xs))) ≡ 2 * width
  merged_size width xs h = omega (
    arith,
    length-merge_runs (take width xs) (take width (drop width xs)),
    length-take width xs,
    length-take width (drop width xs),
    length-drop width xs,
  )

  merge_pass-count :
      (a fuel width : ℕ) (xs : List ℕ) → count a (merge_pass less fuel width xs) ≡ count a xs
  unfolding merge_pass
  merge_pass-count a zero width xs = refl
  merge_pass-count a (suc fuel) width [] = refl
  merge_pass-count a (suc fuel) width (x ∷ xs) = omega (
    arith,
    count-append a (merge_runs less (take width (x ∷ xs)) (take width (drop width (x ∷ xs))))
        (merge_pass less fuel width (drop (2 * width) (x ∷ xs))),
    merge_runs-count a (take width (x ∷ xs)) (take width (drop width (x ∷ xs))),
    merge_pass-count a fuel width (drop (2 * width) (x ∷ xs)),
    count-take a width (x ∷ xs),
    count-take a width (drop width (x ∷ xs)),
    ap (count a) (twice_drop width (x ∷ xs)),
  )

  pub length-merge_pass :
      (fuel width : ℕ) (xs : List ℕ) → length (merge_pass less fuel width xs) ≡ length xs
  unfolding merge_pass
  length-merge_pass zero width xs = refl
  length-merge_pass (suc fuel) width [] = refl
  length-merge_pass (suc fuel) width (x ∷ xs) = omega (
    arith,
    length-append (merge_runs less (take width (x ∷ xs)) (take width (drop width (x ∷ xs))))
        (merge_pass less fuel width (drop (2 * width) (x ∷ xs))),
    length-merge_runs (take width (x ∷ xs)) (take width (drop width (x ∷ xs))),
    length-merge_pass fuel width (drop (2 * width) (x ∷ xs)),
    length-take width (x ∷ xs),
    length-take width (drop width (x ∷ xs)),
    length-drop width (x ∷ xs),
    length-drop (2 * width) (x ∷ xs),
  )

  pub widths_on :
      (fuel width : ℕ) (xs : List ℕ)
      → ltb width (length xs) ≡ true
      → merge_widths less (suc fuel) width xs
        ≡ merge_widths less fuel (width * 2) (merge_pass less (length xs) width xs)
  unfolding merge_widths
  widths_on fuel width xs h = ground arith

  pub widths_end :
      (fuel width : ℕ) (xs : List ℕ)
      → ltb width (length xs) ≡ false
      → merge_widths less (suc fuel) width xs ≡ xs
  unfolding merge_widths
  widths_end fuel width xs h = ground arith

  widths-count :
      (a fuel width : ℕ) (xs : List ℕ) → count a (merge_widths less fuel width xs) ≡ count a xs
  unfolding merge_widths
  widths-count a zero width xs = refl
  widths-count a (suc fuel) width xs = ground (
    arith,
    widths-count a fuel (width * 2) (merge_pass less (length xs) width xs),
    merge_pass-count a (length xs) width xs,
  )

  widths-length :
      (fuel width : ℕ) (xs : List ℕ) → length (merge_widths less fuel width xs) ≡ length xs
  unfolding merge_widths
  widths-length zero width xs = refl
  widths-length (suc fuel) width xs = ground (
    arith,
    widths-length fuel (width * 2) (merge_pass less (length xs) width xs),
    length-merge_pass (length xs) width xs,
  )

  pub merge_sort-count : (a : ℕ) (xs : List ℕ) → count a (qe_order_merge_sort less xs) ≡ count a xs
  unfolding qe_order_merge_sort
  merge_sort-count a xs = widths-count a (length xs) 1 xs

  pub length-merge_sort : (xs : List ℕ) → length (qe_order_merge_sort less xs) ≡ length xs
  unfolding qe_order_merge_sort
  length-merge_sort xs = widths-length (length xs) 1 xs
