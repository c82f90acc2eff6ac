-- ===== src/Order/TopK/Ranges.antt =====
-- src/query_exec/query_exec.c: the ranges of the tasks and the rows they hold.
use compute_ql.Shared.{
  ℕ, zero, suc, ◌+◌, ◌-◌, ◌^◌, ◌≤◌, ◌<◌, ◌≡◌, refl, sym, ◌∙◌, ap, subst, List, [], ◌∷◌, ◌++◌,
  length, take, All, arith, take_whole,
}
use compute_ql.ThreadPool.{
  Range, tp_divide_work, ranges_from, ceil_integer_div, Chained, divide_work-Chained,
}
use compute_ql.Order.{positions}

pub All-take {ℓ κ} :
    {A : Type ℓ} (P : A → Type κ) (k : ℕ) (xs : List A) → All P xs → All P (take k xs)
All-take P zero xs h = tt
All-take P (suc k) [] h = tt
All-take P (suc k) (x ∷ xs) h = (h.0, All-take P k xs h.1)

-- The rows of the ranges, one behind the other.
unfoldable pub range_rows : List Range → List ℕ
range_rows [] = []
range_rows (r ∷ rs) = positions r.min_value (r.max_value - r.min_value) ++ range_rows rs

no_positions : (start : ℕ) → [] ≡ positions start 0
unfolding positions
no_positions start = refl

positions-append :
    (start m n : ℕ) → positions start m ++ positions (start + m) n ≡ positions start (m + n)
unfolding positions
positions-append start zero n =
    let e : 0 + n ≡ n = omega arith in
    let same : start + 0 ≡ start = omega arith in rw (e, same) refl
positions-append start (suc m) n =
    let e : suc m + n ≡ suc (m + n) = omega arith in
    let same : start + suc m ≡ start + 1 + m = omega arith in
    rw (e, same) (ap (◌∷◌ start) (positions-append (start + 1) m n))

Chained-up : (low high : ℕ) (rs : List Range) → Chained low high rs → low ≤ high
Chained-up low high [] c = omega arith
Chained-up low high (r ∷ rs) c = omega (arith, Chained-up r.max_value high rs c.2)

Chained-rows :
    (low high : ℕ) (rs : List Range)
    → Chained low high (rs ++ record { min_value = high; max_value = high } ∷ [])
    → range_rows rs ≡ positions low (high - low)
unfolding range_rows
Chained-rows low high [] c = let e : high - low ≡ 0 = omega (arith, c.0) in rw e (no_positions low)
Chained-rows low high (r ∷ rs) c =
    let upper : r.max_value ≤ high =
      Chained-up r.max_value high (rs ++ record { min_value = high; max_value = high } ∷ []) c.2 in
    let rest : range_rows rs ≡ positions r.max_value (high - r.max_value) =
      Chained-rows r.max_value high rs c.2 in
    let size : ℕ = r.max_value - r.min_value in
    let behind : r.min_value + size ≡ r.max_value = omega (arith, c.1) in
    let total : size + (high - r.max_value) ≡ high - r.min_value = omega (arith, c.1, upper) in
    subst (λ l. range_rows (r ∷ rs) ≡ positions l (high - l)) c.0
      (ap (λ ps. positions r.min_value size ++ ps)
          (rest ∙ ap (λ l. positions l (high - r.max_value)) (sym behind))
        ∙ positions-append r.min_value size (high - r.max_value)
        ∙ ap (positions r.min_value) total)

length-ranges : (row_count per left i : ℕ) → length (ranges_from row_count per left i) ≡ left
unfolding ranges_from
length-ranges row_count per zero i = refl
length-ranges row_count per (suc left) i = ap suc (length-ranges row_count per left (i + 1))

-- The entry behind those of the workers is left out.
pub first_ranges :
    (row_count tasks : ℕ)
    → take tasks (tp_divide_work row_count tasks)
      ≡ ranges_from row_count (ceil_integer_div row_count tasks) tasks 0
unfolding tp_divide_work
first_ranges row_count tasks =
    take_whole tasks (ranges_from row_count (ceil_integer_div row_count tasks) tasks 0)
      (record { min_value = row_count; max_value = row_count } ∷ [])
      (length-ranges row_count (ceil_integer_div row_count tasks) tasks 0)

pub ranges-rows :
    (row_count tasks : ℕ)
    → 0 < tasks
    → row_count + tasks ≤ 2 ^ 64
    → range_rows (ranges_from row_count (ceil_integer_div row_count tasks) tasks 0)
      ≡ positions 0 row_count
unfolding tp_divide_work
ranges-rows row_count tasks some_task fits =
    Chained-rows 0 row_count (ranges_from row_count (ceil_integer_div row_count tasks) tasks 0)
      (divide_work-Chained row_count tasks some_task fits)
    ∙ ap (positions 0) (omega arith)
