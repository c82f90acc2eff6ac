-- ===== src/ThreadPool.antt =====
-- src/thread_pool/thread_pool.c, `tp_divide_work`: the ranges that the workers take.
pub mod Run
use native.Mathlib.Nat.{mul_comm, lt-div-mul-add, div-mul-le_self}
use compute_ql.Shared.{
  ℕ, zero, suc, ◌+◌, ◌-◌, ◌*◌, ◌/◌, ◌%◌, ◌^◌, ◌≤◌, ◌<◌, ◌≡◌, refl, subst, min, List, [], ◌∷◌, ◌++◌,
  arith,
}

-- Rng1U64.
pub record Range : Type 0 where
  pub min_value : ℕ
  pub max_value : ℕ

-- `CeilIntegerDiv` on U64.
unfoldable pub ceil_integer_div : ℕ → ℕ → ℕ
ceil_integer_div a b = (a + b + (2 ^ 64 - 1)) % 2 ^ 64 / b

-- Entry `i`, with the wrap-around of a U64.
unfoldable pub work_range : ℕ → ℕ → ℕ → Range
work_range item_count per_count i = record {
  min_value = min item_count (i * per_count % 2 ^ 64);
  max_value = min item_count ((i * per_count % 2 ^ 64 + per_count) % 2 ^ 64);
}

-- The loop, with `left` entries from entry `i` on.
unfoldable pub ranges_from : ℕ → ℕ → ℕ → ℕ → List Range
ranges_from item_count per_count zero i = []
ranges_from item_count per_count (suc left) i =
    work_range item_count per_count i ∷ ranges_from item_count per_count left (i + 1)

unfoldable pub tp_divide_work : ℕ → ℕ → List Range
tp_divide_work item_count worker_count =
    ranges_from item_count (ceil_integer_div item_count worker_count) worker_count 0
    ++ record { min_value = item_count; max_value = item_count } ∷ []

-- The ranges follow one another from `low` to `high`, none of them backwards.
abbrev pub Chained : ℕ → ℕ → List Range → Type 0
Chained low high [] = low ≡ high
Chained low high (r ∷ rs) =
    (r.min_value ≡ low) × (r.min_value ≤ r.max_value) × Chained r.max_value high rs

next_start : (i per : ℕ) → (i + 1) * per ≡ i * per + per
next_start i per = omega arith

no_wrap : (n : ℕ) → n < 2 ^ 64 → n % 2 ^ 64 ≡ n
no_wrap n h = omega arith

Chained-from :
    (item per left i start total : ℕ)
    → i * per ≡ start
    → start + left * per ≡ total
    → total < 2 ^ 64
    → item ≤ total
    → Chained
        (min item start)
        item
        (ranges_from item per left i ++ record { min_value = item; max_value = item } ∷ [])
unfolding ranges_from work_range
Chained-from item per zero i start total e f w c = (omega arith, omega arith, refl)
Chained-from item per (suc left) i start total e f w c =
    let more : start + per + left * per ≡ total = omega arith in
    let small : start % 2 ^ 64 ≡ start = omega arith in
    rw (e, small, no_wrap (start + per) (omega arith))
      (
        refl,
        omega arith,
        Chained-from item per left (i + 1) (start + per) total (omega arith) more w c,
      )

-- The ranges of the workers follow one another from 0 to the number of items, so that every item is
-- in one of them, for a worker at least and no more items and workers than a U64 counts.
pub divide_work-Chained :
    (item_count worker_count : ℕ)
    → 0 < worker_count
    → item_count + worker_count ≤ 2 ^ 64
    → Chained 0 item_count (tp_divide_work item_count worker_count)
unfolding tp_divide_work ceil_integer_div
divide_work-Chained item_count worker_count h w =
    let x = item_count + worker_count - 1 in
    let same : (item_count + worker_count + (2 ^ 64 - 1)) % 2 ^ 64 ≡ x = omega arith in
    let per = x / worker_count in
    let swap = mul_comm per worker_count in
    let total = worker_count * per in
    let least : min item_count 0 ≡ 0 = omega arith in
    rw same (
      subst
        (λ low. Chained low item_count (
          ranges_from item_count per worker_count 0
          ++ record { min_value = item_count; max_value = item_count } ∷ []))
        least
        (Chained-from item_count per worker_count 0 0 total (omega arith) (omega arith)
          (omega (arith, div-mul-le_self x worker_count, swap))
          (omega (arith, lt-div-mul-add {a = x} h, swap))))
