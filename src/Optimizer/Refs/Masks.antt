-- ===== src/Optimizer/Refs/Masks.antt =====
-- src/optimizer/optimizer.c: what the two loops over a mask compute.
use compute_ql.Shared.{
  sym, subst, ◌∙◌, Bool-cases, ℕ, zero, suc, ◌+◌, ◌/◌, ◌%◌, ◌^◌, ◌≤◌, ◌<◌, ◌≡◌, refl, ◌≢◌, ap,
  arith, ◌==◌, if◌then◌else◌, inl, inr,
}
use compute_ql.Shared.Bits.{bit_at, bit_at-above}
use compute_ql.Optimizer.Refs.{
  popcount_loop, optimizer_mask_popcount, highest_loop, optimizer_mask_highest,
}
use native.Mathlib.Nat.{pow-suc}
use native.Mathlib.Decide.{dec_lt}

-- The number of bits of `mask` below `width`.
unfoldable pub bit_total : ℕ → ℕ → ℕ
bit_total zero mask = 0
bit_total (suc width) mask = mask % 2 + bit_total width (mask / 2)

bit_total-zero : (width : ℕ) → bit_total width 0 ≡ 0
unfolding bit_total
bit_total-zero zero = refl
bit_total-zero (suc width) = omega (arith, bit_total-zero width)

popcount_total : (fuel mask count : ℕ) → popcount_loop fuel mask count ≡ count + bit_total fuel mask
unfolding popcount_loop bit_total
popcount_total zero mask count = omega arith
popcount_total (suc fuel) mask count =
    ground (arith, popcount_total fuel (mask / 2) (count + mask % 2), bit_total-zero fuel)

bit-le-total : (width k mask : ℕ) → k < width → bit_at k mask ≤ bit_total width mask
unfolding bit_total bit_at
bit-le-total zero k mask h = absurd (omega arith)
bit-le-total (suc width) zero mask h = omega arith
bit-le-total (suc width) (suc k) mask h = omega (arith, bit-le-total width k (mask / 2))

-- Two different bits make a total of two at least.
bits-le-total :
    (width j k mask : ℕ) → j < k → k < width → bit_at j mask + bit_at k mask ≤ bit_total width mask
unfolding bit_total bit_at
bits-le-total zero j k mask h l = absurd (omega arith)
bits-le-total (suc width) j zero mask h l = absurd (omega arith)
bits-le-total (suc width) zero (suc k) mask h l = omega (arith, bit-le-total width k (mask / 2))
bits-le-total (suc width) (suc j) (suc k) mask h l =
    omega (arith, bits-le-total width j k (mask / 2))

highest_loop-zero : (fuel bit highest : ℕ) → highest_loop fuel 0 bit highest ≡ highest
unfolding highest_loop
highest_loop-zero zero bit highest = refl
highest_loop-zero (suc fuel) bit highest = refl

-- `r` is the highest bit of `mask`.
pub record IsHighest (mask r : ℕ) : Type 0 where
  pub stands : bit_at r mask ≡ 1
  pub above : (k : ℕ) → bit_at k mask ≡ 1 → k ≤ r

IsHighest-one : IsHighest 1 0
IsHighest-one = record { stands = unfold bit_at in refl; above = only_zero }
  where
    only_zero : (k : ℕ) → bit_at k 1 ≡ 1 → k ≤ 0
    only_zero zero e = omega arith
    only_zero (suc k) e = absurd (omega (arith, bit_at-above (suc k) 1 1 (omega arith)))

IsHighest-half : (mask r : ℕ) → IsHighest (mask / 2) r → IsHighest mask (suc r)
unfolding bit_at
IsHighest-half mask r h = record { stands = h.stands; above = from_half }
  where
    from_half : (k : ℕ) → bit_at k mask ≡ 1 → k ≤ suc r
    from_half zero e = omega arith
    from_half (suc k) e = omega (arith, h.above k e)

-- The search from `bit` on finds the highest bit.
IsHighest-found :
    (fuel mask bit highest : ℕ)
    → mask < 2 ^ fuel
    → mask ≢ 0
    → (r : ℕ) × (highest_loop fuel mask bit highest ≡ bit + r) × IsHighest mask r
unfolding highest_loop
IsHighest-found zero mask bit highest h n = absurd (n (omega arith))
IsHighest-found (suc fuel) mask bit highest h n = elim (Bool-cases (mask / 2 == 0)) [
  | inl e ↦
      let one : mask ≡ 1 = ground arith in
      (0, ground (arith, one, highest_loop-zero fuel (bit + 1) bit), rw one IsHighest-one)
  | inr e ↦
      let (r, q, t) =
        IsHighest-found fuel (mask / 2) (bit + 1) (if mask % 2 == 1 then bit else highest)
          (omega (arith, pow-suc 2 fuel)) (ground arith) in
      (suc r, ground (arith, q), IsHighest-half mask r t)
]

-- On a mask of 64 bits that is not 0, the search gives the highest bit that is set.
pub mask_highest_lem :
    (mask : ℕ) → mask < 2 ^ 64 → mask ≢ 0 → IsHighest mask (optimizer_mask_highest mask)
unfolding optimizer_mask_highest
mask_highest_lem mask h n =
    let (r, q, t) = IsHighest-found 64 mask 0 0 h n in subst (IsHighest mask) (omega (arith, q)) t

-- The count is the number of the lowest 64 bits that are set.
pub mask_popcount_lem : (mask : ℕ) → optimizer_mask_popcount mask ≡ bit_total 64 mask
unfolding optimizer_mask_popcount
mask_popcount_lem mask = omega (arith, popcount_total 64 mask 0)

bit_total_empty : (width mask : ℕ) → mask < 2 ^ width → bit_total width mask ≡ 0 → mask ≡ 0
unfolding bit_total
bit_total_empty zero mask h e = omega arith
bit_total_empty (suc width) mask h e =
    omega (arith, bit_total_empty width (mask / 2) (omega (arith, pow-suc 2 width)) (omega arith))

-- A mask of one bit has no bit beside its highest.
pub popcount_one :
    (mask k : ℕ)
    → mask < 2 ^ 64
    → optimizer_mask_popcount mask ≡ 1
    → bit_at k mask ≡ 1
    → k ≡ optimizer_mask_highest mask
popcount_one mask k h e b = elim (dec_lt k (optimizer_mask_highest mask)) [
  | yes p ↦ absurd (
      omega (
        arith,
        bits-le-total 64 k (optimizer_mask_highest mask) mask p below,
        mask_popcount_lem mask,
        highest.stands,
      ))
  | no p ↦ omega (arith, highest.above k b)
]
  where
    some_bit : mask ≢ 0
    some_bit z =
        absurd (omega (arith, mask_popcount_lem mask, bit_total-zero 64, ap (bit_total 64) z))

    highest : IsHighest mask (optimizer_mask_highest mask)
    highest = mask_highest_lem mask h some_bit

    below : optimizer_mask_highest mask < 64
    below = elim (dec_lt (optimizer_mask_highest mask) 64) [
      | yes q ↦ q
      | no q ↦ absurd (
          omega (
            arith,
            bit_at-above (optimizer_mask_highest mask) 64 mask h (omega arith),
            highest.stands,
          ))
    ]

pub popcount_zero : (mask : ℕ) → mask < 2 ^ 64 → optimizer_mask_popcount mask ≡ 0 → mask ≡ 0
popcount_zero mask h e = bit_total_empty 64 mask h (sym (mask_popcount_lem mask) ∙ e)
