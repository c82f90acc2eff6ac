-- ===== src/Shared/Bits.antt =====
-- The bits of a native number: `bit_or` with one bit, as the masks of 32 and 64 bits use it.
-- No code of the repository is modelled here.
use Prim.Native.Nat.{
  ℕ, zero, suc, ◌+◌, ◌*◌, ◌/◌, ◌%◌, ◌^◌, ◌≤◌, ◌<◌, max, bit_or, digits, bit_or-bitwise,
}
use mathlib.Core.Path.{◌≡◌, refl, ap}
use mathlib.Core.Logic.{◌≢◌}
use native.Mathlib.Omega.{arith}
use native.Mathlib.Nat.{pow-suc, mul_assoc}

-- Bit `k` of `m`: `(m >> k) & 1`.
unfoldable pub bit_at : ℕ → ℕ → ℕ
bit_at zero m = m % 2
bit_at (suc k) m = bit_at k (m / 2)

-- The native `bit_or` counts down its first argument; any larger count gives the same digits.
abbrev or_count : ℕ → ℕ → ℕ → ℕ
or_count n a b = digits (λ y. y) max n a b

or_count_enough : (n m a b : ℕ) → a ≤ n → a ≤ m → or_count n a b ≡ or_count m a b
or_count_enough zero zero a b p q = refl
or_count_enough zero (suc m) zero b p q = refl
or_count_enough zero (suc m) (suc a) b p q = absurd (omega arith)
or_count_enough (suc n) zero zero b p q = refl
or_count_enough (suc n) zero (suc a) b p q = absurd (omega arith)
or_count_enough (suc n) (suc m) zero b p q = refl
or_count_enough (suc n) (suc m) (suc a) b p q =
    omega (arith, or_count_enough n m (suc a / 2) (b / 2) (omega arith) (omega arith))

zero-bit_or : (b : ℕ) → bit_or 0 b ≡ b
zero-bit_or b = bit_or-bitwise 0 b

bit_or_lowest : (a b : ℕ) → bit_or a b ≡ bit_or (a / 2) (b / 2) * 2 + max (a % 2) (b % 2)
bit_or_lowest zero b = omega (arith, zero-bit_or b, zero-bit_or (b / 2))
bit_or_lowest (suc a) b = omega (
  arith,
  bit_or-bitwise (suc a) b,
  bit_or-bitwise (suc a / 2) (b / 2),
  or_count_enough a (suc a / 2) (suc a / 2) (b / 2) (omega arith) (omega arith),
)

bit_or_half : (a b : ℕ) → bit_or a b / 2 ≡ bit_or (a / 2) (b / 2)
bit_or_half a b = omega (arith, bit_or_lowest a b)

bit_or_parity : (a b : ℕ) → bit_or a b % 2 ≡ max (a % 2) (b % 2)
bit_or_parity a b = omega (arith, bit_or_lowest a b)

-- The bits of a union are the larger of the two bits.
pub bit_at-bit_or : (k a b : ℕ) → bit_at k (bit_or a b) ≡ max (bit_at k a) (bit_at k b)
unfolding bit_at
bit_at-bit_or zero a b = bit_or_parity a b
bit_at-bit_or (suc k) a b = rw (bit_or_half a b) (bit_at-bit_or k (a / 2) (b / 2))

pow_half : (j : ℕ) → 2 ^ suc j / 2 ≡ 2 ^ j
pow_half j = omega (arith, pow-suc 2 j)

pow_even : (j : ℕ) → 2 ^ suc j % 2 ≡ 0
pow_even j = omega (arith, pow-suc 2 j)

pub bit_at-none : (k : ℕ) → bit_at k 0 ≡ 0
unfolding bit_at
bit_at-none zero = refl
bit_at-none (suc k) = bit_at-none k

pub bit_at-le : (k m : ℕ) → bit_at k m ≤ 1
unfolding bit_at
bit_at-le zero m = omega arith
bit_at-le (suc k) m = bit_at-le k (m / 2)

pub bit_at-pow_self : (k : ℕ) → bit_at k (2 ^ k) ≡ 1
unfolding bit_at
bit_at-pow_self zero = refl
bit_at-pow_self (suc k) = rw (pow_half k) (bit_at-pow_self k)

pub bit_at-pow_ne : (k j : ℕ) → k ≢ j → bit_at k (2 ^ j) ≡ 0
unfolding bit_at
bit_at-pow_ne zero zero h = absurd (h refl)
bit_at-pow_ne zero (suc j) h = pow_even j
bit_at-pow_ne (suc k) zero h = bit_at-none k
bit_at-pow_ne (suc k) (suc j) h = rw (pow_half j) (bit_at-pow_ne k j (λ e. h (ap suc e)))

-- No bit stands at or above the width of the number.
pub bit_at-above : (k w m : ℕ) → m < 2 ^ w → w ≤ k → bit_at k m ≡ 0
unfolding bit_at
bit_at-above zero zero m h p = omega arith
bit_at-above zero (suc w) m h p = absurd (omega arith)
bit_at-above (suc k) zero m h p = rw (sym_zero m h) (bit_at-none k)
  where
    sym_zero : (m : ℕ) → m < 2 ^ 0 → m / 2 ≡ 0
    sym_zero m h = omega arith
bit_at-above (suc k) (suc w) m h p =
    bit_at-above k w (m / 2) (omega (arith, pow-suc 2 w)) (omega arith)

-- A union of numbers of one width has that width.
pub bit_or-lt : (w a b : ℕ) → a < 2 ^ w → b < 2 ^ w → bit_or a b < 2 ^ w
bit_or-lt zero a b p q = bit_or-lt_zero a b (omega arith) (omega arith)
  where
    bit_or-lt_zero : (a b : ℕ) → a ≡ 0 → b ≡ 0 → bit_or a b < 2 ^ 0
    bit_or-lt_zero a b e f = rw (e, f) (omega arith)
bit_or-lt (suc w) a b p q = omega (
  arith,
  bit_or_lowest a b,
  pow-suc 2 w,
  bit_or-lt w (a / 2) (b / 2) (omega (arith, pow-suc 2 w)) (omega (arith, pow-suc 2 w)),
)

pub pow-lt : (j w : ℕ) → j < w → 2 ^ j < 2 ^ w
pow-lt zero zero h = absurd (omega arith)
pow-lt zero (suc w) h = omega (arith, pow-suc 2 w, pow_positive w)
  where
    pow_positive : (w : ℕ) → 0 < 2 ^ w
    pow_positive zero = omega arith
    pow_positive (suc w) = omega (arith, pow-suc 2 w, pow_positive w)
pow-lt (suc j) zero h = absurd (omega arith)
pow-lt (suc j) (suc w) h = omega (arith, pow-suc 2 w, pow-suc 2 j, pow-lt j w (omega arith))

bit_or-none_upto : (n a : ℕ) → a ≤ n → bit_or a 0 ≡ a
bit_or-none_upto zero zero h = zero-bit_or 0
bit_or-none_upto zero (suc a) h = absurd (omega arith)
bit_or-none_upto (suc n) zero h = zero-bit_or 0
bit_or-none_upto (suc n) (suc a) h =
    omega (arith, bit_or_lowest (suc a) 0, bit_or-none_upto n (suc a / 2) (omega arith))

twice_up : (k a : ℕ) → a * 2 ^ suc k ≡ 2 * (a * 2 ^ k)
twice_up k a = rw (pow-suc 2 k, ← mul_assoc a (2 ^ k) 2) (omega arith)

bit_or_twice : (m x b : ℕ) → m ≡ 2 * x → bit_or x (b / 2) ≡ x + b / 2 → bit_or m b ≡ m + b
bit_or_twice m x b e h =
    let half : m / 2 ≡ x = omega (arith, e) in
    let halves : bit_or (m / 2) (b / 2) ≡ x + b / 2 = rw half h in
    omega (arith, bit_or_lowest m b, e, halves)

bit_or_zero : (a b : ℕ) → b ≡ 0 → bit_or a b ≡ a + b
bit_or_zero a b e = rw e (omega (arith, bit_or-none_upto a a (omega arith)))

-- Numbers whose bits lie apart are united by adding them.
pub bit_or-apart : (k a b : ℕ) → b < 2 ^ k → bit_or (a * 2 ^ k) b ≡ a * 2 ^ k + b
bit_or-apart zero a b h = bit_or_zero (a * 2 ^ 0) b (omega arith)
bit_or-apart (suc k) a b h =
    bit_or_twice (a * 2 ^ suc k) (a * 2 ^ k) b (twice_up k a)
      (bit_or-apart k a (b / 2) (omega (arith, pow-suc 2 k)))
