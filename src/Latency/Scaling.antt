-- ===== src/Latency/Scaling.antt =====
-- Integer facts behind the waves of src/latency.rs: `x * a / n`, a part `x` of `n` scaled to `a`.
use native.Mathlib.Nat.{le-div_iff_mul-le, div-le_of_le-mul, div-lt_iff_lt-mul, mul-div-le}
use subgraph_mock.Base.{ℕ, ◌+◌, ◌*◌, ◌/◌, ◌≤◌, ◌<◌, ◌≢◌, arith}

pub mul-le-mul : (x y a : ℕ) → x ≤ y → x * a ≤ y * a
mul-le-mul x y a h = grind arith

pub mul-lt-mul : (x y a : ℕ) → x < y → 0 < a → x * a < y * a
mul-lt-mul x y a h pos = grind arith

pub scaled-le : (x a n : ℕ) → x ≤ n → x * a / n ≤ a
scaled-le x a n h = div-le_of_le-mul n (mul-le-mul x n a h)

pub scaled-lt : (x a n : ℕ) → x < n → 0 < a → x * a / n < a
scaled-lt x a n h pos = (div-lt_iff_lt-mul (omega arith)).1 (omega (arith, mul-lt-mul x n a h pos))

pub scaled_mono : (x y a n : ℕ) → n ≢ 0 → x ≤ y → x * a / n ≤ y * a / n
scaled_mono x y a n pos h =
    (le-div_iff_mul-le (omega arith)).1 (omega (arith, mul-le-mul x y a h, mul-div-le (x * a) n))

pub scaled-le_double : (x a n : ℕ) → x ≤ 2 * n → x * a / n ≤ 2 * a
scaled-le_double x a n h = div-le_of_le-mul n (omega (arith, mul-le-mul x (2 * n) a h))

-- The quotient is the greatest number whose product is not above the dividend.
pub scaled-mul_le : (x n : ℕ) → x / n * n ≤ x
scaled-mul_le x n = omega (arith, mul-div-le x n)

pub lt-scaled_mul : (x n : ℕ) → n ≢ 0 → x < (x / n + 1) * n
lt-scaled_mul x n pos = (div-lt_iff_lt-mul (omega arith)).0 (omega arith)

-- More than all of `n`, scaled to at least `n`, is above the scale.
pub scaled-lt_above : (x a n : ℕ) → n ≢ 0 → n < x → n ≤ a → a < x * a / n
scaled-lt_above x a n pos h large =
    (le-div_iff_mul-le (omega arith)).1 (omega (arith, mul-le-mul (n + 1) x a (omega arith)))
