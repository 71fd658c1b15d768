-- ===== src/Base/Words.antt =====
-- The order of `f64`, and `u64` arithmetic. The debug profile checks overflow and panics, the release profile wraps around.
-- A remainder or a quotient by zero panics in both.
use Prim.Native.Nat.{ℕ, ◌+◌, ◌*◌, ◌/◌, ◌%◌, ◌^◌, ◌<◌}
use mathlib.Core.Path.{◌≡◌}
use mathlib.Core.Logic.{◌≢◌}
use mathlib.Core.Bool.{Bool, true, false, ◌||◌}
use native.Mathlib.Omega.{arith}
use subgraph_mock.Base.Tests.{ltb, leb, eqb, if◌then◌else◌}
use subgraph_mock.Base.Outcomes.{Outcome, ok, panic}

-- The order of the `f64` numbers that are given by their bits: a sign, and a magnitude that grows
-- with the bits below it. The two zeros are equal, and a NaN is in no order.
abbrev magnitude_f64 : ℕ → ℕ
magnitude_f64 bits = bits % 2 ^ 63

abbrev is_negative_f64 : ℕ → Bool
is_negative_f64 bits = eqb (bits / 2 ^ 63 % 2) 1

abbrev is_nan_f64 : ℕ → Bool
is_nan_f64 bits = ltb 0x7FF0000000000000 (magnitude_f64 bits)

abbrev pub leb_f64 : ℕ → ℕ → Bool
leb_f64 a b =
    if is_nan_f64 a || is_nan_f64 b
    then false
    else if is_negative_f64 a
    then (if is_negative_f64 b then leb (magnitude_f64 b) (magnitude_f64 a) else true)
    else if is_negative_f64 b
    then eqb (magnitude_f64 a + magnitude_f64 b) 0
    else leb (magnitude_f64 a) (magnitude_f64 b)

pub data Profile : Type 0 where
  debug release : Profile

abbrev pub u64_mod : ℕ
u64_mod = 2 ^ 64

abbrev overflow : Profile → ℕ → Outcome ℕ
overflow debug n = panic
overflow release n = ok (n % u64_mod)

abbrev narrow : Profile → ℕ → Outcome ℕ
narrow p n = if ltb n u64_mod then ok n else overflow p n

unfoldable pub add_u64 : Profile → ℕ → ℕ → Outcome ℕ
add_u64 p a b = narrow p (a + b)

unfoldable pub mul_u64 : Profile → ℕ → ℕ → Outcome ℕ
mul_u64 p a b = narrow p (a * b)

unfoldable pub rem_u64 : ℕ → ℕ → Outcome ℕ
rem_u64 a b = if eqb b 0 then panic else ok (a % b)

unfoldable pub div_u64 : ℕ → ℕ → Outcome ℕ
div_u64 a b = if eqb b 0 then panic else ok (a / b)

-- A sum or a product in range is the sum or the product, in both profiles.
pub add_u64_lem : (p : Profile) (a b : ℕ) → a + b < u64_mod → add_u64 p a b ≡ ok (a + b)
unfolding add_u64
add_u64_lem p a b h = ground arith

pub mul_u64_lem : (p : Profile) (a b : ℕ) → a * b < u64_mod → mul_u64 p a b ≡ ok (a * b)
unfolding mul_u64
mul_u64_lem p a b h = ground arith

pub rem_u64_lem : (a b : ℕ) → b ≢ 0 → rem_u64 a b ≡ ok (a % b)
unfolding rem_u64
rem_u64_lem a b h = ground arith

pub div_u64_lem : (a b : ℕ) → b ≢ 0 → div_u64 a b ≡ ok (a / b)
unfolding div_u64
div_u64_lem a b h = ground arith
