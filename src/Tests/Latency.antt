-- ===== src/Tests/Latency.antt =====
-- Waves and delays at small inputs.
use subgraph_mock.Base.{
  ℕ, ◌+◌, ◌*◌, ◌/◌, ◌%◌, ◌≤◌, ◌<◌, ◌≡◌, refl, arith, true, false, some, ok, panic,
}
use subgraph_mock.Base.{debug, release, add_u64, mul_u64, rem_u64, div_u64}
use subgraph_mock.Latency.{
  Shape, LatencyConfig, Floats, as_millis_u64, from_millis, default_latency, saw_ms, sine_ms,
  square_ms, triangle_ms, add_wave, generate_ms, generate,
}
use subgraph_mock.Latency.Saw.{saw_ms-lt_amplitude, saw_ms_lem}
use subgraph_mock.Latency.Square.{square_ms_lem}
use subgraph_mock.Latency.Triangle.{
  triangle_ms-le_amplitude, triangle_ms-le_double, triangle_ms_overshoots,
}
use subgraph_mock.Latency.Total.{
  returns, panics, IsModerate, generate_ms-EndsBy, generate_ms-bounds,
}
use subgraph_mock.Latency.Total.Sine.{IsIeee}

-- Floats that keep whole numbers only.
abbrev pub whole : Floats
whole = record {
  F64 = ℕ;
  of_u64 = λ n. n;
  add = λ a b. a + b;
  mul = λ a b. a * b;
  div = λ a b. a / b;
  sin = λ a. a % 2;
  round = λ a. a;
  to_u64 = λ a. a;
  pi = 3;
  one = 1;
  two = 2;
}

mul_at_most : (x n : ℕ) → x ≤ 1 → x * n ≤ n
mul_at_most x n h = grind arith

pub whole-IsIeee : IsIeee whole
whole-IsIeee = record {
  AtMost = λ a b. a ≤ b;
  sin-le = λ x. omega arith;
  add_mono = λ x h. omega arith;
  div_mono = λ x h. omega arith;
  mul_mono = mul_at_most;
  cast_mono = λ x n small h. h;
}

abbrev shape : ℕ → ℕ → Shape
shape amplitude period = record { amplitude = from_millis amplitude; period = from_millis period }

waves : Unit {0}
unfolding as_millis_u64 saw_ms square_ms triangle_ms add_u64 mul_u64 rem_u64 div_u64 sine_ms
    add_wave generate_ms generate
waves = tt

saw_runs : saw_ms debug (shape 20 10_000) 17_500 ≡ ok 15
unfolding waves
saw_runs = refl

square_runs : square_ms (shape 5 20_000) 12_345 ≡ ok 0
unfolding waves
square_runs = refl

triangle_runs : triangle_ms debug (shape 10 10_000) 7_500 ≡ ok 5
unfolding waves
triangle_runs = refl

-- A period below a millisecond counts as zero.
saw_panics :
    saw_ms release
      (record { amplitude = from_millis 1; period = record { secs = 0; nanos = 500_000 } })
      3
    ≡ panic
unfolding waves
saw_panics = refl

-- An odd period: at its middle the wave has twice its amplitude.
triangle_doubles : triangle_ms debug (shape 10 3) 1 ≡ ok 20
unfolding waves
triangle_doubles = refl

saw_ms-lt_amplitude_example : (ms : ℕ) × (saw_ms debug (shape 20 10_000) 17_500 ≡ ok ms) × (ms < 20)
unfolding as_millis_u64
saw_ms-lt_amplitude_example =
    saw_ms-lt_amplitude debug (shape 20 10_000) 17_500 (omega arith) (omega arith) (omega arith)

saw_ms_lem_example :
    (ms : ℕ) × (saw_ms release (shape 20 10_000) 27_300 ≡ ok ms)
    × (ms * 10_000 ≤ 7_300 * 20)
    × (7_300 * 20 < (ms + 1) * 10_000)
unfolding as_millis_u64
saw_ms_lem_example = saw_ms_lem release (shape 20 10_000) 2 7_300 (omega arith) (omega arith)

square_ms_lem_example : square_ms (shape 5 20_000) 52_000 ≡ ok 0
unfolding as_millis_u64
square_ms_lem_example = square_ms_lem (shape 5 20_000) 2 12_000 (omega arith)

triangle_ms-le_amplitude_example :
    (ms : ℕ) × (triangle_ms debug (shape 10 10_000) 7_500 ≡ ok ms) × (ms ≤ 10)
unfolding as_millis_u64
triangle_ms-le_amplitude_example =
    triangle_ms-le_amplitude debug (shape 10 10_000) 7_500 5_000 refl (omega arith) (omega arith)

triangle_ms-le_double_example : (ms : ℕ) × (triangle_ms debug (shape 10 3) 1 ≡ ok ms) × (ms ≤ 20)
unfolding as_millis_u64
triangle_ms-le_double_example =
    triangle_ms-le_double debug (shape 10 3) 1 (omega arith) (omega arith)

triangle_ms_overshoots_example : (ms : ℕ) × (triangle_ms debug (shape 10 3) 1 ≡ ok ms) × (10 < ms)
unfolding as_millis_u64
triangle_ms_overshoots_example =
    triangle_ms_overshoots debug (shape 10 3) 1 refl (omega arith) (omega arith) (omega arith)

abbrev zero_saw : LatencyConfig
zero_saw = record default_latency { saw = some (shape 1 0) }

generate_ms-EndsBy_example :
    (returns (generate_ms whole release zero_saw 5) ≡ false)
    × (panics (generate_ms whole release zero_saw 5) ≡ true)
unfolding as_millis_u64
generate_ms-EndsBy_example = generate_ms-EndsBy whole zero_saw 5

pub default-IsModerate : IsModerate default_latency
unfolding as_millis_u64
default-IsModerate = record {
  divides_all = refl;
  saw_fits = tt;
  triangle_fits = tt;
  triangle_even = tt;
  sine_small = omega arith;
  sum_fits = omega arith;
}

generate_ms-bounds_example :
    (ms : ℕ) × (generate_ms whole debug default_latency 5 ≡ ok ms) × (5 ≤ ms) × (ms ≤ 7)
unfolding as_millis_u64
generate_ms-bounds_example =
    generate_ms-bounds whole whole-IsIeee debug default_latency 5 default-IsModerate
