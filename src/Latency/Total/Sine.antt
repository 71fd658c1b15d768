-- ===== src/Latency/Total/Sine.antt =====
-- `sine_ms` of src/latency.rs, over any floats with the laws of IEEE 754 that it relies on.
use subgraph_mock.Base.{ℕ, ◌^◌, ◌≤◌, ◌<◌}
use subgraph_mock.Latency.{Shape, Floats, as_millis_u64, sine_ms}

-- `AtMost x y` says that `x` is not greater than `y`; it holds of a NaN.
-- Addition, multiplication by a number that is not negative, and division by two are monotone, `sin`
-- is at most one, and a number below 2^53 is kept by the conversions. A NaN is cast to 0.
pub record IsIeee (F : Floats) : Type 1 where
  pub AtMost : F.F64 → F.F64 → Type 0
  pub sin-le : (x : F.F64) → AtMost (F.sin x) F.one
  pub add_mono : (x : F.F64) → AtMost x F.one → AtMost (F.add x F.one) F.two
  pub div_mono : (x : F.F64) → AtMost x F.two → AtMost (F.div x F.two) F.one
  pub mul_mono : (x : F.F64) (n : ℕ) → AtMost x F.one → AtMost (F.mul x (F.of_u64 n)) (F.of_u64 n)
  pub cast_mono :
      (x : F.F64) (n : ℕ) → n < 2 ^ 53 → AtMost x (F.of_u64 n) → F.to_u64 (F.round x) ≤ n

-- The sine wave never passes an amplitude below 2^53, also when the period is zero.
pub sine_ms-le_amplitude :
    (F : Floats) (laws : IsIeee F) (shape : Shape) (elapsed : ℕ)
    → as_millis_u64 shape.amplitude < 2 ^ 53
    → sine_ms F shape elapsed ≤ as_millis_u64 shape.amplitude
unfolding sine_ms
sine_ms-le_amplitude F laws shape elapsed small =
    laws.cast_mono _ (as_millis_u64 shape.amplitude) small (
      laws.mul_mono _ (as_millis_u64 shape.amplitude)
        (laws.div_mono _ (laws.add_mono _ (laws.sin-le _))))
