-- ===== src/Latency.antt =====
-- src/latency.rs: the delay that is injected after a response, the sum of a base and four waves.
-- Each function is the source's; logging is left out. `Duration` and `Instant` are the standard
-- library's: whole seconds with nanoseconds, and nanoseconds on a monotonic clock.
mod Scaling
pub mod Saw
pub mod Square
pub mod Triangle
pub mod Total
use subgraph_mock.Base.{
  ℕ, ◌+◌, ◌-◌, ◌*◌, ◌/◌, ◌%◌, Outcome, ok, ◌>>=◌, Option, none, some, ltb, if◌then◌else◌,
}
use subgraph_mock.Base.{Profile, u64_mod, add_u64, mul_u64, rem_u64, div_u64}

pub record Duration : Type 0 where
  pub secs : ℕ
  pub nanos : ℕ

abbrev pub as_millis : Duration → ℕ
as_millis d = d.secs * 1000 + d.nanos / 1_000_000

-- `as_millis() as u64`: the cast keeps the low 64 bits.
unfoldable pub as_millis_u64 : Duration → ℕ
as_millis_u64 d = as_millis d % u64_mod

abbrev pub from_millis : ℕ → Duration
from_millis ms = record { secs = ms / 1000; nanos = ms % 1000 * 1_000_000 }

abbrev pub from_secs : ℕ → Duration
from_secs s = record { secs = s; nanos = 0 }

-- `later.duration_since(earlier)`, zero if the order is the other way round.
abbrev pub duration_since : ℕ → ℕ → Duration
duration_since later earlier = record {
  secs = (later - earlier) / 1_000_000_000;
  nanos = (later - earlier) % 1_000_000_000;
}

pub record Shape : Type 0 where
  pub amplitude : Duration
  pub period : Duration

pub record LatencyConfig : Type 0 where
  pub base : Duration
  pub saw : Option Shape
  pub sine : Option Shape
  pub square : Option Shape
  pub triangle : Option Shape

abbrev pub default_latency : LatencyConfig
default_latency = record {
  base = from_millis 5;
  saw = none;
  sine = some (record { amplitude = from_millis 2; period = from_secs 10 });
  square = none;
  triangle = none;
}

pub record LatencyGenerator : Type 0 where
  pub start : ℕ
  pub cfg : LatencyConfig

-- `Instant::now()` is an argument.
abbrev pub new_generator : ℕ → LatencyConfig → LatencyGenerator
new_generator now cfg = record { start = now; cfg = cfg }

-- The `f64` arithmetic of `sine_ms`, which the model does not define.
pub record Floats : Type 1 where
  pub F64 : Type 0
  pub of_u64 : ℕ → F64
  pub add : F64 → F64 → F64
  pub mul : F64 → F64 → F64
  pub div : F64 → F64 → F64
  pub sin : F64 → F64
  pub round : F64 → F64
  -- The saturating cast `as u64`.
  pub to_u64 : F64 → ℕ
  pub pi : F64
  pub one : F64
  pub two : F64

unfoldable pub saw_ms : Profile → Shape → ℕ → Outcome ℕ
saw_ms p shape elapsed = do
  let amplitude = as_millis_u64 shape.amplitude
  let period = as_millis_u64 shape.period
  position ← rem_u64 elapsed period
  scaled ← mul_u64 p position amplitude
  div_u64 scaled period

unfoldable pub sine_ms : Floats → Shape → ℕ → ℕ
sine_ms F shape elapsed =
    let amplitude = as_millis_u64 shape.amplitude in
    let period = as_millis_u64 shape.period in
    let turns = F.div (F.of_u64 elapsed) (F.of_u64 period) in
    let sine_value = F.sin (F.mul (F.mul turns F.pi) F.two) in
    let normalized = F.div (F.add sine_value F.one) F.two in
    F.to_u64 (F.round (F.mul normalized (F.of_u64 amplitude)))

unfoldable pub square_ms : Shape → ℕ → Outcome ℕ
square_ms shape elapsed = do
  let amplitude = as_millis_u64 shape.amplitude
  let period = as_millis_u64 shape.period
  position ← rem_u64 elapsed period
  ok (if ltb position (period / 2) then amplitude else 0)

unfoldable pub triangle_ms : Profile → Shape → ℕ → Outcome ℕ
triangle_ms p shape elapsed = do
  let amplitude = as_millis_u64 shape.amplitude
  let period = as_millis_u64 shape.period
  position_in_period ← rem_u64 elapsed period
  let half_period = period / 2
  if ltb position_in_period half_period
      then (do scaled ← mul_u64 p position_in_period amplitude; div_u64 scaled half_period)
      else (do
        scaled ← mul_u64 p (period - position_in_period) amplitude
        div_u64 scaled half_period)

-- `if let Some(shape) = shape { latency_ms += wave(shape, elapsed_ms) }`
unfoldable pub add_wave : Profile → Option Shape → (Shape → Outcome ℕ) → ℕ → Outcome ℕ
add_wave p none wave latency_ms = ok latency_ms
add_wave p (some shape) wave latency_ms = do ms ← wave shape; add_u64 p latency_ms ms

-- `LatencyGenerator::generate`, in milliseconds.
unfoldable pub generate_ms : Floats → Profile → LatencyConfig → ℕ → Outcome ℕ
generate_ms F p cfg elapsed_ms = do
  with_saw ← add_wave p cfg.saw (λ s. saw_ms p s elapsed_ms) (as_millis_u64 cfg.base)
  with_sine ← add_wave p cfg.sine (λ s. ok (sine_ms F s elapsed_ms)) with_saw
  with_square ← add_wave p cfg.square (λ s. square_ms s elapsed_ms) with_sine
  add_wave p cfg.triangle (λ s. triangle_ms p s elapsed_ms) with_square

unfoldable pub generate : Floats → Profile → LatencyGenerator → ℕ → Outcome Duration
generate F p g when = do
  latency_ms ← generate_ms F p g.cfg (as_millis_u64 (duration_since when g.start))
  ok (from_millis latency_ms)
