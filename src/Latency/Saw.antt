-- ===== src/Latency/Saw.antt =====
-- `saw_ms` of src/latency.rs: a ramp from 0 up to the amplitude, once each period.
use native.Mathlib.Nat.{mul-add-mod_self_right, mod-eq_of_lt}
use subgraph_mock.Base.{ap, ◌∙◌, ℕ, ◌+◌, ◌*◌, ◌/◌, ◌%◌, ◌≤◌, ◌<◌, ◌≡◌, ◌≢◌, refl, arith, ok}
use subgraph_mock.Base.{Profile, u64_mod, mul_u64_lem, rem_u64_lem, div_u64_lem}
use subgraph_mock.Latency.{Shape, as_millis_u64, saw_ms}
use subgraph_mock.Latency.Scaling.{
  mul-le-mul, scaled-le, scaled-lt, scaled_mono, scaled-mul_le, lt-scaled_mul,
}

-- The wave's value in the shape's own numbers.
abbrev pub ramp : Shape → ℕ → ℕ
ramp shape elapsed =
    elapsed
    % as_millis_u64 shape.period
    * as_millis_u64 shape.amplitude
    / as_millis_u64 shape.period

module _ (p : Profile) (shape : Shape) (elapsed : ℕ) where
  pub saw_ms-eq-ramp :
      as_millis_u64 shape.period ≢ 0
      → as_millis_u64 shape.period * as_millis_u64 shape.amplitude < u64_mod
      → saw_ms p shape elapsed ≡ ok (ramp shape elapsed)
  unfolding saw_ms
  saw_ms-eq-ramp pos fits =
      let period = as_millis_u64 shape.period in
      let amplitude = as_millis_u64 shape.amplitude in
      let position = elapsed % period in
      rw
        (
          rem_u64_lem elapsed period pos,
          mul_u64_lem p position amplitude
              (omega (arith, mul-le-mul position period amplitude (omega arith))),
          div_u64_lem (position * amplitude) period pos,
        )
        refl

  pub saw_ms-le_amplitude :
      as_millis_u64 shape.period ≢ 0
      → as_millis_u64 shape.period * as_millis_u64 shape.amplitude < u64_mod
      → (ms : ℕ) × (saw_ms p shape elapsed ≡ ok ms) × (ms ≤ as_millis_u64 shape.amplitude)
  saw_ms-le_amplitude pos fits = (
    ramp shape elapsed,
    saw_ms-eq-ramp pos fits,
    scaled-le (elapsed % as_millis_u64 shape.period) (as_millis_u64 shape.amplitude)
        (as_millis_u64 shape.period) (omega arith),
  )

  -- If the period is not zero, the amplitude is not zero and their product fits in 64 bits, the wave
  -- returns a value below the amplitude, in both profiles.
  pub saw_ms-lt_amplitude :
      as_millis_u64 shape.period ≢ 0
      → 0 < as_millis_u64 shape.amplitude
      → as_millis_u64 shape.period * as_millis_u64 shape.amplitude < u64_mod
      → (ms : ℕ) × (saw_ms p shape elapsed ≡ ok ms) × (ms < as_millis_u64 shape.amplitude)
  saw_ms-lt_amplitude pos some fits = (
    ramp shape elapsed,
    saw_ms-eq-ramp pos fits,
    scaled-lt (elapsed % as_millis_u64 shape.period) (as_millis_u64 shape.amplitude)
        (as_millis_u64 shape.period) (omega arith) some,
  )

-- If the product of period and amplitude fits in 64 bits: `r` milliseconds into the period number `k`
-- the wave has risen to the part `r` of a whole period, in proportion to the amplitude and rounded
-- down to whole milliseconds, in both profiles.
pub saw_ms_lem :
    (p : Profile) (shape : Shape) (k r : ℕ)
    → r < as_millis_u64 shape.period
    → as_millis_u64 shape.period * as_millis_u64 shape.amplitude < u64_mod
    → (ms : ℕ) × (saw_ms p shape (k * as_millis_u64 shape.period + r) ≡ ok ms)
      × (ms * as_millis_u64 shape.period ≤ r * as_millis_u64 shape.amplitude)
      × (r * as_millis_u64 shape.amplitude < (ms + 1) * as_millis_u64 shape.period)
saw_ms_lem p shape k r h fits =
    let period = as_millis_u64 shape.period in
    let amplitude = as_millis_u64 shape.amplitude in
    (
      r * amplitude / period,
      saw_ms-eq-ramp p shape (k * period + r) (omega (arith, h)) fits
          ∙ ap (λ x. ok (x * amplitude / period))
              (mul-add-mod_self_right k period r ∙ mod-eq_of_lt h),
      scaled-mul_le (r * amplitude) period,
      lt-scaled_mul (r * amplitude) period (omega (arith, h)),
    )

-- Within a period the wave rises: a later moment of the same period has no smaller value.
pub ramp_mono :
    (shape : Shape) (e f : ℕ)
    → as_millis_u64 shape.period ≢ 0
    → e % as_millis_u64 shape.period ≤ f % as_millis_u64 shape.period
    → ramp shape e ≤ ramp shape f
ramp_mono shape e f pos h =
    scaled_mono (e % as_millis_u64 shape.period) (f % as_millis_u64 shape.period)
      (as_millis_u64 shape.amplitude) (as_millis_u64 shape.period) pos h
