-- ===== src/Latency/Triangle.antt =====
-- `triangle_ms` of src/latency.rs: up to the amplitude at half a period, and down again.
use native.Mathlib.Nat.{mod-eq_of_lt}
use subgraph_mock.Base.{ℕ, ◌+◌, ◌-◌, ◌*◌, ◌/◌, ◌%◌, ◌≤◌, ◌<◌, ◌≡◌, ◌≢◌, refl, arith, ok}
use subgraph_mock.Base.{Bool-cases, inl, inr, ltb, if◌then◌else◌}
use subgraph_mock.Base.{Profile, u64_mod, mul_u64_lem, rem_u64_lem, div_u64_lem}
use subgraph_mock.Latency.{Shape, as_millis_u64, triangle_ms}
use subgraph_mock.Latency.Scaling.{mul-le-mul, scaled-le, scaled-le_double, scaled-lt_above}

-- The distance to the nearer end of the period, as the source measures it.
abbrev pub distance : ℕ → ℕ → ℕ
distance position period = if ltb position (period / 2) then position else period - position

distance-le : (position period : ℕ) → position < period → distance position period ≤ period
distance-le position period h = ground arith

distance-le-half : (position half : ℕ) → position < 2 * half → distance position (2 * half) ≤ half
distance-le-half position half h = ground arith

distance_middle :
    (half period : ℕ) → period ≡ 2 * half + 1 → period / 2 < distance (half % period) period
distance_middle half period odd =
    rw (mod-eq_of_lt (let h : half < period = omega arith in h)) (ground arith)

distance-le-double :
    (position period : ℕ)
    → 2 ≤ period
    → position < period
    → distance position period ≤ 2 * (period / 2)
distance-le-double position period h pos = ground arith

abbrev pub peak : Shape → ℕ → ℕ
peak shape elapsed =
    distance (elapsed % as_millis_u64 shape.period) (as_millis_u64 shape.period)
    * as_millis_u64 shape.amplitude
    / (as_millis_u64 shape.period / 2)

module _ (p : Profile) (shape : Shape) (elapsed : ℕ) where
  pub triangle_ms-eq-peak :
      2 ≤ as_millis_u64 shape.period
      → as_millis_u64 shape.period * as_millis_u64 shape.amplitude < u64_mod
      → triangle_ms p shape elapsed ≡ ok (peak shape elapsed)
  unfolding triangle_ms
  triangle_ms-eq-peak long fits =
      let period = as_millis_u64 shape.period in
      let amplitude = as_millis_u64 shape.amplitude in
      let position = elapsed % period in
      let half = period / 2 in
      let scale = λ (x : ℕ) (h : x ≤ period).
        mul_u64_lem p x amplitude (omega (arith, mul-le-mul x period amplitude h)) in
      let divide = λ (x : ℕ). div_u64_lem (x * amplitude) half (omega arith) in
      rw (rem_u64_lem elapsed period (omega arith)) (elim (Bool-cases (ltb position half)) [
        | inl up ↦ rw (up, scale position (omega arith), divide position) refl
        | inr down ↦
            rw (down, scale (period - position) (omega arith), divide (period - position)) refl
      ])

  -- If the period is even and not zero, and its product with the amplitude fits in 64 bits, the wave
  -- returns a value up to the amplitude, in both profiles.
  pub triangle_ms-le_amplitude :
      (half : ℕ)
      → as_millis_u64 shape.period ≡ 2 * half
      → half ≢ 0
      → as_millis_u64 shape.period * as_millis_u64 shape.amplitude < u64_mod
      → (ms : ℕ) × (triangle_ms p shape elapsed ≡ ok ms) × (ms ≤ as_millis_u64 shape.amplitude)
  triangle_ms-le_amplitude half even pos fits = (
    peak shape elapsed,
    triangle_ms-eq-peak (omega arith) fits,
    scaled-le (distance (elapsed % as_millis_u64 shape.period) (as_millis_u64 shape.period))
        (as_millis_u64 shape.amplitude) (as_millis_u64 shape.period / 2) (ground arith),
  )

  -- For any period from 2 ms on the wave returns a value up to twice the amplitude.
  pub triangle_ms-le_double :
      2 ≤ as_millis_u64 shape.period
      → as_millis_u64 shape.period * as_millis_u64 shape.amplitude < u64_mod
      → (ms : ℕ) × (triangle_ms p shape elapsed ≡ ok ms) × (ms ≤ 2 * as_millis_u64 shape.amplitude)
  triangle_ms-le_double long fits = (
    peak shape elapsed,
    triangle_ms-eq-peak long fits,
    scaled-le_double (distance (elapsed % as_millis_u64 shape.period) (as_millis_u64 shape.period))
        (as_millis_u64 shape.amplitude) (as_millis_u64 shape.period / 2)
        (distance-le-double (elapsed % as_millis_u64 shape.period) (as_millis_u64 shape.period) long
          (omega arith)),
  )

-- At the middle of an odd period from 3 ms on, the wave is above its amplitude, if that is at least
-- half a period.
pub triangle_ms_overshoots :
    (p : Profile) (shape : Shape) (half : ℕ)
    → as_millis_u64 shape.period ≡ 2 * half + 1
    → half ≢ 0
    → half ≤ as_millis_u64 shape.amplitude
    → as_millis_u64 shape.period * as_millis_u64 shape.amplitude < u64_mod
    → (ms : ℕ) × (triangle_ms p shape half ≡ ok ms) × (as_millis_u64 shape.amplitude < ms)
triangle_ms_overshoots p shape half odd pos large fits = (
  peak shape half,
  triangle_ms-eq-peak p shape half (omega arith) fits,
  scaled-lt_above (distance (half % as_millis_u64 shape.period) (as_millis_u64 shape.period))
      (as_millis_u64 shape.amplitude) (as_millis_u64 shape.period / 2) (omega arith)
      (distance_middle half (as_millis_u64 shape.period) odd) (omega arith),
)
