-- ===== src/Latency/Total.antt =====
-- `generate` of src/latency.rs: when it returns, and the bounds of the delay.
pub mod Sine
use native.Mathlib.Nat.{mod-lt}
use subgraph_mock.Base.{
  ℕ, ◌+◌, ◌*◌, ◌/◌, ◌%◌, ◌^◌, ◌≤◌, ◌<◌, ◌≡◌, ◌≢◌, refl, arith, Bool, true, false, ◌&&◌, not, Option,
  none, some, Outcome, ok, err, panic, out_of_fuel, ◌>>=◌, leb, leb→le,
}
use subgraph_mock.Base.{
  Profile, debug, release, u64_mod, add_u64, mul_u64, rem_u64, div_u64, add_u64_lem,
}
use subgraph_mock.Latency.{
  Duration, Shape, LatencyConfig, LatencyGenerator, Floats, as_millis_u64, saw_ms, sine_ms,
  square_ms, triangle_ms, add_wave, generate_ms,
}
use subgraph_mock.Latency.Total.Sine.{IsIeee, sine_ms-le_amplitude}
use subgraph_mock.Latency.Saw.{saw_ms-le_amplitude}
use subgraph_mock.Latency.Square.{square_ms-le_amplitude}
use subgraph_mock.Latency.Triangle.{triangle_ms-le_amplitude}

-- The least period, in milliseconds, at which a wave does not divide by zero.
abbrev long_enough : ℕ → Option Shape → Bool
long_enough least none = true
long_enough least (some shape) = leb least (as_millis_u64 shape.period)

abbrev pub divides : LatencyConfig → Bool
divides cfg = long_enough 1 cfg.saw && (long_enough 1 cfg.square && long_enough 2 cfg.triangle)

abbrev pub returns {ℓ} : {A : Type ℓ} → Outcome A → Bool
returns (ok _) = true
returns _ = false

abbrev pub panics {ℓ} : {A : Type ℓ} → Outcome A → Bool
panics panic = true
panics _ = false

and_parts : (a b c : Bool) → (a && (b && c)) ≡ true → (a ≡ true) × (b ≡ true) × (c ≡ true)
and_parts a b c h = ground arith

-- A computation that returns if the test holds, and panics if not.
abbrev EndsBy {ℓ} : {A : Type ℓ} → Bool → Outcome A → Type 0
EndsBy b m = (returns m ≡ b) × (panics m ≡ not b)

EndsBy-bind {ℓ κ} :
    {A : Type ℓ} {B : Type κ} (m : Outcome A) (f : A → Outcome B) (b c : Bool)
    → EndsBy b m
    → ((a : A) → EndsBy c (f a))
    → EndsBy (b && c) (m >>= f)
EndsBy-bind (ok a) f b c h k = ground (arith, k a)
EndsBy-bind (err e) f b c h k = ground arith
EndsBy-bind panic f b c h k = ground arith
EndsBy-bind out_of_fuel f b c h k = ground arith

saw_ms-EndsBy : (s : Shape) (e : ℕ) → EndsBy (leb 1 (as_millis_u64 s.period)) (saw_ms release s e)
unfolding saw_ms rem_u64 mul_u64 div_u64
saw_ms-EndsBy s e = ground arith

square_ms-EndsBy : (s : Shape) (e : ℕ) → EndsBy (leb 1 (as_millis_u64 s.period)) (square_ms s e)
unfolding square_ms rem_u64
square_ms-EndsBy s e = ground arith

triangle_ms-EndsBy :
    (s : Shape) (e : ℕ) → EndsBy (leb 2 (as_millis_u64 s.period)) (triangle_ms release s e)
unfolding triangle_ms rem_u64 mul_u64 div_u64
triangle_ms-EndsBy s e = ground arith

add_wave-EndsBy :
    (least : ℕ) (o : Option Shape) (wave : Shape → Outcome ℕ) (acc : ℕ)
    → ((s : Shape) → EndsBy (leb least (as_millis_u64 s.period)) (wave s))
    → EndsBy (long_enough least o) (add_wave release o wave acc)
unfolding add_wave add_u64
add_wave-EndsBy least none wave acc h = (refl, refl)
add_wave-EndsBy least (some s) wave acc h = ground (arith, h s)

add_wave-EndsBy_sine :
    (F : Floats) (o : Option Shape) (e acc : ℕ)
    → EndsBy true (add_wave release o (λ s. ok (sine_ms F s e)) acc)
unfolding add_wave add_u64
add_wave-EndsBy_sine F none e acc = (refl, refl)
add_wave-EndsBy_sine F (some s) e acc = ground arith

-- In the release profile the delay is computed exactly when the saw and square periods are at least
-- 1 ms and the triangle's at least 2 ms; otherwise the call panics, at every moment.
pub generate_ms-EndsBy :
    (F : Floats) (cfg : LatencyConfig) (elapsed : ℕ)
    → (returns (generate_ms F release cfg elapsed) ≡ divides cfg)
      × (panics (generate_ms F release cfg elapsed) ≡ not (divides cfg))
unfolding generate_ms
generate_ms-EndsBy F cfg elapsed =
    EndsBy-bind _ _ _ _
      (add_wave-EndsBy 1 cfg.saw _ (as_millis_u64 cfg.base) (λ s. saw_ms-EndsBy s elapsed))
      λ with_saw.
        EndsBy-bind _ _ true _ (add_wave-EndsBy_sine F cfg.sine elapsed with_saw) λ with_sine.
          EndsBy-bind _ _ _ _
            (add_wave-EndsBy 1 cfg.square _ with_sine (λ s. square_ms-EndsBy s elapsed))
            λ with_square.
              add_wave-EndsBy 2 cfg.triangle _ with_square (λ s. triangle_ms-EndsBy s elapsed)

-- The amplitude of a wave, zero if it is not configured.
abbrev pub height : Option Shape → ℕ
height none = 0
height (some shape) = as_millis_u64 shape.amplitude

-- A shape whose products fit in 64 bits.
abbrev Fits : Option Shape → Type 0
Fits none = Unit
Fits (some s) = as_millis_u64 s.period * as_millis_u64 s.amplitude < u64_mod

abbrev Even : Option Shape → Type 0
Even none = Unit
Even (some s) = as_millis_u64 s.period % 2 ≡ 0

pub record IsModerate (cfg : LatencyConfig) : Type 0 where
  pub divides_all : divides cfg ≡ true
  pub saw_fits : Fits cfg.saw
  pub triangle_fits : Fits cfg.triangle
  pub triangle_even : Even cfg.triangle
  pub sine_small : height cfg.sine < 2 ^ 53
  pub sum_fits :
      as_millis_u64 cfg.base
        + height cfg.saw
        + height cfg.sine
        + height cfg.square
        + height cfg.triangle
      < u64_mod

leb_one : (n : ℕ) → leb 1 n ≡ true → n ≢ 0
leb_one n h = ground arith

divides-parts :
    (cfg : LatencyConfig)
    → divides cfg ≡ true
    → (long_enough 1 cfg.saw ≡ true)
      × (long_enough 1 cfg.square ≡ true)
      × (long_enough 2 cfg.triangle ≡ true)
divides-parts cfg h = and_parts _ _ _ h

-- `add_wave` adds at most the wave's amplitude.
module _ (p : Profile) (acc : ℕ) where
  add_wave-bounds :
      (o : Option Shape) (wave : Shape → Outcome ℕ)
      → acc + height o < u64_mod
      → ((s : Shape) → o ≡ some s → (ms : ℕ) × (wave s ≡ ok ms) × (ms ≤ as_millis_u64 s.amplitude))
      → (t : ℕ) × (add_wave p o wave acc ≡ ok t) × (acc ≤ t) × (t ≤ acc + height o)
  unfolding add_wave
  add_wave-bounds none wave fits h = (acc, refl, omega arith, omega arith)
  add_wave-bounds (some s) wave fits h =
      let (ms, e, le) = h s refl in
      (acc + ms, rw e (add_u64_lem p acc ms (omega arith)), omega arith, omega arith)

module _ (p : Profile) (elapsed : ℕ) (o : Option Shape) (s : Shape) (e : o ≡ some s) where
  saw_wave :
      long_enough 1 o ≡ true
      → Fits o
      → (ms : ℕ) × (saw_ms p s elapsed ≡ ok ms) × (ms ≤ as_millis_u64 s.amplitude)
  saw_wave long fits = saw_ms-le_amplitude p s elapsed (leb_one _ (rw e at long)) (rw e at fits)

  square_wave :
      long_enough 1 o ≡ true
      → (ms : ℕ) × (square_ms s elapsed ≡ ok ms) × (ms ≤ as_millis_u64 s.amplitude)
  square_wave long = square_ms-le_amplitude s elapsed (leb_one _ (rw e at long))

  triangle_wave :
      long_enough 2 o ≡ true
      → Fits o
      → Even o
      → (ms : ℕ) × (triangle_ms p s elapsed ≡ ok ms) × (ms ≤ as_millis_u64 s.amplitude)
  triangle_wave long fits even =
      let period = as_millis_u64 s.period in
      let le_two : 2 ≤ period = leb→le 2 period (rw e at long) in
      let whole : period % 2 ≡ 0 = rw e at even in
      triangle_ms-le_amplitude p s elapsed (period / 2) (omega arith) (omega arith) (rw e at fits)

  sine_wave :
      (F : Floats) (laws : IsIeee F)
      → height o < 2 ^ 53
      → (ms : ℕ) × (ok (sine_ms F s elapsed) ≡ ok ms) × (ms ≤ as_millis_u64 s.amplitude)
  sine_wave F laws small =
      (sine_ms F s elapsed, refl, sine_ms-le_amplitude F laws s elapsed (rw e at small))

module _ (F : Floats) (laws : IsIeee F) (p : Profile) (cfg : LatencyConfig) (elapsed : ℕ)
    (ok_cfg : IsModerate cfg) where
  -- In a configuration whose waves do not divide by zero, whose products and sum fit in 64 bits,
  -- whose triangle period is even and whose sine amplitude is below 2^53, the delay is computed in
  -- both profiles, and lies between the base and the base with all amplitudes added.
  pub generate_ms-bounds :
      (ms : ℕ) × (generate_ms F p cfg elapsed ≡ ok ms)
      × (as_millis_u64 cfg.base ≤ ms)
      × (ms
          ≤ as_millis_u64 cfg.base
            + height cfg.saw
            + height cfg.sine
            + height cfg.square
            + height cfg.triangle)
  unfolding generate_ms
  generate_ms-bounds =
      let sum = ok_cfg.sum_fits in
      let long = divides-parts cfg ok_cfg.divides_all in
      let (t1, e1, lo1, hi1) =
        add_wave-bounds p (as_millis_u64 cfg.base) cfg.saw (λ s. saw_ms p s elapsed) (omega arith)
          (λ s e. saw_wave p elapsed cfg.saw s e long.0 ok_cfg.saw_fits) in
      let (t2, e2, lo2, hi2) =
        add_wave-bounds p t1 cfg.sine (λ s. ok (sine_ms F s elapsed)) (omega arith)
          (λ s e. sine_wave p elapsed cfg.sine s e F laws ok_cfg.sine_small) in
      let (t3, e3, lo3, hi3) =
        add_wave-bounds p t2 cfg.square (λ s. square_ms s elapsed) (omega arith)
          (λ s e. square_wave p elapsed cfg.square s e long.1) in
      let (t4, e4, lo4, hi4) =
        add_wave-bounds p t3 cfg.triangle (λ s. triangle_ms p s elapsed) (omega arith)
          (λ s e.
            triangle_wave p elapsed cfg.triangle s e long.2 ok_cfg.triangle_fits
              ok_cfg.triangle_even) in
      (t4, rw (e1, e2, e3) e4, omega arith, omega arith)
