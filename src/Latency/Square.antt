-- ===== src/Latency/Square.antt =====
-- `square_ms` of src/latency.rs: the amplitude in the first half of each period, and zero after it.
use native.Mathlib.Nat.{mul-add-mod_self_right, mod-eq_of_lt}
use subgraph_mock.Base.{
  ℕ, ◌+◌, ◌*◌, ◌/◌, ◌%◌, ◌≤◌, ◌<◌, ◌≡◌, ◌≢◌, arith, ok, ltb, if◌then◌else◌, rem_u64,
}
use subgraph_mock.Latency.{Shape, as_millis_u64, square_ms}

pub square_ms-le_amplitude :
    (shape : Shape) (elapsed : ℕ)
    → as_millis_u64 shape.period ≢ 0
    → (ms : ℕ) × (square_ms shape elapsed ≡ ok ms) × (ms ≤ as_millis_u64 shape.amplitude)
unfolding square_ms rem_u64
square_ms-le_amplitude shape elapsed pos = (
  (if ltb (elapsed % as_millis_u64 shape.period) (as_millis_u64 shape.period / 2)
      then as_millis_u64 shape.amplitude
      else 0),
  ground arith,
  ground arith,
)

-- `r` milliseconds into the period number `k`, the wave has the amplitude in the first half of the
-- period (rounded down to whole milliseconds), and 0 in the rest.
pub square_ms_lem :
    (shape : Shape) (k r : ℕ)
    → r < as_millis_u64 shape.period
    → square_ms shape (k * as_millis_u64 shape.period + r)
      ≡ ok (if ltb r (as_millis_u64 shape.period / 2) then as_millis_u64 shape.amplitude else 0)
unfolding square_ms rem_u64
square_ms_lem shape k r h =
    rw (mul-add-mod_self_right k (as_millis_u64 shape.period) r, mod-eq_of_lt h) (ground arith)
