-- ===== src/Handler/Draws.antt =====
-- Computations of the handler that only draw random values: they leave the caches alone.
use subgraph_mock.Base.{Outcome, ok, err, panic, out_of_fuel}
use subgraph_mock.Random.{Gen}
use subgraph_mock.Random.Yields.{Yields, Holds}
use subgraph_mock.Random.Keeps.{Keeps, After}
use subgraph_mock.Handler.{Engine, World, drawn, with_random}

module _ (E : Engine) (I : World E → Type 0)
    (stable : (w : World E) (s : E.R.State) → I w → I (record w { random = s })) where
  After-with_random :
      {A : Type 0} (P : A → Type 0) (w : World E) (r : Outcome (A × E.R.State))
      → I w
      → Holds P r
      → After I P (with_random E w r)
  After-with_random P w (ok (a, s)) i h = (stable w s i, h)
  After-with_random P w (err e) i h = tt
  After-with_random P w panic i h = tt
  After-with_random P w out_of_fuel i h = tt

  -- An invariant of the caches is kept.
  pub Keeps-drawn :
      {A : Type 0} {P : A → Type 0} (m : Gen E.R.State A) → Yields P m → Keeps I P (drawn E m)
  unfolding drawn
  Keeps-drawn {P = P} m y = record {
    at = λ w i. After-with_random P w (m w.random) i (y.at w.random);
  }
