-- ===== src/Random/Completes.antt =====
-- Computations that return from every state with an invariant, and what they return then.
use subgraph_mock.Base.{◌≡◌, Bool, true, false, ok, if◌then◌else◌}
use subgraph_mock.Random.{Gen, ◌>>=◌}
use subgraph_mock.Random.Runs.{Runs}
use subgraph_mock.Random.Keeps.{Keeps, Keeps-eq}

pub record Completes {S A : Type 0} (I : S → Type 0) (P : A → Type 0) (m : Gen S A) : Type 0 where
  pub at : (s : S) → I s → (a : A) × (s' : S) × (m s ≡ ok (a, s')) × P a

module _ {S A : Type 0} {I : S → Type 0} where
  pub Completes-Runs : {m : Gen S A} → Runs m → Completes I (λ _. Unit {0}) m
  Completes-Runs h = record { at = λ s i. let (a, s', e) = h.at s in (a, s', e, tt) }

  pub Completes-if :
      {P : A → Type 0} (b : Bool) (m n : Gen S A)
      → Completes I P m
      → Completes I P n
      → Completes I P (if b then m else n)
  Completes-if true m n h k = h
  Completes-if false m n h k = k

module _ {S A B : Type 0} {I : S → Type 0} (m : Gen S A) (f : A → Gen S B) where
  -- The rest returns from any state, by what the first part returns.
  pub Completes-then :
      {P : A → Type 0}
      → Completes I P m
      → ((a : A) → P a → Runs (f a))
      → Completes I (λ _. Unit {0}) (m >>= f)
  unfolding ◌>>=◌
  Completes-then h k = record {
    at = λ s i.
        let (a, s', e, p) = h.at s i in let (b, s'', e') = (k a p).at s' in (b, s'', rw e e', tt);
  }

  -- The first part keeps what the rest needs.
  pub Completes-bind :
      {P : A → Type 0} {Q : B → Type 0}
      → Runs m
      → Keeps I P m
      → ((a : A) → Completes I Q (f a))
      → Completes I Q (m >>= f)
  unfolding ◌>>=◌
  Completes-bind h y k = record {
    at = λ s i.
        let (a, s', e) = h.at s in
        let (b, s'', e', q) = (k a).at s' (Keeps-eq {s = s} y i e).0 in (b, s'', rw e e', q);
  }
