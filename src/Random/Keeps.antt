-- ===== src/Random/Keeps.antt =====
-- Computations that keep an invariant of their state, and what they return then.
use mathlib.Core.Path.{subst}
use subgraph_mock.Base.{
  ◌≡◌, refl, Bool, true, false, Outcome, ok, err, panic, out_of_fuel, if◌then◌else◌,
}
use subgraph_mock.Random.{Gen, pure, panicked, lift, continue, ◌>>=◌}

abbrev pub After : {S A : Type 0} → (S → Type 0) → (A → Type 0) → Outcome (A × S) → Type 0
After I P (ok (a, s)) = I s × P a
After I P _ = Unit

-- From a state with the invariant `I`, whatever `m` returns has `P`, and the state has `I` again.
pub record Keeps {S A : Type 0} (I : S → Type 0) (P : A → Type 0) (m : Gen S A) : Type 0 where
  pub at : (s : S) → I s → After I P (m s)

module _ {S A : Type 0} {I : S → Type 0} {P : A → Type 0} where
  pub Keeps-eq :
      {m : Gen S A} {s s' : S} {a : A} → Keeps I P m → I s → m s ≡ ok (a, s') → I s' × P a
  Keeps-eq {s} k h e = subst (After I P) e (k.at s h)

  pub Keeps-pure : (a : A) → P a → Keeps I P (pure {S = S} a)
  Keeps-pure a h = record { at = λ s i. (i, h) }

  pub Keeps-panicked : Keeps I P (panicked {S = S})
  Keeps-panicked = record { at = λ s i. tt }

  pub Keeps-if :
      (b : Bool) (m n : Gen S A)
      → (b ≡ true → Keeps I P m)
      → (b ≡ false → Keeps I P n)
      → Keeps I P (if b then m else n)
  Keeps-if true m n h k = h refl
  Keeps-if false m n h k = k refl

-- What is lifted does not touch the state.
pub Keeps-lift :
    {S A : Type 0} {I : S → Type 0} (r : Outcome A) → Keeps I (λ a. r ≡ ok a) (lift {S = S} r)
Keeps-lift (ok a) = record { at = λ s i. (i, refl) }
Keeps-lift (err e) = record { at = λ s i. tt }
Keeps-lift panic = record { at = λ s i. tt }
Keeps-lift out_of_fuel = record { at = λ s i. tt }

module _ {S A B : Type 0} {I : S → Type 0} {P : A → Type 0} {Q : B → Type 0} where
  After-continue :
      (r : Outcome (A × S)) (f : A → Gen S B)
      → After I P r
      → ((a : A) → P a → Keeps I Q (f a))
      → After I Q (continue r f)
  After-continue (ok (a, s)) f h k = (k a h.1).at s h.0
  After-continue (err e) f h k = tt
  After-continue panic f h k = tt
  After-continue out_of_fuel f h k = tt

  pub Keeps-bind :
      (m : Gen S A) (f : A → Gen S B)
      → Keeps I P m
      → ((a : A) → P a → Keeps I Q (f a))
      → Keeps I Q (m >>= f)
  unfolding ◌>>=◌
  Keeps-bind m f h k = record { at = λ s i. After-continue (m s) f (h.at s i) k }
