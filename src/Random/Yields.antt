-- ===== src/Random/Yields.antt =====
-- Postconditions of random computations, one rule for each way to build one.
use mathlib.Core.Path.{subst}
use subgraph_mock.Base.{
  ℕ, zero, suc, ◌-◌, ◌≤◌, ◌<◌, ◌≡◌, refl, ap, arith, Bool, true, false, List, [], ◌∷◌, none, some,
  Outcome, ok, err, panic, out_of_fuel, if◌then◌else◌, leb, eqb, leb→le, leb_ℤ, ℤ, length, All,
  String, get_elem?, All-get_elem?, ◌⊎◌, inl, inr,
}
use subgraph_mock.Random.{
  Random, IsLawful, Gen, pure, fail, panicked, draw, lift, continue, ◌>>=◌, repeat, random_range,
  random_below, random_int, choose, attempt, caught,
}

abbrev pub Holds : {S A : Type 0} → (A → Type 0) → Outcome (A × S) → Type 0
Holds P (ok (a, s)) = P a
Holds P _ = Unit

Holds-weaken :
    {S A : Type 0} {P Q : A → Type 0} (r : Outcome (A × S))
    → Holds P r
    → ((a : A) → P a → Q a)
    → Holds Q r
Holds-weaken (ok (a, s)) h k = k a h
Holds-weaken (err e) h k = tt
Holds-weaken panic h k = tt
Holds-weaken out_of_fuel h k = tt

Holds-any : {S A : Type 0} (r : Outcome (A × S)) → Holds (λ _. Unit {0}) r
Holds-any (ok (a, s)) = tt
Holds-any (err e) = tt
Holds-any panic = tt
Holds-any out_of_fuel = tt

-- Whatever `m` returns, in any state, has the property `P`.
pub record Yields {S A : Type 0} (P : A → Type 0) (m : Gen S A) : Type 0 where
  pub at : (s : S) → Holds P (m s)

pub Yields-any : {S A : Type 0} (m : Gen S A) → Yields (λ _. Unit {0}) m
Yields-any m = record { at = λ s. Holds-any (m s) }

module _ {S A : Type 0} {P : A → Type 0} where
  Holds-of : (r : Outcome (A × S)) → ((a : A) (s : S) → r ≡ ok (a, s) → P a) → Holds P r
  Holds-of (ok (a, s)) h = h a s refl
  Holds-of (err e) h = tt
  Holds-of panic h = tt
  Holds-of out_of_fuel h = tt

  -- What is known of every value that is returned.
  pub Yields-of : (m : Gen S A) → ((s : S) (a : A) (s' : S) → m s ≡ ok (a, s') → P a) → Yields P m
  Yields-of m h = record { at = λ s. Holds-of (m s) (h s) }

  pub Yields-eq : {m : Gen S A} {s s' : S} {a : A} → Yields P m → m s ≡ ok (a, s') → P a
  Yields-eq {s} y e = subst (Holds P) e (y.at s)

  pub Yields-pure : (a : A) → P a → Yields P (pure {S = S} a)
  Yields-pure a h = record { at = λ s. h }

  pub Yields-fail : (e : String) → Yields P (fail {S = S} e)
  Yields-fail e = record { at = λ s. tt }

  pub Yields-panicked : Yields P (panicked {S = S})
  Yields-panicked = record { at = λ s. tt }

  pub Yields-draw : (f : S → A × S) → ((s : S) → P (f s).0) → Yields P (draw f)
  Yields-draw f h = record { at = h }

  Holds-lift : (r : Outcome A) (s : S) → ((a : A) → r ≡ ok a → P a) → Holds P (lift r s)
  Holds-lift (ok a) s h = h a refl
  Holds-lift (err e) s h = tt
  Holds-lift panic s h = tt
  Holds-lift out_of_fuel s h = tt

  pub Yields-lift : (r : Outcome A) → ((a : A) → r ≡ ok a → P a) → Yields P (lift {S = S} r)
  Yields-lift r h = record { at = λ s. Holds-lift r s h }

  pub Yields-weaken :
      {Q : A → Type 0} {m : Gen S A} → Yields P m → ((a : A) → P a → Q a) → Yields Q m
  Yields-weaken {Q} {m} y h = record { at = λ s. Holds-weaken (m s) (y.at s) h }

  pub Yields-if :
      (b : Bool) (m n : Gen S A)
      → (b ≡ true → Yields P m)
      → (b ≡ false → Yields P n)
      → Yields P (if b then m else n)
  Yields-if true m n h k = h refl
  Yields-if false m n h k = k refl

module _ {S A B : Type 0} {P : A → Type 0} {Q : B → Type 0} where
  Holds-continue :
      (r : Outcome (A × S)) (f : A → Gen S B)
      → Holds P r
      → ((a : A) → P a → Yields Q (f a))
      → Holds Q (continue r f)
  Holds-continue (ok (a, s)) f h k = (k a h).at s
  Holds-continue (err e) f h k = tt
  Holds-continue panic f h k = tt
  Holds-continue out_of_fuel f h k = tt

  pub Yields-bind :
      (m : Gen S A) (f : A → Gen S B)
      → Yields P m
      → ((a : A) → P a → Yields Q (f a))
      → Yields Q (m >>= f)
  unfolding ◌>>=◌
  Yields-bind m f h k = record { at = λ s. Holds-continue (m s) f (h.at s) k }

module _ {S A : Type 0} {P : A → Type 0} (m : Gen S A) (h : Yields P m) where
  -- The list that a loop pushes has one item for each round, and all have the property.
  pub Yields-repeat : (n : ℕ) → Yields (λ l. (length l ≡ n) × All P l) (repeat n m)
  unfolding repeat
  Yields-repeat zero = Yields-pure [] (refl, tt)
  Yields-repeat (suc n) = Yields-bind m _ h λ a pa.
      Yields-bind (repeat n m) _ (Yields-repeat n)
        λ l pl. Yields-pure (a ∷ l) (ap suc pl.0, (pa, pl.1))

below_of_pred : (n i : ℕ) → eqb n 0 ≡ false → i ≤ n - 1 → i < n
below_of_pred n i e h = ground arith

module _ (R : Random) (law : IsLawful R) where
  pub Yields-random_range : (lo hi : ℕ) → Yields (λ n. (lo ≤ n) × (n ≤ hi)) (random_range R lo hi)
  unfolding random_range
  Yields-random_range lo hi =
      Yields-if (leb lo hi) _ _
        (λ e. Yields-draw (R.range lo hi) (λ s. law.range_bounds lo hi s (leb→le lo hi e)))
        (λ e. Yields-panicked)

  pub Yields-random_below : (n : ℕ) → Yields (λ i. i < n) (random_below R n)
  unfolding random_below
  Yields-random_below n =
      Yields-if (eqb n 0) _ _ (λ e. Yields-panicked)
        λ e.
          Yields-draw (R.range 0 (n - 1))
            λ s. below_of_pred n _ e (law.range_bounds 0 (n - 1) s (omega arith)).1

  pub Yields-random_int :
      (lo hi : ℤ) → Yields (λ n. (leb_ℤ lo n ≡ true) × (leb_ℤ n hi ≡ true)) (random_int R lo hi)
  unfolding random_int
  Yields-random_int lo hi =
      Yields-if (leb_ℤ lo hi) _ _
        (λ e. Yields-draw (R.int_range lo hi) (λ s. law.int_range_bounds lo hi s e))
        (λ e. Yields-panicked)

-- `choose` returns one of the items.
pub Yields-choose :
    (R : Random) {A : Type 0} {P : A → Type 0} (l : List A)
    → All P l
    → Yields (λ o. (a : A) → o ≡ some a → P a) (choose R l)
unfolding choose
Yields-choose R [] h = Yields-pure none (λ a e. cc)
Yields-choose R {P} (x ∷ xs) h =
    Yields-bind _ _ (Yields-draw {P = λ _. Unit {0}} (R.choose (length (x ∷ xs))) (λ s. tt))
      λ i _. Yields-pure (get_elem? (x ∷ xs) i) (λ a e. All-get_elem? P (x ∷ xs) i h e)

-- What a caught computation returns, or the error that it ended in.
abbrev pub Caught : {S A : Type 0} → Gen S A → (A → Type 0) → String ⊎ A → Type 0
Caught {S} m P (inl e) = (s : S) × (m s ≡ err e)
Caught m P (inr a) = P a

pub Yields-attempt :
    (R : Random) {A : Type 0} {P : A → Type 0} (m : Gen R.State A)
    → Yields P m
    → Yields (Caught m P) (attempt R m)
unfolding attempt
Yields-attempt R {A} {P} m h = record { at = λ s. Holds-caught s (m s) refl (h.at s) }
  where
    Holds-caught :
        (s : R.State) (r : Outcome (A × R.State))
        → m s ≡ r
        → Holds P r
        → Holds (Caught m P) (caught R s r)
    Holds-caught s (ok (a, s')) e h = h
    Holds-caught s (err message) e h = (s, e)
    Holds-caught s panic e h = tt
    Holds-caught s out_of_fuel e h = tt
