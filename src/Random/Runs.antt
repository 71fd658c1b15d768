-- ===== src/Random/Runs.antt =====
-- Random computations that return, whatever is drawn: they neither fail, nor panic, nor run out of
-- fuel.
use subgraph_mock.Base.{
  ℕ, zero, suc, ◌-◌, ◌≤◌, ◌<◌, ◌≡◌, refl, arith, Bool, true, false, List, [], ◌∷◌, none, some,
  Outcome, ok, if◌then◌else◌, leb, eqb, ltb, leb_ℤ, ℤ, length, get_elem?-lt_length, ◌||◌,
}
use subgraph_mock.Random.{
  Random, IsLawful, Gen, pure, draw, lift, ◌>>=◌, repeat, random_ratio, random_range, random_below,
  random_int, choose,
}
use subgraph_mock.Random.Yields.{Yields, Yields-eq, Yields-any}

pub record Runs {S A : Type 0} (m : Gen S A) : Type 0 where
  pub at : (s : S) → (a : A) × (s' : S) × (m s ≡ ok (a, s'))

module _ {S A : Type 0} where
  pub Runs-pure : (a : A) → Runs (pure {S = S} a)
  Runs-pure a = record { at = λ s. (a, s, refl) }

  pub Runs-draw : (f : S → A × S) → Runs (draw f)
  Runs-draw f = record { at = λ s. ((f s).0, (f s).1, refl) }

  pub Runs-lift : (r : Outcome A) {a : A} → r ≡ ok a → Runs (lift {S = S} r)
  Runs-lift r {a} e = record { at = λ s. (a, s, rw e) }

  pub Runs-if :
      (b : Bool) (m n : Gen S A)
      → (b ≡ true → Runs m)
      → (b ≡ false → Runs n)
      → Runs (if b then m else n)
  Runs-if true m n h k = h refl
  Runs-if false m n h k = k refl

module _ {S A B : Type 0} {P : A → Type 0} where
  -- The rest may use what the first part yields.
  pub Runs-bind :
      (m : Gen S A) (f : A → Gen S B)
      → Runs m
      → Yields P m
      → ((a : A) → P a → Runs (f a))
      → Runs (m >>= f)
  unfolding ◌>>=◌
  Runs-bind m f h y k = record {
    at = λ s.
        let (a, s', e) = h.at s in
        let (b, s'', e') = (k a (Yields-eq {s = s} y e)).at s' in (b, s'', rw e e');
  }

pub Runs-repeat : {S A : Type 0} (m : Gen S A) → Runs m → (n : ℕ) → Runs (repeat n m)
unfolding repeat
Runs-repeat m h zero = Runs-pure []
Runs-repeat m h (suc n) =
    Runs-bind m _ h (Yields-any m)
      λ a _. Runs-bind (repeat n m) _ (Runs-repeat m h n) (Yields-any _) λ l _. Runs-pure (a ∷ l)

module _ (R : Random) where
  pub Runs-random_ratio : (n d : ℕ) → n ≤ d → 0 < d → Runs (random_ratio R n d)
  unfolding random_ratio
  Runs-random_ratio n d le pos =
      Runs-if (eqb d 0 || ltb d n) _ _ (λ e. absurd (ground arith)) (λ _. Runs-draw (R.ratio n d))

  pub Runs-random_range : (lo hi : ℕ) → lo ≤ hi → Runs (random_range R lo hi)
  unfolding random_range
  Runs-random_range lo hi le =
      Runs-if (leb lo hi) _ _ (λ _. Runs-draw (R.range lo hi)) (λ e. absurd (ground arith))

  pub Runs-random_below : (n : ℕ) → 0 < n → Runs (random_below R n)
  unfolding random_below
  Runs-random_below n pos =
      Runs-if (eqb n 0) _ _ (λ e. absurd (ground arith)) (λ _. Runs-draw (R.range 0 (n - 1)))

  pub Runs-random_int : (lo hi : ℤ) → leb_ℤ lo hi ≡ true → Runs (random_int R lo hi)
  unfolding random_int
  Runs-random_int lo hi le = rw le (Runs-draw (R.int_range lo hi))

  pub Runs-choose : {A : Type 0} (l : List A) → Runs (choose R l)
  unfolding choose ◌>>=◌
  Runs-choose [] = Runs-pure none
  Runs-choose (x ∷ xs) = record { at = λ s. (_, _, refl) }

-- Of a list that is not empty, `choose` picks an item.
pub Yields-choose_some :
    (R : Random) (law : IsLawful R) {A : Type 0} (l : List A)
    → 0 < length l
    → Yields (λ o. (a : A) × (o ≡ some a)) (choose R l)
unfolding choose ◌>>=◌
Yields-choose_some R law [] h = absurd (omega arith)
Yields-choose_some R law (x ∷ xs) h = record {
  at = λ s.
      get_elem?-lt_length (x ∷ xs) (R.choose (length (x ∷ xs)) s).0
        (law.choose_bounds (length (x ∷ xs)) s h);
}
