-- ===== src/Random.antt =====
-- Randomness and the computations that use it. The `rand` crate and the seeds of hash maps are an
-- environment that the model does not define; its state is passed along.
pub mod Yields
pub mod Runs
pub mod Keeps
pub mod Completes
use Prim.Native.Char.{Char}
use subgraph_mock.Base.{
  ℕ, zero, suc, ◌-◌, ◌≤◌, ◌<◌, ◌≡◌, Bool, true, false, List, [], ◌∷◌, Option, none, some, Outcome,
  ok, err, panic, out_of_fuel, leb, eqb, if◌then◌else◌, ℤ, ◌≤ℤ◌, leb_ℤ, leb_f64, length, get_elem?,
  ◌||◌, String, ltb, Distinct, contains, ◌⊎◌, inl, inr,
}
use subgraph_mock.Document.{Field}
use subgraph_mock.Collect.{Groups}
use subgraph_mock.Collect.Grouping.{IsIteration}

pub record Random : Type 1 where
  pub State : Type 0
  -- `random_ratio(numerator, denominator)`, `random_range(lo..=hi)` and `random_bool(0.5)`, where
  -- their arguments do not make them panic.
  pub ratio : ℕ → ℕ → State → Bool × State
  pub range : ℕ → ℕ → State → ℕ × State
  pub int_range : ℤ → ℤ → State → ℤ × State
  pub coin : State → Bool × State
  -- `random_range` on floats, given by their bits; it may panic.
  pub float_range : ℕ → ℕ → State → Outcome (ℕ × State)
  -- `sample(Alphanumeric) as char`
  pub alphanumeric : State → Char × State
  -- The index that `IteratorRandom::choose` picks of so many items.
  pub choose : ℕ → State → ℕ × State
  -- The items that `IteratorRandom::sample` picks, at most so many.
  pub sample : ℕ → List String → State → List String × State
  -- The orders in which a hash set and a hash map are iterated over.
  pub set_order : State → List String → List String
  pub iteration : State → Groups → List (String × List Field)
  -- The state in which a computation that began in this state and failed has left the environment.
  pub resume : State → State

-- A selection of `n` different items of a list.
pub record IsSample (n : ℕ) (items picked : List String) : Type 0 where
  pub distinct : Distinct picked
  pub within : (k : String) → contains picked k ≡ true → contains items k ≡ true
  pub size : length picked ≡ n

-- The same items in some order.
pub record IsOrder (items ordered : List String) : Type 0 where
  pub distinct : Distinct ordered
  pub same : (k : String) → contains ordered k ≡ contains items k
  pub size : length ordered ≡ length items

-- What the documentation of `rand` and of `HashMap` promises.
pub record IsLawful (R : Random) : Type 0 where
  pub range_bounds :
      (lo hi : ℕ) (s : R.State) → lo ≤ hi → (lo ≤ (R.range lo hi s).0) × ((R.range lo hi s).0 ≤ hi)
  pub int_range_bounds :
      (lo hi : ℤ) (s : R.State)
      → leb_ℤ lo hi ≡ true
      → (leb_ℤ lo (R.int_range lo hi s).0 ≡ true) × (leb_ℤ (R.int_range lo hi s).0 hi ≡ true)
  pub float_range_bounds :
      (lo hi : ℕ) (s : R.State) {bits : ℕ} {s' : R.State}
      → R.float_range lo hi s ≡ ok (bits, s')
      → (leb_f64 lo bits ≡ true) × (leb_f64 bits hi ≡ true)
  pub choose_bounds : (n : ℕ) (s : R.State) → 0 < n → (R.choose n s).0 < n
  pub sample_lem :
      (n : ℕ) (items : List String) (s : R.State)
      → Distinct items
      → n ≤ length items
      → IsSample n items (R.sample n items s).0
  pub set_order_lem :
      (s : R.State) (items : List String) → Distinct items → IsOrder items (R.set_order s items)
  pub iteration_lem : (s : R.State) → IsIteration (R.iteration s)

-- A computation that draws random values: it ends as Rust code does, and returns the new state.
abbrev pub Gen : Type 0 → Type 0 → Type 0
Gen S A = S → Outcome (A × S)

abbrev pub pure : {S A : Type 0} → A → Gen S A
pure a s = ok (a, s)

abbrev pub fail : {S A : Type 0} → String → Gen S A
fail e s = err e

abbrev pub panicked : {S A : Type 0} → Gen S A
panicked s = panic

abbrev pub draw : {S A : Type 0} → (S → A × S) → Gen S A
draw f s = ok (f s)

abbrev pub lift : {S A : Type 0} → Outcome A → Gen S A
lift (ok a) s = ok (a, s)
lift (err e) s = err e
lift panic s = panic
lift out_of_fuel s = out_of_fuel

abbrev pub continue : {S A B : Type 0} → Outcome (A × S) → (A → Gen S B) → Outcome (B × S)
continue (ok (a, s)) f = f a s
continue (err e) f = err e
continue panic f = panic
continue out_of_fuel f = out_of_fuel

infixl 5 ◌>>=◌
unfoldable pub ◌>>=◌ : {S A B : Type 0} → Gen S A → (A → Gen S B) → Gen S B
◌>>=◌ m f s = continue (m s) f

-- `n` rounds of a loop that pushes a value.
unfoldable pub repeat : {S A : Type 0} → ℕ → Gen S A → Gen S (List A)
repeat zero m = pure []
repeat (suc n) m = do a ← m; rest ← repeat n m; pure (a ∷ rest)

module _ (R : Random) where
  abbrev caught : {A : Type 0} → R.State → Outcome (A × R.State) → Outcome ((String ⊎ A) × R.State)
  caught s (ok (a, s')) = ok (inr a, s')
  caught s (err e) = ok (inl e, R.resume s)
  caught s panic = panic
  caught s out_of_fuel = out_of_fuel

  -- A `match` on the `Result` of a computation: its error, or what it returns.
  unfoldable pub attempt : {A : Type 0} → Gen R.State A → Gen R.State (String ⊎ A)
  attempt m s = caught s (m s)

  -- It panics if the denominator is 0 or less than the numerator.
  unfoldable pub random_ratio : ℕ → ℕ → Gen R.State Bool
  random_ratio numerator denominator =
      if eqb denominator 0 || ltb denominator numerator
      then panicked
      else draw (R.ratio numerator denominator)

  -- `random_range(lo..=hi)` panics if the range is empty.
  unfoldable pub random_range : ℕ → ℕ → Gen R.State ℕ
  random_range lo hi = if leb lo hi then draw (R.range lo hi) else panicked

  -- `random_range(0..n)` panics if `n` is 0.
  unfoldable pub random_below : ℕ → Gen R.State ℕ
  random_below n = if eqb n 0 then panicked else draw (R.range 0 (n - 1))

  unfoldable pub random_int : ℤ → ℤ → Gen R.State ℤ
  random_int lo hi = if leb_ℤ lo hi then draw (R.int_range lo hi) else panicked

  -- `IteratorRandom::choose`: `None` if there are no items.
  unfoldable pub choose : {A : Type 0} → List A → Gen R.State (Option A)
  choose [] = pure none
  choose (x ∷ xs) = do index ← draw (R.choose (length (x ∷ xs))); pure (get_elem? (x ∷ xs) index)
