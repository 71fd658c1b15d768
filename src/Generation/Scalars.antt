-- ===== src/Generation/Scalars.antt =====
-- What the scalar generators of src/handle/graphql.rs return, and which generators a configuration
-- has once the defaults are merged in.
use Prim.Native.String.{[], ◌∷◌}
use subgraph_mock.Base.{
  ℕ, zero, suc, ◌≤◌, String, ◌≡◌, refl, ap, true, leb_ℤ, ℤ, lookup, NodupKeys, or_else,
  lookup-extend, Bool, leb_f64,
}
use subgraph_mock.Json.{Json, Number}
use subgraph_mock.Random.{Random, IsLawful}
use subgraph_mock.Random.Yields.{
  Yields, Yields-pure, Yields-bind, Yields-draw, Yields-of, Yields-if, Yields-panicked,
  Yields-random_range, Yields-random_int,
}
use subgraph_mock.Generation.{
  ScalarGenerator, ResponseGenerationConfig, default_scalar_config, merge_default_scalars,
  is_finite, random_chars, generate,
}

-- How many characters a text has.
abbrev pub text_length : String → ℕ
text_length [] = 0
text_length (c ∷ s) = suc (text_length s)

-- The values that a generator may produce: its type, within its bounds.
abbrev pub InRange : ScalarGenerator → Json → Type 0
InRange ScalarGenerator.bool v = (b : Bool) × (v ≡ Json.bool b)
InRange (ScalarGenerator.int min max) v =
    (n : ℤ) × (v ≡ Json.number (Number.int n)) × (leb_ℤ min n ≡ true) × (leb_ℤ n max ≡ true)
InRange (ScalarGenerator.float min max) v =
    (bits : ℕ) × (v ≡ Json.number (Number.float bits))
    × (is_finite bits ≡ true)
    × (leb_f64 min bits ≡ true)
    × (leb_f64 bits max ≡ true)
InRange (ScalarGenerator.string min_len max_len) v =
    (text : String) × (v ≡ Json.string text)
    × (min_len ≤ text_length text)
    × (text_length text ≤ max_len)

module _ (R : Random) (law : IsLawful R) where
  random_chars-length : (n : ℕ) → Yields (λ t. text_length t ≡ n) (random_chars R n)
  unfolding random_chars
  random_chars-length zero = Yields-pure [] refl
  random_chars-length (suc n) =
      Yields-bind _ _ (Yields-draw {P = λ _. Unit {0}} R.alphanumeric (λ s. tt))
        λ c _. Yields-bind _ _ (random_chars-length n) λ t e. Yields-pure (c ∷ t) (ap suc e)

  -- With draws in the ranges asked for, every value that a generator returns is of its type and
  -- within its bounds: a text's length, an integer's value and a float's, which is finite as well.
  pub generate-InRange : (g : ScalarGenerator) → Yields (InRange g) (generate R g)
  unfolding generate
  generate-InRange ScalarGenerator.bool =
      Yields-bind _ _ (Yields-draw {P = λ _. Unit {0}} R.coin (λ s. tt))
        λ b _. Yields-pure (Json.bool b) (b, refl)
  generate-InRange (ScalarGenerator.int min max) =
      Yields-bind _ _ (Yields-random_int R law min max)
        λ n h. Yields-pure (Json.number (Number.int n)) (n, refl, h.0, h.1)
  generate-InRange (ScalarGenerator.float min max) =
      Yields-bind _ _
        (Yields-of (R.float_range min max) λ s bits s' e. law.float_range_bounds min max s e)
        λ bits h.
          Yields-if (is_finite bits) _ _
            (λ e. Yields-pure (Json.number (Number.float bits)) (bits, refl, e, h.0, h.1))
            (λ e. Yields-panicked)
  generate-InRange (ScalarGenerator.string min_len max_len) =
      Yields-bind _ _ (Yields-random_range R law min_len max_len) λ len h.
        Yields-bind _ _ (random_chars-length len)
          λ t e. Yields-pure (Json.string t) (t, refl, rw e h.0, rw e h.1)

-- After the defaults are merged in, a scalar has the generator that the configuration gives it, and
-- otherwise its default, if it is a built-in scalar. The rest of the configuration is unchanged.
pub merge_default_scalars_lem :
    (cfg : ResponseGenerationConfig) (name : String)
    → NodupKeys cfg.scalars
    → (lookup name (merge_default_scalars cfg).scalars
        ≡ or_else (lookup name cfg.scalars) (lookup name default_scalar_config))
      × (merge_default_scalars cfg ≡ record cfg { scalars = (merge_default_scalars cfg).scalars })
unfolding merge_default_scalars
merge_default_scalars_lem cfg name h =
    (lookup-extend name default_scalar_config cfg.scalars h, refl)
