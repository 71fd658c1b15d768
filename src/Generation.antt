-- ===== src/Generation.antt =====
-- How responses are generated: `ResponseGenerationConfig`, its defaults and the scalar generators
-- of src/handle/graphql.rs. A `BTreeMap` is a map whose order the program does not observe.
pub mod Scalars
use Prim.Native.String.{[], ◌∷◌}
use mathlib.Core.List
use subgraph_mock.Base.{
  ℕ, zero, suc, ◌/◌, ◌%◌, ◌^◌, String, Bool, Option, none, some, Dict, extend, ℤ, pos, eqb, not,
  if◌then◌else◌, List,
}
use subgraph_mock.Json
use subgraph_mock.Json.{Json, Number}
use subgraph_mock.Random.{Random, Gen, pure, panicked, draw, ◌>>=◌, random_range, random_int}

-- `Ratio`: a numerator and a denominator.
abbrev pub Ratio : Type 0
Ratio = ℕ × ℕ

pub record GraphQlErrorConfig : Type 0 where
  pub request_error_ratio : Option Ratio
  pub field_error_ratio : Option Ratio

-- The bounds of a float are given by their 64 bits.
pub data ScalarGenerator : Type 0 where
  bool : ScalarGenerator
  float : (min max : ℕ) → ScalarGenerator
  int : (min max : ℤ) → ScalarGenerator
  string : (min_len max_len : ℕ) → ScalarGenerator

abbrev pub default_generator : ScalarGenerator
default_generator = ScalarGenerator.string 1 10

pub record ArraySize : Type 0 where
  pub min_length : ℕ
  pub max_length : ℕ

pub record ResponseGenerationConfig : Type 0 where
  pub scalars : Dict ScalarGenerator
  pub array : ArraySize
  pub null_ratio : Option Ratio
  pub header_ratio : Dict Ratio
  pub http_error_ratio : Option Ratio
  pub graphql_errors : GraphQlErrorConfig

-- -1.0 and 1.0
abbrev pub minus_one : ℕ
minus_one = 0xBFF0000000000000

abbrev pub plus_one : ℕ
plus_one = 0x3FF0000000000000

abbrev pub default_scalar_config : Dict ScalarGenerator
default_scalar_config =
    List.◌∷◌ ("Boolean", ScalarGenerator.bool)
      (List.◌∷◌ ("Int", ScalarGenerator.int (pos 0) (pos 100))
        (List.◌∷◌ ("ID", ScalarGenerator.int (pos 0) (pos 100))
          (List.◌∷◌ ("Float", ScalarGenerator.float minus_one plus_one)
            (List.◌∷◌ ("String", ScalarGenerator.string 1 10) List.[]))))

abbrev pub default_array_size : ArraySize
default_array_size = record { min_length = 0; max_length = 10 }

abbrev pub default_null_ratio : Option Ratio
default_null_ratio = some (1, 2)

abbrev pub default_error_config : GraphQlErrorConfig
default_error_config = record { request_error_ratio = none; field_error_ratio = none }

abbrev pub default_generation : ResponseGenerationConfig
default_generation = record {
  scalars = default_scalar_config;
  array = default_array_size;
  null_ratio = default_null_ratio;
  header_ratio = List.[];
  http_error_ratio = none;
  graphql_errors = default_error_config;
}

unfoldable pub merge_default_scalars : ResponseGenerationConfig → ResponseGenerationConfig
merge_default_scalars cfg = record cfg { scalars = extend default_scalar_config cfg.scalars }

-- Neither infinite nor a NaN: the exponent has a zero bit.
abbrev pub is_finite : ℕ → Bool
is_finite bits = not (eqb (bits / 2 ^ 52 % 2 ^ 11) 2047)

module _ (R : Random) where
  -- The loop that pushes alphanumeric characters.
  unfoldable pub random_chars : ℕ → Gen R.State String
  random_chars zero = pure []
  random_chars (suc n) = do c ← draw R.alphanumeric; rest ← random_chars n; pure (c ∷ rest)

  -- `ScalarGenerator::generate`
  unfoldable pub generate : ScalarGenerator → Gen R.State Json
  unfolding random_chars
  generate ScalarGenerator.bool = do b ← draw R.coin; pure (Json.bool b)
  generate (ScalarGenerator.int min max) = do
    n ← random_int R min max
    pure (Json.number (Number.int n))
  generate (ScalarGenerator.float min max) = do
    bits ← R.float_range min max
    if is_finite bits then pure (Json.number (Number.float bits)) else panicked
  generate (ScalarGenerator.string min_len max_len) = do
    len ← random_range R min_len max_len
    text ← random_chars len
    pure (Json.string text)
