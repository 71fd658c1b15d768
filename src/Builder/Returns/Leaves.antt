-- ===== src/Builder/Returns/Leaves.antt =====
-- Leaves and type names of src/handle/graphql.rs are generated without error or panic if the
-- configuration is usable and the types are inhabited.
use Prim.Native.String.{[], ◌∷◌}
use subgraph_mock.Base.{
  ℕ, zero, suc, ◌≤◌, ◌<◌, ◌≡◌, refl, true, String, Option, none, some, inl, inr, Option-cases, ok,
  ok_or, unwrap_or, lookup, length, get_elem?-lt_length, leb_ℤ,
}
use subgraph_mock.Json
use subgraph_mock.Json.{Number}
use subgraph_mock.Schema.{FederatedSchema, ExtendedType, UnionType}
use subgraph_mock.Random.{Random, IsLawful, ◌>>=◌}
use subgraph_mock.Random.Yields.{Yields-any, Yields-pure, Yields-random_below}
use subgraph_mock.Random.Runs.{
  Runs, Runs-pure, Runs-draw, Runs-lift, Runs-bind, Runs-repeat, Runs-random_ratio,
  Runs-random_range, Runs-random_below, Runs-random_int, Runs-choose, Yields-choose_some,
}
use subgraph_mock.Generation.{
  Ratio, ScalarGenerator, ResponseGenerationConfig, default_generator, is_finite, random_chars,
  generate,
}
use subgraph_mock.Builder.{
  values, union_type, null_by, should_be_null, arbitrary_array_len, arbitrary_union_member,
  leaf_of_type, leaf_field, array_leaf_field, typename_of, typename,
}
use subgraph_mock.Builder.Returns.Levels.{IsLeafType, IsInhabited}

-- A ratio that `random_ratio` accepts.
abbrev pub IsRatio : Option Ratio → Type 0
IsRatio none = Unit
IsRatio (some (numerator, denominator)) = (numerator ≤ denominator) × (0 < denominator)

-- Bounds in order; for floats, bounds at which `rand` returns a finite number.
abbrev pub IsGenerator : Random → ScalarGenerator → Type 0
IsGenerator R ScalarGenerator.bool = Unit
IsGenerator R (ScalarGenerator.int min max) = leb_ℤ min max ≡ true
IsGenerator R (ScalarGenerator.float min max) =
    (s : R.State)
    → (bits : ℕ) × (s' : R.State) × (R.float_range min max s ≡ ok (bits, s'))
      × (is_finite bits ≡ true)
IsGenerator R (ScalarGenerator.string min_len max_len) = min_len ≤ max_len

pub record IsUsable (R : Random) (cfg : ResponseGenerationConfig) : Type 0 where
  pub array_ordered : cfg.array.min_length ≤ cfg.array.max_length
  pub null_ratio_valid : IsRatio cfg.null_ratio
  pub generators :
      (name : String) → IsGenerator R (unwrap_or (lookup name cfg.scalars) default_generator)

Runs-random_chars : (R : Random) (n : ℕ) → Runs (random_chars R n)
unfolding random_chars
Runs-random_chars R zero = Runs-pure []
Runs-random_chars R (suc n) =
    Runs-bind _ _ (Runs-draw R.alphanumeric) (Yields-any _)
      λ c _. Runs-bind _ _ (Runs-random_chars R n) (Yields-any _) λ rest _. Runs-pure (c ∷ rest)

Runs-generate : (R : Random) (g : ScalarGenerator) → IsGenerator R g → Runs (generate R g)
unfolding generate
Runs-generate R ScalarGenerator.bool h =
    Runs-bind _ _ (Runs-draw R.coin) (Yields-any _) λ b _. Runs-pure _
Runs-generate R (ScalarGenerator.int min max) h =
    Runs-bind _ _ (Runs-random_int R min max h) (Yields-any _) λ n _. Runs-pure _
Runs-generate R (ScalarGenerator.float min max) h = record {
  at = λ s.
      let (bits, s', e, finite) = h s in
      (Json.number (Number.float bits), s', unfold ◌>>=◌ in rw (e, finite) refl);
}
Runs-generate R (ScalarGenerator.string min_len max_len) h =
    Runs-bind _ _ (Runs-random_range R min_len max_len h) (Yields-any _)
      λ n _. Runs-bind _ _ (Runs-random_chars R n) (Yields-any _) λ t _. Runs-pure _

module _ (R : Random) (law : IsLawful R) (cfg : ResponseGenerationConfig) (usable : IsUsable R cfg)
    (schema : FederatedSchema) where
  Runs-null_by : (o : Option Ratio) → IsRatio o → Runs (null_by R cfg schema o)
  Runs-null_by none h = Runs-pure _
  Runs-null_by (some (n, d)) h = Runs-random_ratio R n d h.0 h.1

  pub Runs-should_be_null : Runs (should_be_null R cfg schema)
  unfolding should_be_null
  Runs-should_be_null = Runs-null_by cfg.null_ratio usable.null_ratio_valid

  pub Runs-arbitrary_array_len : Runs (arbitrary_array_len R cfg schema)
  unfolding arbitrary_array_len
  Runs-arbitrary_array_len = Runs-random_range R _ _ usable.array_ordered

  Runs-leaf_of_type :
      (type_name : String) (t : ExtendedType)
      → IsLeafType (some t)
      → Runs (leaf_of_type R cfg schema type_name t)
  unfolding leaf_of_type
  Runs-leaf_of_type type_name (ExtendedType.scalar s) h =
      Runs-generate R _ (usable.generators s.name)
  Runs-leaf_of_type type_name (ExtendedType.enum e) h =
      Runs-bind _ _ (Runs-choose R (values e.values)) (Yields-choose_some R law (values e.values) h)
        λ chosen found.
          Runs-bind _ _ (Runs-lift (ok_or chosen _) {a = found.0} (rw found.1)) (Yields-any _)
            λ d _. Runs-pure _
  Runs-leaf_of_type type_name _ h = absurd h

  pub Runs-leaf_field :
      (type_name : String)
      → IsLeafType (lookup type_name schema.valid.types)
      → Runs (leaf_field R cfg schema type_name)
  unfolding leaf_field
  Runs-leaf_field type_name h = elim (Option-cases (lookup type_name schema.valid.types)) [
    | inl absent ↦ absurd (rw absent at h)
    | inr (t, found) ↦ rw found (
        Runs-bind _ _ (Runs-pure t) (Yields-pure {P = λ u. u ≡ t} t refl)
          (λ u e. rw e (Runs-leaf_of_type type_name t (rw found at h))))
  ]

  pub Runs-array_leaf_field :
      (type_name : String)
      → IsLeafType (lookup type_name schema.valid.types)
      → Runs (array_leaf_field R cfg schema type_name)
  unfolding array_leaf_field
  Runs-array_leaf_field type_name h = Runs-bind _ _ Runs-arbitrary_array_len (Yields-any _) λ n _.
      Runs-bind _ _ (Runs-repeat _ (Runs-leaf_field type_name h) n) (Yields-any _)
        λ vs _. Runs-pure _

  Runs-arbitrary_union_member :
      (u : UnionType) → 0 < length u.members → Runs (arbitrary_union_member R cfg schema u)
  unfolding arbitrary_union_member
  Runs-arbitrary_union_member u h =
      Runs-bind _ _ (Runs-random_below R _ h) (Yields-random_below R law (length u.members))
        λ i lt. let (n, e) = get_elem?-lt_length u.members i lt in Runs-lift _ {a = n} (rw e)

  Runs-typename_of :
      (type_name : String) (u : Option UnionType)
      → IsInhabited u
      → Runs (typename_of R cfg schema type_name u)
  Runs-typename_of type_name none h = Runs-pure _
  Runs-typename_of type_name (some u) h =
      Runs-bind _ _ (Runs-arbitrary_union_member u h) (Yields-any _) λ n _. Runs-pure _

  pub Runs-typename :
      (type_name : String)
      → IsInhabited (union_type schema type_name)
      → Runs (typename R cfg schema type_name)
  unfolding typename
  Runs-typename type_name h = Runs-typename_of type_name (union_type schema type_name) h
