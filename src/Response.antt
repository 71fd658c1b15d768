-- ===== src/Response.antt =====
-- `generate_response` of src/handle/graphql.rs: the JSON that answers an operation, with the errors
-- that the configuration asks for.
pub mod Spec
pub mod Drops
pub mod Conforms
pub mod Returns
use subgraph_mock.Base.{
  ℕ, String, Bool, true, false, not, Option, none, some, List, [], ◌∷◌, map, Dict, keys, contains,
  length, Outcome, if◌then◌else◌,
}
use subgraph_mock.Base
use subgraph_mock.Json
use subgraph_mock.Json.{Json, array_of, object_of}
use subgraph_mock.Schema.{FederatedSchema}
use subgraph_mock.Document.{Operation, Document}
use subgraph_mock.Random.{Random, Gen, pure, draw, lift, ◌>>=◌, random_ratio, random_range}
use subgraph_mock.Generation.{Ratio, ResponseGenerationConfig}
use subgraph_mock.Builder.{build_selection_set}

-- What `apollo_compiler` does with a valid document: `operations.get`, `is_introspection`,
-- `coerce_variable_values` and `partial_execute`, whose result is converted to a JSON value.
pub record Executor : Type 0 where
  pub get_operation : Document → Option String → Option Operation
  pub is_introspection : Document → Operation → Bool
  pub coerce_variable_values : FederatedSchema → Operation → Dict Json → Outcome (Dict Json)
  pub partial_execute : FederatedSchema → Document → Operation → Dict Json → Outcome Json

abbrev pub no_data : Json
no_data = object_of (("data", Json.null) ∷ [])

abbrev pub request_error : Json
request_error = object_of (
    ("data", Json.null)
    ∷ (
      "errors",
      array_of (object_of (("message", Json.string "Request error simulated") ∷ []) ∷ []),
    )
    ∷ [])

abbrev pub field_error : String → Json
field_error key = object_of (
    ("message", Json.string "Field error simulated")
    ∷ ("path", array_of (Json.string key ∷ []))
    ∷ [])

abbrev pub data_response : Dict Json → Json
data_response values = object_of (("data", object_of values) ∷ [])

abbrev pub partial_response : Dict Json → List String → Json
partial_response values failed =
    object_of (("data", object_of values) ∷ ("errors", array_of (map field_error failed)) ∷ [])

-- `HashSet::from_iter`: of items that are equal one is kept.
unfoldable pub to_set : List String → List String
to_set [] = []
to_set (k ∷ ks) = let rest = to_set ks in if contains rest k then rest else k ∷ rest

-- `data.retain(|key, _| !to_drop.contains(key))`
unfoldable pub drop_keys {ℓ} : {V : Type ℓ} → List String → Dict V → Dict V
drop_keys to_drop [] = []
drop_keys to_drop ((key, v) ∷ values) =
    let rest = drop_keys to_drop values in if contains to_drop key then rest else (key, v) ∷ rest

-- The response to an operation that is introspection only.
abbrev pub introspect : Executor → FederatedSchema → Document → Operation → Dict Json → Outcome Json
introspect exec schema doc op variables =
    Base.◌>>=◌ (exec.coerce_variable_values schema op variables)
      (exec.partial_execute schema doc op)

module _ (R : Random) where
  -- `if let Some((numerator, denominator)) = ratio && rng.random_ratio(numerator, denominator)`
  unfoldable pub hits : Option Ratio → Gen R.State Bool
  hits none = pure false
  hits (some (numerator, denominator)) = random_ratio R numerator denominator

  -- Some of the top-level fields fail.
  unfoldable pub fail_fields : Dict Json → Gen R.State Json
  fail_fields values = do
    drop_count ← random_range R 1 (length values)
    sampled_keys ← draw (R.sample drop_count (keys values))
    failed ← draw (λ s. (R.set_order s (to_set sampled_keys), s))
    pure (partial_response (drop_keys (to_set sampled_keys) values) failed)

  module _ (exec : Executor) (cfg : ResponseGenerationConfig) (schema : FederatedSchema)
      (doc : Document) where
    module _ (spreads depth : ℕ) where
      unfoldable pub random_data : Operation → Gen R.State Json
      random_data op = do
        values ← build_selection_set R cfg schema doc spreads depth op.selections
        fails ← hits cfg.graphql_errors.field_error_ratio
        if fails then fail_fields values else pure (data_response values)

      unfoldable pub respond : Operation → Dict Json → Gen R.State Json
      respond op variables = do
        fails ← hits cfg.graphql_errors.request_error_ratio
        if fails
            then pure request_error
            else if exec.is_introspection doc op
            then lift (introspect exec schema doc op variables)
            else random_data op

      abbrev pub respond_to : Option Operation → Dict Json → Gen R.State Json
      respond_to none variables = pure no_data
      respond_to (some op) variables = respond op variables

      unfoldable pub generate_response : Option String → Dict Json → Gen R.State Json
      generate_response op_name variables = respond_to (exec.get_operation doc op_name) variables
