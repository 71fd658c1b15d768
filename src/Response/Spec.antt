-- ===== src/Response/Spec.antt =====
-- What `generate_response` of src/handle/graphql.rs may answer: its contract, with no random numbers
-- and no fuel.
use subgraph_mock.Base.{
  ◌<◌, ◌≡◌, true, false, String, Option, none, some, List, Dict, lookup, keys, contains, Distinct,
  NodupKeys, length, ok, if◌then◌else◌,
}
use subgraph_mock.Json.{Json}
use subgraph_mock.Schema.{FederatedSchema}
use subgraph_mock.Document.{Operation, Document}
use subgraph_mock.Generation.{Ratio, ResponseGenerationConfig}
use subgraph_mock.Builder.Spec.{ObjectOk}
use subgraph_mock.Response.{
  Executor, no_data, request_error, data_response, partial_response, introspect,
}

-- Of the fields of an object some fail, and the others are kept as they are: each key is either
-- under `kept` or among the failed ones, which are listed once each.
pub record Splits (values kept : Dict Json) (failed : List String) : Type 0 where
  pub distinct : Distinct failed
  pub some_fail : 0 < length failed
  pub are_keys : (k : String) → contains failed k ≡ true → contains (keys values) k ≡ true
  pub kept_distinct : NodupKeys kept
  pub kept_values :
      (k : String) → lookup k kept ≡ (if contains failed k then none else lookup k values)

module _ (exec : Executor) (cfg : ResponseGenerationConfig) (schema : FederatedSchema)
    (doc : Document) (op_name : Option String) (variables : Dict Json) where
  pub data IsResponse : Json → Type 0 where
    no_operation : exec.get_operation doc op_name ≡ none → IsResponse no_data
    request_failed :
        (op : Operation) (r : Ratio)
        → exec.get_operation doc op_name ≡ some op
        → cfg.graphql_errors.request_error_ratio ≡ some r
        → IsResponse request_error
    introspected :
        (op : Operation) {v : Json}
        → exec.get_operation doc op_name ≡ some op
        → exec.is_introspection doc op ≡ true
        → introspect exec schema doc op variables ≡ ok v
        → IsResponse v
    complete :
        (op : Operation) (d : Dict Json)
        → exec.get_operation doc op_name ≡ some op
        → exec.is_introspection doc op ≡ false
        → ObjectOk cfg schema doc op.selections d
        → IsResponse (data_response d)
    partly_failed :
        (op : Operation) (r : Ratio) (d kept : Dict Json) (failed : List String)
        → exec.get_operation doc op_name ≡ some op
        → exec.is_introspection doc op ≡ false
        → cfg.graphql_errors.field_error_ratio ≡ some r
        → ObjectOk cfg schema doc op.selections d
        → Splits d kept failed
        → IsResponse (partial_response kept failed)
