-- ===== src/Handler/Answers.antt =====
-- What `handle` of src/handle/graphql.rs may reply: its contract, with no caches but for what their
-- keys say, and with random numbers and fuel only where the generation of a response ended in an
-- error.
use subgraph_mock.Base.{ℕ, ◌≤◌, ◌≡◌, ◌≢◌, String, Option, some, inl, inr, err, List, unwrap_or}
use subgraph_mock.Json.{Json}
use subgraph_mock.Schema.{FederatedSchema}
use subgraph_mock.Document.{OperationType, Operation, Document}
use subgraph_mock.Http.{Response, plain}
use subgraph_mock.Generation.{Ratio, ResponseGenerationConfig}
use subgraph_mock.Config.Settings.{Config}
use subgraph_mock.Response.Spec.{IsResponse}
use subgraph_mock.Response.{generate_response}
use subgraph_mock.Headers.Chosen.{IsChosen}
use subgraph_mock.Headers.Added.{HasHeaders}
use subgraph_mock.Handler.{
  RawRequest, GraphQlRequest, Engine, invalid_query, bytes_or_default, first_operation,
}

-- A configuration that responses for the subgraph are generated by.
abbrev pub IsGenerationOf :
    (E : Engine) → Config E.H.HeaderMap → Option String → ResponseGenerationConfig → Type 0
IsGenerationOf E config subgraph_name =
    IsChosen subgraph_name config.subgraph_overrides.response_generation config.response_generation

-- `Asked` holds of the queries, the configurations and the texts of schemas that requests came with.
module _ (E : Engine) (Asked : String → ResponseGenerationConfig → String → Type 0) where
  -- The document of some request with this key.
  pub record IsDocument (key : ℕ) (doc : Document) : Type 0 where
    pub req : GraphQlRequest
    pub cfg : ResponseGenerationConfig
    pub schema : FederatedSchema
    pub asked : Asked req.query cfg schema.source
    pub keyed : E.hash req.query cfg schema.source ≡ key
    pub valid :
        E.parse_and_validate schema req.query (unwrap_or req.operation_name "unknown") ≡ inr doc

  -- The answer to some request with this key.
  pub data IsAnswer (key : ℕ) : String × ℕ → Type 0 where
    invalid :
        (req : GraphQlRequest) (cfg : ResponseGenerationConfig) (schema : FederatedSchema)
        (errs : List Json)
        → Asked req.query cfg schema.source
        → E.hash req.query cfg schema.source ≡ key
        → E.parse_and_validate schema req.query (unwrap_or req.operation_name "unknown") ≡ inl errs
        → IsAnswer key (bytes_or_default (E.to_vec (invalid_query errs)), 400)
    unsupported :
        (doc : Document) (op : Operation)
        → IsDocument key doc
        → first_operation doc ≡ some op
        → op.operation_type ≢ OperationType.query
        → IsAnswer key ("not implemented", 500)
    -- The generation of a response to some request with this key ended in an error.
    failed :
        (req : GraphQlRequest) (cfg : ResponseGenerationConfig) (schema : FederatedSchema)
        (doc : Document) (op : Operation) (spreads depth : ℕ) (s : E.R.State) (e : String)
        → Asked req.query cfg schema.source
        → E.hash req.query cfg schema.source ≡ key
        → IsDocument key doc
        → first_operation doc ≡ some op
        → op.operation_type ≡ OperationType.query
        → generate_response E.R E.exec cfg schema doc spreads depth op.name req.variables s ≡ err e
        → IsAnswer key ("unable to generate response", 500)
    answered :
        (req : GraphQlRequest) (cfg : ResponseGenerationConfig) (schema : FederatedSchema)
        (doc : Document) (op : Operation) (v : Json) (bytes : String)
        → Asked req.query cfg schema.source
        → E.hash req.query cfg schema.source ≡ key
        → IsDocument key doc
        → first_operation doc ≡ some op
        → op.operation_type ≡ OperationType.query
        → IsResponse E.exec cfg schema doc op.name req.variables v
        → E.to_vec v ≡ inr bytes
        → IsAnswer key (bytes, 200)
    unserialized :
        (req : GraphQlRequest) (cfg : ResponseGenerationConfig) (schema : FederatedSchema)
        (doc : Document) (op : Operation) (v : Json) (e : String)
        → Asked req.query cfg schema.source
        → E.hash req.query cfg schema.source ≡ key
        → IsDocument key doc
        → first_operation doc ≡ some op
        → op.operation_type ≡ OperationType.query
        → IsResponse E.exec cfg schema doc op.name req.variables v
        → E.to_vec v ≡ inl e
        → IsAnswer key (e, 500)

  module _ (config : Config E.H.HeaderMap) (schema : FederatedSchema) (body : String)
      (subgraph_name : Option String) where
    abbrev IsConfigured : ResponseGenerationConfig → Type 0
    IsConfigured cfg = IsGenerationOf E config subgraph_name cfg

    pub data IsReply : Response E.H.HeaderMap → Type 0 where
      bad_request : (e : String) → E.from_slice body ≡ inl e → IsReply (plain E.H 400 e)
      http_error :
          (raw : RawRequest) (cfg : ResponseGenerationConfig) (r : Ratio) (status : ℕ)
          → E.from_slice body ≡ inr raw
          → IsConfigured cfg
          → cfg.http_error_ratio ≡ some r
          → 500 ≤ status
          → status ≤ 504
          → IsReply (plain E.H status "")
      replied :
          (raw : RawRequest) (cfg : ResponseGenerationConfig) (answer : String × ℕ)
          (configured headers : E.H.HeaderMap)
          → E.from_slice body ≡ inr raw
          → IsConfigured cfg
          → IsAnswer (E.hash raw.query cfg schema.source) answer
          → IsChosen subgraph_name config.subgraph_overrides.headers config.headers configured
          → HasHeaders E.H cfg.header_ratio configured headers
          → IsReply (record { status = answer.1; headers = headers; body = answer.0 })
