-- ===== src/Handler.antt =====
-- The handling of a GraphQL request: `handle` of src/handle/graphql.rs with the functions that it
-- calls. Requests are handled one after the other; log messages are left out.
pub mod Answers
mod Draws
pub mod Caches
pub mod Sound
pub mod Replay
pub mod Served
pub mod Returns
pub mod Own
use subgraph_mock.Base.{
  ℕ, String, Bool, true, false, Option, none, some, ◌⊎◌, inl, inr, List, [], ◌∷◌, Dict, Outcome, ok,
  err, panic, out_of_fuel, unwrap_or, if◌then◌else◌,
}
use subgraph_mock.Json
use subgraph_mock.Json.{Json, array_of, object_of}
use subgraph_mock.Schema.{FederatedSchema}
use subgraph_mock.Document.{OperationType, Operation, Document}
use subgraph_mock.Http.{HeaderOps, Response, plain}
use subgraph_mock.Random.{Random, Gen, pure, panicked, ◌>>=◌, attempt, random_range}
use subgraph_mock.Generation.{Ratio, ResponseGenerationConfig}
use subgraph_mock.Config.Settings.{Config}
use subgraph_mock.Response.{Executor, hits, generate_response}
use subgraph_mock.Headers.{setting_of, add_headers}
use subgraph_mock.Memo.{CacheOps}

-- A request as it stands in the body: `variables` may be missing or null.
pub record RawRequest : Type 0 where
  pub query : String
  pub operation_name : Option String
  pub variables : Option (Option (Dict Json))

-- `GraphQLRequest`
pub record GraphQlRequest : Type 0 where
  pub query : String
  pub operation_name : Option String
  pub variables : Dict Json

abbrev pub null_or_missing_as_default : Option (Option (Dict Json)) → Dict Json
null_or_missing_as_default none = []
null_or_missing_as_default (some deserialized) = unwrap_or deserialized []

abbrev pub request_of : RawRequest → GraphQlRequest
request_of raw = record {
  query = raw.query;
  operation_name = raw.operation_name;
  variables = null_or_missing_as_default raw.variables;
}

-- What the handler calls of other crates. A body is its text.
pub record Engine : Type 1 where
  pub R : Random
  pub exec : Executor
  pub H : HeaderOps
  pub responses : CacheOps (String × ℕ)
  pub documents : CacheOps Document
  -- `serde_json::from_slice`, with the message of its error.
  pub from_slice : String → String ⊎ RawRequest
  -- `ExecutableDocument::parse_and_validate`, with its errors as JSON.
  pub parse_and_validate : FederatedSchema → String → String → List Json ⊎ Document
  -- `serde_json::to_vec`, with the message of its error.
  pub to_vec : Json → String ⊎ String
  -- The hash of a query, a configuration and the text of a schema.
  pub hash : String → ResponseGenerationConfig → String → ℕ

-- The environment that draws random values, and the two caches.
pub record World (E : Engine) : Type 0 where
  pub random : E.R.State
  pub responses : E.responses.Cache
  pub documents : E.documents.Cache

abbrev pub invalid_query : List Json → Json
invalid_query errs = object_of (("data", Json.null) ∷ ("errors", array_of errs) ∷ [])

-- `unwrap_or_default`
abbrev pub bytes_or_default : String ⊎ String → String
bytes_or_default (inl e) = ""
bytes_or_default (inr bytes) = bytes

abbrev pub first_operation : Document → Option Operation
first_operation doc = elim doc.operations [ [] ↦ none | op ∷ ops ↦ some op ]

abbrev pub is_query : OperationType → Bool
is_query OperationType.query = true
is_query _ = false

-- The last step of a response: it is serialized.
abbrev pub serialized : String ⊎ String → String × ℕ
serialized (inr bytes) = (bytes, 200)
serialized (inl e) = (e, 500)

module _ (E : Engine) where
  abbrev pub Handling : Type 0 → Type 0
  Handling A = Gen (World E) A

  abbrev with_random : {A : Type 0} → World E → Outcome (A × E.R.State) → Outcome (A × World E)
  with_random w (ok (a, s)) = ok (a, record w { random = s })
  with_random w (err e) = err e
  with_random w panic = panic
  with_random w out_of_fuel = out_of_fuel

  -- A computation that only draws random values.
  unfoldable pub drawn : {A : Type 0} → Gen E.R.State A → Handling A
  drawn m w = with_random w (m w.random)

  abbrev keep_document :
      ℕ → World E → List Json ⊎ Document → Outcome ((List Json ⊎ Document) × World E)
  keep_document key w (inl errs) = ok (inl errs, w)
  keep_document key w (inr doc) =
      ok (inr doc, record w { documents = E.documents.set key doc w.documents })

  abbrev parse_unless :
      Option Document → GraphQlRequest → FederatedSchema → ℕ → Handling (List Json ⊎ Document)
  parse_unless (some doc) req schema cache_hash w = ok (inr doc, w)
  parse_unless none req schema cache_hash w =
      keep_document cache_hash w
        (E.parse_and_validate schema req.query (unwrap_or req.operation_name "unknown"))

  -- `parse_and_validate` is cached where it succeeds.
  unfoldable pub parse_and_validate :
      GraphQlRequest → FederatedSchema → ℕ → Handling (List Json ⊎ Document)
  parse_and_validate req schema cache_hash w =
      parse_unless (E.documents.get cache_hash w.documents) req schema cache_hash w

  abbrev pub generated : String ⊎ Json → String × ℕ
  generated (inl e) = ("unable to generate response", 500)
  generated (inr resp) = serialized (E.to_vec resp)

  abbrev keep_response : ℕ → String × ℕ → Handling (String × ℕ)
  keep_response key answer w =
      ok (answer, record w { responses = E.responses.set key answer w.responses })

  abbrev pub rgen_cfg_of : Config E.H.HeaderMap → Option String → ResponseGenerationConfig
  rgen_cfg_of config subgraph_name =
      setting_of subgraph_name config.subgraph_overrides.response_generation
        config.response_generation

  abbrev pub caches : Config E.H.HeaderMap → Option String → Bool
  caches config subgraph_name =
      setting_of subgraph_name config.subgraph_overrides.cache_responses config.cache_responses

  abbrev pub hash_of : GraphQlRequest → ResponseGenerationConfig → FederatedSchema → ℕ
  hash_of req cfg schema = E.hash req.query cfg schema.source

  -- An answer with the configured headers.
  unfoldable pub with_headers :
      Config E.H.HeaderMap
      → ResponseGenerationConfig
      → Option String
      → String × ℕ
      → Handling (Response E.H.HeaderMap)
  with_headers config rgen_cfg subgraph_name (bytes, status) = do
    headers ← drawn (add_headers E.R E.H config rgen_cfg subgraph_name E.H.empty)
    pure (record { status = status; headers = headers; body = bytes })

  module _ (spreads depth : ℕ) where
    -- The response to the first operation of a document.
    unfoldable pub answer_operation :
        ResponseGenerationConfig
        → GraphQlRequest
        → FederatedSchema
        → Document
        → Option Operation
        → Handling (String × ℕ)
    answer_operation cfg req schema doc none = panicked
    answer_operation cfg req schema doc (some op) =
        if is_query op.operation_type
        then (do
          resp ← drawn (
              attempt E.R
                (generate_response E.R E.exec cfg schema doc spreads depth op.name req.variables))
          pure (generated resp))
        else pure ("not implemented", 500)

    abbrev pub answer_document :
        ResponseGenerationConfig
        → GraphQlRequest
        → FederatedSchema
        → List Json ⊎ Document
        → Handling (String × ℕ)
    answer_document cfg req schema (inl errs) =
        pure (bytes_or_default (E.to_vec (invalid_query errs)), 400)
    answer_document cfg req schema (inr doc) =
        answer_operation cfg req schema doc (first_operation doc)

    -- `into_response_bytes_and_status_code_no_cache`, the function without the cache around it.
    unfoldable pub into_response_no_cache :
        ResponseGenerationConfig → GraphQlRequest → FederatedSchema → ℕ → Handling (String × ℕ)
    into_response_no_cache cfg req schema cache_hash = do
      doc ← parse_and_validate req schema cache_hash
      answer_document cfg req schema doc

    abbrev respond_unless :
        Option (String × ℕ)
        → ResponseGenerationConfig
        → GraphQlRequest
        → FederatedSchema
        → ℕ
        → Handling (String × ℕ)
    respond_unless (some answer) cfg req schema cache_hash = pure answer
    respond_unless none cfg req schema cache_hash = do
      answer ← into_response_no_cache cfg req schema cache_hash
      keep_response cache_hash answer

    -- `into_response_bytes_and_status_code`, which is cached whatever it returns.
    unfoldable pub into_response :
        ResponseGenerationConfig → GraphQlRequest → FederatedSchema → ℕ → Handling (String × ℕ)
    into_response cfg req schema cache_hash w =
        respond_unless (E.responses.get cache_hash w.responses) cfg req schema cache_hash w

    -- The handling of a request that was read from the body.
    unfoldable pub handle_request :
        Config E.H.HeaderMap
        → FederatedSchema
        → Option String
        → GraphQlRequest
        → Handling (Response E.H.HeaderMap)
    handle_request config schema subgraph_name req = do
      fails ← drawn (hits E.R (rgen_cfg_of config subgraph_name).http_error_ratio)
      if fails
          then (do status ← drawn (random_range E.R 500 504); pure (plain E.H status ""))
          else do
            answer ←
                if caches config subgraph_name
                then into_response (rgen_cfg_of config subgraph_name) req schema
                    (hash_of req (rgen_cfg_of config subgraph_name) schema)
                else into_response_no_cache (rgen_cfg_of config subgraph_name) req schema
                    (hash_of req (rgen_cfg_of config subgraph_name) schema)
            with_headers config (rgen_cfg_of config subgraph_name) subgraph_name answer

    abbrev handle_read :
        Config E.H.HeaderMap
        → FederatedSchema
        → Option String
        → String ⊎ RawRequest
        → Handling (Response E.H.HeaderMap)
    handle_read config schema subgraph_name (inl e) = pure (plain E.H 400 e)
    handle_read config schema subgraph_name (inr raw) =
        handle_request config schema subgraph_name (request_of raw)

    unfoldable pub handle :
        Config E.H.HeaderMap
        → FederatedSchema
        → String
        → Option String
        → Handling (Response E.H.HeaderMap)
    handle config schema body_bytes subgraph_name =
        handle_read config schema subgraph_name (E.from_slice body_bytes)
