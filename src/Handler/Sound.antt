-- ===== src/Handler/Sound.antt =====
-- `handle` of src/handle/graphql.rs replies as its contract says, and keeps its caches sound.
use subgraph_mock.Base.{ℕ, ◌≡◌, refl, String, Option, ◌⊎◌, inl, inr, ok}
use subgraph_mock.Schema.{FederatedSchema}
use subgraph_mock.Http.{Response}
use subgraph_mock.Random.Yields.{Yields-random_range}
use subgraph_mock.Random.Keeps.{Keeps, Keeps-eq, Keeps-pure, Keeps-if, Keeps-bind}
use subgraph_mock.Generation.{ResponseGenerationConfig}
use subgraph_mock.Config.Settings.{Config}
use subgraph_mock.Response.Conforms.{Yields-hits}
use subgraph_mock.Headers.Added.{add_headers-HasHeaders, configured-IsChosen}
use subgraph_mock.Headers.Chosen.{setting_of-IsChosen}
use subgraph_mock.Handler.{
  RawRequest, request_of, Engine, World, handle_read, with_headers, rgen_cfg_of, caches, hash_of,
  handle_request, handle,
}
use subgraph_mock.Handler.Answers.{
  IsGenerationOf, IsAnswer, IsReply, bad_request, http_error, replied,
}
use subgraph_mock.Handler.Caches.{
  IsEngine, IsSound, Keeps-draws, Keeps-into_response, Keeps-into_response_no_cache,
}

module _ (E : Engine) (laws : IsEngine E)
    (Asked : String → ResponseGenerationConfig → String → Type 0) (config : Config E.H.HeaderMap)
    (schema : FederatedSchema) (body : String) (subgraph_name : Option String) (spreads depth : ℕ)
    (asked : (raw : RawRequest) (cfg : ResponseGenerationConfig)
      → E.from_slice body ≡ inr raw
      → IsGenerationOf E config subgraph_name cfg
      → Asked raw.query cfg schema.source) where
  abbrev cfg : ResponseGenerationConfig
  cfg = rgen_cfg_of E config subgraph_name

  cfg-IsGenerationOf : IsGenerationOf E config subgraph_name cfg
  cfg-IsGenerationOf =
      setting_of-IsChosen subgraph_name config.subgraph_overrides.response_generation
        config.response_generation

  Keeps-with_headers :
      (raw : RawRequest) (answer : String × ℕ)
      → E.from_slice body ≡ inr raw
      → IsAnswer E Asked (hash_of E (request_of raw) cfg schema) answer
      → Keeps
          (IsSound E Asked)
          (IsReply E Asked config schema body subgraph_name)
          (with_headers E config cfg subgraph_name answer)
  unfolding with_headers
  Keeps-with_headers raw answer read h =
      Keeps-bind _ _
        (Keeps-draws E laws Asked _
          (add_headers-HasHeaders E.R E.H laws.headers config cfg subgraph_name))
        λ headers has. Keeps-pure _ (
          replied raw cfg answer _ headers read cfg-IsGenerationOf h
            (configured-IsChosen E.R E.H laws.headers config cfg subgraph_name) has)

  Keeps-handle_request :
      (raw : RawRequest)
      → E.from_slice body ≡ inr raw
      → Keeps
          (IsSound E Asked)
          (IsReply E Asked config schema body subgraph_name)
          (handle_request E spreads depth config schema subgraph_name (request_of raw))
  unfolding handle_request
  Keeps-handle_request raw read =
      Keeps-bind _ _ (Keeps-draws E laws Asked _ (Yields-hits E.R cfg.http_error_ratio))
        λ fails ratio.
          Keeps-if fails _ _
            (λ e.
              Keeps-bind _ _
                (Keeps-draws E laws Asked _ (Yields-random_range E.R laws.random 500 504))
                λ status h. Keeps-pure _ (
                  http_error raw cfg (ratio e).0 status read cfg-IsGenerationOf (ratio e).1 h.0
                    h.1))
            λ _.
              Keeps-bind _ _
                (Keeps-if (caches E config subgraph_name) _ _
                  (λ _.
                    Keeps-into_response E laws Asked (request_of raw) cfg schema _
                      (asked raw cfg read cfg-IsGenerationOf) refl spreads depth)
                  (λ _.
                    Keeps-into_response_no_cache E laws Asked (request_of raw) cfg schema _
                      (asked raw cfg read cfg-IsGenerationOf) refl spreads depth))
                λ answer h. Keeps-with_headers raw answer read h

  pub Keeps-handle :
      Keeps
        (IsSound E Asked)
        (IsReply E Asked config schema body subgraph_name)
        (handle E spreads depth config schema body subgraph_name)
  unfolding handle
  Keeps-handle = from (E.from_slice body) refl
    where
      from :
          (r : String ⊎ RawRequest)
          → E.from_slice body ≡ r
          → Keeps
              (IsSound E Asked)
              (IsReply E Asked config schema body subgraph_name)
              (handle_read E spreads depth config schema subgraph_name r)
      from (inl e) read = Keeps-pure _ (bad_request e read)
      from (inr raw) read = Keeps-handle_request raw read

  -- With libraries that keep their laws, and a request that is among those asked: from sound caches
  -- it gets a reply of its contract and leaves sound caches. A bad request is refused with the
  -- parser's message; an HTTP error from 500 to 504 comes only where a ratio of them is configured,
  -- for the subgraph that is named or else for the server; neither of the two has a header. Every
  -- other reply has the headers configured for that subgraph or else for the server, and the answer
  -- to some request that was asked with the same key, a hash of the query, the configuration and the
  -- schema: the errors of a query that is invalid, status 500 for an operation that is no query,
  -- status 500 where the generation of the response ended in an error, the text of a response of the
  -- contract of generation, or status 500 where that has no text.
  pub handle_replies :
      (w w' : World E) (reply : Response E.H.HeaderMap)
      → IsSound E Asked w
      → handle E spreads depth config schema body subgraph_name w ≡ ok (reply, w')
      → IsSound E Asked w' × IsReply E Asked config schema body subgraph_name reply
  handle_replies w w' reply sound e = Keeps-eq {s = w} Keeps-handle sound e
