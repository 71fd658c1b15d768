-- ===== src/Handler/Returns.antt =====
-- `handle` of src/handle/graphql.rs returns a reply.
use subgraph_mock.Base.{ℕ, ◌≡◌, refl, String, Option, ◌⊎◌, inl, inr, ok, arith}
use subgraph_mock.Schema.{FederatedSchema}
use subgraph_mock.Http.{Response}
use subgraph_mock.Random.Yields.{Yields-any}
use subgraph_mock.Random.Runs.{Runs, Runs-pure, Runs-bind, Runs-random_range}
use subgraph_mock.Random.Completes.{
  Completes, Completes-Runs, Completes-if, Completes-then, Completes-bind,
}
use subgraph_mock.Generation.{ResponseGenerationConfig}
use subgraph_mock.Config.Settings.{Config}
use subgraph_mock.Builder.Returns.Leaves.{IsRatio}
use subgraph_mock.Response.Returns.{IsSound, Runs-hits}
use subgraph_mock.Headers.Returns.{HasRatios, Runs-add_headers}
use subgraph_mock.Handler.Draws.{Keeps-drawn}
use subgraph_mock.Handler.Answers.{IsReply}
use subgraph_mock.Handler.Caches as Caches
use subgraph_mock.Handler.Sound.{handle_replies}
use subgraph_mock.Handler.{
  RawRequest, GraphQlRequest, request_of, Engine, World, with_headers, rgen_cfg_of, caches, hash_of,
  handle_request, handle_read, handle,
}
use subgraph_mock.Handler.Served.{
  Runs-drawn, AllServable, Completes-into_response, Completes-into_response_no_cache,
}

module _ (E : Engine) (laws : Caches.IsEngine E) (config : Config E.H.HeaderMap)
    (schema : FederatedSchema) (body : String) (subgraph_name : Option String)
    (spreads depth : ℕ) where
  abbrev cfg : ResponseGenerationConfig
  cfg = rgen_cfg_of E config subgraph_name

  module _ (sound : IsSound E.R cfg) (http_errors : IsRatio cfg.http_error_ratio)
      (headers : HasRatios cfg.header_ratio) where
    Runs-with_headers :
        (answer : String × ℕ) → Runs (with_headers E config cfg subgraph_name answer)
    unfolding with_headers
    Runs-with_headers answer =
        Runs-bind _ _
          (Runs-drawn E _ (Runs-add_headers E.R E.H config cfg subgraph_name E.H.empty headers))
          (Yields-any _) λ added _. Runs-pure _

    abbrev pub Servable : GraphQlRequest → World E → Type 0
    Servable req w =
        AllServable E laws.random cfg sound schema req spreads depth (hash_of E req cfg schema) w

    Completes-handle_request :
        (req : GraphQlRequest)
        → Completes
            (Servable req)
            (λ _. Unit {0})
            (handle_request E spreads depth config schema subgraph_name req)
    unfolding handle_request
    Completes-handle_request req =
        Completes-bind _ _ (Runs-drawn E _ (Runs-hits E.R cfg.http_error_ratio http_errors))
          (Keeps-drawn E (Servable req) (λ w s all. all) _ (Yields-any _))
          λ fails.
            Completes-if fails _ _
              (Completes-Runs (
                Runs-bind _ _ (Runs-drawn E _ (Runs-random_range E.R 500 504 (omega arith)))
                  (Yields-any _) λ status _. Runs-pure _))
              (Completes-then _ _
                (Completes-if (caches E config subgraph_name) _ _
                  (Completes-into_response E laws.random cfg sound schema req spreads depth _)
                  (Completes-into_response_no_cache E laws.random cfg sound schema req spreads depth
                    _))
                λ answer _. Runs-with_headers answer)

    returned :
        (w : World E) (r : String ⊎ RawRequest)
        → E.from_slice body ≡ r
        → ((raw : RawRequest) → E.from_slice body ≡ inr raw → Servable (request_of raw) w)
        → (reply : Response E.H.HeaderMap) × (w' : World E) × (handle_read E spreads depth config
              schema subgraph_name r w
            ≡ ok (reply, w'))
    returned w (inl e) read servable = (_, _, refl)
    returned w (inr raw) read servable =
        let (reply, w', e, _) =
          (Completes-handle_request (request_of raw)).at w (servable raw read) in
        (reply, w', e)

    -- With libraries that keep their laws, ratios that are fractions up to one, and where the documents that are parsed or cached for the request have an
    -- operation and their queries can be answered within the fuel: from sound caches every request
    -- gets a reply of the contract, whatever is drawn, and leaves sound caches.
    pub handle_returns :
        (w : World E)
        → Caches.IsSound E Caches.Anything w
        → ((raw : RawRequest) → E.from_slice body ≡ inr raw → Servable (request_of raw) w)
        → (reply : Response E.H.HeaderMap) × (w' : World E) × (handle E spreads depth config schema
              body subgraph_name w
            ≡ ok (reply, w'))
          × Caches.IsSound E Caches.Anything w'
          × IsReply E Caches.Anything config schema body subgraph_name reply
    unfolding handle
    handle_returns w sound_caches servable =
        let (reply, w', e) = returned w _ refl servable in
        let (kept, right) =
          handle_replies E laws Caches.Anything config schema body subgraph_name spreads depth
            (λ raw cfg read chosen. tt) w w' reply sound_caches e in
        (reply, w', e, kept, right)
