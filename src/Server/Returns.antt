-- ===== src/Server/Returns.antt =====
-- A running server answers.
use subgraph_mock.Base.{ℕ, ◌+◌, ◌≤◌, ◌≡◌, refl, String, Option, none, some, inr, ok, arith}
use subgraph_mock.Latency.{
  Duration, LatencyConfig, LatencyGenerator, as_millis, as_millis_u64, from_millis, duration_since,
  generate,
}
use subgraph_mock.Latency.Total.{IsModerate, height, generate_ms-bounds}
use subgraph_mock.Latency.Total.Sine.{IsIeee}
use subgraph_mock.Http.{Response}
use subgraph_mock.Headers.Returns.{HasRatios}
use subgraph_mock.Random.{◌>>=◌}
use subgraph_mock.Random.Keeps.{Keeps-eq}
use subgraph_mock.Builder.Returns.Leaves.{IsRatio}
use subgraph_mock.Response.Returns.{IsSound}
use subgraph_mock.Handler.{RawRequest, request_of, Engine, World, rgen_cfg_of}
use subgraph_mock.Handler.Caches.{IsEngine}
use subgraph_mock.Handler.Returns.{Servable, handle_returns}
use subgraph_mock.Routing.{
  HttpRequest, Route, to_subgraph, to_server, unexpected, route_of, generator_of, dispatch,
  handle_request,
}
use subgraph_mock.Routing.Routes.{route_of_lem}
use subgraph_mock.Server.{Server, Platform, answer}
use subgraph_mock.Server.Serves.{IsServed, IsServing, Keeps-answer}

-- A delay between the base of a configuration and the base with all amplitudes added.
abbrev pub IsBetween : LatencyConfig → ℕ → Type 0
IsBetween cfg ms =
    (as_millis_u64 cfg.base ≤ ms)
    × (ms
        ≤ as_millis_u64 cfg.base
          + height cfg.saw
          + height cfg.sine
          + height cfg.square
          + height cfg.triangle)

as_millis-from_millis : (ms : ℕ) → as_millis (from_millis ms) ≡ ms
as_millis-from_millis ms = omega arith

module _ {E : Engine} {K W : Type 0} (P : Platform E K W) (laws : IsEngine E)
    (ieee : IsIeee P.floats) where
  generate_returns :
      (g : LatencyGenerator) (now : ℕ)
      → IsModerate g.cfg
      → (latency : Duration) × (generate P.floats P.profile g now ≡ ok latency)
        × IsBetween g.cfg (as_millis latency)
  unfolding generate
  generate_returns g now moderate =
      let (ms, e, lo, hi) =
        generate_ms-bounds P.floats ieee P.profile g.cfg
          (as_millis_u64 (duration_since now g.start)) moderate in
      (from_millis ms, rw e refl, rw (as_millis-from_millis ms) (lo, hi))

  module _ (server : Server E) (serving : IsServing P server) where
    -- Settings that are usable whatever subgraph a request names.
    pub record IsUsable : Type 0 where
      pub sound : (name : Option String) → IsSound E.R (rgen_cfg_of E server.config name)
      pub http_errors :
          (name : Option String) → IsRatio (rgen_cfg_of E server.config name).http_error_ratio
      pub headers :
          (name : Option String) → HasRatios (rgen_cfg_of E server.config name).header_ratio
      pub latency : (route : Route) → IsModerate (generator_of server.config route).cfg

    -- What of the documents is known for a request with some body, at the world of the server.
    abbrev pub AllServable : IsUsable → String → Type 0
    AllServable usable body =
        (name : Option String) (raw : RawRequest)
        → E.from_slice body ≡ inr raw
        → Servable E laws server.config server.schema body name P.spreads P.depth
            (usable.sound name) (usable.http_errors name) (usable.headers name) (request_of raw)
            server.world

    module _ (usable : IsUsable) where
      dispatch_returns :
          (body : String) (route : Route)
          → AllServable usable body
          → (res : Response E.H.HeaderMap) × (w : World E) × (dispatch E P.floats P.profile
                P.spreads P.depth server.config server.schema body route server.world
              ≡ ok (res, w))
      dispatch_returns body (to_subgraph name) servable =
          let (res, w, e, _, _) =
            handle_returns E laws server.config server.schema body (some name) P.spreads P.depth
              (usable.sound (some name)) (usable.http_errors (some name))
              (usable.headers (some name)) server.world serving.sound (servable (some name)) in
          (res, w, e)
      dispatch_returns body to_server servable =
          let (res, w, e, _, _) =
            handle_returns E laws server.config server.schema body none P.spreads P.depth
              (usable.sound none) (usable.http_errors none) (usable.headers none) server.world
              serving.sound (servable none) in
          (res, w, e)
      dispatch_returns body unexpected servable = (_, _, refl)

      -- With libraries that keep their laws, a server that serves, with usable settings and moderate delays, answers every request whose
      -- body arrives, where its documents can be served within the fuel: it panics on none, the
      -- reply is of the contract of its route, and the delay is between the base of the generator for
      -- this route and the base with all amplitudes added.
      pub answer_returns :
          (now : ℕ) (req : HttpRequest) (body : String)
          → req.body ≡ ok body
          → AllServable usable body
          → (res : Response E.H.HeaderMap) × (latency : Duration) × (w : World E) × (route : Route)
            × (answer P now req server ≡ ok ((res, latency), w))
            × IsServed P server now req res latency
            × (route_of req.method req.path ≡ ok route)
            × IsBetween (generator_of server.config route).cfg (as_millis latency)
      unfolding handle_request ◌>>=◌
      answer_returns now req body read servable =
          let (route, routed, _) = route_of_lem req.method req.path in
          let (res, w, e) = dispatch_returns body route servable in
          let (latency, delayed, between) =
            generate_returns (generator_of server.config route) now (usable.latency route) in
          let answered : answer P now req server ≡ ok ((res, latency), w) =
            rw (read, routed, e, delayed) refl in
          (
            res,
            latency,
            w,
            route,
            answered,
            (Keeps-eq {s = server.world} (Keeps-answer P laws server now req) serving.sound
                answered).1,
            routed,
            between,
          )
