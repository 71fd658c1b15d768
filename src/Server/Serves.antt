-- ===== src/Server/Serves.antt =====
-- What a server that runs serves.
use subgraph_mock.Base.{ℕ, ◌≡◌, refl, sym, ◌∙◌, none-ne-some, String, none, some, ok}
use subgraph_mock.Latency.{Duration, LatencyGenerator, generate}
use subgraph_mock.Http.{Response, plain}
use subgraph_mock.Random.Keeps.{Keeps, Keeps-eq, Keeps-pure, Keeps-bind, Keeps-lift}
use subgraph_mock.Config.Settings.{Config}
use subgraph_mock.Headers.Chosen.{IsChosen, setting_of-IsChosen}
use subgraph_mock.Handler.{Engine, World}
use subgraph_mock.Handler.Answers.{IsReply}
use subgraph_mock.Handler.Caches.{IsEngine, IsSound, Anything}
use subgraph_mock.Handler.Sound.{Keeps-handle}
use subgraph_mock.Loading.Served.{IsLoaded, on_event-IsLoaded}
use subgraph_mock.Routing.{
  HttpRequest, Route, to_subgraph, to_server, unexpected, route_of, generator_of, dispatch,
  handle_request,
}
use subgraph_mock.Startup.{Args}
use subgraph_mock.Startup.Started.{init-IsStarted}
use subgraph_mock.Server.{Server, Platform, answer, Follows, still, request, event, Runs}

-- The generator that delays the replies along a route: the one listed for the subgraph that the route
-- names, or else that of the server.
abbrev pub IsDelayedBy : {H : Type 0} → Config H → Route → LatencyGenerator → Type 0
IsDelayedBy config (to_subgraph name) generator =
    IsChosen (some name) config.subgraph_overrides.latency_generator config.latency_generator
      generator
IsDelayedBy config to_server generator = generator ≡ config.latency_generator
IsDelayedBy config unexpected generator = generator ≡ config.latency_generator

generator_of-IsDelayedBy :
    {H : Type 0} (config : Config H) (route : Route)
    → IsDelayedBy config route (generator_of config route)
generator_of-IsDelayedBy config (to_subgraph name) =
    setting_of-IsChosen (some name) config.subgraph_overrides.latency_generator
      config.latency_generator
generator_of-IsDelayedBy config to_server = refl
generator_of-IsDelayedBy config unexpected = refl

module _ {E : Engine} {K W : Type 0} (P : Platform E K W) where
  -- The reply along a route.
  abbrev pub IsRouted : Server E → String → Route → Response E.H.HeaderMap → Type 0
  IsRouted server body (to_subgraph name) res =
      IsReply E Anything server.config server.schema body (some name) res
  IsRouted server body to_server res = IsReply E Anything server.config server.schema body none res
  IsRouted server body unexpected res = res ≡ plain E.H 404 "Not found\n"

  -- A reply to a request that came at the moment `now`, with the delay before it is sent.
  pub record IsServed (server : Server E) (now : ℕ) (req : HttpRequest)
      (res : Response E.H.HeaderMap) (latency : Duration) : Type 0 where
    pub body : String
    pub route : Route
    pub read : req.body ≡ ok body
    pub routed : route_of req.method req.path ≡ ok route
    pub replied : IsRouted server body route res
    pub generator : LatencyGenerator
    pub chosen : IsDelayedBy server.config route generator
    pub delayed : generate P.floats P.profile generator now ≡ ok latency

  -- What holds at all times.
  pub record IsServing (server : Server E) : Type 0 where
    pub loaded : IsLoaded P.host.compiler server.schema
    pub sound : IsSound E Anything server.world

module _ {E : Engine} {K W : Type 0} (P : Platform E K W) (laws : IsEngine E) where
  Keeps-dispatch :
      (server : Server E) (body : String) (route : Route)
      → Keeps
          (IsSound E Anything)
          (IsRouted P server body route)
          (dispatch E P.floats P.profile P.spreads P.depth server.config server.schema body route)
  Keeps-dispatch server body (to_subgraph name) =
      Keeps-handle E laws Anything server.config server.schema body (some name) P.spreads P.depth
        (λ raw cfg read chosen. tt)
  Keeps-dispatch server body to_server =
      Keeps-handle E laws Anything server.config server.schema body none P.spreads P.depth
        (λ raw cfg read chosen. tt)
  Keeps-dispatch server body unexpected = Keeps-pure _ refl

  pub Keeps-answer :
      (server : Server E) (now : ℕ) (req : HttpRequest)
      → Keeps
          (IsSound E Anything)
          (λ reply. IsServed P server now req reply.0 reply.1)
          (handle_request E P.floats P.profile P.spreads P.depth server.config server.schema now
            req)
  unfolding handle_request
  Keeps-answer server now req = Keeps-bind _ _ (Keeps-lift req.body) λ body read.
      Keeps-bind _ _ (Keeps-lift (route_of req.method req.path)) λ route routed.
        Keeps-bind _ _ (Keeps-dispatch server body route) λ res replied.
          Keeps-bind _ _
            (Keeps-lift (generate P.floats P.profile (generator_of server.config route) now))
            λ latency delayed. Keeps-pure _ (record {
              body = body;
              route = route;
              read = read;
              routed = routed;
              replied = replied;
              generator = generator_of server.config route;
              chosen = generator_of-IsDelayedBy server.config route;
              delayed = delayed;
            })

  IsServing-follows :
      {first server : Server E} → IsServing P first → Follows P first server → IsServing P server
  IsServing-follows h still = h
  IsServing-follows h (request {server} now req before e) =
      let old = IsServing-follows h before in
      record {
        loaded = old.loaded;
        sound = (Keeps-eq {s = server.world} (Keeps-answer server now req) old.sound e).0;
      }
  IsServing-follows h (event {server} files e before reloads) =
      let old = IsServing-follows h before in
      record {
        loaded = on_event-IsLoaded P.host.compiler files e server.schema old.loaded reloads;
        sound = old.sound;
      }

  IsSound-empty :
      (random : E.R.State)
      → IsSound E Anything
          (record { random = random; responses = E.responses.empty; documents = E.documents.empty })
  IsSound-empty random = record {
    documents = λ key doc e. absurd (none-ne-some _ (sym (laws.documents.get_empty key) ∙ e));
    responses = λ key reply e. absurd (none-ne-some _ (sym (laws.responses.get_empty key) ∙ e));
  }

  module _ (args : Args) (server : Server E) where
    -- With libraries that keep their laws: at all times of a program, whatever requests and events came
    -- before, the schema that is served was loaded, and what the caches have under a key is of a
    -- request with that key.
    pub Runs-IsServing : Runs P args server → IsServing P server
    Runs-IsServing runs =
        let started = init-IsStarted P.host args runs.port runs.state runs.started in
        IsServing-follows (record { loaded = started.loaded; sound = IsSound-empty runs.random })
          runs.follows

    -- With libraries that keep their laws: at all times of a program, whatever requests and events came
    -- before, a reply is of the contract of its route: that of the handler for the subgraph that the
    -- path names, or for none, or status 404; and it is sent after the delay of the generator of that
    -- subgraph, if it has its own, or else of the server, an unexpected request's and an error's reply
    -- like any other.
    pub Runs-IsServed :
        Runs P args server
        → (now : ℕ) (req : HttpRequest) (res : Response E.H.HeaderMap) (latency : Duration)
          (world : World E)
        → answer P now req server ≡ ok ((res, latency), world)
        → IsServed P server now req res latency
    Runs-IsServed runs now req res latency world e =
        let serving = Runs-IsServing runs in
        (Keeps-eq {s = server.world} (Keeps-answer server now req) serving.sound e).1
