-- ===== src/Server.antt =====
-- The server while it runs: the requests that `handle_request` of src/handle/mod.rs answers, and what
-- the watcher of src/state/mod.rs is told, one after the other. A request whose task panics is not a
-- step; neither are the connections of src/lib.rs.
pub mod Serves
pub mod Replays
pub mod Returns
use subgraph_mock.Base.{ℕ, ◌≡◌, Outcome, ok, Profile}
use subgraph_mock.Schema.{FederatedSchema}
use subgraph_mock.Latency.{Duration, Floats}
use subgraph_mock.Http.{Response}
use subgraph_mock.Config.Settings.{Config}
use subgraph_mock.Handler.{Engine, World}
use subgraph_mock.Loading.{Files, WatchEvent, on_event}
use subgraph_mock.Routing.{HttpRequest, handle_request}
use subgraph_mock.Startup.{Args, Host, State, init}

-- The state that the requests share, and the world that they run in.
pub record Server (E : Engine) : Type 0 where
  pub config : Config E.H.HeaderMap
  pub schema : FederatedSchema
  pub world : World E

-- What the server is built on, with the fuel for the responses.
pub record Platform (E : Engine) (K W : Type 0) : Type 1 where
  pub host : Host E.H K W
  pub floats : Floats
  pub profile : Profile
  pub spreads : ℕ
  pub depth : ℕ

module _ {E : Engine} {K W : Type 0} (P : Platform E K W) where
  -- The server at its start: both caches are empty.
  abbrev pub start_with : State E.H W → E.R.State → Server E
  start_with state random = record {
    config = state.config;
    schema = state.schema;
    world = record {
      random = random;
      responses = E.responses.empty;
      documents = E.documents.empty;
    };
  }

  -- A request that comes at the moment `now`.
  abbrev pub answer :
      ℕ → HttpRequest → Server E → Outcome ((Response E.H.HeaderMap × Duration) × World E)
  answer now req server =
      handle_request E P.floats P.profile P.spreads P.depth server.config server.schema now req
        server.world

  -- One server after another, as requests and events come.
  pub data Follows (first : Server E) : Server E → Type 0 where
    still : Follows first first
    request :
        {server : Server E} {reply : Response E.H.HeaderMap × Duration} {world : World E} (now : ℕ)
        (req : HttpRequest)
        → Follows first server
        → answer now req server ≡ ok (reply, world)
        → Follows first (record server { world = world })
    event :
        {server : Server E} {schema : FederatedSchema} (files : Files) (e : WatchEvent)
        → Follows first server
        → on_event P.host.compiler files e server.schema ≡ ok schema
        → Follows first (record server { schema = schema })

  -- The servers of a program that was started with some arguments.
  pub record Runs (args : Args) (server : Server E) : Type 0 where
    pub port : ℕ
    pub state : State E.H W
    pub random : E.R.State
    pub started : init P.host args ≡ ok (port, state)
    pub follows : Follows (start_with state random) server
