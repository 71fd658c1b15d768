-- ===== src/Routing.antt =====
-- The routing of requests and the delay of responses: `handle_request` of src/handle/mod.rs. A
-- response comes with the delay that is slept before it is sent. Log messages are left out.
pub mod Routes
use Prim.Native.Char.{Char, code}
use Prim.Native.String as Text
use Prim.Native.String.{[], ◌∷◌}
use text.Mathlib.Text.{starts_with}
use subgraph_mock.Base.{
  ℕ, String, Bool, true, false, ◌&&◌, Option, none, some, List, [], ◌∷◌, Outcome, ok, unwrap,
  unwrap_or, lookup, get_elem?, eqb, ltb, if◌then◌else◌, ◌==◌, Profile, ◌>>=◌,
}
use subgraph_mock.Schema.{FederatedSchema}
use subgraph_mock.Latency.{Duration, LatencyGenerator, Floats, generate}
use subgraph_mock.Http.{Response, plain}
use subgraph_mock.Random
use subgraph_mock.Random.{pure, lift}
use subgraph_mock.Config.Settings.{Config}
use subgraph_mock.Handler.{Engine, Handling, handle}

-- `hyper::Method`
pub data Method : Type 0 where
  post : Method
  other_method : String → Method

-- A request; its body is collected, or else that fails.
pub record HttpRequest : Type 0 where
  pub method : Method
  pub path : String
  pub body : Outcome String

-- The arms of the `match` on the method and the path.
pub data Route : Type 0 where
  to_subgraph : String → Route
  to_server : Route
  unexpected : Route

abbrev is_slash : Char → Bool
is_slash c = eqb (code c) b'/'

abbrev longer : Char → List String → List String
longer c [] = (c ∷ "") ∷ []
longer c (part ∷ parts) = (c ∷ part) ∷ parts

-- `split('/')`
unfoldable pub split_slash : String → List String
split_slash [] = "" ∷ []
split_slash (c ∷ s) = let rest = split_slash s in if is_slash c then "" ∷ rest else longer c rest

abbrev named : String → Outcome Route
named name = ok (to_subgraph name)

unfoldable pub route_of : Method → String → Outcome Route
route_of post route =
    if ltb 1 (Text.len route) && starts_with route "/"
    then unwrap (get_elem? (split_slash route) 1) >>= named
    else if route == "/"
    then ok to_server
    else ok unexpected
route_of (other_method name) path = ok unexpected

-- The generator of the subgraph that is named, or else that of the server.
abbrev pub generator_of : {H : Type 0} → Config H → Route → LatencyGenerator
generator_of config (to_subgraph subgraph_name) =
    unwrap_or (lookup subgraph_name config.subgraph_overrides.latency_generator)
      config.latency_generator
generator_of config to_server = config.latency_generator
generator_of config unexpected = config.latency_generator

module _ (E : Engine) (F : Floats) (p : Profile) (spreads depth : ℕ) (config : Config E.H.HeaderMap)
    (schema : FederatedSchema) where
  abbrev pub dispatch : String → Route → Handling E (Response E.H.HeaderMap)
  dispatch body_bytes (to_subgraph subgraph_name) =
      handle E spreads depth config schema body_bytes (some subgraph_name)
  dispatch body_bytes to_server = handle E spreads depth config schema body_bytes none
  dispatch body_bytes unexpected = pure (plain E.H 404 "Not found\n")

  -- `now` is the moment at which the response is there.
  unfoldable pub handle_request : ℕ → HttpRequest → Handling E (Response E.H.HeaderMap × Duration)
  handle_request now req = Random.◌>>=◌ (lift req.body) λ body_bytes.
      Random.◌>>=◌ (lift (route_of req.method req.path)) λ route.
        Random.◌>>=◌ (dispatch body_bytes route) λ res.
          Random.◌>>=◌ (lift (generate F p (generator_of config route) now))
            λ latency. pure (res, latency)
