-- ===== src/Server/Replays.antt =====
-- What a running server caches stays cached.
use subgraph_mock.Base.{ℕ, ◌≡◌, String, ok}
use subgraph_mock.Schema.{FederatedSchema}
use subgraph_mock.Latency.{generate}
use subgraph_mock.Random.Keeps.{Keeps-eq, Keeps-pure, Keeps-bind, Keeps-lift}
use subgraph_mock.Generation.{ResponseGenerationConfig}
use subgraph_mock.Memo.{IsCache}
use subgraph_mock.Handler.{GraphQlRequest, Engine, World, into_response}
use subgraph_mock.Handler.Replay.{
  IsCached, Stays, Stays-handle, into_response-IsCached, into_response_repeats,
}
use subgraph_mock.Routing.{
  HttpRequest, Route, to_subgraph, to_server, unexpected, route_of, generator_of, dispatch,
  handle_request,
}
use subgraph_mock.Server.{Server, Platform, Follows, still, request, event}

module _ {E : Engine} {K W : Type 0} (P : Platform E K W) (laws : IsCache E.responses) (key : ℕ)
    (reply : String × ℕ) where
  Stays-dispatch :
      (server : Server E) (body : String) (route : Route)
      → Stays E laws key reply
          (dispatch E P.floats P.profile P.spreads P.depth server.config server.schema body route)
  Stays-dispatch server body (to_subgraph name) =
      Stays-handle E laws key reply P.spreads P.depth server.config server.schema _ body
  Stays-dispatch server body to_server =
      Stays-handle E laws key reply P.spreads P.depth server.config server.schema _ body
  Stays-dispatch server body unexpected = Keeps-pure _ tt

  Stays-answer :
      (server : Server E) (now : ℕ) (req : HttpRequest)
      → Stays E laws key reply (
          handle_request E P.floats P.profile P.spreads P.depth server.config server.schema now req)
  unfolding handle_request
  Stays-answer server now req = Keeps-bind _ _ (Keeps-lift req.body) λ body _.
      Keeps-bind _ _ (Keeps-lift (route_of req.method req.path)) λ route _.
        Keeps-bind _ _ (Stays-dispatch server body route) λ res _.
          Keeps-bind _ _
            (Keeps-lift (generate P.floats P.profile (generator_of server.config route) now))
            λ latency _. Keeps-pure _ tt

  Follows-IsCached :
      {first server : Server E}
      → IsCached E laws key reply first.world
      → Follows P first server
      → IsCached E laws key reply server.world
  Follows-IsCached cached still = cached
  Follows-IsCached cached (request {server} now req before e) =
      (Keeps-eq {s = server.world} (Stays-answer server now req) (Follows-IsCached cached before)
        e).0
  Follows-IsCached cached (event files e before reloads) = Follows-IsCached cached before

  -- With a cache that keeps its laws, an answer that is given through the cache under some key is given from then on to every request
  -- with this key, by whatever configuration, variables and schema it is asked for, and whatever
  -- requests and reloads come between; and giving it again changes nothing.
  pub into_response-Follows :
      (spreads depth : ℕ) (cfg cfg' : ResponseGenerationConfig) (req req' : GraphQlRequest)
      (schema schema' : FederatedSchema) (world world' : World E) (first server : Server E)
      → into_response E spreads depth cfg req schema key world ≡ ok (reply, world')
      → first.world.responses ≡ world'.responses
      → Follows P first server
      → into_response E spreads depth cfg' req' schema' key server.world ≡ ok (reply, server.world)
  into_response-Follows spreads depth cfg cfg' req req' schema schema' world world' first server e
        same follows =
      let cached =
        into_response-IsCached E laws key reply spreads depth cfg req schema world world' e in
      into_response_repeats E laws key reply spreads depth cfg' req' schema' server.world
        (Follows-IsCached (rw same cached) follows)
