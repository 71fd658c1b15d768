-- ===== src/Tests/Server.antt =====
-- A server with the default configuration, that a request and a reload come to.
use subgraph_mock.Base.{
  Dict, List, ◌≡◌, refl, String, none, [], ◌∷◌, ok, lookup, insert, keys, release, add_u64,
}
use subgraph_mock.Latency.{
  Duration, as_millis, from_millis, sine_ms, add_wave, generate_ms, as_millis_u64, generate,
}
use subgraph_mock.Latency.Total.{IsModerate}
use subgraph_mock.Http.{Response}
use subgraph_mock.Random.{◌>>=◌}
use subgraph_mock.Handler.{World, drawn, handle}
use subgraph_mock.Json
use subgraph_mock.Loading.{modify, on_event, update_schema, parse, parse_string}
use subgraph_mock.Routing.{
  post, HttpRequest, Route, to_subgraph, to_server, unexpected, split_slash, route_of,
  handle_request, generator_of,
}
use subgraph_mock.Server.{
  Server, Platform, start_with, answer, Follows, still, request, event, Runs,
}
use subgraph_mock.Server.Serves.{IsServed, IsServing, Runs-IsServing, Runs-IsServed}
use subgraph_mock.Server.Replays.{into_response-Follows}
use subgraph_mock.Server.Returns.{IsUsable, AllServable, IsBetween, answer_returns}
use subgraph_mock.Collect.{collect_fields}
use subgraph_mock.Headers.{is_none_or_hits, add_each, add_headers}
use subgraph_mock.Random.{
  repeat, random_range, random_below, random_ratio, random_int, choose, attempt,
}
use subgraph_mock.Generation
use subgraph_mock.Generation.{default_generation}
use subgraph_mock.Builder.{
  build_selection_set, fill, field_value, nullable_value, present_value, typename, leaf_field,
  should_be_null, array_leaf_field, array_selection_set, arbitrary_array_len,
  arbitrary_union_member, merge_selections,
}
use subgraph_mock.Response.{hits, random_data, respond, generate_response}
use subgraph_mock.Handler.{
  GraphQlRequest, parse_and_validate, answer_operation, into_response_no_cache, into_response,
  with_headers, handle_request as handle_graphql,
}
use subgraph_mock.Tests.Sample.{schema}
use subgraph_mock.Tests.Latency.{whole, whole-IsIeee, default-IsModerate}
use subgraph_mock.Tests.Response.{asked}
use subgraph_mock.Tests.Handler.{
  engine, engine-IsEngine, config-IsSound, http_errors_valid, config-HasRatios, body_servable,
}
use subgraph_mock.Tests.Startup.{host, args, state, init_runs, files}

abbrev platform : Platform engine String String
platform = record { host = host; floats = whole; profile = release; spreads = 2; depth = 5 }

abbrev server : Server engine
server = start_with platform state 1

abbrev query_server : HttpRequest
query_server = record { method = post; path = "/users/graphql"; body = ok "body" }

abbrev nonsense : HttpRequest
nonsense = record { method = post; path = "/"; body = ok "nonsense" }

runs : Unit {0}
unfolding build_selection_set fill field_value nullable_value present_value typename leaf_field
    should_be_null array_leaf_field array_selection_set arbitrary_array_len arbitrary_union_member
    merge_selections collect_fields repeat ◌>>=◌ random_range random_below random_ratio random_int
    choose Generation.generate lookup insert hits random_data respond generate_response keys attempt
    drawn parse_and_validate answer_operation into_response_no_cache into_response with_headers
    handle_graphql handle add_headers add_each is_none_or_hits handle_request route_of split_slash
    generate generate_ms add_wave sine_ms as_millis_u64 add_u64
runs = tt

abbrev res : Response (Dict (List String))
res = record { status = 200; headers = ("content-type", "application/json" ∷ []) ∷ []; body = "{}" }

abbrev after : World engine
after = record {
  random = 7;
  responses = engine.responses.set 7 ("{}", 200) server.world.responses;
  documents = engine.documents.set 7 asked server.world.documents;
}

query_answered : answer platform 0 query_server server ≡ ok ((res, from_millis 5), after)
unfolding runs
query_answered = refl

abbrev running : Runs platform args server
running = record { port = 8080; state = state; random = 1; started = init_runs; follows = still }

-- After a query, and a change of the schema's file that is no schema.
abbrev later : Server engine
later = record server { world = after }

bad_reload : on_event platform.host.compiler files (modify ("no schema" ∷ [])) schema ≡ ok schema
unfolding on_event update_schema parse parse_string
bad_reload = refl

went_on : Follows platform server later
went_on =
    event files (modify ("no schema" ∷ [])) (request 0 query_server still query_answered) bad_reload

abbrev still_running : Runs platform args later
still_running = record {
  port = 8080;
  state = state;
  random = 1;
  started = init_runs;
  follows = went_on;
}

Runs-IsServing_example : IsServing platform later
Runs-IsServing_example = Runs-IsServing platform engine-IsEngine args later still_running

Runs-IsServed_example : IsServed platform server 0 query_server res (from_millis 5)
Runs-IsServed_example =
    Runs-IsServed platform engine-IsEngine args server running 0 query_server res (from_millis 5)
      after query_answered

abbrev asked_request : GraphQlRequest
asked_request = record { query = "query"; operation_name = none; variables = [] }

abbrev other_request : GraphQlRequest
other_request = record {
  query = "query";
  operation_name = none;
  variables = ("first", Json.null) ∷ [];
}

into_response_runs :
    into_response engine 2 5 default_generation asked_request schema 7 server.world
    ≡ ok (("{}", 200), after)
unfolding runs
into_response_runs = refl

-- Other variables, and the same answer.
into_response-Follows_example :
    into_response engine 2 5 default_generation other_request schema 7 later.world
    ≡ ok (("{}", 200), later.world)
into_response-Follows_example =
    into_response-Follows platform engine-IsEngine.responses 7 ("{}", 200) 2 5 default_generation
      default_generation asked_request other_request schema schema server.world after later later
      into_response_runs refl still

serving : IsServing platform server
serving = Runs-IsServing platform engine-IsEngine args server running

moderate : (route : Route) → IsModerate (generator_of server.config route).cfg
unfolding lookup
moderate (to_subgraph name) = default-IsModerate
moderate to_server = default-IsModerate
moderate unexpected = default-IsModerate

usable : IsUsable platform engine-IsEngine whole-IsIeee server serving
usable = record {
  sound = config-IsSound;
  http_errors = http_errors_valid;
  headers = config-HasRatios;
  latency = moderate;
}

servable : AllServable platform engine-IsEngine whole-IsIeee server serving usable "body"
unfolding usable
servable name raw e = body_servable name raw e

answer_returns_example :
    (reply : Response (Dict (List String))) × (latency : Duration) × (w : World engine)
    × (route : Route) × (answer platform 0 query_server server ≡ ok ((reply, latency), w))
    × IsServed platform server 0 query_server reply latency
    × (route_of post "/users/graphql" ≡ ok route)
    × IsBetween (generator_of server.config route).cfg (as_millis latency)
answer_returns_example =
    answer_returns platform engine-IsEngine whole-IsIeee server serving usable 0 query_server "body"
      refl servable
