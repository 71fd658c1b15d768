-- ===== src/Tests/Handler.antt =====
-- Requests to the handler: a query in text `query`, and one that does not parse.
use mathlib.Core.Path.{subst}
use subgraph_mock.Base.{
  Dict, List, ℕ, ◌≡◌, refl, sym, ◌∙◌, true, ◌⊎◌, inl, inr, String, Option, some, none, [], ◌∷◌,
  lookup, insert, keys, Outcome, ok, eqb, if◌then◌else◌, ◌==◌, arith, none-ne-some,
}
use subgraph_mock.Document.{Document}
use subgraph_mock.Latency.{new_generator, default_latency}
use subgraph_mock.Collect.{collect_fields}
use subgraph_mock.Generation.{ResponseGenerationConfig}
use subgraph_mock.Http.{Response}
use subgraph_mock.Tests.Headers.{listed, listed-IsHeaderOps}
use subgraph_mock.Headers.{is_none_or_hits, add_each, add_headers}
use subgraph_mock.Headers.Chosen.{IsChosen, unnamed, own, general}
use subgraph_mock.Headers.Added.{HasHeaders, add_headers_lem}
use subgraph_mock.Headers.Returns.{HasRatios}
use subgraph_mock.Random.{
  repeat, ◌>>=◌, random_range, random_below, random_ratio, random_int, choose, attempt,
}
use subgraph_mock.Generation.{generate}
use subgraph_mock.Builder.{
  build_selection_set, fill, field_value, nullable_value, present_value, typename, leaf_field,
  should_be_null, array_leaf_field, array_selection_set, arbitrary_array_len,
  arbitrary_union_member, merge_selections,
}
use subgraph_mock.Response.{hits, random_data, respond, generate_response}
use subgraph_mock.Config.Settings.{Config, no_overrides}
use subgraph_mock.Memo.{CacheOps, IsCache}
use subgraph_mock.Handler.{
  RawRequest, request_of, Engine, World, drawn, parse_and_validate, answer_operation,
  into_response_no_cache, into_response, with_headers, handle_request, handle, rgen_cfg_of,
}
use subgraph_mock.Handler.Answers.{IsGenerationOf, IsReply}
use subgraph_mock.Handler.Caches.{IsEngine, IsSound, Anything}
use subgraph_mock.Handler.Sound.{handle_replies}
use subgraph_mock.Handler.Own.{IsCollisionFree, IsOwn, handle-IsOwn}
use subgraph_mock.Handler.Served.{IsServable}
use subgraph_mock.Handler.Returns.{Servable, handle_returns}
use subgraph_mock.Response.Returns as Returns
use subgraph_mock.Builder.Returns.Leaves.{IsRatio}
use subgraph_mock.Tests.Sample.{counter, counter-IsLawful, schema, cfg}
use subgraph_mock.Tests.Builder.{no_rank}
use subgraph_mock.Tests.Response.{
  exec, operation, asked, asked-IsValid, cfg-IsSound, query-IsAnswerable,
}

-- A cache as a function of the key.
abbrev pub by_key : (V : Type 0) → CacheOps V
by_key V = record {
  Cache = ℕ → Option V;
  empty = λ k. none;
  get = λ k c. c k;
  set = λ k v c j. if eqb j k then some v else c j;
}

pub by_key-IsCache : (V : Type 0) → IsCache (by_key V)
by_key-IsCache V = record {
  get_empty = λ k. refl;
  get-set_same = λ k v c. ground arith;
  get-set_other = λ j k v c h. ground (arith, h);
}

abbrev request : RawRequest
request = record { query = "query"; operation_name = none; variables = none }

abbrev pub engine : Engine
engine = record {
  R = counter;
  exec = exec;
  H = listed;
  responses = by_key (String × ℕ);
  documents = by_key Document;
  from_slice = λ body. if body == "body" then inr request else inl "expected value";
  parse_and_validate = λ schema query name. if query == "query" then inr asked else inl [];
  to_vec = λ v. inr "{}";
  hash = λ query cfg source. 7;
}

pub engine-IsEngine : IsEngine engine
engine-IsEngine = record {
  random = counter-IsLawful;
  headers = listed-IsHeaderOps;
  responses = by_key-IsCache _;
  documents = by_key-IsCache _;
}

abbrev pub world : World engine
world = record { random = 1; responses = λ k. none; documents = λ k. none }

abbrev configured : Dict (List String)
configured = ("x-mock", "a" ∷ "b" ∷ []) ∷ []

abbrev pub config : Config (Dict (List String))
config = record {
  headers = configured;
  latency_generator = new_generator 0 default_latency;
  response_generation = cfg;
  cache_responses = true;
  subgraph_overrides = no_overrides;
}

-- The query of the tests, by the configuration of the tests, on their schema.
abbrev Asked : String → ResponseGenerationConfig → String → Type 0
Asked query c text = (query ≡ "query") × (c ≡ cfg) × (text ≡ schema.source)

world-IsSound :
    (Any : String → ResponseGenerationConfig → String → Type 0) → IsSound engine Any world
world-IsSound Any = record {
  documents = λ key doc e. absurd (none-ne-some _ e);
  responses = λ key answer e. absurd (none-ne-some _ e);
}

abbrev headers : Dict (List String)
headers =
    ("content-type", "application/json" ∷ []) ∷ ("x-mock", "b" ∷ []) ∷ ("x-mock", "a" ∷ []) ∷ []

-- Of two values of a header without a ratio, the last one is kept.
add_headers_runs : add_headers counter listed config cfg none [] 1 ≡ ok (headers, 1)
unfolding add_headers add_each is_none_or_hits ◌>>=◌ insert lookup
add_headers_runs = refl

-- The subgraph `users` has a header of its own.
abbrev own_headers : Dict (List String)
own_headers = ("x-own", "u" ∷ []) ∷ []

abbrev users_config : Config (Dict (List String))
users_config = record config {
  subgraph_overrides = record no_overrides { headers = ("users", own_headers) ∷ [] };
}

abbrev users_headers : Dict (List String)
users_headers = ("content-type", "application/json" ∷ []) ∷ ("x-own", "u" ∷ []) ∷ []

users_headers_run :
    add_headers counter listed users_config cfg (some "users") [] 1 ≡ ok (users_headers, 1)
unfolding add_headers add_each is_none_or_hits ◌>>=◌ insert lookup
users_headers_run = refl

add_headers_lem_example :
    (chosen : Dict (List String)) × IsChosen
      (some "users")
      users_config.subgraph_overrides.headers
      configured
      chosen
    × HasHeaders listed cfg.header_ratio chosen users_headers
add_headers_lem_example =
    add_headers_lem counter listed listed-IsHeaderOps users_config cfg (some "users") 1 1
      users_headers users_headers_run

pub config-IsSound :
    (name : Option String) → Returns.IsSound counter (rgen_cfg_of engine config name)
unfolding lookup
config-IsSound none = cfg-IsSound
config-IsSound (some name) = cfg-IsSound

pub http_errors_valid :
    (name : Option String) → IsRatio (rgen_cfg_of engine config name).http_error_ratio
unfolding lookup
http_errors_valid none = tt
http_errors_valid (some name) = tt

pub config-HasRatios :
    (name : Option String) → HasRatios (rgen_cfg_of engine config name).header_ratio
unfolding lookup
config-HasRatios none n = tt
config-HasRatios (some name) n = tt

asked-IsServable :
    IsServable engine counter-IsLawful cfg cfg-IsSound schema (request_of request) 2 5 asked
asked-IsServable = record {
  op = operation;
  first = refl;
  planned = λ h. record {
    rank = no_rank;
    limit = 1;
    r = 1;
    height = 3;
    valid = asked-IsValid;
    enough = omega arith;
    deep = omega arith;
    answerable = query-IsAnswerable;
  };
}

named-IsServable :
    (name : Option String)
    → IsServable engine counter-IsLawful
        (rgen_cfg_of engine config name)
        (config-IsSound name)
        schema
        (request_of request)
        2
        5
        asked
unfolding lookup config-IsSound
named-IsServable none = asked-IsServable
named-IsServable (some name) = asked-IsServable

inr-injective : {A B : Type 0} {a b : B} → Path (A ⊎ B) (inr a) (inr b) → a ≡ b
inr-injective h = cc

abbrev pub IsServed : Option String → RawRequest → Type 0
IsServed name raw =
    Servable engine engine-IsEngine config schema "body" name 2 5 (config-IsSound name)
      (http_errors_valid name) (config-HasRatios name) (request_of raw) world

request_servable : (name : Option String) → IsServed name request
unfolding engine-IsEngine
request_servable name doc (inl e) =
    subst
      (IsServable engine counter-IsLawful (rgen_cfg_of engine config name) (config-IsSound name)
        schema (request_of request) 2 5)
      (inr-injective e) (named-IsServable name)
request_servable name doc (inr e) = absurd (none-ne-some _ e)

pub body_servable :
    (name : Option String) (raw : RawRequest)
    → engine.from_slice "body" ≡ inr raw
    → IsServed name raw
body_servable name raw e = subst (IsServed name) (inr-injective e) (request_servable name)

run_handle : String → Outcome (Response (Dict (List String)) × World engine)
unfolding build_selection_set fill field_value nullable_value present_value typename leaf_field
    should_be_null array_leaf_field array_selection_set arbitrary_array_len arbitrary_union_member
    merge_selections collect_fields repeat ◌>>=◌ random_range random_below random_ratio random_int
    choose generate lookup insert hits random_data respond generate_response keys attempt drawn
    parse_and_validate answer_operation into_response_no_cache into_response with_headers
    handle_request handle add_headers add_each is_none_or_hits
run_handle body = handle engine 2 5 config schema body none world

pub reply : Response (Dict (List String))
reply = record { status = 200; headers = headers; body = "{}" }

after : World engine
after = record {
  random = 7;
  responses = engine.responses.set 7 ("{}", 200) world.responses;
  documents = engine.documents.set 7 asked world.documents;
}

run_answers : run_handle "body" ≡ ok (reply, after)
unfolding run_handle reply after
run_answers = refl

own_query :
    (raw : RawRequest) (c : ResponseGenerationConfig)
    → engine.from_slice "body" ≡ inr raw
    → IsGenerationOf engine config none c
    → Asked raw.query c schema.source
own_query raw c e chosen =
    subst (λ (r : RawRequest). Asked r.query c schema.source) (inr-injective e)
      (refl, is_common chosen, refl)
  where
    is_common : {c : ResponseGenerationConfig} → IsGenerationOf engine config none c → c ≡ cfg
    is_common (unnamed e common) = common
    is_common (own name e there) = cc
    is_common (general name e absent common) = common

handle_replies_example :
    IsSound engine Asked after × IsReply engine Asked config schema "body" none reply
unfolding run_handle
handle_replies_example =
    handle_replies engine engine-IsEngine Asked config schema "body" none 2 5 own_query world after
      reply (world-IsSound Asked) run_answers

no_collision : IsCollisionFree engine Asked
no_collision = record {
  same = λ query query' c c' text text' h h' e. (h.0 ∙ sym h'.0, h.1 ∙ sym h'.1, h.2 ∙ sym h'.2);
}

handle-IsOwn_example :
    (raw : RawRequest) × (c : ResponseGenerationConfig) × (engine.from_slice "body" ≡ inr raw)
    × IsGenerationOf engine config none c
    × IsOwn engine c raw.query schema.source "{}"
unfolding run_handle reply
handle-IsOwn_example =
    handle-IsOwn engine Asked no_collision config schema "body" none own_query engine-IsEngine 2 5
      world after reply (world-IsSound Asked) run_answers refl

handle_returns_example :
    (res : Response (Dict (List String))) × (w : World engine) × (handle engine 2 5 config schema
        "body" none world
      ≡ ok (res, w))
    × IsSound engine Anything w
    × IsReply engine Anything config schema "body" none res
handle_returns_example =
    handle_returns engine engine-IsEngine config schema "body" none 2 5 (config-IsSound none)
      (http_errors_valid none) (config-HasRatios none) world (world-IsSound Anything)
      (body_servable none)
