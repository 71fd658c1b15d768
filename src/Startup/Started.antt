-- ===== src/Startup/Started.antt =====
-- What `Args::init` of src/lib.rs returns: the state that the server starts with.
use mathlib.Core.Path.{subst}
use subgraph_mock.Base.{
  ℕ, ◌≡◌, String, Option, none, some, true, [], ◌∷◌, pos, ok, ok-injective, >>=-eq-ok,
}
use subgraph_mock.Http.{HeaderOps}
use subgraph_mock.Config.{Yaml}
use subgraph_mock.Config.Settings.{Config}
use subgraph_mock.Config.Contract.{IsParsed}
use subgraph_mock.Config.Overrides.{parse_yaml-IsParsed}
use subgraph_mock.Generation.{ScalarGenerator}
use subgraph_mock.Loading.{parse}
use subgraph_mock.Loading.Served.{IsLoaded, parse-IsLoaded, parse-source}
use subgraph_mock.Startup.{Args, Host, State, new_state, load_config, init}

module _ {H : HeaderOps} {K W : Type 0} (host : Host H K W) where
  -- The configuration without a file, which starts at a moment: no header is added; responses are
  -- delayed by 5 ms and a sine wave of 2 ms in 10 s; the built-in scalars have generators, arrays
  -- have up to 10 items, one nullable value of two is null and no error is returned on purpose; what
  -- is answered is cached; and no subgraph has settings of its own.
  abbrev plain_config : ℕ → Config H.HeaderMap
  plain_config moment = record {
    headers = H.empty;
    latency_generator = record {
      start = moment;
      cfg = record {
        base = record { secs = 0; nanos = 5_000_000 };
        saw = none;
        sine = some (record {
          amplitude = record { secs = 0; nanos = 2_000_000 };
          period = record { secs = 10; nanos = 0 };
        });
        square = none;
        triangle = none;
      };
    };
    response_generation = record {
      scalars =
          ("Boolean", ScalarGenerator.bool)
          ∷ ("Int", ScalarGenerator.int (pos 0) (pos 100))
          ∷ ("ID", ScalarGenerator.int (pos 0) (pos 100))
          ∷ ("Float", ScalarGenerator.float 0xBFF0000000000000 0x3FF0000000000000)
          ∷ ("String", ScalarGenerator.string 1 10)
          ∷ [];
      array = record { min_length = 0; max_length = 10 };
      null_ratio = some (1, 2);
      header_ratio = [];
      http_error_ratio = none;
      graphql_errors = record { request_error_ratio = none; field_error_ratio = none };
    };
    cache_responses = true;
    subgraph_overrides = record {
      headers = [];
      latency_generator = [];
      response_generation = [];
      cache_responses = [];
    };
  }

  -- A configuration is the one above on port 8080, or what a file of YAML says.
  pub data IsConfigured : Option String → ℕ → Config H.HeaderMap → Type 0 where
    by_default : IsConfigured none 8080 (plain_config (host.clock 0))
    by_file :
        {port : ℕ} {config : Config H.HeaderMap} (path text : String) (file : Yaml K)
        → host.files path ≡ ok text
        → host.from_slice text ≡ ok file
        → IsParsed host.libs host.clock file port config
        → IsConfigured (some path) port config

  -- The schema is what its file was at the start, parsed and patched, and this file is watched.
  pub record IsStarted (args : Args) (port : ℕ) (state : State H W) : Type 0 where
    pub configured : IsConfigured args.config port state.config
    pub read : host.files args.schema ≡ ok state.schema.source
    pub loaded : IsLoaded host.compiler state.schema
    pub created : W
    pub watched : host.watch args.schema created ≡ ok state.schema_watcher

  load_config-IsConfigured :
      (path : Option String) {loaded : ℕ × Config H.HeaderMap}
      → load_config host path ≡ ok loaded
      → IsConfigured path loaded.0 loaded.1
  unfolding load_config
  load_config-IsConfigured none e =
      subst (λ loaded. IsConfigured none loaded.0 loaded.1) (ok-injective e) by_default
  load_config-IsConfigured (some path) e =
      let (text, read, e2) = >>=-eq-ok (host.files path) _ e in
      let (file, from, e3) = >>=-eq-ok (host.from_slice text) _ e2 in
      by_file path text file read from (parse_yaml-IsParsed host.libs host.clock file e3)

  new_state-IsStarted :
      (args : Args) (port : ℕ) (config : Config H.HeaderMap) {state : State H W}
      → IsConfigured args.config port config
      → new_state host config args.schema ≡ ok state
      → IsStarted args port state
  unfolding new_state
  new_state-IsStarted args port config configured e =
      let (schema, parsed, e2) = >>=-eq-ok (parse host.compiler host.files args.schema) _ e in
      let (created, _, e3) = >>=-eq-ok host.new_watcher _ e2 in
      let (watcher, watched, e4) = >>=-eq-ok (host.watch args.schema created) _ e3 in
      subst (IsStarted args port) (ok-injective e4) (record {
        configured = configured;
        read = parse-source host.compiler host.files args.schema parsed;
        loaded = parse-IsLoaded host.compiler host.files args.schema parsed;
        created = created;
        watched = watched;
      })

  -- What the server starts with: without a configuration file the port is 8080 and the configuration
  -- the one that is written out above, and else they are what the file says as a mapping of YAML,
  -- perhaps under tags, in the terms of the contract of its parser; the schema has the
  -- text of its file, and is the valid result of parsing and patching it; and this file is watched.
  pub init-IsStarted :
      (args : Args) (port : ℕ) (state : State H W)
      → init host args ≡ ok (port, state)
      → IsStarted args port state
  unfolding init
  init-IsStarted args port state e =
      let (loaded, is_loaded, e2) = >>=-eq-ok (load_config host args.config) _ e in
      let (started, is_started, e3) = >>=-eq-ok (new_state host loaded.1 args.schema) _ e2 in
      subst (λ r. IsStarted args r.0 r.1) (ok-injective e3)
        (new_state-IsStarted args loaded.0 loaded.1 (load_config-IsConfigured args.config is_loaded)
          is_started)
