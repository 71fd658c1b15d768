-- ===== src/Startup.antt =====
-- How the server starts: `Args::init` of src/lib.rs and `State` of src/state/mod.rs, up to the loop
-- over connections. Log messages are left out.
pub mod Started
use subgraph_mock.Base.{ℕ, String, Option, none, some, [], Outcome, ok, ◌>>=◌}
use subgraph_mock.Schema.{FederatedSchema}
use subgraph_mock.Http.{HeaderOps}
use subgraph_mock.Config.{Yaml}
use subgraph_mock.Config.Settings.{Config, Libraries, default_port, default_config, parse_yaml}
use subgraph_mock.Loading.{Compiler, Files, parse}

-- `Args`: the paths of the configuration and of the schema.
pub record Args : Type 0 where
  pub config : Option String
  pub schema : String

-- What is called of other crates and of the system, with the files as they are at the start and the
-- moments that the clock shows. A key of a mapping is of type `K`, and a watcher of type `W`.
pub record Host (H : HeaderOps) (K W : Type 0) : Type 0 where
  pub libs : Libraries K H.HeaderMap
  pub compiler : Compiler
  pub files : Files
  pub clock : ℕ → ℕ
  -- `serde_yaml::from_slice`
  pub from_slice : String → Outcome (Yaml K)
  -- `PollWatcher::new` and `watch`
  pub new_watcher : Outcome W
  pub watch : String → W → Outcome W

-- `State`
pub record State (H : HeaderOps) (W : Type 0) : Type 0 where
  pub config : Config H.HeaderMap
  pub schema : FederatedSchema
  pub schema_watcher : W

module _ {H : HeaderOps} {K W : Type 0} (host : Host H K W) where
  -- `State::new`
  unfoldable pub new_state : Config H.HeaderMap → String → Outcome (State H W)
  new_state config schema_path = parse host.compiler host.files schema_path >>= λ schema.
      host.new_watcher >>= λ created. host.watch schema_path created >>= λ watcher.
      ok (record { config = config; schema = schema; schema_watcher = watcher })

  -- `State::default`
  unfoldable pub default_state : String → Outcome (State H W)
  default_state schema_path = new_state (default_config H.empty (host.clock 0)) schema_path

  unfoldable pub load_config : Option String → Outcome (ℕ × Config H.HeaderMap)
  load_config none = ok (default_port, default_config H.empty (host.clock 0))
  load_config (some path) = host.files path >>= λ bytes.
      host.from_slice bytes >>= λ file. parse_yaml host.libs host.clock file

  -- `Args::init`
  unfoldable pub init : Args → Outcome (ℕ × State H W)
  init args = load_config args.config >>= λ loaded.
      new_state loaded.1 args.schema >>= λ state. ok (loaded.0, state)
