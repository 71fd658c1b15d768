-- ===== src/Tests/Startup.antt =====
-- A server that is started with the default configuration.
use subgraph_mock.Base.{
  List, ◌≡◌, refl, none, String, ok, err, lookup, insert, [], Dict, ◌==◌, if◌then◌else◌,
}
use subgraph_mock.Tests.Headers.{listed}
use subgraph_mock.Config.{no_entries, mapping}
use subgraph_mock.Config.Settings.{Libraries, default_base_config, default_config}
use subgraph_mock.Federation.{
  patch_ast, patch_schema, federated_members, is_federated_type, any_federated,
  is_federated_directive, query_type_name, patch_root,
}
use subgraph_mock.Federation.Types.{insert_federation_types}
use subgraph_mock.Loading.{Compiler, Files, parse, parse_string}
use subgraph_mock.Startup.{Args, Host, State, new_state, load_config, init}
use subgraph_mock.Startup.Started.{IsStarted, init-IsStarted}
use subgraph_mock.Tests.Config.{keys}
use subgraph_mock.Tests.Federation.{small, written}
use subgraph_mock.Tests.Sample.{schema}

-- A reader that takes every mapping for the default configuration, without headers.
abbrev libs : Libraries String (Dict (List String))
libs = record {
  keys = keys;
  key = λ s. s;
  from_value = λ y. ok default_base_config;
  name_from = λ k. ok k;
  header_map = λ m. ok [];
}

-- A compiler that knows one text, and takes every schema for the one of the tests.
abbrev pub compiler : Compiler
compiler = record {
  parse = λ source. if source == "type Query" then ok [] else err "syntax error";
  to_schema = λ ast. ok small;
  validate = λ patched. ok schema.valid;
  argument_by_name = written;
}

abbrev pub files : Files
files path = ok path

schema_loads : parse compiler files "type Query" ≡ ok schema
unfolding federated_members is_federated_type any_federated is_federated_directive lookup parse
    parse_string patch_ast patch_schema query_type_name insert_federation_types patch_root insert
schema_loads = refl

abbrev pub host : Host listed String String
host = record {
  libs = libs;
  compiler = compiler;
  files = files;
  clock = λ n. n;
  from_slice = λ text. ok (mapping no_entries);
  new_watcher = ok "";
  watch = λ path watcher. ok path;
}

abbrev pub args : Args
args = record { config = none; schema = "type Query" }

abbrev pub state : State listed String
state = record { config = default_config [] 0; schema = schema; schema_watcher = "type Query" }

pub init_runs : init host args ≡ ok (8080, state)
unfolding init load_config new_state
init_runs = rw schema_loads refl

init-IsStarted_example : IsStarted host args 8080 state
init-IsStarted_example = init-IsStarted host args 8080 state init_runs
