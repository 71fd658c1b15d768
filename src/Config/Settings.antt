-- ===== src/Config/Settings.antt =====
-- The configuration that is parsed from YAML: `BaseConfig`, `Config`, `SubgraphOverrides` and
-- `Config::parse_yaml` of src/state/config.rs. Log messages are left out.
use subgraph_mock.Base.{
  ℕ, ◌+◌, String, Bool, true, Option, none, some, [], Dict, insert, Outcome, ok, err, ok_or, ◌>>=◌,
  if◌then◌else◌,
}
use subgraph_mock.Latency.{LatencyConfig, LatencyGenerator, default_latency, new_generator}
use subgraph_mock.Generation.{ResponseGenerationConfig, default_generation, merge_default_scalars}
use subgraph_mock.Config.{
  Yaml, mapping, tagged, Mapping, no_entries, entry, KeyEquality, get, merge_yaml,
}

pub record BaseConfig : Type 0 where
  pub port : ℕ
  pub headers : Dict String
  pub latency : LatencyConfig
  pub response_generation : ResponseGenerationConfig
  pub cache_responses : Bool

abbrev pub default_port : ℕ
default_port = 8080

abbrev pub default_cache_responses : Bool
default_cache_responses = true

abbrev pub default_base_config : BaseConfig
default_base_config = record {
  port = default_port;
  headers = [];
  latency = default_latency;
  response_generation = default_generation;
  cache_responses = default_cache_responses;
}

-- The tuple that `into_parts` returns; `H` is `HeaderMap<HeaderValue>`.
pub record Parts (H : Type 0) : Type 0 where
  pub port : ℕ
  pub cache_responses : Bool
  pub latency_generator : LatencyGenerator
  pub headers : H
  pub response_generation : ResponseGenerationConfig

pub record SubgraphOverrides (H : Type 0) : Type 0 where
  pub headers : Dict H
  pub latency_generator : Dict LatencyGenerator
  pub response_generation : Dict ResponseGenerationConfig
  pub cache_responses : Dict Bool

pub record Config (H : Type 0) : Type 0 where
  pub headers : H
  pub latency_generator : LatencyGenerator
  pub response_generation : ResponseGenerationConfig
  pub cache_responses : Bool
  pub subgraph_overrides : SubgraphOverrides H

abbrev pub no_overrides : {H : Type 0} → SubgraphOverrides H
no_overrides = record {
  headers = [];
  latency_generator = [];
  response_generation = [];
  cache_responses = [];
}

-- `Config::default`, at the moment `now`.
abbrev pub default_config : {H : Type 0} → H → ℕ → Config H
default_config no_headers now = record {
  headers = no_headers;
  latency_generator = new_generator now default_latency;
  response_generation = default_generation;
  cache_responses = default_cache_responses;
  subgraph_overrides = no_overrides;
}

-- What is called of other crates. A key of a mapping is of type `K`.
pub record Libraries (K H : Type 0) : Type 0 where
  pub keys : KeyEquality K
  -- A string as the key of a mapping.
  pub key : String → K
  -- `serde_yaml::from_value` to a `BaseConfig`, and of a key to a `String`.
  pub from_value : Yaml K → Outcome BaseConfig
  pub name_from : K → Outcome String
  -- The names and values of headers, checked and collected into a `HeaderMap`.
  pub header_map : Dict String → Outcome H

-- The last entry of a mapping in place of the one that is removed, and the mapping without it.
abbrev pub without_last : {K : Type 0} → K → Yaml K → Mapping K → Mapping K
without_last k v no_entries = no_entries
without_last k v (entry j w m) = entry k v (without_last j w m)

abbrev pub moved_last : {K : Type 0} → Mapping K → Mapping K → Mapping K
moved_last no_entries rest = no_entries
moved_last (entry k v no_entries) rest = entry k v rest
moved_last (entry k v (entry j w m)) rest = moved_last (entry j w m) rest

abbrev pub removed_first : {K : Type 0} → Mapping K → Mapping K
removed_first no_entries = no_entries
removed_first (entry k v m) = moved_last (entry k v m) (without_last k v m)

module _ {K H : Type 0} (libs : Libraries K H) where
  -- `Mapping::remove`, which swaps the entry with the last one.
  unfoldable pub remove : K → Mapping K → Mapping K
  remove k no_entries = no_entries
  remove k (entry j w m) = if libs.keys.same j k then removed_first m else entry j w (remove k m)

  -- `now` is the moment at which the latency generator starts.
  unfoldable pub into_parts : ℕ → BaseConfig → Outcome (Parts H)
  into_parts now config = libs.header_map config.headers >>= λ additional_headers. ok (record {
    port = config.port;
    cache_responses = config.cache_responses;
    latency_generator = new_generator now config.latency;
    headers = additional_headers;
    response_generation = merge_default_scalars config.response_generation;
  })

  abbrev pub insert_parts : String → Parts H → SubgraphOverrides H → SubgraphOverrides H
  insert_parts name parts overrides = record {
    headers = insert name parts.headers overrides.headers;
    latency_generator = insert name parts.latency_generator overrides.latency_generator;
    response_generation = insert name parts.response_generation overrides.response_generation;
    cache_responses = insert name parts.cache_responses overrides.cache_responses;
  }

  -- `Value::as_mapping`, which looks through tags.
  abbrev pub as_mapping : Yaml K → Option (Mapping K)
  as_mapping (mapping m) = some m
  as_mapping (tagged t v) = as_mapping v
  as_mapping _ = none

  -- A value whose mapping was edited through `Value::as_mapping_mut`, under the same tags.
  abbrev pub with_mapping : Mapping K → Yaml K → Yaml K
  with_mapping edited (mapping m) = mapping edited
  with_mapping edited (tagged t v) = tagged t (with_mapping edited v)
  with_mapping edited value = value

  -- The settings of one subgraph: its override is merged into the base.
  unfoldable pub subgraph_parts : Yaml K → ℕ → K → Yaml K → Outcome (String × Parts H)
  subgraph_parts base now subgraph_name subgraph_override =
      ok_or (as_mapping subgraph_override) "subgraph override must be a mapping" >>= λ _.
      libs.from_value (merge_yaml libs.keys subgraph_override base) >>= λ parsed_config.
      libs.name_from subgraph_name >>= λ name.
      into_parts now parsed_config >>= λ parts. ok (name, parts)

  -- The loop over the overrides; `clock` gives the moment of each round.
  unfoldable pub add_overrides :
      Yaml K → (ℕ → ℕ) → ℕ → Mapping K → SubgraphOverrides H → Outcome (SubgraphOverrides H)
  add_overrides base clock round no_entries overrides = ok overrides
  add_overrides base clock round (entry subgraph_name subgraph_override more) overrides =
      subgraph_parts base (clock round) subgraph_name subgraph_override >>= λ added.
      add_overrides base clock (round + 1) more (insert_parts added.0 added.1 overrides)

  -- The value of the overrides is matched itself, without looking through tags.
  abbrev pub parse_overrides : Yaml K → (ℕ → ℕ) → Option (Yaml K) → Outcome (SubgraphOverrides H)
  parse_overrides base clock none = ok no_overrides
  parse_overrides base clock (some (mapping m)) = add_overrides base clock 1 m no_overrides
  parse_overrides base clock (some _) = err "config file must be a mapping"

  -- The file, whose mapping is `m`, without its overrides.
  abbrev pub base_of : Yaml K → Mapping K → Yaml K
  base_of file m = with_mapping (remove (libs.key "subgraph_overrides") m) file

  abbrev pub config_of : Parts H → SubgraphOverrides H → ℕ × Config H
  config_of parts overrides = (
    parts.port,
    record {
      headers = parts.headers;
      latency_generator = parts.latency_generator;
      response_generation = parts.response_generation;
      cache_responses = parts.cache_responses;
      subgraph_overrides = overrides;
    },
  )

  abbrev pub finish_base : (ℕ → ℕ) → Yaml K → SubgraphOverrides H → Outcome (ℕ × Config H)
  finish_base clock base overrides = libs.from_value base >>= λ parsed_config.
      into_parts (clock 0) parsed_config >>= λ parts. ok (config_of parts overrides)

  unfoldable pub finish_file : (ℕ → ℕ) → Yaml K → Mapping K → Outcome (ℕ × Config H)
  finish_file clock file m =
      parse_overrides (base_of file m) clock (get libs.keys (libs.key "subgraph_overrides") m)
      >>= finish_base clock (base_of file m)

  unfoldable pub parse_yaml : (ℕ → ℕ) → Yaml K → Outcome (ℕ × Config H)
  parse_yaml clock file =
      ok_or (as_mapping file) "config file must be a mapping" >>= finish_file clock file
