-- ===== src/Config/Contract.antt =====
-- What `Config::parse_yaml` of src/state/config.rs makes of a file: its contract.
use subgraph_mock.Base.{ℕ, String, ◌≡◌, ◌⊎◌, none, some, lookup, ok}
use subgraph_mock.Latency.{new_generator}
use subgraph_mock.Generation.{merge_default_scalars}
use subgraph_mock.Config.{Yaml, mapping, tagged, Mapping, entry, get, merge_yaml}
use subgraph_mock.Config.Settings.{BaseConfig, Parts, SubgraphOverrides, Config, Libraries, remove}

-- An entry of a mapping.
pub data IsEntry {K : Type 0} (k : K) (v : Yaml K) : Mapping K → Type 0 where
  here : (m : Mapping K) → IsEntry k v (entry k v m)
  there : (j : K) (w : Yaml K) (m : Mapping K) → IsEntry k v m → IsEntry k v (entry j w m)

-- Two values that are mappings `m` and `n` under the same tags.
pub data AreUnderTags {K : Type 0} (m n : Mapping K) : Yaml K → Yaml K → Type 0 where
  bare : AreUnderTags m n (mapping m) (mapping n)
  under :
      (t : String) {v w : Yaml K}
      → AreUnderTags m n v w
      → AreUnderTags m n (tagged t v) (tagged t w)

-- A value that is the mapping `m` under some tags.
abbrev pub IsUnderTags : {K : Type 0} → Mapping K → Yaml K → Type 0
IsUnderTags m v = AreUnderTags m m v v

module _ {K H : Type 0} (libs : Libraries K H) where
  -- The settings that a configuration which was read amounts to: its headers are checked, its latency
  -- generator starts now, and the default scalar generators are merged in.
  pub record ArePartsOf (now : ℕ) (parsed : BaseConfig) (parts : Parts H) : Type 0 where
    pub port : parts.port ≡ parsed.port
    pub headers : libs.header_map parsed.headers ≡ ok parts.headers
    pub latency_generator : parts.latency_generator ≡ new_generator now parsed.latency
    pub response_generation :
        parts.response_generation ≡ merge_default_scalars parsed.response_generation
    pub cache_responses : parts.cache_responses ≡ parsed.cache_responses

  -- All four maps have the settings of a subgraph.
  pub record HasParts (overrides : SubgraphOverrides H) (name : String) (parts : Parts H)
      : Type 0 where
    pub headers : lookup name overrides.headers ≡ some parts.headers
    pub latency_generator : lookup name overrides.latency_generator ≡ some parts.latency_generator
    pub response_generation :
        lookup name overrides.response_generation ≡ some parts.response_generation
    pub cache_responses : lookup name overrides.cache_responses ≡ some parts.cache_responses

  pub record HasNone (overrides : SubgraphOverrides H) (name : String) : Type 0 where
    pub headers : lookup name overrides.headers ≡ none
    pub latency_generator : lookup name overrides.latency_generator ≡ none
    pub response_generation : lookup name overrides.response_generation ≡ none
    pub cache_responses : lookup name overrides.cache_responses ≡ none

  -- The settings of a subgraph come from an override that is a mapping, perhaps under tags, as they
  -- are read from it merged into the base: of the two, the override has precedence.
  pub record IsOverridden (clock : ℕ → ℕ) (base : Yaml K) (file : Mapping K)
      (overrides : SubgraphOverrides H) (name : String) : Type 0 where
    pub key : K
    pub value : Yaml K
    pub round : ℕ
    pub parsed : BaseConfig
    pub parts : Parts H
    pub is_entry : IsEntry key value file
    pub is_mapping : (m : Mapping K) × IsUnderTags m value
    pub merged : libs.from_value (merge_yaml libs.keys value base) ≡ ok parsed
    pub named : libs.name_from key ≡ ok name
    pub parts_of : ArePartsOf (clock round) parsed parts
    pub has_parts : HasParts overrides name parts

  -- The subgraph of a key has settings of its own.
  pub record IsListed (overrides : SubgraphOverrides H) (key : K) : Type 0 where
    pub name : String
    pub parts : Parts H
    pub named : libs.name_from key ≡ ok name
    pub has_parts : HasParts overrides name parts

  -- What a file that is parsed has: it is a mapping, perhaps under tags; the settings are those of
  -- the file without its overrides, and for each subgraph either none or those of an override merged
  -- into the file without its overrides; the overrides are a mapping, and each of its keys is that of
  -- a subgraph with settings of its own.
  pub record IsParsed (clock : ℕ → ℕ) (file : Yaml K) (port : ℕ) (config : Config H) : Type 0 where
    pub file_map : Mapping K
    pub base : Yaml K
    pub is_base :
        AreUnderTags file_map (remove libs (libs.key "subgraph_overrides") file_map) file base
    pub parsed : BaseConfig
    pub parts : Parts H
    pub from_base : libs.from_value base ≡ ok parsed
    pub parts_of : ArePartsOf (clock 0) parsed parts
    pub port_is : port ≡ parts.port
    pub headers : config.headers ≡ parts.headers
    pub latency_generator : config.latency_generator ≡ parts.latency_generator
    pub response_generation : config.response_generation ≡ parts.response_generation
    pub cache_responses : config.cache_responses ≡ parts.cache_responses
    pub overrides :
        (name : String)
        → HasNone config.subgraph_overrides name
          ⊎ ((entries : Mapping K) × (get libs.keys (libs.key "subgraph_overrides") file_map
                ≡ some (mapping entries))
              × IsOverridden clock base entries config.subgraph_overrides name)
    pub are_mapping :
        (v : Yaml K)
        → get libs.keys (libs.key "subgraph_overrides") file_map ≡ some v
        → (entries : Mapping K) × (v ≡ mapping entries)
    pub all_listed :
        (entries : Mapping K) (key : K) (value : Yaml K)
        → get libs.keys (libs.key "subgraph_overrides") file_map ≡ some (mapping entries)
        → IsEntry key value entries
        → IsListed config.subgraph_overrides key
