-- ===== src/Tests/Config.antt =====
-- `merge_yaml` and `parse_yaml` at small files.
use subgraph_mock.Base.{
  ℕ, String, true, ◌≡◌, refl, Option, some, [], ◌∷◌, Outcome, ok, err, ◌==◌, eq_iff, Dict, insert,
}
use subgraph_mock.Config.{
  Yaml, Mapping, mapping, no_entries, entry, bool, number, string, tagged, KeyEquality, get,
  merge_at, merge_yaml,
}
use subgraph_mock.Latency.{default_latency, new_generator}
use subgraph_mock.Generation.{default_generation, merge_default_scalars}
use subgraph_mock.Config.Paths.{
  IsEquality, missing, below, value_at, value_at-merge_yaml, value_at-merge_yaml_untouched,
}
use subgraph_mock.Config.Settings.{
  BaseConfig, Config, Libraries, default_base_config, parse_yaml, finish_file, add_overrides,
  subgraph_parts, into_parts, remove,
}
use subgraph_mock.Config.Contract.{IsParsed}
use subgraph_mock.Config.Overrides.{parse_yaml-IsParsed}

abbrev pub keys : KeyEquality String
keys = record { same = λ j k. j == k }

keys-IsEquality : IsEquality keys
keys-IsEquality = record { iff = eq_iff }

abbrev latency : Yaml String → Yaml String
latency base = mapping (entry "latency" (mapping (entry "base" base no_entries)) no_entries)

abbrev file : Mapping String
file = entry "port" (number "8081") (
    entry "latency" (mapping (entry "base" (string "5ms") (entry "sine" (bool true) no_entries)))
      no_entries)

merged :
    merge_yaml keys (latency (string "9ms")) (mapping file)
    ≡ mapping (
        entry "port" (number "8081") (
          entry "latency"
            (mapping (entry "base" (string "9ms") (entry "sine" (bool true) no_entries)))
            no_entries))
unfolding merge_yaml merge_at
merged = refl

value_at-merge_yaml_example :
    value_at keys keys-IsEquality
      ("latency" ∷ "base" ∷ [])
      (merge_yaml keys (latency (string "9ms")) (mapping file))
    ≡ some (string "9ms")
unfolding get
value_at-merge_yaml_example =
    value_at-merge_yaml keys keys-IsEquality ("latency" ∷ "base" ∷ []) (latency (string "9ms"))
      (mapping file) (refl, (refl, tt, tt), tt) refl refl

value_at-merge_yaml_untouched_example :
    value_at keys keys-IsEquality
      ("latency" ∷ "sine" ∷ [])
      (merge_yaml keys (latency (string "9ms")) (mapping file))
    ≡ value_at keys keys-IsEquality ("latency" ∷ "sine" ∷ []) (mapping file)
unfolding get
value_at-merge_yaml_untouched_example =
    value_at-merge_yaml_untouched keys keys-IsEquality ("latency" ∷ "sine" ∷ [])
      (latency (string "9ms")) (mapping file) (refl, (refl, tt, tt), tt)
      (below "latency" ("sine" ∷ []) _ (mapping (entry "base" (string "9ms") no_entries)) refl
        (missing "sine" [] _ refl))

-- The headers that a file lists, and otherwise the default configuration.
abbrev texts : Mapping String → Dict String
texts no_entries = []
texts (entry name (string text) m) = (name, text) ∷ texts m
texts (entry name _ m) = texts m

abbrev texts_of : Option (Yaml String) → Dict String
texts_of (some (mapping m)) = texts m
texts_of _ = []

abbrev read : Yaml String → Outcome BaseConfig
read (mapping m) = ok (record default_base_config { headers = texts_of (get keys "headers" m) })
read (tagged t v) = read v
read _ = err "invalid type: expected struct BaseConfig"

abbrev libs : Libraries String (Dict String)
libs = record {
  keys = keys;
  key = λ s. s;
  from_value = read;
  name_from = λ k. ok k;
  header_map = λ m. ok m;
}

abbrev listed : String → Yaml String
listed text =
    mapping (entry "headers" (mapping (entry "x-mock" (string text) no_entries)) no_entries)

-- The file of a server whose subgraph `users` has another value of a header.
abbrev overridden : Yaml String
overridden = mapping (
    entry "headers" (mapping (entry "x-mock" (string "a") (entry "x-kept" (string "c") no_entries)))
      (entry "subgraph_overrides" (mapping (entry "users" (listed "b") no_entries)) no_entries))

abbrev moment : ℕ → ℕ
moment n = n

abbrev parsed : Config (Dict String)
parsed = record {
  headers = ("x-mock", "a") ∷ ("x-kept", "c") ∷ [];
  latency_generator = new_generator 0 default_latency;
  response_generation = merge_default_scalars default_generation;
  cache_responses = true;
  subgraph_overrides = record {
    headers = ("users", ("x-mock", "b") ∷ ("x-kept", "c") ∷ []) ∷ [];
    latency_generator = ("users", new_generator 1 default_latency) ∷ [];
    response_generation = ("users", merge_default_scalars default_generation) ∷ [];
    cache_responses = ("users", true) ∷ [];
  };
}

runs : Unit {0}
unfolding parse_yaml finish_file add_overrides subgraph_parts into_parts remove get insert
    merge_yaml merge_at
runs = tt

parse_yaml_runs : parse_yaml libs moment overridden ≡ ok (8080, parsed)
unfolding runs
parse_yaml_runs = refl

-- A file may stand under a tag, but then a subgraph has nothing of the rest of it.
tagged_file :
    parse_yaml libs moment (tagged "!config" overridden)
    ≡ ok (
      8080,
      record parsed {
        subgraph_overrides = record parsed.subgraph_overrides {
          headers = ("users", ("x-mock", "b") ∷ []) ∷ [];
        };
      },
    )
unfolding runs
tagged_file = refl

-- The overrides themselves may not stand under a tag, and neither may the file be a text.
tagged_overrides :
    parse_yaml libs moment
      (mapping (entry "subgraph_overrides" (tagged "!o" (mapping no_entries)) no_entries))
    ≡ err "config file must be a mapping"
unfolding runs
tagged_overrides = refl

no_mapping : parse_yaml libs moment (string "port: 80") ≡ err "config file must be a mapping"
unfolding runs
no_mapping = refl

-- An override under a tag replaces the rest of the file.
tagged_override : merge_yaml keys (tagged "!o" (listed "b")) (listed "a") ≡ tagged "!o" (listed "b")
unfolding runs
tagged_override = refl

parse_yaml-IsParsed_example : IsParsed libs moment overridden 8080 parsed
parse_yaml-IsParsed_example = parse_yaml-IsParsed libs moment overridden parse_yaml_runs
