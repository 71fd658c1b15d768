-- ===== src/Config.antt =====
-- `merge_yaml` of src/state/config.rs: a subgraph's overrides merged into the base configuration.
pub mod Paths
pub mod Settings
pub mod Contract
pub mod Reading
pub mod Storing
pub mod Overrides
use subgraph_mock.Base.{String, Bool, Option, none, some, if◌then◌else◌}

-- `serde_yaml::Value`. Of the keys of a mapping, which are values too, only the equality is used:
-- `K` is their type. A number stands as its text.
mutual
  pub data Yaml (K : Type 0) : Type 0 where
    null : Yaml K
    bool : Bool → Yaml K
    number : String → Yaml K
    string : String → Yaml K
    sequence : Elements K → Yaml K
    mapping : Mapping K → Yaml K
    tagged : String → Yaml K → Yaml K

  pub data Elements (K : Type 0) : Type 0 where
    no_elements : Elements K
    element : Yaml K → Elements K → Elements K

  pub data Mapping (K : Type 0) : Type 0 where
    no_entries : Mapping K
    entry : K → Yaml K → Mapping K → Mapping K

-- Equality of keys.
pub record KeyEquality (K : Type 0) : Type 0 where
  pub same : K → K → Bool

module _ {K : Type 0} (eq : KeyEquality K) where
  -- `Mapping::get`
  unfoldable pub get : K → Mapping K → Option (Yaml K)
  get k no_entries = none
  get k (entry j w m) = if eq.same j k then some w else get k m

  -- The value at a key becomes `merge` of what it is; a key that is absent is inserted with
  -- `override_val` at the end.
  unfoldable pub merge_at : K → Yaml K → (Yaml K → Yaml K) → Mapping K → Mapping K
  merge_at key override_val merge no_entries = entry key override_val no_entries
  merge_at key override_val merge (entry j base_val base_map) =
      if eq.same j key
      then entry j (merge base_val) base_map
      else entry j base_val (merge_at key override_val merge base_map)

  -- Mappings are merged; a base that is no mapping is replaced.
  abbrev pub merge_onto : Mapping K → (Mapping K → Mapping K) → Yaml K → Yaml K
  merge_onto override_map merge (mapping base_map) = mapping (merge base_map)
  merge_onto override_map merge base = mapping override_map

  unfoldable mutual
    pub merge_yaml : Yaml K → Yaml K → Yaml K
    merge_yaml null base = null
    merge_yaml (bool b) base = bool b
    merge_yaml (number n) base = number n
    merge_yaml (string s) base = string s
    merge_yaml (sequence l) base = sequence l
    merge_yaml (tagged t v) base = tagged t v
    merge_yaml (mapping override_map) base =
        merge_onto override_map (merge_mapping override_map) base

    -- The loop over the entries of the overrides.
    pub merge_mapping : Mapping K → Mapping K → Mapping K
    merge_mapping no_entries base_map = base_map
    merge_mapping (entry key override_val overrides) base_map =
        merge_mapping overrides (merge_at key override_val (merge_yaml override_val) base_map)
