-- ===== src/Config/Overrides.antt =====
-- The settings of each subgraph that `Config::parse_yaml` of src/state/config.rs returns.
use mathlib.Core.Path.{subst}
use subgraph_mock.Base.{
  ok-injective, ℕ, ◌+◌, String, ◌≡◌, refl, sym, ap, ◌⊎◌, Option, none, some, lookup, ok, ◌==◌,
  >>=-eq-ok, Bool-cases, inl, inr, eq_iff, ok_or,
}
use subgraph_mock.Config.{
  Yaml, null, bool, number, string, sequence, tagged, mapping, Mapping, no_entries, entry, get,
}
use subgraph_mock.Config.Contract.{IsEntry, here, there, HasNone, IsOverridden, IsListed, IsParsed}
use subgraph_mock.Config.Reading.{
  as_mapping-AreUnderTags, ok_or-eq_ok, into_parts-ArePartsOf, IsRead, subgraph_parts-IsRead,
}
use subgraph_mock.Config.Storing.{
  insert_parts-HasParts, HasParts-insert_parts, HasNone-insert_parts, add_overrides-IsListed,
}
use subgraph_mock.Config.Settings.{
  Parts, SubgraphOverrides, Config, Libraries, no_overrides, into_parts, insert_parts, as_mapping,
  subgraph_parts, add_overrides, parse_overrides, parse_yaml, finish_file, finish_base, base_of,
}

module _ {K H : Type 0} (libs : Libraries K H) (clock : ℕ → ℕ) where
  abbrev IsSound : Yaml K → Mapping K → SubgraphOverrides H → Type 0
  IsSound base file overrides =
      (name : String)
      → HasNone libs overrides name ⊎ IsOverridden libs clock base file overrides name

  insert_parts-IsSound :
      (base : Yaml K) (file : Mapping K) (key : K) (value : Yaml K) (round : ℕ) (name : String)
      (parts : Parts H) (overrides : SubgraphOverrides H)
      → IsEntry key value file
      → IsRead libs base (clock round) key value name parts
      → IsSound base file overrides
      → IsSound base file (insert_parts libs name parts overrides)
  insert_parts-IsSound base file key value round name parts overrides is_entry read sound other =
      elim (Bool-cases (name == other)) [
        | inl same ↦ ap_sound ((eq_iff name other).0 same)
        | inr differ ↦ elim (sound other) [
          | inl absent ↦ inl (HasNone-insert_parts libs name parts overrides other differ absent)
          | inr present ↦ inr (record {
            key = present.key;
            value = present.value;
            round = present.round;
            parsed = present.parsed;
            parts = present.parts;
            is_entry = present.is_entry;
            is_mapping = present.is_mapping;
            merged = present.merged;
            named = present.named;
            parts_of = present.parts_of;
            has_parts =
                HasParts-insert_parts libs name parts overrides other differ present.has_parts;
          })
        ]
      ]
    where
      ap_sound :
          {n : String}
          → name ≡ n
          → HasNone libs (insert_parts libs name parts overrides) n
            ⊎ IsOverridden libs clock base file (insert_parts libs name parts overrides) n
      ap_sound same = rw (sym same) (
          inr (record {
            key = key;
            value = value;
            round = round;
            parsed = read.parsed;
            parts = parts;
            is_entry = is_entry;
            is_mapping = read.is_mapping;
            merged = read.merged;
            named = read.named;
            parts_of = read.parts_of;
            has_parts = insert_parts-HasParts libs name parts overrides;
          }))

  IsSound-eq :
      {base : Yaml K} {file : Mapping K} {a b : SubgraphOverrides H}
      → a ≡ b
      → IsSound base file a
      → IsSound base file b
  IsSound-eq e sound = rw (sym e) sound

  add_overrides-IsSound :
      (base : Yaml K) (file : Mapping K) (round : ℕ) (m : Mapping K)
      (overrides : SubgraphOverrides H) {result : SubgraphOverrides H}
      → ((k : K) (v : Yaml K) → IsEntry k v m → IsEntry k v file)
      → IsSound base file overrides
      → add_overrides libs base clock round m overrides ≡ ok result
      → IsSound base file result
  unfolding add_overrides
  add_overrides-IsSound base file round no_entries overrides within sound e =
      IsSound-eq (ok-injective e) sound
  add_overrides-IsSound base file round (entry key value more) overrides within sound e =
      let (added, from, rest) =
        >>=-eq-ok (subgraph_parts libs base (clock round) key value)
          (λ added.
            add_overrides libs base clock (round + 1) more
              (insert_parts libs added.0 added.1 overrides))
          e in
      add_overrides-IsSound base file (round + 1) more (insert_parts libs added.0 added.1 overrides)
        (λ k v inside. within k v (there key value more inside))
        (insert_parts-IsSound base file key value round added.0 added.1 overrides
          (within key value (here more))
          (subgraph_parts-IsRead libs base (clock round) key value from) sound)
        rest

  no_overrides-HasNone : {name : String} → HasNone libs no_overrides name
  unfolding lookup
  no_overrides-HasNone = record {
    headers = refl;
    latency_generator = refl;
    response_generation = refl;
    cache_responses = refl;
  }

  OverridesSound : Yaml K → Option (Yaml K) → SubgraphOverrides H → Type 0
  OverridesSound base value overrides =
      (name : String)
      → HasNone libs overrides name
        ⊎ ((entries : Mapping K) × (value ≡ some (mapping entries))
            × IsOverridden libs clock base entries overrides name)

  parse_overrides-Sound :
      (base : Yaml K) (value : Option (Yaml K)) {result : SubgraphOverrides H}
      → parse_overrides libs base clock value ≡ ok result
      → OverridesSound base value result
  unfolding OverridesSound
  parse_overrides-Sound base none e name = inl (HasNone-eq (ok-injective e) no_overrides-HasNone)
    where
      HasNone-eq : {a b : SubgraphOverrides H} → a ≡ b → HasNone libs a name → HasNone libs b name
      HasNone-eq same h = rw (sym same) h
  parse_overrides-Sound base (some (mapping m)) e name =
      elim (add_overrides-IsSound base m 1 m no_overrides (λ k w inside. inside)
        (λ n. inl no_overrides-HasNone) e name) [
          | inl absent ↦ inl absent
          | inr present ↦ inr (m, refl, present)
        ]
  parse_overrides-Sound base (some null) e name = cc
  parse_overrides-Sound base (some (bool b)) e name = cc
  parse_overrides-Sound base (some (number n)) e name = cc
  parse_overrides-Sound base (some (string t)) e name = cc
  parse_overrides-Sound base (some (sequence l)) e name = cc
  parse_overrides-Sound base (some (tagged t v)) e name = cc

  parse_overrides-mapping :
      (base : Yaml K) (v : Yaml K) {result : SubgraphOverrides H}
      → parse_overrides libs base clock (some v) ≡ ok result
      → (entries : Mapping K) × (v ≡ mapping entries)
  parse_overrides-mapping base (mapping m) e = (m, refl)
  parse_overrides-mapping base null e = cc
  parse_overrides-mapping base (bool b) e = cc
  parse_overrides-mapping base (number n) e = cc
  parse_overrides-mapping base (string t) e = cc
  parse_overrides-mapping base (sequence l) e = cc
  parse_overrides-mapping base (tagged t v) e = cc

  OverridesSound-eq :
      (base : Yaml K) (value : Option (Yaml K)) {a b : SubgraphOverrides H}
      → a ≡ b
      → OverridesSound base value a
      → OverridesSound base value b
  OverridesSound-eq base value e sound = rw (sym e) sound

  finish_file-IsParsed :
      (file : Yaml K) (m : Mapping K) {port : ℕ} {config : Config H}
      → as_mapping libs file ≡ some m
      → finish_file libs clock file m ≡ ok (port, config)
      → IsParsed libs clock file port config
  unfolding finish_file OverridesSound
  finish_file-IsParsed file m is_m e =
      let base = base_of libs file m in
      let (overrides, run, e2) =
        >>=-eq-ok
          (parse_overrides libs base clock (get libs.keys (libs.key "subgraph_overrides") m))
          (finish_base libs clock base) e in
      let (parsed, from_base, e3) = >>=-eq-ok (libs.from_value base) _ e2 in
      let (parts, parts_of, e4) = >>=-eq-ok (into_parts libs (clock 0) parsed) _ e3 in
      let same = ok-injective e4 in
      record {
        file_map = m;
        base = base;
        is_base = as_mapping-AreUnderTags libs file _ is_m;
        parsed = parsed;
        parts = parts;
        from_base = from_base;
        parts_of = into_parts-ArePartsOf libs (clock 0) parsed parts_of;
        port_is = sym (ap (λ r. r.0) same);
        headers = sym (ap (λ r. r.1.headers) same);
        latency_generator = sym (ap (λ r. r.1.latency_generator) same);
        response_generation = sym (ap (λ r. r.1.response_generation) same);
        cache_responses = sym (ap (λ r. r.1.cache_responses) same);
        overrides =
            OverridesSound-eq base _ (ap (λ r. r.1.subgraph_overrides) same)
              (parse_overrides-Sound base (get libs.keys (libs.key "subgraph_overrides") m) run);
        are_mapping = λ v at.
            parse_overrides-mapping base v
              (subst (λ o. parse_overrides libs base clock o ≡ ok overrides) at run);
        all_listed = λ entries key value at inside.
            subst (λ o. IsListed libs o key) (ap (λ r. r.1.subgraph_overrides) same)
              (add_overrides-IsListed libs base clock 1 entries no_overrides key value
                (subst (λ o. parse_overrides libs base clock o ≡ ok overrides) at run) inside);
      }

  -- A file that is parsed is a mapping, perhaps under tags, and the configuration has the settings of
  -- the file without its overrides, which are a mapping where there are any; the subgraph of each key
  -- of theirs has settings of its own, and a subgraph has either no settings of its own or all of
  -- them: those that are read from an override of the file, a mapping too, merged into the rest of the
  -- file with precedence for the override, under the name that the override's key is read as.
  pub parse_yaml-IsParsed :
      (file : Yaml K) {port : ℕ} {config : Config H}
      → parse_yaml libs clock file ≡ ok (port, config)
      → IsParsed libs clock file port config
  unfolding parse_yaml
  parse_yaml-IsParsed file e =
      let (m, is_m, e2) =
        >>=-eq-ok (ok_or (as_mapping libs file) _) (finish_file libs clock file) e in
      finish_file-IsParsed file m (ok_or-eq_ok libs (as_mapping libs file) _ is_m) e2
