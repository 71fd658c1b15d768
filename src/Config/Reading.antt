-- ===== src/Config/Reading.antt =====
-- What `Config::parse_yaml` of src/state/config.rs takes for a mapping, and what it reads the settings
-- of a subgraph from.
use mathlib.Core.Path.{subst}
use mathlib.Core.Option.{some-injective}
use subgraph_mock.Base.{
  ok-injective, ℕ, String, ◌≡◌, ◌∙◌, sym, ap, Option, none, some, ok, >>=-eq-ok, ok_or,
}
use subgraph_mock.Config.{
  Yaml, null, bool, number, string, sequence, tagged, mapping, Mapping, merge_yaml,
}
use subgraph_mock.Config.Contract.{AreUnderTags, bare, under, IsUnderTags, ArePartsOf}
use subgraph_mock.Config.Settings.{
  BaseConfig, Parts, Libraries, into_parts, as_mapping, with_mapping, subgraph_parts,
}

module _ {K H : Type 0} (libs : Libraries K H) where
  -- A value that is taken for a mapping is one under tags, and the edited one has the same tags.
  pub as_mapping-AreUnderTags :
      (y : Yaml K) (n : Mapping K) {m : Mapping K}
      → as_mapping libs y ≡ some m
      → AreUnderTags m n y (with_mapping libs n y)
  as_mapping-AreUnderTags (mapping m) n e = rw (some-injective _ _ e) bare
  as_mapping-AreUnderTags (tagged t v) n e = under t (as_mapping-AreUnderTags v n e)
  as_mapping-AreUnderTags null n e = cc
  as_mapping-AreUnderTags (bool b) n e = cc
  as_mapping-AreUnderTags (number x) n e = cc
  as_mapping-AreUnderTags (string t) n e = cc
  as_mapping-AreUnderTags (sequence l) n e = cc

  as_mapping-IsUnderTags :
      (y : Yaml K) {m : Mapping K} → as_mapping libs y ≡ some m → IsUnderTags m y
  as_mapping-IsUnderTags (mapping m) e = rw (some-injective _ _ e) bare
  as_mapping-IsUnderTags (tagged t v) e = under t (as_mapping-IsUnderTags v e)
  as_mapping-IsUnderTags null e = cc
  as_mapping-IsUnderTags (bool b) e = cc
  as_mapping-IsUnderTags (number x) e = cc
  as_mapping-IsUnderTags (string t) e = cc
  as_mapping-IsUnderTags (sequence l) e = cc

  pub ok_or-eq_ok :
      {A : Type 0} (o : Option A) (message : String) {a : A} → ok_or o message ≡ ok a → o ≡ some a
  ok_or-eq_ok none message e = cc
  ok_or-eq_ok (some b) message e = cc

  pub into_parts-ArePartsOf :
      (now : ℕ) (parsed : BaseConfig) {parts : Parts H}
      → into_parts libs now parsed ≡ ok parts
      → ArePartsOf libs now parsed parts
  unfolding into_parts
  into_parts-ArePartsOf now parsed e =
      let (headers, is_headers, e2) = >>=-eq-ok (libs.header_map parsed.headers) _ e in
      let same = ok-injective e2 in
      record {
        port = sym (ap (λ p. p.port) same);
        headers = is_headers ∙ ap (λ p. ok p.headers) same;
        latency_generator = sym (ap (λ p. p.latency_generator) same);
        response_generation = sym (ap (λ p. p.response_generation) same);
        cache_responses = sym (ap (λ p. p.cache_responses) same);
      }

  -- What the settings of one subgraph are read from.
  pub record IsRead (base : Yaml K) (now : ℕ) (key : K) (value : Yaml K) (name : String)
      (parts : Parts H) : Type 0 where
    pub parsed : BaseConfig
    pub is_mapping : (m : Mapping K) × IsUnderTags m value
    pub merged : libs.from_value (merge_yaml libs.keys value base) ≡ ok parsed
    pub named : libs.name_from key ≡ ok name
    pub parts_of : ArePartsOf libs now parsed parts

  pub subgraph_parts-IsRead :
      (base : Yaml K) (now : ℕ) (key : K) (value : Yaml K) {added : String × Parts H}
      → subgraph_parts libs base now key value ≡ ok added
      → IsRead base now key value added.0 added.1
  unfolding subgraph_parts
  subgraph_parts-IsRead base now key value e =
      let (m, is_m, e2) = >>=-eq-ok (ok_or (as_mapping libs value) _) _ e in
      let (parsed, merged, e3) =
        >>=-eq-ok (libs.from_value (merge_yaml libs.keys value base)) _ e2 in
      let (name, named, e4) = >>=-eq-ok (libs.name_from key) _ e3 in
      let (parts, parts_of, e5) = >>=-eq-ok (into_parts libs now parsed) _ e4 in
      subst (λ r. IsRead base now key value r.0 r.1) (ok-injective e5)
        (record {
          parsed = parsed;
          is_mapping =
              (m, as_mapping-IsUnderTags value (ok_or-eq_ok (as_mapping libs value) _ is_m));
          merged = merged;
          named = named;
          parts_of = into_parts-ArePartsOf now parsed parts_of;
        })
