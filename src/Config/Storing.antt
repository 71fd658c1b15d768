-- ===== src/Config/Storing.antt =====
-- The maps of settings that `Config::parse_yaml` of src/state/config.rs fills for the subgraphs.
use mathlib.Core.Path.{subst}
use subgraph_mock.Base.{
  ok-injective, ℕ, ◌+◌, String, false, ◌≡◌, refl, ◌∙◌, sym, ◌⊎◌, ok, ◌==◌, lookup-insert_other,
  lookup-insert_same, >>=-eq-ok, Bool-cases, inl, inr, eq_iff,
}
use subgraph_mock.Config.{Yaml, Mapping, no_entries, entry}
use subgraph_mock.Config.Contract.{IsEntry, here, there, HasParts, HasNone, IsListed}
use subgraph_mock.Config.Reading.{subgraph_parts-IsRead}
use subgraph_mock.Config.Settings.{
  Parts, SubgraphOverrides, Libraries, insert_parts, subgraph_parts, add_overrides,
}

module _ {K H : Type 0} (libs : Libraries K H) where
  pub insert_parts-HasParts :
      (name : String) (parts : Parts H) (overrides : SubgraphOverrides H)
      → HasParts libs (insert_parts libs name parts overrides) name parts
  insert_parts-HasParts name parts overrides = record {
    headers = lookup-insert_same name parts.headers overrides.headers;
    latency_generator = lookup-insert_same name parts.latency_generator overrides.latency_generator;
    response_generation =
        lookup-insert_same name parts.response_generation overrides.response_generation;
    cache_responses = lookup-insert_same name parts.cache_responses overrides.cache_responses;
  }

  pub HasParts-insert_parts :
      (name : String) (parts : Parts H) (overrides : SubgraphOverrides H) (other : String)
      {old : Parts H}
      → name == other ≡ false
      → HasParts libs overrides other old
      → HasParts libs (insert_parts libs name parts overrides) other old
  HasParts-insert_parts name parts overrides other differ h = record {
    headers = lookup-insert_other other name _ _ differ ∙ h.headers;
    latency_generator = lookup-insert_other other name _ _ differ ∙ h.latency_generator;
    response_generation = lookup-insert_other other name _ _ differ ∙ h.response_generation;
    cache_responses = lookup-insert_other other name _ _ differ ∙ h.cache_responses;
  }

  pub HasNone-insert_parts :
      (name : String) (parts : Parts H) (overrides : SubgraphOverrides H) (other : String)
      → name == other ≡ false
      → HasNone libs overrides other
      → HasNone libs (insert_parts libs name parts overrides) other
  HasNone-insert_parts name parts overrides other differ h = record {
    headers = lookup-insert_other other name _ _ differ ∙ h.headers;
    latency_generator = lookup-insert_other other name _ _ differ ∙ h.latency_generator;
    response_generation = lookup-insert_other other name _ _ differ ∙ h.response_generation;
    cache_responses = lookup-insert_other other name _ _ differ ∙ h.cache_responses;
  }

  -- A name with settings keeps settings, perhaps those of a later override.
  abbrev IsStored : SubgraphOverrides H → String → Type 0
  IsStored overrides name = (parts : Parts H) × HasParts libs overrides name parts

  insert_parts-IsStored :
      (name : String) (parts : Parts H) (overrides : SubgraphOverrides H) (other : String)
      → IsStored overrides other
      → IsStored (insert_parts libs name parts overrides) other
  insert_parts-IsStored name parts overrides other (old, h) = elim (Bool-cases (name == other)) [
    | inl same ↦ (
      parts,
      subst (λ n. HasParts libs (insert_parts libs name parts overrides) n parts)
          ((eq_iff name other).0 same) (insert_parts-HasParts name parts overrides),
    )
    | inr differ ↦ (old, HasParts-insert_parts name parts overrides other differ h)
  ]

  add_overrides-IsStored :
      (base : Yaml K) (clock : ℕ → ℕ) (round : ℕ) (m : Mapping K) (overrides : SubgraphOverrides H)
      (name : String) {result : SubgraphOverrides H}
      → add_overrides libs base clock round m overrides ≡ ok result
      → IsStored overrides name
      → IsStored result name
  unfolding add_overrides
  add_overrides-IsStored base clock round no_entries overrides name e h =
      subst (λ o. IsStored o name) (ok-injective e) h
  add_overrides-IsStored base clock round (entry key value more) overrides name e h =
      let (added, from, rest) =
        >>=-eq-ok (subgraph_parts libs base (clock round) key value)
          (λ added.
            add_overrides libs base clock (round + 1) more
              (insert_parts libs added.0 added.1 overrides))
          e in
      add_overrides-IsStored base clock (round + 1) more _ name rest
        (insert_parts-IsStored added.0 added.1 overrides name h)

  entry-cases :
      {k key : K} {v value : Yaml K} {more : Mapping K}
      → IsEntry k v (entry key value more)
      → (k ≡ key) ⊎ IsEntry k v more
  entry-cases (here m) = inl refl
  entry-cases (there j w m h) = inr h

  -- Every key that the loop comes to has settings after it.
  pub add_overrides-IsListed :
      (base : Yaml K) (clock : ℕ → ℕ) (round : ℕ) (m : Mapping K) (overrides : SubgraphOverrides H)
      (k : K) (v : Yaml K) {result : SubgraphOverrides H}
      → add_overrides libs base clock round m overrides ≡ ok result
      → IsEntry k v m
      → IsListed libs result k
  unfolding add_overrides
  add_overrides-IsListed base clock round no_entries overrides k v e inside = elim inside [ ]
  add_overrides-IsListed base clock round (entry key value more) overrides k v e inside =
      let (added, from, rest) =
        >>=-eq-ok (subgraph_parts libs base (clock round) key value)
          (λ added.
            add_overrides libs base clock (round + 1) more
              (insert_parts libs added.0 added.1 overrides))
          e in
      elim (entry-cases inside) [
        | inl same ↦
            let read = subgraph_parts-IsRead libs base (clock round) key value from in
            let (parts, stored) =
              add_overrides-IsStored base clock (round + 1) more _ added.0 rest
                (added.1, insert_parts-HasParts added.0 added.1 overrides) in
            subst (IsListed libs _) (sym same)
              (record { name = added.0; parts = parts; named = read.named; has_parts = stored })
        | inr later ↦ add_overrides-IsListed base clock (round + 1) more _ k v rest later
      ]
