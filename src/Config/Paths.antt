-- ===== src/Config/Paths.antt =====
-- What `merge_yaml` of src/state/config.rs leaves at each path of keys.
use mathlib.Core.Option.{some-injective}
use subgraph_mock.Base.{
  Bool, true, false, ◌≡◌, refl, ◌∙◌, sym, ap, ◌↔◌, ◌⊎◌, Option, none, some, List, [], ◌∷◌,
  if◌then◌else◌, Bool-cases, inl, inr, arith,
}
use subgraph_mock.Config.{
  Yaml, null, bool, number, string, sequence, tagged, mapping, Mapping, no_entries, entry,
  KeyEquality, get, merge_at, merge_yaml, merge_mapping,
}

-- A test that decides equality.
pub record IsEquality {K : Type 0} (eq : KeyEquality K) : Type 0 where
  pub iff : (j k : K) → (eq.same j k ≡ true) ↔ (j ≡ k)

abbrev pub is_mapping : {K : Type 0} → Yaml K → Bool
is_mapping (mapping _) = true
is_mapping _ = false

abbrev and_then {ℓ κ} : {A : Type ℓ} {B : Type κ} → Option A → (A → Option B) → Option B
and_then none f = none
and_then (some a) f = f a

module _ {K : Type 0} (eq : KeyEquality K) (law : IsEquality eq) where
  abbrev child : K → Yaml K → Option (Yaml K)
  child k (mapping m) = get eq k m
  child k _ = none

  -- The value at a path of keys.
  abbrev pub value_at : List K → Yaml K → Option (Yaml K)
  value_at [] y = some y
  value_at (k ∷ path) y = and_then (child k y) (value_at path)

  -- No mapping has a key twice.
  abbrev mutual
    pub IsProper : Yaml K → Type 0
    IsProper (mapping m) = IsProperMapping m
    IsProper _ = Unit

    pub IsProperMapping : Mapping K → Type 0
    IsProperMapping no_entries = Unit
    IsProperMapping (entry k v m) = (get eq k m ≡ none) × IsProper v × IsProperMapping m

  abbrev merged_at : Yaml K → (Yaml K → Yaml K) → Option (Yaml K) → Yaml K
  merged_at v merge none = v
  merged_at v merge (some w) = merge w

  get-merge_at :
      (k key : K) (v : Yaml K) (merge : Yaml K → Yaml K) (m : Mapping K)
      → get eq k (merge_at eq key v merge m)
        ≡ (if eq.same key k then some (merged_at v merge (get eq key m)) else get eq k m)
  unfolding get merge_at
  get-merge_at k key v merge no_entries = refl
  get-merge_at k key v merge (entry j w m) =
      ground (arith, law.iff j key, law.iff key k, law.iff j k, get-merge_at k key v merge m)

  abbrev combined : Option (Yaml K) → Option (Yaml K) → Option (Yaml K)
  combined none b = b
  combined (some v) none = some v
  combined (some v) (some w) = some (merge_yaml eq v w)

  combined-some :
      (v : Yaml K) (b : Option (Yaml K))
      → some (merged_at v (merge_yaml eq v) b) ≡ combined (some v) b
  combined-some v none = refl
  combined-some v (some w) = refl

  get-merge_mapping :
      (k : K) (overrides base : Mapping K)
      → IsProperMapping overrides
      → get eq k (merge_mapping eq overrides base) ≡ combined (get eq k overrides) (get eq k base)
  unfolding get merge_yaml
  get-merge_mapping k no_entries base proper = refl
  get-merge_mapping k (entry key v overrides) base proper =
      get-merge_mapping k overrides (merge_at eq key v (merge_yaml eq v) base) proper.2
      ∙ rw (get-merge_at k key v (merge_yaml eq v) base) (elim (Bool-cases (eq.same key k)) [
        | inl is_key ↦
            let key_k = (law.iff key k).0 is_key in
            let absent = ap (λ j. get eq j overrides) (sym key_k) ∙ proper.0 in
            rw (is_key, absent)
              (combined-some v (get eq key base)
                ∙ ap (λ j. combined (some v) (get eq j base)) key_k)
        | inr other ↦ rw other refl
      ])

  -- A value that is a mapping, or one that replaces what it is merged onto and has no children.
  Yaml-cases :
      (y : Yaml K)
      → ((m : Mapping K) × (y ≡ mapping m))
        ⊎ ((is_mapping y ≡ false)
            × ((base : Yaml K) → merge_yaml eq y base ≡ y)
            × ((overrides : Mapping K) → merge_yaml eq (mapping overrides) y ≡ mapping overrides)
            × ((k : K) → child k y ≡ none))
  unfolding merge_yaml
  Yaml-cases (mapping m) = inl (m, refl)
  Yaml-cases null = inr (refl, λ b. refl, λ o. refl, λ k. refl)
  Yaml-cases (bool b) = inr (refl, λ b. refl, λ o. refl, λ k. refl)
  Yaml-cases (number n) = inr (refl, λ b. refl, λ o. refl, λ k. refl)
  Yaml-cases (string s) = inr (refl, λ b. refl, λ o. refl, λ k. refl)
  Yaml-cases (sequence l) = inr (refl, λ b. refl, λ o. refl, λ k. refl)
  Yaml-cases (tagged t v) = inr (refl, λ b. refl, λ o. refl, λ k. refl)

  child-merge_yaml :
      (k : K) (overrides : Mapping K) (base : Yaml K)
      → IsProperMapping overrides
      → child k (merge_yaml eq (mapping overrides) base)
        ≡ combined (get eq k overrides) (child k base)
  child-merge_yaml k overrides base proper = elim (Yaml-cases base) [
    | inl (m, e) ↦ rw e (unfold merge_yaml in get-merge_mapping k overrides m proper)
    | inr (_, _, replaced, childless) ↦
        rw (replaced overrides, childless k) (combined-none (get eq k overrides))
  ]
    where
      combined-none : (o : Option (Yaml K)) → o ≡ combined o none
      combined-none none = refl
      combined-none (some v) = refl

  get-IsProper :
      (k : K) (m : Mapping K) {v : Yaml K} → IsProperMapping m → get eq k m ≡ some v → IsProper v
  unfolding get
  get-IsProper k no_entries proper e = cc
  get-IsProper k (entry j w m) {v} proper e = elim (Bool-cases (eq.same j k)) [
    | inl same ↦ transport_proper (some-injective _ _ (rw same at e)) proper.1
    | inr other ↦ get-IsProper k m proper.2 (rw other at e)
  ]
    where
      transport_proper : {a b : Yaml K} → a ≡ b → IsProper a → IsProper b
      transport_proper e p = rw (sym e) p

  replaces_itself : (y base : Yaml K) → is_mapping y ≡ false → merge_yaml eq y base ≡ y
  replaces_itself y base leaf = elim (Yaml-cases y) [
    | inl (m, e) ↦ let absurd_leaf = sym (ap is_mapping e) ∙ leaf in cc
    | inr (_, replaces, _, _) ↦ replaces base
  ]

  and_then-some :
      (o : Option (Yaml K)) (f : Yaml K → Option (Yaml K)) {v : Yaml K}
      → and_then o f ≡ some v
      → (x : Yaml K) × (o ≡ some x) × (f x ≡ some v)
  and_then-some none f e = cc
  and_then-some (some x) f e = (x, refl, e)

  -- The step of the induction on the path, for a claim about the merge of the values at a key.
  value_at-combined :
      (path : List K) (x : Yaml K) (b : Option (Yaml K)) (r : Option (Yaml K))
      → (b ≡ none → value_at path x ≡ r)
      → ((w : Yaml K) → b ≡ some w → value_at path (merge_yaml eq x w) ≡ r)
      → and_then (combined (some x) b) (value_at path) ≡ r
  value_at-combined path x none r alone merged = alone refl
  value_at-combined path x (some w) r alone merged = merged w refl

  -- What the overrides have at a path, unless it is a mapping, is what the merged configuration has
  -- there, whatever the base has, if no mapping of the overrides has a key twice.
  pub value_at-merge_yaml :
      (path : List K) (overrides base : Yaml K) {v : Yaml K}
      → IsProper overrides
      → value_at path overrides ≡ some v
      → is_mapping v ≡ false
      → value_at path (merge_yaml eq overrides base) ≡ some v
  value_at-merge_yaml [] overrides base proper e leaf =
      let same = some-injective _ _ e in
      ap some (replaces_itself overrides base (ap is_mapping same ∙ leaf) ∙ same)
  value_at-merge_yaml (k ∷ path) overrides base {v} proper e leaf = elim (Yaml-cases overrides) [
    | inl (m, is_m) ↦
        let proper_m = rw is_m at proper in
        let (x, found, rest) =
          and_then-some _ (value_at path)
            (ap (λ y. and_then (child k y) (value_at path)) (sym is_m) ∙ e) in
        rw is_m (
          ap (λ c. and_then c (value_at path)) (child-merge_yaml k m base proper_m)
          ∙ rw found (
              value_at-combined path x (child k base) (some v) (λ _. rest)
                (λ w _. value_at-merge_yaml path x w (get-IsProper k m proper_m found) rest leaf)))
    | inr (_, _, _, childless) ↦
        let nothing = ap (λ c. and_then c (value_at path)) (sym (childless k)) ∙ e in cc
  ]

  -- The overrides have mappings along a path, until one has no such key.
  pub data IsUntouched : List K → Yaml K → Type 0 where
    missing :
        (k : K) (path : List K) (m : Mapping K)
        → get eq k m ≡ none
        → IsUntouched (k ∷ path) (mapping m)
    below :
        (k : K) (path : List K) (m : Mapping K) (x : Yaml K)
        → get eq k m ≡ some x
        → IsUntouched path x
        → IsUntouched (k ∷ path) (mapping m)

  value_at_untouched :
      (path : List K) (overrides : Yaml K)
      → IsUntouched path overrides
      → value_at path overrides ≡ none
  value_at_untouched _ _ (missing k path m absent) = rw absent refl
  value_at_untouched _ _ (below k path m x found rest) = rw found (value_at_untouched path x rest)

  -- Where the overrides have mappings along a path until one has no such key, the merged
  -- configuration has at the path what the base has, if no mapping of the overrides has a key twice.
  pub value_at-merge_yaml_untouched :
      (path : List K) (overrides base : Yaml K)
      → IsProper overrides
      → IsUntouched path overrides
      → value_at path (merge_yaml eq overrides base) ≡ value_at path base
  value_at-merge_yaml_untouched _ _ base proper (missing k path m absent) =
      ap (λ c. and_then c (value_at path)) (child-merge_yaml k m base proper) ∙ rw absent refl
  value_at-merge_yaml_untouched _ _ base proper (below k path m x found rest) =
      ap (λ c. and_then c (value_at path)) (child-merge_yaml k m base proper)
      ∙ rw found (
          value_at-combined path x (child k base) (value_at (k ∷ path) base)
            (λ absent.
              value_at_untouched path x rest ∙ sym (ap (λ c. and_then c (value_at path)) absent))
            (λ w present.
              value_at-merge_yaml_untouched path x w (get-IsProper k m proper found) rest
              ∙ sym (ap (λ c. and_then c (value_at path)) present)))
