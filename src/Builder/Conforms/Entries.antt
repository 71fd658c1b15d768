-- ===== src/Builder/Conforms/Entries.antt =====
-- The loop over the groups in `selection_set` of src/handle/graphql.rs: one entry for each group.
use subgraph_mock.Base.{
  ◌≡◌, refl, ◌∙◌, sym, String, some, inl, inr, Bool-cases, List, [], ◌∷◌, map, Dict, insert, keys,
  contains, is_some, NodupKeys, contains-keys-insert, contains-keys-lookup, insert-NodupKeys, All,
  All-entries, ◌==◌, ◌||◌, eq_iff, arith,
}
use subgraph_mock.Json.{Json}
use subgraph_mock.Schema.{FederatedSchema}
use subgraph_mock.Document.{Field, Document, SelectionSet, response_key}
use subgraph_mock.Collect.{Groups}
use subgraph_mock.Collect.Reference.{with_key, present}
use subgraph_mock.Collect.Grouping.{IsGrouping}
use subgraph_mock.Random.{Random, Gen}
use subgraph_mock.Random.Yields.{Yields, Yields-pure, Yields-bind, Yields-weaken}
use subgraph_mock.Generation.{ResponseGenerationConfig}
use subgraph_mock.Builder.{field_value, fill}
use subgraph_mock.Builder.Spec.{ValueOk, EntriesOk, entry}

is_some-present :
    (k : String) (fields : List Field)
    → is_some (present (with_key k fields)) ≡ contains (map response_key fields) k
is_some-present k [] = refl
is_some-present k (f ∷ fields) = ground (arith, is_some-present k fields)

-- The keys of a grouping are the response keys of the fields.
pub contains-keys_grouping :
    (groups : Groups) (fields : List Field) (k : String)
    → IsGrouping groups fields
    → contains (keys groups) k ≡ contains (map response_key fields) k
contains-keys_grouping groups fields k g =
    contains-keys-lookup k groups ∙ rw (g.entry k) (is_some-present k fields)

present-eq-some : (xs : List Field) {ys : List Field} → present xs ≡ some ys → ys ≡ xs
present-eq-some [] h = cc
present-eq-some (x ∷ xs) h = cc

pub All-grouping :
    (groups : Groups) (fields : List Field)
    → IsGrouping groups fields
    → All (λ e. e.1 ≡ with_key e.0 fields) groups
All-grouping groups fields g =
    All-entries (λ k fs. fs ≡ with_key k fields) groups g.distinct
      λ k fs e. present-eq-some (with_key k fields) (sym (g.entry k) ∙ e)

module _ (cfg : ResponseGenerationConfig) (schema : FederatedSchema) (doc : Document)
    (type_name : String) (fields : List Field) where
  EntriesOk-insert :
      (k : String) (v : Json) (d : Dict Json)
      → ValueOk cfg schema doc type_name (with_key k fields) v
      → EntriesOk cfg schema doc type_name fields d
      → EntriesOk cfg schema doc type_name fields (insert k v d)
  unfolding insert
  EntriesOk-insert k v [] h e = entry k h e
  EntriesOk-insert k v ((i, w) ∷ d) h (entry _ old rest) = elim (Bool-cases (i == k)) [
    | inl same ↦ rw same (entry i (rw (← (eq_iff i k).0 same) at h) rest)
    | inr differ ↦ rw differ (entry i old (EntriesOk-insert k v d h rest))
  ]

  -- The result so far: its entries are as they should be, with distinct keys.
  abbrev pub Filled : Dict Json → Type 0
  Filled d = EntriesOk cfg schema doc type_name fields d × NodupKeys d

  abbrev pub Keys : List (String × List Field) → Dict Json → Dict Json → Type 0
  Keys groups result d =
      (k : String) → contains (keys d) k ≡ (contains (keys groups) k || contains (keys result) k)

  module _ (R : Random) (build : SelectionSet → Gen R.State (Dict Json))
      (value : (fs : List Field)
        → Yields
            (ValueOk cfg schema doc type_name fs)
            (field_value R cfg schema build type_name fs)) where
    pub fill-Filled :
        (groups : List (String × List Field)) (result : Dict Json)
        → All (λ e. e.1 ≡ with_key e.0 fields) groups
        → Filled result
        → Yields
            (λ d. Filled d × Keys groups result d)
            (fill R cfg schema build type_name groups result)
    unfolding fill keys
    fill-Filled [] result all h = Yields-pure result (h, λ k. refl)
    fill-Filled ((key, fs) ∷ groups) result all h = Yields-bind _ _ (value fs) λ v ok_v.
        Yields-weaken
          (fill-Filled groups (insert key v result) all.1 (
            EntriesOk-insert key v result (rw all.0 at ok_v) h.0,
            insert-NodupKeys key v result h.1,
          ))
          λ d filled.
            (filled.0, λ k. filled.1 k ∙ ground (arith, contains-keys-insert key k v result))
