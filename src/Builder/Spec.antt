-- ===== src/Builder/Spec.antt =====
-- What a response may be for a selection set: the contract of `ResponseBuilder` of
-- src/handle/graphql.rs, with no random numbers, no maps and no fuel.
use subgraph_mock.Base.{
  ℕ, ◌≤◌, ◌≡◌, true, false, String, Option, none, some, List, [], ◌∷◌, map, Dict, lookup, keys,
  contains, NodupKeys, ◌==◌, length, All, unwrap_or,
}
use subgraph_mock.Json.{Json, array_of, object_of}
use subgraph_mock.Schema.{
  FederatedSchema, ExtendedType, UnionType, EnumValueDefinition, is_non_null, is_list,
  inner_named_type,
}
use subgraph_mock.Document.{Field, SelectionSet, Document, name, ty, selection_set, response_key}
use subgraph_mock.Collect.Reference.{Flattens, with_key}
use subgraph_mock.Generation.{Ratio, ResponseGenerationConfig, default_generator}
use subgraph_mock.Generation.Scalars.{InRange}
use subgraph_mock.Builder.{values, is_empty, full_selection_set, union_type}

module _ (cfg : ResponseGenerationConfig) (schema : FederatedSchema) where
  -- A value of an enum is one of those that it declares; one of a scalar is in the range of the
  -- scalar's generator.
  abbrev pub LeafOf : ExtendedType → Json → Type 0
  LeafOf (ExtendedType.enum e) v =
      (n : String) × (v ≡ Json.string n)
      × (contains (map (λ (d : EnumValueDefinition). d.value) (values e.values)) n ≡ true)
  LeafOf (ExtendedType.scalar s) v =
      InRange (unwrap_or (lookup s.name cfg.scalars) default_generator) v
  LeafOf _ v = ⊥

  abbrev pub LeafOk : String → Json → Type 0
  LeafOk type_name v =
      (t : ExtendedType) × (lookup type_name schema.valid.types ≡ some t) × LeafOf t v

  abbrev pub TypenameOf : String → Option UnionType → String → Type 0
  TypenameOf type_name none n = n ≡ type_name
  TypenameOf type_name (some u) n = contains u.members n ≡ true

  -- `__typename` is a member of a union, and the type itself where that is no union.
  abbrev pub TypenameOk : String → String → Type 0
  TypenameOk type_name n = TypenameOf type_name (union_type schema type_name) n

  abbrev pub LengthOk : ℕ → Type 0
  LengthOk n = (cfg.array.min_length ≤ n) × (n ≤ cfg.array.max_length)

  -- Neither `__typename` nor `_service`.
  abbrev pub IsOrdinary : Field → Type 0
  IsOrdinary f = (name f == "__typename" ≡ false) × (name f == "_service" ≡ false)

  module _ (doc : Document) where
    mutual
      -- `ValueOk type_name fields v`: `v` is a value for these fields, which have one response key,
      -- of an object of the type. The first field decides.
      pub data ValueOk : String → List Field → Json → Type 0 where
        typename_value :
            {type_name n : String} {f : Field} {more : List Field}
            → name f == "__typename" ≡ true
            → TypenameOk type_name n
            → ValueOk type_name (f ∷ more) (Json.string n)
        service_value :
            {type_name : String} {f : Field} {more : List Field}
            → name f == "__typename" ≡ false
            → name f == "_service" ≡ true
            → ValueOk type_name (f ∷ more) (object_of (("sdl", Json.string schema.source) ∷ []))
        null_value :
            {type_name : String} {f : Field} {more : List Field} (r : Ratio)
            → IsOrdinary f
            → is_non_null (ty f) ≡ false
            → cfg.null_ratio ≡ some r
            → ValueOk type_name (f ∷ more) Json.null
        object_value :
            {type_name : String} {f : Field} {more : List Field} (d : Dict Json)
            → IsOrdinary f
            → is_empty (selection_set f).selections ≡ false
            → is_list (ty f) ≡ false
            → ObjectOk (full_selection_set f (f ∷ more)) d
            → ValueOk type_name (f ∷ more) (object_of d)
        objects_value :
            {type_name : String} {f : Field} {more : List Field} (vs : List Json)
            → IsOrdinary f
            → is_empty (selection_set f).selections ≡ false
            → is_list (ty f) ≡ true
            → LengthOk (length vs)
            → ObjectsOk (full_selection_set f (f ∷ more)) vs
            → ValueOk type_name (f ∷ more) (array_of vs)
        leaf_value :
            {type_name : String} {f : Field} {more : List Field} {v : Json}
            → IsOrdinary f
            → is_empty (selection_set f).selections ≡ true
            → is_list (ty f) ≡ false
            → LeafOk (inner_named_type (ty f)) v
            → ValueOk type_name (f ∷ more) v
        leaves_value :
            {type_name : String} {f : Field} {more : List Field} (vs : List Json)
            → IsOrdinary f
            → is_empty (selection_set f).selections ≡ true
            → is_list (ty f) ≡ true
            → LengthOk (length vs)
            → All (LeafOk (inner_named_type (ty f))) vs
            → ValueOk type_name (f ∷ more) (array_of vs)

      -- An object answers a selection set if it has exactly the response keys of the flattened
      -- fields, each once, and under each key a value for the fields with that key.
      pub data ObjectOk : SelectionSet → Dict Json → Type 0 where
        answers :
            {set : SelectionSet} {d : Dict Json} (fields : List Field)
            → Flattens doc set.selections fields
            → NodupKeys d
            → ((k : String) → contains (keys d) k ≡ contains (map response_key fields) k)
            → EntriesOk set.ty fields d
            → ObjectOk set d

      pub data EntriesOk : String → List Field → Dict Json → Type 0 where
        no_entries : {type_name : String} {fields : List Field} → EntriesOk type_name fields []
        entry :
            {type_name : String} {fields : List Field} {d : Dict Json} (k : String) {v : Json}
            → ValueOk type_name (with_key k fields) v
            → EntriesOk type_name fields d
            → EntriesOk type_name fields ((k, v) ∷ d)

      pub data ObjectsOk : SelectionSet → List Json → Type 0 where
        no_objects : {set : SelectionSet} → ObjectsOk set []
        one_more :
            {set : SelectionSet} (d : Dict Json) {vs : List Json}
            → ObjectOk set d
            → ObjectsOk set vs
            → ObjectsOk set (object_of d ∷ vs)
