-- ===== src/Builder/Conforms.antt =====
-- `ResponseBuilder` of src/handle/graphql.rs meets its contract: whatever is drawn, a selection set
-- that is built has the shape that `Spec` states.
mod Leaves
mod Entries
use subgraph_mock.Base.{
  ℕ, zero, suc, ◌≡◌, ◌∙◌, refl, sym, Bool, true, false, String, Option, none, some, inl, inr,
  Option-cases, Bool-cases, List, [], ◌∷◌, map, Dict, insert, keys, contains, NodupKeys, length,
  All, ◌==◌, ◌||◌, not, ok, arith,
}
use subgraph_mock.Json
use subgraph_mock.Json.{Json, array_of, object_of}
use subgraph_mock.Schema.{FederatedSchema, is_non_null, is_list, inner_named_type}
use subgraph_mock.Document.{Field, SelectionSet, Document, name, ty, selection_set, response_key}
use subgraph_mock.Collect.{Groups, collect_fields}
use subgraph_mock.Collect.Reference.{with_key}
use subgraph_mock.Collect.Grouping.{IsGrouping, IsGrouping-iter}
use subgraph_mock.Collect.Sound.{collect_fields-IsGrouping}
use subgraph_mock.Random.{Random, IsLawful, Gen, pure, lift, ◌>>=◌}
use subgraph_mock.Random.Yields.{
  Yields, Yields-pure, Yields-bind, Yields-lift, Yields-if, Yields-panicked, Yields-repeat,
  Yields-weaken, Yields-any, Yields-eq,
}
use subgraph_mock.Generation.{Ratio, ResponseGenerationConfig}
use subgraph_mock.Builder.{
  is_empty, full_selection_set, typename, service_object, array_selection_set, present_value,
  nullable_value, field_value, fill, build_selection_set, leaf_field, array_leaf_field,
  should_be_null, null_by,
}
use subgraph_mock.Builder.Spec.{
  LeafOk, TypenameOk, LengthOk, IsOrdinary, ValueOk, ObjectOk, EntriesOk, ObjectsOk, typename_value,
  service_value, null_value, object_value, objects_value, leaf_value, leaves_value, answers,
  no_entries, entry, no_objects, one_more,
}
use subgraph_mock.Builder.Conforms.Leaves.{
  leaf_field-LeafOk, arbitrary_array_len-LengthOk, array_leaf_field-LeafOk, typename-TypenameOk,
}
use subgraph_mock.Builder.Conforms.Entries.{contains-keys_grouping, All-grouping, fill-Filled}

not-true : (b : Bool) → not b ≡ true → b ≡ false
not-true b h = ground arith

not-false : (b : Bool) → not b ≡ false → b ≡ true
not-false b h = ground arith

or_false : {a b : Bool} → a ≡ b → (a || false) ≡ b
or_false h = ground arith

-- Nulls are drawn only where the configuration has a ratio for them.
should_be_null-ratio :
    (R : Random) (cfg : ResponseGenerationConfig) (schema : FederatedSchema)
    → Yields (λ b. b ≡ true → (r : Ratio) × (cfg.null_ratio ≡ some r)) (should_be_null R cfg schema)
unfolding should_be_null
should_be_null-ratio R cfg schema = null_by-ratio R cfg schema cfg.null_ratio
  where
    null_by-ratio :
        (R : Random) (cfg : ResponseGenerationConfig) (schema : FederatedSchema) (o : Option Ratio)
        → Yields (λ b. b ≡ true → (r : Ratio) × (o ≡ some r)) (null_by R cfg schema o)
    null_by-ratio R cfg schema none = Yields-pure false (λ e. cc)
    null_by-ratio R cfg schema (some r) = Yields-weaken (Yields-any _) (λ b _ _. (r, refl))

module _ (R : Random) (law : IsLawful R) (cfg : ResponseGenerationConfig) (schema : FederatedSchema)
    (doc : Document) where
  -- The recursive call, on a selection set of the level below.
  module _ (build : SelectionSet → Gen R.State (Dict Json))
      (rec : (set : SelectionSet) → Yields (ObjectOk cfg schema doc set) (build set)) where
    array_selection_set-ObjectsOk :
        (set : SelectionSet)
        → Yields
            (λ vs. LengthOk cfg schema (length vs) × ObjectsOk cfg schema doc set vs)
            (array_selection_set R cfg schema build set)
    unfolding array_selection_set
    array_selection_set-ObjectsOk set =
        Yields-bind _ _ (arbitrary_array_len-LengthOk R law cfg schema) λ n bounds.
          Yields-weaken
            (Yields-repeat
              {P = λ v. (d : Dict Json) × (v ≡ object_of d) × ObjectOk cfg schema doc set d} _
              (Yields-bind _ _ (rec set) (λ d h. Yields-pure (object_of d) (d, refl, h))) n)
            λ vs h. (rw h.0 bounds, objects vs h.1)
      where
        objects :
            (vs : List Json)
            → All (λ v. (d : Dict Json) × (v ≡ object_of d) × ObjectOk cfg schema doc set d) vs
            → ObjectsOk cfg schema doc set vs
        objects [] h = no_objects
        objects (v ∷ vs) h = rw h.0.1 (one_more h.0.0 h.0.2 (objects vs h.1))

    module _ (type_name : String) (f : Field) (more : List Field)
        (ordinary : IsOrdinary cfg schema f) where
      present_value-ValueOk :
          Yields
            (ValueOk cfg schema doc type_name (f ∷ more))
            (present_value R cfg schema build f (f ∷ more))
      unfolding present_value
      present_value-ValueOk =
          Yields-if (not (is_empty (selection_set f).selections)) _ _
            (λ set.
              Yields-if (is_list (ty f)) _ _
                (λ many.
                  Yields-bind _ _ (array_selection_set-ObjectsOk (full_selection_set f (f ∷ more)))
                    λ vs h.
                      Yields-pure (array_of vs)
                        (objects_value vs ordinary (not-true _ set) many h.0 h.1))
                (λ single. Yields-bind _ _ (rec (full_selection_set f (f ∷ more))) λ d h.
                  Yields-pure (object_of d) (object_value d ordinary (not-true _ set) single h)))
            (λ leaf.
              Yields-if (is_list (ty f)) _ _
                (λ many.
                  Yields-weaken (array_leaf_field-LeafOk R law cfg schema (inner_named_type (ty f)))
                    λ v h. rw h.1 (leaves_value h.0 ordinary (not-false _ leaf) many h.2 h.3))
                (λ single.
                  Yields-weaken (leaf_field-LeafOk R law cfg schema (inner_named_type (ty f)))
                    λ v h. leaf_value ordinary (not-false _ leaf) single h))

      nullable_value-ValueOk :
          Yields
            (ValueOk cfg schema doc type_name (f ∷ more))
            (nullable_value R cfg schema build f (f ∷ more))
      unfolding nullable_value
      nullable_value-ValueOk =
          Yields-if (is_non_null (ty f)) _ _ (λ _. present_value-ValueOk)
            λ nullable. Yields-bind _ _ (should_be_null-ratio R cfg schema) λ is_null h.
              Yields-if is_null _ _
                (λ e.
                  let (r, found) = h e in
                  Yields-pure Json.null (null_value r ordinary nullable found))
                (λ _. present_value-ValueOk)

    field_value-ValueOk :
        (type_name : String) (fs : List Field)
        → Yields (ValueOk cfg schema doc type_name fs) (field_value R cfg schema build type_name fs)
    unfolding field_value insert
    field_value-ValueOk type_name [] = Yields-panicked
    field_value-ValueOk type_name (f ∷ more) =
        Yields-if (name f == "__typename") _ _
          (λ e.
            Yields-weaken (typename-TypenameOk R law cfg schema type_name)
              λ v h. rw h.1 (typename_value e h.2))
          (λ e.
            Yields-if (name f == "_service") _ _
              (λ s. Yields-pure (service_object R cfg schema) (service_value e s))
              (λ s. nullable_value-ValueOk type_name f more (e, s)))

    -- The loop over the groups that `collect_fields` returns.
    level-ObjectOk :
        (s : R.State) (spreads : ℕ) (set : SelectionSet) (groups : Groups)
        → collect_fields doc (R.iteration s) spreads set.selections ≡ ok groups
        → Yields
            (ObjectOk cfg schema doc set)
            (fill R cfg schema build set.ty (R.iteration s groups) [])
    level-ObjectOk s spreads set groups e =
        let law_s = law.iteration_lem s in
        let (fields, flat, g) =
          collect_fields-IsGrouping doc (R.iteration s) law_s spreads set.selections groups e in
        let listed = IsGrouping-iter (R.iteration s) law_s g in
        Yields-weaken
          (fill-Filled cfg schema doc set.ty fields R build (field_value-ValueOk set.ty)
            (R.iteration s groups) [] (All-grouping (R.iteration s groups) fields listed)
            (no_entries, tt))
          λ d h.
            answers fields flat h.0.1
              (λ k.
                h.1 k
                ∙ unfold keys in
                  or_false (contains-keys_grouping (R.iteration s groups) fields k listed))
              h.0.0

  pub build_selection_set-ObjectOk :
      (spreads depth : ℕ) (set : SelectionSet)
      → Yields
          (ObjectOk cfg schema doc set)
          (build_selection_set R cfg schema doc spreads depth set)
  unfolding build_selection_set
  build_selection_set-ObjectOk spreads zero set = record { at = λ s. tt }
  build_selection_set-ObjectOk spreads (suc depth) set = record {
    at = λ s.
        (Yields-bind _ _
            (Yields-lift (collect_fields doc (R.iteration s) spreads set.selections)
              (λ groups e. e))
            (level-ObjectOk (build_selection_set R cfg schema doc spreads depth)
              (build_selection_set-ObjectOk spreads depth) s spreads set)).at
          s;
  }

-- Whatever is drawn, and however much fuel is given, an object that the builder returns answers its
-- selection set: it has exactly the response keys of the flattened fields, each once, and under each
-- a value of the kind that the first field with that key asks for: a type name, the schema's text,
-- null only where the field is nullable and nulls are configured, an object or an array of objects
-- that answer the merged selections, or leaves in the range of their enum or scalar generator, with
-- every array of a configured length.
pub build_selection_set_conforms :
    (R : Random)
    → IsLawful R
    → (cfg : ResponseGenerationConfig) (schema : FederatedSchema) (doc : Document)
    → (spreads depth : ℕ) (set : SelectionSet) (s s' : R.State) (d : Dict Json)
    → build_selection_set R cfg schema doc spreads depth set s ≡ ok (d, s')
    → ObjectOk cfg schema doc set d
build_selection_set_conforms R law cfg schema doc spreads depth set s s' d e =
    Yields-eq {s = s} (build_selection_set-ObjectOk R law cfg schema doc spreads depth set) e
