-- ===== src/Builder.antt =====
-- `ResponseBuilder` of src/handle/graphql.rs: the recursive generation of response data. Every level
-- of nesting costs a unit of `depth`, every spread inside a level a unit of `spreads`.
pub mod Spec
pub mod Conforms
pub mod Returns
use Prim.Native.String.{◌++◌ as ◌<>◌}
use subgraph_mock.Base.{
  ℕ, zero, suc, ◌≡◌, Bool, true, false, not, String, Option, none, some, List, [], ◌∷◌, ◌++◌, Dict,
  lookup, insert, Outcome, out_of_fuel, ok_or, unwrap, unwrap_or, ◌==◌, if◌then◌else◌, length,
  get_elem?, map,
}
use subgraph_mock.Json
use subgraph_mock.Json.{Json, array_of, object_of}
use subgraph_mock.Schema
use subgraph_mock.Schema.{
  FederatedSchema, ExtendedType, UnionType, EnumType, EnumValueDefinition, is_non_null, is_list,
  inner_named_type, sdl,
}
use subgraph_mock.Document.{
  Field, Selections, done, select, append, SelectionSet, Document, name, ty, selection_set,
}
use subgraph_mock.Collect.{Groups, collect_fields}
use subgraph_mock.Random.{
  Random, Gen, pure, fail, panicked, lift, ◌>>=◌, repeat, random_ratio, random_range, random_below,
  choose,
}
use subgraph_mock.Generation.{Ratio, ResponseGenerationConfig, default_generator, generate}

-- The values of a map.
abbrev pub values {ℓ} : {V : Type ℓ} → Dict V → List V
values [] = []
values ((k, v) ∷ m) = v ∷ values m

abbrev pub is_empty : Selections → Bool
is_empty done = true
is_empty (select s rest) = false

-- The selections of all fields of a group, one after the other.
unfoldable pub merge_selections : List Field → Selections
merge_selections [] = done
merge_selections (field ∷ fields) =
    append (selection_set field).selections (merge_selections fields)

abbrev pub full_selection_set : Field → List Field → SelectionSet
full_selection_set meta_field fields = record {
  ty = (selection_set meta_field).ty;
  selections = merge_selections fields;
}

abbrev as_union : ExtendedType → Option UnionType
as_union (ExtendedType.union u) = some u
as_union _ = none

abbrev and_then {ℓ κ} : {A : Type ℓ} {B : Type κ} → Option A → (A → Option B) → Option B
and_then none f = none
and_then (some a) f = f a

-- `self.schema.types.get(&selection_set.ty).and_then(|t| t.as_union())`
abbrev pub union_type : FederatedSchema → String → Option UnionType
union_type schema type_name = and_then (lookup type_name schema.valid.types) as_union

module _ (R : Random) (cfg : ResponseGenerationConfig) (schema : FederatedSchema) where
  abbrev pub null_by : Option Ratio → Gen R.State Bool
  null_by none = pure false
  null_by (some (numerator, denominator)) = random_ratio R numerator denominator

  unfoldable pub should_be_null : Gen R.State Bool
  should_be_null = null_by cfg.null_ratio

  unfoldable pub arbitrary_array_len : Gen R.State ℕ
  arbitrary_array_len = random_range R cfg.array.min_length cfg.array.max_length

  unfoldable pub arbitrary_union_member : UnionType → Gen R.State String
  arbitrary_union_member union_type = do
    index ← random_below R (length union_type.members)
    lift (ok_or (get_elem? union_type.members index) "Missing value")

  unfoldable pub leaf_of_type : String → ExtendedType → Gen R.State Json
  leaf_of_type type_name (ExtendedType.enum enum_ty) = do
    chosen ← choose R (values enum_ty.values)
    enum_value ← lift (ok_or chosen ("empty enum: " <> type_name))
    pure (Json.string enum_value.value)
  leaf_of_type type_name (ExtendedType.scalar scalar) =
      generate R (unwrap_or (lookup scalar.name cfg.scalars) default_generator)
  leaf_of_type type_name _ = panicked

  unfoldable pub leaf_field : String → Gen R.State Json
  unfolding leaf_of_type
  leaf_field type_name = do
    extended_type ← lift (unwrap (lookup type_name schema.valid.types))
    leaf_of_type type_name extended_type

  unfoldable pub array_leaf_field : String → Gen R.State Json
  array_leaf_field type_name = do
    num_values ← arbitrary_array_len
    values ← repeat num_values (leaf_field type_name)
    pure (array_of values)

  -- A member of the union, or the type's own name where the type is no union.
  abbrev pub typename_of : String → Option UnionType → Gen R.State Json
  typename_of type_name none = pure (Json.string type_name)
  typename_of type_name (some union_schema_ty) = do
    member ← arbitrary_union_member union_schema_ty
    pure (Json.string member)

  -- The value of `__typename`.
  unfoldable pub typename : String → Gen R.State Json
  typename type_name = typename_of type_name (union_type schema type_name)

  -- `{ sdl: … }`
  abbrev pub service_object : Json
  service_object = object_of (insert "sdl" (Json.string (sdl schema)) [])

  module _ (build : SelectionSet → Gen R.State (Dict Json)) where
    unfoldable pub array_selection_set : SelectionSet → Gen R.State (List Json)
    array_selection_set set = do
      num_values ← arbitrary_array_len
      repeat num_values (do data_map ← build set; pure (object_of data_map))

    -- A field that is not null: an object, an array of objects, a leaf or an array of leaves.
    unfoldable pub present_value : Field → List Field → Gen R.State Json
    present_value meta_field fields =
        let set = full_selection_set meta_field fields in
        if not (is_empty (selection_set meta_field).selections)
        then (if is_list (ty meta_field)
            then (do values ← array_selection_set set; pure (array_of values))
            else do data_map ← build set; pure (object_of data_map))
        else if is_list (ty meta_field)
        then array_leaf_field (inner_named_type (ty meta_field))
        else leaf_field (inner_named_type (ty meta_field))

    unfoldable pub nullable_value : Field → List Field → Gen R.State Json
    nullable_value meta_field fields =
        if is_non_null (ty meta_field) then present_value meta_field fields else do
          is_null ← should_be_null
          if is_null then pure Json.null else present_value meta_field fields

    -- The value of a group of fields with one response key; `fields[0]` panics if there are none.
    unfoldable pub field_value : String → List Field → Gen R.State Json
    field_value type_name [] = panicked
    field_value type_name (meta_field ∷ more) =
        if name meta_field == "__typename"
        then typename type_name
        else if name meta_field == "_service"
        then pure service_object
        else nullable_value meta_field (meta_field ∷ more)

    -- The loop over the groups; `result` holds what earlier rounds have inserted.
    unfoldable pub fill : String → List (String × List Field) → Dict Json → Gen R.State (Dict Json)
    fill type_name [] result = pure result
    fill type_name ((key, fields) ∷ groups) result = do
      val ← field_value type_name fields
      fill type_name groups (insert key val result)

  unfoldable pub build_selection_set :
      Document → (spreads depth : ℕ) → SelectionSet → Gen R.State (Dict Json)
  build_selection_set doc spreads zero set s = out_of_fuel
  build_selection_set doc spreads (suc depth) set s =
      (do
        grouped_fields ← lift (collect_fields doc (R.iteration s) spreads set.selections)
        fill (build_selection_set doc spreads depth) set.ty (R.iteration s grouped_fields) [])
        s
