-- ===== src/Federation/Contract.antt =====
-- The contract of `patch_schema` of src/state/schema/federation/mod.rs, and the document that
-- `patch_ast` leaves.
use subgraph_mock.Base.{
  lookup-insert_other, lookup-insert_same, String, true, false, ◌≡◌, refl, ◌∙◌, ap, Option, some,
  List, [], ◌∷◌, Dict, lookup, NodupKeys, contains, ok, ◌==◌, ◌>>=◌, All, lookup-insert, >>=-eq-ok,
  ◌↔◌,
}
use subgraph_mock.Schema.{ConstValue, Directive, FieldDefinition, ObjectType, ExtendedType, Schema}
use subgraph_mock.Federation.Types.{
  FederationType, subgraph, supergraph, unfederated, insert_federation_types,
}
use subgraph_mock.Federation.Lookups.{injected}
use subgraph_mock.Federation.Members.{IsEntity, federated_members_lem}
use subgraph_mock.Federation.Root.{
  IsRun, patch_schema-IsRun, run_types, run_root, lookup-insert_entity_other,
}
use subgraph_mock.Federation.{
  insert_entity, entity_union, is_empty, root_fields, service_field, entities_field,
  query_type_name, federated_members, patch_schema, patch_root,
}

-- A schema that serves federation: `_Entity` is the union of the federated object types, the
-- query root has `_service` and, where there are entities, `_entities`, and everything else is
-- as it was.
pub record IsPatched (argument_by_name : Directive → String → Schema → Option ConstValue)
    (schema : Schema) (federation_type : FederationType) (patched : Schema) : Type 0 where
  pub members : List String
  pub are_entities :
      (n : String) → (contains members n ≡ true) ↔ IsEntity argument_by_name schema schema.types n
  pub root : String
  pub is_root : patched.schema_definition.query ≡ some root
  pub fields : Dict FieldDefinition
  pub has_fields :
      (obj : ObjectType) × (lookup root patched.types ≡ some (ExtendedType.object obj))
      × (obj.fields ≡ fields)
  pub service : lookup "_service" fields ≡ some service_field
  pub entities : is_empty members ≡ false → lookup "_entities" fields ≡ some entities_field
  pub union :
      is_empty members ≡ false
      → root == "_Entity" ≡ false
      → lookup "_Entity" patched.types ≡ some (entity_union members)
  pub fields_kept :
      (obj : ObjectType)
      → schema.schema_definition.query ≡ some root
      → lookup root schema.types ≡ some (ExtendedType.object obj)
      → All (λ j. j == root ≡ false) ("_Entity" ∷ injected federation_type)
      → (k : String) → All (λ j. j == k ≡ false) ("_service" ∷ "_entities" ∷ [])
      → lookup k fields ≡ lookup k obj.fields
  pub types_kept :
      (k : String)
      → All (λ j. j == k ≡ false) (root ∷ "_Entity" ∷ injected federation_type)
      → lookup k patched.types ≡ lookup k schema.types

entity_fresh :
    (federation_type : FederationType)
    → All (λ j. j == "_Entity" ≡ false) (injected federation_type)
entity_fresh unfederated = (refl, tt)
entity_fresh supergraph = (refl, (refl, tt))
entity_fresh subgraph = (refl, (refl, (refl, (refl, (refl, (refl, (refl, (refl, tt))))))))

lookup-root_fields-service :
    (members : List String) (fields : Dict FieldDefinition)
    → lookup "_service" (root_fields members fields) ≡ some service_field
lookup-root_fields-service members fields = lookup-insert_same "_service" _ _

lookup-root_fields-entities :
    (members : List String) (fields : Dict FieldDefinition)
    → is_empty members ≡ false
    → lookup "_entities" (root_fields members fields) ≡ some entities_field
lookup-root_fields-entities members fields h =
    lookup-insert "_service" "_entities" _ _ ∙ rw h (lookup-insert_same "_entities" _ _)

lookup-root_fields_other :
    (members : List String) (fields : Dict FieldDefinition) (k : String)
    → All (λ j. j == k ≡ false) ("_service" ∷ "_entities" ∷ [])
    → lookup k (root_fields members fields) ≡ lookup k fields
lookup-root_fields_other [] fields k (h, (h2, _)) = lookup-insert_other k _ _ _ h
lookup-root_fields_other (m ∷ ms) fields k (h, (h2, _)) =
    lookup-insert_other k _ _ _ h ∙ lookup-insert_other k _ _ _ h2

lookup-insert_entity :
    (members : List String) (schema : Schema)
    → is_empty members ≡ false
    → lookup "_Entity" (insert_entity members schema).types ≡ some (entity_union members)
lookup-insert_entity members schema h = rw h (lookup-insert_same "_Entity" _ _)

IsRun-IsPatched :
    (argument_by_name : Directive → String → Schema → Option ConstValue) (schema : Schema)
    (federation_type : FederationType) {members : List String} {patched : Schema}
    → ((n : String) → (contains members n ≡ true) ↔ IsEntity argument_by_name schema schema.types n)
    → IsRun members schema federation_type patched
    → IsPatched argument_by_name schema federation_type patched
IsRun-IsPatched argument_by_name schema federation_type {members} are_entities run = record {
  members = members;
  are_entities = are_entities;
  root = run.name;
  is_root = ap (λ d. d.query) run.roots ∙ run.completes.root;
  fields = root_fields members run.obj.fields;
  has_fields =
      (_, ap (lookup run.name) run.types ∙ lookup-insert_same run.name _ run.completed.types, refl);
  service = lookup-root_fields-service members run.obj.fields;
  entities = lookup-root_fields-entities members run.obj.fields;
  union = λ some_members differ.
      run_types members schema federation_type run "_Entity" differ (entity_fresh federation_type)
      ∙ lookup-insert_entity members schema some_members;
  fields_kept = λ obj declared present fresh k other.
      lookup-root_fields_other members run.obj.fields k other
      ∙ ap (λ o. lookup k o.fields)
          (run_root members schema federation_type run declared present fresh.0 fresh.1);
  types_kept = λ k fresh.
      run_types members schema federation_type run k fresh.0 fresh.1.1
      ∙ lookup-insert_entity_other k members schema fresh.1.0;
}

-- From a schema whose types have distinct names, whatever `patch_schema` returns is patched:
-- `_Entity` is the union of the federated object types, where there is one; the query root has
-- the `_service` field and, where there are entities, the `_entities` field, and its other fields
-- are as they were; and so is every type but the root, `_Entity` and the types of the federation
-- specification.
pub patch_schema-IsPatched :
    (argument_by_name : Directive → String → Schema → Option ConstValue) (schema : Schema)
    (federation_type : FederationType) {patched : Schema}
    → NodupKeys schema.types
    → patch_schema argument_by_name schema federation_type ≡ ok patched
    → IsPatched argument_by_name schema federation_type patched
unfolding patch_schema
patch_schema-IsPatched argument_by_name schema federation_type distinct h =
    let (members, found, _) =
      >>=-eq-ok (federated_members argument_by_name schema schema.types)
        (λ members.
          query_type_name (insert_federation_types (insert_entity members schema) federation_type)
            federation_type
          >>= λ root. patch_root members federation_type root)
        h in
    IsRun-IsPatched argument_by_name schema federation_type
      (federated_members_lem argument_by_name schema schema.types distinct found)
      (patch_schema-IsRun argument_by_name schema federation_type found h)
