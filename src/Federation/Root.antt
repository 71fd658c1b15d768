-- ===== src/Federation/Root.antt =====
-- What `patch_schema` of src/state/schema/federation/mod.rs leaves: the query root, the union of
-- the entities, and the types that it does not touch.
use subgraph_mock.Base.{
  ok-injective, lookup-insert_other, String, false, ◌≡◌, refl, ◌∙◌, sym, ap, Option, some, List, [],
  ◌∷◌, lookup, insert, keys, contains, ok, ◌>>=◌, ◌==◌, All, unwrap, unwrap-eq-ok, >>=-eq-ok,
  Bool-cases, inl, inr,
}
use subgraph_mock.Schema.{
  ConstValue, Directive, DirectiveDefinition, ObjectType, ExtendedType, Schema,
}
use subgraph_mock.Federation.Types.{
  FederationType, subgraph, supergraph, unfederated, insert_federation_types,
}
use subgraph_mock.Federation.Definitions.{defer_definition, stream_definition}
use subgraph_mock.Federation.Lookups.{
  injected, lookup-insert_federation_types, insert_federation_types-roots, IsCompletion,
  query_type_name-IsCompletion,
}
use subgraph_mock.Federation.{
  insert_entity, root_fields, query_type_name, as_query_root, insert_directive, finish, patch_root,
  federated_members, patch_schema,
}

as_query_root-eq-ok :
    (ty : ExtendedType) {obj : ObjectType}
    → as_query_root ty ≡ ok obj
    → ty ≡ ExtendedType.object obj
as_query_root-eq-ok (ExtendedType.object o) h = cc
as_query_root-eq-ok (ExtendedType.scalar o) h = cc
as_query_root-eq-ok (ExtendedType.interface o) h = cc
as_query_root-eq-ok (ExtendedType.union o) h = cc
as_query_root-eq-ok (ExtendedType.enum o) h = cc
as_query_root-eq-ok (ExtendedType.input_object o) h = cc

insert_directive-keeps :
    (name : String) (definition : DirectiveDefinition) (schema : Schema)
    → ((insert_directive name definition schema).types ≡ schema.types)
      × ((insert_directive name definition schema).schema_definition ≡ schema.schema_definition)
insert_directive-keeps name definition schema =
    elim (Bool-cases (contains (keys schema.directive_definitions) name)) [
      | inl present ↦ rw present (refl, refl)
      | inr absent ↦ rw absent (refl, refl)
    ]

finish-keeps :
    (members : List String) (federation_type : FederationType) (root : String × Schema)
    (obj : ObjectType)
    → ((finish members federation_type root obj).types
        ≡ insert root.0
            (ExtendedType.object (record obj { fields = root_fields members obj.fields }))
            root.1.types)
      × ((finish members federation_type root obj).schema_definition ≡ root.1.schema_definition)
finish-keeps members subgraph root obj = (refl, refl)
finish-keeps members unfederated root obj = (refl, refl)
finish-keeps members supergraph root obj =
    let (t, d) = insert_directive-keeps "defer" defer_definition _ in
    let (t2, d2) = insert_directive-keeps "stream" stream_definition _ in (t2 ∙ t, d2 ∙ d)

-- The parts of a run of `patch_schema` that returns.
pub record IsRun (members : List String) (schema : Schema) (federation_type : FederationType)
    (patched : Schema) : Type 0 where
  pub name : String
  pub completed : Schema
  pub obj : ObjectType
  pub completes :
      IsCompletion
        (insert_federation_types (insert_entity members schema) federation_type)
        completed
        name
  pub root_is : lookup name completed.types ≡ some (ExtendedType.object obj)
  pub roots : patched.schema_definition ≡ completed.schema_definition
  pub types :
      patched.types
      ≡ insert name
          (ExtendedType.object (record obj { fields = root_fields members obj.fields }))
          completed.types

patch_root-eq-ok :
    (members : List String) (federation_type : FederationType) (root : String × Schema)
    {patched : Schema}
    → patch_root members federation_type root ≡ ok patched
    → (obj : ObjectType) × (lookup root.0 root.1.types ≡ some (ExtendedType.object obj))
      × (finish members federation_type root obj ≡ patched)
unfolding patch_root
patch_root-eq-ok members federation_type root h =
    let (ty, t, h3) =
      >>=-eq-ok (unwrap (lookup root.0 root.1.types))
        (λ ty. as_query_root ty >>= λ obj. ok (finish members federation_type root obj)) h in
    let (obj, o, h4) =
      >>=-eq-ok (as_query_root ty) (λ obj. ok (finish members federation_type root obj)) h3 in
    (obj, unwrap-eq-ok _ t ∙ ap some (as_query_root-eq-ok ty o), ok-injective h4)

pub patch_schema-IsRun :
    (argument_by_name : Directive → String → Schema → Option ConstValue) (schema : Schema)
    (federation_type : FederationType) {members : List String} {patched : Schema}
    → federated_members argument_by_name schema schema.types ≡ ok members
    → patch_schema argument_by_name schema federation_type ≡ ok patched
    → IsRun members schema federation_type patched
unfolding patch_schema
patch_schema-IsRun argument_by_name schema federation_type {members} found h =
    let (root, e, h2) =
      >>=-eq-ok
        (query_type_name (insert_federation_types (insert_entity members schema) federation_type)
          federation_type)
        (patch_root members federation_type) (rw found at h) in
    let (obj, is_root, finished) = patch_root-eq-ok members federation_type root h2 in
    let (types, roots) = finish-keeps members federation_type root obj in
    record {
      name = root.0;
      completed = root.1;
      obj = obj;
      completes = query_type_name-IsCompletion _ federation_type e;
      root_is = is_root;
      roots = sym (ap (λ s. s.schema_definition) finished) ∙ roots;
      types = sym (ap (λ s. s.types) finished) ∙ types;
    }

pub lookup-insert_entity_other :
    (k : String) (members : List String) (schema : Schema)
    → "_Entity" == k ≡ false
    → lookup k (insert_entity members schema).types ≡ lookup k schema.types
lookup-insert_entity_other k [] schema h = refl
lookup-insert_entity_other k (m ∷ ms) schema h = lookup-insert_other k _ _ _ h

-- Away from the root, a run has the types that were inserted.
pub run_types :
    (members : List String) (schema : Schema) (federation_type : FederationType) {patched : Schema}
    (run : IsRun members schema federation_type patched) (k : String)
    → run.name == k ≡ false
    → All (λ j. j == k ≡ false) (injected federation_type)
    → lookup k patched.types ≡ lookup k (insert_entity members schema).types
run_types members schema federation_type run k differ fresh =
    ap (lookup k) run.types
    ∙ lookup-insert_other k _ _ _ differ
    ∙ run.completes.others k differ
    ∙ lookup-insert_federation_types k _ federation_type fresh

pub insert_entity-roots :
    (members : List String) (schema : Schema)
    → (insert_entity members schema).schema_definition ≡ schema.schema_definition
insert_entity-roots [] schema = refl
insert_entity-roots (m ∷ ms) schema = refl

object_of_root :
    {o : Option ExtendedType} {a b : ObjectType}
    → o ≡ some (ExtendedType.object a)
    → o ≡ some (ExtendedType.object b)
    → a ≡ b
object_of_root h e = cc

-- A root that the schema declares and has is the one that a run completes.
pub run_root :
    (members : List String) (schema : Schema) (federation_type : FederationType) {patched : Schema}
    (run : IsRun members schema federation_type patched) {obj : ObjectType}
    → schema.schema_definition.query ≡ some run.name
    → lookup run.name schema.types ≡ some (ExtendedType.object obj)
    → "_Entity" == run.name ≡ false
    → All (λ j. j == run.name ≡ false) (injected federation_type)
    → run.obj ≡ obj
run_root members schema federation_type run {obj} declared present differ fresh =
    object_of_root run.root_is (
      run.completes.kept
        (ap (λ d. d.query)
            (insert_federation_types-roots (insert_entity members schema) federation_type
              ∙ insert_entity-roots members schema)
          ∙ declared)
        (lookup-insert_federation_types run.name _ federation_type fresh
          ∙ lookup-insert_entity_other run.name members schema differ
          ∙ present))
