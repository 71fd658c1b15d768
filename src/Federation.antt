-- ===== src/Federation.antt =====
-- Federation support of src/state/schema/federation/mod.rs: `patch_ast` and `patch_schema`, which
-- complete a federated schema before it is validated.
pub mod Definitions
pub mod Types
pub mod Lookups
pub mod Members
pub mod Root
pub mod Contract
pub mod Endings
pub mod Kinds
pub mod Ast
use subgraph_mock.Base.{
  ℕ, ◌+◌, String, Bool, true, false, not, ◌&&◌, ◌||◌, ◌==◌, if◌then◌else◌, Option, none, some, List,
  [], ◌∷◌, ◌++◌, Dict, lookup, insert, keys, contains, is_some, Outcome, ok, err, panic, ◌>>=◌,
  ◌>>◌, ok_or, unwrap,
}
use subgraph_mock.Schema.{
  Ty, ConstValue, Directive, InputValueDefinition, FieldDefinition, ObjectType, UnionType,
  ExtendedType, DirectiveDefinition, SchemaRoots, Schema, named, non_null_named, non_null_list,
}
use subgraph_mock.Schema
use subgraph_mock.Federation.Definitions.{
  argument, federation_directives, defer_definition, stream_definition,
}
use subgraph_mock.Federation.Types.{
  FederationType, subgraph, supergraph, unfederated, object_type, field_without_arguments,
  insert_type, insert_federation_types,
}

-- `ast::OperationType`
pub data RootOperation : Type 0 where
  query mutation subscription : RootOperation

-- `ast::Definition`: the kinds that are inspected. `other` is every other kind, with its name (an
-- anonymous operation has none) and its text.
pub data Definition : Type 0 where
  directive_definition : DirectiveDefinition → Definition
  schema_definition : List Directive → List (RootOperation × String) → Definition
  schema_extension : List Directive → List (RootOperation × String) → Definition
  other : Option String → String → Definition

-- `Definition::name`
abbrev pub definition_name : Definition → Option String
definition_name (directive_definition d) = some d.name
definition_name (schema_definition _ _) = none
definition_name (schema_extension _ _) = none
definition_name (other name _) = name

abbrev pub any {ℓ} : {A : Type ℓ} → (A → Bool) → List A → Bool
any p [] = false
any p (x ∷ xs) = p x || any p xs

-- `Option::is_some_and` and `Option::is_none_or`
abbrev pub is_some_and {ℓ} : {A : Type ℓ} → Option A → (A → Bool) → Bool
is_some_and none p = false
is_some_and (some a) p = p a

abbrev pub is_none_or {ℓ} : {A : Type ℓ} → Option A → (A → Bool) → Bool
is_none_or none p = true
is_none_or (some a) p = p a

abbrev pub is_named : String → Definition → Bool
is_named name definition = is_some_and (definition_name definition) λ n. n == name

abbrev pub is_schema_definition : Definition → Bool
is_schema_definition (schema_definition _ _) = true
is_schema_definition _ = false

abbrev pub is_link : Directive → Bool
is_link d = d.name == "link"

-- The first schema extension decides.
abbrev pub first_extension_links : List Definition → Bool
first_extension_links [] = false
first_extension_links (schema_extension directives _ ∷ _) = any is_link directives
first_extension_links (_ ∷ ast) = first_extension_links ast

-- The number of warnings that `process_link_directives` logs.
unfoldable pub process_link_directives : List Directive → ℕ
process_link_directives [] = 0
process_link_directives (d ∷ ds) = (if is_link d then 1 else 0) + process_link_directives ds

unfoldable pub link_warnings : List Definition → ℕ
link_warnings [] = 0
link_warnings (schema_definition directives _ ∷ ast) =
    process_link_directives directives + link_warnings ast
link_warnings (schema_extension directives _ ∷ ast) =
    process_link_directives directives + link_warnings ast
link_warnings (_ ∷ ast) = link_warnings ast

-- `federation_directives` as it stands in definitions.rs, each definition an item of the document.
abbrev pub as_definitions : List DirectiveDefinition → List Definition
as_definitions [] = []
as_definitions (d ∷ ds) = directive_definition d ∷ as_definitions ds

abbrev pub ensure_schema_definition : List Definition → List Definition
ensure_schema_definition ast =
    if any is_schema_definition ast
    then ast
    else ast ++ schema_definition [] ((query, "Query") ∷ []) ∷ []

-- What `patch_ast` does: the type that it returns, the document that it leaves, and the warnings
-- that it logs.
pub record Patched : Type 0 where
  pub federation_type : FederationType
  pub definitions : List Definition
  pub warnings : ℕ

-- The document of a subgraph with what it has implicitly.
abbrev pub subgraph_definitions : List Definition → List Definition
subgraph_definitions ast = ensure_schema_definition ast ++ as_definitions federation_directives

unfoldable pub patch_ast : List Definition → Patched
patch_ast ast =
    if any (is_named "join__Graph") ast
    then record { federation_type = supergraph; definitions = ast; warnings = link_warnings ast }
    else if first_extension_links ast
    then record {
      federation_type = subgraph;
      definitions = subgraph_definitions ast;
      warnings = link_warnings (subgraph_definitions ast);
    }
    else record { federation_type = unfederated; definitions = ast; warnings = 0 }

abbrev pub to_bool : ConstValue → Option Bool
to_bool (ConstValue.boolean b) = some b
to_bool _ = none

abbrev pub type_name : ExtendedType → String
type_name (ExtendedType.scalar t) = t.name
type_name (ExtendedType.object t) = t.name
type_name (ExtendedType.interface t) = t.name
type_name (ExtendedType.union t) = t.name
type_name (ExtendedType.enum t) = t.name
type_name (ExtendedType.input_object t) = t.name

abbrev pub directives_of : ExtendedType → List Directive
directives_of (ExtendedType.scalar t) = t.directives
directives_of (ExtendedType.object t) = t.directives
directives_of (ExtendedType.interface t) = t.directives
directives_of (ExtendedType.union t) = t.directives
directives_of (ExtendedType.enum t) = t.directives
directives_of (ExtendedType.input_object t) = t.directives

abbrev pub is_object : ExtendedType → Bool
is_object (ExtendedType.object _) = true
is_object _ = false

-- `schema.schema_definition.query.is_none_or(|query| &query.name != ty.name())`
abbrev pub is_not_query : Schema → ExtendedType → Bool
is_not_query schema ty =
    is_none_or schema.schema_definition.query λ query_name. not (query_name == type_name ty)

abbrev pub entity_union : List String → ExtendedType
entity_union members =
    ExtendedType.union
      record { description = none; name = "_Entity"; directives = []; members = members }

abbrev pub entities_field : FieldDefinition
entities_field = record {
  description = none;
  name = "_entities";
  arguments = argument "representations" (non_null_list (non_null_named "_Any")) none ∷ [];
  ty = non_null_list (named "_Entity");
  directives = [];
}

abbrev pub service_field : FieldDefinition
service_field = field_without_arguments "_service" (non_null_named "_Service")

abbrev pub is_empty : List String → Bool
is_empty [] = true
is_empty (_ ∷ _) = false

abbrev pub insert_entity : List String → Schema → Schema
insert_entity members schema =
    if is_empty members then schema else insert_type "_Entity" (entity_union members) schema

abbrev pub set_query : String → Schema → Schema
set_query name schema = record schema {
  schema_definition = record schema.schema_definition { query = some name };
}

abbrev pub create_query : Schema → Schema
create_query schema =
    if is_some schema.schema_definition.query
    then schema
    else insert_type "Query" (object_type "Query" []) (set_query "Query" schema)

abbrev pub create_type : String → Schema → Schema
create_type name schema =
    if contains (keys schema.types) name
    then schema
    else insert_type name (object_type name []) schema

-- The name of the query root, with the schema in which a subgraph has it.
unfoldable pub query_type_name : Schema → FederationType → Outcome (String × Schema)
query_type_name schema subgraph =
    let created = create_query schema in
    unwrap created.schema_definition.query >>= λ name. ok (name, create_type name created)
query_type_name schema _ =
    ok_or schema.schema_definition.query "Schema does not define a query type" >>= λ name.
    ok (name, schema)

abbrev pub as_query_root : ExtendedType → Outcome ObjectType
as_query_root (ExtendedType.object obj) = ok obj
as_query_root _ = err "query root is not an object"

abbrev pub root_fields : List String → Dict FieldDefinition → Dict FieldDefinition
root_fields members fields =
    insert "_service" service_field
      (if is_empty members then fields else insert "_entities" entities_field fields)

abbrev pub insert_directive : String → DirectiveDefinition → Schema → Schema
insert_directive name definition schema =
    if contains (keys schema.directive_definitions) name then schema else record schema {
      directive_definitions = insert name definition schema.directive_definitions;
    }

abbrev pub insert_directives : FederationType → Schema → Schema
insert_directives supergraph schema =
    insert_directive "stream" stream_definition (insert_directive "defer" defer_definition schema)
insert_directives _ schema = schema

-- The end of `patch_schema`: the fields of the root and the directives of the router.
abbrev pub finish : List String → FederationType → String × Schema → ObjectType → Schema
finish members federation_type (name, schema) obj = insert_directives federation_type (
    insert_type name (ExtendedType.object (record obj { fields = root_fields members obj.fields }))
      schema)

unfoldable pub patch_root : List String → FederationType → String × Schema → Outcome Schema
patch_root members federation_type root = unwrap (lookup root.0 root.1.types) >>= λ ty.
    as_query_root ty >>= λ obj. ok (finish members federation_type root obj)

-- `Directive::argument_by_name` is `apollo_compiler`'s.
module _ (argument_by_name : Directive → String → Schema → Option ConstValue) where
  unfoldable pub is_federated_directive : Schema → Directive → Outcome Bool
  is_federated_directive schema directive =
      if directive.name == "key" || directive.name == "join__type"
      then (unwrap (argument_by_name directive "resolvable" schema) >>= λ value.
          unwrap (to_bool value))
      else ok false

  -- `any` over the directives: it stops at the first that is federated.
  unfoldable pub any_federated : Schema → ExtendedType → List Directive → Outcome Bool
  any_federated schema ty [] = ok false
  any_federated schema ty (d ∷ ds) =
      let rest = any_federated schema ty ds in
      is_federated_directive schema d >>= λ federated.
      if federated && is_not_query schema ty then ok true else rest

  unfoldable pub is_federated_type : Schema → ExtendedType → Outcome Bool
  is_federated_type schema ty = any_federated schema ty (directives_of ty)

  -- The names of the federated object types, in the order of the schema's types.
  unfoldable pub federated_members : Schema → Dict ExtendedType → Outcome (List String)
  federated_members schema [] = ok []
  federated_members schema ((name, ty) ∷ types) =
      let rest = federated_members schema types in
      (if is_object ty then is_federated_type schema ty else ok false) >>= λ federated.
      rest >>= λ members. ok (if federated then name ∷ members else members)

  unfoldable pub patch_schema : Schema → FederationType → Outcome Schema
  patch_schema schema federation_type = federated_members schema schema.types >>= λ members.
      query_type_name (insert_federation_types (insert_entity members schema) federation_type)
        federation_type
      >>= λ root. patch_root members federation_type root
