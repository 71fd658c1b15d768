-- ===== src/Tests/Federation.antt =====
-- `patch_ast` and `patch_schema` at a small subgraph.
use mathlib.Core.Path.{subst}
use mathlib.Core.Option.{some-injective}
use subgraph_mock.Base.{
  contains, ◌==◌, ◌≡◌, refl, true, false, Option, none, some, String, List, [], ◌∷◌, Dict, lookup,
  keys, ok, insert, All, or_else,
}
use subgraph_mock.Schema.{ConstValue, Directive, ExtendedType, ObjectType, Schema, named}
use subgraph_mock.Federation.Definitions.{federation_directives}
use subgraph_mock.Federation.Types.{
  subgraph, unfederated, object_type, field_without_arguments, insert_federation_types,
}
use subgraph_mock.Federation.Lookups.{injected}
use subgraph_mock.Federation.Endings.{ends, ending, panics, HasResolvable, patch_schema-ends}
use subgraph_mock.Federation.Contract.{IsPatched, patch_schema-IsPatched}
use subgraph_mock.Federation.Ast.{IsKnown, ArgumentsKnown, federation_directives-AreKnown}
use subgraph_mock.Federation.{
  Definition, schema_extension, other, patch_ast, patch_schema, query_type_name, federated_members,
  is_federated_type, any_federated, is_federated_directive, patch_root, finish, insert_entity,
}

-- The argument that a use writes, or else `true`, the default of `@key`.
abbrev pub written : Directive → String → Schema → Option ConstValue
written d name schema = or_else (lookup name d.arguments) (some (ConstValue.boolean true))

abbrev key : Dict ConstValue → Directive
key arguments = record { name = "key"; arguments = arguments }

abbrev object_with : String → List Directive → ExtendedType
object_with name directives = ExtendedType.object record {
  description = none;
  name = name;
  implements_interfaces = [];
  directives = directives;
  fields = ("id", field_without_arguments "id" (named "ID")) ∷ [];
}

abbrev pub small : Schema
small = record {
  schema_definition = record { query = some "Query"; mutation = none; subscription = none };
  directive_definitions = [];
  types =
      ("Query", object_type "Query" [])
      ∷ ("User", object_with "User" (key [] ∷ []))
      ∷ ("Pet", object_with "Pet" (key (("resolvable", ConstValue.boolean false) ∷ []) ∷ []))
      ∷ [];
}

members_run : federated_members written small small.types ≡ ok ("User" ∷ [])
unfolding federated_members is_federated_type any_federated is_federated_directive lookup
members_run = refl

abbrev pub query_root : ObjectType
query_root = record {
  description = none;
  name = "Query";
  implements_interfaces = [];
  directives = [];
  fields = [];
}

abbrev patched : Schema
patched =
    finish ("User" ∷ []) subgraph
      ("Query", insert_federation_types (insert_entity ("User" ∷ []) small) subgraph) query_root

patched_run : patch_schema written small subgraph ≡ ok patched
unfolding members_run patch_schema query_type_name insert_federation_types patch_root keys insert
patched_run = refl

patch_schema-IsPatched_example : IsPatched written small subgraph patched
unfolding keys
patch_schema-IsPatched_example =
    patch_schema-IsPatched written small subgraph (refl, (refl, (refl, tt))) patched_run

abbrev linked : List Definition
linked =
    other (some "User") "type User { id: ID }"
    ∷ schema_extension (record { name = "link"; arguments = [] } ∷ []) []
    ∷ []

federation_directives-AreKnown_example :
    All (ArgumentsKnown (IsKnown (insert_federation_types small subgraph))) federation_directives
federation_directives-AreKnown_example = federation_directives-AreKnown small

linked_type : (patch_ast linked).federation_type ≡ subgraph
unfolding patch_ast
linked_type = refl

-- A query type that the schema does not define.
abbrev missing_root : Schema
missing_root = record small { types = ("User", object_with "User" (key [] ∷ [])) ∷ [] }

missing_root_panics : ends unfederated (some "Query") missing_root.types ≡ panics
unfolding lookup
missing_root_panics = refl

missing_root-HasResolvable : HasResolvable written missing_root missing_root.types
unfolding lookup
missing_root-HasResolvable = (((λ h. (true, refl)), tt), tt)

patch_schema-ends_example :
    ending (patch_schema written missing_root unfederated)
    ≡ ends unfederated (some "Query") missing_root.types
patch_schema-ends_example =
    patch_schema-ends written missing_root unfederated missing_root-HasResolvable λ name e.
      subst (λ n. (contains (injected unfederated) n ≡ false) × ("_Entity" == n ≡ false))
        (some-injective _ _ e) (refl, refl)
