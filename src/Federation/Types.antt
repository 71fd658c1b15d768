-- ===== src/Federation/Types.antt =====
-- The types that are added to every schema: `FederationType` of
-- src/state/schema/federation/mod.rs and `insert_federation_types` of definitions.rs beside it.
use subgraph_mock.Base.{String, none, [], ◌∷◌, Dict, insert}
use subgraph_mock.Schema.{
  Ty, ExtendedType, EnumValueDefinition, FieldDefinition, Schema, non_null_named,
}

pub data FederationType : Type 0 where
  subgraph supergraph unfederated : FederationType

abbrev pub field_without_arguments : String → Ty → FieldDefinition
field_without_arguments name ty = record {
  description = none;
  name = name;
  arguments = [];
  ty = ty;
  directives = [];
}

abbrev pub object_type : String → Dict FieldDefinition → ExtendedType
object_type name fields = ExtendedType.object record {
  description = none;
  name = name;
  implements_interfaces = [];
  directives = [];
  fields = fields;
}

abbrev pub scalar_type : String → ExtendedType
scalar_type name = ExtendedType.scalar record { description = none; name = name; directives = [] }

abbrev enum_value : String → EnumValueDefinition
enum_value value = record { description = none; value = value; directives = [] }

abbrev pub service_type : ExtendedType
service_type =
    object_type "_Service" (("sdl", field_without_arguments "sdl" (non_null_named "String")) ∷ [])

abbrev pub link_purpose : ExtendedType
link_purpose = ExtendedType.enum record {
  description = none;
  name = "link__Purpose";
  directives = [];
  values = ("SECURITY", enum_value "SECURITY") ∷ ("EXECUTION", enum_value "EXECUTION") ∷ [];
}

-- `schema.types.insert`
abbrev pub insert_type : String → ExtendedType → Schema → Schema
insert_type name ty schema = record schema { types = insert name ty schema.types }

abbrev insert_any : FederationType → Schema → Schema
insert_any unfederated schema = schema
insert_any _ schema = insert_type "_Any" (scalar_type "_Any") schema

abbrev insert_subgraph_types : FederationType → Schema → Schema
insert_subgraph_types subgraph schema =
    insert_type "federation__Policy" (scalar_type "federation__Policy") (
      insert_type "federation__Scope" (scalar_type "federation__Scope") (
        insert_type "federation__ContextFieldValue" (scalar_type "federation__ContextFieldValue") (
          insert_type "link__Import" (scalar_type "link__Import") (
            insert_type "FieldSet" (scalar_type "FieldSet")
              (insert_type "link__Purpose" link_purpose schema)))))
insert_subgraph_types _ schema = schema

unfoldable pub insert_federation_types : Schema → FederationType → Schema
insert_federation_types schema federation_type =
    insert_subgraph_types federation_type
      (insert_any federation_type (insert_type "_Service" service_type schema))
