-- ===== src/Federation/Definitions.antt =====
-- The directive definitions that a subgraph or a supergraph schema has implicitly:
-- src/state/schema/federation/definitions.rs.
use subgraph_mock.Base.{String, Bool, true, false, Option, none, some, List, [], ◌∷◌, pos}
use subgraph_mock.Schema.{
  Ty, ConstValue, DirectiveLocation, InputValueDefinition, DirectiveDefinition, named,
  non_null_named, list, non_null_list,
}

-- The records that the source writes out at each definition: no description, no directives.
abbrev pub argument : String → Ty → Option ConstValue → InputValueDefinition
argument name ty default_value = record {
  description = none;
  name = name;
  ty = ty;
  default_value = default_value;
  directives = [];
}

abbrev pub directive :
    String → List InputValueDefinition → Bool → List DirectiveLocation → DirectiveDefinition
directive name arguments repeatable locations = record {
  description = none;
  name = name;
  arguments = arguments;
  repeatable = repeatable;
  locations = locations;
}

abbrev pub link_definition : DirectiveDefinition
link_definition =
    directive "link"
      (argument "url" (non_null_named "String") none
        ∷ argument "as" (named "String") none
        ∷ argument "for" (named "link__Purpose") none
        ∷ argument "import" (list (named "link__Import")) none
        ∷ [])
      true (DirectiveLocation.schema ∷ [])

abbrev pub key_definition : DirectiveDefinition
key_definition =
    directive "key"
      (argument "fields" (non_null_named "FieldSet") none
        ∷ argument "resolvable" (named "Boolean") (some (ConstValue.boolean true))
        ∷ [])
      true (DirectiveLocation.object ∷ DirectiveLocation.interface ∷ [])

abbrev pub requires_definition : DirectiveDefinition
requires_definition =
    directive "requires" (argument "fields" (non_null_named "FieldSet") none ∷ []) false
      (DirectiveLocation.field_definition ∷ [])

abbrev pub provides_definition : DirectiveDefinition
provides_definition =
    directive "provides" (argument "fields" (non_null_named "FieldSet") none ∷ []) false
      (DirectiveLocation.field_definition ∷ [])

abbrev pub external_definition : DirectiveDefinition
external_definition =
    directive "external" [] false
      (DirectiveLocation.object ∷ DirectiveLocation.field_definition ∷ [])

abbrev pub tag_definition : DirectiveDefinition
tag_definition = directive "tag" (argument "name" (non_null_named "String") none ∷ []) true (
    DirectiveLocation.field_definition ∷ DirectiveLocation.object ∷ DirectiveLocation.interface
    ∷ DirectiveLocation.union ∷ DirectiveLocation.argument_definition ∷ DirectiveLocation.scalar
    ∷ DirectiveLocation.enum ∷ DirectiveLocation.enum_value ∷ DirectiveLocation.input_object
    ∷ DirectiveLocation.input_field_definition ∷ [])

abbrev pub shareable_definition : DirectiveDefinition
shareable_definition =
    directive "shareable" [] false
      (DirectiveLocation.object ∷ DirectiveLocation.field_definition ∷ [])

abbrev pub inaccessible_definition : DirectiveDefinition
inaccessible_definition = directive "inaccessible" [] false (
    DirectiveLocation.field_definition ∷ DirectiveLocation.object ∷ DirectiveLocation.interface
    ∷ DirectiveLocation.union ∷ DirectiveLocation.argument_definition ∷ DirectiveLocation.scalar
    ∷ DirectiveLocation.enum ∷ DirectiveLocation.enum_value ∷ DirectiveLocation.input_object
    ∷ DirectiveLocation.input_field_definition ∷ [])

abbrev pub override_definition : DirectiveDefinition
override_definition =
    directive "override" (argument "from" (non_null_named "String") none ∷ []) false
      (DirectiveLocation.field_definition ∷ [])

abbrev pub compose_directive_definition : DirectiveDefinition
compose_directive_definition =
    directive "composeDirective" (argument "name" (non_null_named "String") none ∷ []) true
      (DirectiveLocation.schema ∷ [])

abbrev pub interface_object_definition : DirectiveDefinition
interface_object_definition = directive "interfaceObject" [] false (DirectiveLocation.object ∷ [])

abbrev pub authenticated_definition : DirectiveDefinition
authenticated_definition = directive "authenticated" [] false (
    DirectiveLocation.field_definition ∷ DirectiveLocation.object ∷ DirectiveLocation.interface
    ∷ DirectiveLocation.scalar ∷ DirectiveLocation.enum ∷ [])

abbrev pub requires_scopes_definition : DirectiveDefinition
requires_scopes_definition =
    directive "requiresScopes"
      (argument "scopes" (non_null_list (non_null_list (non_null_named "federation__Scope"))) none
        ∷ [])
      false
      (DirectiveLocation.field_definition ∷ DirectiveLocation.object ∷ DirectiveLocation.interface
        ∷ DirectiveLocation.scalar ∷ DirectiveLocation.enum ∷ [])

abbrev pub policy_definition : DirectiveDefinition
policy_definition =
    directive "policy"
      (argument "policies" (non_null_list (non_null_list (non_null_named "federation__Policy")))
          none
        ∷ [])
      false
      (DirectiveLocation.field_definition ∷ DirectiveLocation.object ∷ DirectiveLocation.interface
        ∷ DirectiveLocation.scalar ∷ DirectiveLocation.enum ∷ [])

abbrev pub context_definition : DirectiveDefinition
context_definition =
    directive "context" (argument "name" (non_null_named "String") none ∷ []) true
      (DirectiveLocation.interface ∷ DirectiveLocation.object ∷ DirectiveLocation.union ∷ [])

abbrev pub from_context_definition : DirectiveDefinition
from_context_definition =
    directive "fromContext" (argument "field" (named "federation__ContextFieldValue") none ∷ [])
      false (DirectiveLocation.argument_definition ∷ [])

abbrev pub defer_definition : DirectiveDefinition
defer_definition =
    directive "defer"
      (argument "label" (named "String") none
        ∷ argument "if" (non_null_named "Boolean") (some (ConstValue.boolean true))
        ∷ [])
      false (DirectiveLocation.fragment_spread ∷ DirectiveLocation.inline_fragment ∷ [])

abbrev pub stream_definition : DirectiveDefinition
stream_definition =
    directive "stream"
      (argument "label" (named "String") none
        ∷ argument "if" (non_null_named "Boolean") (some (ConstValue.boolean true))
        ∷ argument "initialCount" (named "Int") (some (ConstValue.int (pos 0)))
        ∷ [])
      false (DirectiveLocation.field ∷ [])

-- The source wraps each one as an item of the document (`Definition::DirectiveDefinition`), which
-- `patch_ast` of the parent does.
abbrev pub federation_directives : List DirectiveDefinition
federation_directives =
    external_definition ∷ requires_definition ∷ provides_definition ∷ key_definition
    ∷ link_definition ∷ shareable_definition ∷ inaccessible_definition ∷ tag_definition
    ∷ override_definition ∷ compose_directive_definition ∷ interface_object_definition
    ∷ authenticated_definition ∷ requires_scopes_definition ∷ policy_definition ∷ context_definition
    ∷ from_context_definition ∷ []
