-- ===== src/Schema.antt =====
-- The parts of `apollo_compiler`'s schema that the program reads and writes: types, directives, and
-- `FederatedSchema` of src/state/schema/mod.rs.
use subgraph_mock.Base.{String, Bool, true, false, Option, List, Dict, ℤ}

-- `ast::Type`
pub data Ty : Type 0 where
  named : String → Ty
  non_null_named : String → Ty
  list : Ty → Ty
  non_null_list : Ty → Ty

abbrev pub is_non_null : Ty → Bool
is_non_null (non_null_named _) = true
is_non_null (non_null_list _) = true
is_non_null _ = false

abbrev pub is_list : Ty → Bool
is_list (list _) = true
is_list (non_null_list _) = true
is_list _ = false

abbrev pub inner_named_type : Ty → String
inner_named_type (named n) = n
inner_named_type (non_null_named n) = n
inner_named_type (list t) = inner_named_type t
inner_named_type (non_null_list t) = inner_named_type t

-- `ast::Value`, the value of an argument or its default.
mutual
  pub data ConstValue : Type 0 where
    null : ConstValue
    boolean : Bool → ConstValue
    int : ℤ → ConstValue
    float : String → ConstValue
    string : String → ConstValue
    enum_value : String → ConstValue
    list_value : ConstValues → ConstValue
    object_value : ConstFields → ConstValue

  pub data ConstValues : Type 0 where
    no_values : ConstValues
    value : ConstValue → ConstValues → ConstValues

  pub data ConstFields : Type 0 where
    no_fields : ConstFields
    field : String → ConstValue → ConstFields → ConstFields

-- A use of a directive, with the arguments that it writes.
pub record Directive : Type 0 where
  pub name : String
  pub arguments : Dict ConstValue

pub record InputValueDefinition : Type 0 where
  pub description : Option String
  pub name : String
  pub ty : Ty
  pub default_value : Option ConstValue
  pub directives : List Directive

pub record FieldDefinition : Type 0 where
  pub description : Option String
  pub name : String
  pub arguments : List InputValueDefinition
  pub ty : Ty
  pub directives : List Directive

pub record ScalarType : Type 0 where
  pub description : Option String
  pub name : String
  pub directives : List Directive

-- Objects and interfaces have the same fields.
pub record ObjectType : Type 0 where
  pub description : Option String
  pub name : String
  pub implements_interfaces : List String
  pub directives : List Directive
  pub fields : Dict FieldDefinition

pub record UnionType : Type 0 where
  pub description : Option String
  pub name : String
  pub directives : List Directive
  pub members : List String

pub record EnumValueDefinition : Type 0 where
  pub description : Option String
  pub value : String
  pub directives : List Directive

pub record EnumType : Type 0 where
  pub description : Option String
  pub name : String
  pub directives : List Directive
  pub values : Dict EnumValueDefinition

pub record InputObjectType : Type 0 where
  pub description : Option String
  pub name : String
  pub directives : List Directive
  pub fields : Dict InputValueDefinition

pub data ExtendedType : Type 0 where
  scalar : ScalarType → ExtendedType
  object : ObjectType → ExtendedType
  interface : ObjectType → ExtendedType
  union : UnionType → ExtendedType
  enum : EnumType → ExtendedType
  input_object : InputObjectType → ExtendedType

pub data DirectiveLocation : Type 0 where
  query mutation subscription field field_definition : DirectiveLocation
  fragment_definition fragment_spread inline_fragment variable_definition : DirectiveLocation
  schema scalar object interface union enum enum_value : DirectiveLocation
  argument_definition input_object input_field_definition : DirectiveLocation

pub record DirectiveDefinition : Type 0 where
  pub description : Option String
  pub name : String
  pub arguments : List InputValueDefinition
  pub repeatable : Bool
  pub locations : List DirectiveLocation

-- The names of the root operation types.
pub record SchemaRoots : Type 0 where
  pub query : Option String
  pub mutation : Option String
  pub subscription : Option String

pub record Schema : Type 0 where
  pub schema_definition : SchemaRoots
  pub directive_definitions : Dict DirectiveDefinition
  pub types : Dict ExtendedType

-- The validated schema with the text that it was parsed from, which `sdl` returns.
pub record FederatedSchema : Type 0 where
  pub valid : Schema
  pub source : String

abbrev pub sdl : FederatedSchema → String
sdl s = s.source
