-- ===== src/Document.antt =====
-- `apollo_compiler`'s executable documents, as far as the program reads them.
use subgraph_mock.Base.{String, Option, none, some, List, Dict}
use subgraph_mock.Schema.{Ty}

mutual
  -- alias, name, the type in the schema, and the selection set: its type and its selections
  pub data Field : Type 0 where
    make : Option String → String → Ty → String → Selections → Field

  -- An inline fragment may have a type condition.
  pub data Selection : Type 0 where
    of_field : Field → Selection
    fragment_spread : String → Selection
    inline_fragment : Option String → Selections → Selection

  pub data Selections : Type 0 where
    done : Selections
    select : Selection → Selections → Selections

pub record SelectionSet : Type 0 where
  pub ty : String
  pub selections : Selections

abbrev pub name : Field → String
name (make alias n t set_ty sub) = n

abbrev pub ty : Field → Ty
ty (make alias n t set_ty sub) = t

abbrev pub selection_set : Field → SelectionSet
selection_set (make alias n t set_ty sub) = record { ty = set_ty; selections = sub }

-- `field.alias.as_ref().unwrap_or(&field.name)`
abbrev pub response_key : Field → String
response_key (make (some alias) n t set_ty sub) = alias
response_key (make none n t set_ty sub) = n

-- `extend_from_slice`
abbrev pub append : Selections → Selections → Selections
append done more = more
append (select s rest) more = select s (append rest more)

pub data OperationType : Type 0 where
  query mutation subscription : OperationType

pub record Operation : Type 0 where
  pub name : Option String
  pub operation_type : OperationType
  pub selections : SelectionSet

-- The operations in the order in which the document iterates over them, and the fragment
-- definitions by name.
pub record Document : Type 0 where
  pub operations : List Operation
  pub fragments : Dict SelectionSet
