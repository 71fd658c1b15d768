-- ===== src/Collect/Reference.antt =====
-- What `collect_fields` of src/handle/graphql.rs is meant to compute, with no maps: the fields of a
-- selection set in document order, with each fragment in its place.
use subgraph_mock.Base.{
  String, ◌≡◌, Option, none, some, List, [], ◌∷◌, ◌++◌, lookup, ◌==◌, if◌then◌else◌,
}
use subgraph_mock.Document.{
  Field, Selections, of_field, fragment_spread, inline_fragment, done, select, SelectionSet,
  Document, response_key,
}

-- `Flattens doc selections fields`: an unknown fragment stands for no field.
pub data Flattens (doc : Document) : Selections → List Field → Type 0 where
  nothing : Flattens doc done []
  field :
      {rest : Selections} {fields : List Field} (f : Field)
      → Flattens doc rest fields
      → Flattens doc (select (of_field f) rest) (f ∷ fields)
  unknown :
      {rest : Selections} {fields : List Field} (n : String)
      → lookup n doc.fragments ≡ none
      → Flattens doc rest fields
      → Flattens doc (select (fragment_spread n) rest) fields
  spread :
      {rest : Selections} {inner fields : List Field} (n : String) (definition : SelectionSet)
      → lookup n doc.fragments ≡ some definition
      → Flattens doc definition.selections inner
      → Flattens doc rest fields
      → Flattens doc (select (fragment_spread n) rest) (inner ++ fields)
  inline :
      {rest selections : Selections} {inner fields : List Field} (condition : Option String)
      → Flattens doc selections inner
      → Flattens doc rest fields
      → Flattens doc (select (inline_fragment condition selections) rest) (inner ++ fields)

-- The fields with the response key `k`, in order.
abbrev pub with_key : String → List Field → List Field
with_key k [] = []
with_key k (f ∷ fields) =
    let rest = with_key k fields in if response_key f == k then f ∷ rest else rest

-- No entry where there is no field.
abbrev pub present : List Field → Option (List Field)
present [] = none
present (f ∷ fields) = some (f ∷ fields)
