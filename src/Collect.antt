-- ===== src/Collect.antt =====
-- `collect_fields` of src/handle/graphql.rs: the fields of a selection set by response key, with
-- those of the fragments that it spreads. A spread costs a unit of fuel.
pub mod Grouping
pub mod Reference
pub mod Sound
pub mod Complete
use subgraph_mock.Base.{
  ℕ, zero, suc, String, Option, none, some, List, [], ◌∷◌, ◌++◌, Dict, lookup, Outcome, ok,
  out_of_fuel, ◌>>=◌, ◌==◌, if◌then◌else◌,
}
use subgraph_mock.Document.{
  Field, Selection, Selections, of_field, fragment_spread, inline_fragment, done, select,
  SelectionSet, Document, response_key,
}

-- `HashMap<String, Vec<&Node<Field>>>`
abbrev pub Groups : Type 0
Groups = Dict (List Field)

-- `map.entry(key).or_default()`, extended by `fields`: a `push` or an `append`.
unfoldable pub extend_entry : String → List Field → Groups → Groups
extend_entry k fields [] = (k, fields) ∷ []
extend_entry k fields ((j, old) ∷ m) =
    if j == k then (j, old ++ fields) ∷ m else (j, old) ∷ extend_entry k fields m

-- The loop over a fragment's groups, in the order in which the hash map is iterated over.
unfoldable pub append_groups : List (String × List Field) → Groups → Groups
append_groups [] m = m
append_groups ((k, fields) ∷ groups) m = append_groups groups (extend_entry k fields m)

module _ (doc : Document) (iter : Groups → List (String × List Field)) where
  -- The loop over the selections; `collect` is the recursive call on a fragment definition.
  unfoldable pub collect_loop : (Selections → Outcome Groups) → Selections → Groups → Outcome Groups
  collect_loop collect done m = ok m
  collect_loop collect (select (of_field field) rest) m =
      collect_loop collect rest (extend_entry (response_key field) (field ∷ []) m)
  collect_loop collect (select (fragment_spread fragment_name) rest) m =
      elim (lookup fragment_name doc.fragments) [
        | none ↦ collect_loop collect rest m
        | some fragment_def ↦ do
          groups ← collect fragment_def.selections
          collect_loop collect rest (append_groups (iter groups) m)
      ]
  collect_loop collect (select (inline_fragment _ selections) rest) m = do
    groups ← collect_loop collect selections []
    collect_loop collect rest (append_groups (iter groups) m)

  unfoldable pub collect_fields : ℕ → Selections → Outcome Groups
  unfolding collect_loop extend_entry append_groups
  collect_fields zero selections = out_of_fuel
  collect_fields (suc fuel) selections = collect_loop (collect_fields fuel) selections []
