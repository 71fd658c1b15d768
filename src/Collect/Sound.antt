-- ===== src/Collect/Sound.antt =====
-- What `collect_fields` of src/handle/graphql.rs returns, when it returns.
use mathlib.Core.List.{append-nil, append_assoc}
use subgraph_mock.Base.{
  ℕ, zero, suc, String, ◌≡◌, inl, inr, Option-cases, List, [], ◌∷◌, ◌++◌, lookup, Outcome, ok,
  >>=-eq-ok,
}
use subgraph_mock.Document.{
  Field, Selections, of_field, fragment_spread, inline_fragment, done, select, Document,
}
use subgraph_mock.Collect.{Groups, collect_loop, collect_fields}
use subgraph_mock.Collect.Reference.{Flattens, nothing, field, unknown, spread, inline}
use subgraph_mock.Collect.Grouping.{
  IsGrouping, IsIteration, IsGrouping-nil, IsGrouping-append_groups, IsGrouping-extend_entry,
  IsGrouping-iter,
}

module _ (doc : Document) (iter : Groups → List (String × List Field))
    (law : IsIteration iter) where
  -- What a call on `selections` adds to a map that groups `before`.
  abbrev Adds : Selections → List Field → Groups → Type 0
  Adds selections before m =
      (fields : List Field) × Flattens doc selections fields × IsGrouping m (before ++ fields)

  collect_loop-Adds :
      (collect : Selections → Outcome Groups)
      → ((body : Selections) (g : Groups) → collect body ≡ ok g → Adds body [] g)
      → (selections : Selections) (before : List Field) (m r : Groups) → IsGrouping m before
      → collect_loop doc iter collect selections m ≡ ok r
      → Adds selections before r
  unfolding collect_loop
  collect_loop-Adds collect rec done before m r h e =
      let p : m ≡ r = cc in ([], nothing, rw (append-nil, ← p) h)
  collect_loop-Adds collect rec (select (of_field f) rest) before m r h e =
      let (fields, flat, g) =
        collect_loop-Adds collect rec rest (before ++ f ∷ []) _ r (IsGrouping-extend_entry f h) e in
      (f ∷ fields, field f flat, rw append_assoc at g)
  collect_loop-Adds collect rec (select (fragment_spread n) rest) before m r h e =
      elim (Option-cases (lookup n doc.fragments)) [
        | inl absent ↦
            let (fields, flat, g) =
              collect_loop-Adds collect rec rest before m r h (rw (absent, collect_loop) at e) in
            (fields, unknown n absent flat, g)
        | inr (definition, found) ↦
            let (groups, e1, e2) =
              >>=-eq-ok (collect definition.selections) _ (rw (found, collect_loop) at e) in
            let (inner, flat, g) = rec definition.selections groups e1 in
            let (fields, flat', g') =
              collect_loop-Adds collect rec rest (before ++ inner) _ r
                (IsGrouping-append_groups (IsGrouping-iter iter law g) h) e2 in
            (inner ++ fields, spread n definition found flat flat', rw append_assoc at g')
      ]
  collect_loop-Adds collect rec (select (inline_fragment c selections) rest) before m r h e =
      let (groups, e1, e2) = >>=-eq-ok (collect_loop doc iter collect selections []) _ e in
      let (inner, flat, g) =
        collect_loop-Adds collect rec selections [] [] groups IsGrouping-nil e1 in
      let (fields, flat', g') =
        collect_loop-Adds collect rec rest (before ++ inner) _ r
          (IsGrouping-append_groups (IsGrouping-iter iter law g) h) e2 in
      (inner ++ fields, inline c flat flat', rw append_assoc at g')

  -- The map that `collect_fields` returns groups the fields of the selection set in document order,
  -- those of its fragments included, by response key, whatever the order in which hash maps are
  -- iterated over.
  pub collect_fields-IsGrouping :
      (fuel : ℕ) (selections : Selections) (groups : Groups)
      → collect_fields doc iter fuel selections ≡ ok groups
      → (fields : List Field) × Flattens doc selections fields × IsGrouping groups fields
  unfolding collect_fields
  collect_fields-IsGrouping zero selections groups e = cc
  collect_fields-IsGrouping (suc fuel) selections groups e =
      collect_loop-Adds (collect_fields doc iter fuel) (collect_fields-IsGrouping fuel) selections
        [] [] groups IsGrouping-nil e
