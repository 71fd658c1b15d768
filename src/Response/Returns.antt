-- ===== src/Response/Returns.antt =====
-- `generate_response` of src/handle/graphql.rs returns a response for every operation of a validated
-- document, if the configuration is usable.
use text.Mathlib.TextPositions.{eq_refl}
use subgraph_mock.Base.{
  ℕ, ◌+◌, ◌*◌, ◌<◌, ◌≡◌, refl, ◌∙◌, true, false, String, Option, none, some, inl, inr, Option-cases,
  List, [], ◌∷◌, map, Dict, keys, contains, length, ok, arith,
}
use subgraph_mock.Json.{Json}
use subgraph_mock.Schema.{FederatedSchema}
use subgraph_mock.Document.{Field, Operation, Document, SelectionSet, response_key}
use subgraph_mock.Collect.Reference.{Flattens}
use subgraph_mock.Random.{Random, IsLawful}
use subgraph_mock.Random.Yields.{Yields-any}
use subgraph_mock.Random.Runs.{
  Runs, Runs-pure, Runs-draw, Runs-lift, Runs-if, Runs-bind, Runs-random_ratio, Runs-random_range,
}
use subgraph_mock.Generation.{Ratio, ResponseGenerationConfig}
use subgraph_mock.Builder.{union_type}
use subgraph_mock.Builder.Spec.{ObjectOk, answers}
use subgraph_mock.Builder.Conforms.{build_selection_set-ObjectOk}
use subgraph_mock.Builder.Returns.{build_selection_set_returns}
use subgraph_mock.Builder.Returns.Levels.{IsInhabited}
use subgraph_mock.Builder.Returns.Leaves.{IsUsable, IsRatio}
use subgraph_mock.Builder.Returns.Static.{IsWellFormed, IsValid}
use subgraph_mock.Response.{
  Executor, hits, fail_fields, random_data, respond, generate_response, introspect,
}

pub Runs-hits : (R : Random) (ratio : Option Ratio) → IsRatio ratio → Runs (hits R ratio)
unfolding hits
Runs-hits R none h = Runs-pure false
Runs-hits R (some (n, d)) h = Runs-random_ratio R n d h.0 h.1

Runs-fail_fields : (R : Random) (d : Dict Json) → 0 < length d → Runs (fail_fields R d)
unfolding fail_fields
Runs-fail_fields R d some_field =
    Runs-bind _ _ (Runs-random_range R 1 (length d) (omega arith)) (Yields-any _) λ n _.
      Runs-bind _ _ (Runs-draw _) (Yields-any _)
        λ picked _. Runs-bind _ _ (Runs-draw _) (Yields-any _) λ failed _. Runs-pure _

-- A configuration whose ratios are fractions up to one.
pub record IsSound (R : Random) (cfg : ResponseGenerationConfig) : Type 0 where
  pub usable : IsUsable R cfg
  pub request_errors : IsRatio cfg.graphql_errors.request_error_ratio
  pub field_errors : IsRatio cfg.graphql_errors.field_error_ratio

key_counted : {V : Type 0} (d : Dict V) (k : String) → contains (keys d) k ≡ true → 0 < length d
unfolding keys
key_counted [] k h = cc
key_counted (e ∷ d) k h = omega arith

pub contains-response_key :
    (f : Field) (fields : List Field)
    → contains (map response_key (f ∷ fields)) (response_key f) ≡ true
contains-response_key f fields = rw eq_refl refl

module _ (R : Random) (law : IsLawful R) (exec : Executor) (cfg : ResponseGenerationConfig)
    (sound : IsSound R cfg) (schema : FederatedSchema) (doc : Document) (rank : String → ℕ)
    (limit : ℕ) (valid : IsValid schema rank doc limit) (r height : ℕ) where
  -- An operation that validation accepts: its selection set has a field, and what it asks of the
  -- schema itself can be answered.
  pub record IsAnswerable (variables : Dict Json) (op : Operation) : Type 0 where
    pub formed : IsWellFormed schema rank r height op.selections.selections
    pub inhabited : IsInhabited (union_type schema op.selections.ty)
    pub selects :
        (fields : List Field) → Flattens doc op.selections.selections fields → 0 < length fields
    pub introspects :
        exec.is_introspection doc op ≡ true
        → (v : Json) × (introspect exec schema doc op variables ≡ ok v)

  some_key :
      {set : SelectionSet} {d : Dict Json}
      → ((fields : List Field) → Flattens doc set.selections fields → 0 < length fields)
      → ObjectOk cfg schema doc set d
      → 0 < length d
  some_key selects (answers [] flat _ _ _) = absurd (omega (arith, selects [] flat))
  some_key selects (answers (f ∷ fields) flat _ same _) =
      key_counted _ (response_key f) (same (response_key f) ∙ contains-response_key f fields)

  module _ (spreads depth : ℕ) (enough : r < spreads) (deep : height + r * limit < depth) where
    Runs-random_data :
        (variables : Dict Json) (op : Operation)
        → IsAnswerable variables op
        → Runs (random_data R exec cfg schema doc spreads depth op)
    unfolding random_data
    Runs-random_data variables op can =
        Runs-bind _ _
          (record {
            at =
                build_selection_set_returns R law cfg sound.usable schema doc rank limit valid r
                  height spreads depth op.selections can.formed can.inhabited enough deep;
          })
          (build_selection_set-ObjectOk R law cfg schema doc spreads depth op.selections)
          λ d object.
            Runs-bind _ _ (Runs-hits R cfg.graphql_errors.field_error_ratio sound.field_errors)
              (Yields-any _)
              λ fails _.
                Runs-if fails _ _ (λ _. Runs-fail_fields R d (some_key can.selects object))
                  (λ _. Runs-pure _)

    Runs-respond :
        (variables : Dict Json) (op : Operation)
        → IsAnswerable variables op
        → Runs (respond R exec cfg schema doc spreads depth op variables)
    unfolding respond
    Runs-respond variables op can =
        Runs-bind _ _ (Runs-hits R cfg.graphql_errors.request_error_ratio sound.request_errors)
          (Yields-any _)
          λ fails _.
            Runs-if fails _ _ (λ _. Runs-pure _)
              λ _.
                Runs-if (exec.is_introspection doc op) _ _
                  (λ only. Runs-lift _ (can.introspects only).1)
                  (λ _. Runs-random_data variables op can)

    -- For a sound configuration, a document without cycles of fragments whose fragments are at most
    -- `limit` levels deep, and an operation that is answerable at a height of `height` with spreads of
    -- ranks below `r`, every run returns a response, whatever is drawn: with fuel above `r` for spreads
    -- and above `height + r * limit` for nesting it neither fails, nor panics, nor stops early.
    pub generate_response_returns :
        (op_name : Option String) (variables : Dict Json)
        → ((op : Operation) → exec.get_operation doc op_name ≡ some op → IsAnswerable variables op)
        → (s : R.State)
        → (v : Json) × (s' : R.State) × (generate_response R exec cfg schema doc spreads depth
              op_name variables s
            ≡ ok (v, s'))
    unfolding generate_response
    generate_response_returns op_name variables can s =
        elim (Option-cases (exec.get_operation doc op_name)) [
          | inl absent ↦ rw absent (_, _, refl)
          | inr (op, found) ↦ rw found ((Runs-respond variables op (can op found)).at s)
        ]
