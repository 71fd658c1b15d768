-- ===== src/Response/Conforms.antt =====
-- `generate_response` of src/handle/graphql.rs meets its contract.
use subgraph_mock.Base.{
  ℕ, ◌≡◌, refl, true, false, String, Option, none, some, inl, inr, Option-cases, Dict, NodupKeys,
  ok,
}
use subgraph_mock.Json.{Json}
use subgraph_mock.Schema.{FederatedSchema}
use subgraph_mock.Document.{Operation, Document, SelectionSet}
use subgraph_mock.Random.{Random, IsLawful}
use subgraph_mock.Random.Yields.{
  Yields, Yields-pure, Yields-bind, Yields-lift, Yields-if, Yields-weaken, Yields-any, Yields-eq,
}
use subgraph_mock.Generation.{Ratio, ResponseGenerationConfig}
use subgraph_mock.Builder.Spec.{ObjectOk, answers}
use subgraph_mock.Builder.Conforms.{build_selection_set-ObjectOk}
use subgraph_mock.Response.{Executor, hits, random_data, respond, generate_response, no_data}
use subgraph_mock.Response.Spec.{
  IsResponse, no_operation, request_failed, introspected, complete, partly_failed,
}
use subgraph_mock.Response.Drops.{Yields-fail_fields}

-- Nothing fails where no ratio is configured.
pub Yields-hits :
    (R : Random) (ratio : Option Ratio)
    → Yields (λ b. b ≡ true → (r : Ratio) × (ratio ≡ some r)) (hits R ratio)
unfolding hits
Yields-hits R none = Yields-pure false (λ e. cc)
Yields-hits R (some r) = Yields-weaken (Yields-any _) (λ b _ _. (r, refl))

module _ (R : Random) (law : IsLawful R) (exec : Executor) (cfg : ResponseGenerationConfig)
    (schema : FederatedSchema) (doc : Document) where
  ObjectOk-NodupKeys :
      {set : SelectionSet} {d : Dict Json} → ObjectOk cfg schema doc set d → NodupKeys d
  ObjectOk-NodupKeys (answers _ _ distinct _ _) = distinct

  module _ (op_name : Option String) (variables : Dict Json) (spreads depth : ℕ) (op : Operation)
      (found : exec.get_operation doc op_name ≡ some op) where
    random_data-IsResponse :
        exec.is_introspection doc op ≡ false
        → Yields
            (IsResponse exec cfg schema doc op_name variables)
            (random_data R exec cfg schema doc spreads depth op)
    unfolding random_data
    random_data-IsResponse ordinary =
        Yields-bind _ _
          (build_selection_set-ObjectOk R law cfg schema doc spreads depth op.selections)
          λ d object.
            Yields-bind _ _ (Yields-hits R cfg.graphql_errors.field_error_ratio) λ fails ratio.
              Yields-if fails _ _
                (λ e.
                  Yields-weaken (Yields-fail_fields R law d (ObjectOk-NodupKeys object))
                    λ v (kept, failed, is_v, splits). rw is_v (
                      partly_failed op (ratio e).0 d kept failed found ordinary (ratio e).1 object
                        splits))
                (λ _. Yields-pure _ (complete op d found ordinary object))

    respond-IsResponse :
        Yields
          (IsResponse exec cfg schema doc op_name variables)
          (respond R exec cfg schema doc spreads depth op variables)
    unfolding respond
    respond-IsResponse =
        Yields-bind _ _ (Yields-hits R cfg.graphql_errors.request_error_ratio) λ fails ratio.
          Yields-if fails _ _ (λ e. Yields-pure _ (request_failed op (ratio e).0 found (ratio e).1))
            λ _.
              Yields-if (exec.is_introspection doc op) _ _
                (λ only. Yields-lift _ (λ v e. introspected op found only e)) random_data-IsResponse

  pub generate_response-IsResponse :
      (op_name : Option String) (variables : Dict Json) (spreads depth : ℕ)
      → Yields
          (IsResponse exec cfg schema doc op_name variables)
          (generate_response R exec cfg schema doc spreads depth op_name variables)
  unfolding generate_response
  generate_response-IsResponse op_name variables spreads depth =
      elim (Option-cases (exec.get_operation doc op_name)) [
        | inl absent ↦ rw absent (Yields-pure no_data (no_operation absent))
        | inr (op, found) ↦ rw found (respond-IsResponse op_name variables spreads depth op found)
      ]

  -- Whatever is drawn within the ranges asked for, and however much fuel is given, a response that is
  -- generated is one of these: null data where there is no such operation; a request error, if a
  -- ratio of them is configured; the introspection result of an operation that asks for nothing else;
  -- data that answers the operation; or, if a ratio of field errors is configured, such data split
  -- into fields that are kept as they are and at least one that fails, with one error for each
  -- failed field that gives its path.
  pub generate_response_conforms :
      (op_name : Option String) (variables : Dict Json) (spreads depth : ℕ) (s s' : R.State)
      (v : Json)
      → generate_response R exec cfg schema doc spreads depth op_name variables s ≡ ok (v, s')
      → IsResponse exec cfg schema doc op_name variables v
  generate_response_conforms op_name variables spreads depth s s' v e =
      Yields-eq {s = s} (generate_response-IsResponse op_name variables spreads depth) e
