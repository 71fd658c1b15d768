-- ===== src/Tests/Response.antt =====
-- Responses to a small operation, some of whose fields fail.
use mathlib.Core.Option.{some-injective}
use subgraph_mock.Base.{
  sym, ℕ, ◌<◌, ◌≡◌, refl, false, some, none, List, [], ◌∷◌, length, lookup, insert, keys, Outcome,
  ok, err, arith, All-lookup,
}
use subgraph_mock.Json.{Json}
use subgraph_mock.Document.{Field, OperationType, Operation, Document, SelectionSet}
use subgraph_mock.Collect.{collect_fields}
use subgraph_mock.Collect.Reference.{Flattens, field}
use subgraph_mock.Random.{
  repeat, ◌>>=◌, random_range, random_below, random_ratio, random_int, choose,
}
use subgraph_mock.Generation.{ResponseGenerationConfig, generate}
use subgraph_mock.Builder.{
  build_selection_set, fill, field_value, nullable_value, present_value, typename, leaf_field,
  should_be_null, array_leaf_field, array_selection_set, arbitrary_array_len,
  arbitrary_union_member, merge_selections,
}
use subgraph_mock.Builder.Returns.Static.{IsWellFormed, IsValid}
use subgraph_mock.Response.{
  Executor, partial_response, to_set, drop_keys, hits, fail_fields, random_data, respond,
  generate_response,
}
use subgraph_mock.Response.Spec.{IsResponse}
use subgraph_mock.Response.Conforms.{generate_response_conforms}
use subgraph_mock.Response.Returns.{IsSound, IsAnswerable, generate_response_returns}
use subgraph_mock.Tests.Sample.{counter, counter-IsLawful, schema, document, query, cfg}
use subgraph_mock.Tests.Builder.{no_rank, cfg-IsUsable, names-IsWellFormed, query-IsWellFormed}

abbrev pub operation : Operation
operation = record { name = none; operation_type = OperationType.query; selections = query }

abbrev pub asked : Document
asked = record document { operations = operation ∷ [] }

abbrev pub exec : Executor
exec = record {
  get_operation = λ doc name. some operation;
  is_introspection = λ doc op. false;
  coerce_variable_values = λ schema op variables. ok variables;
  partial_execute = λ schema doc op variables. err "not introspection";
}

abbrev failing : ResponseGenerationConfig
failing = record cfg {
  graphql_errors = record { request_error_ratio = some (0, 1); field_error_ratio = some (1, 1) };
}

run : ℕ → Outcome (Json × ℕ)
unfolding build_selection_set fill field_value nullable_value present_value typename leaf_field
    should_be_null array_leaf_field array_selection_set arbitrary_array_len arbitrary_union_member
    merge_selections collect_fields repeat ◌>>=◌ random_range random_below random_ratio random_int
    choose generate lookup insert to_set drop_keys hits fail_fields random_data respond
    generate_response keys
run s = generate_response counter exec failing schema asked 2 4 none [] s

abbrev response : Json
response = partial_response (("colors", Json.null) ∷ []) ("user" ∷ [])

run_fails : run 1 ≡ ok (response, 12)
unfolding run
run_fails = refl

generate_response_conforms_example : IsResponse exec failing schema asked none [] response
unfolding run
generate_response_conforms_example =
    generate_response_conforms counter counter-IsLawful exec failing schema asked none [] 2 4 1 12
      response refl

pub asked-IsValid : IsValid schema no_rank asked 1
asked-IsValid = record {
  fragment = λ n definition found.
      All-lookup (λ (d : SelectionSet). IsWellFormed schema no_rank 0 1 d.selections)
        asked.fragments n (names-IsWellFormed, tt) found;
}

pub cfg-IsSound : IsSound counter cfg
cfg-IsSound = record { usable = cfg-IsUsable; request_errors = tt; field_errors = tt }

query_selects : (fields : List Field) → Flattens asked query.selections fields → 0 < length fields
query_selects fields (field f rest) = omega arith

pub query-IsAnswerable :
    (found : Operation)
    → some operation ≡ some found
    → IsAnswerable counter counter-IsLawful exec cfg cfg-IsSound schema asked no_rank 1
        asked-IsValid 1 3 [] found
unfolding lookup
query-IsAnswerable found e = rw (sym (some-injective operation found e)) (record {
  formed = query-IsWellFormed;
  inhabited = tt;
  selects = query_selects;
  introspects = λ h. cc;
})

generate_response_returns_example :
    (v : Json) × (s' : ℕ) × (generate_response counter exec cfg schema asked 2 5 none [] 1
      ≡ ok (v, s'))
generate_response_returns_example =
    generate_response_returns counter counter-IsLawful exec cfg cfg-IsSound schema asked no_rank 1
      asked-IsValid 1 3 2 5 (omega arith) (omega arith) none [] query-IsAnswerable 1
