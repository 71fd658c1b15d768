-- ===== src/Tests/Loading.antt =====
-- A reload that fails, and one that succeeds.
use subgraph_mock.Base.{insert, lookup, ◌≡◌, refl, [], ◌∷◌, ok, err, ◌==◌, if◌then◌else◌}
use subgraph_mock.Schema.{FederatedSchema}
use subgraph_mock.Federation.{
  patch_ast, patch_schema, federated_members, is_federated_type, any_federated,
  is_federated_directive, query_type_name, patch_root, finish, insert_entity,
}
use subgraph_mock.Federation.Types.{unfederated, insert_federation_types}
use subgraph_mock.Loading.{Compiler, Files, modify, parse_string, parse, update_schema, on_event}
use subgraph_mock.Loading.Served.{IsLoaded, start, event, IsServed-IsLoaded}
use subgraph_mock.Tests.Federation.{small, written, query_root}

-- A compiler that knows one text, and files that hold what their path says.
abbrev compiler : Compiler
compiler = record {
  parse = λ source. if source == "good" then ok [] else err "syntax error";
  to_schema = λ ast. ok small;
  validate = λ schema. ok schema;
  argument_by_name = written;
}

abbrev files : Files
files path = ok path

abbrev served : FederatedSchema
served = record {
  valid =
      finish ("User" ∷ []) unfederated
        ("Query", insert_federation_types (insert_entity ("User" ∷ []) small) unfederated)
        query_root;
  source = "good";
}

good_loads : parse compiler files "good" ≡ ok served
unfolding federated_members is_federated_type any_federated is_federated_directive lookup parse
    parse_string patch_ast patch_schema query_type_name insert_federation_types patch_root insert
good_loads = refl

bad_keeps : on_event compiler files (modify ("bad" ∷ [])) served ≡ ok served
unfolding on_event update_schema parse parse_string
bad_keeps = refl

IsServed-IsLoaded_example : IsLoaded compiler served
IsServed-IsLoaded_example =
    IsServed-IsLoaded compiler served
      (event files (modify ("bad" ∷ [])) (start files "good" good_loads) bad_keeps)
