-- ===== src/Tests/Builder.antt =====
-- Response generation at a small schema and document.
use subgraph_mock.Base.{
  ℕ, ◌≡◌, refl, String, none, some, [], ◌∷◌, Dict, ok, Outcome, arith, lookup, insert, All-lookup,
  unwrap_or-All,
}
use subgraph_mock.Json
use subgraph_mock.Json.{Json}
use subgraph_mock.Document.{SelectionSet}
use subgraph_mock.Collect.{collect_fields}
use subgraph_mock.Random.{
  repeat, ◌>>=◌, random_range, random_below, random_ratio, random_int, choose,
}
use subgraph_mock.Generation.{default_scalar_config, default_generator, generate}
use subgraph_mock.Builder.{
  build_selection_set, fill, field_value, nullable_value, present_value, typename, leaf_field,
  should_be_null, array_leaf_field, array_selection_set, arbitrary_array_len,
  arbitrary_union_member, merge_selections,
}
use subgraph_mock.Builder.Spec.{ObjectOk}
use subgraph_mock.Builder.Conforms.{build_selection_set_conforms}
use subgraph_mock.Builder.Returns.{build_selection_set_returns}
use subgraph_mock.Builder.Returns.Leaves.{IsGenerator, IsUsable}
use subgraph_mock.Builder.Returns.Static.{IsWellFormed, IsValid, end, field_in, spread_of}
use subgraph_mock.Tests.Sample.{counter, counter-IsLawful, schema, names, document, query, cfg}

run : ℕ → Outcome (Dict Json × ℕ)
unfolding build_selection_set fill field_value nullable_value present_value typename leaf_field
    should_be_null array_leaf_field array_selection_set arbitrary_array_len arbitrary_union_member
    merge_selections collect_fields repeat ◌>>=◌ random_range random_below random_ratio random_int
    choose generate lookup insert
run s = build_selection_set counter cfg schema document 2 4 query s

abbrev answer : Dict Json
answer =
    (
      "user",
      Json.object (
          Json.member "name" (Json.string "aa") (
            Json.member "nick" Json.null (
              Json.member "pet"
                (Json.object (Json.member "__typename" (Json.string "Dog") Json.no_members))
                Json.no_members))),
    )
    ∷ ("colors", Json.null)
    ∷ []

-- The two occurrences of `user` are merged, and a member of the union is named.
run_merges : run 1 ≡ ok (answer, 7)
unfolding run
run_merges = refl

build_selection_set_conforms_example : ObjectOk cfg schema document query answer
unfolding run
build_selection_set_conforms_example =
    build_selection_set_conforms counter counter-IsLawful cfg schema document 2 4 query 1 7 answer
      refl

pub cfg-IsUsable : IsUsable counter cfg
cfg-IsUsable = record {
  array_ordered = omega arith;
  null_ratio_valid = omega arith;
  generators = λ name.
      unwrap_or-All (IsGenerator counter) (lookup name default_scalar_config) default_generator
        (λ g e.
          All-lookup (IsGenerator counter) default_scalar_config name
            (tt, (refl, (refl, ((λ s. (_, _, refl, refl)), (omega arith, tt))))) e)
        (omega arith);
}

abbrev pub no_rank : String → ℕ
no_rank n = 0

pub names-IsWellFormed : IsWellFormed schema no_rank 0 1 names
unfolding lookup
names-IsWellFormed =
    field_in none "name" _ "" tt end (field_in (some "nick") "name" _ "" tt end end)

pub document-IsValid : IsValid schema no_rank document 1
document-IsValid = record {
  fragment = λ n definition found.
      All-lookup (λ (d : SelectionSet). IsWellFormed schema no_rank 0 1 d.selections)
        document.fragments n (names-IsWellFormed, tt) found;
}

pub query-IsWellFormed : IsWellFormed schema no_rank 1 3 query.selections
unfolding lookup
query-IsWellFormed = field_in none "user" _ "User" tt (spread_of "Names" (omega arith) end) (
    field_in none "colors" _ "" (omega arith) end (
      field_in none "user" _ "User" tt
        (field_in none "pet" _ "Pet" (omega arith) (field_in none "__typename" _ "" tt end end) end)
        end))

build_selection_set_returns_example :
    (d : Dict Json) × (s' : ℕ) × (build_selection_set counter cfg schema document 2 5 query 1
      ≡ ok (d, s'))
unfolding lookup
build_selection_set_returns_example =
    build_selection_set_returns counter counter-IsLawful cfg cfg-IsUsable schema document no_rank 1
      document-IsValid 1 3 2 5 query query-IsWellFormed tt (omega arith) (omega arith) 1
