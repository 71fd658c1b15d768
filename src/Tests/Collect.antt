-- ===== src/Tests/Collect.antt =====
-- `collect_fields` and the scalar generators at small inputs.
use subgraph_mock.Base.{
  ◌≡◌, refl, String, none, some, List, [], ◌∷◌, ok, arith, lookup, or_else, keys,
}
use subgraph_mock.Document.{Field, make, done}
use subgraph_mock.Schema.{named, non_null_named}
use subgraph_mock.Collect.{Groups, collect_fields}
use subgraph_mock.Collect.Reference.{Flattens}
use subgraph_mock.Collect.Grouping.{IsGrouping}
use subgraph_mock.Collect.Sound.{collect_fields-IsGrouping}
use subgraph_mock.Collect.Complete.{collect_fields_returns}
use subgraph_mock.Random.Yields.{Yields}
use subgraph_mock.Generation.{
  ScalarGenerator, minus_one, plus_one, ResponseGenerationConfig, default_scalar_config,
  default_generation, merge_default_scalars, generate,
}
use subgraph_mock.Generation.Scalars.{InRange, generate-InRange, merge_default_scalars_lem}
use subgraph_mock.Builder.Returns.Static.{IsRanked-of, SpreadsBelow-of}
use subgraph_mock.Tests.Sample.{counter, counter-IsLawful, schema, names, document, query}
use subgraph_mock.Tests.Builder.{no_rank, document-IsValid, query-IsWellFormed}

abbrev in_order : Groups → List (String × List Field)
in_order m = m

abbrev name_field : Field
name_field = make none "name" (non_null_named "String") "" done

abbrev name_groups : Groups
name_groups =
    ("name", name_field ∷ [])
    ∷ ("nick", make (some "nick") "name" (named "String") "" done ∷ [])
    ∷ []

collected : collect_fields document in_order 1 names ≡ ok name_groups
unfolding collect_fields
collected = refl

collect_fields-IsGrouping_example :
    (fields : List Field) × Flattens document names fields × IsGrouping name_groups fields
collect_fields-IsGrouping_example =
    collect_fields-IsGrouping document in_order (counter-IsLawful.iteration_lem 0) 1 names
      name_groups collected

collect_fields_returns_example :
    (groups : Groups) × (collect_fields document in_order 2 query.selections ≡ ok groups)
collect_fields_returns_example =
    collect_fields_returns document in_order no_rank
      (IsRanked-of schema no_rank document 1 document-IsValid) 2 1 query.selections (omega arith)
      (SpreadsBelow-of schema no_rank query-IsWellFormed)

-- Floats from -1.0 to 1.0.
abbrev unit_floats : ScalarGenerator
unit_floats = ScalarGenerator.float minus_one plus_one

generate-InRange_example : Yields (InRange unit_floats) (generate counter unit_floats)
generate-InRange_example = generate-InRange counter counter-IsLawful unit_floats

abbrev custom : ResponseGenerationConfig
custom = record default_generation {
  scalars = ("ID", ScalarGenerator.string 3 3) ∷ ("Date", ScalarGenerator.bool) ∷ [];
}

merge_default_scalars_lem_example :
    (lookup "ID" (merge_default_scalars custom).scalars
      ≡ or_else (lookup "ID" custom.scalars) (lookup "ID" default_scalar_config))
    × (merge_default_scalars custom
        ≡ record custom { scalars = (merge_default_scalars custom).scalars })
unfolding lookup keys
merge_default_scalars_lem_example = merge_default_scalars_lem custom "ID" (refl, (refl, tt))
