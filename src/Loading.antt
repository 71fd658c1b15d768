-- ===== src/Loading.antt =====
-- Loading and reloading the schema: `FederatedSchema::parse_string` and `update_schema` of
-- src/state/schema/mod.rs, and the watcher of src/state/mod.rs. Log messages are left out.
pub mod Served
use subgraph_mock.Base.{String, Option, List, [], ◌∷◌, Outcome, ok, err, panic, out_of_fuel, ◌>>=◌}
use subgraph_mock.Schema.{ConstValue, Directive, Schema, FederatedSchema}
use subgraph_mock.Federation.{Definition, patch_ast, patch_schema}

-- What `apollo_compiler` does: `Document::parse`, `to_schema`, `validate` and `argument_by_name`.
pub record Compiler : Type 0 where
  pub parse : String → Outcome (List Definition)
  pub to_schema : List Definition → Outcome Schema
  pub validate : Schema → Outcome Schema
  pub argument_by_name : Directive → String → Schema → Option ConstValue

-- The content of each file at some moment.
abbrev pub Files : Type 0
Files = String → Outcome String

-- What the watcher is told: a change of some files, another event, or an error.
pub data WatchEvent : Type 0 where
  modify : List String → WatchEvent
  other_event : WatchEvent
  watch_error : WatchEvent

module _ (compiler : Compiler) where
  unfoldable pub parse_string : String → Outcome FederatedSchema
  parse_string source = compiler.parse source >>= λ ast.
      compiler.to_schema (patch_ast ast).definitions >>= λ schema.
      patch_schema compiler.argument_by_name schema (patch_ast ast).federation_type >>= λ patched.
      compiler.validate patched >>= λ valid. ok (record { valid = valid; source = source })

  unfoldable pub parse : Files → String → Outcome FederatedSchema
  parse files path = files path >>= parse_string

  -- The schema behind the lock after a reload: an error is logged, and the schema stays.
  abbrev pub kept_on_error : FederatedSchema → Outcome FederatedSchema → Outcome FederatedSchema
  kept_on_error served (ok schema) = ok schema
  kept_on_error served (err e) = ok served
  kept_on_error served panic = panic
  kept_on_error served out_of_fuel = out_of_fuel

  -- `update_schema`, with what the watcher does with its error.
  unfoldable pub update_schema : Files → String → FederatedSchema → Outcome FederatedSchema
  update_schema files path served = kept_on_error served (parse files path)

  -- The watcher: only the first path of a change is read.
  unfoldable pub on_event : Files → WatchEvent → FederatedSchema → Outcome FederatedSchema
  on_event files (modify []) served = ok served
  on_event files (modify (path ∷ paths)) served = update_schema files path served
  on_event files other_event served = ok served
  on_event files watch_error served = ok served
