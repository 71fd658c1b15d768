-- ===== src/Lib.antt =====
-- subgraph-mock: a server that answers GraphQL requests to a federated schema with random data.
--
-- A request comes in (src/handle/mod.rs), its operation is parsed and validated, and a response is
-- built from the schema by drawing random values (src/handle/graphql.rs), after a delay that a
-- latency generator gives (src/latency.rs). The schema is completed with what federation implies
-- before it is validated (src/state/schema/federation). The configuration, with overrides for single
-- subgraphs, is a YAML file (src/state/config.rs). This library models these parts and proves
-- what makes them correct.
--
-- Files and the code that they model:
--
-- Base: shared helpers. Base/Outcomes has the ways in which a computation ends: a value, an
-- `anyhow` error, a panic, or too little fuel, which is the model's own. Base/Words has `u64`
-- arithmetic in the debug profile (overflow panics) and the release profile (it wraps).
-- Base/Dicts has maps with string keys.
--
-- Latency: `LatencyConfig`, `Shape`, `saw_ms`, `sine_ms`, `square_ms`, `triangle_ms` and
-- `LatencyGenerator::generate` of src/latency.rs. A `Duration` is its seconds and nanoseconds, an
-- `Instant` its nanoseconds, and `f64` is the record `Floats` of the operations that are used,
-- with the laws `IsIeee` where a theorem needs them.
--
-- Json, Schema, Document: the values, schemas and executable documents that the program reads and
-- writes; of the `apollo_compiler` and `serde_json_bytes` types, the parts that are used.
--
-- Collect: `ResponseBuilder::collect_fields` of src/handle/graphql.rs. Spreading a fragment costs
-- a unit of fuel; a document whose fragments have ranks needs one more than the rank.
--
-- Random: what is used of `rand`, a state and the functions that draw from it, with their
-- documented ranges (`IsLawful`); a float is its bits, in the order of Base/Words. The order in which a `HashMap` is iterated over is drawn too.
--
-- Generation: `ResponseGenerationConfig`, its defaults, `merge_default_scalars` and
-- `ScalarGenerator::generate`.
--
-- Builder: the rest of `ResponseBuilder`. `build_selection_set` is `selection_set`; each level of
-- nesting costs a unit of fuel. Builder/Spec is the contract that it meets.
--
-- Federation: src/state/schema/federation. Federation/Definitions and Federation/Types have the
-- directives and types of definitions.rs; Federation has `patch_ast` and `patch_schema`.
-- Federation/Kinds tells when a document is a subgraph's or a supergraph's.
-- `Directive::argument_by_name` is a parameter. Logged warnings are counted.
--
-- Config: src/state/config.rs. Config has `merge_yaml`; Config/Settings has `BaseConfig`, `Config`,
-- `SubgraphOverrides`, `into_parts` and `parse_yaml`, with `serde_yaml` and `hyper` as the record
-- `Libraries`. The moments at which latency generators start are given by a clock. The file and an
-- override may stand under tags, which `as_mapping` of `serde_yaml` looks through. Config/Contract is
-- the contract of `parse_yaml`.
--
-- Loading: `FederatedSchema::parse_string`, `parse` and `update_schema` of src/state/schema/mod.rs
-- and the watcher of src/state/mod.rs, with `apollo_compiler` as the record `Compiler`. What the
-- watcher does over time is the relation `IsServed` of Loading/Served.
--
-- Response: `generate_response` of src/handle/graphql.rs, with introspection and the look-up of the
-- operation as the record `Executor`. Response/Spec is its contract; its fuel is the builder's.
--
-- Http, Headers: responses and, as the record `HeaderOps` with the documented laws of `HeaderMap`, what
-- is used of `hyper`; and `add_headers` of src/handle/graphql.rs. Headers/Chosen tells which setting
-- holds for a request, as a relation apart from the code that takes it.
--
-- Memo, Handler: the rest of src/handle/graphql.rs. Memo has the stores of the `cached` crate.
-- `handle` runs in a `World`: the source of random values and the two caches, which the record
-- `Engine` gives together with the header maps, the parser, the serializer and the hash.
-- `into_response` is `into_response_bytes_and_status_code`. Handler/Answers is the contract of a
-- reply; Handler/Caches and Handler/Sound show that it is met, Handler/Served and Handler/Returns when
-- there is a reply, Handler/Own whose answer it has, and Handler/Replay what stays in the cache.
--
-- Routing: `handle_request` of src/handle/mod.rs. A reply comes with the delay that is slept before it
-- is sent. Routing/Routes tells the routes by the parts of a path.
--
-- Startup: `Args::init` of src/lib.rs and `State` of src/state/mod.rs, with the files, the clock, the
-- YAML reader and the poll watcher as the record `Host`.
--
-- Server: the state that requests share, and the relation `Follows` of the requests and the watcher's
-- events that change it, one after the other; `Runs` are the servers of a program that was started.
--
-- Tests: runs at small inputs, and each theorem at an input that meets its hypotheses.
--
-- Not modelled: parsing and validation of GraphQL and YAML, the hash and the caches, which libraries
-- do; the loop over connections (src/lib.rs) and src/main.rs, which bind a socket, read the command
-- line and set up logging; requests that run at the same time, and what a panic leaves of one.
pub mod Base
pub mod Builder
pub mod Collect
pub mod Config
pub mod Document
pub mod Federation
pub mod Generation
pub mod Handler
pub mod Headers
pub mod Http
pub mod Json
pub mod Latency
pub mod Loading
pub mod Memo
pub mod Random
pub mod Response
pub mod Routing
pub mod Schema
pub mod Server
pub mod Startup
pub mod Tests
