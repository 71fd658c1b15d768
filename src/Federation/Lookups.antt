-- ===== src/Federation/Lookups.antt =====
-- What the types of a schema are after `insert_federation_types` and the completion of the query
-- root, for src/state/schema/federation/mod.rs.
use mathlib.Core.Option.{some-injective}
use subgraph_mock.Base.{
  lookup-insert_other, ap, is_some, contains-keys-lookup, String, Bool, false, ◌≡◌, refl, ◌∙◌,
  Option, none, some, List, [], ◌∷◌, lookup, keys, contains, ok, ◌>>=◌, ◌==◌, ◌||◌, arith, unwrap,
  ok_or, All, Option-cases, Bool-cases, inl, inr, sym,
}
use subgraph_mock.Schema.{ExtendedType, Schema}
use subgraph_mock.Federation.Types.{
  FederationType, subgraph, supergraph, unfederated, insert_federation_types,
}
use subgraph_mock.Federation.{query_type_name, create_query, create_type}

-- The names of the types that `insert_federation_types` inserts.
abbrev pub injected : FederationType → List String
injected unfederated = "_Service" ∷ []
injected supergraph = "_Service" ∷ "_Any" ∷ []
injected subgraph =
    "_Service" ∷ "_Any" ∷ "link__Purpose" ∷ "FieldSet" ∷ "link__Import"
    ∷ "federation__ContextFieldValue" ∷ "federation__Scope" ∷ "federation__Policy" ∷ []

or_false : (a b : Bool) → (a || b) ≡ false → (a ≡ false) × (b ≡ false)
or_false a b h = ground arith

-- A name that is not in a list differs from every item.
pub All-differ :
    (k : String) (ks : List String) → contains ks k ≡ false → All (λ j. j == k ≡ false) ks
All-differ k [] h = tt
All-differ k (j ∷ js) h = ((or_false (j == k) _ h).0, All-differ k js (or_false (j == k) _ h).1)

pub lookup-insert_federation_types :
    (k : String) (schema : Schema) (federation_type : FederationType)
    → All (λ j. j == k ≡ false) (injected federation_type)
    → lookup k (insert_federation_types schema federation_type).types ≡ lookup k schema.types
unfolding insert_federation_types
lookup-insert_federation_types k schema unfederated (h, _) = lookup-insert_other k _ _ _ h
lookup-insert_federation_types k schema supergraph (h, (any, _)) =
    lookup-insert_other k _ _ _ any ∙ lookup-insert_other k _ _ _ h
lookup-insert_federation_types k schema subgraph (h, (any, (h2, (h3, (h4, (h5, (h6, (h7, _)))))))) =
    lookup-insert_other k _ _ _ h7
    ∙ lookup-insert_other k _ _ _ h6
    ∙ lookup-insert_other k _ _ _ h5
    ∙ lookup-insert_other k _ _ _ h4
    ∙ lookup-insert_other k _ _ _ h3
    ∙ lookup-insert_other k _ _ _ h2
    ∙ lookup-insert_other k _ _ _ any
    ∙ lookup-insert_other k _ _ _ h

pub insert_federation_types-roots :
    (schema : Schema) (federation_type : FederationType)
    → (insert_federation_types schema federation_type).schema_definition ≡ schema.schema_definition
unfolding insert_federation_types
insert_federation_types-roots schema unfederated = refl
insert_federation_types-roots schema supergraph = refl
insert_federation_types-roots schema subgraph = refl

pub create_query-eq-some :
    (schema : Schema)
    → (name : String) × ((create_query schema).schema_definition.query ≡ some name)
create_query-eq-some schema = elim (Option-cases schema.schema_definition.query) [
  | inl absent ↦ ("Query", rw absent refl)
  | inr (name, e) ↦ (name, rw e refl)
]

create_type-roots :
    (name : String) (schema : Schema)
    → (create_type name schema).schema_definition ≡ schema.schema_definition
create_type-roots name schema = ground arith

lookup-create_type_other :
    (k name : String) (schema : Schema)
    → name == k ≡ false
    → lookup k (create_type name schema).types ≡ lookup k schema.types
lookup-create_type_other k name schema h = elim (Bool-cases (contains (keys schema.types) name)) [
  | inl present ↦ rw present refl
  | inr absent ↦ rw absent (lookup-insert_other k name _ _ h)
]

-- A query root that is created is the one that is found.
lookup-create_query_other :
    (k name : String) (schema : Schema)
    → (create_query schema).schema_definition.query ≡ some name
    → name == k ≡ false
    → lookup k (create_query schema).types ≡ lookup k schema.types
lookup-create_query_other k name schema found h =
    elim (Option-cases schema.schema_definition.query) [
      | inl absent ↦ rw absent (
          lookup-insert_other k "Query" _ _
            (rw (sym (some-injective _ _ (rw absent at found))) at h))
      | inr (_, e) ↦ rw e refl
    ]

-- What a root that is found, by `unwrap` or by `ok_or`, comes from.
unwrap_pair :
    (o : Option String) (f : String → Schema) {name : String} {completed : Schema}
    → ◌>>=◌ {B = String × Schema} (unwrap o) (λ n. ok (n, f n)) ≡ ok (name, completed)
    → (o ≡ some name) × (f name ≡ completed)
unwrap_pair none f h = cc
unwrap_pair (some n) f h = (cc, cc)

ok_or_pair :
    (o : Option String) (e : String) (schema : Schema) {name : String} {completed : Schema}
    → ◌>>=◌ {B = String × Schema} (ok_or o e) (λ n. ok (n, schema)) ≡ ok (name, completed)
    → (o ≡ some name) × (schema ≡ completed)
ok_or_pair none e schema h = cc
ok_or_pair (some n) e schema h = (cc, cc)

-- The root that `query_type_name` finds is the completed schema's, every other type is as it was,
-- and the directives are.
pub record IsCompletion (schema completed : Schema) (name : String) : Type 0 where
  pub root : completed.schema_definition.query ≡ some name
  pub kept :
      {ty : ExtendedType}
      → schema.schema_definition.query ≡ some name
      → lookup name schema.types ≡ some ty
      → lookup name completed.types ≡ some ty
  pub others : (k : String) → name == k ≡ false → lookup k completed.types ≡ lookup k schema.types

create_type_present :
    (name : String) (schema : Schema) {ty : ExtendedType}
    → lookup name schema.types ≡ some ty
    → create_type name schema ≡ schema
create_type_present name schema {ty} h =
    rw (contains-keys-lookup name schema.types ∙ ap is_some h) refl

create_query_present :
    (schema : Schema) {name : String}
    → schema.schema_definition.query ≡ some name
    → create_query schema ≡ schema
create_query_present schema h = rw h refl

pub query_type_name-IsCompletion :
    (schema : Schema) (federation_type : FederationType) {name : String} {completed : Schema}
    → query_type_name schema federation_type ≡ ok (name, completed)
    → IsCompletion schema completed name
unfolding query_type_name
query_type_name-IsCompletion schema subgraph {name} h =
    let (found, made) = unwrap_pair _ (λ n. create_type n (create_query schema)) h in
    rw (sym made) (record {
      root = rw (create_type-roots name (create_query schema)) found;
      kept = λ {ty} declared present.
          ap (λ s. lookup name (create_type name s).types) (create_query_present schema declared)
          ∙ ap (λ s. lookup name s.types) (create_type_present name schema {ty = ty} present)
          ∙ present;
      others = λ k differ.
          lookup-create_type_other k name (create_query schema) differ
          ∙ lookup-create_query_other k name schema found differ;
    })
query_type_name-IsCompletion schema supergraph h =
    let (found, made) = ok_or_pair _ _ schema h in
    rw (sym made) (record { root = found; kept = λ _ present. present; others = λ k differ. refl })
query_type_name-IsCompletion schema unfederated h =
    let (found, made) = ok_or_pair _ _ schema h in
    rw (sym made) (record { root = found; kept = λ _ present. present; others = λ k differ. refl })
