-- ===== src/Federation/Endings.antt =====
-- How `patch_schema` of src/state/schema/federation/mod.rs ends: with a schema, an error or a panic.
use subgraph_mock.Base.{
  String, Bool, true, false, ◌≡◌, refl, ap, ◌∙◌, Option, none, some, List, [], ◌∷◌, Dict, lookup,
  contains, All, Outcome, ok, err, panic, out_of_fuel, ◌>>=◌, ◌==◌, ◌||◌, ◌&&◌, if◌then◌else◌,
  Bool-cases, inl, inr, unwrap_or, lookup-insert_same, contains-keys-lookup,
}
use subgraph_mock.Schema.{ConstValue, Directive, ExtendedType, Schema}
use subgraph_mock.Federation.Types.{
  FederationType, subgraph, supergraph, unfederated, insert_federation_types, object_type,
}
use subgraph_mock.Federation.Lookups.{
  All-differ, injected, lookup-insert_federation_types, insert_federation_types-roots,
}
use subgraph_mock.Federation.Root.{lookup-insert_entity_other, insert_entity-roots}
use subgraph_mock.Federation.{
  is_object, directives_of, insert_entity, query_type_name, as_query_root, create_type, finish,
  patch_root, is_federated_directive, any_federated, is_federated_type, federated_members,
  patch_schema, is_not_query,
}

pub data Ending : Type 0 where
  returns : Ending
  fails : String → Ending
  panics : Ending
  stops : Ending

abbrev pub ending {ℓ} : {A : Type ℓ} → Outcome A → Ending
ending (ok a) = returns
ending (err e) = fails e
ending panic = panics
ending out_of_fuel = stops

-- By the type under the name of the query root: an object is completed.
abbrev pub with_root : ExtendedType → Ending
with_root (ExtendedType.object obj) = returns
with_root _ = fails "query root is not an object"

-- A query root that is declared, by the type that the schema has under its name: a subgraph's is
-- created if it is missing.
abbrev pub with_declared : FederationType → Option ExtendedType → Ending
with_declared federation_type (some ty) = with_root ty
with_declared subgraph none = returns
with_declared _ none = panics

-- By the name of the query root, if there is one, and the types of the schema.
abbrev pub ends : FederationType → Option String → Dict ExtendedType → Ending
ends federation_type (some name) types = with_declared federation_type (lookup name types)
ends subgraph none types = returns
ends _ none types = fails "Schema does not define a query type"

ending-as_query_root :
    (members : List String) (federation_type : FederationType) (root : String × Schema)
    (ty : ExtendedType)
    → ending (as_query_root ty >>= λ obj. ok (finish members federation_type root obj))
      ≡ with_root ty
ending-as_query_root members federation_type root (ExtendedType.scalar t) = refl
ending-as_query_root members federation_type root (ExtendedType.object t) = refl
ending-as_query_root members federation_type root (ExtendedType.interface t) = refl
ending-as_query_root members federation_type root (ExtendedType.union t) = refl
ending-as_query_root members federation_type root (ExtendedType.enum t) = refl
ending-as_query_root members federation_type root (ExtendedType.input_object t) = refl

ending-patch_root :
    (members : List String) (federation_type : FederationType) (name : String) (schema : Schema)
    (o : Option ExtendedType)
    → lookup name schema.types ≡ o
    → ending (patch_root members federation_type (name, schema))
      ≡ (elim o [ none ↦ panics | some ty ↦ with_root ty ])
unfolding patch_root
ending-patch_root members federation_type name schema none e = rw e refl
ending-patch_root members federation_type name schema (some ty) e =
    rw e (ending-as_query_root members federation_type (name, schema) ty)

-- The type of a root that a subgraph is given if it has none.
abbrev created : String → Option ExtendedType → ExtendedType
created name o = unwrap_or o (object_type name [])

lookup-create_type :
    (name : String) (schema : Schema) (o : Option ExtendedType)
    → lookup name schema.types ≡ o
    → lookup name (create_type name schema).types ≡ some (created name o)
lookup-create_type name schema none e =
    rw (contains-keys-lookup name schema.types, e) (lookup-insert_same name _ schema.types)
lookup-create_type name schema (some ty) e = rw (contains-keys-lookup name schema.types, e) e

ending-created :
    (members : List String) (name : String) (schema : Schema) (o : Option ExtendedType)
    → lookup name schema.types ≡ o
    → ending (patch_root members subgraph (name, create_type name schema))
      ≡ with_declared subgraph o
ending-created members name schema none e =
    ending-patch_root members subgraph name (create_type name schema) _
      (lookup-create_type name schema none e)
ending-created members name schema (some ty) e =
    ending-patch_root members subgraph name (create_type name schema) _
      (lookup-create_type name schema (some ty) e)

ending-declared :
    (members : List String) (federation_type : FederationType) (name : String) (schema : Schema)
    → ((o : Option ExtendedType)
        → (elim o [ none ↦ panics | some ty ↦ with_root ty ]) ≡ with_declared federation_type o)
    → ending (patch_root members federation_type (name, schema))
      ≡ with_declared federation_type (lookup name schema.types)
ending-declared members federation_type name schema same =
    ending-patch_root members federation_type name schema (lookup name schema.types) refl
    ∙ same (lookup name schema.types)

-- After the types of federation are there.
completed_ends :
    (members : List String) (federation_type : FederationType) (schema : Schema)
    (query : Option String)
    → schema.schema_definition.query ≡ query
    → ending (query_type_name schema federation_type >>= patch_root members federation_type)
      ≡ ends federation_type query schema.types
unfolding query_type_name
completed_ends members subgraph schema none e =
    rw e (ending-created members "Query" _ _ (lookup-insert_same "Query" _ schema.types))
completed_ends members subgraph schema (some name) e = rw e (ending-created members name _ _ refl)
completed_ends members supergraph schema none e = rw e refl
completed_ends members supergraph schema (some name) e =
    rw e (ending-declared members supergraph name _ (λ o. elim o [ none ↦ refl | some ty ↦ refl ]))
completed_ends members unfederated schema none e = rw e refl
completed_ends members unfederated schema (some name) e =
    rw e (ending-declared members unfederated name _ (λ o. elim o [ none ↦ refl | some ty ↦ refl ]))

module _ (argument_by_name : Directive → String → Schema → Option ConstValue)
    (schema : Schema) where
  -- A directive that makes a type federated says by a Boolean whether it is resolvable.
  abbrev pub IsResolvable : Directive → Type 0
  IsResolvable d =
      (d.name == "key" || d.name == "join__type") ≡ true
      → (b : Bool) × (argument_by_name d "resolvable" schema ≡ some (ConstValue.boolean b))

  abbrev pub HasResolvable : Dict ExtendedType → Type 0
  HasResolvable types =
      All (λ (e : String × ExtendedType). All IsResolvable (directives_of e.1)) types

  is_federated_directive_returns :
      (d : Directive)
      → IsResolvable d
      → (b : Bool) × (is_federated_directive argument_by_name schema d ≡ ok b)
  unfolding is_federated_directive
  is_federated_directive_returns d h =
      elim (Bool-cases (d.name == "key" || d.name == "join__type")) [
        | inl key ↦ let (b, e) = h key in (b, rw (key, e) refl)
        | inr other ↦ (false, rw other refl)
      ]

  any_federated_returns :
      (ty : ExtendedType) (ds : List Directive)
      → All IsResolvable ds
      → (b : Bool) × (any_federated argument_by_name schema ty ds ≡ ok b)
  unfolding any_federated
  any_federated_returns ty [] h = (false, refl)
  any_federated_returns ty (d ∷ ds) h =
      let (b, e) = is_federated_directive_returns d h.0 in
      let (c, rest) = any_federated_returns ty ds h.1 in
      elim (Bool-cases (b && is_not_query schema ty)) [
        | inl entity ↦ (true, rw (e, entity) refl)
        | inr further ↦ (c, rw (e, further, rest) refl)
      ]

  federated_members_returns :
      (types : Dict ExtendedType)
      → HasResolvable types
      → (members : List String) × (federated_members argument_by_name schema types ≡ ok members)
  unfolding federated_members is_federated_type
  federated_members_returns [] h = ([], refl)
  federated_members_returns ((name, ty) ∷ types) h =
      let (members, rest) = federated_members_returns types h.1 in
      let (b, e) = any_federated_returns ty (directives_of ty) h.0 in
      elim (Bool-cases (is_object ty)) [
        | inl object ↦ (if b then name ∷ members else members, rw (object, e, rest) refl)
        | inr other ↦ (members, rw (other, rest) refl)
      ]

  ends-root :
      (federation_type : FederationType) (query : Option String) (members : List String)
      → ((name : String)
          → query ≡ some name
          → (contains (injected federation_type) name ≡ false) × ("_Entity" == name ≡ false))
      → ends federation_type query
          (insert_federation_types (insert_entity members schema) federation_type).types
        ≡ ends federation_type query schema.types
  ends-root subgraph none members fresh = refl
  ends-root supergraph none members fresh = refl
  ends-root unfederated none members fresh = refl
  ends-root federation_type (some name) members fresh = ap (with_declared federation_type) (
      lookup-insert_federation_types name _ federation_type
        (All-differ name (injected federation_type) (fresh name refl).0)
      ∙ lookup-insert_entity_other name members schema (fresh name refl).1)

  -- For a schema whose federated directives say whether they are resolvable, and whose query root
  -- does not have the name of a type of federation, `patch_schema` returns if the query root is an
  -- object type, and fails if it is another type. If the root has no type or no name, it returns
  -- for a subgraph; else it fails without a name, and panics where the name has no type.
  pub patch_schema-ends :
      (federation_type : FederationType)
      → HasResolvable schema.types
      → ((name : String)
          → schema.schema_definition.query ≡ some name
          → (contains (injected federation_type) name ≡ false) × ("_Entity" == name ≡ false))
      → ending (patch_schema argument_by_name schema federation_type)
        ≡ ends federation_type schema.schema_definition.query schema.types
  unfolding patch_schema
  patch_schema-ends federation_type resolvable fresh =
      let (members, found) = federated_members_returns schema.types resolvable in
      let roots =
        insert_federation_types-roots (insert_entity members schema) federation_type
        ∙ insert_entity-roots members schema in
      rw found (
        completed_ends members federation_type
          (insert_federation_types (insert_entity members schema) federation_type)
          schema.schema_definition.query (ap (λ d. d.query) roots)
        ∙ ends-root federation_type schema.schema_definition.query members fresh)
