-- ===== src/Federation/Ast.antt =====
-- The document that `patch_ast` of src/state/schema/federation/mod.rs leaves, and the types that
-- the directives of definitions.rs beside it need.
use subgraph_mock.Base.{
  String, Bool, true, false, ◌≡◌, refl, ◌∙◌, List, [], ◌∷◌, ◌++◌, keys, contains, ◌==◌, ◌||◌, arith,
  All, All-weaken, contains-keys-insert,
}
use subgraph_mock.Schema.{InputValueDefinition, DirectiveDefinition, Schema, inner_named_type}
use subgraph_mock.Federation.Definitions.{federation_directives}
use subgraph_mock.Federation.Kinds.{HasNamed, IsLinked}
use subgraph_mock.Federation.Types.{supergraph, subgraph, unfederated, insert_federation_types}
use subgraph_mock.Federation.Lookups.{injected}
use subgraph_mock.Federation.{Definition, any, is_named, is_schema_definition, Patched}

-- A document defines a directive.
abbrev Defines : List Definition → DirectiveDefinition → Type 0
Defines definitions d = any (is_named d.name) definitions ≡ true

-- What a subgraph's document has.
abbrev pub IsSubgraphDocument : List Definition → Type 0
IsSubgraphDocument definitions =
    (any is_schema_definition definitions ≡ true) × All (Defines definitions) federation_directives

-- What `patch_ast` makes of a document.
pub data IsAstPatched (ast : List Definition) (patched : Patched) : Type 0 where
  of_supergraph :
      HasNamed "join__Graph" ast
      → patched.federation_type ≡ supergraph
      → patched.definitions ≡ ast
      → IsAstPatched ast patched
  of_subgraph :
      (added : List Definition)
      → ¬ HasNamed "join__Graph" ast
      → IsLinked ast
      → patched.federation_type ≡ subgraph
      → patched.definitions ≡ ast ++ added
      → IsSubgraphDocument patched.definitions
      → IsAstPatched ast patched
  of_neither :
      ¬ HasNamed "join__Graph" ast
      → ¬ IsLinked ast
      → patched.federation_type ≡ unfederated
      → patched.definitions ≡ ast
      → IsAstPatched ast patched

reorder :
    (a b c d e f g i m : Bool)
    → (a || (b || (c || (d || (e || (f || (g || (i || false)))))))) ≡ true
    → (i || (g || (f || (e || (d || (c || (b || (a || m)))))))) ≡ true
reorder a b c d e f g i m h = ground arith

or_mono : (a b : Bool) {c : Bool} → (b ≡ true → c ≡ true) → (a || b) ≡ true → (a || c) ≡ true
or_mono true b imply h = refl
or_mono false b imply h = imply h

insert_federation_types-keys :
    (schema : Schema) (k : String)
    → contains (injected subgraph) k ≡ true
    → contains (keys (insert_federation_types schema subgraph).types) k ≡ true
unfolding insert_federation_types
insert_federation_types-keys schema k h =
    contains-keys-insert "federation__Policy" k _ _
    ∙ rw
        (
          contains-keys-insert "federation__Scope" k _ _,
          contains-keys-insert "federation__ContextFieldValue" k _ _,
          contains-keys-insert "link__Import" k _ _,
          contains-keys-insert "FieldSet" k _ _,
          contains-keys-insert "link__Purpose" k _ _,
          contains-keys-insert "_Any" k _ _,
          contains-keys-insert "_Service" k _ _,
        )
        (reorder ("_Service" == k) ("_Any" == k) ("link__Purpose" == k) ("FieldSet" == k)
          ("link__Import" == k) ("federation__ContextFieldValue" == k) ("federation__Scope" == k)
          ("federation__Policy" == k) (contains (keys schema.types) k) h)

abbrev builtin_scalars : List String
builtin_scalars = "String" ∷ "Boolean" ∷ "Int" ∷ "Float" ∷ "ID" ∷ []

-- A type that every schema has, or that the schema defines.
abbrev pub IsKnown : Schema → String → Type 0
IsKnown schema n = (contains builtin_scalars n || contains (keys schema.types) n) ≡ true

IsKnown-IsListed :
    (schema : Schema) (n : String)
    → (contains builtin_scalars n || contains (injected subgraph) n) ≡ true
    → IsKnown (insert_federation_types schema subgraph) n
IsKnown-IsListed schema n h =
    or_mono (contains builtin_scalars n) _ (insert_federation_types-keys schema n) h

-- The types of the arguments of a directive are known.
abbrev pub ArgumentsKnown : (String → Type 0) → DirectiveDefinition → Type 0
ArgumentsKnown Known d =
    All (λ (a : InputValueDefinition). Known (inner_named_type a.ty)) d.arguments

abbrev IsListed : String → Type 0
IsListed n = (contains builtin_scalars n || contains (injected subgraph) n) ≡ true

ArgumentsKnown-IsListed : All (ArgumentsKnown IsListed) federation_directives
ArgumentsKnown-IsListed = (
  tt,
  (
    (refl, tt),
    (
      (refl, tt),
      (
        (refl, (refl, tt)),
        (
          (refl, (refl, (refl, (refl, tt)))),
          (
            tt,
            (
              tt,
              (
                (refl, tt),
                (
                  (refl, tt),
                  (
                    (refl, tt),
                    (tt, (tt, ((refl, tt), ((refl, tt), ((refl, tt), ((refl, tt), tt)))))),
                  ),
                ),
              ),
            ),
          ),
        ),
      ),
    ),
  ),
)

-- Each argument of each directive that `patch_ast` adds to a subgraph has a type that is built in
-- or that `insert_federation_types` adds, whatever the schema is.
pub federation_directives-AreKnown :
    (schema : Schema)
    → All (ArgumentsKnown (IsKnown (insert_federation_types schema subgraph))) federation_directives
federation_directives-AreKnown schema =
    All-weaken {P = ArgumentsKnown IsListed}
      {Q = ArgumentsKnown (IsKnown (insert_federation_types schema subgraph))} federation_directives
      ArgumentsKnown-IsListed
      λ d h.
        All-weaken d.arguments h λ a known. IsKnown-IsListed schema (inner_named_type a.ty) known
