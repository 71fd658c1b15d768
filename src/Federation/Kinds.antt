-- ===== src/Federation/Kinds.antt =====
-- When a document is that of a supergraph or of a subgraph: what `patch_ast` of
-- src/state/schema/federation/mod.rs looks for.
use text.Mathlib.TextPositions.{eq_refl}
use subgraph_mock.Base.{
  String, true, ◌≡◌, refl, ap, ◌⊎◌, inl, inr, Option, none, some, List, [], ◌∷◌, ◌==◌, ◌||◌, eq_iff,
  Bool, arith,
}
use subgraph_mock.Schema.{Directive}
use subgraph_mock.Federation.{
  Definition, directive_definition, schema_definition, schema_extension, other, definition_name,
  is_some_and, is_named, is_link, any, first_extension_links,
}

-- Some definition has this name.
abbrev pub HasNamed : String → List Definition → Type 0
HasNamed name [] = ⊥
HasNamed name (d ∷ ast) = (definition_name d ≡ some name) ⊎ HasNamed name ast

abbrev pub HasLink : List Directive → Type 0
HasLink [] = ⊥
HasLink (d ∷ ds) = (d.name ≡ "link") ⊎ HasLink ds

-- The first schema extension has a directive `@link`.
abbrev pub IsLinked : List Definition → Type 0
IsLinked [] = ⊥
IsLinked (schema_extension directives roots ∷ ast) = HasLink directives
IsLinked (directive_definition d ∷ ast) = IsLinked ast
IsLinked (schema_definition directives roots ∷ ast) = IsLinked ast
IsLinked (other name text ∷ ast) = IsLinked ast

or-cases : (a b : Bool) → (a || b) ≡ true → (a ≡ true) ⊎ (b ≡ true)
or-cases a b h = ground arith

or_first : (a b : Bool) → a ≡ true → (a || b) ≡ true
or_first a b h = ground arith

or_second : (a b : Bool) → b ≡ true → (a || b) ≡ true
or_second a b h = ground arith

is_some_and-eq :
    (o : Option String) (name : String) → is_some_and o (λ n. n == name) ≡ true → o ≡ some name
is_some_and-eq none name h = cc
is_some_and-eq (some n) name h = ap some ((eq_iff n name).0 h)

is_named-eq :
    (d : Definition) (name : String) → definition_name d ≡ some name → is_named name d ≡ true
is_named-eq d name e = rw (e, eq_refl) refl

pub HasNamed-any :
    (name : String) (ast : List Definition) → any (is_named name) ast ≡ true → HasNamed name ast
HasNamed-any name [] h = cc
HasNamed-any name (d ∷ ast) h = elim (or-cases (is_named name d) (any (is_named name) ast) h) [
  | inl first ↦ inl (is_some_and-eq (definition_name d) name first)
  | inr later ↦ inr (HasNamed-any name ast later)
]

pub any-HasNamed :
    (name : String) (ast : List Definition) → HasNamed name ast → any (is_named name) ast ≡ true
any-HasNamed name [] h = absurd h
any-HasNamed name (d ∷ ast) (inl first) = or_first _ _ (is_named-eq d name first)
any-HasNamed name (d ∷ ast) (inr later) =
    or_second (is_named name d) _ (any-HasNamed name ast later)

HasLink-any : (ds : List Directive) → any is_link ds ≡ true → HasLink ds
HasLink-any [] h = cc
HasLink-any (d ∷ ds) h = elim (or-cases (is_link d) (any is_link ds) h) [
  | inl first ↦ inl ((eq_iff d.name "link").0 first)
  | inr later ↦ inr (HasLink-any ds later)
]

any-HasLink : (ds : List Directive) → HasLink ds → any is_link ds ≡ true
any-HasLink [] h = absurd h
any-HasLink (d ∷ ds) (inl first) = or_first _ _ ((eq_iff d.name "link").1 first)
any-HasLink (d ∷ ds) (inr later) = or_second (is_link d) _ (any-HasLink ds later)

pub IsLinked-first_extension_links :
    (ast : List Definition) → first_extension_links ast ≡ true → IsLinked ast
IsLinked-first_extension_links [] h = cc
IsLinked-first_extension_links (schema_extension ds roots ∷ ast) h = HasLink-any ds h
IsLinked-first_extension_links (directive_definition d ∷ ast) h =
    IsLinked-first_extension_links ast h
IsLinked-first_extension_links (schema_definition ds roots ∷ ast) h =
    IsLinked-first_extension_links ast h
IsLinked-first_extension_links (other name text ∷ ast) h = IsLinked-first_extension_links ast h

pub first_extension_links-IsLinked :
    (ast : List Definition) → IsLinked ast → first_extension_links ast ≡ true
first_extension_links-IsLinked [] h = absurd h
first_extension_links-IsLinked (schema_extension ds roots ∷ ast) h = any-HasLink ds h
first_extension_links-IsLinked (directive_definition d ∷ ast) h =
    first_extension_links-IsLinked ast h
first_extension_links-IsLinked (schema_definition ds roots ∷ ast) h =
    first_extension_links-IsLinked ast h
first_extension_links-IsLinked (other name text ∷ ast) h = first_extension_links-IsLinked ast h
