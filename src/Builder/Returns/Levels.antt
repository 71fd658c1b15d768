-- ===== src/Builder/Returns/Levels.antt =====
-- Selections that `selection_set` of src/handle/graphql.rs can answer with `depth` more levels of
-- nesting, with all fragments followed.
use subgraph_mock.Base.{
  ℕ, zero, suc, ◌≤◌, ◌<◌, ◌≡◌, String, Option, none, some, List, [], ◌∷◌, All, All-append, arith,
  lookup, length, Bool-cases, inl, inr, ◌==◌,
}
use subgraph_mock.Schema.{Ty, FederatedSchema, ExtendedType, UnionType, inner_named_type}
use subgraph_mock.Document.{
  Field, Selections, make, of_field, fragment_spread, inline_fragment, done, select, append,
  SelectionSet, Document, response_key,
}
use subgraph_mock.Collect.Reference.{Flattens, nothing, field, unknown, spread, inline, with_key}
use subgraph_mock.Builder.{merge_selections, values, union_type}

-- A type of which a leaf can be generated: a scalar, or an enum that declares a value.
abbrev pub IsLeafType : Option ExtendedType → Type 0
IsLeafType (some (ExtendedType.scalar s)) = Unit
IsLeafType (some (ExtendedType.enum e)) = 0 < length (values e.values)
IsLeafType _ = ⊥

-- A union has a member.
abbrev pub IsInhabited : Option UnionType → Type 0
IsInhabited none = Unit
IsInhabited (some u) = 0 < length u.members

module _ (schema : FederatedSchema) where
  -- A field without selections is of a leaf type; one with selections is not of an empty union.
  abbrev pub FieldTyped : Ty → String → Selections → Type 0
  FieldTyped t set_ty done = IsLeafType (lookup (inner_named_type t) schema.valid.types)
  FieldTyped t set_ty (select s rest) = IsInhabited (union_type schema set_ty)

  module _ (doc : Document) where
    pub data Ready : ℕ → Selections → Type 0 where
      ready_end : {d : ℕ} → Ready d done
      ready_field :
          {d : ℕ} {sub rest : Selections} (alias : Option String) (name : String) (t : Ty)
          (set_ty : String)
          → FieldTyped t set_ty sub
          → Ready d sub
          → Ready (suc d) rest
          → Ready (suc d) (select (of_field (make alias name t set_ty sub)) rest)
      ready_spread :
          {d : ℕ} {rest : Selections} (n : String)
          → ((definition : SelectionSet)
              → lookup n doc.fragments ≡ some definition
              → Ready d definition.selections)
          → Ready d rest
          → Ready d (select (fragment_spread n) rest)
      ready_inline :
          {d : ℕ} {inner rest : Selections} (condition : Option String)
          → Ready d inner
          → Ready d rest
          → Ready d (select (inline_fragment condition inner) rest)

    -- What is left for a field of a level that has `d` levels, itself included.
    abbrev pub FieldReady : ℕ → Field → Type 0
    FieldReady zero f = ⊥
    FieldReady (suc d) (make alias name t set_ty sub) = FieldTyped t set_ty sub × Ready d sub

    -- The fields of selections that are ready are ready.
    pub Flattens-FieldReady :
        {d : ℕ} {selections : Selections} {fields : List Field}
        → Flattens doc selections fields
        → Ready d selections
        → All (FieldReady d) fields
    Flattens-FieldReady nothing r = tt
    Flattens-FieldReady (field _ flat) (ready_field a n t s typed sub rest) =
        ((typed, sub), Flattens-FieldReady flat rest)
    Flattens-FieldReady (unknown _ absent flat) (ready_spread n body rest) =
        Flattens-FieldReady flat rest
    Flattens-FieldReady (spread {inner} {fields} _ definition found flat flat')
          (ready_spread n body rest) =
        All-append _ inner fields (Flattens-FieldReady flat (body definition found))
          (Flattens-FieldReady flat' rest)
    Flattens-FieldReady (inline {inner} {fields} _ flat flat') (ready_inline c nested rest) =
        All-append _ inner fields (Flattens-FieldReady flat nested) (Flattens-FieldReady flat' rest)

    Ready-append : {d : ℕ} {xs ys : Selections} → Ready d xs → Ready d ys → Ready d (append xs ys)
    Ready-append ready_end h = h
    Ready-append (ready_field a n t s typed sub rest) h =
        ready_field a n t s typed sub (Ready-append rest h)
    Ready-append (ready_spread n body rest) h = ready_spread n body (Ready-append rest h)
    Ready-append (ready_inline c nested rest) h = ready_inline c nested (Ready-append rest h)

    -- So are the merged selections of a group.
    pub merge_selections-Ready :
        (d : ℕ) (fields : List Field)
        → All (FieldReady (suc d)) fields
        → Ready d (merge_selections fields)
    unfolding merge_selections
    merge_selections-Ready d [] h = ready_end
    merge_selections-Ready d (make a n t s sub ∷ fields) h =
        Ready-append h.0.1 (merge_selections-Ready d fields h.1)

    -- More levels do no harm.
    pub Ready-mono :
        {d : ℕ} {selections : Selections} (e : ℕ) → d ≤ e → Ready d selections → Ready e selections
    Ready-mono e le ready_end = ready_end
    Ready-mono zero le (ready_field a n t s typed sub rest) = absurd (omega arith)
    Ready-mono (suc e) le (ready_field a n t s typed sub rest) =
        ready_field a n t s typed (Ready-mono e (omega arith) sub) (Ready-mono (suc e) le rest)
    Ready-mono e le (ready_spread n body rest) =
        ready_spread n (λ def found. Ready-mono e le (body def found)) (Ready-mono e le rest)
    Ready-mono e le (ready_inline c nested rest) =
        ready_inline c (Ready-mono e le nested) (Ready-mono e le rest)

pub All-with_key :
    (P : Field → Type 0) (k : String) (fields : List Field)
    → All P fields
    → All P (with_key k fields)
All-with_key P k [] h = tt
All-with_key P k (f ∷ fields) h = elim (Bool-cases (response_key f == k)) [
  | inl same ↦ rw same (h.0, All-with_key P k fields h.1)
  | inr differ ↦ rw differ (All-with_key P k fields h.1)
]
