-- ===== src/Builder/Returns.antt =====
-- `ResponseBuilder` of src/handle/graphql.rs answers every validated selection set: it neither
-- recurs for ever, nor fails, nor panics, if the configuration is usable.
pub mod Levels
pub mod Static
pub mod Spreads
pub mod Leaves
use subgraph_mock.Base.{
  ℕ, zero, suc, ◌+◌, ◌*◌, ◌≤◌, ◌<◌, ◌≡◌, refl, sym, ◌∙◌, not, Bool, true, false, String, Option,
  none, some, List, [], ◌∷◌, Dict, lookup, insert, All, All-weaken, All-entries, ◌==◌, arith, ok,
  NodupKeys,
}
use subgraph_mock.Json
use subgraph_mock.Json.{Json, object_of}
use subgraph_mock.Schema.{FederatedSchema, Ty, is_non_null, is_list, inner_named_type}
use subgraph_mock.Document.{
  Field, Selections, make, done, select, SelectionSet, Document, name, ty, selection_set,
}
use subgraph_mock.Collect.{Groups, collect_fields}
use subgraph_mock.Collect.Reference.{with_key, present}
use subgraph_mock.Collect.Grouping.{IsGrouping, IsGrouping-iter}
use subgraph_mock.Collect.Sound.{collect_fields-IsGrouping}
use subgraph_mock.Collect.Complete.{SpreadsBelow, IsRanked, collect_fields_returns}
use subgraph_mock.Random.{Random, IsLawful, Gen, pure, lift, ◌>>=◌, repeat}
use subgraph_mock.Random.Yields.{Yields, Yields-any, Yields-lift}
use subgraph_mock.Random.Runs.{Runs, Runs-pure, Runs-lift, Runs-if, Runs-bind, Runs-repeat}
use subgraph_mock.Generation.{ResponseGenerationConfig}
use subgraph_mock.Builder.{
  is_empty, merge_selections, full_selection_set, union_type, array_selection_set, present_value,
  nullable_value, field_value, fill, build_selection_set,
}
use subgraph_mock.Builder.Returns.Levels.{
  IsInhabited, FieldTyped, Ready, FieldReady, Flattens-FieldReady, merge_selections-Ready,
  All-with_key,
}
use subgraph_mock.Builder.Returns.Static.{
  IsWellFormed, IsValid, SpreadsBelow-of, IsRanked-of, Ready-IsWellFormed,
}
use subgraph_mock.Builder.Returns.Spreads.{
  FieldBelow, merge_selections-SpreadsBelow, Flattens-FieldBelow,
}
use subgraph_mock.Builder.Returns.Leaves.{
  IsUsable, Runs-should_be_null, Runs-arbitrary_array_len, Runs-leaf_field, Runs-array_leaf_field,
  Runs-typename,
}

not-true : (b : Bool) → not b ≡ true → b ≡ false
not-true b h = ground arith

not-false : (b : Bool) → not b ≡ false → b ≡ true
not-false b h = ground arith

module _ (R : Random) (law : IsLawful R) (cfg : ResponseGenerationConfig) (usable : IsUsable R cfg)
    (schema : FederatedSchema) (doc : Document) (rank : String → ℕ) (ranked : IsRanked doc rank)
    (r : ℕ) where
  -- A selection set that can be answered with `d` levels.
  record CanBuild (d : ℕ) (set : SelectionSet) : Type 0 where
    inhabited : IsInhabited (union_type schema set.ty)
    below : SpreadsBelow rank r set.selections
    ready : Ready schema doc d set.selections

  abbrev FieldOk : ℕ → Field → Type 0
  FieldOk d f = FieldReady schema doc (suc d) f × FieldBelow rank r f

  full_selection_set-CanBuild :
      (d : ℕ) (f : Field) (more : List Field)
      → All (FieldOk d) (f ∷ more)
      → is_empty (selection_set f).selections ≡ false
      → CanBuild d (full_selection_set f (f ∷ more))
  full_selection_set-CanBuild d (make a n t s done) more h e = cc
  full_selection_set-CanBuild d (make a n t s (select x rest)) more h e = record {
    inhabited = h.0.0.0;
    below =
        merge_selections-SpreadsBelow (make a n t s (select x rest) ∷ more)
          (All-weaken (make a n t s (select x rest) ∷ more) h (λ f p. p.1));
    ready =
        merge_selections-Ready schema doc d (make a n t s (select x rest) ∷ more)
          (All-weaken (make a n t s (select x rest) ∷ more) h (λ f p. p.0));
  }

  leaf_typed :
      (d : ℕ) (f : Field)
      → FieldOk d f
      → is_empty (selection_set f).selections ≡ true
      → FieldTyped schema (ty f) (selection_set f).ty done
  leaf_typed d (make a n t s done) h e = h.0.0
  leaf_typed d (make a n t s (select x rest)) h e = cc

  module _ (d : ℕ) (build : SelectionSet → Gen R.State (Dict Json))
      (rec : (set : SelectionSet) → CanBuild d set → Runs (build set)) where
    Runs-array_selection_set :
        (set : SelectionSet) → CanBuild d set → Runs (array_selection_set R cfg schema build set)
    unfolding array_selection_set
    Runs-array_selection_set set h =
        Runs-bind _ _ (Runs-arbitrary_array_len R law cfg usable schema) (Yields-any _) λ n _.
          Runs-repeat _ (Runs-bind _ _ (rec set h) (Yields-any _) (λ m _. Runs-pure (object_of m)))
            n

    module _ (f : Field) (more : List Field) (h : All (FieldOk d) (f ∷ more)) where
      Runs-present_value : Runs (present_value R cfg schema build f (f ∷ more))
      unfolding present_value
      Runs-present_value =
          Runs-if (not (is_empty (selection_set f).selections)) _ _
            (λ set.
              let can = full_selection_set-CanBuild d f more h (not-true _ set) in
              Runs-if (is_list (ty f)) _ _
                (λ _.
                  Runs-bind _ _ (Runs-array_selection_set _ can) (Yields-any _) λ vs _. Runs-pure _)
                (λ _. Runs-bind _ _ (rec _ can) (Yields-any _) λ m _. Runs-pure _))
            (λ leaf.
              let typed = leaf_typed d f h.0 (not-false _ leaf) in
              Runs-if (is_list (ty f)) _ _
                (λ _. Runs-array_leaf_field R law cfg usable schema _ typed)
                (λ _. Runs-leaf_field R law cfg usable schema _ typed))

      Runs-nullable_value : Runs (nullable_value R cfg schema build f (f ∷ more))
      unfolding nullable_value
      Runs-nullable_value =
          Runs-if (is_non_null (ty f)) _ _ (λ _. Runs-present_value)
            λ _.
              Runs-bind _ _ (Runs-should_be_null R law cfg usable schema) (Yields-any _)
                λ b _. Runs-if b _ _ (λ _. Runs-pure _) (λ _. Runs-present_value)

      Runs-field_value :
          (type_name : String)
          → IsInhabited (union_type schema type_name)
          → Runs (field_value R cfg schema build type_name (f ∷ more))
      unfolding field_value
      Runs-field_value type_name inhabited =
          Runs-if (name f == "__typename") _ _
            (λ _. Runs-typename R law cfg usable schema type_name inhabited)
            (λ _. Runs-if (name f == "_service") _ _ (λ _. Runs-pure _) (λ _. Runs-nullable_value))

  All-zip :
      (d : ℕ) (xs : List Field)
      → All (FieldReady schema doc (suc d)) xs
      → All (FieldBelow rank r) xs
      → All (FieldOk d) xs
  All-zip d [] p q = tt
  All-zip d (x ∷ xs) p q = ((p.0, q.0), All-zip d xs p.1 q.1)

  -- A group holds the fields of its key, and is not empty.
  Runs-group :
      (d : ℕ) (build : SelectionSet → Gen R.State (Dict Json))
      → ((d' : ℕ) → d ≡ suc d' → (set : SelectionSet) → CanBuild d' set → Runs (build set))
      → (type_name : String) → IsInhabited (union_type schema type_name)
      → (xs fs : List Field) → present xs ≡ some fs
      → All (FieldReady schema doc d) xs
      → All (FieldBelow rank r) xs
      → Runs (field_value R cfg schema build type_name fs)
  Runs-group d build rec type_name inhabited [] fs e ready below = cc
  Runs-group zero build rec type_name inhabited (f ∷ more) fs e ready below = absurd ready.0
  Runs-group (suc d) build rec type_name inhabited (f ∷ more) fs e ready below =
      let same : fs ≡ f ∷ more = cc in
      rw same (
        Runs-field_value d build (rec d refl) f more (All-zip d (f ∷ more) ready below) type_name
          inhabited)

  module _ (d : ℕ) (build : SelectionSet → Gen R.State (Dict Json))
      (rec : (d' : ℕ) → d ≡ suc d' → (set : SelectionSet) → CanBuild d' set → Runs (build set))
      (type_name : String) (inhabited : IsInhabited (union_type schema type_name)) where
    Runs-fill :
        (groups : List (String × List Field)) (result : Dict Json)
        → All (λ e. Runs (field_value R cfg schema build type_name e.1)) groups
        → Runs (fill R cfg schema build type_name groups result)
    unfolding fill
    Runs-fill [] result h = Runs-pure result
    Runs-fill ((k, fs) ∷ groups) result h =
        Runs-bind _ _ h.0 (Yields-any _) λ v _. Runs-fill groups (insert k v result) h.1

    Runs-level :
        (groups : Groups) (fields : List Field)
        → IsGrouping groups fields
        → All (FieldReady schema doc d) fields
        → All (FieldBelow rank r) fields
        → Runs (fill R cfg schema build type_name groups [])
    Runs-level groups fields g ready below = Runs-fill groups [] (
        All-entries (λ k fs. Runs (field_value R cfg schema build type_name fs)) groups g.distinct
          λ k fs e.
            Runs-group d build rec type_name inhabited (with_key k fields) fs (sym (g.entry k) ∙ e)
              (All-with_key _ k fields ready) (All-with_key _ k fields below))

  Runs-build :
      (spreads : ℕ)
      → r < spreads
      → (depth d : ℕ) (set : SelectionSet) → d < depth
      → CanBuild d set
      → Runs (build_selection_set R cfg schema doc spreads depth set)
  unfolding build_selection_set ◌>>=◌
  Runs-build spreads enough zero d set lt can = absurd (omega arith)
  Runs-build spreads enough (suc depth) d set lt can = record {
    at = λ s.
        let law_s = law.iteration_lem s in
        let (groups, e) =
          collect_fields_returns doc (R.iteration s) rank ranked spreads r set.selections enough
            can.below in
        let (fields, flat, g) =
          collect_fields-IsGrouping doc (R.iteration s) law_s spreads set.selections groups e in
        rw e (
          (Runs-level d (build_selection_set R cfg schema doc spreads depth)
              (λ d' eq set' can'. Runs-build spreads enough depth d' set' (omega arith) can') set.ty
              can.inhabited (R.iteration s groups) fields (IsGrouping-iter (R.iteration s) law_s g)
              (Flattens-FieldReady schema doc flat can.ready)
              (Flattens-FieldBelow ranked flat can.below)).at
            s);
  }

-- For a usable configuration, a document without cycles of fragments whose fragments are at most
-- `limit` levels deep, and a selection set that is at most `height` levels deep and spreads fragments
-- of a rank below `r`, every run of the builder returns an object, whatever is drawn: with fuel above
-- `r` for spreads and above `height + r * limit` for nesting it neither fails, nor panics, nor stops
-- early.
pub build_selection_set_returns :
    (R : Random) (law : IsLawful R) (cfg : ResponseGenerationConfig)
    → IsUsable R cfg
    → (schema : FederatedSchema) (doc : Document) (rank : String → ℕ) (limit : ℕ)
    → IsValid schema rank doc limit
    → (r height spreads depth : ℕ) (set : SelectionSet)
    → IsWellFormed schema rank r height set.selections
    → IsInhabited (union_type schema set.ty)
    → r < spreads
    → height + r * limit < depth
    → (s : R.State)
    → (d : Dict Json) × (s' : R.State) × (build_selection_set R cfg schema doc spreads depth set s
        ≡ ok (d, s'))
build_selection_set_returns R law cfg usable schema doc rank limit valid r height spreads depth set
      formed inhabited enough deep s =
    (Runs-build R law cfg usable schema doc rank (IsRanked-of schema rank doc limit valid) r spreads
        enough depth (height + r * limit) set deep
        (record {
          inhabited = inhabited;
          below = SpreadsBelow-of schema rank formed;
          ready = Ready-IsWellFormed schema rank doc limit valid r formed;
        })).at
      s
