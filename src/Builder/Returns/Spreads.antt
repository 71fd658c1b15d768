-- ===== src/Builder/Returns/Spreads.antt =====
-- The ranks of the fragments that the fields of src/handle/graphql.rs's `collect_fields` spread.
use subgraph_mock.Base.{ℕ, ◌≤◌, String, List, [], ◌∷◌, All, All-append, All-weaken, arith}
use subgraph_mock.Document.{Field, Selections, make, append, Document}
use subgraph_mock.Collect.Reference.{Flattens}
use subgraph_mock.Collect.Complete.{SpreadsBelow, IsRanked, nothing, field, spread, inline}
use subgraph_mock.Builder.{merge_selections}

module _ {rank : String → ℕ} where
  SpreadsBelow-mono :
      {q : ℕ} {selections : Selections} (r : ℕ)
      → q ≤ r
      → SpreadsBelow rank q selections
      → SpreadsBelow rank r selections
  SpreadsBelow-mono r le nothing = nothing
  SpreadsBelow-mono r le (field a n t s sub rest) =
      field a n t s (SpreadsBelow-mono r le sub) (SpreadsBelow-mono r le rest)
  SpreadsBelow-mono r le (spread n lt rest) = spread n (omega arith) (SpreadsBelow-mono r le rest)
  SpreadsBelow-mono r le (inline c inner rest) =
      inline c (SpreadsBelow-mono r le inner) (SpreadsBelow-mono r le rest)

  SpreadsBelow-append :
      {r : ℕ} {xs ys : Selections}
      → SpreadsBelow rank r xs
      → SpreadsBelow rank r ys
      → SpreadsBelow rank r (append xs ys)
  SpreadsBelow-append nothing h = h
  SpreadsBelow-append (field a n t s sub rest) h = field a n t s sub (SpreadsBelow-append rest h)
  SpreadsBelow-append (spread n lt rest) h = spread n lt (SpreadsBelow-append rest h)
  SpreadsBelow-append (inline c inner rest) h = inline c inner (SpreadsBelow-append rest h)

abbrev pub FieldBelow : (String → ℕ) → ℕ → Field → Type 0
FieldBelow rank r (make a n t s sub) = SpreadsBelow rank r sub

FieldBelow-mono :
    (rank : String → ℕ) (q r : ℕ) (f : Field) → q ≤ r → FieldBelow rank q f → FieldBelow rank r f
FieldBelow-mono rank q r (make a n t s sub) le h = SpreadsBelow-mono r le h

pub merge_selections-SpreadsBelow :
    {rank : String → ℕ} {r : ℕ} (fields : List Field)
    → All (FieldBelow rank r) fields
    → SpreadsBelow rank r (merge_selections fields)
unfolding merge_selections
merge_selections-SpreadsBelow [] h = nothing
merge_selections-SpreadsBelow (make a n t s sub ∷ fields) h =
    SpreadsBelow-append h.0 (merge_selections-SpreadsBelow fields h.1)

-- Fields inherit the bound of the selections that they come from.
pub Flattens-FieldBelow :
    {doc : Document} {rank : String → ℕ}
    → IsRanked doc rank
    → {r : ℕ} {selections : Selections} {fields : List Field} → Flattens doc selections fields
    → SpreadsBelow rank r selections
    → All (FieldBelow rank r) fields
Flattens-FieldBelow ranked Flattens.nothing h = tt
Flattens-FieldBelow ranked (Flattens.field _ flat) (field a n t s sub rest) =
    (sub, Flattens-FieldBelow ranked flat rest)
Flattens-FieldBelow ranked (Flattens.unknown _ absent flat) (spread n lt rest) =
    Flattens-FieldBelow ranked flat rest
Flattens-FieldBelow {rank} ranked {r}
      (Flattens.spread {inner} {fields} _ definition found flat flat') (spread n lt rest) =
    All-append _ inner fields
      (All-weaken inner (Flattens-FieldBelow ranked flat (ranked.below n found))
        (λ f h. FieldBelow-mono rank (rank n) r f (omega arith) h))
      (Flattens-FieldBelow ranked flat' rest)
Flattens-FieldBelow ranked (Flattens.inline {inner} {fields} _ flat flat') (inline c nested rest) =
    All-append _ inner fields (Flattens-FieldBelow ranked flat nested)
      (Flattens-FieldBelow ranked flat' rest)
