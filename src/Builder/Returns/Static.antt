-- ===== src/Builder/Returns/Static.antt =====
-- Documents that validation accepts, and how much nesting they come to once fragments are followed.
use subgraph_mock.Base.{ℕ, zero, suc, ◌+◌, ◌*◌, ◌≤◌, ◌<◌, ◌≡◌, String, Option, some, arith, lookup}
use subgraph_mock.Schema.{Ty, FederatedSchema}
use subgraph_mock.Document.{
  Selections, make, of_field, fragment_spread, inline_fragment, done, select, SelectionSet,
  Document,
}
use subgraph_mock.Collect.Complete.{SpreadsBelow, IsRanked, nothing, field, spread, inline}
use subgraph_mock.Builder.Returns.Levels.{
  FieldTyped, Ready, ready_end, ready_field, ready_spread, ready_inline, Ready-mono,
}

module _ (schema : FederatedSchema) (rank : String → ℕ) where
  -- Selections as they are written: at most `height` levels deep, every leaf of a leaf type, and
  -- every fragment of a rank below `r`.
  pub data IsWellFormed (r : ℕ) : ℕ → Selections → Type 0 where
    end : {height : ℕ} → IsWellFormed r height done
    field_in :
        {height : ℕ} {sub rest : Selections} (alias : Option String) (name : String) (t : Ty)
        (set_ty : String)
        → FieldTyped schema t set_ty sub
        → IsWellFormed r height sub
        → IsWellFormed r (suc height) rest
        → IsWellFormed r (suc height) (select (of_field (make alias name t set_ty sub)) rest)
    spread_of :
        {height : ℕ} {rest : Selections} (n : String)
        → rank n < r
        → IsWellFormed r height rest
        → IsWellFormed r height (select (fragment_spread n) rest)
    inline_in :
        {height : ℕ} {inner rest : Selections} (condition : Option String)
        → IsWellFormed r height inner
        → IsWellFormed r height rest
        → IsWellFormed r height (select (inline_fragment condition inner) rest)

  -- A document without cycles of fragments, whose fragments are at most `height` levels deep.
  pub record IsValid (doc : Document) (height : ℕ) : Type 0 where
    pub fragment :
        (n : String) (definition : SelectionSet)
        → lookup n doc.fragments ≡ some definition
        → IsWellFormed (rank n) height definition.selections

  IsWellFormed-mono :
      {q height : ℕ} {selections : Selections} (r : ℕ)
      → q ≤ r
      → IsWellFormed q height selections
      → IsWellFormed r height selections
  IsWellFormed-mono r le end = end
  IsWellFormed-mono r le (field_in a n t s typed sub rest) =
      field_in a n t s typed (IsWellFormed-mono r le sub) (IsWellFormed-mono r le rest)
  IsWellFormed-mono r le (spread_of n lt rest) =
      spread_of n (omega arith) (IsWellFormed-mono r le rest)
  IsWellFormed-mono r le (inline_in c nested rest) =
      inline_in c (IsWellFormed-mono r le nested) (IsWellFormed-mono r le rest)

  pub SpreadsBelow-of :
      {r height : ℕ} {selections : Selections}
      → IsWellFormed r height selections
      → SpreadsBelow rank r selections
  SpreadsBelow-of end = nothing
  SpreadsBelow-of (field_in a n t s typed sub rest) =
      field a n t s (SpreadsBelow-of sub) (SpreadsBelow-of rest)
  SpreadsBelow-of (spread_of n lt rest) = spread n lt (SpreadsBelow-of rest)
  SpreadsBelow-of (inline_in c nested rest) =
      inline c (SpreadsBelow-of nested) (SpreadsBelow-of rest)

  pub IsRanked-of : (doc : Document) (height : ℕ) → IsValid doc height → IsRanked doc rank
  IsRanked-of doc height valid = record {
    below = λ n {definition} found. SpreadsBelow-of (valid.fragment n definition found);
  }

  module _ (doc : Document) (limit : ℕ) where
    -- Each fragment that is followed adds at most its own height, and their ranks fall.
    Ready-step :
        {r : ℕ} (more : ℕ)
        → ((n : String) (definition : SelectionSet)
            → rank n < r
            → lookup n doc.fragments ≡ some definition
            → Ready schema doc more definition.selections)
        → {height : ℕ} {selections : Selections} → IsWellFormed r height selections
        → Ready schema doc (height + more) selections
    Ready-step more bodies end = ready_end
    Ready-step more bodies {height = suc h} (field_in a n t s typed sub rest) =
        let e : suc h + more ≡ suc (h + more) = omega arith in
        rw e (
          ready_field a n t s typed (Ready-step more bodies sub)
            (rw e at (Ready-step more bodies rest)))
    Ready-step more bodies (spread_of n lt rest) =
        ready_spread n
          (λ definition found. Ready-mono schema doc _ (omega arith) (bodies n definition lt found))
          (Ready-step more bodies rest)
    Ready-step more bodies (inline_in c nested rest) =
        ready_inline c (Ready-step more bodies nested) (Ready-step more bodies rest)

    pub Ready-IsWellFormed :
        IsValid doc limit
        → (r : ℕ) {height : ℕ} {selections : Selections} → IsWellFormed r height selections
        → Ready schema doc (height + r * limit) selections
    Ready-IsWellFormed valid zero w = Ready-step _ (λ n d lt. absurd (omega arith)) w
    Ready-IsWellFormed valid (suc r) w =
        Ready-step _
          (λ n d lt found. Ready-mono schema doc (suc r * limit) (omega arith) (
            Ready-IsWellFormed valid r
              (IsWellFormed-mono r (omega arith) (valid.fragment n d found))))
          w
