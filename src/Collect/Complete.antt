-- ===== src/Collect/Complete.antt =====
-- `collect_fields` of src/handle/graphql.rs returns on every document whose fragments do not spread
-- one another in a cycle, which validation guarantees.
use subgraph_mock.Base.{
  ℕ, zero, suc, ◌<◌, String, ◌≡◌, refl, arith, Option, some, inl, inr, Option-cases, List, [],
  lookup, Outcome, ok,
}
use subgraph_mock.Document.{
  Field, Selections, make, of_field, fragment_spread, inline_fragment, done, select, SelectionSet,
  Document,
}
use subgraph_mock.Schema.{Ty}
use subgraph_mock.Collect.{Groups, collect_loop, collect_fields}

-- Every fragment that is spread in the selections, at any depth, has a rank below `r`.
pub data SpreadsBelow (rank : String → ℕ) (r : ℕ) : Selections → Type 0 where
  nothing : SpreadsBelow rank r done
  field :
      {sub rest : Selections} (alias : Option String) (name : String) (ty : Ty) (set_ty : String)
      → SpreadsBelow rank r sub
      → SpreadsBelow rank r rest
      → SpreadsBelow rank r (select (of_field (make alias name ty set_ty sub)) rest)
  spread :
      {rest : Selections} (n : String)
      → rank n < r
      → SpreadsBelow rank r rest
      → SpreadsBelow rank r (select (fragment_spread n) rest)
  inline :
      {inner rest : Selections} (condition : Option String)
      → SpreadsBelow rank r inner
      → SpreadsBelow rank r rest
      → SpreadsBelow rank r (select (inline_fragment condition inner) rest)

-- Each fragment spreads only fragments of a smaller rank: there is no cycle.
pub record IsRanked (doc : Document) (rank : String → ℕ) : Type 0 where
  pub below :
      (n : String) {definition : SelectionSet}
      → lookup n doc.fragments ≡ some definition
      → SpreadsBelow rank (rank n) definition.selections

module _ (doc : Document) (iter : Groups → List (String × List Field)) (rank : String → ℕ)
    (ranked : IsRanked doc rank) where
  collect_loop_returns :
      (collect : Selections → Outcome Groups) (r : ℕ)
      → ((body : Selections) (k : ℕ)
          → k < r
          → SpreadsBelow rank k body
          → (g : Groups) × (collect body ≡ ok g))
      → (selections : Selections) (m : Groups) → SpreadsBelow rank r selections
      → (g : Groups) × (collect_loop doc iter collect selections m ≡ ok g)
  unfolding collect_loop
  collect_loop_returns collect r rec done m nothing = (m, refl)
  collect_loop_returns collect r rec (select _ rest) m (field a n t s inside after) =
      collect_loop_returns collect r rec rest _ after
  collect_loop_returns collect r rec (select _ rest) m (spread n lt after) =
      elim (Option-cases (lookup n doc.fragments)) [
        | inl absent ↦ rw (absent, collect_loop) (collect_loop_returns collect r rec rest m after)
        | inr (definition, found) ↦
            let (g, e) = rec definition.selections (rank n) lt (ranked.below n found) in
            rw (found, collect_loop, e) (collect_loop_returns collect r rec rest _ after)
      ]
  collect_loop_returns collect r rec (select _ rest) m (inline {inner} c inside after) =
      let (g, e) = collect_loop_returns collect r rec inner [] inside in
      rw e (collect_loop_returns collect r rec rest _ after)

  -- Where every fragment spreads only fragments of a smaller rank, and the selections only fragments
  -- of a rank below `r`, `collect_fields` returns with fuel above `r`.
  pub collect_fields_returns :
      (fuel r : ℕ) (selections : Selections)
      → r < fuel
      → SpreadsBelow rank r selections
      → (groups : Groups) × (collect_fields doc iter fuel selections ≡ ok groups)
  unfolding collect_fields
  collect_fields_returns zero r selections h below = absurd (omega arith)
  collect_fields_returns (suc fuel) r selections h below =
      collect_loop_returns (collect_fields doc iter fuel) r
        (λ body k lt b. collect_fields_returns fuel k body (omega arith) b) selections [] below
