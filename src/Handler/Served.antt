-- ===== src/Handler/Served.antt =====
-- The caches of src/handle/graphql.rs answer, where the documents can be served.
use subgraph_mock.Base.{
  ℕ, ◌+◌, ◌*◌, ◌<◌, ◌≡◌, refl, true, String, Option, none, some, ◌⊎◌, inl, inr, List, Outcome, ok,
  unwrap_or,
}
use subgraph_mock.Json.{Json}
use subgraph_mock.Schema.{FederatedSchema}
use subgraph_mock.Document.{Operation, Document}
use subgraph_mock.Random.{Random, IsLawful, Gen, attempt}
use subgraph_mock.Random.Yields.{Yields-any}
use subgraph_mock.Random.Runs.{Runs, Runs-pure, Runs-if, Runs-bind}
use subgraph_mock.Random.Completes.{Completes, Completes-then}
use subgraph_mock.Generation.{ResponseGenerationConfig}
use subgraph_mock.Builder.Returns.Static.{IsValid}
use subgraph_mock.Response.Returns.{IsSound, IsAnswerable, generate_response_returns}
use subgraph_mock.Handler.{
  GraphQlRequest, Engine, World, first_operation, is_query, drawn, keep_document, parse_unless,
  parse_and_validate, answer_operation, answer_document, into_response_no_cache, respond_unless,
  into_response,
}

Runs-attempt : (R : Random) {A : Type 0} (m : Gen R.State A) → Runs m → Runs (attempt R m)
unfolding attempt
Runs-attempt R m h = record { at = λ s. let (a, s', e) = h.at s in (inr a, s', rw e refl) }

pub Runs-drawn : (E : Engine) {A : Type 0} (m : Gen E.R.State A) → Runs m → Runs (drawn E m)
unfolding drawn
Runs-drawn E m h = record {
  at = λ w. let (a, s, e) = h.at w.random in (a, record w { random = s }, rw e refl);
}

module _ (E : Engine) (law : IsLawful E.R) (cfg : ResponseGenerationConfig)
    (sound : IsSound E.R cfg) (schema : FederatedSchema) (req : GraphQlRequest)
    (spreads depth : ℕ) where
  -- What a query asks for: its fragments are without cycles, all is answerable, and the fuel is enough.
  pub record IsPlanned (doc : Document) (op : Operation) : Type 0 where
    pub rank : String → ℕ
    pub limit : ℕ
    pub r : ℕ
    pub height : ℕ
    pub valid : IsValid schema rank doc limit
    pub enough : r < spreads
    pub deep : height + r * limit < depth
    pub answerable :
        (found : Operation)
        → E.exec.get_operation doc op.name ≡ some found
        → IsAnswerable E.R law E.exec cfg sound schema doc rank limit valid r height req.variables
            found

  -- A document with an operation; if the first one is a query, it can be answered.
  pub record IsServable (doc : Document) : Type 0 where
    pub op : Operation
    pub first : first_operation doc ≡ some op
    pub planned : is_query op.operation_type ≡ true → IsPlanned doc op

  Runs-answer_operation :
      (doc : Document)
      → IsServable doc
      → Runs (answer_operation E spreads depth cfg req schema doc (first_operation doc))
  unfolding answer_operation
  Runs-answer_operation doc can = rw can.first (
      Runs-if (is_query can.op.operation_type) _ _
        (λ query.
          let plan = can.planned query in
          Runs-bind _ _
            (Runs-drawn E _ (
              Runs-attempt E.R _ (record {
                at =
                    generate_response_returns E.R law E.exec cfg sound schema doc plan.rank
                      plan.limit plan.valid plan.r plan.height spreads depth plan.enough plan.deep
                      can.op.name req.variables plan.answerable;
              })))
            (Yields-any _) λ resp _. Runs-pure _)
        (λ _. Runs-pure _))

  -- Documents that are parsed or cached for the request can be served.
  abbrev pub AllServable : ℕ → World E → Type 0
  AllServable key w =
      (doc : Document)
      → (E.parse_and_validate schema req.query (unwrap_or req.operation_name "unknown") ≡ inr doc)
        ⊎ (E.documents.get key w.documents ≡ some doc)
      → IsServable doc

  abbrev Parsed : List Json ⊎ Document → Type 0
  Parsed (inl errs) = Unit
  Parsed (inr doc) = IsServable doc

  module _ (key : ℕ) where
    abbrev Returns : {A : Type 0} → (A → Type 0) → Outcome (A × World E) → Type 0
    Returns {A} Q r = (a : A) × (w : World E) × (r ≡ ok (a, w)) × Q a

    Returns-keep_document :
        (w : World E) (r : List Json ⊎ Document)
        → Parsed r
        → Returns Parsed (keep_document E key w r)
    Returns-keep_document w (inl errs) h = (_, _, refl, tt)
    Returns-keep_document w (inr doc) h = (_, _, refl, h)

    Completes-parse_and_validate :
        Completes (AllServable key) Parsed (parse_and_validate E req schema key)
    unfolding parse_and_validate
    Completes-parse_and_validate = record { at = λ w all. parsed w all _ refl }
      where
        parsed_new :
            (w : World E) (r : List Json ⊎ Document)
            → AllServable key w
            → E.parse_and_validate schema req.query (unwrap_or req.operation_name "unknown") ≡ r
            → Parsed r
        parsed_new w (inl errs) all e = tt
        parsed_new w (inr doc) all e = all doc (inl e)

        parsed :
            (w : World E)
            → AllServable key w
            → (o : Option Document) → E.documents.get key w.documents ≡ o
            → Returns Parsed (parse_unless E o req schema key w)
        parsed w all none e = Returns-keep_document w _ (parsed_new w _ all refl)
        parsed w all (some doc) e = (_, _, refl, all doc (inr e))

    Runs-answer_document :
        (r : List Json ⊎ Document)
        → Parsed r
        → Runs (answer_document E spreads depth cfg req schema r)
    Runs-answer_document (inl errs) h = Runs-pure _
    Runs-answer_document (inr doc) h = Runs-answer_operation doc h

    pub Completes-into_response_no_cache :
        Completes
          (AllServable key)
          (λ _. Unit {0})
          (into_response_no_cache E spreads depth cfg req schema key)
    unfolding into_response_no_cache
    Completes-into_response_no_cache =
        Completes-then _ _ Completes-parse_and_validate Runs-answer_document

    pub Completes-into_response :
        Completes
          (AllServable key)
          (λ _. Unit {0})
          (into_response E spreads depth cfg req schema key)
    unfolding into_response
    Completes-into_response = record { at = λ w all. responded w all _ }
      where
        responded :
            (w : World E)
            → AllServable key w
            → (o : Option (String × ℕ))
            → Returns (λ _. Unit {0}) (respond_unless E spreads depth o cfg req schema key w)
        responded w all (some answer) = (_, _, refl, tt)
        responded w all none =
            (Completes-then _ _ Completes-into_response_no_cache
                (λ answer _. record { at = λ w. (_, _, refl) })).at
              w all
