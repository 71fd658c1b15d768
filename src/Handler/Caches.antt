-- ===== src/Handler/Caches.antt =====
-- The caches of src/handle/graphql.rs: what is answered through them is the answer to some request
-- with the same key.
use mathlib.Core.Option.{some-injective}
use subgraph_mock.Base.{
  sym, ap, ◌∙◌, arith, ℕ, ◌≡◌, refl, true, false, String, Option, none, some, ◌⊎◌, inl, inr,
  Bool-cases, List, unwrap_or, eqb, eqb_iff, ◌≢◌,
}
use subgraph_mock.Json.{Json}
use subgraph_mock.Schema.{FederatedSchema}
use subgraph_mock.Document.{OperationType, Operation, Document}
use subgraph_mock.Http.{IsHeaderOps}
use subgraph_mock.Random.{IsLawful, Gen}
use subgraph_mock.Random.Yields.{Yields, Caught, Yields-attempt}
use subgraph_mock.Random.Keeps.{Keeps, After, Keeps-pure, Keeps-panicked, Keeps-if, Keeps-bind}
use subgraph_mock.Generation.{ResponseGenerationConfig}
use subgraph_mock.Response.{generate_response}
use subgraph_mock.Response.Spec.{IsResponse}
use subgraph_mock.Response.Conforms.{generate_response-IsResponse}
use subgraph_mock.Memo.{IsCache}
use subgraph_mock.Handler.Draws.{Keeps-drawn}
use subgraph_mock.Handler.{
  GraphQlRequest, Engine, World, first_operation, is_query, drawn, serialized, keep_document,
  parse_and_validate, generated, answer_operation, answer_document, into_response_no_cache,
  into_response, keep_response, parse_unless, respond_unless,
}
use subgraph_mock.Handler.Answers.{
  IsDocument, IsAnswer, invalid, unsupported, failed, answered, unserialized,
}

-- The laws of what the handler calls.
pub record IsEngine (E : Engine) : Type 0 where
  pub random : IsLawful E.R
  pub headers : IsHeaderOps E.H
  pub responses : IsCache E.responses
  pub documents : IsCache E.documents

-- Each cached document and each cached answer belongs to a request with its key.
pub record IsSound (E : Engine) (Asked : String → ResponseGenerationConfig → String → Type 0)
    (w : World E) : Type 0 where
  pub documents :
      (key : ℕ) (doc : Document)
      → E.documents.get key w.documents ≡ some doc
      → IsDocument E Asked key doc
  pub responses :
      (key : ℕ) (answer : String × ℕ)
      → E.responses.get key w.responses ≡ some answer
      → IsAnswer E Asked key answer

-- Where no request is left out.
abbrev pub Anything : String → ResponseGenerationConfig → String → Type 0
Anything query cfg text = Unit

is_query-eq_true : (t : OperationType) → is_query t ≡ true → t ≡ OperationType.query
is_query-eq_true OperationType.query e = refl
is_query-eq_true OperationType.mutation e = cc
is_query-eq_true OperationType.subscription e = cc

is_query-eq_false : (t : OperationType) → is_query t ≡ false → t ≢ OperationType.query
is_query-eq_false t e is = cc

module _ (E : Engine) (laws : IsEngine E)
    (Asked : String → ResponseGenerationConfig → String → Type 0) where
  -- A computation that only draws leaves sound caches.
  pub Keeps-draws :
      {A : Type 0} {P : A → Type 0} (m : Gen E.R.State A)
      → Yields P m
      → Keeps (IsSound E Asked) P (drawn E m)
  Keeps-draws =
      Keeps-drawn E (IsSound E Asked)
        λ w s sound. record { documents = sound.documents; responses = sound.responses }

  -- A value that is set in a cache is found under its key, and the others as before.
  set-cases :
      {V : Type 0} (P : ℕ → V → Type 0) (key : ℕ) (v : V) (get_set : ℕ → Option V)
      (get : ℕ → Option V)
      → get_set key ≡ some v
      → ((j : ℕ) → j ≢ key → get_set j ≡ get j)
      → P key v
      → ((j : ℕ) (u : V) → get j ≡ some u → P j u)
      → (j : ℕ) (u : V) → get_set j ≡ some u
      → P j u
  set-cases P key v get_set get same other new old j u e = elim (Bool-cases (eqb j key)) [
    | inl is_key ↦
        let at_key : j ≡ key = (eqb_iff j key).0 is_key in
        let is_v : some v ≡ some u = sym same ∙ ap get_set (sym at_key) ∙ e in
        rw (at_key, sym (some-injective _ _ is_v)) new
    | inr differ ↦ old j u (sym (other j (differs j key differ)) ∙ e)
  ]
    where
      differs : (j k : ℕ) → eqb j k ≡ false → j ≢ k
      differs j k h = ground arith

  IsSound-keep_document :
      (key : ℕ) (w : World E) (doc : Document)
      → IsSound E Asked w
      → IsDocument E Asked key doc
      → IsSound E Asked (record w { documents = E.documents.set key doc w.documents })
  IsSound-keep_document key w doc sound new = record {
    documents =
        set-cases (IsDocument E Asked) key doc _ (λ j. E.documents.get j w.documents)
          (laws.documents.get-set_same key doc w.documents)
          (λ j h. laws.documents.get-set_other j key doc w.documents h) new sound.documents;
    responses = sound.responses;
  }

  IsSound-keep_response :
      (key : ℕ) (w : World E) (answer : String × ℕ)
      → IsSound E Asked w
      → IsAnswer E Asked key answer
      → IsSound E Asked (record w { responses = E.responses.set key answer w.responses })
  IsSound-keep_response key w answer sound new = record {
    documents = sound.documents;
    responses =
        set-cases (IsAnswer E Asked) key answer _ (λ j. E.responses.get j w.responses)
          (laws.responses.get-set_same key answer w.responses)
          (λ j h. laws.responses.get-set_other j key answer w.responses h) new sound.responses;
  }

  module _ (req : GraphQlRequest) (cfg : ResponseGenerationConfig) (schema : FederatedSchema)
      (key : ℕ) (asked : Asked req.query cfg schema.source)
      (keyed : E.hash req.query cfg schema.source ≡ key) where
    abbrev IsParse : List Json ⊎ Document → Type 0
    IsParse (inl errs) =
        E.parse_and_validate schema req.query (unwrap_or req.operation_name "unknown") ≡ inl errs
    IsParse (inr doc) = IsDocument E Asked key doc

    After-keep_document :
        (w : World E) (r : List Json ⊎ Document)
        → IsSound E Asked w
        → E.parse_and_validate schema req.query (unwrap_or req.operation_name "unknown") ≡ r
        → After (IsSound E Asked) IsParse (keep_document E key w r)
    After-keep_document w (inl errs) sound e = (sound, e)
    After-keep_document w (inr doc) sound e =
        let document : IsDocument E Asked key doc = record {
          req = req;
          cfg = cfg;
          schema = schema;
          asked = asked;
          keyed = keyed;
          valid = e;
        } in
        (IsSound-keep_document key w doc sound document, document)

    Keeps-parse_and_validate : Keeps (IsSound E Asked) IsParse (parse_and_validate E req schema key)
    unfolding parse_and_validate
    Keeps-parse_and_validate = record { at = λ w sound. After-parse_unless w _ sound refl }
      where
        After-parse_unless :
            (w : World E) (o : Option Document)
            → IsSound E Asked w
            → E.documents.get key w.documents ≡ o
            → After (IsSound E Asked) IsParse (parse_unless E o req schema key w)
        After-parse_unless w none sound e = After-keep_document w _ sound refl
        After-parse_unless w (some doc) sound e = (sound, sound.documents key doc e)

    module _ (spreads depth : ℕ) where
      answered_with :
          (doc : Document) (op : Operation) (r : String ⊎ Json)
          → IsDocument E Asked key doc
          → first_operation doc ≡ some op
          → op.operation_type ≡ OperationType.query
          → Caught
              (generate_response E.R E.exec cfg schema doc spreads depth op.name req.variables)
              (IsResponse E.exec cfg schema doc op.name req.variables)
              r
          → IsAnswer E Asked key (generated E r)
      answered_with doc op (inl e) document first query (s, fails) =
          failed req cfg schema doc op spreads depth s e asked keyed document first query fails
      answered_with doc op (inr v) document first query h = from (E.to_vec v) refl
        where
          from : (r : String ⊎ String) → E.to_vec v ≡ r → IsAnswer E Asked key (serialized r)
          from (inl e) is =
              unserialized req cfg schema doc op v e asked keyed document first query h is
          from (inr bytes) is =
              answered req cfg schema doc op v bytes asked keyed document first query h is

      Keeps-answer_operation :
          (doc : Document) (o : Option Operation)
          → IsDocument E Asked key doc
          → first_operation doc ≡ o
          → Keeps
              (IsSound E Asked)
              (IsAnswer E Asked key)
              (answer_operation E spreads depth cfg req schema doc o)
      unfolding answer_operation
      Keeps-answer_operation doc none document first = Keeps-panicked
      Keeps-answer_operation doc (some op) document first =
          Keeps-if (is_query op.operation_type) _ _
            (λ query.
              Keeps-bind _ _
                (Keeps-draws _ (
                  Yields-attempt E.R _ (
                    generate_response-IsResponse E.R laws.random E.exec cfg schema doc op.name
                      req.variables spreads depth)))
                λ r h. Keeps-pure _ (
                  answered_with doc op r document first (is_query-eq_true op.operation_type query)
                    h))
            (λ other.
              Keeps-pure _
                (unsupported doc op document first (is_query-eq_false op.operation_type other)))

      Keeps-answer_document :
          (r : List Json ⊎ Document)
          → IsParse r
          → Keeps
              (IsSound E Asked)
              (IsAnswer E Asked key)
              (answer_document E spreads depth cfg req schema r)
      Keeps-answer_document (inl errs) e = Keeps-pure _ (invalid req cfg schema errs asked keyed e)
      Keeps-answer_document (inr doc) document =
          Keeps-answer_operation doc (first_operation doc) document refl

      pub Keeps-into_response_no_cache :
          Keeps
            (IsSound E Asked)
            (IsAnswer E Asked key)
            (into_response_no_cache E spreads depth cfg req schema key)
      unfolding into_response_no_cache
      Keeps-into_response_no_cache =
          Keeps-bind _ _ Keeps-parse_and_validate λ r h. Keeps-answer_document r h

      Keeps-keep_response :
          (answer : String × ℕ)
          → IsAnswer E Asked key answer
          → Keeps (IsSound E Asked) (IsAnswer E Asked key) (keep_response E key answer)
      Keeps-keep_response answer h = record {
        at = λ w sound. (IsSound-keep_response key w answer sound h, h);
      }

      pub Keeps-into_response :
          Keeps
            (IsSound E Asked)
            (IsAnswer E Asked key)
            (into_response E spreads depth cfg req schema key)
      unfolding into_response
      Keeps-into_response = record { at = λ w sound. After-respond_unless w _ sound refl }
        where
          After-respond_unless :
              (w : World E) (o : Option (String × ℕ))
              → IsSound E Asked w
              → E.responses.get key w.responses ≡ o
              → After
                  (IsSound E Asked)
                  (IsAnswer E Asked key)
                  (respond_unless E spreads depth o cfg req schema key w)
          After-respond_unless w none sound e =
              (Keeps-bind _ _ Keeps-into_response_no_cache Keeps-keep_response).at w sound
          After-respond_unless w (some answer) sound e = (sound, sound.responses key answer e)
