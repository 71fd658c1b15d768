-- ===== src/Handler/Replay.antt =====
-- A cached answer of src/handle/graphql.rs stays, and is given to every later request with its key.
use mathlib.Core.Path.{subst}
use subgraph_mock.Base.{
  ℕ, ◌≡◌, ◌≢◌, refl, sym, ◌∙◌, ap, String, Option, none, some, ◌⊎◌, inl, inr, List, Outcome, ok,
  none-ne-some, err, panic, out_of_fuel,
}
use subgraph_mock.Json.{Json}
use subgraph_mock.Schema.{FederatedSchema}
use subgraph_mock.Document.{Operation, Document}
use subgraph_mock.Random.{Gen, ◌>>=◌, continue}
use subgraph_mock.Random.Yields.{Yields-any}
use subgraph_mock.Random.Keeps.{Keeps, After, Keeps-pure, Keeps-panicked, Keeps-if, Keeps-bind}
use subgraph_mock.Generation.{ResponseGenerationConfig}
use subgraph_mock.Config.Settings.{Config}
use subgraph_mock.Memo.{IsCache}
use subgraph_mock.Handler.Draws.{Keeps-drawn}
use subgraph_mock.Handler.{
  RawRequest, GraphQlRequest, request_of, Engine, World, Handling, is_query, drawn, keep_document,
  parse_unless, parse_and_validate, answer_operation, answer_document, into_response_no_cache,
  keep_response, respond_unless, into_response, with_headers, caches, handle_request, handle_read,
  handle,
}

module _ (E : Engine) (laws : IsCache E.responses) (key : ℕ) (answer : String × ℕ) where
  abbrev pub IsCached : World E → Type 0
  IsCached w = E.responses.get key w.responses ≡ some answer

  abbrev pub Stays : {A : Type 0} → Handling E A → Type 0
  Stays m = Keeps IsCached (λ _. Unit {0}) m

  draws : {A : Type 0} (m : Gen E.R.State A) → Stays (drawn E m)
  draws m = Keeps-drawn E IsCached (λ w s cached. cached) m (Yields-any m)

  After-keep_document :
      (other : ℕ) (w : World E) (r : List Json ⊎ Document)
      → IsCached w
      → After IsCached (λ _. Unit {0}) (keep_document E other w r)
  After-keep_document other w (inl errs) cached = (cached, tt)
  After-keep_document other w (inr doc) cached = (cached, tt)

  After-parse_unless :
      (o : Option Document) (req : GraphQlRequest) (schema : FederatedSchema) (other : ℕ)
      (w : World E)
      → IsCached w
      → After IsCached (λ _. Unit {0}) (parse_unless E o req schema other w)
  After-parse_unless none req schema other w cached = After-keep_document other w _ cached
  After-parse_unless (some doc) req schema other w cached = (cached, tt)

  Stays-parse_and_validate :
      (req : GraphQlRequest) (schema : FederatedSchema) (other : ℕ)
      → Stays (parse_and_validate E req schema other)
  unfolding parse_and_validate
  Stays-parse_and_validate req schema other = record {
    at = λ w cached. After-parse_unless _ req schema other w cached;
  }

  module _ (spreads depth : ℕ) (cfg : ResponseGenerationConfig) (req : GraphQlRequest)
      (schema : FederatedSchema) (other : ℕ) where
    Stays-answer_operation :
        (doc : Document) (o : Option Operation)
        → Stays (answer_operation E spreads depth cfg req schema doc o)
    unfolding answer_operation
    Stays-answer_operation doc none = Keeps-panicked
    Stays-answer_operation doc (some op) =
        Keeps-if (is_query op.operation_type) _ _
          (λ _. Keeps-bind _ _ (draws _) λ r _. Keeps-pure _ tt) (λ _. Keeps-pure _ tt)

    Stays-answer_document :
        (r : List Json ⊎ Document) → Stays (answer_document E spreads depth cfg req schema r)
    Stays-answer_document (inl errs) = Keeps-pure _ tt
    Stays-answer_document (inr doc) = Stays-answer_operation doc _

    Stays-into_response_no_cache :
        Stays (into_response_no_cache E spreads depth cfg req schema other)
    unfolding into_response_no_cache
    Stays-into_response_no_cache =
        Keeps-bind _ _ (Stays-parse_and_validate req schema other) λ r _. Stays-answer_document r

    Stays-keep_response : (new : String × ℕ) → key ≢ other → Stays (keep_response E other new)
    Stays-keep_response new differ = record {
      at = λ w cached. (laws.get-set_other key other new w.responses differ ∙ cached, tt);
    }

    Stays-into_response : Stays (into_response E spreads depth cfg req schema other)
    unfolding into_response
    Stays-into_response = record { at = λ w cached. after w _ refl cached }
      where
        after :
            (w : World E) (o : Option (String × ℕ))
            → E.responses.get other w.responses ≡ o
            → IsCached w
            → After IsCached
                (λ _. Unit {0})
                (respond_unless E spreads depth o cfg req schema other w)
        after w (some old) e cached = (cached, tt)
        after w none e cached =
            (Keeps-bind _ _ Stays-into_response_no_cache λ new _. Stays-keep_response new λ same.
                none-ne-some _
                  (sym e ∙ ap (λ j. E.responses.get j w.responses) (sym same) ∙ cached)).at
              w cached

  module _ (spreads depth : ℕ) (config : Config E.H.HeaderMap) (schema : FederatedSchema)
      (subgraph_name : Option String) where
    Stays-with_headers :
        (cfg : ResponseGenerationConfig) (reply : String × ℕ)
        → Stays (with_headers E config cfg subgraph_name reply)
    unfolding with_headers
    Stays-with_headers cfg reply = Keeps-bind _ _ (draws _) λ headers _. Keeps-pure _ tt

    Stays-handle_request :
        (req : GraphQlRequest)
        → Stays (handle_request E spreads depth config schema subgraph_name req)
    unfolding handle_request
    Stays-handle_request req = Keeps-bind _ _ (draws _) λ fails _.
        Keeps-if fails _ _ (λ _. Keeps-bind _ _ (draws _) λ status _. Keeps-pure _ tt)
          λ _.
            Keeps-bind _ _
              (Keeps-if (caches E config subgraph_name) _ _
                (λ _. Stays-into_response spreads depth _ req schema _)
                (λ _. Stays-into_response_no_cache spreads depth _ req schema _))
              λ reply _. Stays-with_headers _ reply

    -- A request leaves what is cached.
    pub Stays-handle :
        (body : String) → Stays (handle E spreads depth config schema body subgraph_name)
    unfolding handle
    Stays-handle body = from (E.from_slice body)
      where
        from :
            (r : String ⊎ RawRequest)
            → Stays (handle_read E spreads depth config schema subgraph_name r)
        from (inl e) = Keeps-pure _ tt
        from (inr raw) = Stays-handle_request (request_of raw)

  module _ (spreads depth : ℕ) (cfg : ResponseGenerationConfig) (req : GraphQlRequest)
      (schema : FederatedSchema) where
    -- An answer that is given is cached from then on.
    pub into_response-IsCached :
        (w w' : World E)
        → into_response E spreads depth cfg req schema key w ≡ ok (answer, w')
        → IsCached w'
    unfolding into_response ◌>>=◌
    into_response-IsCached w w' e = subst Kept e (kept w _ refl)
      where
        Kept : Outcome ((String × ℕ) × World E) → Type 0
        Kept (ok (a, w)) = E.responses.get key w.responses ≡ some a
        Kept _ = Unit

        kept_after :
            (r : Outcome ((String × ℕ) × World E)) → Kept (continue r (keep_response E key))
        kept_after (ok (a, w)) = laws.get-set_same key a w.responses
        kept_after (err e) = tt
        kept_after panic = tt
        kept_after out_of_fuel = tt

        kept :
            (w : World E) (o : Option (String × ℕ))
            → E.responses.get key w.responses ≡ o
            → Kept (respond_unless E spreads depth o cfg req schema key w)
        kept w (some old) e = e
        kept w none e = kept_after (into_response_no_cache E spreads depth cfg req schema key w)

    -- A cached answer is given again.
    pub into_response_repeats :
        (w : World E)
        → IsCached w
        → into_response E spreads depth cfg req schema key w ≡ ok (answer, w)
    unfolding into_response
    into_response_repeats w cached = rw cached refl
