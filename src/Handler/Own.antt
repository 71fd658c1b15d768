-- ===== src/Handler/Own.antt =====
-- Whose answer a request gets through the caches of src/handle/graphql.rs, if hashes do not collide.
use mathlib.Core.Path.{subst}
use subgraph_mock.Base.{ℕ, ◌≡◌, String, Option, some, inr, ok, arith, unwrap_or, Dict}
use subgraph_mock.Json.{Json}
use subgraph_mock.Schema.{FederatedSchema}
use subgraph_mock.Document.{OperationType, Operation, Document}
use subgraph_mock.Http.{Response}
use subgraph_mock.Generation.{ResponseGenerationConfig}
use subgraph_mock.Config.Settings.{Config}
use subgraph_mock.Response.Spec.{IsResponse}
use subgraph_mock.Handler.{RawRequest, Engine, World, first_operation, handle}
use subgraph_mock.Handler.Answers.{
  IsGenerationOf, IsAnswer, invalid, unsupported, failed, answered, unserialized, IsReply,
  bad_request, http_error, replied,
}
use subgraph_mock.Handler.Caches.{IsEngine, IsSound}
use subgraph_mock.Handler.Sound.{handle_replies}

-- Among those that were asked, equal hashes come from equal queries, configurations and texts.
pub record IsCollisionFree (E : Engine)
    (Asked : String → ResponseGenerationConfig → String → Type 0) : Type 0 where
  pub same :
      (query query' : String) (cfg cfg' : ResponseGenerationConfig) (text text' : String)
      → Asked query cfg text
      → Asked query' cfg' text'
      → E.hash query cfg text ≡ E.hash query' cfg' text'
      → (query ≡ query') × (cfg ≡ cfg') × (text ≡ text')

-- The text of a response by this configuration, to this query, on a schema with this text, with the
-- variables of some request.
pub record IsOwn (E : Engine) (cfg : ResponseGenerationConfig) (query text : String)
    (bytes : String) : Type 0 where
  pub variables : Dict Json
  pub schema : FederatedSchema
  pub same_text : schema.source ≡ text
  pub doc : Document
  pub parsed_on : FederatedSchema
  pub parsed_text : parsed_on.source ≡ text
  pub name : String
  pub parsed : E.parse_and_validate parsed_on query name ≡ inr doc
  pub op : Operation
  pub first : first_operation doc ≡ some op
  pub is_a_query : op.operation_type ≡ OperationType.query
  pub v : Json
  pub response : IsResponse E.exec cfg schema doc op.name variables v
  pub serializes : E.to_vec v ≡ inr bytes

module _ (E : Engine) (Asked : String → ResponseGenerationConfig → String → Type 0)
    (free : IsCollisionFree E Asked) where
  IsAnswer-IsOwn :
      (cfg : ResponseGenerationConfig) (query text : String) {answer : String × ℕ}
      → Asked query cfg text
      → IsAnswer E Asked (E.hash query cfg text) answer
      → answer.1 ≡ 200
      → IsOwn E cfg query text answer.0
  IsAnswer-IsOwn cfg query text own (invalid req cfg' schema errs asked keyed e) h =
      absurd (omega (arith, h))
  IsAnswer-IsOwn cfg query text own (unsupported doc op document first other) h =
      absurd (omega (arith, h))
  IsAnswer-IsOwn cfg query text own
        (failed req cfg' schema doc op spreads depth s e asked keyed document first is fails) h =
      absurd (omega (arith, h))
  IsAnswer-IsOwn cfg query text own
        (unserialized req cfg' schema doc op v e asked keyed document first is response fails) h =
      absurd (omega (arith, h))
  IsAnswer-IsOwn cfg query text own
        (answered req cfg' schema doc op v bytes asked keyed document first is response text_of) h =
      let (_, same_cfg, same_text) =
        free.same req.query query cfg' cfg schema.source text asked own keyed in
      let (same_query, _, parsed_text) =
        free.same document.req.query query document.cfg cfg document.schema.source text
          document.asked own document.keyed in
      record {
        variables = req.variables;
        schema = schema;
        same_text = same_text;
        doc = doc;
        parsed_on = document.schema;
        parsed_text = parsed_text;
        name = unwrap_or document.req.operation_name "unknown";
        parsed =
            subst
              (λ q.
                E.parse_and_validate document.schema q
                  (unwrap_or document.req.operation_name "unknown")
                ≡ inr doc)
              same_query document.valid;
        op = op;
        first = first;
        is_a_query = is;
        v = v;
        response =
            subst (λ c. IsResponse E.exec c schema doc op.name req.variables v) same_cfg response;
        serializes = text_of;
      }

  module _ (config : Config E.H.HeaderMap) (schema : FederatedSchema) (body : String)
      (subgraph_name : Option String)
      (own : (raw : RawRequest) (cfg : ResponseGenerationConfig)
        → E.from_slice body ≡ inr raw
        → IsGenerationOf E config subgraph_name cfg
        → Asked raw.query cfg schema.source) where
    IsReply-IsOwn :
        {reply : Response E.H.HeaderMap}
        → IsReply E Asked config schema body subgraph_name reply
        → reply.status ≡ 200
        → (raw : RawRequest) × (cfg : ResponseGenerationConfig) × (E.from_slice body ≡ inr raw)
          × IsGenerationOf E config subgraph_name cfg
          × IsOwn E cfg raw.query schema.source reply.body
    IsReply-IsOwn (bad_request e read) h = absurd (omega (arith, h))
    IsReply-IsOwn (http_error raw cfg r status read chosen ratio lo hi) h =
        absurd (omega (arith, h, lo))
    IsReply-IsOwn (replied raw cfg answer configured headers read chosen right listed has) h =
        (raw, cfg, read, chosen, IsAnswer-IsOwn cfg _ _ (own raw cfg read chosen) right h)

    -- With libraries that keep their laws: if the hashes of what was asked, this request among it,
    -- do not collide, then from sound caches a reply with status 200 has the text of a response to
    -- the query of this very request, by the configuration listed for the subgraph that is named, or
    -- that of the server where none is named or none is listed for it, and on a schema with the text
    -- of the one that is served: no reload and no other request gives it another query, configuration
    -- or schema; only the variables may be another request's.
    pub handle-IsOwn :
        (laws : IsEngine E) (spreads depth : ℕ) (w w' : World E) (reply : Response E.H.HeaderMap)
        → IsSound E Asked w
        → handle E spreads depth config schema body subgraph_name w ≡ ok (reply, w')
        → reply.status ≡ 200
        → (raw : RawRequest) × (cfg : ResponseGenerationConfig) × (E.from_slice body ≡ inr raw)
          × IsGenerationOf E config subgraph_name cfg
          × IsOwn E cfg raw.query schema.source reply.body
    handle-IsOwn laws spreads depth w w' reply sound e =
        IsReply-IsOwn
          (handle_replies E laws Asked config schema body subgraph_name spreads depth own w w' reply
            sound e).1
