-- ===== src/Decision/Typed.antt =====
-- api/v1/decision_types.go and internal/apiserver/decision.go: a decision request of the Go type, from its
-- body to the answer.
use api_extension.Prelude.{◌≡◌, ◌≢◌, sym, ap, ◌∙◌, [], All, arith, ok, ok_inj}
use api_extension.Text.{Text}
use api_extension.Http.{Request, Reply}
use api_extension.Kube.{Backend, Codec, DecisionPayload}
use api_extension.Api.Requests as Requests
use api_extension.Api.Requests.{decision_document}
use api_extension.Decision.{DecisionRequest, decode_decision_request}
use api_extension.Decision.Documents.{
  IsRead, IsReady, IsDocument?, or_null, all_asked, decode-all_asked,
}
use api_extension.Decision.Handler.{read_and_decode, create_handler}
use api_extension.Decision.Answers.{IsDecided, create_handler-IsDecided}

read_and_decode-ok :
    (codec : Codec) (r : Request) (body : Text) (request : DecisionRequest)
    → r.body ≡ ok body
    → read_and_decode codec r ≡ ok request
    → decode_decision_request codec body ≡ ok request
unfolding read_and_decode
read_and_decode-ok codec r body request e h = ground arith

module _ {World : Type 0} (env : Backend World) (codec : Codec) where
  -- A decision request of the Go type that is answered was put to the decision maker as it was sent:
  -- with well-formed questions under keys that are not blank, the answer is that of the decision maker to
  -- just the state and the questions of the Go value, and the access was allowed to the caller. The
  -- YAML decoder has to fill its struct from the members of the object that the tags of the type give.
  pub create_handler-all_asked :
      (url namespace name body : Text) (r : Request) (w : World) (reply : Reply)
      (typed : Requests.DecisionRequest) (payload : DecisionPayload)
      → r.body ≡ ok body
      → codec.unmarshal_decision body ≡ ok payload
      → IsRead (decision_document typed) payload
      → typed.spec.questions ≢ []
      → IsDocument? typed.spec.state
      → All IsReady typed.spec.questions
      → (create_handler env codec url namespace name r w).0 ≡ ok reply
      → (d : IsDecided env codec url namespace name r w reply) × (d.request.state
          ≡ or_null typed.spec.state)
        × (d.request.questions ≡ all_asked typed.spec.questions)
  create_handler-all_asked url namespace name body r w reply typed payload sent decoded read
        some_question document ready h =
      let d = create_handler-IsDecided env codec url namespace name r w reply h in
      let own = read_and_decode-ok codec r body d.request sent d.is_decoded in
      let same : d.request ≡ _ = ok_inj (
        sym own
        ∙ decode-all_asked codec body typed payload decoded read some_question document ready) in
      (
        d,
        ap (λ (q : DecisionRequest). q.state) same,
        ap (λ (q : DecisionRequest). q.questions) same,
      )
