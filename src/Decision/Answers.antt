-- ===== src/Decision/Answers.antt =====
-- What a decision that is answered has gone through.
use api_extension.Prelude.{
  ℕ, ◌≡◌, ◌↔◌, ◌≤◌, ◌<◌, refl, inl, inr, true, false, arith, Result-cases, ok, bind-eq-ok, lift,
}
use api_extension.Text.{Text}
use api_extension.Value.{is_empty}
use api_extension.Http.{Values, Request, Reply, ClientResponse}
use api_extension.Kube.{DecisionAnswer, Backend, Codec}
use api_extension.Helper.{subject_access_review}
use api_extension.Query.{require_access}
use api_extension.Query.Overwrites.{require_access-ok}
use api_extension.Decision.{DecisionRequest}
use api_extension.Decision.Handler.{
  decision_attributes, read_and_decode, resolve_namespace, endpoint_of, decision_name, read_answer,
  invoke_decision_maker, call_and_write, response_of, answer_reply, create_handler,
}

-- The decision maker's response is an answer exactly when it could be read, its status is from 200 to
-- 299, its body decodes to the answer, and the answer has at least one entry.
pub read_answer-eq-ok_iff :
    (codec : Codec) (response : ClientResponse) (answer : DecisionAnswer)
    → (read_answer codec response ≡ ok answer) ↔ (
        (200 ≤ response.status_code)
        × (response.status_code < 300)
        × (is_empty answer.answers ≡ false)
        × ((body : Text) × (response.body ≡ ok body) × (codec.unmarshal_answer body ≡ ok answer)))
unfolding read_answer
read_answer-eq-ok_iff codec response answer = (
  λ h. elim (Result-cases response.body) [
    | inl (body, e) ↦ elim (Result-cases (codec.unmarshal_answer body)) [
      | inl (a, e') ↦ (ground arith, ground arith, ground arith, (body, e, ground arith))
      | inr (x, e') ↦ absurd (ground arith)
    ]
    | inr (x, e) ↦ absurd (ground arith)
  ],
  λ (lo, hi, some_answer, (body, e, e')). ground arith,
)

module _ {World : Type 0} (env : Backend World) (codec : Codec) where
  -- What a decision request has gone through before it is answered.
  pub record IsDecided (url namespace name : Text) (r : Request) (w : World) (reply : Reply)
      : Type 0 where
    pub allowed : (subject_access_review env (decision_attributes namespace) r.header w).0 ≡ ok true
    pub request : DecisionRequest
    pub is_decoded : read_and_decode codec r ≡ ok request
    pub space : Text
    pub is_resolved : resolve_namespace r.path namespace request ≡ ok space
    pub answer : DecisionAnswer
    pub is_made :
        (invoke_decision_maker env codec
          (endpoint_of url)
          (record { state = request.state; questions = request.questions })
          (decision_name env codec request name
            (subject_access_review env (decision_attributes namespace) r.header w).1).1).0
        ≡ ok answer
    pub time : ℕ
    pub own_name : Text
    pub is_named :
        own_name
        ≡ (decision_name env codec request name
            (subject_access_review env (decision_attributes namespace) r.header w).1).0
    pub is_reply :
        reply ≡ answer_reply codec r.header (response_of codec own_name space time answer)

  call_and_write-ok :
      (endpoint name space : Text) (request : DecisionRequest) (header : Values) (w : World)
      (reply : Reply)
      → (call_and_write env codec endpoint name space request header w).0 ≡ ok reply
      → (answer : DecisionAnswer) × (time : ℕ) × ((invoke_decision_maker env codec endpoint
            (record { state = request.state; questions = request.questions })
            w).0
          ≡ ok answer)
        × (reply ≡ answer_reply codec header (response_of codec name space time answer))
  unfolding call_and_write
  call_and_write-ok endpoint name space request header w reply h =
      elim (Result-cases
        (invoke_decision_maker env codec endpoint
          (record { state = request.state; questions = request.questions }) w).0) [
            | inl (answer, e) ↦ (
              answer,
              (env.now
                  (invoke_decision_maker env codec endpoint
                    (record { state = request.state; questions = request.questions }) w).1).0,
              e,
              ground arith,
            )
            | inr (x, e) ↦ absurd (ground arith)
          ]

  -- A decision that is answered was allowed to the caller in the namespace of the call, had a body
  -- that decodes to a request and a namespace that does not contradict it, and its answer is that of
  -- the decision maker to the state and the questions of that request.
  pub create_handler-IsDecided :
      (url namespace name : Text) (r : Request) (w : World) (reply : Reply)
      → (create_handler env codec url namespace name r w).0 ≡ ok reply
      → IsDecided url namespace name r w reply
  unfolding create_handler require_access
  create_handler-IsDecided url namespace name r w reply h =
      let (u, e, h1) =
        bind-eq-ok (require_access env codec (decision_attributes namespace) r.header) _ w h in
      let (request, e2, h2) = bind-eq-ok (lift (read_and_decode codec r)) _ _ h1 in
      let (space, e3, h3) = bind-eq-ok (lift (resolve_namespace r.path namespace request)) _ _ h2 in
      let (answer, time, made, replied) = call_and_write-ok _ _ _ request r.header _ reply h3 in
      record {
        allowed = require_access-ok env codec (decision_attributes namespace) r.header w u e;
        request = request;
        is_decoded = e2;
        space = space;
        is_resolved = e3;
        answer = answer;
        is_made = made;
        time = time;
        own_name = _;
        is_named = refl;
        is_reply = replied;
      }
