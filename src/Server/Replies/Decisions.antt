-- ===== src/Server/Replies/Decisions.antt =====
-- With which status a decision is answered, on every branch of its handler.
use api_extension.Prelude.{refl, Option, [], Result, ok, err, if◌then◌else◌, not, ◌&&◌}
use api_extension.Text.{Text, ◌==◌}
use api_extension.Http.{
  Values, Request, Reply, error, content, silent, bad_request, forbidden, not_found, bad_gateway,
  status_created,
}
use api_extension.Kube.{Backend, Codec}
use api_extension.Transaction.Handler.{sent}
use api_extension.Query.{require_access}
use api_extension.Decision.{DecisionRequest, decode_decision_request}
use api_extension.Text.Strings.{trim_space}
use api_extension.Transaction.{path_namespace}
use api_extension.Decision.Handler as Decisions
use api_extension.Decision.Handler.{decision_attributes}
use api_extension.Server.Replies.{
  Fails, continue-Sent, map_err-Fails, if-Fails, write_response-Sent, require_access-Fails,
}

module _ (P : Reply → Type 0) {World : Type 0} (env : Backend World) (codec : Codec) where
  read_and_decode-Fails :
      (r : Request)
      → ((m : Text) → P (error m bad_request))
      → Fails P (Decisions.read_and_decode codec r)
  unfolding Decisions.read_and_decode
  read_and_decode-Fails r p400 = from_body r.body
    where
      from_body :
          (b : Result Text Text)
          → Fails P (elim b [
            | err e ↦ err (error e bad_request)
            | ok body ↦ Decisions.decoded_body codec body
          ])
      from_body (err e) = p400 e
      from_body (ok body) =
          if-Fails P (trim_space body == []) _ _ (p400 _)
            (map_err-Fails P (λ e. error e bad_request) (decode_decision_request codec body) p400)

  resolve_namespace-Fails :
      (path namespace : Text) (request : DecisionRequest)
      → ((m : Text) → P (error m bad_request))
      → Fails P (Decisions.resolve_namespace path namespace request)
  unfolding Decisions.resolve_namespace
  resolve_namespace-Fails path namespace request p400 =
      let named = path_namespace namespace path in
      if-Fails P
        (not (request.namespace == []) && not (named == []) && not (request.namespace == named)) _
        (ok (if named == [] then request.namespace else named)) (p400 _) tt

  call_and_write-Sent :
      (endpoint name namespace : Text) (request : DecisionRequest) (header : Values) (w : World)
      → ((m : Text) → P (error m bad_gateway))
      → ((kind : Option Text) (body : Text) → P (content status_created kind body))
      → P silent
      → P (sent (Decisions.call_and_write env codec endpoint name namespace request header w).0)
  unfolding Decisions.call_and_write Decisions.answer_reply
  call_and_write-Sent endpoint name namespace request header w p502 good quiet =
      let asked =
        Decisions.invoke_decision_maker env codec endpoint
          (record { state = request.state; questions = request.questions }) w in
      continue-Sent P _ _ asked.1 (map_err-Fails P (λ e. error e bad_gateway) asked.0 p502)
        λ answer.
          write_response-Sent P Decisions.silent_on_err (λ reply. refl) (λ e. refl) codec
            status_created _ _ good quiet

  pub decision_access-Sent :
      (url namespace name : Text) (r : Request) (w : World)
      → Fails P (require_access env codec (decision_attributes namespace) r.header w).0
      → ((m : Text) → P (error m bad_request))
      → ((m : Text) → P (error m bad_gateway))
      → ((kind : Option Text) (body : Text) → P (content status_created kind body))
      → P silent
      → P (sent (Decisions.create_handler env codec url namespace name r w).0)
  unfolding Decisions.create_handler
  decision_access-Sent url namespace name r w access p400 p502 good quiet =
      let w₁ = (require_access env codec (decision_attributes namespace) r.header w).1 in
      continue-Sent P _ _ w₁ access λ _.
        continue-Sent P _ _ w₁ (read_and_decode-Fails r p400) λ request.
          continue-Sent P _ _ w₁ (resolve_namespace-Fails r.path namespace request p400)
            λ space. call_and_write-Sent _ _ space request r.header _ p502 good quiet

  pub decision-Sent :
      (url namespace name : Text) (r : Request) (w : World)
      → ((m : Text) → P (error m bad_request))
      → ((m : Text) → P (error m forbidden))
      → ((m : Text) → P (error m not_found))
      → ((m : Text) → P (error m bad_gateway))
      → ((kind : Option Text) (body : Text) → P (content status_created kind body))
      → P silent
      → P (sent (Decisions.create_handler env codec url namespace name r w).0)
  decision-Sent url namespace name r w p400 p403 p404 p502 good quiet =
      decision_access-Sent url namespace name r w
        (require_access-Fails P env codec (decision_attributes namespace) r.header w p404 p403) p400
        p502 good quiet
