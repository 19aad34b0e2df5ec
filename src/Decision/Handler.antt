-- ===== src/Decision/Handler.antt =====
-- internal/apiserver/decision.go: the call to the decision maker, and the handler of
-- getDecisionHandler.
use api_extension.Prelude.{
  ℕ, ◌++◌, Bool, Option, none, some, not, ◌&&◌, ◌||◌, [], ◌∷◌, if◌then◌else◌, ltb, leb, Result, ok,
  err, and_then, map_err, Exec, pure, lift, with_err, ◌>>=◌, ◌>>◌,
}
use api_extension.Text.{Text, text, ◌==◌}
use api_extension.Text.Strings.{trim_space, decimal}
use api_extension.Value.{Value, null, Fields, end, field, object, string, is_empty}
use api_extension.Http.{
  Values, Request, Reply, error, silent, ClientRequest, ClientResponse, status_created, bad_request,
  bad_gateway,
}
use api_extension.Api.{decision}
use api_extension.Kube.{Attributes, DecisionCall, DecisionAnswer, Backend, Codec}
use api_extension.Helper.{response_content, write_response}
use api_extension.Server.{group, version}
use api_extension.Query.{require_access}
use api_extension.Transaction.{path_namespace}
use api_extension.Decision.{DecisionRequest, decode_decision_request}

unfoldable pub default_decision_maker_url : Text
default_decision_maker_url = text "http://127.0.0.1:8088/system-one"

-- The endpoint that getDecisionHandler calls.
unfoldable pub endpoint_of : Text → Text
endpoint_of url = if trim_space url == [] then default_decision_maker_url else trim_space url

-- The access that a decision needs, in the namespace of the call.
unfoldable pub decision_attributes : Text → Attributes
decision_attributes namespace = record {
  namespace = namespace;
  verb = text "create";
  group = group;
  version = [];
  resource = text "decisionrequests";
}

-- readAndDecode
abbrev pub decoded_body : Codec → Text → Result Reply DecisionRequest
decoded_body codec body =
    if trim_space body == []
    then err (error (text "empty body") bad_request)
    else map_err (λ e. error e bad_request) (decode_decision_request codec body)

unfoldable pub read_and_decode : Codec → Request → Result Reply DecisionRequest
read_and_decode codec r = elim r.body [
  | err e ↦ err (error e bad_request)
  | ok body ↦ decoded_body codec body
]

-- The namespace of resolveNamespaceAndName.
unfoldable pub resolve_namespace : Text → Text → DecisionRequest → Result Reply Text
resolve_namespace path namespace request =
    let named = path_namespace namespace path in
    if not (request.namespace == []) && not (named == []) && not (request.namespace == named)
    then err (error (text "metadata.namespace does not match request namespace") bad_request)
    else ok (if named == [] then request.namespace else named)

-- A status from 200 to 299.
unfoldable pub is_success : ℕ → Bool
is_success code = not (ltb code 200 || leb 300 code)

unfoldable pub maker_error : Codec → ℕ → Text → Text
maker_error codec code body =
    text "decision maker returned "
    ++ decimal code
    ++ text ": "
    ++ (if trim_space body == [] then codec.status_text code else trim_space body)

abbrev some_answers : DecisionAnswer → Result Text DecisionAnswer
some_answers answer =
    if is_empty answer.answers then err (text "decision maker returned no answers") else ok answer

-- What is made of the decision maker's response.
unfoldable pub read_answer : Codec → ClientResponse → Result Text DecisionAnswer
unfolding is_success
read_answer codec response =
    and_then (map_err (λ e. text "read decision maker response: " ++ e) response.body) λ body.
      if is_success response.status_code
      then and_then
          (map_err (λ e. text "decode decision maker response: " ++ e)
            (codec.unmarshal_answer body))
          some_answers
      else err (maker_error codec response.status_code body)

unfoldable pub maker_request : Text → Text → ClientRequest
maker_request endpoint body = record {
  method = text "POST";
  endpoint = endpoint;
  path = [];
  query = [];
  header =
      (text "Content-Type", text "application/json" ∷ [])
      ∷ (text "Accept", text "application/json" ∷ [])
      ∷ [];
  body = body;
}

-- A map in a document: one that is nil is written as null.
abbrev or_null : Option Fields → Value
or_null none = null
or_null (some m) = object m

-- The object of the answer.
unfoldable pub response_of : Codec → Text → Text → ℕ → DecisionAnswer → Fields
response_of codec name namespace time answer =
    field (text "apiVersion") (string (group ++ text "/" ++ version)) (
      field (text "kind") (string (text "DecisionResponse")) (
        field (text "metadata")
          (object (
            field (text "name") (string name) (
              field (text "namespace") (string namespace)
                (field (text "creationTimestamp") (string (codec.format_time time)) end))))
          (field (text "spec")
            (object (
              field (text "answers") (object answer.answers)
                (field (text "usage") (or_null answer.usage) end)))
            end)))

abbrev pub silent_on_err : Result Text Reply → Reply
silent_on_err (ok reply) = reply
silent_on_err (err e) = silent

unfoldable pub answer_reply : Codec → Values → Fields → Reply
answer_reply codec header resp =
    silent_on_err (write_response codec status_created (decision resp) (response_content header).0)

module _ {World : Type 0} (env : Backend World) (codec : Codec) where
  -- invokeDecisionMakerHTTP
  unfoldable pub invoke_decision_maker : Text → DecisionCall → Exec World Text DecisionAnswer
  invoke_decision_maker endpoint call = do
    body ← lift (map_err (λ e. text "marshal decision request: " ++ e) (codec.json_call call))
    lift (map_err (λ e. text "build decision maker request: " ++ e) (codec.new_request endpoint))
    response ←
        with_err (λ e. text "call decision maker: " ++ e)
          (env.http_do (maker_request endpoint body))
    lift (read_answer codec response)

  -- The name of resolveNamespaceAndName.
  unfoldable pub decision_name : DecisionRequest → Text → World → Text × World
  decision_name request name w =
      if not (request.name == [])
      then (request.name, w)
      else if not (name == [])
      then (name, w)
      else (text "decision-" ++ decimal (env.now w).0, (env.now w).1)

  -- callAndWrite
  unfoldable pub call_and_write :
      Text → Text → Text → DecisionRequest → Values → Exec World Reply Reply
  call_and_write endpoint name namespace request header = do
    answer ←
        with_err (λ e. error e bad_gateway)
          (invoke_decision_maker endpoint
            (record { state = request.state; questions = request.questions }))
    time ← (λ w. (ok (env.now w).0, (env.now w).1))
    pure (answer_reply codec header (response_of codec name namespace time answer))

  -- The CreateHandler of getDecisionHandler.
  unfoldable pub create_handler : Text → Text → Text → Request → Exec World Reply Reply
  create_handler url namespace name r = do
    require_access env codec (decision_attributes namespace) r.header
    request ← lift (read_and_decode codec r)
    space ← lift (resolve_namespace r.path namespace request)
    own_name ← (λ w. (ok (decision_name request name w).0, (decision_name request name w).1))
    call_and_write (endpoint_of url) own_name space request r.header
