-- ===== src/Server/Replies.antt =====
-- With which status the server answers: what the four handlers share.
pub mod Queries
pub mod Counts
pub mod Decisions
pub mod Transactions
pub mod Contract
pub mod Denied
use api_extension.Prelude.{
  ℕ, Bool, true, false, ◌≡◌, ◌⊎◌, inl, inr, refl, Option, none, some, List, [], ◌∷◌, Result, ok,
  err, map_err, and_then, Exec, continue, if◌then◌else◌, arith, Result-cases, pure, fail, lift,
  with_err, ◌>>=◌, ◌++◌, not, ◌&&◌,
}
use api_extension.Text.{Text, text, ◌==◌}
use api_extension.Http.{
  Values, Request, Reply, error, content, silent, bad_request, forbidden, not_found,
  internal_server_error, bad_gateway, status_created, status_ok,
}
use api_extension.Api.{Container}
use api_extension.Kube.{Attributes, Backend, Codec, RestClient, Mapping, GetResponse, TxnResponse}
use api_extension.Helper.{write_response, is_yaml, table_response, response_content}
use api_extension.Transaction.Handler.{sent}
use api_extension.Query.{
  check_review, require_access, put_body, parse_query_request_body, error_of, created_minimal,
}
use api_extension.Api.{CountResponse}
use api_extension.Http.{get}
use api_extension.Helper.{get_resource}
use api_extension.Count.{Selection, parse_field_selectors, parse_gvk}
use api_extension.Decision.{DecisionRequest, decode_decision_request}
use api_extension.Text.Strings.{trim_space}
use api_extension.Transaction.{
  TransactionRequest, path_namespace, parse_transaction_and_namespace, Parsed, rejected, failed,
  parsed, decode_transaction_request,
}
use api_extension.Api.{TransactionResponse}
use api_extension.Transaction.Authorize.{transaction_authorize_all}
use api_extension.Transaction.Handler.{
  check_commit, answer_commit, commit_and_answer, map_operations, map_and_commit, process,
  process_parsed, transaction_commit, transaction_name, rejection, refusal,
}
use api_extension.Decision.Handler.{decision_attributes}
use api_extension.Count.Handler.{count_attributes, count_prefix, count_options}

module _ (P : Reply → Type 0) where
  -- A property of the reply of a step, if it fails.
  abbrev pub Fails : {A : Type 0} → Result Reply A → Type 0
  Fails (ok a) = Unit {0}
  Fails (err e) = P e

  -- The rest of a chain decides when the first step succeeds.
  pub continue-Sent :
      {W A : Type 0} (r : Result Reply A) (f : A → Exec W Reply Reply) (w : W)
      → Fails r
      → ((a : A) → P (sent (f a w).0))
      → P (sent (continue r f w).0)
  continue-Sent (ok a) f w h k = k a
  continue-Sent (err e) f w h k = h

  pub and_then-Sent :
      {A : Type 0} (r : Result Reply A) (f : A → Result Reply Reply)
      → Fails r
      → ((a : A) → P (sent (f a)))
      → P (sent (and_then r f))
  and_then-Sent (ok a) f h k = k a
  and_then-Sent (err e) f h k = h

  pub map_err-Fails :
      {E A : Type 0} (g : E → Reply) (r : Result E A) → ((e : E) → P (g e)) → Fails (map_err g r)
  map_err-Fails g (ok a) h = tt
  map_err-Fails g (err e) h = h e

  pub if-Fails :
      {A : Type 0} (b : Bool) (e : Reply) (r : Result Reply A)
      → P e
      → Fails r
      → Fails (if b then err e else r)
  if-Fails true e r h k = h
  if-Fails false e r h k = k

  -- The three ways in which a handler ends that has what it answers.
  abbrev pub IsEnd : ℕ → Reply → Type 0
  IsEnd status (error m s) = s ≡ internal_server_error
  IsEnd status (content s kind body) = s ≡ status
  IsEnd status silent = Unit {0}

  pub end-Sent :
      (status : ℕ) (reply : Reply)
      → IsEnd status reply
      → ((m : Text) → P (error m internal_server_error))
      → ((kind : Option Text) (body : Text) → P (content status kind body))
      → P silent
      → P reply
  end-Sent status (error m s) h p500 good quiet = rw h (p500 m)
  end-Sent status (content s kind body) h p500 good quiet = rw h (good kind body)
  end-Sent status silent h p500 good quiet = quiet

  pub if-Sent :
      {W : Type 0} (b : Bool) (m n : Exec W Reply Reply) (w : W)
      → P (sent (m w).0)
      → P (sent (n w).0)
      → P (sent ((if b then m else n) w).0)
  if-Sent true m n w h k = h
  if-Sent false m n w h k = k

  -- A response that was written, or nothing where it could not be encoded.
  written-Sent :
      (silenced : Result Text Reply → Reply)
      → ((reply : Reply) → silenced (ok reply) ≡ reply)
      → ((e : Text) → silenced (err e) ≡ silent)
      → (status : ℕ) → ((kind : Option Text) (body : Text) → P (content status kind body))
      → P silent
      → (b : Bool) (yaml json : Result Text Text) (k l : Option Text)
      → P (
          silenced (
            if b
            then and_then yaml (λ raw. ok (content status k raw))
            else and_then json (λ raw. ok (content status l raw))))
  written-Sent silenced h q status good quiet true (ok raw) json k l =
      rw (h (content status k raw)) (good k raw)
  written-Sent silenced h q status good quiet true (err e) json k l = rw (q e) quiet
  written-Sent silenced h q status good quiet false yaml (ok raw) k l =
      rw (h (content status l raw)) (good l raw)
  written-Sent silenced h q status good quiet false yaml (err e) k l = rw (q e) quiet

  pub write_response-Sent :
      (silenced : Result Text Reply → Reply)
      → ((reply : Reply) → silenced (ok reply) ≡ reply)
      → ((e : Text) → silenced (err e) ≡ silent)
      → (codec : Codec) (status : ℕ) (container : Container) (content_type : Text)
      → ((kind : Option Text) (body : Text) → P (content status kind body))
      → P silent
      → P (silenced (write_response codec status container content_type))
  unfolding write_response
  write_response-Sent silenced h q codec status container content_type good quiet =
      written-Sent silenced h q status good quiet (is_yaml content_type)
        (codec.yaml_container container) (codec.json_container container)
        (some (text "application/yaml")) (some (text "application/json"))

  pub check_review-Fails :
      (r : Result Text Bool)
      → ((m : Text) → P (error m not_found))
      → ((m : Text) → P (error m forbidden))
      → Fails (check_review r)
  check_review-Fails (err e) p404 p403 = p404 _
  check_review-Fails (ok true) p404 p403 = tt
  check_review-Fails (ok false) p404 p403 = p403 _

  module _ {World : Type 0} (env : Backend World) (codec : Codec) where
    pub require_access-Fails :
        (a : Attributes) (header : Values) (w : World)
        → ((m : Text) → P (error m not_found))
        → ((m : Text) → P (error m forbidden))
        → Fails (require_access env codec a header w).0
    unfolding require_access
    require_access-Fails a header w = check_review-Fails _
