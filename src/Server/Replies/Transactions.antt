-- ===== src/Server/Replies/Transactions.antt =====
-- With which status a transaction is answered, on every branch of its handler.
use api_extension.Prelude.{
  ℕ, Bool, true, false, ◌≡◌, inl, inr, refl, Option, none, some, List, [], ◌∷◌, Result, ok, err,
  if◌then◌else◌, arith, Result-cases,
}
use api_extension.Text.{Text, text}
use api_extension.Http.{
  Values, Request, Reply, error, content, silent, bad_request, forbidden, internal_server_error,
  status_created,
}
use api_extension.Kube.{Backend, Codec, RestClient, TxnResponse}
use api_extension.Helper.{write_response}
use api_extension.Transaction.Handler.{sent}
use api_extension.Transaction.{
  TransactionRequest, parse_transaction_and_namespace, Parsed, rejected, failed, parsed,
  decode_transaction_request,
}
use api_extension.Api.{TransactionResponse}
use api_extension.Transaction.Authorize.{transaction_authorize_all}
use api_extension.Transaction.Handler as Transactions
use api_extension.Transaction.Handler.{
  check_commit, answer_commit, commit_and_answer, map_operations, map_and_commit, process,
  process_parsed, transaction_commit, transaction_name, rejection, refusal,
}
use api_extension.Server.Replies.{Fails, IsEnd, continue-Sent, map_err-Fails, end-Sent}

module _ (P : Reply → Type 0) {World : Type 0} (env : Backend World) (codec : Codec) where
  transaction_answer-IsEnd :
      (header : Values) (resp : TransactionResponse)
      → IsEnd P status_created (sent (Transactions.answer codec header resp))
  unfolding Transactions.answer write_response
  transaction_answer-IsEnd header resp = ground arith

  check_commit-Fails :
      (r : Result Text (Option TxnResponse))
      → ((m : Text) → P (error m internal_server_error))
      → Fails P (check_commit r)
  unfolding check_commit
  check_commit-Fails (err e) p500 = p500 _
  check_commit-Fails (ok none) p500 = p500 _
  check_commit-Fails (ok (some resp)) p500 = unless resp.succeeded
    where
      unless :
          (b : Bool)
          → Fails P (if b then ok resp else err (Transactions.internal (text "transaction failed")))
      unless true = tt
      unless false = p500 _

  commit_and_answer-Sent :
      (request : TransactionRequest) (namespace name : Text) (header : Values)
      (resources : List (Text × Text)) (w : World)
      → ((m : Text) → P (error m bad_request))
      → ((m : Text) → P (error m internal_server_error))
      → ((kind : Option Text) (body : Text) → P (content status_created kind body))
      → P silent
      → P (sent (commit_and_answer env codec request namespace name header resources w).0)
  unfolding commit_and_answer answer_commit
  commit_and_answer-Sent request namespace name header [] w p400 p500 good quiet = p400 _
  commit_and_answer-Sent request namespace name header (r ∷ rs) w p400 p500 good quiet =
      let named = transaction_name env codec request name w in
      let committed = transaction_commit env codec namespace named.0 (r ∷ rs) named.1 in
      continue-Sent P _ _ committed.1 (check_commit-Fails committed.0 p500)
        λ resp. end-Sent P status_created _ (transaction_answer-IsEnd header _) p500 good quiet

  module _ (client : RestClient) (core : List Text) where
    process-Sent :
        (request : TransactionRequest) (namespace name : Text) (header : Values) (w : World)
        → ((m : Text) → P (error m bad_request))
        → ((m : Text) → P (error m forbidden))
        → ((m : Text) → P (error m internal_server_error))
        → ((kind : Option Text) (body : Text) → P (content status_created kind body))
        → P silent
        → P (sent (process env codec client core request namespace name header w).0)
    unfolding process map_and_commit
    process-Sent request namespace name header w p400 p403 p500 good quiet =
        let cleared = transaction_authorize_all env codec header request namespace w in
        continue-Sent P _ _ cleared.1 (map_err-Fails P refusal cleared.0 (λ e. p403 _)) λ _.
          let mapped = map_operations env codec client core request namespace cleared.1 in
          continue-Sent P _ _ mapped.1 (map_err-Fails P rejection mapped.0 p400) λ resources.
            commit_and_answer-Sent request namespace name header resources mapped.1 p400 p500 good
              quiet

    rejected-bad_request :
        (r : Request) (namespace : Text) (status : ℕ) (message : Text)
        → parse_transaction_and_namespace codec r namespace ≡ rejected status message
        → status ≡ bad_request
    unfolding parse_transaction_and_namespace
    rejected-bad_request r namespace status message h = elim (Result-cases r.body) [
      | inl (body, q) ↦ elim (Result-cases (decode_transaction_request codec body)) [
        | inl (m, q') ↦ ground arith
        | inr (x, q') ↦ ground arith
      ]
      | inr (x, q) ↦ ground arith
    ]

    pub transaction-Sent :
        (namespace name : Text) (r : Request) (w : World)
        → ((m : Text) → P (error m bad_request))
        → ((m : Text) → P (error m forbidden))
        → ((m : Text) → P (error m internal_server_error))
        → ((kind : Option Text) (body : Text) → P (content status_created kind body))
        → P silent
        → P (Transactions.create_handler env codec client core namespace name r w).0
    unfolding Transactions.create_handler
    transaction-Sent namespace name r w p400 p403 p500 good quiet =
        from_parsed (parse_transaction_and_namespace codec r namespace)
          (rejected-bad_request r namespace)
      where
        from_parsed :
            (p : Parsed)
            → ((status : ℕ) (message : Text) → p ≡ rejected status message → status ≡ bad_request)
            → P (sent (process_parsed env codec client core name r.header p w).0)
        from_parsed (rejected status message) h = rw (h status message refl) (p400 message)
        from_parsed (failed e) h = p400 e
        from_parsed (parsed request space) h =
            process-Sent request space name r.header w p400 p403 p500 good quiet
