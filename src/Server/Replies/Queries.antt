-- ===== src/Server/Replies/Queries.antt =====
-- With which status a query is answered, on every branch of its handler.
use api_extension.Prelude.{
  ℕ, ◌≡◌, inl, inr, refl, Option, none, Result, ok, err, arith, Result-cases,
}
use api_extension.Text.{Text, text}
use api_extension.Http.{
  Request, Reply, error, content, bad_request, forbidden, not_found, internal_server_error,
  status_created,
}
use api_extension.Kube.{Backend, Codec}
use api_extension.Transaction.Handler.{sent}
use api_extension.Query.{
  check_review, require_access, put_body, parse_query_request_body, error_of, created_minimal,
}
use api_extension.Query as Query
use api_extension.Server.Replies.{Fails, continue-Sent, map_err-Fails, require_access-Fails}

module _ (P : Reply → Type 0) {World : Type 0} (env : Backend World) (codec : Codec) where
  bad_body :
      (r : Request) (e : ℕ × Text) → parse_query_request_body codec r ≡ err e → e.0 ≡ bad_request
  unfolding parse_query_request_body
  bad_body r e h = elim (Result-cases r.body) [
    | inl (body, q) ↦ elim (Result-cases (codec.unmarshal_map body)) [
      | inl (m, q') ↦ ground arith
      | inr (x, q') ↦ ground arith
    ]
    | inr (x, q) ↦ ground arith
  ]

  put_body-Sent :
      (name : Text) (r : Result (ℕ × Text) Text) (w : World)
      → ((e : ℕ × Text) → r ≡ err e → e.0 ≡ bad_request)
      → ((m : Text) → P (error m bad_request))
      → ((m : Text) → P (error m internal_server_error))
      → ((kind : Option Text) (body : Text) → P (content status_created kind body))
      → P (sent (put_body env codec name r w).0)
  unfolding created_minimal
  put_body-Sent name (err e) w bad p400 p500 good = rw (bad e refl) (p400 e.1)
  put_body-Sent name (ok body) w bad p400 p500 good =
      continue-Sent P _ _ _
        (map_err-Fails P (λ e. error e internal_server_error)
          (env.put (Query.query_key name) body w).0 p500)
        λ _. good none (text "{}")

  pub query_access-Sent :
      (namespace name : Text) (r : Request) (w : World)
      → Fails P (require_access env codec (Query.query_attributes namespace) r.header w).0
      → ((m : Text) → P (error m bad_request))
      → ((m : Text) → P (error m internal_server_error))
      → ((kind : Option Text) (body : Text) → P (content status_created kind body))
      → P (sent (Query.create_handler env codec namespace name r w).0)
  unfolding Query.create_handler
  query_access-Sent namespace name r w access p400 p500 good =
      continue-Sent P _ _ _ access
        λ _. put_body-Sent name (parse_query_request_body codec r) _ (bad_body r) p400 p500 good

  pub query-Sent :
      (namespace name : Text) (r : Request) (w : World)
      → ((m : Text) → P (error m bad_request))
      → ((m : Text) → P (error m forbidden))
      → ((m : Text) → P (error m not_found))
      → ((m : Text) → P (error m internal_server_error))
      → ((kind : Option Text) (body : Text) → P (content status_created kind body))
      → P (sent (Query.create_handler env codec namespace name r w).0)
  query-Sent namespace name r w p400 p403 p404 p500 good =
      query_access-Sent namespace name r w
        (require_access-Fails P env codec (Query.query_attributes namespace) r.header w p404 p403)
        p400 p500 good
