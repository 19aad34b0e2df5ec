-- ===== src/Server/Replies/Contract.antt =====
-- With which status each kind of the server answers.
use api_extension.Prelude.{ℕ, ◌≡◌, ◌⊎◌, inl, inr, refl, List, [], ◌∷◌}
use api_extension.Text.{Text}
use api_extension.Http.{
  Reply, error, content, silent, bad_request, forbidden, not_found, internal_server_error,
  bad_gateway, status_created, status_ok,
}
use api_extension.Kube.{Backend, Codec, RestClient}
use api_extension.Server.Serving.{Call, transaction, query, decision, count, serve}
use api_extension.Server.Replies.Queries.{query-Sent}
use api_extension.Server.Replies.Counts.{count-Sent}
use api_extension.Server.Replies.Decisions.{decision-Sent}
use api_extension.Server.Replies.Transactions.{transaction-Sent}

abbrev pub OneOf : ℕ → List ℕ → Type 0
OneOf status [] = ⊥
OneOf status (code ∷ codes) = (status ≡ code) ⊎ OneOf status codes

-- An error with one of the codes, an answer with one status, or nothing.
abbrev pub IsReply : List ℕ → ℕ → Reply → Type 0
IsReply codes status (error message code) = OneOf code codes
IsReply codes status (content code kind body) = code ≡ status
IsReply codes status silent = Unit {0}

-- What each kind may answer.
abbrev pub Contract : Call → Reply → Type 0
Contract (transaction namespace name r) =
    IsReply (bad_request ∷ forbidden ∷ internal_server_error ∷ []) status_created
Contract (query namespace name r) =
    IsReply (bad_request ∷ forbidden ∷ not_found ∷ internal_server_error ∷ []) status_created
Contract (decision namespace name r) =
    IsReply (bad_request ∷ forbidden ∷ not_found ∷ bad_gateway ∷ []) status_created
Contract (count namespace r) =
    IsReply (bad_request ∷ forbidden ∷ not_found ∷ internal_server_error ∷ []) status_ok

module _ {World : Type 0} (env : Backend World) (codec : Codec) (client : RestClient)
    (core : List Text) (url : Text) where
  -- Whatever is called and whatever the rest of the world answers, each kind keeps to its contract. A
  -- transaction ends with 201, 400, 403 or 500; a query with 201, 400, 403, 404 or 500; a decision with
  -- 201, 400, 403, 404 or 502; a count with 200, 400, 403, 404 or 500. Or the handler returns before it
  -- writes.
  pub serve-Contract :
      (call : Call) (w : World) → Contract call (serve env codec client core url call w).0
  unfolding serve
  serve-Contract (transaction ns n r) w =
      transaction-Sent (Contract (transaction ns n r)) env codec client core ns n r w
        (λ m. inl refl) (λ m. inr (inl refl)) (λ m. inr (inr (inl refl))) (λ kind body. refl) tt
  serve-Contract (query ns n r) w =
      query-Sent (Contract (query ns n r)) env codec ns n r w (λ m. inl refl) (λ m. inr (inl refl))
        (λ m. inr (inr (inl refl))) (λ m. inr (inr (inr (inl refl)))) (λ kind body. refl)
  serve-Contract (decision ns n r) w =
      decision-Sent (Contract (decision ns n r)) env codec url ns n r w (λ m. inl refl)
        (λ m. inr (inl refl)) (λ m. inr (inr (inl refl))) (λ m. inr (inr (inr (inl refl))))
        (λ kind body. refl) tt
  serve-Contract (count ns r) w =
      count-Sent (Contract (count ns r)) env codec core ns r w (λ m. inl refl) (λ m. inr (inl refl))
        (λ m. inr (inr (inl refl))) (λ m. inr (inr (inr (inl refl)))) (λ kind body. refl) tt
