-- ===== src/Server/History.antt =====
-- What a server guarantees over any sequence of calls of its four kinds.
use api_extension.Prelude.{ℕ, ◌≡◌, ◌≢◌, sym, ap, ◌∙◌, Option, some, List, [], ◌∷◌}
use api_extension.Text.{Text, text}
use api_extension.Http.{Request, content}
use api_extension.Kube.{Backend, Codec, RestClient}
use api_extension.Kube.Store.{Store, Frame}
use api_extension.Query.{query_key}
use api_extension.Query.Quiet
use api_extension.Count.Quiet.{list_handler-R}
use api_extension.Decision.Handler.{maker_request}
use api_extension.Decision.Quiet as Decisions
use api_extension.Transaction.{
  TransactionRequest, transaction_storage_key, parse_transaction_and_namespace, parsed,
}
use api_extension.Transaction.Commits.{create_handler-Kept}
use api_extension.Transaction.Names.{create_handler-recorded, create_handler-occupied}
use api_extension.Transaction.Handler.{create_handler}
use api_extension.Server.Serving.{Call, transaction, query, decision, count, serve, serve_all}

pub query_key-ne-transaction_storage_key :
    (name namespace name' : Text) → transaction_storage_key namespace name' ≢ query_key name
unfolding transaction_storage_key query_key text
query_key-ne-transaction_storage_key name namespace name' e = cc

-- The decision maker does not write to the store.
module _ {World : Type 0} {env : Backend World} (store : Store env)
    (maker_keeps : (endpoint body : Text) (w : World) (k : Text)
      → store.value k (env.http_do (maker_request endpoint body) w).1 ≡ store.value k w)
    (codec : Codec) (client : RestClient) (core : List Text) (url : Text) where
  -- The record of one transaction.
  abbrev record_frame : Text → Text → Text → Frame env
  record_frame namespace name v = record {
    R = λ u w.
        store.value (transaction_storage_key namespace name) u ≡ some v
        → store.value (transaction_storage_key namespace name) w ≡ some v;
    R_refl = λ w h. h;
    R_trans = λ t u w p q h. q (p h);
    rest_mapping_R = λ gvk w h. store.rest_mapping_keeps gvk w _ ∙ h;
    reset_R = λ w h. store.reset_keeps w _ ∙ h;
    review_R = λ spec w h. store.review_keeps spec w _ ∙ h;
    now_R = λ w h. store.now_keeps w _ ∙ h;
    get_R = λ k opts w h. store.get_keeps k opts w _ ∙ h;
    dry_run_R = λ r w d h. store.dry_run_keeps r w _ d ∙ h;
  }

  serve-keeps :
      (call : Call) (w : World) (namespace name v : Text)
      → store.value (transaction_storage_key namespace name) w ≡ some v
      → store.value
          (transaction_storage_key namespace name)
          (serve env codec client core url call w).1
        ≡ some v
  unfolding serve
  serve-keeps (transaction ns n r) w namespace name v =
      create_handler-Kept store codec client core ns n r w (transaction_storage_key namespace name)
        v
  serve-keeps (query ns n r) w namespace name v =
      Quiet.create_handler-R (record_frame namespace name v) codec ns n
        (λ body u h.
          store.put_other _ body u _ (query_key-ne-transaction_storage_key n namespace name) ∙ h)
        r w
  serve-keeps (decision ns n r) w namespace name v =
      Decisions.create_handler-R (record_frame namespace name v) codec
        (λ endpoint body u h. maker_keeps endpoint body u _ ∙ h) url ns n r w
  serve-keeps (count ns r) w namespace name v =
      list_handler-R (record_frame namespace name v) codec core ns r w

  -- Once a transaction is recorded, its record stays as it is through any sequence of calls: of
  -- transactions, queries, counts and decisions, whatever they ask for and however they end.
  pub serve_all-keeps :
      (calls : List Call) (w : World) (namespace name v : Text)
      → store.value (transaction_storage_key namespace name) w ≡ some v
      → store.value
          (transaction_storage_key namespace name)
          (serve_all env codec client core url calls w)
        ≡ some v
  unfolding serve_all
  serve_all-keeps [] w namespace name v h = h
  serve_all-keeps (call ∷ calls) w namespace name v h =
      serve_all-keeps calls _ namespace name v (serve-keeps call w namespace name v h)

  -- A named transaction is carried out at most once: after a transaction request of a name was
  -- answered with an object, and any sequence of calls, no transaction request of that name in that
  -- namespace is answered with an object.
  pub serve_all-once :
      (ns₁ n₁ : Text) (r₁ : Request) (w : World) (calls : List Call) (ns₂ n₂ : Text) (r₂ : Request)
      (request₁ request₂ : TransactionRequest) (space : Text)
      → parse_transaction_and_namespace codec r₁ ns₁ ≡ parsed request₁ space
      → parse_transaction_and_namespace codec r₂ ns₂ ≡ parsed request₂ space
      → request₁.name ≢ []
      → request₂.name ≡ request₁.name
      → (status₁ : ℕ) (kind₁ : Option Text) (body₁ : Text)
      → (create_handler env codec client core ns₁ n₁ r₁ w).0 ≡ content status₁ kind₁ body₁
      → (status₂ : ℕ) (kind₂ : Option Text) (body₂ : Text)
      → (create_handler env codec client core ns₂ n₂ r₂ (
          serve_all env codec client core url calls
            (create_handler env codec client core ns₁ n₁ r₁ w).1)).0
        ≢ content status₂ kind₂ body₂
  serve_all-once ns₁ n₁ r₁ w calls ns₂ n₂ r₂ request₁ request₂ space p₁ p₂ named same status₁ kind₁
        body₁ h₁ status₂ kind₂ body₂ =
      let w₁ = (create_handler env codec client core ns₁ n₁ r₁ w).1 in
      let (payload, free, stored) =
        create_handler-recorded store codec client core ns₁ n₁ r₁ w request₁ space p₁ named status₁
          kind₁ body₁ h₁ in
      let kept = serve_all-keeps calls w₁ space request₁.name payload stored in
      create_handler-occupied store codec client core ns₂ n₂ r₂
        (serve_all env codec client core url calls w₁) request₂ space payload p₂
        (λ e. named (sym same ∙ e))
        (ap
            (λ t.
              store.value (transaction_storage_key space t)
                (serve_all env codec client core url calls w₁))
            same
          ∙ kept)
        status₂ kind₂ body₂
