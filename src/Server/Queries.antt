-- ===== src/Server/Queries.antt =====
-- What the calls of the server do to a query that is stored.
use api_extension.Prelude.{◌≡◌, ◌≢◌, sym, ◌∙◌, refl, some, List, [], ◌∷◌, All, ok}
use api_extension.Text.{Text, text}
use api_extension.Http.{Request, Reply}
use api_extension.Kube.{Backend, Codec, RestClient}
use api_extension.Kube.Store.{Store, Frame}
use api_extension.Query.{query_key, create_handler}
use api_extension.Query.Quiet
use api_extension.Query.Overwrites.{create_handler-stored}
use api_extension.Count.Quiet.{list_handler-R}
use api_extension.Decision.Handler.{maker_request}
use api_extension.Decision.Quiet as Decisions
use api_extension.Transaction.Commits.{create_handler-foreign}
use api_extension.Server.Serving.{Call, query, transaction, decision, count, serve, serve_all}
use api_extension.Server.History.{query_key-ne-transaction_storage_key}

query_key-injective : (name name' : Text) → query_key name ≡ query_key name' → name ≡ name'
unfolding query_key text
query_key-injective name name' h = cc

-- A call that is no query of this name, in whichever namespace.
abbrev pub IsElsewhere : Text → Call → Type 0
IsElsewhere name (query namespace other r) = other ≢ name
IsElsewhere name call = Unit

-- The decision maker does not write to the store.
module _ {World : Type 0} {env : Backend World} (store : Store env)
    (maker_keeps : (endpoint body : Text) (w : World) (k : Text)
      → store.value k (env.http_do (maker_request endpoint body) w).1 ≡ store.value k w)
    (codec : Codec) (client : RestClient) (core : List Text) (url : Text) where
  -- The value under one key.
  abbrev key_frame : Text → Frame env
  key_frame k = record {
    R = λ u w. store.value k w ≡ store.value k u;
    R_refl = λ w. refl;
    R_trans = λ t u w p q. q ∙ p;
    rest_mapping_R = λ gvk w. store.rest_mapping_keeps gvk w k;
    reset_R = λ w. store.reset_keeps w k;
    review_R = λ spec w. store.review_keeps spec w k;
    now_R = λ w. store.now_keeps w k;
    get_R = λ j opts w. store.get_keeps j opts w k;
    dry_run_R = λ r w d. store.dry_run_keeps r w k d;
  }

  serve-elsewhere :
      (name : Text) (call : Call) (w : World)
      → IsElsewhere name call
      → store.value (query_key name) (serve env codec client core url call w).1
        ≡ store.value (query_key name) w
  unfolding serve
  serve-elsewhere name (transaction ns n r) w h =
      create_handler-foreign store codec client core ns n r w (query_key name)
        (λ space other e. query_key-ne-transaction_storage_key name space other (sym e))
  serve-elsewhere name (query ns n r) w h =
      Quiet.create_handler-R (key_frame (query_key name)) codec ns n
        (λ body u. store.put_other _ body u _ (λ e. h (sym (query_key-injective name n e)))) r w
  serve-elsewhere name (decision ns n r) w h =
      Decisions.create_handler-R (key_frame (query_key name)) codec
        (λ endpoint body u. maker_keeps endpoint body u _) url ns n r w
  serve-elsewhere name (count ns r) w h =
      list_handler-R (key_frame (query_key name)) codec core ns r w

  serve_all-elsewhere :
      (name : Text) (calls : List Call) (w : World)
      → All (IsElsewhere name) calls
      → store.value (query_key name) (serve_all env codec client core url calls w)
        ≡ store.value (query_key name) w
  unfolding serve_all
  serve_all-elsewhere name [] w h = refl
  serve_all-elsewhere name (call ∷ calls) w (h, hs) =
      serve_all-elsewhere name calls _ hs ∙ serve-elsewhere name call w h

  -- After a query was answered with success and any sequence of calls of the four kinds, however they
  -- end, with no further query of that name in any namespace, the store holds the body of the query
  -- under the key of its name, provided that the calls of the decision maker do not write to the store.
  pub serve_all-stored :
      (namespace name : Text) (r : Request) (w : World) (calls : List Call) (reply : Reply)
      → (create_handler env codec namespace name r w).0 ≡ ok reply
      → All (IsElsewhere name) calls
      → (body : Text) × (r.body ≡ ok body)
        × (store.value (query_key name) (
              serve_all env codec client core url calls
                (create_handler env codec namespace name r w).1)
            ≡ some body)
  serve_all-stored namespace name r w calls reply h elsewhere =
      let (body, q, answered, allowed, stored) =
        create_handler-stored store codec namespace name r w reply h in
      (body, q.0, serve_all-elsewhere name calls _ elsewhere ∙ stored)
