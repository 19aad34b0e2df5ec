-- ===== src/Server/Sharing.antt =====
-- What the server guarantees when other clients of the store act between the calls of its handlers.
use api_extension.Prelude.{
  ℕ, ◌≡◌, ◌≢◌, sym, ap, ◌∙◌, subst, Option, none, some, List, [], ◌∷◌, arith, All,
}
use api_extension.Text.{Text}
use api_extension.Http.{Request, Reply, content}
use api_extension.Kube.{Backend, Codec, RestClient}
use api_extension.Kube.Store.{Store}
use api_extension.Kube.Interference.{
  Shared, interrupt, shared, Keeps, Held, interrupt-Held, interrupted-Held, held_frame,
}
use api_extension.Query.Quiet
use api_extension.Count.Quiet.{list_handler-R}
use api_extension.Decision.Handler.{maker_request}
use api_extension.Decision.Quiet as Decisions
use api_extension.Transaction.{
  TransactionRequest, transaction_storage_key, parse_transaction_and_namespace, parsed,
}
use api_extension.Transaction.Handler.{create_handler}
use api_extension.Transaction.Commits.{commit-Kept, create_handler-R}
use api_extension.Transaction.Names.{transaction_name-own}
use api_extension.Transaction.Effect.{
  IsAnswer, txn, Effect, unchanged, committed, create_handler-Effect,
}
use api_extension.Transaction.Ledger.{commit-IsSuccess}
use api_extension.Server.History.{query_key-ne-transaction_storage_key}
use api_extension.Server.Serving.{Call, transaction, query, decision, count, serve, serve_all}

module _ {World : Type 0} {env : Backend World} (store : Store env) (codec : Codec)
    (client : RestClient) (core : List Text) (request : TransactionRequest) (space : Text) where
  abbrev pub Recorded : Shared World → Type 0
  Recorded s =
      (payload : Text) × (store.value (transaction_storage_key space request.name) s.0
        ≡ some payload)

  abbrev IsOwn : Text → Text → Type 0
  IsOwn namespace name = (namespace ≡ space) × (name ≡ request.name)

  abbrev Guarded : Shared World → Type 0
  Guarded s = All (Keeps store (transaction_storage_key space request.name)) s.1

  answered-once :
      (reply : Reply) (s s' : Shared World)
      → IsAnswer reply
      → Effect (held_frame store (transaction_storage_key space request.name)) IsOwn reply s s'
      → Guarded s
      → Guarded s' × Recorded s' × (Recorded s → ⊥)
  answered-once reply s s' a (unchanged n k) g = absurd (n a)
  answered-once reply s s' a (committed ns n payload u (same_space, same_name) before after h) g =
      let key = transaction_storage_key space request.name in
      let (g₁, kept₁) = before g in
      let (g₂, kept₂) = interrupt-Held store key u g₁ in
      let (free, stored) = commit-IsSuccess store ns n payload (interrupt u).0 (h a) in
      let same : transaction_storage_key ns n ≡ key =
        ap (λ t. transaction_storage_key t n) same_space
        ∙ ap (transaction_storage_key space) same_name in
      let (g₃, kept₃) = after g₂ in
      let committed_world = (env.commit (txn ns n payload) (interrupt u).0).1 in
      (
        g₃,
        (payload, kept₃ payload (ap (λ t. store.value t committed_world) (sym same) ∙ stored)),
        λ (v, there).
            let late : store.value key (interrupt u).0 ≡ some v = kept₂ v (kept₁ v there) in
            let early : store.value key (interrupt u).0 ≡ none = (rw same at free) in
            ground (arith, late, early),
      )

  pub create_handler-once :
      (namespace name : Text) (r : Request) (s : Shared World)
      → parse_transaction_and_namespace codec r namespace ≡ parsed request space
      → request.name ≢ []
      → Guarded s
      → (status : ℕ) (kind : Option Text) (body : Text)
      → (create_handler (shared env) codec client core namespace name r s).0
        ≡ content status kind body
      → let s' = (create_handler (shared env) codec client core namespace name r s).1 in
        Guarded s' × Recorded s' × (Recorded s → ⊥)
  create_handler-once namespace name r s p named g status kind body h =
      answered-once (create_handler (shared env) codec client core namespace name r s).0 s _
        (rw h tt)
        (create_handler-Effect (held_frame store (transaction_storage_key space request.name)) IsOwn
          codec client core namespace name r s
          (λ q sp v e.
            let same : q ≡ request = ground arith in
            let place : sp ≡ space = ground arith in
            let same_name : q.name ≡ request.name = ap (λ (t : TransactionRequest). t.name) same in
            (
              place,
              transaction_name-own (shared env) codec q name v (λ x. named (sym same_name ∙ x))
                  ∙ same_name,
            )))
        g

module _ {World : Type 0} {env : Backend World} (store : Store env)
    (maker_keeps : (endpoint body : Text) (w : World) (k : Text)
      → store.value k (env.http_do (maker_request endpoint body) w).1 ≡ store.value k w)
    (codec : Codec) (client : RestClient) (core : List Text) (url : Text) where
  serve-Held :
      (namespace name : Text) (call : Call) (s : Shared World)
      → Held store
          (transaction_storage_key namespace name)
          s
          (serve (shared env) codec client core url call s).1
  unfolding serve
  serve-Held namespace name (transaction ns n r) s =
      create_handler-R (held_frame store (transaction_storage_key namespace name))
        (λ ns' n' value.
          interrupted-Held store (transaction_storage_key namespace name) _
            (λ w. commit-Kept store (txn ns' n' value) w (transaction_storage_key namespace name)))
        codec client core ns n r s
  serve-Held namespace name (query ns n r) s =
      Quiet.create_handler-R (held_frame store (transaction_storage_key namespace name)) codec ns n
        (λ body. interrupted-Held store (transaction_storage_key namespace name) _ (λ w v h.
          store.put_other _ body w _ (query_key-ne-transaction_storage_key n namespace name) ∙ h))
        r s
  serve-Held namespace name (decision ns n r) s =
      Decisions.create_handler-R (held_frame store (transaction_storage_key namespace name)) codec
        (λ endpoint body.
          interrupted-Held store (transaction_storage_key namespace name) _
            (λ w v h. maker_keeps endpoint body w _ ∙ h))
        url ns n r s
  serve-Held namespace name (count ns r) s =
      list_handler-R (held_frame store (transaction_storage_key namespace name)) codec core ns r s

  serve_all-Held :
      (namespace name : Text) (calls : List Call) (s : Shared World)
      → Held store
          (transaction_storage_key namespace name)
          s
          (serve_all (shared env) codec client core url calls s)
  unfolding serve_all
  serve_all-Held namespace name [] s k = (k, λ v h. h)
  serve_all-Held namespace name (call ∷ calls) s k =
      let (k₁, h₁) = serve-Held namespace name call s k in
      let (k₂, h₂) =
        serve_all-Held namespace name calls (serve (shared env) codec client core url call s).1
          k₁ in
      (k₂, λ v h. h₂ v (h₁ v h))

  -- A record of a transaction stays as it is through any sequence of calls, also when others act
  -- between the calls that a handler makes of the store and of the API server, as long as no step of
  -- the others changes that record.
  pub serve_all-retains :
      (calls : List Call) (w : World) (steps : List (World → World)) (namespace name v : Text)
      → All (Keeps store (transaction_storage_key namespace name)) steps
      → store.value (transaction_storage_key namespace name) w ≡ some v
      → store.value
          (transaction_storage_key namespace name)
          (serve_all (shared env) codec client core url calls (w, steps)).0
        ≡ some v
  serve_all-retains calls w steps namespace name v g h =
      (serve_all-Held namespace name calls (w, steps) g).1 v h

  -- A named transaction is carried out at most once, also when others act between the calls of the
  -- handlers: after a transaction request of a name was answered with an object, and any sequence of
  -- calls, no transaction request of that name in that namespace is answered with an object, as long
  -- as no step of the others changes the record of that transaction.
  pub serve_all-unrepeated :
      (ns₁ n₁ : Text) (r₁ : Request) (s : Shared World) (calls : List Call) (ns₂ n₂ : Text)
      (r₂ : Request) (request₁ request₂ : TransactionRequest) (space : Text)
      → parse_transaction_and_namespace codec r₁ ns₁ ≡ parsed request₁ space
      → parse_transaction_and_namespace codec r₂ ns₂ ≡ parsed request₂ space
      → request₁.name ≢ []
      → request₂.name ≡ request₁.name
      → All (Keeps store (transaction_storage_key space request₁.name)) s.1
      → (status₁ : ℕ) (kind₁ : Option Text) (body₁ : Text)
      → (create_handler (shared env) codec client core ns₁ n₁ r₁ s).0 ≡ content status₁ kind₁ body₁
      → (status₂ : ℕ) (kind₂ : Option Text) (body₂ : Text)
      → (create_handler (shared env) codec client core ns₂ n₂ r₂ (
          serve_all
            (shared env)
            codec
            client
            core
            url
            calls
            (create_handler (shared env) codec client core ns₁ n₁ r₁ s).1)).0
        ≢ content status₂ kind₂ body₂
  serve_all-unrepeated ns₁ n₁ r₁ s calls ns₂ n₂ r₂ request₁ request₂ space p₁ p₂ named same g
        status₁ kind₁ body₁ h₁ status₂ kind₂ body₂ h₂ =
      let s₁ = (create_handler (shared env) codec client core ns₁ n₁ r₁ s).1 in
      let s₂ = serve_all (shared env) codec client core url calls s₁ in
      let (g₁, (payload, stored), fresh) =
        create_handler-once store codec client core request₁ space ns₁ n₁ r₁ s p₁ named g status₁
          kind₁ body₁ h₁ in
      let (g₂, kept) = serve_all-Held space request₁.name calls s₁ g₁ in
      let key : transaction_storage_key space request₁.name
          ≡ transaction_storage_key space request₂.name =
        ap (transaction_storage_key space) (sym same) in
      let again =
        create_handler-once store codec client core request₂ space ns₂ n₂ r₂ s₂ p₂
          (λ e. named (sym same ∙ e)) (subst (λ k. All (Keeps store k) s₂.1) key g₂) status₂ kind₂
          body₂ h₂ in
      again.2 (payload, ap (λ t. store.value t s₂.0) (sym key) ∙ kept payload stored)
