-- ===== src/Transaction/Created.antt =====
-- What a transaction request that is answered with its object has done.
use api_extension.Prelude.{
  ℕ, ◌≡◌, ◌≢◌, refl, sym, ap, ◌∙◌, inl, inr, true, Option, none, some, List, [], ◌∷◌, arith, All,
  Bool-cases, Result, ok, err, map_err, continue,
}
use api_extension.Text.{Text}
use api_extension.Http.{Values, Request, Reply, error, content}
use api_extension.Api.{TransactionResponse}
use api_extension.Helper.{write_response}
use api_extension.Kube.{TxnResponse, Backend, Codec, RestClient}
use api_extension.Kube.Store.{Store, Unchanged, unchanged_frame}
use api_extension.Transaction.{
  create, update, delete, TransactionRequest, transaction_storage_key, Parsed, rejected, failed,
  parsed, parse_transaction_and_namespace,
}
use api_extension.Transaction.Authorize.{transaction_authorize_all}
use api_extension.Transaction.Handler.{
  build_transaction_commit_payload, answer, transaction_commit, transaction_name, answer_commit,
  commit_and_answer, map_operations, map_and_commit, process, process_parsed, create_handler,
  response_of, sent, refusal, rejection,
}
use api_extension.Transaction.Reviews.{IsClearedEntry, transaction_authorize_all-IsCleared}
use api_extension.Transaction.Frame.{authorize_all-R, map_operations-R}
use api_extension.Transaction.Commits.{transaction_name-R}

module _ {World : Type 0} {env : Backend World} (store : Store env) (codec : Codec) where
  -- The store gained one value, under a key that was free.
  pub record IsStored (namespace name : Text) (resources : List (Text × Text)) (w w' : World)
      : Type 0 where
    pub payload : Text
    pub built : build_transaction_commit_payload codec namespace name resources ≡ ok payload
    pub absent : store.value (transaction_storage_key namespace name) w ≡ none
    pub stored : store.value (transaction_storage_key namespace name) w' ≡ some payload

  answer-status :
      (header : Values) (resp : TransactionResponse) (status : ℕ) (kind : Option Text) (body : Text)
      → sent (answer codec header resp) ≡ content status kind body
      → status ≡ 201
  unfolding answer write_response
  answer-status header resp status kind body h = ground arith

  transaction_commit-IsStored :
      (namespace name : Text) (resources : List (Text × Text)) (w : World) (resp : TxnResponse)
      → (transaction_commit env codec namespace name resources w).0 ≡ ok (some resp)
      → resp.succeeded ≡ true
      → IsStored namespace name resources w
          (transaction_commit env codec namespace name resources w).1
  unfolding transaction_commit
  transaction_commit-IsStored namespace name resources w resp h e =
      from_payload (build_transaction_commit_payload codec namespace name resources) refl h
    where
      commit : Text → World → Result Text (Option TxnResponse) × World
      commit payload =
          env.commit (record { key = transaction_storage_key namespace name; value = payload })

      from_payload :
          (b : Result Text Text)
          → build_transaction_commit_payload codec namespace name resources ≡ b
          → (continue b commit w).0 ≡ ok (some resp)
          → IsStored namespace name resources w (continue b commit w).1
      from_payload (err x) b h = cc
      from_payload (ok payload) b h =
          let (absent, stored) = store.commit_succeeded _ w resp h e in
          record { payload = payload; built = b; absent = absent; stored = stored }

  answer_commit-content :
      (namespace name : Text) (header : Values) (committed : Result Text (Option TxnResponse))
      (w : World) (status : ℕ) (kind : Option Text) (body : Text)
      → sent (answer_commit env codec namespace name header committed w).0
        ≡ content status kind body
      → (resp : TxnResponse) × (committed ≡ ok (some resp))
        × (resp.succeeded ≡ true)
        × (status ≡ 201)
        × ((answer_commit env codec namespace name header committed w).1 ≡ (env.now w).1)
  unfolding answer_commit
  answer_commit-content namespace name header (err e) w status kind body h = cc
  answer_commit-content namespace name header (ok none) w status kind body h = cc
  answer_commit-content namespace name header (ok (some resp)) w status kind body h =
      elim (Bool-cases resp.succeeded) [
        | inl e ↦
            let status' : status ≡ 201 =
              answer-status header (response_of namespace name resp.revision (env.now w).0) status
                kind body (rw e at h) in
            (resp, refl, e, status', rw e)
        | inr e ↦ let late : error _ 500 ≡ content status kind body = rw e at h in cc
      ]

  -- The resources of a request were stored in one transaction, which was named at `clock`.
  pub record IsCommitted (namespace name : Text) (request : TransactionRequest)
      (resources : List (Text × Text)) (clock w w' : World) : Type 0 where
    pub txn_name : Text
    pub some_resource : resources ≢ []
    pub named : txn_name ≡ (transaction_name env codec request name clock).0
    pub is_stored : IsStored namespace txn_name resources w w'

  IsStored-Unchanged :
      (namespace name : Text) (resources : List (Text × Text)) (t u v w : World)
      → Unchanged store t u
      → Unchanged store v w
      → IsStored namespace name resources u v
      → IsStored namespace name resources t w
  IsStored-Unchanged namespace name resources t u v w before after s = record {
    payload = s.payload;
    built = s.built;
    absent = sym (before _) ∙ s.absent;
    stored = after _ ∙ s.stored;
  }

  commit_and_answer-IsCommitted :
      (request : TransactionRequest) (namespace name : Text) (header : Values)
      (resources : List (Text × Text)) (w : World) (status : ℕ) (kind : Option Text) (body : Text)
      → sent (commit_and_answer env codec request namespace name header resources w).0
        ≡ content status kind body
      → (status ≡ 201)
        × IsCommitted namespace name request resources w w
            (commit_and_answer env codec request namespace name header resources w).1
  unfolding commit_and_answer
  commit_and_answer-IsCommitted request namespace name header [] w status kind body h = cc
  commit_and_answer-IsCommitted request namespace name header (r ∷ rs) w status kind body h =
      let w₁ = (transaction_name env codec request name w).1 in
      let txn = (transaction_name env codec request name w).0 in
      let done = transaction_commit env codec namespace txn (r ∷ rs) w₁ in
      let (resp, committed, succeeded, created, last) =
        answer_commit-content namespace txn header done.0 done.1 status kind body h in
      let named = transaction_name-R (unchanged_frame store) codec request name w in
      let s = transaction_commit-IsStored namespace txn (r ∷ rs) w₁ resp committed succeeded in
      (
        created,
        record {
          txn_name = txn;
          some_resource = cc;
          named = refl;
          is_stored =
              IsStored-Unchanged namespace txn (r ∷ rs) w w₁ done.1 _ named
                (λ k. rw last (store.now_keeps done.1 k)) s;
        },
      )

  -- A reply with content comes from the end of a chain whose early replies are errors.
  continue-content :
      {A : Type 0} (g : Text → Reply) (r : Result Text A)
      (f : A → World → Result Reply Reply × World) (w : World) {status : ℕ} {kind : Option Text}
      {body : Text}
      → ((e : Text) → g e ≢ content status kind body)
      → sent (continue (map_err g r) f w).0 ≡ content status kind body
      → (a : A) × (r ≡ ok a)
        × (sent (f a w).0 ≡ content status kind body)
        × ((continue (map_err g r) f w).1 ≡ (f a w).1)
  continue-content g (ok a) f w never h = (a, refl, h, refl)
  continue-content g (err e) f w never h = absurd (never e h)

module _ {World : Type 0} {env : Backend World} (store : Store env) (codec : Codec)
    (client : RestClient) (core : List Text) where
  -- What a request has been checked for, and what it has stored.
  pub record IsCreated (header : Values) (namespace name : Text) (request : TransactionRequest)
      (w w' : World) : Type 0 where
    pub creates : All (IsClearedEntry env codec header w create namespace) request.create
    pub updates : All (IsClearedEntry env codec header w update namespace) request.update
    pub deletes : All (IsClearedEntry env codec header w delete namespace) request.delete
    pub resources : List (Text × Text)
    pub is_mapped :
        (map_operations env codec client core request namespace
          (transaction_authorize_all env codec header request namespace w).1).0
        ≡ ok resources
    pub is_committed :
        IsCommitted store codec namespace name request resources
          (map_operations env codec client core request namespace
            (transaction_authorize_all env codec header request namespace w).1).1
          w
          w'

  process-IsCreated :
      (request : TransactionRequest) (namespace name : Text) (header : Values) (w : World)
      (status : ℕ) (kind : Option Text) (body : Text)
      → sent (process env codec client core request namespace name header w).0
        ≡ content status kind body
      → (status ≡ 201)
        × IsCreated header namespace name request w
            (process env codec client core request namespace name header w).1
  unfolding process map_and_commit
  process-IsCreated request namespace name header w status kind body h =
      let auth = transaction_authorize_all env codec header request namespace w in
      let (answers, allowed, rest, last) =
        continue-content store codec refusal auth.0
          (λ a. map_and_commit env codec client core request namespace name header) auth.1 (λ e. cc)
          h in
      let mapped = map_operations env codec client core request namespace auth.1 in
      let (resources, ready, end, last') =
        continue-content store codec rejection mapped.0
          (commit_and_answer env codec request namespace name header) mapped.1 (λ e. cc) rest in
      let (created, c) =
        commit_and_answer-IsCommitted store codec request namespace name header resources mapped.1
          status kind body end in
      let before = λ (k : Text).
        map_operations-R (unchanged_frame store) codec client core request namespace auth.1 k
        ∙ authorize_all-R (unchanged_frame store) codec header request namespace w k in
      let after = λ (k : Text). ap (λ (v : World). store.value k v) (last ∙ last') in
      let (creates, updates, deletes) =
        transaction_authorize_all-IsCleared env codec header request namespace w answers allowed in
      (
        created,
        record {
          creates = creates;
          updates = updates;
          deletes = deletes;
          resources = resources;
          is_mapped = ready;
          is_committed = record {
            txn_name = c.txn_name;
            some_resource = c.some_resource;
            named = c.named;
            is_stored =
                IsStored-Unchanged store codec namespace c.txn_name resources w mapped.1 _ _ before
                  after c.is_stored;
          };
        },
      )

  -- A transaction request that is answered with an object has been answered with the status 201. Its
  -- body and path gave a request and a namespace. Each entry of the request had no kind, or a kind
  -- that discovery did not map, or an access that the API server allowed to the caller, in a world
  -- that calls other than a commit or a put lead to from the start of the request. The entries were
  -- then mapped to at least one resource; and under the key of the namespace and of the
  -- transaction's name, which was free before, the store now holds the payload of these resources.
  pub create_handler-IsCreated :
      (namespace name : Text) (r : Request) (w : World) (status : ℕ) (kind : Option Text)
      (body : Text)
      → (create_handler env codec client core namespace name r w).0 ≡ content status kind body
      → (status ≡ 201)
        × ((request : TransactionRequest) × (space : Text) × (parse_transaction_and_namespace codec
                r namespace
              ≡ parsed request space)
            × IsCreated r.header space name request w
                (create_handler env codec client core namespace name r w).1)
  unfolding create_handler
  create_handler-IsCreated namespace name r w status kind body =
      from_parsed (parse_transaction_and_namespace codec r namespace) refl
    where
      from_parsed :
          (p : Parsed)
          → parse_transaction_and_namespace codec r namespace ≡ p
          → sent (process_parsed env codec client core name r.header p w).0
            ≡ content status kind body
          → (status ≡ 201)
            × ((request : TransactionRequest) × (space : Text) × (parse_transaction_and_namespace
                    codec r namespace
                  ≡ parsed request space)
                × IsCreated r.header space name request w
                    (process_parsed env codec client core name r.header p w).1)
      from_parsed (rejected s message) e h = cc
      from_parsed (failed x) e h = cc
      from_parsed (parsed request space) e h =
          let (created, c) = process-IsCreated request space name r.header w status kind body h in
          (created, (request, space, e, c))
