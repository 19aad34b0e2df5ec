-- ===== src/Transaction/Effect.antt =====
-- What a transaction request does, on every branch of its handler: it commits nothing, or once, and
-- its other calls keep every relation that the calls of discovery, of access reviews, of dry runs and of
-- the clock keep.
use api_extension.Prelude.{
  ◌≡◌, refl, inl, inr, true, Option, none, some, List, [], ◌∷◌, Bool-cases, Result, ok, err,
  continue, map_err,
}
use api_extension.Text.{Text}
use api_extension.Http.{Values, Request, Reply, error}
use api_extension.Kube.{Txn, TxnResponse, Backend, Codec, RestClient}
use api_extension.Kube.Store.{Frame}
use api_extension.Transaction.{
  TransactionRequest, transaction_storage_key, Parsed, rejected, failed, parsed,
  parse_transaction_and_namespace,
}
use api_extension.Transaction.Authorize.{transaction_authorize_all}
use api_extension.Transaction.Handler.{
  build_transaction_commit_payload, transaction_commit, transaction_name, answer_commit,
  commit_and_answer, map_operations, map_and_commit, process, process_parsed, create_handler, sent,
  refusal, rejection,
}
use api_extension.Transaction.Frame.{authorize_all-R, map_operations-R}
use api_extension.Transaction.Commits.{transaction_name-R, answer_commit-R}

-- A reply that is no error: the object of the answer, or nothing where it could not be encoded.
abbrev pub IsAnswer : Reply → Type 0
IsAnswer (error message status) = ⊥
IsAnswer _ = Unit

-- A commit that reports that its comparison held.
abbrev pub IsSuccess : Result Text (Option TxnResponse) → Type 0
IsSuccess (ok (some resp)) = resp.succeeded ≡ true
IsSuccess _ = ⊥

abbrev pub txn : Text → Text → Text → Txn
txn namespace name payload = record {
  key = transaction_storage_key namespace name;
  value = payload;
}

-- `meant namespace name`: what the request may be carried out as.
module _ {World : Type 0} {env : Backend World} (frame : Frame env)
    (meant : Text → Text → Type 0) where
  open frame use {R, R_refl, R_trans}

  pub data Effect (reply : Reply) (w w' : World) : Type 0 where
    unchanged : (IsAnswer reply → ⊥) → R w w' → Effect reply w w'
    committed :
        (namespace name payload : Text) (u : World)
        → meant namespace name
        → R w u
        → R (env.commit (txn namespace name payload) u).1 w'
        → (IsAnswer reply → IsSuccess (env.commit (txn namespace name payload) u).0)
        → Effect reply w w'

  Effect-before : (reply : Reply) (u w w' : World) → R u w → Effect reply w w' → Effect reply u w'
  Effect-before reply u w w' h (unchanged n k) = unchanged n (R_trans u w w' h k)
  Effect-before reply u w w' h (committed ns name payload v m k l s) =
      committed ns name payload v m (R_trans u w v h k) l s

  -- The early end of a chain is an error that leaves the store as it is.
  continue-Effect :
      {A : Type 0} (g : Text → Reply) (r : Result Text A)
      (f : A → World → Result Reply Reply × World) (u w : World)
      → ((e : Text) → IsAnswer (g e) → ⊥)
      → R u w
      → ((a : A) → Effect (sent (f a w).0) w (f a w).1)
      → Effect (sent (continue (map_err g r) f w).0) u (continue (map_err g r) f w).1
  continue-Effect g (ok a) f u w never h k = Effect-before _ u w _ h (k a)
  continue-Effect g (err e) f u w never h k = unchanged (never e) h

  module _ (codec : Codec) (client : RestClient) (core : List Text) where
    answer_commit-IsAnswer :
        (namespace name : Text) (header : Values) (r : Result Text (Option TxnResponse)) (w : World)
        → IsAnswer (sent (answer_commit env codec namespace name header r w).0)
        → IsSuccess r
    unfolding answer_commit
    answer_commit-IsAnswer namespace name header (err e) w h = h
    answer_commit-IsAnswer namespace name header (ok none) w h = h
    answer_commit-IsAnswer namespace name header (ok (some resp)) w h =
        elim (Bool-cases resp.succeeded) [
          | inl e ↦ e
          | inr e ↦ let late : ⊥ = rw e at h in absurd late
        ]

    commit_and_answer-Effect :
        (request : TransactionRequest) (namespace name : Text) (header : Values)
        (resources : List (Text × Text)) (w : World)
        → ((v : World) → meant namespace (transaction_name env codec request name v).0)
        → Effect
            (sent (commit_and_answer env codec request namespace name header resources w).0)
            w
            (commit_and_answer env codec request namespace name header resources w).1
    unfolding commit_and_answer transaction_commit
    commit_and_answer-Effect request namespace name header [] w m = unchanged (λ h. h) (R_refl w)
    commit_and_answer-Effect request namespace name header (r ∷ rs) w m =
        from_payload (build_transaction_commit_payload codec namespace own (r ∷ rs))
      where
        own : Text
        own = (transaction_name env codec request name w).0

        u : World
        u = (transaction_name env codec request name w).1

        commit : Text → World → Result Text (Option TxnResponse) × World
        commit payload = env.commit (txn namespace own payload)

        from_payload :
            (b : Result Text Text)
            → Effect
                (sent
                  (answer_commit env codec namespace own header
                    (continue b commit u).0
                    (continue b commit u).1).0)
                w
                (answer_commit env codec namespace own header
                  (continue b commit u).0
                  (continue b commit u).1).1
        from_payload (err e) = unchanged (answer_commit-IsAnswer namespace own header (err e) u) (
            R_trans w u _ (transaction_name-R frame codec request name w)
              (answer_commit-R frame codec namespace own header (err e) u))
        from_payload (ok payload) =
            committed namespace own payload u (m w) (transaction_name-R frame codec request name w)
              (answer_commit-R frame codec namespace own header _ _)
              (answer_commit-IsAnswer namespace own header _ _)

    map_and_commit-Effect :
        (request : TransactionRequest) (namespace name : Text) (header : Values) (w : World)
        → ((v : World) → meant namespace (transaction_name env codec request name v).0)
        → Effect
            (sent (map_and_commit env codec client core request namespace name header w).0)
            w
            (map_and_commit env codec client core request namespace name header w).1
    unfolding map_and_commit
    map_and_commit-Effect request namespace name header w m =
        continue-Effect rejection (map_operations env codec client core request namespace w).0
          (commit_and_answer env codec request namespace name header) w _ (λ e h. h)
          (map_operations-R frame codec client core request namespace w)
          (λ resources. commit_and_answer-Effect request namespace name header resources _ m)

    process-Effect :
        (request : TransactionRequest) (namespace name : Text) (header : Values) (w : World)
        → ((v : World) → meant namespace (transaction_name env codec request name v).0)
        → Effect
            (sent (process env codec client core request namespace name header w).0)
            w
            (process env codec client core request namespace name header w).1
    unfolding process
    process-Effect request namespace name header w m =
        continue-Effect refusal (transaction_authorize_all env codec header request namespace w).0
          (λ a. map_and_commit env codec client core request namespace name header) w _ (λ e h. h)
          (authorize_all-R frame codec header request namespace w)
          (λ a. map_and_commit-Effect request namespace name header _ m)

    pub create_handler-Effect :
        (namespace name : Text) (r : Request) (w : World)
        → ((request : TransactionRequest) (space : Text) (v : World)
            → parse_transaction_and_namespace codec r namespace ≡ parsed request space
            → meant space (transaction_name env codec request name v).0)
        → Effect
            (create_handler env codec client core namespace name r w).0
            w
            (create_handler env codec client core namespace name r w).1
    unfolding create_handler
    create_handler-Effect namespace name r w m =
        from_parsed (parse_transaction_and_namespace codec r namespace) m
      where
        from_parsed :
            (p : Parsed)
            → ((request : TransactionRequest) (space : Text) (v : World)
                → p ≡ parsed request space
                → meant space (transaction_name env codec request name v).0)
            → Effect
                (sent (process_parsed env codec client core name r.header p w).0)
                w
                (process_parsed env codec client core name r.header p w).1
        from_parsed (rejected status message) m = unchanged (λ h. h) (R_refl w)
        from_parsed (failed e) m = unchanged (λ h. h) (R_refl w)
        from_parsed (parsed request ns) m =
            process-Effect request ns name r.header w (λ v. m request ns v refl)
