-- ===== src/Transaction/Commits.antt =====
-- What a transaction request does to the store: it never changes a value that is there, it writes no
-- key but its own, and a rejected request writes nothing.
use api_extension.Prelude.{
  ◌<◌, ◌≡◌, ◌≢◌, refl, ◌∙◌, inl, inr, not, Option, none, some, List, [], ◌∷◌, arith, Bool-cases,
  Result, ok, err, map_err, continue,
}
use api_extension.Text.{Text, ◌==◌, eq_iff}
use api_extension.Http.{Values, Request, Reply, error}
use api_extension.Api.{TransactionResponse}
use api_extension.Helper.{write_response}
use api_extension.Kube.{Txn, TxnResponse, Backend, Codec, RestClient}
use api_extension.Kube.Store.{Frame, Store, Unchanged, Kept, unchanged_frame, kept_frame}
use api_extension.Transaction.{
  TransactionRequest, transaction_storage_key, Parsed, rejected, failed, parsed,
  parse_transaction_and_namespace,
}
use api_extension.Transaction.Authorize.{transaction_authorize_all}
use api_extension.Transaction.Handler.{
  build_transaction_commit_payload, answer, check_commit, transaction_commit, transaction_name,
  answer_commit, commit_and_answer, map_operations, map_and_commit, process, refusal, rejection,
  process_parsed, create_handler, response_of, sent,
}
use api_extension.Transaction.Frame.{continue-R, authorize_all-R, map_operations-R}

module _ {World : Type 0} {env : Backend World} (frame : Frame env) where
  open frame use {R, R_refl, R_trans}

  pub transaction_name-R :
      (codec : Codec) (request : TransactionRequest) (name : Text) (w : World)
      → R w (transaction_name env codec request name w).1
  unfolding transaction_name
  transaction_name-R codec request name w = elim (Bool-cases (not (request.name == []))) [
    | inl e ↦ rw e (R_refl w)
    | inr e ↦ rw e (elim (Bool-cases (not (name == []))) [
      | inl e' ↦ rw e' (R_refl w)
      | inr e' ↦ rw e' (frame.now_R w)
    ])
  ]

  pub answer_commit-R :
      (codec : Codec) (namespace name : Text) (header : Values)
      (committed : Result Text (Option TxnResponse)) (w : World)
      → R w (answer_commit env codec namespace name header committed w).1
  unfolding answer_commit
  answer_commit-R codec namespace name header committed w =
      continue-R frame (check_commit committed) _ w w (R_refl w) (λ resp w'. frame.now_R w')

  module _
      (commit_R : (namespace name value : Text) (w : World)
        → R w
            (env.commit
              (record { key = transaction_storage_key namespace name; value = value })
              w).1)
      (codec : Codec) (client : RestClient) (core : List Text) where
    transaction_commit-R :
        (namespace name : Text) (resources : List (Text × Text)) (w : World)
        → R w (transaction_commit env codec namespace name resources w).1
    unfolding transaction_commit
    transaction_commit-R namespace name resources w =
        continue-R frame (build_transaction_commit_payload codec namespace name resources) _ w w
          (R_refl w) (λ payload w'. commit_R namespace name payload w')

    commit_and_answer-R :
        (request : TransactionRequest) (namespace name : Text) (header : Values)
        (resources : List (Text × Text)) (w : World)
        → R w (commit_and_answer env codec request namespace name header resources w).1
    unfolding commit_and_answer
    commit_and_answer-R request namespace name header [] w = R_refl w
    commit_and_answer-R request namespace name header (r ∷ rs) w =
        let named = transaction_name-R codec request name w in
        let committed =
          transaction_commit-R namespace (transaction_name env codec request name w).0 (r ∷ rs)
            (transaction_name env codec request name w).1 in
        R_trans w _ _ (R_trans w _ _ named committed)
          (answer_commit-R codec namespace (transaction_name env codec request name w).0 header _ _)

    map_and_commit-R :
        (request : TransactionRequest) (namespace name : Text) (header : Values) (w : World)
        → R w (map_and_commit env codec client core request namespace name header w).1
    unfolding map_and_commit
    map_and_commit-R request namespace name header w =
        continue-R frame
          (map_err rejection (map_operations env codec client core request namespace w).0) _ w _
          (map_operations-R frame codec client core request namespace w)
          (λ resources w'. commit_and_answer-R request namespace name header resources w')

    process-R :
        (request : TransactionRequest) (namespace name : Text) (header : Values) (w : World)
        → R w (process env codec client core request namespace name header w).1
    unfolding process
    process-R request namespace name header w =
        continue-R frame
          (map_err refusal (transaction_authorize_all env codec header request namespace w).0) _ w _
          (authorize_all-R frame codec header request namespace w)
          (λ answers w'. map_and_commit-R request namespace name header w')

    pub create_handler-R :
        (namespace name : Text) (r : Request) (w : World)
        → R w (create_handler env codec client core namespace name r w).1
    unfolding create_handler
    create_handler-R namespace name r w =
        from_parsed (parse_transaction_and_namespace codec r namespace)
      where
        from_parsed : (p : Parsed) → R w (process_parsed env codec client core name r.header p w).1
        from_parsed (rejected status message) = R_refl w
        from_parsed (failed e) = R_refl w
        from_parsed (parsed request ns) = process-R request ns name r.header w

module _ {World : Type 0} {env : Backend World} (store : Store env) where
  pub commit-Kept : (t : Txn) (w : World) → Kept store w (env.commit t w).1
  commit-Kept t w k v e = elim (Bool-cases (k == t.key)) [
    | inl same ↦
        let here : k ≡ t.key = (eq_iff k t.key).0 same in
        let stored : store.value t.key w ≡ some v = rw here at e in
        rw here (store.commit_present t w v stored)
    | inr other ↦ store.commit_other t w k (λ here. ground (arith, eq_iff k t.key)) ∙ e
  ]

  -- Whatever a transaction request asks for, and however it ends, a value that is stored under any
  -- key stays as it is: transactions only create.
  pub create_handler-Kept :
      (codec : Codec) (client : RestClient) (core : List Text) (namespace name : Text) (r : Request)
      (w : World) (k v : Text)
      → store.value k w ≡ some v
      → store.value k (create_handler env codec client core namespace name r w).1 ≡ some v
  create_handler-Kept codec client core namespace name r w k v =
      create_handler-R (kept_frame store)
        (λ ns n value w'.
          commit-Kept (record { key = transaction_storage_key ns n; value = value }) w')
        codec client core namespace name r w k v

  -- A key that has not the form of a transaction's key.
  abbrev pub IsForeign : Text → Type 0
  IsForeign k = (namespace name : Text) → k ≢ transaction_storage_key namespace name

  -- A transaction request changes no key outside the form /harikube/transaction/<namespace>/<name>.
  pub create_handler-foreign :
      (codec : Codec) (client : RestClient) (core : List Text) (namespace name : Text) (r : Request)
      (w : World) (k : Text)
      → IsForeign k
      → store.value k (create_handler env codec client core namespace name r w).1 ≡ store.value k w
  create_handler-foreign codec client core namespace name r w k h =
      create_handler-R
        (record {
          R = λ u v. store.value k v ≡ store.value k u;
          R_refl = λ u. refl;
          R_trans = λ u v x p q. q ∙ p;
          rest_mapping_R = λ gvk u. store.rest_mapping_keeps gvk u k;
          reset_R = λ u. store.reset_keeps u k;
          review_R = λ spec u. store.review_keeps spec u k;
          now_R = λ u. store.now_keeps u k;
          get_R = λ j opts u. store.get_keeps j opts u k;
          dry_run_R = λ q u d. store.dry_run_keeps q u k d;
        })
        (λ ns n value u. store.commit_other _ u k (h ns n)) codec client core namespace name r w

  -- An answer with an error status below 500.
  abbrev pub IsRejection : Reply → Type 0
  IsRejection (error message status) = status < 500
  IsRejection _ = ⊥

  answer-IsRejection :
      (codec : Codec) (header : Values) (resp : TransactionResponse)
      → IsRejection (sent (answer codec header resp))
      → ⊥
  unfolding answer write_response
  answer-IsRejection codec header resp h = ground arith

  answer_commit-IsRejection :
      (codec : Codec) (namespace name : Text) (header : Values)
      (committed : Result Text (Option TxnResponse)) (w : World)
      → IsRejection (sent (answer_commit env codec namespace name header committed w).0)
      → ⊥
  unfolding answer_commit
  answer_commit-IsRejection codec namespace name header (err e) w h = omega arith
  answer_commit-IsRejection codec namespace name header (ok none) w h = omega arith
  answer_commit-IsRejection codec namespace name header (ok (some resp)) w h =
      elim (Bool-cases resp.succeeded) [
        | inl e ↦
            answer-IsRejection codec header (response_of namespace name resp.revision (env.now w).0)
              (rw e at h)
        | inr e ↦ let late : 500 < 500 = rw e at h in absurd (omega arith)
      ]

  commit_and_answer-Unchanged :
      (codec : Codec) (request : TransactionRequest) (namespace name : Text) (header : Values)
      (resources : List (Text × Text)) (w : World)
      → IsRejection (sent (commit_and_answer env codec request namespace name header resources w).0)
      → Unchanged store w (commit_and_answer env codec request namespace name header resources w).1
  unfolding commit_and_answer
  commit_and_answer-Unchanged codec request namespace name header [] w h k = refl
  commit_and_answer-Unchanged codec request namespace name header (r ∷ rs) w h k =
      absurd (answer_commit-IsRejection codec namespace _ header _ _ h)

  continue-Unchanged :
      {A : Type 0} (r : Result Reply A) (f : A → World → Result Reply Reply × World) (u w : World)
      → Unchanged store u w
      → ((a : A) → IsRejection (sent (f a w).0) → Unchanged store w (f a w).1)
      → IsRejection (sent (continue r f w).0)
      → Unchanged store u (continue r f w).1
  continue-Unchanged (ok a) f u w h k e x = k a e x ∙ h x
  continue-Unchanged (err y) f u w h k e x = h x

  process-Unchanged :
      (codec : Codec) (client : RestClient) (core : List Text) (request : TransactionRequest)
      (namespace name : Text) (header : Values) (w : World)
      → IsRejection (sent (process env codec client core request namespace name header w).0)
      → Unchanged store w (process env codec client core request namespace name header w).1
  unfolding process map_and_commit
  process-Unchanged codec client core request namespace name header w =
      continue-Unchanged
        (map_err refusal (transaction_authorize_all env codec header request namespace w).0)
        (λ a. map_and_commit env codec client core request namespace name header) w
        (transaction_authorize_all env codec header request namespace w).1
        (authorize_all-R (unchanged_frame store) codec header request namespace w)
        λ a.
          continue-Unchanged
            (map_err rejection (map_operations env codec client core request namespace _).0)
            (commit_and_answer env codec request namespace name header) _ _
            (map_operations-R (unchanged_frame store) codec client core request namespace _)
            (λ resources.
              commit_and_answer-Unchanged codec request namespace name header resources _)

  -- A transaction request that is answered with an error status below 500, be it malformed,
  -- forbidden or invalid in any entry, has changed nothing in the store.
  pub create_handler-Unchanged :
      (codec : Codec) (client : RestClient) (core : List Text) (namespace name : Text) (r : Request)
      (w : World)
      → IsRejection (create_handler env codec client core namespace name r w).0
      → Unchanged store w (create_handler env codec client core namespace name r w).1
  unfolding create_handler
  create_handler-Unchanged codec client core namespace name r w =
      from_parsed (parse_transaction_and_namespace codec r namespace)
    where
      from_parsed :
          (p : Parsed)
          → IsRejection (sent (process_parsed env codec client core name r.header p w).0)
          → Unchanged store w (process_parsed env codec client core name r.header p w).1
      from_parsed (rejected status message) h k = refl
      from_parsed (failed e) h k = refl
      from_parsed (parsed request ns) h k =
          process-Unchanged codec client core request ns name r.header w h k
