-- ===== src/Transaction/Ledger.antt =====
-- The abstract specification of transactions, a ledger that only grows: each request leaves it as it
-- is or enters one new record. The handler refines it, on every reply.
use native.Mathlib.Decide.{dec_lt}
use api_extension.Prelude.{
  ◌≡◌, ◌≢◌, ◌⊎◌, ◌≤◌, refl, sym, ◌∙◌, inl, inr, Option, none, some, List, arith, Bool-cases,
  Option-cases, Result, ok, err,
}
use api_extension.Text.{Text, ◌==◌, eq_iff}
use api_extension.Http.{Request, Reply, error, content, silent}
use api_extension.Kube.{Txn, TxnResponse, Backend, Codec, RestClient}
use api_extension.Kube.Store.{Store, Unchanged, unchanged_frame}
use api_extension.Transaction.{transaction_storage_key}
use api_extension.Transaction.Handler.{create_handler}
use api_extension.Transaction.Commits.{IsRejection, create_handler-Unchanged}
use api_extension.Transaction.Effect.{
  IsAnswer, IsSuccess, txn, Effect, unchanged, committed, create_handler-Effect,
}

abbrev AnyName : Text → Text → Type 0
AnyName namespace name = Unit

-- What is recorded under each key.
abbrev pub Ledger : Type 0
Ledger = Text → Option Text

abbrev pub IsIdle : Ledger → Ledger → Type 0
IsIdle s s' = (k : Text) → s' k ≡ s k

-- One record is entered under a transaction's key, which was free; the others stay.
pub record IsEntry (s s' : Ledger) : Type 0 where
  pub namespace : Text
  pub name : Text
  pub payload : Text
  pub absent : s (transaction_storage_key namespace name) ≡ none
  pub entered : s' (transaction_storage_key namespace name) ≡ some payload
  pub others : (k : Text) → k ≢ transaction_storage_key namespace name → s' k ≡ s k

-- The steps that a request may take, by its reply: after an answer there is a new record, after an
-- error below 500 there is none, and after another error there may be one.
abbrev pub Step : Reply → Ledger → Ledger → Type 0
Step (error message status) s s' = IsIdle s s' ⊎ ((500 ≤ status) × IsEntry s s')
Step _ s s' = IsEntry s s'

module _ {World : Type 0} {env : Backend World} (store : Store env) where
  -- The ledger of a world.
  abbrev pub ledger : World → Ledger
  ledger w k = store.value k w

  -- What a commit may do to the ledger.
  commit-steps :
      (namespace name payload : Text) (w : World)
      → let w' = (env.commit (txn namespace name payload) w).1 in
        IsIdle (ledger w) (ledger w') ⊎ IsEntry (ledger w) (ledger w')
  commit-steps namespace name payload w = elim (Option-cases (store.value key w)) [
    | inl free ↦ elim (store.commit_absent t w free) [
      | inl still ↦ inl (λ k. elim (Bool-cases (k == key)) [
        | inl same ↦ let e = (eq_iff k key).0 same in rw e (still ∙ sym free)
        | inr other ↦ store.commit_other t w k (λ e. ground (arith, eq_iff k key))
      ])
      | inr stored ↦ inr (record {
        namespace = namespace;
        name = name;
        payload = payload;
        absent = free;
        entered = stored;
        others = store.commit_other t w;
      })
    ]
    | inr (v, there) ↦ inl (λ k. elim (Bool-cases (k == key)) [
      | inl same ↦
          let e = (eq_iff k key).0 same in rw e (store.commit_present t w v there ∙ sym there)
      | inr other ↦ store.commit_other t w k (λ e. ground (arith, eq_iff k key))
    ])
  ]
    where
      key : Text
      key = transaction_storage_key namespace name

      t : Txn
      t = txn namespace name payload

  -- A commit that reports success found its key free and put the payload.
  pub commit-IsSuccess :
      (namespace name payload : Text) (w : World)
      → IsSuccess (env.commit (txn namespace name payload) w).0
      → let key = transaction_storage_key namespace name in
        (store.value key w ≡ none)
        × (store.value key (env.commit (txn namespace name payload) w).1 ≡ some payload)
  commit-IsSuccess namespace name payload w =
      from_result (env.commit (txn namespace name payload) w).0 refl
    where
      from_result :
          (r : Result Text (Option TxnResponse))
          → (env.commit (txn namespace name payload) w).0 ≡ r
          → IsSuccess r
          → let key = transaction_storage_key namespace name in
            (store.value key w ≡ none)
            × (store.value key (env.commit (txn namespace name payload) w).1 ≡ some payload)
      from_result (err e) p h = absurd h
      from_result (ok none) p h = absurd h
      from_result (ok (some resp)) p h =
          store.commit_succeeded (txn namespace name payload) w resp p h

  commit-enters :
      (namespace name payload : Text) (w : World)
      → IsSuccess (env.commit (txn namespace name payload) w).0
      → IsEntry (ledger w) (ledger (env.commit (txn namespace name payload) w).1)
  commit-enters namespace name payload w h =
      let (absent, stored) = commit-IsSuccess namespace name payload w h in
      record {
        namespace = namespace;
        name = name;
        payload = payload;
        absent = absent;
        entered = stored;
        others = store.commit_other (txn namespace name payload) w;
      }

  IsEntry-between :
      (t u v w : World)
      → Unchanged store t u
      → Unchanged store v w
      → IsEntry (ledger u) (ledger v)
      → IsEntry (ledger t) (ledger w)
  IsEntry-between t u v w before after e = record {
    namespace = e.namespace;
    name = e.name;
    payload = e.payload;
    absent = sym (before _) ∙ e.absent;
    entered = after _ ∙ e.entered;
    others = λ k n. after k ∙ e.others k n ∙ before k;
  }

  Effect-IsEntry :
      (reply : Reply) (w w' : World)
      → IsAnswer reply
      → Effect (unchanged_frame store) AnyName reply w w'
      → IsEntry (ledger w) (ledger w')
  Effect-IsEntry reply w w' h (unchanged n k) = absurd (n h)
  Effect-IsEntry reply w w' h (committed ns name payload u m before after s) =
      IsEntry-between w u _ w' before after (commit-enters ns name payload u (s h))

  Effect-steps :
      (reply : Reply) (w w' : World)
      → Effect (unchanged_frame store) AnyName reply w w'
      → IsIdle (ledger w) (ledger w') ⊎ IsEntry (ledger w) (ledger w')
  Effect-steps reply w w' (unchanged n k) = inl k
  Effect-steps reply w w' (committed ns name payload u m before after s) =
      elim (commit-steps ns name payload u) [
        | inl idle ↦ inl (λ k. after k ∙ idle k ∙ before k)
        | inr entry ↦ inr (IsEntry-between w u _ w' before after entry)
      ]

  Effect-Step :
      (reply : Reply) (w w' : World)
      → (IsRejection store reply → Unchanged store w w')
      → Effect (unchanged_frame store) AnyName reply w w'
      → Step reply (ledger w) (ledger w')
  Effect-Step (content status kind body) w w' h e = Effect-IsEntry _ w w' tt e
  Effect-Step silent w w' h e = Effect-IsEntry _ w w' tt e
  Effect-Step (error message status) w w' h e = elim (dec_lt status 500) [
    | yes early ↦ inl (h early)
    | no late ↦ elim (Effect-steps _ w w' e) [
      | inl idle ↦ inl idle
      | inr entry ↦ inr (omega arith, entry)
    ]
  ]

  -- The handler of transactions refines the ledger: whatever the request, it takes a step of the
  -- specification. With an answer, encoded or not, exactly one record is new, under a key that was
  -- free; with an error below 500 none is; with another error none is or one; and all other values
  -- of the store stay.
  pub create_handler-Step :
      (codec : Codec) (client : RestClient) (core : List Text) (namespace name : Text) (r : Request)
      (w : World)
      → Step
          (create_handler env codec client core namespace name r w).0
          (ledger w)
          (ledger (create_handler env codec client core namespace name r w).1)
  create_handler-Step codec client core namespace name r w =
      Effect-Step _ w _ (create_handler-Unchanged store codec client core namespace name r w) (
        create_handler-Effect (unchanged_frame store) AnyName codec client core namespace name r w
          (λ request space v p. tt))
