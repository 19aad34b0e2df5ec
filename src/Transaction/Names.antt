-- ===== src/Transaction/Names.antt =====
-- The namespace and the name of a transaction.
use api_extension.Prelude.{
  ◌≡◌, ◌≢◌, ap, ◌∙◌, sym, ◌⊎◌, inl, inr, none, some, arith, ok, Result-cases, ℕ, [], Option, List,
}
use api_extension.Text.{Text, eq_iff}
use api_extension.Text.Strings.{trim_space}
use api_extension.Http.{Request, content}
use api_extension.Kube.{Backend, Codec, RestClient}
use api_extension.Kube.Store.{Store}
use api_extension.Transaction.{
  TransactionRequest, transaction_storage_key, decode_transaction_request, path_namespace,
  settle_namespace, parsed, parse_transaction_and_namespace,
}
use api_extension.Transaction.Handler.{transaction_name, create_handler}
use api_extension.Transaction.Created.{create_handler-IsCreated}

-- The namespace in which a request is carried out is the one that the call or the path names, or else
-- that of the metadata. Where the metadata names one, it is that one.
abbrev pub Agrees : Text → TransactionRequest → Text → Type 0
Agrees outer request space =
    ((outer ≡ space) ⊎ ((outer ≡ []) × (request.namespace ≡ space)))
    × ((request.namespace ≡ []) ⊎ (request.namespace ≡ space))

settle_namespace-Agrees :
    (t : TransactionRequest) (outer : Text) (request : TransactionRequest) (space : Text)
    → settle_namespace t outer ≡ parsed request space
    → (t ≡ request) × Agrees outer request space
unfolding settle_namespace
settle_namespace-Agrees t outer request space h =
    let same : t ≡ request = ground arith in
    let named : Agrees outer t space =
      ground (arith, eq_iff outer [], eq_iff t.namespace [], eq_iff t.namespace outer) in
    (same, (rw same at named))

-- A request that is parsed had a body that is not blank and that decodes to it. It is carried out in
-- the namespace that the call or the path names, or, where neither does, in that of its metadata. A
-- namespace of its metadata that differs from that is rejected.
pub parse-Agrees :
    (codec : Codec) (r : Request) (namespace : Text) (request : TransactionRequest) (space : Text)
    → parse_transaction_and_namespace codec r namespace ≡ parsed request space
    → (body : Text) × (r.body ≡ ok body)
      × (trim_space body ≢ [])
      × (decode_transaction_request codec body ≡ ok request)
      × Agrees (path_namespace namespace r.path) request space
unfolding parse_transaction_and_namespace
parse-Agrees codec r namespace request space h = elim (Result-cases r.body) [
  | inl (body, e) ↦ elim (Result-cases (decode_transaction_request codec body)) [
    | inl (t, e') ↦
        let not_blank : trim_space body ≢ [] = ground (arith, eq_iff (trim_space body) []) in
        let settled : settle_namespace t (path_namespace namespace r.path) ≡ parsed request space =
          ground arith in
        let (same, agrees) =
          settle_namespace-Agrees t (path_namespace namespace r.path) request space settled in
        (body, e, not_blank, e' ∙ ap ok same, agrees)
    | inr (x, e') ↦ absurd (ground arith)
  ]
  | inr (x, e) ↦ absurd (ground arith)
]

pub transaction_name-own :
    {World : Type 0} (env : Backend World) (codec : Codec) (request : TransactionRequest)
    (name : Text) (w : World)
    → request.name ≢ []
    → (transaction_name env codec request name w).0 ≡ request.name
unfolding transaction_name
transaction_name-own env codec request name w h = ground (arith, eq_iff request.name [])

-- A request that names its transaction and is answered with an object has recorded it under that
-- name, where nothing was recorded before.
pub create_handler-recorded :
    {World : Type 0} {env : Backend World} (store : Store env) (codec : Codec) (client : RestClient)
    (core : List Text) (namespace name : Text) (r : Request) (w : World)
    (request : TransactionRequest) (space : Text)
    → parse_transaction_and_namespace codec r namespace ≡ parsed request space
    → request.name ≢ []
    → (status : ℕ) (kind : Option Text) (body : Text)
    → (create_handler env codec client core namespace name r w).0 ≡ content status kind body
    → let key = transaction_storage_key space request.name in
      (payload : Text) × (store.value key w ≡ none)
      × (store.value key (create_handler env codec client core namespace name r w).1 ≡ some payload)
create_handler-recorded {env = env} store codec client core namespace name r w request space p named
      status kind body h =
    let (s, (q, sp, p', c)) =
      create_handler-IsCreated store codec client core namespace name r w status kind body h in
    let same : q ≡ request = ground arith in
    let place : sp ≡ space = ground arith in
    let k = c.is_committed in
    let same_name : q.name ≡ request.name = ap (λ (t : TransactionRequest). t.name) same in
    let txn : k.txn_name ≡ request.name =
      k.named
      ∙ transaction_name-own env codec q name _ (λ e. named (sym same_name ∙ e))
      ∙ same_name in
    let key : transaction_storage_key space request.name ≡ transaction_storage_key sp k.txn_name =
      ap (transaction_storage_key space) (sym txn)
      ∙ ap (λ t. transaction_storage_key t k.txn_name) (sym place) in
    (
      k.is_stored.payload,
      ap (λ t. store.value t w) key ∙ k.is_stored.absent,
      ap (λ t. store.value t (create_handler env codec client core namespace name r w).1) key
          ∙ k.is_stored.stored,
    )

-- A request whose metadata names a transaction that the store already holds is never answered with
-- an object.
pub create_handler-occupied :
    {World : Type 0} {env : Backend World} (store : Store env) (codec : Codec) (client : RestClient)
    (core : List Text) (namespace name : Text) (r : Request) (w : World)
    (request : TransactionRequest) (space v : Text)
    → parse_transaction_and_namespace codec r namespace ≡ parsed request space
    → request.name ≢ []
    → store.value (transaction_storage_key space request.name) w ≡ some v
    → (status : ℕ) (kind : Option Text) (body : Text)
    → (create_handler env codec client core namespace name r w).0 ≢ content status kind body
create_handler-occupied store codec client core namespace name r w request space v p named there
      status kind body h =
    let (payload, free, stored) =
      create_handler-recorded store codec client core namespace name r w request space p named
        status kind body h in
    ground arith
