-- ===== src/Transaction/Documents.antt =====
-- api/v1/transaction_types.go and internal/apiserver/transaction.go: how the server reads a transaction
-- request of the Go type.
use api_extension.Prelude.{
  ℕ, ◌≡◌, refl, inl, inr, Option, none, some, List, [], ◌∷◌, arith, Result, ok, err, Result-cases,
}
use api_extension.Text.{Text, text, ◌==◌}
use api_extension.Value.{Value, null, array, object, Items, nil, cons, Fields, end, field, lookup}
use api_extension.Value.Yaml.{yaml_fields, IsMap}
use api_extension.Http.{Request, Reply, Values, error, bad_request}
use api_extension.Kube.{Codec, Backend, RestClient, TransactionPayload}
use api_extension.Api.Headers.{lookup-with_header}
use api_extension.Api.Requests.{
  TransactionRequestSpec, transaction_document, bytes_document, byte_items,
}
use api_extension.Api.Requests as Requests
use api_extension.Transaction.{
  TransactionRequest, Parsed, rejected, failed, parsed, decode_transaction_request, marshal_entries,
  parse_transaction_and_namespace, parse_body, settle_namespace,
}
use api_extension.Transaction.Authorize.{transaction_authorize_all, authorize_group}
use api_extension.Transaction.Handler.{
  create_handler, process, process_parsed, map_and_commit, map_operations, map_entries,
  commit_and_answer, sent,
}
use api_extension.Transaction.Names.{parse-Agrees}

-- What the decoder into the struct of decodeTransactionRequest makes of an object. An entry that is a
-- text cannot be decoded to a map.
abbrev pub IsEntry : Value → Fields → Type 0
IsEntry (object m) n = n ≡ yaml_fields m
IsEntry null n = n ≡ end
IsEntry v n = ⊥

abbrev pub AreEntries : Items → List Fields → Type 0
AreEntries nil [] = Unit {0}
AreEntries nil (n ∷ ns) = ⊥
AreEntries (cons v xs) [] = ⊥
AreEntries (cons v xs) (n ∷ ns) = IsEntry v n × AreEntries xs ns

abbrev pub IsList : Option Value → List Fields → Type 0
IsList (some (array xs)) ns = AreEntries xs ns
IsList (some null) ns = ns ≡ []
IsList none ns = ns ≡ []
IsList (some v) ns = ⊥

abbrev pub IsSpec : Option Value → TransactionPayload → Type 0
IsSpec (some (object m)) p =
    IsList (lookup (text "create") m) p.create
    × IsList (lookup (text "update") m) p.update
    × IsList (lookup (text "delete") m) p.delete
IsSpec (some null) p = (p.create ≡ []) × (p.update ≡ []) × (p.delete ≡ [])
IsSpec none p = (p.create ≡ []) × (p.update ≡ []) × (p.delete ≡ [])
IsSpec (some v) p = ⊥

abbrev pub IsRead : Fields → TransactionPayload → Type 0
IsRead request p =
    IsMap (lookup (text "metadata") request) p.metadata × IsSpec (lookup (text "spec") request) p

abbrev pub HasNone : TransactionRequest → Type 0
HasNone request = (request.create ≡ []) × (request.update ≡ []) × (request.delete ≡ [])

-- Bytes are written as texts, so no list of them is decoded unless it is empty.
bytes_document-none :
    (base64 : Text → Text) (bs : Option (List Text)) (ns : List Fields)
    → IsList (some (bytes_document base64 bs)) ns
    → ns ≡ []
unfolding byte_items
bytes_document-none base64 none ns h = h
bytes_document-none base64 (some []) [] h = refl
bytes_document-none base64 (some []) (n ∷ ns) h = absurd h
bytes_document-none base64 (some (b ∷ bs)) [] h = refl
bytes_document-none base64 (some (b ∷ bs)) (n ∷ ns) (h, hs) = absurd h

transaction_document-none :
    (base64 : Text → Text) (r : Requests.TransactionRequest) (p : TransactionPayload)
    → IsSpec (lookup (text "spec") (transaction_document base64 r)) p
    → (p.create ≡ []) × (p.update ≡ []) × (p.delete ≡ [])
unfolding transaction_document
transaction_document-none base64 r p h =
    let (c, u, d) = members (rw (lookup-with_header r.header) at h) in
    (
      bytes_document-none base64 r.spec.create p.create c,
      bytes_document-none base64 r.spec.update p.update u,
      bytes_document-none base64 r.spec.delete p.delete d,
    )
  where
    spec : Fields
    spec = field (text "create") (bytes_document base64 r.spec.create) (
        field (text "update") (bytes_document base64 r.spec.update)
          (field (text "delete") (bytes_document base64 r.spec.delete) end))

    members :
        IsSpec (some (object spec)) p
        → IsList (some (bytes_document base64 r.spec.create)) p.create
          × IsList (some (bytes_document base64 r.spec.update)) p.update
          × IsList (some (bytes_document base64 r.spec.delete)) p.delete
    members h = unfold lookup text ◌==◌ in h

abbrev answered : {World : Type 0} → Result Reply Reply × World → Reply × World
answered (result, w) = (sent result, w)

module _ (codec : Codec) where
  decode-HasNone :
      (body : Text) (request : TransactionRequest)
      → ((p : TransactionPayload)
          → codec.unmarshal_transaction body ≡ ok p
          → (p.create ≡ []) × (p.update ≡ []) × (p.delete ≡ []))
      → decode_transaction_request codec body ≡ ok request
      → HasNone request
  unfolding decode_transaction_request marshal_entries
  decode-HasNone body request h e = elim (Result-cases (codec.unmarshal_transaction body)) [
    | inl (p, read) ↦
        let (c, u, d) = h p read in let emptied = rw (read, c, u, d) at e in ground arith
    | inr (x, failed') ↦ absurd (ground arith)
  ]

  parse-bad_request :
      (r : Request) (namespace : Text) (status : ℕ) (message : Text)
      → parse_transaction_and_namespace codec r namespace ≡ rejected status message
      → status ≡ bad_request
  unfolding parse_transaction_and_namespace parse_body settle_namespace
  parse-bad_request r namespace status message h = ground arith

module _ {World : Type 0} (env : Backend World) (codec : Codec) (client : RestClient)
    (core : List Text) where
  process-HasNone :
      (request : TransactionRequest) (namespace name : Text) (header : Values) (w : World)
      → HasNone request
      → process env codec client core request namespace name header w
        ≡ (err (error (text "empty transaction spec") bad_request), w)
  unfolding process transaction_authorize_all authorize_group map_and_commit map_operations
      map_entries commit_and_answer
  process-HasNone request namespace name header w (c, u, d) = rw (c, u, d) refl

  -- No transaction request of the Go type is ever carried out, whatever it holds: its entries are written
  -- as texts and a decoder of maps refuses texts. Whether the lists are empty or not, the server answers
  -- 400, and makes no call at all, as far as the YAML decoder fills its struct only from members of
  -- their types.
  pub create_handler-untyped :
      (base64 : Text → Text) (typed : Requests.TransactionRequest) (namespace name body : Text)
      (r : Request) (w : World)
      → r.body ≡ ok body
      → ((p : TransactionPayload)
          → codec.unmarshal_transaction body ≡ ok p
          → IsRead (transaction_document base64 typed) p)
      → (message : Text) × (create_handler env codec client core namespace name r w
          ≡ (error message bad_request, w))
  unfolding create_handler
  create_handler-untyped base64 typed namespace name body r w whole read =
      from_parsed (parse_transaction_and_namespace codec r namespace) refl
    where
      none_of :
          (p : TransactionPayload)
          → codec.unmarshal_transaction body ≡ ok p
          → (p.create ≡ []) × (p.update ≡ []) × (p.delete ≡ [])
      none_of p h = transaction_document-none base64 typed p (read p h).1

      from_parsed :
          (p : Parsed)
          → parse_transaction_and_namespace codec r namespace ≡ p
          → (message : Text) × (answered (process_parsed env codec client core name r.header p w)
              ≡ (error message bad_request, w))
      from_parsed (rejected status message) e =
          (message, rw (parse-bad_request codec r namespace status message e) refl)
      from_parsed (failed x) e = (x, refl)
      from_parsed (parsed request space) e =
          let (body', same, filled, decoded, agrees) =
            parse-Agrees codec r namespace request space e in
          let decoded' : decode_transaction_request codec body ≡ ok request = ground arith in
          (
            text "empty transaction spec",
            rw
                (process-HasNone request space name r.header w
                  (decode-HasNone codec body request none_of decoded'))
                refl,
          )
