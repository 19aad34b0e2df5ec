-- ===== src/Tests/Documents.antt =====
-- Requests of the Go types, and the calls of a small transaction.
use api_extension.Prelude.{◌≡◌, ◌≤◌, ◌+◌, refl, inr, ◌≢◌, none, some, [], ◌∷◌, ok, err, All, length}
use api_extension.Text.{Text, text, ◌==◌}
use api_extension.Text.Strings.{trim_space}
use api_extension.Value.{
  Value, null, number, string, array, object, nil, cons, end, field, lookup, string_or_empty,
  is_empty,
}
use api_extension.Value.Yaml.{yaml_of, yaml_fields, IsDocument}
use api_extension.Http.{content, error, bad_request}
use api_extension.Decision.Answers.{IsDecided}
use api_extension.Decision.Typed.{create_handler-all_asked}
use api_extension.Tests.Calls.{runs}
use api_extension.Kube.{Codec, DecisionPayload}
use api_extension.Api.Requests.{
  DecisionQuestion, DecisionRequest, TransactionRequest, with_pointer, with_text, with_object,
  with_header, question_document, questions_document, decision_document,
}
use api_extension.Decision.{decode_decision_request, normalize_value, is_blank, noul}
use api_extension.Decision.Decoded.{normalize-yaml_of}
use api_extension.Decision.Documents.{IsRead, IsReady, all_asked, decode-all_asked}
use api_extension.Transaction.Authorize.{transaction_authorize_all}
use api_extension.Transaction.Asked.{AreDistinct}
use api_extension.Transaction.Audit.{transaction_authorize_all-reviews}
use api_extension.Transaction.Documents.{create_handler-untyped}
use api_extension.Transaction.Handler.{create_handler}
use api_extension.Kube.Audit.{audited}
use api_extension.Tests.World.{shelf, shelf_codec, ann, api, call}
use api_extension.Tests.Transactions.{wanted}

-- A state with a map and a list.
abbrev state : Value
state = object (
    field (text "source") (string (text "code"))
      (field (text "lines") (array (cons (number (text "1")) (cons null nil))) end))

state-IsDocument : IsDocument state
unfolding lookup text ◌==◌
state-IsDocument = (refl, tt, (refl, (tt, (tt, tt)), tt))

normalize-yaml_of_example : normalize_value (yaml_of state) ≡ state
normalize-yaml_of_example = normalize-yaml_of state state-IsDocument

abbrev question : DecisionQuestion
question = record { type = text "noul"; instructions = text "Go?"; criteria = none }

abbrev typed : DecisionRequest
typed = record {
  header = record {
    api_version = text "api-extension.harikube.info/v1";
    kind = text "DecisionRequest";
    metadata = field (text "name") (string (text "d")) end;
  };
  spec = record { state = some state; questions = (text "ok", question) ∷ [] };
}

-- What the decoder makes of it.
abbrev payload : DecisionPayload
payload = record {
  metadata = yaml_fields (field (text "name") (string (text "d")) end);
  state = yaml_of state;
  questions =
      (text "ok", record { type = text "noul"; instructions = text "Go?"; criteria = null }) ∷ [];
}

abbrev reader : Codec
reader = record shelf_codec {
  unmarshal_decision = λ b. ok payload;
  unmarshal_transaction = λ b. err (text "cannot unmarshal !!str into map[string]interface {}");
}

payload-IsRead : IsRead (decision_document typed) payload
unfolding decision_document with_header with_text with_object with_pointer questions_document
    question_document is_empty lookup text ◌==◌
payload-IsRead = (refl, (refl, (refl, (refl, refl, refl), tt)))

some_words : text "Go?" ≢ []
unfolding text
some_words = cc

typed-IsReady : All IsReady typed.spec.questions
unfolding is_blank trim_space text ◌==◌ noul
typed-IsReady = ((tt, (refl, ((refl, some_words), inr (inr (refl, refl))))), tt)

decode-all_asked_example :
    decode_decision_request reader (text "body")
    ≡ ok (record {
      name = trim_space (string_or_empty (lookup (text "name") typed.header.metadata));
      namespace = trim_space (string_or_empty (lookup (text "namespace") typed.header.metadata));
      state = state;
      questions = all_asked typed.spec.questions;
    })
decode-all_asked_example =
    decode-all_asked reader (text "body") typed payload refl payload-IsRead (λ e. cc)
      state-IsDocument typed-IsReady

-- One pod in base64.
abbrev bytes : TransactionRequest
bytes = record {
  header = typed.header;
  spec = record { create = some (text "pod" ∷ []); update = none; delete = some [] };
}

create_handler-untyped_example :
    (message : Text) × (create_handler shelf reader api [] (text "a") [] call []
      ≡ (error message bad_request, []))
create_handler-untyped_example =
    create_handler-untyped shelf reader api [] (λ b. text "cG9k") bytes (text "a") [] (text "t")
      call [] refl (λ p h. cc)

transaction_authorize_all-reviews_example :
    AreDistinct
      (transaction_authorize_all (audited shelf) shelf_codec ann wanted (text "a") ([], [])).1.1
    × (length
          (transaction_authorize_all (audited shelf) shelf_codec ann wanted (text "a") ([], [])).1.1
        ≤ length wanted.create + (length wanted.update + length wanted.delete))
transaction_authorize_all-reviews_example =
    transaction_authorize_all-reviews shelf shelf_codec ann wanted (text "a") []

-- A request that the small server reads from the body "t".
abbrev small : DecisionRequest
small = record {
  header = record { api_version = []; kind = []; metadata = end };
  spec = record { state = none; questions = (text "t", question) ∷ [] };
}

abbrev small_payload : DecisionPayload
small_payload = record {
  metadata = end;
  state = null;
  questions =
      (text "t", record { type = text "noul"; instructions = text "Go?"; criteria = null }) ∷ [];
}

small-IsRead : IsRead (decision_document small) small_payload
unfolding decision_document with_header with_text with_object with_pointer questions_document
    question_document is_empty lookup text ◌==◌
small-IsRead = (refl, (refl, (refl, (refl, refl, refl), tt)))

small-IsReady : All IsReady small.spec.questions
unfolding is_blank trim_space text ◌==◌ noul
small-IsReady = ((tt, (refl, ((refl, some_words), inr (inr (refl, refl))))), tt)

create_handler-all_asked_example :
    (d : IsDecided shelf shelf_codec []
      (text "a")
      []
      call
      []
      (content 201 (some (text "application/json")) (text "reply")))
    × (d.request.state ≡ null)
    × (d.request.questions ≡ all_asked small.spec.questions)
create_handler-all_asked_example =
    create_handler-all_asked shelf shelf_codec [] (text "a") [] (text "t") call []
      (content 201 (some (text "application/json")) (text "reply")) small small_payload refl refl
      small-IsRead (λ e. cc) tt small-IsReady runs.3
