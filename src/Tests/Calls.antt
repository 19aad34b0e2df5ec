-- ===== src/Tests/Calls.antt =====
-- The theorems on counts, queries and decisions, at the small server.
use api_extension.Prelude.{◌≡◌, ◌≢◌, ◌↔◌, refl, true, some, List, [], ◌∷◌, ◌++◌, All, arith, ok}
use api_extension.Text.{Text, text, ◌==◌, eq_iff}
use api_extension.Text.Strings.{
  cut, decimal, decimal_from, has_prefix, is_space, join, lower, split, to_lower, trim_func,
  trim_left, trim_right, trim_slash, trim_space,
}
use api_extension.Text.Laws.{Lacks}
use api_extension.Value.{null, string_or_empty, lookup, lookup_entry, insert, is_empty}
use api_extension.Http.{content, values, get, Reply, Request}
use api_extension.Api.{group_version}
use api_extension.Kube.{Question, Mapping, DecisionPayload}
use api_extension.Helper.{
  contains, etcd_key, content_details_table_v1, content_details_table_v1beta1, get_resource,
  is_yaml, response_content, subject_access_review, table_response, write_response,
}
use api_extension.Server.{group, version}
use api_extension.Transaction.{find_namespace, path_namespace, transaction_request_namespace}
use api_extension.Query
use api_extension.Query.{
  created_minimal, parse_query_request_body, query_attributes, query_key, require_access,
}
use api_extension.Query.Overwrites.{IsQuery, create_handler-stored}
use api_extension.Count
use api_extension.Count.{Selection, parse_field_selectors, select, select_all}
use api_extension.Count.Handler as Counts
use api_extension.Count.Handler.{
  count_attributes, count_namespace, count_options, count_prefix, count_resource, count_selected,
  list_handler,
}
use api_extension.Count.Answers.{IsCounted, list_handler-IsCounted}
use api_extension.Count.Selectors.{
  drop_empty, residual, parse_field_selectors-residual, select-kind,
}
use api_extension.Decision.{
  DecisionRequest, choice, choice_criteria, criteria_of, decode_decision_request, is_blank,
  normalize_question, normalize_questions, normalize_value, noul, score, score_criteria,
}
use api_extension.Decision.Handler as Decisions
use api_extension.Decision.Handler.{
  answer_reply, call_and_write, decision_attributes, decision_name, default_decision_maker_url,
  endpoint_of, invoke_decision_maker, is_success, maker_error, maker_request, read_and_decode,
  read_answer, resolve_namespace,
}
use api_extension.Decision.Answers.{IsDecided, create_handler-IsDecided}
use api_extension.Server.Serving.{Call, transaction, query, decision, count, serve, serve_all}
use api_extension.Server.Queries.{IsElsewhere, serve_all-stored}
use api_extension.Server.Replies.Denied.{IsDenied, serve-IsDenied}
use api_extension.Decision.Orders.{normalize_questions-Perm}
use mathlib.Core.List.{Permᴰ}
use mathlib.Core.List.Permᴰ.{swap}
use api_extension.Decision.Requests.{AreDecoded, decode-AreDecoded}
use api_extension.Decision.Fixed.{normalize_question-eq_iff}
use api_extension.Decision.Questions.{IsWellFormed}
use api_extension.Tests.World.{
  shelf, shelf_store, shelf_codec, call, call_by_nobody, api, find, question,
}
use api_extension.Tests.Transactions.{maker_keeps}

abbrev count_call : Request
count_call = record call {
  query = (text "fieldSelector", text "apiVersion=v1, kind=Pod,spec.x=y" ∷ []) ∷ [];
}

-- What the code computes at the small server.
pub runs :
    ((Query.create_handler shelf shelf_codec (text "a") (text "q") call []).0 ≡ ok created_minimal)
    × ((Query.create_handler shelf shelf_codec
          (text "b")
          (text "q")
          call
          (Query.create_handler shelf shelf_codec (text "a") (text "q") call []).1).0
        ≡ ok created_minimal)
    × ((list_handler shelf shelf_codec [] (text "a") count_call []).0
        ≡ ok (content 200 (some (text "application/json")) (text "reply")))
    × ((Decisions.create_handler shelf shelf_codec [] (text "a") [] call []).0
        ≡ ok (content 201 (some (text "application/json")) (text "reply")))
    × ((subject_access_review shelf (decision_attributes (text "a")) [] []).0 ≢ ok true)
    × (decode_decision_request shelf_codec (text "t")
        ≡ ok (record {
          name = [];
          namespace = [];
          state = null;
          questions = (text "t", question) ∷ [];
        }))
    × (normalize_question (text "t") question ≡ ok question)
    × (normalize_questions ((text "t", question) ∷ (text "u", question) ∷ [])
        ≡ ok ((text "t", question) ∷ (text "u", question) ∷ []))
unfolding text ◌==◌ cut decimal decimal_from has_prefix is_space join split lower to_lower trim_func
    trim_left trim_right trim_slash trim_space string_or_empty lookup lookup_entry insert is_empty
    values get group_version contains etcd_key content_details_table_v1
    content_details_table_v1beta1 get_resource is_yaml response_content subject_access_review
    table_response write_response find group version created_minimal parse_query_request_body
    query_attributes query_key require_access Query.create_handler parse_field_selectors select
    select_all Count.parse_gvk Count.looks_like_version count_attributes count_namespace
    count_options count_prefix count_resource count_selected list_handler Counts.answer
    Counts.response_of Decisions.response_of decode_decision_request normalize_question
    normalize_questions normalize_value criteria_of choice noul score is_blank choice_criteria
    score_criteria find_namespace path_namespace transaction_request_namespace answer_reply
    call_and_write decision_attributes decision_name default_decision_maker_url endpoint_of
    invoke_decision_maker is_success maker_error maker_request read_and_decode read_answer
    resolve_namespace Decisions.create_handler
runs = (refl, refl, refl, refl, cc, refl, refl, refl)

create_handler-stored_example :
    (body : Text) × IsQuery shelf_store shelf_codec call body
    × (created_minimal ≡ created_minimal)
    × ((subject_access_review shelf (query_attributes (text "a")) call.header []).0 ≡ ok true)
    × (find
          (query_key (text "q"))
          (Query.create_handler shelf shelf_codec (text "a") (text "q") call []).1
        ≡ some body)
create_handler-stored_example =
    create_handler-stored shelf_store shelf_codec (text "a") (text "q") call [] created_minimal
      runs.0

-- A query of another name, a count, a decision and a transaction.
abbrev other_calls : List Call
other_calls =
    query (text "a") (text "z") call
    ∷ count (text "a") call
    ∷ decision (text "a") [] call
    ∷ transaction (text "a") [] call
    ∷ []

other_name : text "z" ≢ text "q"
unfolding text ◌==◌
other_name e = let same : (text "z" == text "q") ≡ true = (eq_iff (text "z") (text "q")).1 e in cc

other_calls-IsElsewhere : All (IsElsewhere (text "q")) other_calls
other_calls-IsElsewhere = (other_name, (tt, (tt, (tt, tt))))

serve_all-stored_example :
    (body : Text) × (call.body ≡ ok body)
    × (find (query_key (text "q")) (
          serve_all shelf shelf_codec api [] [] other_calls
            (Query.create_handler shelf shelf_codec (text "a") (text "q") call []).1)
        ≡ some body)
serve_all-stored_example =
    serve_all-stored shelf_store maker_keeps shelf_codec api [] [] (text "a") (text "q") call []
      other_calls created_minimal runs.0 other_calls-IsElsewhere

abbrev count_reply : Reply
count_reply = content 200 (some (text "application/json")) (text "reply")

list_handler-IsCounted_example :
    (s : Selection) × (resource : Mapping) × (s
      ≡ parse_field_selectors (get (text "fieldSelector") count_call.query))
    × (s.api_version ≢ [])
    × (s.kind ≢ [])
    × ((get_resource shelf (Count.parse_gvk s.api_version s.kind) []).0 ≡ ok (some resource))
    × IsCounted shelf shelf_codec []
        (text "a")
        count_call
        s
        resource
        (get_resource shelf (Count.parse_gvk s.api_version s.kind) []).1
        count_reply
list_handler-IsCounted_example =
    list_handler-IsCounted shelf shelf_codec [] (text "a") count_call [] count_reply runs.2

create_handler-IsDecided_example :
    IsDecided shelf shelf_codec []
      (text "a")
      []
      call
      []
      (content 201 (some (text "application/json")) (text "reply"))
create_handler-IsDecided_example =
    create_handler-IsDecided shelf shelf_codec [] (text "a") [] call []
      (content 201 (some (text "application/json")) (text "reply")) runs.3

serve-IsDenied_example :
    IsDenied
      (subject_access_review shelf (decision_attributes (text "a")) [] [])
      (serve shelf shelf_codec api [] [] (decision (text "a") (text "n") call_by_nobody) [])
    × IsDenied
        (subject_access_review shelf (query_attributes (text "a")) [] [])
        (serve shelf shelf_codec api [] [] (query (text "a") (text "n") call_by_nobody) [])
serve-IsDenied_example =
    serve-IsDenied shelf shelf_codec api [] [] (text "a") (text "n") call_by_nobody []

abbrev decoded : DecisionRequest
decoded = record { name = []; namespace = []; state = null; questions = (text "t", question) ∷ [] }

decode-AreDecoded_example :
    (payload : DecisionPayload) × (shelf_codec.unmarshal_decision (text "t") ≡ ok payload)
    × (decoded.questions ≢ [])
    × AreDecoded payload.questions decoded.questions
decode-AreDecoded_example = decode-AreDecoded shelf_codec (text "t") decoded runs.5

normalize_question-eq_iff_example :
    IsWellFormed question ↔ (normalize_question (text "t") question ≡ ok question)
normalize_question-eq_iff_example = normalize_question-eq_iff (text "t") question

parse_field_selectors-residual_example :
    (parse_field_selectors (text "kind=Pod,a=b")).field_selector
    ≡ join (drop_empty (residual (split (text "kind=Pod,a=b") b','))) b','
parse_field_selectors-residual_example = parse_field_selectors-residual (text "kind=Pod,a=b")

no_equals : Lacks b'=' (text "!")
unfolding text
no_equals = omega arith

abbrev chosen : Selection
chosen = record { api_version = text "v1"; kind = text "Node"; field_selector = [] }

select-kind_example :
    select chosen (text "kind" ++ (text "!" ++ b'=' ∷ text "Pod"))
    ≡ record chosen { kind = text "Pod" }
select-kind_example = select-kind chosen (text "!") (text "Pod") no_equals

normalize_questions-Perm_example :
    (rs' : List (Text × Question)) × (normalize_questions
        ((text "u", question) ∷ (text "t", question) ∷ [])
      ≡ ok rs')
    × Permᴰ ((text "t", question) ∷ (text "u", question) ∷ []) rs'
normalize_questions-Perm_example =
    normalize_questions-Perm ((text "t", question) ∷ (text "u", question) ∷ []) (swap refl refl)
      runs.7
