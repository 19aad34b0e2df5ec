-- ===== src/Tests/Programs.antt =====
-- The theorems on the start of the server, on main and on the sample webhooks, at small inputs.
use api_extension.Prelude.{
  Result, ℕ, ◌≡◌, ◌↔◌, refl, inl, inr, true, false, none, some, [], ◌∷◌, All, ok, zero,
}
use api_extension.Text.{Text, text, ◌==◌}
use api_extension.Text.Strings.{
  has_prefix, split, trim_space, trim_func, trim_left, trim_right, is_space,
}
use api_extension.Value.{boolean, Value, string, object, Fields, end, field, lookup, insert}
use api_extension.Kube.{Codec, DecisionPayload, DecisionAnswer}
use api_extension.Server.Tls.{IsPlain}
use api_extension.Server.Start.{SearchApiServer, Host, start, not_exist, context_done}
use api_extension.Server.Cleanup.{socket_after, clear, IsSecure, start-clear, start-AreSecure}
use api_extension.Cmd.{present, split_comma_separated}
use api_extension.Cmd.Main.{Flags, default_flags, Platform, main}
use api_extension.Cmd.Servers.{IsRefused, main-AreRefused}
use api_extension.Decision.{decode_decision_request}
use api_extension.Decision.Handler.{response_of}
use api_extension.Samples.{
  Cluster, decide, create_decision_request, is_yes, question_key, question, state_of,
  decision_request, extract_sensitive_decision,
}
use api_extension.Samples.Defaulting.{label_key, label_value, label_operations}
use api_extension.Samples.Validation
use api_extension.Samples.Validation.{admission_response}
use api_extension.Samples.Reviews.{IsFetched, IsReview, main-IsReview}
use api_extension.Samples.Pointer.{apply_patch}
use api_extension.Samples.Patch.{HasLabels, with_labels, label_operations-apply_patch}
use api_extension.Samples.Refused.{label_operations-some_iff}
use api_extension.Samples.Answers.{asked, decoded, decode-asked, IsYes, extract-IsYes_iff}
use api_extension.Decision.Documents.{IsRead}
use api_extension.Value.Yaml.{yaml_of, yaml_fields}
use api_extension.Tests.World.{shelf_codec}

-- A system where every call succeeds and no socket is there, and where the context ends.
abbrev calm : Host Text Text
calm = record {
  tls = λ info. ok (text "config");
  answer = λ a h. none;
  remove = λ h. not_exist;
  listen_error = λ h. none;
  woken = λ h. context_done;
}

-- A server of the socket, in front of a store without TLS.
abbrev socket_server : SearchApiServer Text ℕ
socket_server = record {
  kube_config = text "config";
  port = text "-1";
  cert_file = [];
  key_file = [];
  core_resources = [];
  harikube_urls = text "http://etcd" ∷ [];
  harikube_cert_file = [];
  harikube_key_file = [];
  harikube_ca_file = [];
  harikube_skip_verify = false;
  decision_maker_url = [];
  decision_maker_timeout = 10;
}

nothing_yet : socket_after {KubeConfig = Text} {Config = Text} [] ≡ clear
unfolding socket_after
nothing_yet = refl

start-clear_example : socket_after (start calm socket_server []).1 ≡ clear
start-clear_example = start-clear calm socket_server [] nothing_yet

start-AreSecure_example : All IsSecure (start calm socket_server []).1
start-AreSecure_example = start-AreSecure calm socket_server [] tt

-- A system where every file is empty.
abbrev empty_files : Platform Text ℕ
empty_files = record {
  stat = λ file. present zero;
  clean = λ file. file;
  kube_config = λ h. some (text "config");
  fails = λ a h. false;
}

abbrev secure_flags : Flags ℕ
secure_flags = record (default_flags 10) {
  harikube_urls = text "https://etcd";
  harikube_cert_file = text "/tls.crt";
}

asks_for_tls : ¬ All IsPlain (split_comma_separated (trim_space secure_flags.harikube_urls))
unfolding split_comma_separated trim_space trim_func trim_left trim_right is_space split has_prefix
    text ◌==◌
asks_for_tls (h, k) = cc

main-AreRefused_example : All (IsRefused calm []) (main empty_files secure_flags []).1
main-AreRefused_example =
    main-AreRefused empty_files secure_flags calm [] asks_for_tls (inl (inr refl))

abbrev named : Fields
named = field (text "name") (string (text "sample")) end

abbrev sample : Fields
sample = field (text "kind") (string (text "Pod")) (field (text "metadata") (object named) end)

sample-HasLabels : HasLabels sample named end
unfolding lookup text ◌==◌
sample-HasLabels = (refl, inr (refl, refl))

label_operations-apply_patch_example :
    apply_patch (label_operations sample true) (object sample)
    ≡ some (object (with_labels (insert label_key (string (label_value true)) end) named sample))
label_operations-apply_patch_example =
    label_operations-apply_patch sample named end true sample-HasLabels

label_operations-some_iff_example :
    ((doc : Value) × (apply_patch (label_operations sample true) (object sample) ≡ some doc))
    ↔ ((md : Fields) × (labels : Fields) × HasLabels sample md labels)
label_operations-some_iff_example = label_operations-some_iff sample true

-- What the decoder makes of a request of the samples.
abbrev payload : DecisionPayload
payload = record {
  metadata = field (text "name") (string (text "dr-sample-5")) end;
  state = yaml_of (object (state_of (text "code")));
  questions = (question_key, decoded) ∷ [];
}

abbrev reader : Codec
reader = record shelf_codec { unmarshal_decision = λ b. ok payload }

payload-IsRead : IsRead (decision_request (text "dr-sample-5") (text "code")) payload
unfolding decision_request question lookup text ◌==◌ yaml_of yaml_fields
payload-IsRead = (refl, (refl, (refl, (refl, refl, refl), tt)))

decode-asked_example :
    decode_decision_request reader (text "body")
    ≡ ok (record {
      name = trim_space (text "dr-sample-5");
      namespace = [];
      state = object (state_of (text "code"));
      questions = (question_key, asked) ∷ [];
    })
decode-asked_example =
    decode-asked reader (text "body") (text "dr-sample-5") (text "code") payload refl payload-IsRead

-- The decision maker's answer that the source is sensitive.
abbrev sensitive : DecisionAnswer
sensitive = record {
  answers =
      field question_key
        (object (field (text "value") (string (text "contains-sensitive-info")) end)) end;
  usage = none;
}

extract-IsYes_iff_example :
    (extract_sensitive_decision (response_of shelf_codec (text "d") (text "a") 5 sensitive) ≡ true)
    ↔ ((v : Value) × (lookup question_key sensitive.answers ≡ some v) × IsYes v)
extract-IsYes_iff_example = extract-IsYes_iff shelf_codec (text "d") (text "a") 5 sensitive

-- A decision request that was answered with yes.
abbrev answered_yes : Fields
answered_yes =
    field (text "spec")
      (object (field (text "answers") (object (field question_key (boolean true) end)) end)) end

abbrev small_cluster : Cluster ℕ Text Text
small_cluster = record {
  build_kube_config = λ w. (ok (text "config"), w);
  new_for_config = λ config w. (ok config, w);
  create = λ client namespace obj w. (ok obj, w);
  get = λ client namespace name w. (ok answered_yes, w);
  sleep = λ n w. w;
  now = λ w. (w, w);
  get_name = λ obj. text "d";
}

abbrev print_review : Fields → Result Text Text
print_review review = ok (text "review")

reviewed : (Validation.main small_cluster print_review 5).0 ≡ ok (true, text "review")
unfolding Validation.main admission_response decide create_decision_request
    extract_sensitive_decision is_yes lookup text ◌==◌ question_key
reviewed = refl

main-IsReview_example :
    (dr : Fields) × (review : Fields) × IsFetched small_cluster
      (text "dr-validate-")
      (text "User message: here is my password: P@ssw0rd")
      dr
    × (extract_sensitive_decision dr ≡ true)
    × IsReview true review
    × (print_review review ≡ ok (text "review"))
main-IsReview_example = main-IsReview small_cluster print_review 5 true (text "review") reviewed
