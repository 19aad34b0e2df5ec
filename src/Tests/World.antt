-- ===== src/Tests/World.antt =====
-- A small server and a small store, for the tests: every kind is mapped to pods of a namespace, the
-- user "ann" may do everything, and the store is a list of keys with their values.
use api_extension.Prelude.{
  ◌≡◌, ◌≢◌, ◌⊎◌, inr, refl, sym, ◌∙◌, true, false, Option, none, some, List, [], ◌∷◌, ◌++◌, arith,
  Result, ok, if◌then◌else◌,
}
use api_extension.Text.{Text, text, ◌==◌, eq_refl, eq_false}
use api_extension.Value.{null, string, Fields, end, field}
use api_extension.Http.{Values, Request}
use api_extension.Kube.{
  namespaced, Mapping, Txn, TxnResponse, Backend, Codec, RestClient, rest_client, Question,
}
use api_extension.Kube.Store.{Store}

abbrev pub Shelf : Type 0
Shelf = List (Text × Text)

unfoldable pub find : Text → Shelf → Option Text
find k [] = none
find k ((j, v) ∷ w) = if j == k then some v else find k w

abbrev pub pods : Mapping
pods = record { group = []; version = text "v1"; resource = text "pods"; scope = namespaced }

abbrev commit_found : Txn → Shelf → Option Text → Result Text (Option TxnResponse) × Shelf
commit_found t w none =
    (ok (some (record { succeeded = true; revision = 7 })), (t.key, t.value) ∷ w)
commit_found t w (some v) = (ok (some (record { succeeded = false; revision = 7 })), w)

abbrev pub shelf : Backend Shelf
shelf = record {
  rest_mapping = λ gvk w. (ok (some pods), w);
  reset = λ w. w;
  review = λ spec w. (ok (spec.user == text "ann"), w);
  commit = λ t w. commit_found t w (find t.key w);
  get = λ k opts w. (ok (some (record { count = 3; revision = 7 })), w);
  put = λ k v w. (ok tt, (k, v) ∷ w);
  http_do =
      λ r w. (ok (record { status_code = 200; status = text "200 OK"; body = ok (text "pod") }), w);
  now = λ w. (5, w);
}

pub commit_found-other :
    (t : Txn) (w : Shelf) (o : Option Text) (k : Text)
    → k ≢ t.key
    → find k (commit_found t w o).1 ≡ find k w
unfolding find
commit_found-other t w none k h = rw (eq_false t.key k (λ e. h (sym e))) refl
commit_found-other t w (some v) k h = refl

pub commit_found-present :
    (t : Txn) (w : Shelf) (o : Option Text) (v : Text)
    → find t.key w ≡ o
    → o ≡ some v
    → find t.key (commit_found t w o).1 ≡ some v
commit_found-present t w none v h e = cc
commit_found-present t w (some u) v h e = h ∙ e

pub commit_found-absent :
    (t : Txn) (w : Shelf) (o : Option Text)
    → find t.key w ≡ o
    → o ≡ none
    → (find t.key (commit_found t w o).1 ≡ none)
      ⊎ (find t.key (commit_found t w o).1 ≡ some t.value)
unfolding find
commit_found-absent t w none h e = inr (rw (eq_refl t.key) refl)
commit_found-absent t w (some u) h e = cc

pub commit_found-succeeded :
    (t : Txn) (w : Shelf) (o : Option Text) (r : TxnResponse)
    → find t.key w ≡ o
    → (commit_found t w o).0 ≡ ok (some r)
    → r.succeeded ≡ true
    → (find t.key w ≡ none) × (find t.key (commit_found t w o).1 ≡ some t.value)
unfolding find
commit_found-succeeded t w none r h e s = (h, rw (eq_refl t.key) refl)
commit_found-succeeded t w (some u) r h e s = absurd (ground arith)

pub find-put-other : (j v k : Text) (w : Shelf) → k ≢ j → find k ((j, v) ∷ w) ≡ find k w
unfolding find
find-put-other j v k w h = rw (eq_false j k (λ e. h (sym e))) refl

pub find-put : (k v : Text) (w : Shelf) → find k ((k, v) ∷ w) ≡ some v
unfolding find
find-put k v w = rw (eq_refl k) refl

abbrev pub shelf_store : Store shelf
shelf_store = record {
  value = find;
  rest_mapping_keeps = λ gvk w k. refl;
  reset_keeps = λ w k. refl;
  review_keeps = λ spec w k. refl;
  now_keeps = λ w k. refl;
  get_keeps = λ j opts w k. refl;
  dry_run_keeps = λ r w k d. refl;
  commit_other = λ t w k h. commit_found-other t w (find t.key w) k h;
  commit_present = λ t w v h. commit_found-present t w (find t.key w) v refl h;
  commit_absent = λ t w h. commit_found-absent t w (find t.key w) refl h;
  commit_succeeded = λ t w r h s. commit_found-succeeded t w (find t.key w) r refl h s;
  put_other = λ j v w k h. find-put-other j v k w h;
  put_stored = λ k v w h. find-put k v w;
}

-- A pod, which each text is read as, and a transaction that creates it.
abbrev pub pod : Fields
pod = field (text "apiVersion") (string (text "v1")) (field (text "kind") (string (text "Pod")) end)

abbrev pub question : Question
question = record { type = text "noul"; instructions = text "Go?"; criteria = null }

abbrev pub shelf_codec : Codec
shelf_codec = record {
  unmarshal_transaction = λ b. ok (record {
    metadata = field (text "name") (string b) (field (text "namespace") (string (text "a")) end);
    create = pod ∷ [];
    update = [];
    delete = [];
  });
  unmarshal_decision =
      λ b. ok (record { metadata = end; state = null; questions = (b, question) ∷ [] });
  unmarshal_map = λ b. ok pod;
  yaml_marshal = λ m. ok (text "pod");
  json_marshal = λ m. ok (text "pod");
  json_object = λ o. ok (text "object");
  yaml_container = λ c. ok (text "reply");
  json_container = λ c. ok (text "reply");
  decode_object = λ b. ok pod;
  unmarshal_object = λ b. ok pod;
  unmarshal_status = λ b. ok b;
  json_call = λ c. ok (text "call");
  unmarshal_answer = λ b. ok (record { answers = pod; usage = none });
  new_request = λ url. ok tt;
  status_text = λ n. text "status";
  format_time = λ n. text "time";
  quote = λ s. text "\"" ++ s ++ text "\"";
  gvk_string = λ gvk. gvk.kind;
  get_name = λ m. text "p";
  get_namespace = λ m. text "a";
  set_namespace = λ ns m. m;
}

abbrev pub ann : Values
ann = (text "X-Remote-User", text "ann" ∷ []) ∷ []

abbrev pub api : RestClient
api = rest_client (text "https://api")

-- A call with the body "t" by the user "ann".
abbrev pub call : Request
call = record { path = text "/x"; query = []; header = ann; body = ok (text "t") }

abbrev pub call_by_nobody : Request
call_by_nobody = record { path = text "/x"; query = []; header = []; body = ok (text "t") }
