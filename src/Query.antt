-- ===== src/Query.antt =====
-- internal/apiserver/query.go
pub mod Overwrites
pub mod Quiet
use api_extension.Prelude.{
  ℕ, ◌++◌, Bool, true, false, none, some, [], if◌then◌else◌, Result, ok, err, Exec, continue, pure,
  fail, lift, with_err, ◌>>=◌, ◌>>◌,
}
use api_extension.Text.{Text, text, ◌==◌}
use api_extension.Text.Strings.{trim_space}
use api_extension.Http.{
  Values, Request, Reply, error, content, status_created, bad_request, forbidden, not_found,
  internal_server_error,
}
use api_extension.Kube.{Attributes, Backend, Codec}
use api_extension.Helper.{subject_access_review}
use api_extension.Server.{group}

-- The access that a query needs.
unfoldable pub query_attributes : Text → Attributes
query_attributes namespace = record {
  namespace = namespace;
  verb = text "create";
  group = group;
  version = [];
  resource = text "queries";
}

-- parseQueryRequestBody: the body, or the status and the message of an error.
abbrev checked_body : Codec → Text → Result (ℕ × Text) Text
checked_body codec body =
    if trim_space body == []
    then err (bad_request, text "empty body")
    else elim (codec.unmarshal_map body) [ err e ↦ err (bad_request, e) | ok m ↦ ok body ]

unfoldable pub parse_query_request_body : Codec → Request → Result (ℕ × Text) Text
parse_query_request_body codec r = elim r.body [
  | err e ↦ err (bad_request, e)
  | ok body ↦ checked_body codec body
]

-- The key of a query.
unfoldable pub query_key : Text → Text
query_key name = text "queries/" ++ name

-- writeCreatedMinimal
unfoldable pub created_minimal : Reply
created_minimal = content status_created none (text "{}")

-- The answers to an access review.
abbrev pub check_review : Result Text Bool → Result Reply (Unit {0})
check_review (err e) = err (error (text "resource not found") not_found)
check_review (ok true) = ok tt
check_review (ok false) = err (error (text "resource forbidden") forbidden)

abbrev pub error_of : ℕ × Text → Reply
error_of e = error e.1 e.0

module _ {World : Type 0} (env : Backend World) (codec : Codec) where
  -- A review, and the answer where it does not allow the access.
  unfoldable pub require_access : Attributes → Values → Exec World Reply (Unit {0})
  require_access attributes header w =
      let (allowed, w') = subject_access_review env attributes header w in
      (check_review allowed, w')

  abbrev pub put_body : Text → Result (ℕ × Text) Text → Exec World Reply Reply
  put_body name (err e) = fail (error_of e)
  put_body name (ok body) = do
    with_err (λ e. error e internal_server_error) (env.put (query_key name) body)
    pure created_minimal

  -- The CreateHandler of getQueryHandler.
  unfoldable pub create_handler : Text → Text → Request → Exec World Reply Reply
  unfolding require_access parse_query_request_body
  create_handler namespace name r = do
    require_access (query_attributes namespace) r.header
    put_body name (parse_query_request_body codec r)
