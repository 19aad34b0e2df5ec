-- ===== src/Http.antt =====
-- The parts of net/http and net/url that the handlers use.
use api_extension.Prelude.{ℕ, Option, List, [], ◌∷◌, if◌then◌else◌, Result}
use api_extension.Text.{Text, ◌==◌}

-- `http.Header` with canonical keys, and `url.Values`.
abbrev pub Values : Type 0
Values = List (Text × List Text)

-- `header.Values(key)`
unfoldable pub values : Text → Values → List Text
values k [] = []
values k ((j, vs) ∷ h) = if j == k then vs else values k h

abbrev pub first_or_empty : List Text → Text
first_or_empty [] = []
first_or_empty (v ∷ vs) = v

-- `header.Get(key)`, `query.Get(key)`
unfoldable pub get : Text → Values → Text
unfolding values
get k h = first_or_empty (values k h)

-- `query` is `r.URL.Query()`, and `body` the result of `io.ReadAll(r.Body)`.
pub record Request : Type 0 where
  pub path : Text
  pub query : Values
  pub header : Values
  pub body : Result Text Text

-- What a handler has sent when it returns.
pub data Reply : Type 0 where
  -- `http.Error(w, message, status)`
  error : Text → ℕ → Reply
  -- a status, the Content-Type that was set, and the body
  content : ℕ → Option Text → Text → Reply
  -- nothing: the handler returned before it wrote
  silent : Reply

abbrev pub status_ok : ℕ
status_ok = 200

abbrev pub status_created : ℕ
status_created = 201

abbrev pub bad_request : ℕ
bad_request = 400

abbrev pub forbidden : ℕ
forbidden = 403

abbrev pub not_found : ℕ
not_found = 404

abbrev pub internal_server_error : ℕ
internal_server_error = 500

abbrev pub bad_gateway : ℕ
bad_gateway = 502

-- A request that the program itself sends. `path` and `query` replace those of the endpoint, where
-- they are not empty.
pub record ClientRequest : Type 0 where
  pub method : Text
  pub endpoint : Text
  pub path : Text
  pub query : Values
  pub header : Values
  pub body : Text

-- `status` is the status line, and `body` the result of `io.ReadAll(response.Body)`.
pub record ClientResponse : Type 0 where
  pub status_code : ℕ
  pub status : Text
  pub body : Result Text Text
