-- ===== src/Query/Overwrites.antt =====
-- What a query does to the store.
use api_extension.Prelude.{
  ℕ, ◌≡◌, ◌≢◌, refl, ap, inl, inr, true, some, [], arith, Result-cases, Result, ok, err, bind-eq-ok,
}
use api_extension.Text.{Text, eq_iff}
use api_extension.Text.Strings.{trim_space}
use api_extension.Value.{Fields}
use api_extension.Http.{Values, Request, Reply}
use api_extension.Kube.{Attributes, Backend, Codec}
use api_extension.Kube.Store.{Store}
use api_extension.Helper.{subject_access_review}
use api_extension.Query.{
  query_attributes, parse_query_request_body, query_key, created_minimal, require_access, put_body,
  create_handler,
}

module _ {World : Type 0} (env : Backend World) (codec : Codec) where
  pub require_access-ok :
      (a : Attributes) (header : Values) (w : World) (u : Unit {0})
      → (require_access env codec a header w).0 ≡ ok u
      → (subject_access_review env a header w).0 ≡ ok true
  unfolding require_access
  require_access-ok a header w u h = ground arith

module _ {World : Type 0} {env : Backend World} (store : Store env) (codec : Codec) where
  -- A body that is not blank and that YAML reads as a map.
  abbrev pub IsQuery : Request → Text → Type 0
  IsQuery r body =
      (r.body ≡ ok body)
      × (trim_space body ≢ [])
      × ((m : Fields) × (codec.unmarshal_map body ≡ ok m))

  parse-IsQuery :
      (r : Request) (body : Text) → parse_query_request_body codec r ≡ ok body → IsQuery r body
  unfolding parse_query_request_body
  parse-IsQuery r body h = elim (Result-cases r.body) [
    | inl (b, e) ↦ elim (Result-cases (codec.unmarshal_map b)) [
      | inl (m, e') ↦
          let same : b ≡ body = ground arith in
          (rw e (ap ok same), ground (arith, eq_iff (trim_space body) []), (m, rw (← same) e'))
      | inr (x, e') ↦ absurd (ground arith)
    ]
    | inr (x, e) ↦ absurd (ground arith)
  ]

  put_body-ok :
      (name : Text) (b : Result (ℕ × Text) Text) (w : World) (reply : Reply)
      → (put_body env codec name b w).0 ≡ ok reply
      → (body : Text) × (b ≡ ok body)
        × (reply ≡ created_minimal)
        × (store.value (query_key name) (put_body env codec name b w).1 ≡ some body)
  put_body-ok name (err e) w reply h = cc
  put_body-ok name (ok body) w reply h = elim (Result-cases (env.put (query_key name) body w).0) [
    | inl (tt, e) ↦ (body, refl, ground arith, rw e (store.put_stored (query_key name) body w e))
    | inr (x, e) ↦ absurd (ground arith)
  ]

  -- A query that is answered with the status 201 was allowed to the caller in the namespace of the
  -- call, and had a body that is not blank and that YAML reads as a map; the store now holds that
  -- body under the key of the query's name.
  pub create_handler-stored :
      (namespace name : Text) (r : Request) (w : World) (reply : Reply)
      → (create_handler env codec namespace name r w).0 ≡ ok reply
      → (body : Text) × IsQuery r body
        × (reply ≡ created_minimal)
        × ((subject_access_review env (query_attributes namespace) r.header w).0 ≡ ok true)
        × (store.value (query_key name) (create_handler env codec namespace name r w).1 ≡ some body)
  unfolding create_handler
  create_handler-stored namespace name r w reply h =
      let (u, allowed, rest) =
        bind-eq-ok (require_access env codec (query_attributes namespace) r.header)
          (λ v. put_body env codec name (parse_query_request_body codec r)) w h in
      let w' = (require_access env codec (query_attributes namespace) r.header w).1 in
      let (body, parsed, answered, stored) =
        put_body-ok name (parse_query_request_body codec r) w' reply rest in
      (
        body,
        parse-IsQuery r body parsed,
        answered,
        require_access-ok env codec (query_attributes namespace) r.header w u allowed,
        rw allowed stored,
      )
