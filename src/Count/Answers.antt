-- ===== src/Count/Answers.antt =====
-- What a count that is answered has done.
use api_extension.Prelude.{
  ℕ, ◌≡◌, ◌≢◌, refl, inl, inr, true, some, List, [], arith, Result-cases, Option-cases, ok,
  bind-eq-ok, map_err, lift,
}
use api_extension.Text.{Text, text, eq_iff}
use api_extension.Http.{Request, Reply, get}
use api_extension.Kube.{Mapping, GetResponse, Backend, Codec}
use api_extension.Helper.{get_resource, subject_access_review}
use api_extension.Query.{require_access}
use api_extension.Query.Overwrites.{require_access-ok}
use api_extension.Count.{Selection, parse_field_selectors, parse_gvk}
use api_extension.Count.Handler.{
  count_attributes, count_namespace, count_prefix, count_options, response_of, answer, check_count,
  internal, count_resource, count_selected, list_handler,
}

module _ {World : Type 0} (env : Backend World) (codec : Codec) (core : List Text) where
  -- What the answer `reply` to a count rests on, from the mapping of its kind.
  pub record IsCounted (namespace : Text) (r : Request) (s : Selection) (resource : Mapping)
      (w : World) (reply : Reply) : Type 0 where
    pub allowed :
        (subject_access_review env (count_attributes namespace resource) r.header w).0 ≡ ok true
    pub prefix : Text
    pub is_prefix : count_prefix codec core s.kind resource namespace ≡ ok prefix
    pub resp : GetResponse
    pub time : ℕ
    pub is_got :
        (env.get prefix
          (count_options (get (text "labelSelector") r.query) s.field_selector)
          (subject_access_review env (count_attributes namespace resource) r.header w).1).0
        ≡ ok (some resp)
    pub is_answer :
        answer codec r.header (response_of (count_namespace resource namespace) s.kind resp time)
        ≡ ok reply

  count_resource-IsCounted :
      (namespace : Text) (r : Request) (s : Selection) (resource : Mapping) (w : World)
      (reply : Reply)
      → (count_resource env codec core namespace r s resource w).0 ≡ ok reply
      → IsCounted namespace r s resource w reply
  unfolding count_resource require_access
  count_resource-IsCounted namespace r s resource w reply h =
      let (u, e, h1) =
        bind-eq-ok (require_access env codec (count_attributes namespace resource) r.header) _ w
          h in
      let (prefix, e2, h2) =
        bind-eq-ok (lift (map_err internal (count_prefix codec core s.kind resource namespace))) _ _
          h1 in
      let (resp, e3, h3) =
        bind-eq-ok
          (λ w'. (
            check_count
                (env.get prefix
                  (count_options (get (text "labelSelector") r.query) s.field_selector) w').0,
            (env.get prefix (count_options (get (text "labelSelector") r.query) s.field_selector)
                w').1,
          ))
          _ _ h2 in
      record {
        allowed = require_access-ok env codec (count_attributes namespace resource) r.header w u e;
        prefix = prefix;
        is_prefix = ground arith;
        resp = resp;
        time = _;
        is_got = ground arith;
        is_answer = h3;
      }

  count_selected-ok :
      (namespace : Text) (r : Request) (s : Selection) (w : World) (reply : Reply)
      → (count_selected env codec core namespace r s w).0 ≡ ok reply
      → (s.api_version ≢ [])
        × (s.kind ≢ [])
        × ((resource : Mapping) × ((get_resource env (parse_gvk s.api_version s.kind) w).0
              ≡ ok (some resource))
            × ((count_resource env codec core namespace r s resource
                  (get_resource env (parse_gvk s.api_version s.kind) w).1).0
                ≡ ok reply))
  unfolding count_selected
  count_selected-ok namespace r s w reply h =
      let named : s.api_version ≢ [] = ground (arith, eq_iff s.api_version []) in
      let kinded : s.kind ≢ [] = ground (arith, eq_iff s.kind [], eq_iff s.api_version []) in
      elim (Result-cases (get_resource env (parse_gvk s.api_version s.kind) w).0) [
        | inl (o, e) ↦ elim (Option-cases o) [
          | inl e' ↦ absurd (ground arith)
          | inr (resource, e') ↦ (named, kinded, (resource, ground arith, ground arith))
        ]
        | inr (x, e) ↦ absurd (ground arith)
      ]

  -- A count that is answered names an apiVersion and a kind that discovery maps. The caller may list
  -- that resource in the namespace of the call; the number is what the store counts, by the request's
  -- label selector and what is left of its field selector, under the prefix of that mapping.
  pub list_handler-IsCounted :
      (namespace : Text) (r : Request) (w : World) (reply : Reply)
      → (list_handler env codec core namespace r w).0 ≡ ok reply
      → (s : Selection) × (resource : Mapping) × (s
          ≡ parse_field_selectors (get (text "fieldSelector") r.query))
        × (s.api_version ≢ [])
        × (s.kind ≢ [])
        × ((get_resource env (parse_gvk s.api_version s.kind) w).0 ≡ ok (some resource))
        × IsCounted namespace r s resource
            (get_resource env (parse_gvk s.api_version s.kind) w).1
            reply
  unfolding list_handler
  list_handler-IsCounted namespace r w reply h =
      let s = parse_field_selectors (get (text "fieldSelector") r.query) in
      let (named, kinded, (resource, mapped, rest)) = count_selected-ok namespace r s w reply h in
      (
        s,
        resource,
        refl,
        named,
        kinded,
        mapped,
        count_resource-IsCounted namespace r s resource _ reply rest,
      )
