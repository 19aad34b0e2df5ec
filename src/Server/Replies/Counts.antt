-- ===== src/Server/Replies/Counts.antt =====
-- With which status a count is answered, on every branch of its handler.
use api_extension.Prelude.{Option, none, some, List, [], Result, ok, err, arith}
use api_extension.Text.{Text, text, ◌==◌}
use api_extension.Http.{
  Values, Request, Reply, error, content, silent, bad_request, forbidden, not_found,
  internal_server_error, status_ok,
}
use api_extension.Kube.{Backend, Codec, Mapping, GetResponse}
use api_extension.Helper.{write_response}
use api_extension.Transaction.Handler.{sent}
use api_extension.Query.{require_access}
use api_extension.Api.{CountResponse}
use api_extension.Http.{get}
use api_extension.Helper.{get_resource}
use api_extension.Count.{Selection, parse_field_selectors, parse_gvk}
use api_extension.Count.Handler as Counts
use api_extension.Count.Handler.{count_attributes, count_prefix, count_options}
use api_extension.Server.Replies.{
  Fails, IsEnd, continue-Sent, map_err-Fails, if-Sent, end-Sent, require_access-Fails,
}

module _ (P : Reply → Type 0) {World : Type 0} (env : Backend World) (codec : Codec) where
  module _ (core : List Text) where
    check_mapping-Fails :
        (r : Result Text (Option Mapping))
        → ((m : Text) → P (error m not_found))
        → ((m : Text) → P (error m internal_server_error))
        → Fails P (Counts.check_mapping r)
    check_mapping-Fails (err e) p404 p500 = p500 e
    check_mapping-Fails (ok none) p404 p500 = p404 _
    check_mapping-Fails (ok (some m)) p404 p500 = tt

    check_count-Fails :
        (r : Result Text (Option GetResponse))
        → ((m : Text) → P (error m not_found))
        → ((m : Text) → P (error m internal_server_error))
        → Fails P (Counts.check_count r)
    check_count-Fails (err e) p404 p500 = p500 e
    check_count-Fails (ok none) p404 p500 = p404 _
    check_count-Fails (ok (some m)) p404 p500 = tt

    count_answer-IsEnd :
        (header : Values) (resp : CountResponse)
        → IsEnd P status_ok (sent (Counts.answer codec header resp))
    unfolding Counts.answer write_response
    count_answer-IsEnd header resp = ground arith

    count_answer-Sent :
        (header : Values) (resp : CountResponse)
        → ((m : Text) → P (error m internal_server_error))
        → ((kind : Option Text) (body : Text) → P (content status_ok kind body))
        → P silent
        → P (sent (Counts.answer codec header resp))
    count_answer-Sent header resp p500 good quiet =
        end-Sent P status_ok _ (count_answer-IsEnd header resp) p500 good quiet

    count_resource-Sent :
        (namespace : Text) (r : Request) (s : Selection) (resource : Mapping) (w : World)
        → ((m : Text) → P (error m forbidden))
        → ((m : Text) → P (error m not_found))
        → ((m : Text) → P (error m internal_server_error))
        → ((kind : Option Text) (body : Text) → P (content status_ok kind body))
        → P silent
        → P (sent (Counts.count_resource env codec core namespace r s resource w).0)
    unfolding Counts.count_resource
    count_resource-Sent namespace r s resource w p403 p404 p500 good quiet =
        let w₁ = (require_access env codec (count_attributes namespace resource) r.header w).1 in
        continue-Sent P _ _ w₁
          (require_access-Fails P env codec (count_attributes namespace resource) r.header w p404
            p403)
          λ _.
            continue-Sent P _ _ w₁
              (map_err-Fails P Counts.internal (count_prefix codec core s.kind resource namespace)
                p500)
              λ prefix.
                let found =
                  env.get prefix
                    (count_options (get (text "labelSelector") r.query) s.field_selector) w₁ in
                continue-Sent P _ _ found.1 (check_count-Fails found.0 p404 p500)
                  λ resp. count_answer-Sent r.header _ p500 good quiet

    pub count-Sent :
        (namespace : Text) (r : Request) (w : World)
        → ((m : Text) → P (error m bad_request))
        → ((m : Text) → P (error m forbidden))
        → ((m : Text) → P (error m not_found))
        → ((m : Text) → P (error m internal_server_error))
        → ((kind : Option Text) (body : Text) → P (content status_ok kind body))
        → P silent
        → P (sent (Counts.list_handler env codec core namespace r w).0)
    unfolding Counts.list_handler Counts.count_selected
    count-Sent namespace r w p400 p403 p404 p500 good quiet =
        let s = parse_field_selectors (get (text "fieldSelector") r.query) in
        if-Sent P (s.api_version == []) _ _ w (p400 _) (
          if-Sent P (s.kind == []) _ _ w (p400 _) (
            continue-Sent P _ _ _
              (check_mapping-Fails (get_resource env (parse_gvk s.api_version s.kind) w).0 p404
                p500)
              λ resource.
                count_resource-Sent namespace r s resource
                  (get_resource env (parse_gvk s.api_version s.kind) w).1 p403 p404 p500 good
                  quiet))
