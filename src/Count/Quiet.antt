-- ===== src/Count/Quiet.antt =====
-- A count keeps every relation on the world that the calls of a handler without a commit or a put keep.
use api_extension.Prelude.{[], List, map_err}
use api_extension.Text.{Text, text, ◌==◌}
use api_extension.Http.{Request, get}
use api_extension.Kube.{Mapping, Backend, Codec}
use api_extension.Kube.Store.{Frame}
use api_extension.Transaction.Frame.{continue-R, get_resource-R, if-R}
use api_extension.Query.{require_access}
use api_extension.Query.Quiet.{require_access-R}
use api_extension.Count.{Selection, parse_field_selectors, parse_gvk}
use api_extension.Count.Handler.{
  count_attributes, count_prefix, count_options, internal, count_resource, count_selected,
  list_handler, check_count,
}

module _ {World : Type 0} {env : Backend World} (frame : Frame env) (codec : Codec)
    (core : List Text) where
  open frame use {R, R_refl, R_trans}

  count_resource-R :
      (namespace : Text) (r : Request) (s : Selection) (resource : Mapping) (w : World)
      → R w (count_resource env codec core namespace r s resource w).1
  unfolding count_resource
  count_resource-R namespace r s resource w =
      let attributes = count_attributes namespace resource in
      continue-R frame (require_access env codec attributes r.header w).0 _ w _
        (require_access-R frame codec attributes r.header w)
        λ u w₁.
          continue-R frame (map_err internal (count_prefix codec core s.kind resource namespace)) _
            w₁ w₁ (R_refl w₁)
            λ prefix w₂.
              let options = count_options (get (text "labelSelector") r.query) s.field_selector in
              continue-R frame (check_count (env.get prefix options w₂).0) _ w₂ _
                (frame.get_R prefix options w₂) λ resp w₃. frame.now_R w₃

  pub list_handler-R :
      (namespace : Text) (r : Request) (w : World)
      → R w (list_handler env codec core namespace r w).1
  unfolding list_handler count_selected
  list_handler-R namespace r w =
      let s = parse_field_selectors (get (text "fieldSelector") r.query) in
      if-R frame (s.api_version == []) _ _ w (R_refl w) (
        if-R frame (s.kind == []) _ _ w (R_refl w) (
          continue-R frame _ _ w _ (get_resource-R frame (parse_gvk s.api_version s.kind) w)
            (λ resource w'. count_resource-R namespace r s resource w')))
