-- ===== src/Query/Quiet.antt =====
-- A query keeps every relation on the world that access reviews and puts of queries keep.
use api_extension.Prelude.{ℕ, Result, ok, err}
use api_extension.Text.{Text}
use api_extension.Http.{Values, Request}
use api_extension.Kube.{Attributes, Backend, Codec}
use api_extension.Kube.Store.{Frame}
use api_extension.Helper.{subject_access_review}
use api_extension.Transaction.Frame.{continue-R}
use api_extension.Query.{
  query_attributes, parse_query_request_body, query_key, require_access, put_body, create_handler,
}

module _ {World : Type 0} {env : Backend World} (frame : Frame env) (codec : Codec) where
  open frame use {R, R_refl, R_trans}

  pub require_access-R :
      (a : Attributes) (header : Values) (w : World) → R w (require_access env codec a header w).1
  unfolding require_access subject_access_review
  require_access-R a header w = frame.review_R _ w

  put_body-R :
      (name : Text) (put_R : (body : Text) (w : World) → R w (env.put (query_key name) body w).1)
      (b : Result (ℕ × Text) Text) (w : World)
      → R w (put_body env codec name b w).1
  put_body-R name put_R (err e) w = R_refl w
  put_body-R name put_R (ok body) w = continue-R frame _ _ w _ (put_R body w) (λ u w'. R_refl w')

  pub create_handler-R :
      (namespace name : Text)
      (put_R : (body : Text) (w : World) → R w (env.put (query_key name) body w).1) (r : Request)
      (w : World)
      → R w (create_handler env codec namespace name r w).1
  unfolding create_handler
  create_handler-R namespace name put_R r w =
      continue-R frame _ _ w _ (require_access-R (query_attributes namespace) r.header w)
        (λ u w'. put_body-R name put_R (parse_query_request_body codec r) w')
