-- ===== src/Decision/Quiet.antt =====
-- A decision keeps every relation on the world that the calls of a handler without a commit or a put
-- keep, and the call of the decision maker.
use api_extension.Prelude.{[], ◌++◌, map_err, not, Bool-cases, inl, inr}
use api_extension.Text.{Text, text, ◌==◌}
use api_extension.Http.{Request, error, bad_gateway}
use api_extension.Kube.{DecisionCall, Backend, Codec}
use api_extension.Kube.Store.{Frame}
use api_extension.Transaction.Frame.{continue-R}
use api_extension.Query.{require_access}
use api_extension.Query.Quiet.{require_access-R}
use api_extension.Decision.{DecisionRequest}
use api_extension.Decision.Handler.{
  decision_attributes, decision_name, maker_request, invoke_decision_maker, call_and_write,
  create_handler, endpoint_of, read_and_decode, resolve_namespace,
}

module _ {World : Type 0} {env : Backend World} (frame : Frame env) (codec : Codec)
    (maker_R : (endpoint body : Text) (w : World)
      → frame.R w (env.http_do (maker_request endpoint body) w).1) where
  open frame use {R, R_refl, R_trans}

  invoke-R :
      (endpoint : Text) (call : DecisionCall) (w : World)
      → R w (invoke_decision_maker env codec endpoint call w).1
  unfolding invoke_decision_maker
  invoke-R endpoint call w =
      continue-R frame
        (map_err (λ e. text "marshal decision request: " ++ e) (codec.json_call call)) _ w w
        (R_refl w)
        λ body w₁.
          continue-R frame
            (map_err (λ e. text "build decision maker request: " ++ e) (codec.new_request endpoint))
            _ w₁ w₁ (R_refl w₁)
            λ u w₂.
              continue-R frame
                (map_err (λ e. text "call decision maker: " ++ e)
                  (env.http_do (maker_request endpoint body) w₂).0)
                _ w₂ _ (maker_R endpoint body w₂) (λ response w₃. R_refl w₃)

  decision_name-R :
      (request : DecisionRequest) (name : Text) (w : World)
      → R w (decision_name env codec request name w).1
  unfolding decision_name
  decision_name-R request name w = elim (Bool-cases (not (request.name == []))) [
    | inl e ↦ rw e (R_refl w)
    | inr e ↦ rw e (elim (Bool-cases (not (name == []))) [
      | inl e' ↦ rw e' (R_refl w)
      | inr e' ↦ rw e' (frame.now_R w)
    ])
  ]

  pub create_handler-R :
      (url namespace name : Text) (r : Request) (w : World)
      → R w (create_handler env codec url namespace name r w).1
  unfolding create_handler call_and_write
  create_handler-R url namespace name r w =
      continue-R frame (require_access env codec (decision_attributes namespace) r.header w).0 _ w _
        (require_access-R frame codec (decision_attributes namespace) r.header w)
        λ u w₁. continue-R frame (read_and_decode codec r) _ w₁ w₁ (R_refl w₁) λ request w₂.
          continue-R frame (resolve_namespace r.path namespace request) _ w₂ w₂ (R_refl w₂)
            λ space w₃. R_trans w₃ _ _ (decision_name-R request name w₃) (
              continue-R frame
                (map_err (λ e. error e bad_gateway)
                  (invoke_decision_maker env codec (endpoint_of url)
                    (record { state = request.state; questions = request.questions })
                    (decision_name env codec request name w₃).1).0)
                _ (decision_name env codec request name w₃).1 _ (invoke-R (endpoint_of url) _ _)
                (λ answer w₄. frame.now_R w₄))
