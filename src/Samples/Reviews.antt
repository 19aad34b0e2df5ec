-- ===== src/Samples/Reviews.antt =====
-- What config/samples/validation-webhook-sensitive-source.go answers.
use api_extension.Prelude.{
  Bool, true, false, not, Option, none, some, [], ◌≡◌, refl, Result, ok, err, map_err, bind-eq-ok,
  ok_inj, ap, ◌∙◌, with_err, if◌then◌else◌, lift,
}
use api_extension.Text.{Text, text, ◌==◌}
use api_extension.Value.{Value, boolean, number, string, object, Fields, lookup}
use api_extension.Samples.{
  Cluster, extract_sensitive_decision, failed_to_build_output, failed_to_get_decision_request,
  decide, create_decision_request, failed_to_create_decision_request, failed_to_build_kube_config,
  failed_to_create_dynamic_client,
}
use api_extension.Samples.Validation.{admission_review, admission_response, rejection_message, main}

-- The status of a response: none when the object is admitted, or 403 with the reason.
abbrev pub HasStatus : Bool → Option Value → Type 0
HasStatus true (some (object status)) =
    (lookup (text "code") status ≡ some (number (text "403")))
    × (lookup (text "message") status ≡ some (string rejection_message))
HasStatus true other = ⊥
HasStatus false status = status ≡ none

-- The response to the review of an object, by whether the object is sensitive.
abbrev pub IsReview : Bool → Fields → Type 0
IsReview contains review =
    (response : Fields) × (lookup (text "response") review ≡ some (object response))
    × (lookup (text "uid") response ≡ some (string (text "example-uid-1234")))
    × (lookup (text "allowed") response ≡ some (boolean (not contains)))
    × HasStatus contains (lookup (text "status") response)

abbrev review_of : Bool → Fields
review_of contains =
    admission_review (not contains) (if not contains then [] else rejection_message)
      (text "example-uid-1234")

review_of-IsReview : (contains : Bool) → IsReview contains (review_of contains)
unfolding admission_review lookup text ◌==◌
review_of-IsReview true = (_, refl, refl, refl, (refl, refl))
review_of-IsReview false = (_, refl, refl, refl, refl)

map_err-ok : {E F A : Type 0} (f : E → F) (r : Result E A) {a : A} → map_err f r ≡ ok a → r ≡ ok a
map_err-ok f (ok b) h = cc
map_err-ok f (err e) h = cc

module _ {World Config Client : Type 0} (cluster : Cluster World Config Client) where
  -- The object that a sample decides by: the cluster gave it for the name of the object that was created
  -- for the source.
  abbrev pub IsFetched : Text → Text → Fields → Type 0
  IsFetched prefix source dr =
      (client : Client) × (created : Fields) × (u : World) × (v : World) × ((create_decision_request
          cluster prefix client (text "default") source u).0
        ≡ ok created)
      × ((cluster.get client (text "default") (cluster.get_name created) v).0 ≡ ok dr)

  decide-IsFetched :
      (prefix source : Text) (w : World) (contains : Bool)
      → (decide cluster prefix source w).0 ≡ ok contains
      → (dr : Fields) × IsFetched prefix source dr × (extract_sensitive_decision dr ≡ contains)
  unfolding decide
  decide-IsFetched prefix source w contains h =
      let w₁ = (cluster.build_kube_config w).1 in
      let (config, _, h₁) =
        bind-eq-ok (with_err failed_to_build_kube_config cluster.build_kube_config) _ w h in
      let (client, _, h₂) =
        bind-eq-ok (with_err failed_to_create_dynamic_client (cluster.new_for_config config)) _ w₁
          h₁ in
      let w₂ = (cluster.new_for_config config w₁).1 in
      let create = create_decision_request cluster prefix client (text "default") source in
      let (created, e₃, h₃) =
        bind-eq-ok (with_err failed_to_create_decision_request create) _ w₂ h₂ in
      let w₃ = cluster.sleep 500000000 (create w₂).1 in
      let fetch = cluster.get client (text "default") (cluster.get_name created) in
      let (dr, e₄, h₄) = bind-eq-ok (with_err failed_to_get_decision_request fetch) _ w₃ h₃ in
      (
        dr,
        (client, created, w₂, w₃, map_err-ok _ (create w₂).0 e₃, map_err-ok _ (fetch w₃).0 e₄),
        ok_inj h₄,
      )

  -- Where the sample prints a response, the response is the encoding of a review that follows the
  -- decision request that it has fetched: a source that is sensitive by it is rejected, with the code
  -- 403 and the reason, and any other source is allowed, with no status.
  pub main-IsReview :
      (marshal : Fields → Result Text Text) (w : World) (contains : Bool) (response : Text)
      → (main cluster marshal w).0 ≡ ok (contains, response)
      → (dr : Fields) × (review : Fields) × IsFetched
          (text "dr-validate-")
          (text "User message: here is my password: P@ssw0rd")
          dr
        × (extract_sensitive_decision dr ≡ contains)
        × IsReview contains review
        × (marshal review ≡ ok response)
  unfolding main admission_response
  main-IsReview marshal w contains response h =
      let decided =
        decide cluster (text "dr-validate-") (text "User message: here is my password: P@ssw0rd") in
      let (found, e₁, h₁) = bind-eq-ok decided _ w h in
      let (out, e₂, h₂) =
        bind-eq-ok (lift (map_err failed_to_build_output (marshal (review_of found)))) _
          (decided w).1 h₁ in
      let pair : (found, out) ≡ (contains, response) = ok_inj h₂ in
      let same : found ≡ contains = ap (λ (p : Bool × Text). p.0) pair in
      let (dr, fetched, e) = decide-IsFetched _ _ w found e₁ in
      (
        dr,
        review_of found,
        fetched,
        e ∙ same,
        rw (← same) (review_of-IsReview found),
        map_err-ok _ (marshal (review_of found)) e₂ ∙ ap (λ (p : Bool × Text). ok p.1) pair,
      )
