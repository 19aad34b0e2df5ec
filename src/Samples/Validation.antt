-- ===== src/Samples/Validation.antt =====
-- config/samples/validation-webhook-sensitive-source.go: the answer that admits or rejects.
use api_extension.Prelude.{
  Bool, true, false, not, if◌then◌else◌, [], Result, map_err, Exec, lift, ◌>>=◌, pure,
}
use api_extension.Text.{Text, text}
use api_extension.Value.{boolean, number, string, object, Fields, end, field}
use api_extension.Samples.{Cluster, Exit, failed_to_build_output, decide}

abbrev rejection_status : Bool → Text → Fields
rejection_status true message = end
rejection_status false message =
    field (text "status")
      (object
        (field (text "message") (string message) (field (text "code") (number (text "403")) end)))
      end

-- The object that admissionResponse encodes.
unfoldable pub admission_review : Bool → Text → Text → Fields
admission_review allowed message uid =
    field (text "apiVersion") (string (text "admission.k8s.io/v1")) (
      field (text "kind") (string (text "AdmissionReview")) (
        field (text "response")
          (object (
            field (text "uid") (string uid)
              (field (text "allowed") (boolean allowed) (rejection_status allowed message))))
          end))

-- admissionResponse, with json.MarshalIndent.
unfoldable pub admission_response :
    (Fields → Result Text Text) → Bool → Text → Text → Result Text Text
unfolding admission_review
admission_response marshal allowed message uid = marshal (admission_review allowed message uid)

unfoldable pub rejection_message : Text
unfolding text
rejection_message = text "rejected by validation webhook: source contains sensitive information"

module _ {World Config Client : Type 0} (cluster : Cluster World Config Client)
    (marshal : Fields → Result Text Text) where
  -- main: the decision and the response that it prints.
  unfoldable pub main : Exec World Exit (Bool × Text)
  unfolding admission_response
  main = do
    contains ←
        decide cluster (text "dr-validate-") (text "User message: here is my password: P@ssw0rd")
    response ← lift (
        map_err failed_to_build_output (
          admission_response marshal (not contains) (if not contains then [] else rejection_message)
            (text "example-uid-1234")))
    pure (contains, response)
