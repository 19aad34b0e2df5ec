-- ===== src/Samples.antt =====
-- config/samples/defaulting-webhook-sensitive-source.go and
-- config/samples/validation-webhook-sensitive-source.go: the flow that the two samples share.
pub mod Defaulting
pub mod Validation
pub mod Pointer
pub mod Patch
pub mod Refused
pub mod Reviews
pub mod Answers
use api_extension.Prelude.{
  ℕ, ◌++◌, Bool, true, false, ◌||◌, Option, none, some, [], if◌then◌else◌, Result, ok, err, Exec,
  pure, lift, with_err, ◌>>=◌, ◌>>◌,
}
use api_extension.Text.{Text, text, ◌==◌}
use api_extension.Text.Strings.{decimal}
use api_extension.Value.{Value, null, boolean, string, object, Fields, end, field, lookup}
use api_extension.Server.{group, version}

unfoldable pub question_key : Text
unfolding text
question_key = text "contains_sensitive_info"

unfoldable pub answer_contains : Text
unfolding text
answer_contains = text "contains-sensitive-info"

unfoldable pub answer_no : Text
unfolding text
answer_no = text "no-sensitive-info"

-- The question of a sample, and the state it asks it of.
unfoldable pub criteria : Fields
criteria =
    field (text "true") (string answer_contains) (field (text "false") (string answer_no) end)

unfoldable pub instructions : Text
unfolding text
instructions = text "Does the provided source contain sensitive information?"

unfoldable pub question : Fields
unfolding criteria
question = field (text "type") (string (text "choice")) (
    field (text "instructions") (string instructions)
      (field (text "criteria") (object criteria) end))

unfoldable pub state_of : Text → Fields
state_of source = field (text "source") (string source) end

-- The object of createDecisionRequest. decisionGroup and decisionVersion are the group and the version
-- of the server.
unfoldable pub decision_request : Text → Text → Fields
unfolding question state_of
decision_request name source =
    field (text "apiVersion")
      (string (text "apiserver.api-extension.harikube.info" ++ text "/" ++ text "v1"))
      (field (text "kind") (string (text "DecisionRequest")) (
        field (text "metadata") (object (field (text "name") (string name) end)) (
          field (text "spec")
            (object (
              field (text "state") (object (state_of source))
                (field (text "questions") (object (field question_key (object question) end)) end)))
            end)))

-- A structured answer, by its "value".
unfoldable pub value_is_yes : Option Value → Bool
value_is_yes (some (boolean b)) = b
value_is_yes (some (string s)) = s == text "true" || s == answer_contains
value_is_yes other = false

unfoldable pub is_yes : Value → Bool
unfolding value_is_yes
is_yes (boolean b) = b
is_yes (string s) = s == text "true" || s == text "yes" || s == answer_contains || s == question_key
is_yes (object m) = value_is_yes (lookup (text "value") m)
is_yes other = false

abbrev pub answer_is_yes : Option Value → Bool
answer_is_yes (some v) = is_yes v
answer_is_yes none = false

abbrev pub answers_say_yes : Option Value → Bool
answers_say_yes (some (object answers)) = answer_is_yes (lookup question_key answers)
answers_say_yes other = false

abbrev pub spec_says_yes : Option Value → Bool
spec_says_yes (some (object spec)) = answers_say_yes (lookup (text "answers") spec)
spec_says_yes other = false

-- extractSensitiveDecision
unfoldable pub extract_sensitive_decision : Fields → Bool
unfolding is_yes
extract_sensitive_decision dr = spec_says_yes (lookup (text "spec") dr)

-- The cluster and the libraries that reach it: buildKubeConfig, dynamic.NewForConfig, the dynamic
-- client's Create and Get of a decision request in a namespace, time.Sleep, the clock in nanoseconds, and
-- GetName.
pub record Cluster (World Config Client : Type 0) : Type 0 where
  pub build_kube_config : Exec World Text Config
  pub new_for_config : Config → Exec World Text Client
  pub create : Client → Text → Fields → Exec World Text Fields
  pub get : Client → Text → Text → Exec World Text Fields
  pub sleep : ℕ → World → World
  pub now : World → ℕ × World
  pub get_name : Fields → Text

-- os.Exit(2), by its message; the error of the call is the text.
pub data Exit : Type 0 where
  failed_to_build_kube_config failed_to_create_dynamic_client : Text → Exit
  failed_to_create_decision_request failed_to_get_decision_request : Text → Exit
  failed_to_build_output : Text → Exit

module _ {World Config Client : Type 0} (cluster : Cluster World Config Client) where
  -- createDecisionRequest, with the prefix of its sample.
  unfoldable pub create_decision_request : Text → Client → Text → Text → Exec World Text Fields
  unfolding decision_request
  create_decision_request prefix client namespace source w =
      let (time, w') = cluster.now w in
      cluster.create client namespace (decision_request (prefix ++ decimal time) source) w'

  -- main of a sample, up to its decision.
  unfoldable pub decide : Text → Text → Exec World Exit Bool
  unfolding create_decision_request
  decide prefix source = do
    config ← with_err failed_to_build_kube_config cluster.build_kube_config
    client ← with_err failed_to_create_dynamic_client (cluster.new_for_config config)
    created ←
        with_err failed_to_create_decision_request
          (create_decision_request prefix client (text "default") source)
    -- 500 milliseconds
    (λ w. (ok tt, cluster.sleep 500000000 w))
    dr ←
        with_err failed_to_get_decision_request
          (cluster.get client (text "default") (cluster.get_name created))
    pure (extract_sensitive_decision dr)
