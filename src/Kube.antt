-- ===== src/Kube.antt =====
-- What the program calls and does not implement: the API server's discovery and access reviews, the
-- HariKube store behind the etcd client, HTTP, the clock, and the YAML and JSON encoders.
pub mod Store
pub mod Reached
pub mod Interference
pub mod Audit
use api_extension.Prelude.{ℕ, Bool, Option, List, Result, Exec}
use api_extension.Text.{Text}
use api_extension.Value.{Value, Fields}
use api_extension.Http.{ClientRequest, ClientResponse}
use api_extension.Api.{ResponseObject, Container}

-- schema.GroupVersionKind
pub record Gvk : Type 0 where
  pub group : Text
  pub version : Text
  pub kind : Text

-- meta.RESTScopeNameRoot, meta.RESTScopeNameNamespace
pub data Scope : Type 0 where
  root namespaced : Scope

-- meta.RESTMapping: `resource` is mapping.Resource.Resource.
pub record Mapping : Type 0 where
  pub group : Text
  pub version : Text
  pub resource : Text
  pub scope : Scope

-- authorizationv1.ResourceAttributes
pub record Attributes : Type 0 where
  pub namespace : Text
  pub verb : Text
  pub group : Text
  pub version : Text
  pub resource : Text

-- authorizationv1.SubjectAccessReviewSpec
pub record ReviewSpec : Type 0 where
  pub attributes : Attributes
  pub user : Text
  pub groups : List Text

-- If(ModRevision(key) = 0).Then(OpPut(key, value)).Else(OpGet(key))
pub record Txn : Type 0 where
  pub key : Text
  pub value : Text

pub record TxnResponse : Type 0 where
  pub succeeded : Bool
  pub revision : ℕ

-- clientv3.OpOption, as far as it is used.
pub data GetOption : Type 0 where
  with_count_only : GetOption
  with_prefix : GetOption
  with_label_selector : Text → GetOption
  with_field_selector : Text → GetOption

pub record GetResponse : Type 0 where
  pub count : ℕ
  pub revision : ℕ

-- `World` is the state of all that is outside the process, and of the discovery cache.
-- An `Option` is a pointer that may be nil.
pub record Backend (World : Type 0) : Type 0 where
  -- mapper.RESTMapping(gvk.GroupKind(), gvk.Version), mapper.Reset()
  pub rest_mapping : Gvk → Exec World Text (Option Mapping)
  pub reset : World → World
  -- authClient.SubjectAccessReviews().Create: the answer's Status.Allowed
  pub review : ReviewSpec → Exec World Text Bool
  -- client.Txn(ctx)….Commit(), client.Get, client.Put
  pub commit : Txn → Exec World Text (Option TxnResponse)
  pub get : Text → List GetOption → Exec World Text (Option GetResponse)
  pub put : Text → Text → Exec World Text (Unit {0})
  -- httpClient.Do; for a dry run, also the error of building its request
  pub http_do : ClientRequest → Exec World Text ClientResponse
  -- time.Now(), in nanoseconds
  pub now : World → ℕ × World

-- The body of a transaction request: the anonymous struct of decodeTransactionRequest. A missing
-- `metadata` is an empty map, which reads alike.
pub record TransactionPayload : Type 0 where
  pub metadata : Fields
  pub create : List Fields
  pub update : List Fields
  pub delete : List Fields

-- decisionQuestion. The criteria are a value of any type, null when there are none.
pub record Question : Type 0 where
  pub type : Text
  pub instructions : Text
  pub criteria : Value

-- The body of a decision request: the anonymous struct of decodeDecisionRequest.
pub record DecisionPayload : Type 0 where
  pub metadata : Fields
  pub state : Value
  pub questions : List (Text × Question)

-- decisionSystemOneRequest and decisionSystemOneResponse
pub record DecisionCall : Type 0 where
  pub state : Value
  pub questions : List (Text × Question)

pub record DecisionAnswer : Type 0 where
  pub answers : Fields
  pub usage : Option Fields

-- The encoders and the accessors of unstructured objects. They do not touch the world.
pub record Codec : Type 0 where
  -- yaml.Unmarshal into the structs above, and into a `map[string]interface{}`
  pub unmarshal_transaction : Text → Result Text TransactionPayload
  pub unmarshal_decision : Text → Result Text DecisionPayload
  pub unmarshal_map : Text → Result Text Fields
  pub yaml_marshal : Fields → Result Text Text
  pub json_marshal : Fields → Result Text Text
  pub json_object : ResponseObject → Result Text Text
  pub yaml_container : Container → Result Text Text
  pub json_container : Container → Result Text Text
  -- unstructuredDecoder.Decode, and json.Unmarshal into an object's map
  pub decode_object : Text → Result Text Fields
  pub unmarshal_object : Text → Result Text Fields
  -- json.Unmarshal into a metav1.Status: its Message
  pub unmarshal_status : Text → Result Text Text
  -- json.Marshal and json.Unmarshal of the call to the decision maker and of its answer
  pub json_call : DecisionCall → Result Text Text
  pub unmarshal_answer : Text → Result Text DecisionAnswer
  -- the error of http.NewRequestWithContext at the URL of the decision maker
  pub new_request : Text → Result Text (Unit {0})
  -- http.StatusText, and a time in the layout time.RFC3339
  pub status_text : ℕ → Text
  pub format_time : ℕ → Text
  -- fmt.Sprintf("%q", s)
  pub quote : Text → Text
  -- gvk.String()
  pub gvk_string : Gvk → Text
  -- obj.GetName(), obj.GetNamespace(), obj.SetNamespace(ns)
  pub get_name : Fields → Text
  pub get_namespace : Fields → Text
  pub set_namespace : Text → Fields → Fields

-- authClient.RESTClient(): nil, of a type other than *rest.RESTClient with that type's name, or a
-- client of the API server at a URL.
pub data RestClient : Type 0 where
  no_client : RestClient
  other_client : Text → RestClient
  rest_client : Text → RestClient
