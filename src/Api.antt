-- ===== src/Api.antt =====
-- The response types of api/v1, the table of meta.k8s.io, and what a response may contain.
pub mod Requests
pub mod Headers
use api_extension.Prelude.{ℕ, List, ◌++◌}
use api_extension.Text.{Text, text}
use api_extension.Value.{Value, Fields}

-- The fields of metav1.TypeMeta and metav1.ObjectMeta that the handlers set.
pub record Meta : Type 0 where
  pub api_version : Text
  pub kind : Text
  pub namespace : Text
  pub name : Text
  pub creation_timestamp : ℕ
  pub resource_version : Text

pub record CountResponse : Type 0 where
  pub metadata : Meta
  pub count : ℕ

pub record CountResponseList : Type 0 where
  pub api_version : Text
  pub kind : Text
  pub resource_version : Text
  pub items : List CountResponse

pub record TransactionResponse : Type 0 where
  pub metadata : Meta
  pub error : Text

pub data ResponseObject : Type 0 where
  count_response : CountResponse → ResponseObject
  transaction_response : TransactionResponse → ResponseObject

-- metav1.TableColumnDefinition
pub record Column : Type 0 where
  pub name : Text
  pub type : Text
  pub format : Text

-- metav1.Table and metav1beta1.Table, with their one row.
pub record Table : Type 0 where
  pub api_version : Text
  pub kind : Text
  pub resource_version : Text
  pub columns : List Column
  pub cells : List Value
  pub row_object : ResponseObject
  pub row_raw : Text

-- What `writeResponse` is given to encode.
pub data Container : Type 0 where
  table : Table → Container
  count_list : CountResponseList → Container
  transaction : TransactionResponse → Container
  decision : Fields → Container

-- apiextv1.SchemeBuilder.GroupVersion.String()
unfoldable pub group_version : Text
unfolding text
group_version = text "api-extension.harikube.info" ++ text "/" ++ text "v1"
