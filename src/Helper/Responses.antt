-- ===== src/Helper/Responses.antt =====
-- How responseContent and tableResponse choose the form of an answer.
use api_extension.Prelude.{
  ◌≡◌, ◌≢◌, ◌↔◌, refl, inl, inr, none, List, [], ◌∷◌, ◌++◌, arith, ok, Result-cases,
}
use api_extension.Text.{Text, text, eq_iff, eq_refl}
use api_extension.Text.Strings.{split, join}
use api_extension.Text.Laws.{Lacks, split-ne-nil, cut-append}
use api_extension.Value.{Value}
use api_extension.Http.{Values, values, get}
use api_extension.Api.{ResponseObject, Column}
use api_extension.Kube.{Codec}
use api_extension.Helper.{
  response_content, head_or_empty, table_response, content_details_table_v1,
  content_details_table_v1beta1,
}

head-split-append :
    (s rest : Text) → head_or_empty (split (s ++ b',' ∷ rest) b',') ≡ head_or_empty (split s b',')
unfolding split
head-split-append [] rest = refl
head-split-append (c ∷ s) rest =
    ground
      (arith, head-split-append s rest, split-ne-nil s b',', split-ne-nil (s ++ b',' ∷ rest) b',')

join-first :
    (v : Text) (vs : List Text)
    → head_or_empty (split (join (v ∷ vs) b',') b',') ≡ head_or_empty (split v b',')
unfolding join
join-first v [] = refl
join-first v (u ∷ vs) = head-split-append v (join (u ∷ vs) b',')

-- Without a Content-Type, the first media type of the first Accept header decides the form of the
-- answer, whatever the header lists behind it: the text up to its ";" is the media type, and the rest
-- of it the parameters.
pub response_content-first :
    (headers : Values) (media details v : Text) (others vs : List Text)
    → get (text "Content-Type") headers ≡ []
    → values (text "Accept") headers ≡ v ∷ vs
    → split v b',' ≡ (media ++ b';' ∷ details) ∷ others
    → Lacks b';' media
    → response_content headers ≡ (media, details)
unfolding response_content
response_content-first headers media details v others vs untyped accepted listed h =
    rw (untyped, accepted, eq_refl [], join-first v vs, listed, cut-append media details b';' h)
      refl

-- A table is made exactly for the parameters of the two versions of meta.k8s.io that kubectl sends;
-- any other parameters give the plain object.
pub table_response-none_iff :
    (codec : Codec) (details resource_version : Text) (columns : List Column) (cells : List Value)
    (object : ResponseObject)
    → (table_response codec details resource_version columns cells object ≡ ok none)
      ↔ ((details ≢ content_details_table_v1) × (details ≢ content_details_table_v1beta1))
unfolding table_response
table_response-none_iff codec details resource_version columns cells object = (
  λ h. elim (Result-cases (codec.json_object object)) [
    | inl (raw, e) ↦ ground (
      arith,
      eq_iff details content_details_table_v1,
      eq_iff details content_details_table_v1beta1,
    )
    | inr (x, e) ↦ ground (
      arith,
      eq_iff details content_details_table_v1,
      eq_iff details content_details_table_v1beta1,
    )
  ],
  λ (h, k). ground (
    arith,
    eq_iff details content_details_table_v1,
    eq_iff details content_details_table_v1beta1,
  ),
)
