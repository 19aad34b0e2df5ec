-- ===== src/Transaction/Granted.antt =====
-- What a transaction commits is what the caller was allowed to write.
use api_extension.Prelude.{
  ℕ, ◌≡◌, ◌≢◌, refl, sym, ap, ◌∙◌, subst, ◌⊎◌, inl, inr, false, Option, some, List, [], ◌∷◌, arith,
  All, Bool-cases, Result, ok, err, ok_inj, map_err,
}
use api_extension.Text.{Text, text, ◌==◌, eq_iff}
use api_extension.Value.{Fields, lookup, string_or_empty}
use api_extension.Http.{Values, Request, content}
use api_extension.Helper.{is_root, get_resource, etcd_key}
use api_extension.Kube.{Gvk, Mapping, Backend, Codec, rest_client}
use api_extension.Kube.Store.{Store}
use api_extension.Transaction.{
  Operation, create, update, delete, TransactionRequest, api_version_of, kind_of, gvk_of, parsed,
  parse_transaction_and_namespace,
}
use api_extension.Transaction.Authorize.{
  metadata_namespace, or_else_text, review_namespace, auth_key, transaction_authorize_all,
}
use api_extension.Transaction.Resource.{
  is_delete, object_namespace, checked_object, validate_and_default, dry_run, resource_key,
}
use api_extension.Transaction.Handler.{create_handler}
use api_extension.Transaction.Reviews.{IsGranted, IsCleared, IsClearedEntry}
use api_extension.Transaction.Puts.{IsWritten}
use api_extension.Transaction.Written.{IsFrom, map_operations-IsFrom}
use api_extension.Transaction.Created.{IsCreated, create_handler-IsCreated}

-- The accessor of an object reads its namespace in its metadata.
abbrev pub Reads : Codec → Fields → Type 0
Reads codec obj =
    codec.get_namespace obj ≡ string_or_empty (metadata_namespace (lookup (text "metadata") obj))

-- The namespace that is reviewed is the one that the object goes to.
review_namespace-eq :
    (codec : Codec) (resource : Mapping) (namespace : Text) (obj : Fields)
    → Reads codec obj
    → review_namespace resource namespace obj ≡ object_namespace codec resource namespace obj
unfolding review_namespace or_else_text object_namespace
review_namespace-eq codec resource namespace obj h = rw h refl

-- An object that comes back in the namespace that it was sent to, or in none, stays there.
object_namespace-stays :
    (codec : Codec) (resource : Mapping) (namespace : Text) (obj checked : Fields)
    → let ns = object_namespace codec resource namespace obj in
      (is_root resource.scope ≡ false
        → (codec.get_namespace checked ≡ []) ⊎ (codec.get_namespace checked ≡ ns))
      → object_namespace codec resource ns checked ≡ ns
unfolding object_namespace ◌==◌
object_namespace-stays codec resource namespace obj checked h =
    elim (Bool-cases (is_root resource.scope)) [
      | inl root ↦ rw root refl
      | inr scoped ↦ elim (h scoped) [
        | inl e ↦ rw (scoped, e) refl
        | inr e ↦ ground (arith, eq_iff (codec.get_namespace checked) [])
      ]
    ]

map_err-ok :
    {A : Type 0} (f : Text → Text) (r : Result Text A) (a : A) → map_err f r ≡ ok a → r ≡ ok a
map_err-ok f (ok b) a h = ap ok (ok_inj h)
map_err-ok f (err e) a h = cc

module _ {World : Type 0} {env : Backend World} (store : Store env) (codec : Codec) (url : Text)
    (core : List Text) (maps : Gvk → Result Text (Option Mapping))
    (stable_maps : (gvk : Gvk) (w : World) → (get_resource env gvk w).0 ≡ maps gvk)
    (reads : (entry : Text) (obj : Fields) → codec.decode_object entry ≡ ok obj → Reads codec obj)
    (stays : (op : Operation) (resource : Mapping) (ns : Text) (obj checked : Fields) (w : World)
      → is_root resource.scope ≡ false
      → (dry_run env codec (rest_client url) resource op ns obj w).0 ≡ ok checked
      → (codec.get_namespace checked ≡ []) ⊎ (codec.get_namespace checked ≡ ns)) where
  -- The key of a resource is that of an object of a kind, in a namespace, and of an operation, for
  -- which the API server has allowed the access of the caller since the world `start`.
  pub record IsAuthorized (header : Values) (start : World) (namespace : Text) (kv : Text × Text)
      : Type 0 where
    pub op : Operation
    pub obj : Fields
    pub resource : Mapping
    pub name : Text
    pub prefix : Text
    pub is_prefix :
        etcd_key codec
          (gvk_of obj)
          (auth_key op resource namespace obj).namespace
          (some resource)
          core
        ≡ ok prefix
    pub is_key : kv.0 ≡ resource_key prefix name op
    pub is_granted : IsGranted env codec header start (auth_key op resource namespace obj)

  checked_object-stays :
      (op : Operation) (resource : Mapping) (ns : Text) (obj checked : Fields) (w : World)
      → is_delete op ≡ false
      → is_root resource.scope ≡ false
      → (checked_object env codec (rest_client url) core op resource ns obj w).0 ≡ ok checked
      → (codec.get_namespace checked ≡ []) ⊎ (codec.get_namespace checked ≡ ns)
  unfolding checked_object validate_and_default
  checked_object-stays create resource ns obj checked w d scoped h =
      stays create resource ns obj checked w scoped (map_err-ok _ _ _ h)
  checked_object-stays update resource ns obj checked w d scoped h =
      stays update resource ns obj checked w scoped (map_err-ok _ _ _ h)
  checked_object-stays delete resource ns obj checked w d scoped h = cc

  -- The namespace in the key of a resource.
  IsWritten-namespace :
      (op : Operation) (namespace entry : Text) (kv : Text × Text) (start : World)
      (e : IsWritten env codec (rest_client url) core start op namespace entry kv)
      → etcd_key codec
          (gvk_of e.obj)
          (auth_key op e.resource namespace e.obj).namespace
          (some e.resource)
          core
        ≡ ok e.prefix
  unfolding auth_key
  IsWritten-namespace op namespace entry kv start e =
      let reviewed =
        review_namespace-eq codec e.resource namespace e.obj (reads entry e.obj e.is_decoded) in
      elim (Bool-cases (is_delete op)) [
        | inl deleted ↦ rw (reviewed) (rw deleted at e.is_prefix)
        | inr written ↦
            let ns = object_namespace codec e.resource namespace e.obj in
            let stayed =
              object_namespace-stays codec e.resource namespace e.obj e.checked (λ scoped.
                checked_object-stays op e.resource ns _ e.checked _ written scoped e.is_checked) in
            rw (reviewed) (rw (written, stayed) at e.is_prefix)
      ]

  -- An entry that was cleared and written has been allowed.
  IsCleared-IsGranted :
      (header : Values) (op : Operation) (namespace : Text) (obj : Fields) (resource : Mapping)
      (start : World)
      → api_version_of obj ≢ []
      → kind_of obj ≢ []
      → maps (gvk_of obj) ≡ ok (some resource)
      → IsCleared env codec header start op namespace obj
      → IsGranted env codec header start (auth_key op resource namespace obj)
  IsCleared-IsGranted header op namespace obj resource start v k m (inl plain) =
      absurd (ground (arith, eq_iff (api_version_of obj) [], eq_iff (kind_of obj) []))
  IsCleared-IsGranted header op namespace obj resource start v k m (inr (inl (w, r, inl (x, e)))) =
      absurd (ground (arith, stable_maps (gvk_of obj) w))
  IsCleared-IsGranted header op namespace obj resource start v k m (inr (inl (w, r, inr e))) =
      absurd (ground (arith, stable_maps (gvk_of obj) w))
  IsCleared-IsGranted header op namespace obj resource start v k m
        (inr (inr (resource', (w, r, e), granted))) =
      let same : resource' ≡ resource = ground (arith, stable_maps (gvk_of obj) w) in
      rw same at granted

  IsFrom-IsAuthorized :
      (header : Values) (namespace : Text) (start mid : World) (kv : Text × Text)
      → IsFrom env codec
          (rest_client url)
          core
          (λ op entry. IsClearedEntry env codec header start op namespace entry)
          mid
          namespace
          kv
      → IsAuthorized header start namespace kv
  IsFrom-IsAuthorized header namespace start mid kv (op, entry, (obj, d, cleared), e) =
      let same : obj ≡ e.obj = ok_inj (sym d ∙ e.is_decoded) in
      let mapped = sym (stable_maps (gvk_of e.obj) e.w) ∙ e.is_found in
      record {
        op = op;
        obj = e.obj;
        resource = e.resource;
        name = codec.get_name e.checked;
        prefix = e.prefix;
        is_prefix = IsWritten-namespace op namespace entry kv mid e;
        is_key = e.is_key;
        is_granted =
            IsCleared-IsGranted header op namespace e.obj e.resource start e.has_version e.has_kind
              mapped (subst (λ o. IsCleared env codec header start op namespace o) same cleared);
      }

  All-IsAuthorized :
      (header : Values) (namespace : Text) (start mid : World) (m : List (Text × Text))
      → All
          (IsFrom env codec
            (rest_client url)
            core
            (λ op entry. IsClearedEntry env codec header start op namespace entry)
            mid
            namespace)
          m
      → All (IsAuthorized header start namespace) m
  All-IsAuthorized header namespace start mid [] h = tt
  All-IsAuthorized header namespace start mid (kv ∷ m) (h, hs) = (
    IsFrom-IsAuthorized header namespace start mid kv h,
    All-IsAuthorized header namespace start mid m hs,
  )

  -- Nothing is committed that the caller may not write. When a transaction request is answered with an
  -- object, every key of the map that was committed is that of an object of a kind in a namespace, of a
  -- create, update or delete, for which the API server allowed the caller just this verb, on the resource
  -- of this kind, in this namespace, during this request. Discovery has to map each kind in one way
  -- throughout, decoded objects have to give their namespace as their metadata do, and the dry run of
  -- an object in a namespace has to answer with an object in that namespace or in none.
  pub create_handler-IsAuthorized :
      (namespace name : Text) (r : Request) (w : World) (status : ℕ) (kind : Option Text)
      (body : Text)
      → (create_handler env codec (rest_client url) core namespace name r w).0
        ≡ content status kind body
      → (request : TransactionRequest) × (space : Text) × (parse_transaction_and_namespace codec r
            namespace
          ≡ parsed request space)
        × ((c : IsCreated store codec
              (rest_client url)
              core
              r.header
              space
              name
              request
              w
              (create_handler env codec (rest_client url) core namespace name r w).1)
            × All (IsAuthorized r.header w space) c.resources)
  create_handler-IsAuthorized namespace name r w status kind body h =
      let (created, (request, space, p, c)) =
        create_handler-IsCreated store codec (rest_client url) core namespace name r w status kind
          body h in
      let start = (transaction_authorize_all env codec r.header request space w).1 in
      let from =
        map_operations-IsFrom env codec (rest_client url) core
          (λ op entry. IsClearedEntry env codec r.header w op space entry) start space request
          c.resources c.creates c.updates c.deletes c.is_mapped in
      (request, space, p, (c, All-IsAuthorized r.header space w start c.resources from))
