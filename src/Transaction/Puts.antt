-- ===== src/Transaction/Puts.antt =====
-- One entry of a transaction that is mapped: the object that it was decoded to, and what is put for it.
use api_extension.Prelude.{
  ◌≡◌, ◌≢◌, refl, ap, ◌∙◌, inl, inr, some, List, [], arith, Option-cases, Result-cases,
  if◌then◌else◌, Result, ok, err, bind-eq-ok,
}
use api_extension.Text.{Text, eq_iff}
use api_extension.Value.{Fields}
use api_extension.Kube.{Gvk, Mapping, Backend, Codec, RestClient}
use api_extension.Kube.Reached.{Reached}
use api_extension.Helper.{get_resource, etcd_key}
use api_extension.Transaction.{Operation, api_version_of, kind_of, gvk_of}
use api_extension.Transaction.Resource.{
  is_delete, put_resource, resource_key, store_object, checked_object, object_namespace,
  with_namespace, map_object, map_decoded,
}

store_object-ok :
    (codec : Codec) (core : List Text) (op : Operation) (gvk : Gvk) (resource : Mapping) (ns : Text)
    (obj : Fields) (m m' : List (Text × Text))
    → store_object codec core op gvk resource ns obj m ≡ ok m'
    → (prefix : Text) × (value : Text) × (etcd_key codec gvk ns (some resource) core ≡ ok prefix)
      × (codec.get_name obj ≢ [])
      × (codec.yaml_marshal obj ≡ ok value)
      × (m' ≡ put_resource (resource_key prefix (codec.get_name obj) op) value m)
unfolding store_object
store_object-ok codec core op gvk resource ns obj m m' h =
    elim (Result-cases (etcd_key codec gvk ns (some resource) core)) [
      | inl (prefix, e) ↦ elim (Result-cases (codec.yaml_marshal obj)) [
        | inl (value, e') ↦ (
          prefix,
          value,
          e,
          ground (arith, eq_iff (codec.get_name obj) []),
          e',
          ground (arith, eq_iff (codec.get_name obj) []),
        )
        | inr (x, e') ↦ absurd (ground arith)
      ]
      | inr (x, e) ↦ absurd (ground arith)
    ]

module _ {World : Type 0} (env : Backend World) (codec : Codec) (client : RestClient)
    (core : List Text) (start : World) where
  -- An entry was decoded to an object of a kind that discovery mapped at a world since `start`, the
  -- object was checked right after that, and what came back has this key and this value.
  pub record IsWritten (op : Operation) (namespace entry : Text) (kv : Text × Text) : Type 0 where
    pub obj : Fields
    pub is_decoded : codec.decode_object entry ≡ ok obj
    pub has_version : api_version_of obj ≢ []
    pub has_kind : kind_of obj ≢ []
    pub w : World
    pub is_reached : Reached env start w
    pub resource : Mapping
    pub is_found : (get_resource env (gvk_of obj) w).0 ≡ ok (some resource)
    pub checked : Fields
    pub is_checked :
        (checked_object env codec client core op resource
          (object_namespace codec resource namespace obj)
          (with_namespace codec resource namespace obj)
          (get_resource env (gvk_of obj) w).1).0
        ≡ ok checked
    pub prefix : Text
    pub is_prefix :
        etcd_key codec
          (gvk_of obj)
          (if is_delete op
            then object_namespace codec resource namespace obj
            else object_namespace codec resource
                (object_namespace codec resource namespace obj)
                checked)
          (some resource)
          core
        ≡ ok prefix
    pub has_name : codec.get_name checked ≢ []
    pub is_key : kv.0 ≡ resource_key prefix (codec.get_name checked) op
    pub is_value : codec.yaml_marshal checked ≡ ok kv.1

  -- One entry of the map is written.
  abbrev pub IsPut : Operation → Text → Text → List (Text × Text) → List (Text × Text) → Type 0
  IsPut op namespace entry m m' =
      (kv : Text × Text) × IsWritten op namespace entry kv × (m' ≡ put_resource kv.0 kv.1 m)

  map_object-IsPut :
      (op : Operation) (namespace entry : Text) (obj : Fields) (resource : Mapping)
      (m m' : List (Text × Text)) (w : World)
      → codec.decode_object entry ≡ ok obj
      → api_version_of obj ≢ []
      → kind_of obj ≢ []
      → Reached env start w
      → (get_resource env (gvk_of obj) w).0 ≡ ok (some resource)
      → (map_object env codec client core op namespace obj
          (gvk_of obj)
          resource
          m
          (get_resource env (gvk_of obj) w).1).0
        ≡ ok m'
      → IsPut op namespace entry m m'
  unfolding map_object
  map_object-IsPut op namespace entry obj resource m m' w d v k r f h =
      let ns = object_namespace codec resource namespace obj in
      let (checked, c, rest) =
        bind-eq-ok
          (checked_object env codec client core op resource ns
            (with_namespace codec resource namespace obj))
          _ _ h in
      let (prefix, value, p, n, y, same) =
        store_object-ok codec core op (gvk_of obj) resource _ checked m m' rest in
      (
        (resource_key prefix (codec.get_name checked) op, value),
        record {
          obj = obj;
          is_decoded = d;
          has_version = v;
          has_kind = k;
          w = w;
          is_reached = r;
          resource = resource;
          is_found = f;
          checked = checked;
          is_checked = c;
          prefix = prefix;
          is_prefix = p;
          has_name = n;
          is_key = refl;
          is_value = y;
        },
        same,
      )

  pub map_decoded-IsPut :
      (op : Operation) (namespace entry : Text) (d : Result Text Fields) (m m' : List (Text × Text))
      (w : World)
      → codec.decode_object entry ≡ d
      → Reached env start w
      → (map_decoded env codec client core op namespace m d w).0 ≡ ok m'
      → IsPut op namespace entry m m'
  map_decoded-IsPut op namespace entry (err e) m m' w d r h = cc
  map_decoded-IsPut op namespace entry (ok obj) m m' w d r h =
      let version : api_version_of obj ≢ [] = ground (arith, eq_iff (api_version_of obj) []) in
      let kind : kind_of obj ≢ [] = ground (arith, eq_iff (kind_of obj) []) in
      elim (Result-cases (get_resource env (gvk_of obj) w).0) [
        | inl (found, f) ↦ elim (Option-cases found) [
          | inl f' ↦ absurd (ground arith)
          | inr (resource, f') ↦
              map_object-IsPut op namespace entry obj resource m m' w d version kind r
                (f ∙ ap ok f') (ground arith)
        ]
        | inr (x, f) ↦ absurd (ground arith)
      ]
