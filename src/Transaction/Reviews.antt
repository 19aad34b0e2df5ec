-- ===== src/Transaction/Reviews.antt =====
-- What transactionAuthorizeAll has established when it returns no error.
use api_extension.Prelude.{
  ◌≡◌, refl, ◌⊎◌, inl, inr, Bool, true, false, ◌||◌, Option, none, some, List, [], ◌∷◌, arith, All,
  Bool-cases, Result, ok, err, ok_inj, bind-eq-ok,
}
use api_extension.Text.{Text, ◌==◌, eq_iff}
use api_extension.Value.{Fields}
use api_extension.Http.{Values}
use api_extension.Kube.{Mapping, Backend, Codec}
use api_extension.Helper.{subject_access_review, get_resource}
use api_extension.Transaction.{
  Operation, create, update, delete, TransactionRequest, api_version_of, kind_of, gvk_of,
}
use api_extension.Kube.Reached.{Reached, here, Reached-trans, reached_frame}
use api_extension.Transaction.Frame.{get_resource-R, authorize_decoded-R, authorize_group-R}
use api_extension.Transaction.Authorize.{
  AuthKey, same_key, cached, auth_key, attributes_of, review_key, authorize_key, authorize_object,
  authorize_group, transaction_authorize_all, from_cache, authorize_mapped, authorize_decoded,
}

pub same_key_sound : (j k : AuthKey) → same_key j k ≡ true → j ≡ k
unfolding same_key
same_key_sound j k h = ground (
  arith,
  eq_iff j.group k.group,
  eq_iff j.resource k.resource,
  eq_iff j.verb k.verb,
  eq_iff j.namespace k.namespace,
)

module _ {World : Type 0} (env : Backend World) (codec : Codec) (headers : Values)
    (start : World) where
  -- The API server has allowed the access of a key to the caller of the request, since `start`.
  abbrev pub IsGranted : AuthKey → Type 0
  IsGranted k =
      (w : World) × Reached env start w
      × ((subject_access_review env (attributes_of k) headers w).0 ≡ ok true)

  -- Discovery had no mapping for the object: an error after a retry, or nil.
  abbrev pub IsUnmapped : Fields → Type 0
  IsUnmapped obj =
      (w : World) × Reached env start w
      × (((e : Text) × ((get_resource env (gvk_of obj) w).0 ≡ err e))
          ⊎ ((get_resource env (gvk_of obj) w).0 ≡ ok none))

  abbrev pub IsMappedAndGranted : Operation → Text → Fields → Type 0
  IsMappedAndGranted op namespace obj =
      (resource : Mapping) × ((w : World) × Reached env start w
        × ((get_resource env (gvk_of obj) w).0 ≡ ok (some resource)))
      × IsGranted (auth_key op resource namespace obj)

  -- An object that may pass: it has no kind, or its kind no mapping, or its access was allowed.
  abbrev pub IsCleared : Operation → Text → Fields → Type 0
  IsCleared op namespace obj =
      ((api_version_of obj == [] || kind_of obj == []) ≡ true)
      ⊎ (IsUnmapped obj ⊎ IsMappedAndGranted op namespace obj)

  abbrev pub IsClearedEntry : Operation → Text → Text → Type 0
  IsClearedEntry op namespace entry =
      (obj : Fields) × (codec.decode_object entry ≡ ok obj) × IsCleared op namespace obj

  abbrev IsSound : List (AuthKey × Bool) → Type 0
  IsSound = All (λ (e : AuthKey × Bool). IsGranted e.0)

  cached-IsGranted :
      (k : AuthKey) (cache : List (AuthKey × Bool)) (b : Bool)
      → IsSound cache
      → cached k cache ≡ some b
      → IsGranted k
  unfolding cached
  cached-IsGranted k [] b h e = cc
  cached-IsGranted k ((j, a) ∷ cache) b (g, h) e = elim (Bool-cases (same_key j k)) [
    | inl same ↦ rw (same_key_sound j k same) at g
    | inr other ↦ cached-IsGranted k cache b h (rw other at e)
  ]

  review_key-eq :
      (k : AuthKey) (cache : List (AuthKey × Bool)) (w : World) (cache' : List (AuthKey × Bool))
      → (review_key env codec headers k cache w).0 ≡ ok cache'
      → ((subject_access_review env (attributes_of k) headers w).0 ≡ ok true)
        × (cache' ≡ (k, true) ∷ cache)
  unfolding review_key
  review_key-eq k cache w cache' e = ground arith

  authorize_key-IsSound :
      (k : AuthKey) (cache : List (AuthKey × Bool)) (w : World) (cache' : List (AuthKey × Bool))
      → Reached env start w
      → IsSound cache
      → (authorize_key env codec headers k cache w).0 ≡ ok cache'
      → IsGranted k × IsSound cache'
  unfolding authorize_key
  authorize_key-IsSound k cache w cache' r h e = from_answer (cached k cache) refl e
    where
      from_answer :
          (o : Option Bool)
          → cached k cache ≡ o
          → (from_cache env codec headers k cache o w).0 ≡ ok cache'
          → IsGranted k × IsSound cache'
      from_answer (some true) c e = (cached-IsGranted k cache true h c, rw (← (ok_inj e)) h)
      from_answer (some false) c e = cc
      from_answer none c e =
          let (allowed, same) = review_key-eq k cache w cache' e in
          rw same ((w, r, allowed), ((w, r, allowed), h))

  authorize_object-IsCleared :
      (op : Operation) (namespace : Text) (obj : Fields) (cache : List (AuthKey × Bool)) (w : World)
      (cache' : List (AuthKey × Bool))
      → Reached env start w
      → IsSound cache
      → (authorize_object env codec headers op namespace obj cache w).0 ≡ ok cache'
      → IsCleared op namespace obj × IsSound cache'
  unfolding authorize_object
  authorize_object-IsCleared op namespace obj cache w cache' r h e =
      elim (Bool-cases (api_version_of obj == [] || kind_of obj == [])) [
        | inl plain ↦ (inl plain, rw (← (ok_inj (rw plain at e))) h)
        | inr typed ↦ from_mapping (get_resource env (gvk_of obj) w).0 refl (rw typed at e)
      ]
    where
      from_mapping :
          (found : Result Text (Option Mapping))
          → (get_resource env (gvk_of obj) w).0 ≡ found
          → (authorize_mapped env codec headers op namespace obj cache found
              (get_resource env (gvk_of obj) w).1).0
            ≡ ok cache'
          → IsCleared op namespace obj × IsSound cache'
      from_mapping (err x) m e = (inr (inl (w, r, inl (x, m))), rw (← (ok_inj e)) h)
      from_mapping (ok none) m e = (inr (inl (w, r, inr m)), rw (← (ok_inj e)) h)
      from_mapping (ok (some resource)) m e =
          let (granted, sound) =
            authorize_key-IsSound (auth_key op resource namespace obj) cache
              (get_resource env (gvk_of obj) w).1 cache'
              (Reached-trans env start w _ r (get_resource-R (reached_frame env) (gvk_of obj) w)) h
              e in
          (inr (inr (resource, (w, r, m), granted)), sound)

  authorize_decoded-IsCleared :
      (op : Operation) (namespace : Text) (d : Result Text Fields) (cache : List (AuthKey × Bool))
      (w : World) (cache' : List (AuthKey × Bool))
      → Reached env start w
      → IsSound cache
      → (authorize_decoded env codec headers op namespace cache d w).0 ≡ ok cache'
      → ((obj : Fields) × (d ≡ ok obj) × IsCleared op namespace obj) × IsSound cache'
  authorize_decoded-IsCleared op namespace (err x) cache w cache' r h e = cc
  authorize_decoded-IsCleared op namespace (ok obj) cache w cache' r h e =
      let (cleared, sound) = authorize_object-IsCleared op namespace obj cache w cache' r h e in
      ((obj, refl, cleared), sound)

  authorize_group-IsCleared :
      (op : Operation) (namespace : Text) (entries : List Text) (cache : List (AuthKey × Bool))
      (w : World) (cache' : List (AuthKey × Bool))
      → Reached env start w
      → IsSound cache
      → (authorize_group env codec headers op namespace entries cache w).0 ≡ ok cache'
      → All (IsClearedEntry op namespace) entries × IsSound cache'
  unfolding authorize_group
  authorize_group-IsCleared op namespace [] cache w cache' r h e = (tt, rw (← (ok_inj e)) h)
  authorize_group-IsCleared op namespace (entry ∷ entries) cache w cache' r h e =
      let (mid, first, rest) =
        bind-eq-ok
          (authorize_decoded env codec headers op namespace cache (codec.decode_object entry))
          (authorize_group env codec headers op namespace entries) w e in
      let (first_cleared, sound) =
        authorize_decoded-IsCleared op namespace (codec.decode_object entry) cache w mid r h
          first in
      let r' = Reached-trans env start w _ r (
        authorize_decoded-R (reached_frame env) codec headers op namespace cache
          (codec.decode_object entry) w) in
      let (later, sound') =
        authorize_group-IsCleared op namespace entries mid _ cache' r' sound rest in
      ((first_cleared, later), sound')

module _ {World : Type 0} (env : Backend World) (codec : Codec) (headers : Values) where
  -- When the authorization of a transaction succeeds, every entry of its three lists decodes to an
  -- object that has no apiVersion or no kind, or whose kind discovery did not map, or for whose
  -- group, resource, verb and namespace the API server allowed the access of the caller, whether the
  -- answer was asked for anew or taken from the cache. These answers were given in worlds that calls
  -- other than a commit or a put lead to from the start of the authorization.
  pub transaction_authorize_all-IsCleared :
      (transaction : TransactionRequest) (namespace : Text) (w : World)
      (cache : List (AuthKey × Bool))
      → (transaction_authorize_all env codec headers transaction namespace w).0 ≡ ok cache
      → All (IsClearedEntry env codec headers w create namespace) transaction.create
        × All (IsClearedEntry env codec headers w update namespace) transaction.update
        × All (IsClearedEntry env codec headers w delete namespace) transaction.delete
  unfolding transaction_authorize_all
  transaction_authorize_all-IsCleared transaction namespace w cache e =
      let (c₁, e₁, rest) =
        bind-eq-ok (authorize_group env codec headers create namespace transaction.create []) _ w
          e in
      let (c₂, e₂, e₃) =
        bind-eq-ok (authorize_group env codec headers update namespace transaction.update c₁) _ _
          rest in
      let frame = reached_frame env in
      let r₁ = authorize_group-R frame codec headers create namespace transaction.create [] w in
      let r₂ =
        Reached-trans env w _ _ r₁
          (authorize_group-R frame codec headers update namespace transaction.update c₁ _) in
      let (all₁, s₁) =
        authorize_group-IsCleared env codec headers w create namespace transaction.create [] w c₁
          here tt e₁ in
      let (all₂, s₂) =
        authorize_group-IsCleared env codec headers w update namespace transaction.update c₁ _ c₂ r₁
          s₁ e₂ in
      let (all₃, s₃) =
        authorize_group-IsCleared env codec headers w delete namespace transaction.delete c₂ _ cache
          r₂ s₂ e₃ in
      (all₁, all₂, all₃)
