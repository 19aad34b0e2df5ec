-- ===== src/Transaction/Cache.antt =====
-- The cache of transactionAuthorizeAll changes no decision: while the answers of discovery and of
-- the access reviews are stable, the code decides as a specification without a cache does.
use api_extension.Prelude.{
  ◌≡◌, refl, Bool, true, false, ◌&&◌, ◌||◌, Option, none, some, List, [], ◌∷◌, arith, Bool-cases,
  inl, inr, if◌then◌else◌, Result, ok, err, Exec, ◌>>=◌,
}
use api_extension.Text.{Text, ◌==◌}
use api_extension.Value.{Fields}
use api_extension.Http.{Values}
use api_extension.Kube.{Gvk, Mapping, Backend, Codec}
use api_extension.Helper.{subject_access_review, get_resource}
use api_extension.Transaction.{
  Operation, create, update, delete, TransactionRequest, api_version_of, kind_of, gvk_of,
}
use api_extension.Transaction.Authorize.{
  AuthKey, same_key, cached, auth_key, attributes_of, review_key, authorize_key, authorize_object,
  authorize_group, transaction_authorize_all, from_cache, authorize_mapped, authorize_decoded,
}
use api_extension.Transaction.Reviews.{same_key_sound}

abbrev pub is_ok {ℓ κ} : {E : Type ℓ} {A : Type κ} → Result E A → Bool
is_ok (ok a) = true
is_ok (err e) = false

abbrev pub all {ℓ} : {A : Type ℓ} → (A → Bool) → List A → Bool
all p [] = true
all p (x ∷ xs) = p x && all p xs

-- The specification: what discovery and the reviews answer, asked at every entry.
module _ (maps : Gvk → Result Text (Option Mapping)) (allows : AuthKey → Bool) (codec : Codec) where
  abbrev pub permits_mapped : Operation → Text → Fields → Result Text (Option Mapping) → Bool
  permits_mapped op namespace obj (ok (some resource)) = allows (auth_key op resource namespace obj)
  permits_mapped op namespace obj _ = true

  abbrev pub permits_object : Operation → Text → Fields → Bool
  permits_object op namespace obj =
      if api_version_of obj == [] || kind_of obj == []
      then true
      else permits_mapped op namespace obj (maps (gvk_of obj))

  abbrev pub permits_decoded : Operation → Text → Result Text Fields → Bool
  permits_decoded op namespace (ok obj) = permits_object op namespace obj
  permits_decoded op namespace (err e) = false

  abbrev pub permits : Operation → Text → Text → Bool
  permits op namespace entry = permits_decoded op namespace (codec.decode_object entry)

module _ {World : Type 0} (env : Backend World) (codec : Codec) (headers : Values)
    (maps : Gvk → Result Text (Option Mapping)) (allows : AuthKey → Bool)
    (stable_maps : (gvk : Gvk) (w : World) → (get_resource env gvk w).0 ≡ maps gvk)
    (stable_reviews : (k : AuthKey) (w : World)
      → (subject_access_review env (attributes_of k) headers w).0 ≡ ok (allows k)) where
  abbrev Agrees : List (AuthKey × Bool) → Type 0
  Agrees cache = (k : AuthKey) (b : Bool) → cached k cache ≡ some b → b ≡ allows k

  -- The result is an answer as `b` says, and leaves a cache that agrees with the reviews.
  abbrev Verdict : Bool → Result Text (List (AuthKey × Bool)) → Type 0
  Verdict true r = (cache : List (AuthKey × Bool)) × (r ≡ ok cache) × Agrees cache
  Verdict false r = is_ok r ≡ false

  Agrees-cons :
      (k : AuthKey) (cache : List (AuthKey × Bool))
      → allows k ≡ true
      → Agrees cache
      → Agrees ((k, true) ∷ cache)
  unfolding cached
  Agrees-cons k cache yes' h j b e = elim (Bool-cases (same_key k j)) [
    | inl same ↦ ground (arith, same_key_sound k j same)
    | inr other ↦ h j b (rw other at e)
  ]

  review_key-Verdict :
      (k : AuthKey) (cache : List (AuthKey × Bool)) (w : World) (b : Bool)
      → allows k ≡ b
      → Agrees cache
      → Verdict b (review_key env codec headers k cache w).0
  unfolding review_key
  review_key-Verdict k cache w true e h =
      ((k, true) ∷ cache, ground (arith, stable_reviews k w), Agrees-cons k cache e h)
  review_key-Verdict k cache w false e h = ground (arith, stable_reviews k w)

  authorize_key-Verdict :
      (k : AuthKey) (cache : List (AuthKey × Bool)) (w : World)
      → Agrees cache
      → Verdict (allows k) (authorize_key env codec headers k cache w).0
  unfolding authorize_key
  authorize_key-Verdict k cache w h = from_answer (cached k cache) refl
    where
      from_answer :
          (o : Option Bool)
          → cached k cache ≡ o
          → Verdict (allows k) (from_cache env codec headers k cache o w).0
      from_answer (some true) c = rw (← (h k true c)) (cache, refl, h)
      from_answer (some false) c = rw (← (h k false c)) refl
      from_answer none c = review_key-Verdict k cache w (allows k) refl h

  authorize_object-Verdict :
      (op : Operation) (namespace : Text) (obj : Fields) (cache : List (AuthKey × Bool)) (w : World)
      → Agrees cache
      → Verdict
          (permits_object maps allows codec op namespace obj)
          (authorize_object env codec headers op namespace obj cache w).0
  unfolding authorize_object
  authorize_object-Verdict op namespace obj cache w h =
      elim (Bool-cases (api_version_of obj == [] || kind_of obj == [])) [
        | inl plain ↦ rw plain (cache, refl, h)
        | inr typed ↦ rw (typed, stable_maps) (from_mapping (maps (gvk_of obj)))
      ]
    where
      from_mapping :
          (found : Result Text (Option Mapping))
          → Verdict
              (permits_mapped maps allows codec op namespace obj found)
              (authorize_mapped env codec headers op namespace obj cache found
                (get_resource env (gvk_of obj) w).1).0
      from_mapping (err x) = (cache, refl, h)
      from_mapping (ok none) = (cache, refl, h)
      from_mapping (ok (some resource)) =
          authorize_key-Verdict (auth_key op resource namespace obj) cache _ h

  bind-Verdict :
      (b c : Bool) (m : Exec World Text (List (AuthKey × Bool)))
      (f : List (AuthKey × Bool) → Exec World Text (List (AuthKey × Bool))) (w : World)
      → Verdict b (m w).0
      → ((cache : List (AuthKey × Bool)) (w' : World) → Agrees cache → Verdict c (f cache w').0)
      → Verdict (b && c) ((m >>= f) w).0
  bind-Verdict true c m f w (cache, e, h) k = rw e (k cache (m w).1 h)
  bind-Verdict false c m f w h k = ground arith

  authorize_decoded-Verdict :
      (op : Operation) (namespace : Text) (d : Result Text Fields) (cache : List (AuthKey × Bool))
      (w : World)
      → Agrees cache
      → Verdict
          (permits_decoded maps allows codec op namespace d)
          (authorize_decoded env codec headers op namespace cache d w).0
  authorize_decoded-Verdict op namespace (err x) cache w h = refl
  authorize_decoded-Verdict op namespace (ok obj) cache w h =
      authorize_object-Verdict op namespace obj cache w h

  authorize_group-Verdict :
      (op : Operation) (namespace : Text) (entries : List Text) (cache : List (AuthKey × Bool))
      (w : World)
      → Agrees cache
      → Verdict
          (all (permits maps allows codec op namespace) entries)
          (authorize_group env codec headers op namespace entries cache w).0
  unfolding authorize_group
  authorize_group-Verdict op namespace [] cache w h = (cache, refl, h)
  authorize_group-Verdict op namespace (entry ∷ entries) cache w h =
      bind-Verdict _ _
        (authorize_decoded env codec headers op namespace cache (codec.decode_object entry))
        (authorize_group env codec headers op namespace entries) w
        (authorize_decoded-Verdict op namespace (codec.decode_object entry) cache w h)
        (λ cache' w' h'. authorize_group-Verdict op namespace entries cache' w' h')

  Verdict-is_ok : (b : Bool) (r : Result Text (List (AuthKey × Bool))) → Verdict b r → is_ok r ≡ b
  Verdict-is_ok true r (cache, e, h) = rw e
  Verdict-is_ok false r h = h

  -- While discovery maps each kind in one way, and the API server answers each access review in one
  -- way and without an error, the authorization of a transaction succeeds exactly when every entry of
  -- its three lists is permitted, each asked for by itself: the cache changes no decision.
  pub transaction_authorize_all-eq-permits :
      (transaction : TransactionRequest) (namespace : Text) (w : World)
      → is_ok (transaction_authorize_all env codec headers transaction namespace w).0 ≡ (
          all (permits maps allows codec create namespace) transaction.create
          && (all (permits maps allows codec update namespace) transaction.update
              && all (permits maps allows codec delete namespace) transaction.delete))
  unfolding transaction_authorize_all cached
  transaction_authorize_all-eq-permits transaction namespace w = Verdict-is_ok _ _ (
      bind-Verdict _ _ (authorize_group env codec headers create namespace transaction.create [])
        (λ c.
          authorize_group env codec headers update namespace transaction.update c
          >>= authorize_group env codec headers delete namespace transaction.delete)
        w (authorize_group-Verdict create namespace transaction.create [] w (λ k b e. cc))
        (λ c₁ w₁ h₁.
          bind-Verdict _ _
            (authorize_group env codec headers update namespace transaction.update c₁)
            (authorize_group env codec headers delete namespace transaction.delete) w₁
            (authorize_group-Verdict update namespace transaction.update c₁ w₁ h₁)
            (λ c₂ w₂ h₂. authorize_group-Verdict delete namespace transaction.delete c₂ w₂ h₂)))
