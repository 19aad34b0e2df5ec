-- ===== src/Transaction/Frame.antt =====
-- The steps of a transaction before its commit keep every relation on the world that the calls of
-- discovery, of access reviews, of dry runs and of the clock keep.
use api_extension.Prelude.{
  ◌≡◌, if◌then◌else◌, pure, Bool, true, false, ◌||◌, Option, none, some, List, [], ◌∷◌, arith,
  Result, ok, err, Exec, continue, ◌>>=◌,
}
use api_extension.Text.{Text, text, ◌==◌, eq_refl}
use api_extension.Value.{Fields}
use api_extension.Http.{Values, get}
use api_extension.Kube.{
  Gvk, Mapping, Backend, Codec, RestClient, no_client, other_client, rest_client,
}
use api_extension.Kube.Store.{Frame}
use api_extension.Helper.{subject_access_review, get_resource, retry}
use api_extension.Transaction.{
  Operation, create, update, delete, TransactionRequest, api_version_of, kind_of, gvk_of,
}
use api_extension.Transaction.Authorize.{
  AuthKey, attributes_of, review_key, authorize_key, authorize_object, authorize_group,
  transaction_authorize_all, from_cache, authorize_mapped, authorize_decoded,
}
use api_extension.Transaction.Resource.{
  validation_request, execute_validation_request, validate_and_default, checked_object, map_object,
  transaction_resource_map, send_object, dry_run_parts, dry_run, map_found, map_decoded,
}
use api_extension.Transaction.Handler.{map_entries, map_operations}

module _ {World : Type 0} {env : Backend World} (frame : Frame env) where
  open frame use {R, R_refl, R_trans}

  pub continue-R :
      {E A B : Type 0} (r : Result E A) (f : A → Exec World E B) (u w : World)
      → R u w
      → ((a : A) (w' : World) → R w' (f a w').1)
      → R u (continue r f w).1
  continue-R (ok a) f u w h k = R_trans u w _ h (k a w)
  continue-R (err e) f u w h k = h

  pub bind-R :
      {E A B : Type 0} (m : Exec World E A) (f : A → Exec World E B) (w : World)
      → R w (m w).1
      → ((a : A) (w' : World) → R w' (f a w').1)
      → R w ((m >>= f) w).1
  bind-R m f w h k = continue-R (m w).0 f w (m w).1 h k

  retry-R :
      (gvk : Gvk) (r : Result Text (Option Mapping)) (u w : World)
      → R u w
      → R u (retry env gvk r w).1
  retry-R gvk (ok m) u w h = h
  retry-R gvk (err e) u w h =
      R_trans u w _ h (R_trans w _ _ (frame.reset_R w) (frame.rest_mapping_R gvk (env.reset w)))

  pub get_resource-R : (gvk : Gvk) (w : World) → R w (get_resource env gvk w).1
  unfolding get_resource
  get_resource-R gvk w = retry-R gvk _ w _ (frame.rest_mapping_R gvk w)

  pub if-R :
      {E A : Type 0} (b : Bool) (m n : Exec World E A) (w : World)
      → R w (m w).1
      → R w (n w).1
      → R w ((if b then m else n) w).1
  if-R true m n w h k = h
  if-R false m n w h k = k

module _ {World : Type 0} {env : Backend World} (frame : Frame env) (codec : Codec)
    (headers : Values) where
  open frame use {R, R_refl, R_trans}

  review_key-R :
      (k : AuthKey) (cache : List (AuthKey × Bool)) (w : World)
      → R w (review_key env codec headers k cache w).1
  unfolding review_key
  review_key-R k cache w = ground (arith, reviewed)
    where
      reviewed : R w (subject_access_review env (attributes_of k) headers w).1
      reviewed = unfold subject_access_review in frame.review_R _ w

  from_cache-R :
      (k : AuthKey) (cache : List (AuthKey × Bool)) (o : Option Bool) (w : World)
      → R w (from_cache env codec headers k cache o w).1
  from_cache-R k cache (some true) w = R_refl w
  from_cache-R k cache (some false) w = R_refl w
  from_cache-R k cache none w = review_key-R k cache w

  authorize_mapped-R :
      (op : Operation) (namespace : Text) (obj : Fields) (cache : List (AuthKey × Bool))
      (found : Result Text (Option Mapping)) (w : World)
      → R w (authorize_mapped env codec headers op namespace obj cache found w).1
  unfolding authorize_key
  authorize_mapped-R op namespace obj cache (err e) w = R_refl w
  authorize_mapped-R op namespace obj cache (ok none) w = R_refl w
  authorize_mapped-R op namespace obj cache (ok (some resource)) w = from_cache-R _ cache _ w

  pub authorize_decoded-R :
      (op : Operation) (namespace : Text) (cache : List (AuthKey × Bool)) (d : Result Text Fields)
      (w : World)
      → R w (authorize_decoded env codec headers op namespace cache d w).1
  unfolding authorize_object
  authorize_decoded-R op namespace cache (err e) w = R_refl w
  authorize_decoded-R op namespace cache (ok obj) w =
      if-R frame (api_version_of obj == [] || kind_of obj == []) (pure cache) _ w (R_refl w) (
        R_trans w _ _ (get_resource-R frame (gvk_of obj) w)
          (authorize_mapped-R op namespace obj cache _ _))

  pub authorize_group-R :
      (op : Operation) (namespace : Text) (entries : List Text) (cache : List (AuthKey × Bool))
      (w : World)
      → R w (authorize_group env codec headers op namespace entries cache w).1
  unfolding authorize_group
  authorize_group-R op namespace [] cache w = R_refl w
  authorize_group-R op namespace (entry ∷ entries) cache w =
      continue-R frame _ _ w _ (authorize_decoded-R op namespace cache _ w)
        (λ cache' w'. authorize_group-R op namespace entries cache' w')

  pub authorize_all-R :
      (transaction : TransactionRequest) (namespace : Text) (w : World)
      → R w (transaction_authorize_all env codec headers transaction namespace w).1
  unfolding transaction_authorize_all
  authorize_all-R transaction namespace w =
      continue-R frame
        (authorize_group env codec headers create namespace transaction.create [] w).0 _ w _
        (authorize_group-R create namespace transaction.create [] w)
        λ c₁ w₁.
          continue-R frame
            (authorize_group env codec headers update namespace transaction.update c₁ w₁).0 _ w₁ _
            (authorize_group-R update namespace transaction.update c₁ w₁)
            (λ c₂ w₂. authorize_group-R delete namespace transaction.delete c₂ w₂)

module _ {World : Type 0} {env : Backend World} (frame : Frame env) (codec : Codec)
    (client : RestClient) (core : List Text) where
  open frame use {R, R_refl, R_trans}

  -- Every request that validates an object is a dry run.
  validation_request-dry_run :
      (url : Text) (op : Operation) (path body : Text)
      → get (text "dryRun") (validation_request url op path body).query ≡ text "All"
  unfolding validation_request get
  validation_request-dry_run url op path body = rw (eq_refl (text "dryRun"))

  execute-R :
      (client : RestClient) (op : Operation) (path body : Text) (w : World)
      → R w (execute_validation_request env codec client op path body w).1
  unfolding execute_validation_request
  execute-R no_client op path body w = R_refl w
  execute-R (other_client name) op path body w = R_refl w
  execute-R (rest_client url) op path body w =
      continue-R frame _ _ w _ (frame.dry_run_R _ w (validation_request-dry_run url op path body))
        (λ response w'. R_refl w')

  send_object-R :
      (client : RestClient) (op : Operation) (path body : Text) (w : World)
      → R w (send_object env codec client op path body w).1
  unfolding send_object
  send_object-R client op path body w =
      continue-R frame (execute_validation_request env codec client op path body w).0 _ w _
        (execute-R client op path body w) (λ answer w'. R_refl w')

  dry_run-R :
      (client : RestClient) (resource : Mapping) (op : Operation) (namespace : Text) (obj : Fields)
      (w : World)
      → R w (dry_run env codec client resource op namespace obj w).1
  dry_run-R client resource op namespace obj w =
      continue-R frame (dry_run_parts codec resource op namespace obj) _ w w (R_refl w)
        (λ parts w'. send_object-R client op parts.0 parts.1 w')

  validate-R :
      (client : RestClient) (resource : Mapping) (op : Operation) (namespace : Text) (obj : Fields)
      (w : World)
      → R w (validate_and_default env codec client resource op namespace obj w).1
  unfolding validate_and_default
  validate-R no_client resource op namespace obj w = R_refl w
  validate-R (other_client name) resource op namespace obj w =
      dry_run-R _ resource op namespace obj w
  validate-R (rest_client url) resource op namespace obj w = dry_run-R _ resource op namespace obj w

  checked_object-R :
      (op : Operation) (resource : Mapping) (namespace : Text) (obj : Fields) (w : World)
      → R w (checked_object env codec client core op resource namespace obj w).1
  unfolding checked_object
  checked_object-R create resource namespace obj w =
      validate-R client resource create namespace obj w
  checked_object-R update resource namespace obj w =
      validate-R client resource update namespace obj w
  checked_object-R delete resource namespace obj w = R_refl w

  map_found-R :
      (op : Operation) (namespace : Text) (obj : Fields) (gvk : Gvk)
      (resources : List (Text × Text)) (found : Result Text (Option Mapping)) (w : World)
      → R w (map_found env codec client core op namespace obj gvk resources found w).1
  unfolding map_object
  map_found-R op namespace obj gvk resources (err e) w = R_refl w
  map_found-R op namespace obj gvk resources (ok none) w = R_refl w
  map_found-R op namespace obj gvk resources (ok (some resource)) w =
      continue-R frame _ _ w _ (checked_object-R op resource _ _ w) (λ checked w'. R_refl w')

  pub map_decoded-R :
      (op : Operation) (namespace : Text) (resources : List (Text × Text)) (d : Result Text Fields)
      (w : World)
      → R w (map_decoded env codec client core op namespace resources d w).1
  map_decoded-R op namespace resources (err e) w = R_refl w
  map_decoded-R op namespace resources (ok obj) w =
      if-R frame (api_version_of obj == []) _ _ w (R_refl w) (
        if-R frame (kind_of obj == []) _ _ w (R_refl w) (
          R_trans w _ _ (get_resource-R frame (gvk_of obj) w)
            (map_found-R op namespace obj (gvk_of obj) resources _ _)))

  pub map_entries-R :
      (op : Operation) (namespace : Text) (entries : List Text) (resources : List (Text × Text))
      (w : World)
      → R w (map_entries env codec client core op namespace entries resources w).1
  unfolding map_entries transaction_resource_map
  map_entries-R op namespace [] resources w = R_refl w
  map_entries-R op namespace (entry ∷ entries) resources w =
      continue-R frame _ _ w _ (map_decoded-R op namespace resources _ w)
        (λ resources' w'. map_entries-R op namespace entries resources' w')

  pub map_operations-R :
      (request : TransactionRequest) (namespace : Text) (w : World)
      → R w (map_operations env codec client core request namespace w).1
  unfolding map_operations
  map_operations-R request namespace w =
      continue-R frame (map_entries env codec client core create namespace request.create [] w).0 _
        w _ (map_entries-R create namespace request.create [] w)
        λ r₁ w₁.
          continue-R frame
            (map_entries env codec client core update namespace request.update r₁ w₁).0 _ w₁ _
            (map_entries-R update namespace request.update r₁ w₁)
            (λ r₂ w₂. map_entries-R delete namespace request.delete r₂ w₂)
