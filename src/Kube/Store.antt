-- ===== src/Kube/Store.antt =====
-- What the handlers rely on of the store and of the API server: documented behaviour of etcd's
-- transactions and puts, and of dry runs. It is a parameter of the theorems that use it.
use api_extension.Prelude.{◌≡◌, ◌≢◌, ◌⊎◌, refl, ◌∙◌, true, Option, none, some, List, ok}
use api_extension.Text.{Text, text}
use api_extension.Http.{ClientRequest, get}
use api_extension.Kube.{Gvk, ReviewSpec, Txn, TxnResponse, Backend, GetOption}

-- A relation between the world before and after a call, that each call but a commit or a put keeps.
pub record Frame {World : Type 0} (env : Backend World) : Type 1 where
  pub R : World → World → Type 0
  pub R_refl : (w : World) → R w w
  pub R_trans : (u v w : World) → R u v → R v w → R u w
  pub rest_mapping_R : (gvk : Gvk) (w : World) → R w (env.rest_mapping gvk w).1
  pub reset_R : (w : World) → R w (env.reset w)
  pub review_R : (spec : ReviewSpec) (w : World) → R w (env.review spec w).1
  pub now_R : (w : World) → R w (env.now w).1
  pub get_R : (k : Text) (opts : List GetOption) (w : World) → R w (env.get k opts w).1
  pub dry_run_R :
      (r : ClientRequest) (w : World)
      → get (text "dryRun") r.query ≡ text "All"
      → R w (env.http_do r w).1

-- The store: `value k w` is what is stored under `k`.
pub record Store {World : Type 0} (env : Backend World) : Type 0 where
  pub value : Text → World → Option Text
  pub rest_mapping_keeps :
      (gvk : Gvk) (w : World) (k : Text) → value k (env.rest_mapping gvk w).1 ≡ value k w
  pub reset_keeps : (w : World) (k : Text) → value k (env.reset w) ≡ value k w
  pub review_keeps :
      (spec : ReviewSpec) (w : World) (k : Text) → value k (env.review spec w).1 ≡ value k w
  pub now_keeps : (w : World) (k : Text) → value k (env.now w).1 ≡ value k w
  pub get_keeps :
      (j : Text) (opts : List GetOption) (w : World) (k : Text)
      → value k (env.get j opts w).1 ≡ value k w
  -- a dry run persists nothing
  pub dry_run_keeps :
      (r : ClientRequest) (w : World) (k : Text)
      → get (text "dryRun") r.query ≡ text "All"
      → value k (env.http_do r w).1 ≡ value k w
  -- a commit touches its own key only, and never one that is there
  pub commit_other :
      (t : Txn) (w : World) (k : Text) → k ≢ t.key → value k (env.commit t w).1 ≡ value k w
  pub commit_present :
      (t : Txn) (w : World) (v : Text)
      → value t.key w ≡ some v
      → value t.key (env.commit t w).1 ≡ some v
  -- a commit at an absent key puts the value or does nothing, whatever it reports
  pub commit_absent :
      (t : Txn) (w : World)
      → value t.key w ≡ none
      → (value t.key (env.commit t w).1 ≡ none) ⊎ (value t.key (env.commit t w).1 ≡ some t.value)
  -- a commit that reports success has found the key absent, and has put the value
  pub commit_succeeded :
      (t : Txn) (w : World) (r : TxnResponse)
      → (env.commit t w).0 ≡ ok (some r)
      → r.succeeded ≡ true
      → (value t.key w ≡ none) × (value t.key (env.commit t w).1 ≡ some t.value)
  -- a put that reports no error has stored the value, and touches its own key only
  pub put_other :
      (j v : Text) (w : World) (k : Text) → k ≢ j → value k (env.put j v w).1 ≡ value k w
  pub put_stored :
      (k v : Text) (w : World) → (env.put k v w).0 ≡ ok tt → value k (env.put k v w).1 ≡ some v

module _ {World : Type 0} {env : Backend World} (store : Store env) where
  -- Nothing is changed.
  abbrev pub Unchanged : World → World → Type 0
  Unchanged w w' = (k : Text) → store.value k w' ≡ store.value k w

  -- What is there stays as it is.
  abbrev pub Kept : World → World → Type 0
  Kept w w' = (k v : Text) → store.value k w ≡ some v → store.value k w' ≡ some v

  abbrev pub unchanged_frame : Frame env
  unchanged_frame = record {
    R = Unchanged;
    R_refl = λ w k. refl;
    R_trans = λ u v w p q k. q k ∙ p k;
    rest_mapping_R = store.rest_mapping_keeps;
    reset_R = store.reset_keeps;
    review_R = store.review_keeps;
    now_R = store.now_keeps;
    get_R = store.get_keeps;
    dry_run_R = λ r w d k. store.dry_run_keeps r w k d;
  }

  pub Kept-of_Unchanged : (u w : World) → Unchanged u w → Kept u w
  Kept-of_Unchanged u w h k v e = h k ∙ e

  abbrev pub kept_frame : Frame env
  kept_frame = record {
    R = Kept;
    R_refl = λ w k v e. e;
    R_trans = λ u v w p q k x e. q k x (p k x e);
    rest_mapping_R = λ gvk w. Kept-of_Unchanged _ _ (store.rest_mapping_keeps gvk w);
    reset_R = λ w. Kept-of_Unchanged _ _ (store.reset_keeps w);
    review_R = λ s w. Kept-of_Unchanged _ _ (store.review_keeps s w);
    now_R = λ w. Kept-of_Unchanged _ _ (store.now_keeps w);
    get_R = λ k o w. Kept-of_Unchanged _ _ (store.get_keeps k o w);
    dry_run_R = λ r w d. Kept-of_Unchanged _ _ (λ k. store.dry_run_keeps r w k d);
  }
