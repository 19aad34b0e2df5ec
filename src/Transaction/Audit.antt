-- ===== src/Transaction/Audit.antt =====
-- How often a transaction asks for access reviews.
use api_extension.Prelude.{
  ℕ, ◌+◌, ◌≤◌, ◌≡◌, refl, ◌||◌, Bool, true, false, Option, none, some, List, [], ◌∷◌, arith, length,
  Bool-cases, inl, inr, Result, ok, err, Exec, ◌>>=◌, pure, fail, continue, map_err, if◌then◌else◌,
}
use api_extension.Text.{Text, ◌==◌}
use api_extension.Value.{Fields}
use api_extension.Http.{Values}
use api_extension.Kube.{Gvk, Mapping, ReviewSpec, Backend, Codec}
use api_extension.Kube.Audit.{Audited, audited}
use api_extension.Helper.{subject_access_review, get_resource, retry}
use api_extension.Transaction.{
  Operation, create, update, delete, TransactionRequest, api_version_of, kind_of, gvk_of,
}
use api_extension.Transaction.Authorize.{
  AuthKey, cached, auth_key, forbidden_error, review_error, review_key, authorize_key,
  authorize_object, authorize_group, transaction_authorize_all, from_cache, authorize_mapped,
  authorize_decoded,
}
use api_extension.Transaction.Asked.{
  AreDistinct, spec_of, IsKnown, same_key_refl, IsKnown-cons, spec_of-fresh,
}

abbrev pub entries : TransactionRequest → ℕ
entries t = length t.create + (length t.update + length t.delete)

module _ {World : Type 0} (env : Backend World) (codec : Codec) (headers : Values) where
  abbrev IsGoing : Result Text (List (AuthKey × Bool)) → List ReviewSpec → Type 0
  IsGoing (ok cache) log = IsKnown headers cache log
  IsGoing (err e) log = Unit

  -- What `n` entries may do to a log of reviews.
  abbrev IsAudited :
      ℕ → Result Text (List (AuthKey × Bool)) × Audited World → List ReviewSpec → Type 0
  IsAudited n o log = IsGoing o.0 o.1.1 × AreDistinct o.1.1 × (length o.1.1 ≤ length log + n)

  unasked-IsAudited :
      (cache : List (AuthKey × Bool)) (w : World) (log : List ReviewSpec) (n : ℕ)
      → IsKnown headers cache log
      → AreDistinct log
      → IsAudited n (ok cache, (w, log)) log
  unasked-IsAudited cache w log n h d = (h, d, omega arith)

  review_key-IsAudited :
      (k : AuthKey) (cache : List (AuthKey × Bool)) (w : World) (log : List ReviewSpec)
      → cached k cache ≡ none
      → IsKnown headers cache log
      → AreDistinct log
      → IsAudited 1 (review_key (audited env) codec headers k cache (w, log)) log
  unfolding review_key subject_access_review cached
  review_key-IsAudited k cache w log free h d =
      from_answer (forbidden_error codec k) (review_error k) (env.review (spec_of headers k) w).0
    where
      w' : World
      w' = (env.review (spec_of headers k) w).1

      log' : List ReviewSpec
      log' = spec_of headers k ∷ log

      distinct : AreDistinct log'
      distinct = (spec_of-fresh headers k cache log free h, d)

      from_answer :
          (refused : Text) (g : Text → Text) (r : Result Text Bool)
          → IsAudited 1
              (continue
                (map_err g r)
                (λ allowed. if allowed then pure ((k, true) ∷ cache) else fail refused)
                (w', log'))
              log
      from_answer refused g (err e) = (tt, distinct, omega arith)
      from_answer refused g (ok false) = (tt, distinct, omega arith)
      from_answer refused g (ok true) = (
        ((k, refl, rw (same_key_refl k) refl), IsKnown-cons headers k cache log h),
        distinct,
        omega arith,
      )

  authorize_key-IsAudited :
      (k : AuthKey) (cache : List (AuthKey × Bool)) (w : World) (log : List ReviewSpec)
      → IsKnown headers cache log
      → AreDistinct log
      → IsAudited 1 (authorize_key (audited env) codec headers k cache (w, log)) log
  unfolding authorize_key
  authorize_key-IsAudited k cache w log h d = from_answer (cached k cache) refl
    where
      from_answer :
          (o : Option Bool)
          → cached k cache ≡ o
          → IsAudited 1 (from_cache (audited env) codec headers k cache o (w, log)) log
      from_answer (some true) e = unasked-IsAudited cache w log 1 h d
      from_answer (some false) e = (tt, d, omega arith)
      from_answer none e = review_key-IsAudited k cache w log e h d

  -- Discovery asks for no review.
  get_resource-unnoted :
      (gvk : Gvk) (s : Audited World) → (get_resource (audited env) gvk s).1.1 ≡ s.1
  unfolding get_resource
  get_resource-unnoted gvk s = from_mapping (env.rest_mapping gvk s.0).0
    where
      from_mapping :
          (r : Result Text (Option Mapping))
          → (retry (audited env) gvk r ((env.rest_mapping gvk s.0).1, s.1)).1.1 ≡ s.1
      from_mapping (ok m) = refl
      from_mapping (err e) = refl

  authorize_mapped-IsAudited :
      (op : Operation) (namespace : Text) (obj : Fields) (cache : List (AuthKey × Bool))
      (found : Result Text (Option Mapping)) (s : Audited World) (log : List ReviewSpec)
      → s.1 ≡ log
      → IsKnown headers cache log
      → AreDistinct log
      → IsAudited 1
          (authorize_mapped (audited env) codec headers op namespace obj cache found s)
          log
  authorize_mapped-IsAudited op namespace obj cache (err e) (w, l) log same h d =
      rw same (unasked-IsAudited cache w log 1 h d)
  authorize_mapped-IsAudited op namespace obj cache (ok none) (w, l) log same h d =
      rw same (unasked-IsAudited cache w log 1 h d)
  authorize_mapped-IsAudited op namespace obj cache (ok (some resource)) (w, l) log same h d =
      rw same (authorize_key-IsAudited (auth_key op resource namespace obj) cache w log h d)

  authorize_decoded-IsAudited :
      (op : Operation) (namespace : Text) (cache : List (AuthKey × Bool)) (o : Result Text Fields)
      (w : World) (log : List ReviewSpec)
      → IsKnown headers cache log
      → AreDistinct log
      → IsAudited 1
          (authorize_decoded (audited env) codec headers op namespace cache o (w, log))
          log
  unfolding authorize_object
  authorize_decoded-IsAudited op namespace cache (err e) w log h d = (tt, d, omega arith)
  authorize_decoded-IsAudited op namespace cache (ok obj) w log h d =
      elim (Bool-cases (api_version_of obj == [] || kind_of obj == [])) [
        | inl plain ↦ rw plain (unasked-IsAudited cache w log 1 h d)
        | inr typed ↦ rw typed (
            authorize_mapped-IsAudited op namespace obj cache _ _ log
              (get_resource-unnoted (gvk_of obj) (w, log)) h d)
      ]

  -- A chain of two audited steps.
  continue-IsAudited :
      (m n total : ℕ) (log : List ReviewSpec)
      (f : List (AuthKey × Bool) → Exec (Audited World) Text (List (AuthKey × Bool)))
      (r : Result Text (List (AuthKey × Bool))) (s : Audited World)
      → m + n ≤ total
      → IsAudited m (r, s) log
      → ((cache : List (AuthKey × Bool))
          → IsKnown headers cache s.1
          → AreDistinct s.1
          → IsAudited n (f cache s) s.1)
      → IsAudited total (continue r f s) log
  continue-IsAudited m n total log f (err e) s t (h, d, b) k = (tt, d, omega arith)
  continue-IsAudited m n total log f (ok cache) s t (h, d, b) k =
      let (h', d', b') = k cache h d in (h', d', omega arith)

  authorize_group-IsAudited :
      (op : Operation) (namespace : Text) (es : List Text) (cache : List (AuthKey × Bool))
      (w : World) (log : List ReviewSpec)
      → IsKnown headers cache log
      → AreDistinct log
      → IsAudited
          (length es)
          (authorize_group (audited env) codec headers op namespace es cache (w, log))
          log
  unfolding authorize_group
  authorize_group-IsAudited op namespace [] cache w log h d = unasked-IsAudited cache w log 0 h d
  authorize_group-IsAudited op namespace (e ∷ es) cache w log h d =
      continue-IsAudited 1 (length es) (length (e ∷ es)) log
        (authorize_group (audited env) codec headers op namespace es) _ _ (omega arith)
        (authorize_decoded-IsAudited op namespace cache (codec.decode_object e) w log h d)
        (λ cache' h' d'. authorize_group-IsAudited op namespace es cache' _ _ h' d')

  transaction_authorize_all-IsAudited :
      (t : TransactionRequest) (namespace : Text) (w : World)
      → IsAudited
          (entries t)
          (transaction_authorize_all (audited env) codec headers t namespace (w, []))
          []
  unfolding transaction_authorize_all
  transaction_authorize_all-IsAudited t namespace w =
      continue-IsAudited (length t.create) (length t.update + length t.delete) (entries t) []
        (λ c.
          authorize_group (audited env) codec headers update namespace t.update c
          >>= authorize_group (audited env) codec headers delete namespace t.delete)
        _ _ (omega arith) (authorize_group-IsAudited create namespace t.create [] w [] tt tt)
        (λ c₁ h₁ d₁.
          continue-IsAudited (length t.update) (length t.delete) _ _
            (authorize_group (audited env) codec headers delete namespace t.delete) _ _
            (omega arith) (authorize_group-IsAudited update namespace t.update c₁ _ _ h₁ d₁)
            (λ c₂ h₂ d₂. authorize_group-IsAudited delete namespace t.delete c₂ _ _ h₂ d₂))

  -- However many entries a transaction has, and whatever is answered, its authorization asks for no access
  -- review twice, and for at most one for each entry.
  pub transaction_authorize_all-reviews :
      (t : TransactionRequest) (namespace : Text) (w : World)
      → let log = (transaction_authorize_all (audited env) codec headers t namespace (w, [])).1.1 in
        AreDistinct log × (length log ≤ length t.create + (length t.update + length t.delete))
  transaction_authorize_all-reviews t namespace w =
      let (going, distinct, bound) = transaction_authorize_all-IsAudited t namespace w in
      (distinct, omega arith)
