-- ===== src/Transaction/Asked.antt =====
-- The access reviews of a transaction, and those of them that are in the cache.
use api_extension.Prelude.{
  ◌≡◌, ◌≢◌, refl, sym, ◌∙◌, Bool, true, none, some, List, [], ◌∷◌, arith, All, Bool-cases, inl, inr,
}
use api_extension.Text.{text, eq_refl}
use api_extension.Http.{Values, get, values}
use api_extension.Kube.{ReviewSpec}
use api_extension.Transaction.Authorize.{AuthKey, same_key, cached, attributes_of}

-- No two of the reviews are the same.
abbrev pub AreDistinct : List ReviewSpec → Type 0
AreDistinct [] = Unit
AreDistinct (s ∷ log) = All (λ t. t ≢ s) log × AreDistinct log

pub same_key_refl : (k : AuthKey) → same_key k k ≡ true
unfolding same_key
same_key_refl k = rw (eq_refl k.group, eq_refl k.resource, eq_refl k.verb, eq_refl k.namespace) refl

module _ (headers : Values) where
  abbrev pub spec_of : AuthKey → ReviewSpec
  spec_of k = record {
    attributes = attributes_of k;
    user = get (text "X-Remote-User") headers;
    groups = values (text "X-Remote-Group") headers;
  }

  -- Each review that was asked for is in the cache.
  abbrev pub IsCached : List (AuthKey × Bool) → ReviewSpec → Type 0
  IsCached cache s = (k : AuthKey) × (s ≡ spec_of k) × (cached k cache ≡ some true)

  abbrev pub IsKnown : List (AuthKey × Bool) → List ReviewSpec → Type 0
  IsKnown cache log = All (IsCached cache) log

  spec_of-injective : (j k : AuthKey) → spec_of j ≡ spec_of k → j ≡ k
  unfolding attributes_of
  spec_of-injective j k e = λ i. record {
    group = (e i).attributes.group;
    resource = (e i).attributes.resource;
    verb = (e i).attributes.verb;
    namespace = (e i).attributes.namespace;
  }

  -- An answer that is put into the cache leaves the others there.
  IsCached-cons :
      (k : AuthKey) (cache : List (AuthKey × Bool)) (s : ReviewSpec)
      → IsCached cache s
      → IsCached ((k, true) ∷ cache) s
  unfolding cached
  IsCached-cons k cache s (j, e, c) = elim (Bool-cases (same_key k j)) [
    | inl same ↦ (j, e, rw same refl)
    | inr other ↦ (j, e, rw other c)
  ]

  pub IsKnown-cons :
      (k : AuthKey) (cache : List (AuthKey × Bool)) (log : List ReviewSpec)
      → IsKnown cache log
      → IsKnown ((k, true) ∷ cache) log
  IsKnown-cons k cache [] h = tt
  IsKnown-cons k cache (s ∷ log) (h, hs) = (IsCached-cons k cache s h, IsKnown-cons k cache log hs)

  -- A review that is not in the cache was not asked for.
  pub spec_of-fresh :
      (k : AuthKey) (cache : List (AuthKey × Bool)) (log : List ReviewSpec)
      → cached k cache ≡ none
      → IsKnown cache log
      → All (λ t. t ≢ spec_of k) log
  spec_of-fresh k cache [] free h = tt
  spec_of-fresh k cache (s ∷ log) free ((j, e, c), hs) = (
    λ same.
        let own : j ≡ k = spec_of-injective j k (sym e ∙ same) in
        let there : cached k cache ≡ some true = rw own at c in ground (arith, free, there),
    spec_of-fresh k cache log free hs,
  )
