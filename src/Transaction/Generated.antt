-- ===== src/Transaction/Generated.antt =====
-- The keys of transactions that nobody has named.
use api_extension.Prelude.{◌≡◌, ◌≢◌, refl, sym, ◌∙◌, [], ◌++◌}
use api_extension.Text.{Text, text, eq_refl}
use api_extension.Text.Strings.{decimal}
use api_extension.Text.Laws.{Lacks}
use api_extension.Text.Digits.{decimal-injective}
use api_extension.Kube.{Backend, Codec}
use api_extension.Transaction.{TransactionRequest, transaction_storage_key}
use api_extension.Transaction.Handler.{transaction_name}
use api_extension.Transaction.Paths.{transaction_storage_key-injective}
use mathlib.Core.List.{append_cancel_left}

module _ {World : Type 0} (env : Backend World) (codec : Codec) where
  transaction_name-now :
      (request : TransactionRequest) (w : World)
      → request.name ≡ []
      → (transaction_name env codec request [] w).0 ≡ text "txn-" ++ decimal (env.now w).0
  unfolding transaction_name
  transaction_name-now request w h = rw (h, eq_refl []) refl

  -- Two transactions that neither their metadata nor their calls name are stored under different keys, if
  -- the clock shows different times: whatever the requests are, in one namespace or in two, which hold
  -- no slash.
  pub transaction_name-ne :
      (request₁ request₂ : TransactionRequest) (space₁ space₂ : Text) (w₁ w₂ : World)
      → request₁.name ≡ []
      → request₂.name ≡ []
      → Lacks b'/' space₁
      → Lacks b'/' space₂
      → (env.now w₁).0 ≢ (env.now w₂).0
      → transaction_storage_key space₁ (transaction_name env codec request₁ [] w₁).0
        ≢ transaction_storage_key space₂ (transaction_name env codec request₂ [] w₂).0
  transaction_name-ne request₁ request₂ space₁ space₂ w₁ w₂ unnamed₁ unnamed₂ free₁ free₂ later
        same =
      let (_, names) = transaction_storage_key-injective space₁ space₂ _ _ free₁ free₂ same in
      later (
        decimal-injective _ _ (
          append_cancel_left (text "txn-") _ _ (
            sym (transaction_name-now request₁ w₁ unnamed₁)
            ∙ names
            ∙ transaction_name-now request₂ w₂ unnamed₂)))
