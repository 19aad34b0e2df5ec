-- ===== src/Transaction/Paths.antt =====
-- The namespace in a path, and the keys of transactions.
use mathlib.Core.List.{append_cancel_left}
use api_extension.Prelude.{
  ◌≡◌, ◌≢◌, refl, ap, inl, inr, not, ◌&&◌, List, [], ◌∷◌, ◌++◌, append_assoc, arith, All,
  Bool-cases,
}
use api_extension.Text.{Text, text, ◌==◌, eq_iff, eq_refl}
use api_extension.Text.Strings.{split, trim_slash}
use api_extension.Text.Laws.{Lacks, split-All, append-sep-injective, text-slash}
use api_extension.Transaction.{
  find_namespace, transaction_request_namespace, transaction_storage_key,
}

-- `ns` stands in the list, right behind a part "namespaces".
abbrev pub IsNamed : Text → List Text → Type 0
IsNamed ns parts =
    (before : List Text) × (behind : List Text) × (parts
      ≡ before ++ text "namespaces" ∷ ns ∷ behind)

find_namespace-IsNamed :
    (parts : List Text) → find_namespace parts ≢ [] → IsNamed (find_namespace parts) parts
unfolding find_namespace
find_namespace-IsNamed [] h = absurd (h refl)
find_namespace-IsNamed (p ∷ []) h = absurd (h refl)
find_namespace-IsNamed (p ∷ q ∷ ps) h =
    elim (Bool-cases (p == text "namespaces" && not (q == []))) [
      | inl e ↦ rw e ([], ps, ground (arith, eq_iff p (text "namespaces")))
      | inr e ↦
          let (before, behind, same) = find_namespace-IsNamed (q ∷ ps) (rw e at h) in
          rw e (p ∷ before, behind, ap (λ xs. p ∷ xs) same)
    ]

All-member :
    (P : Text → Type 0) (before : List Text) (x : Text) (behind : List Text)
    → All P (before ++ x ∷ behind)
    → P x
All-member P [] x behind h = h.0
All-member P (b ∷ before) x behind h = All-member P before x behind h.1

-- A namespace that is found in a request's path is one of the parts between its slashes, the one
-- behind a part "namespaces", and holds no slash itself.
pub transaction_request_namespace-IsNamed :
    (path : Text)
    → transaction_request_namespace path ≢ []
    → IsNamed (transaction_request_namespace path) (split (trim_slash path) b'/')
      × Lacks b'/' (transaction_request_namespace path)
unfolding transaction_request_namespace
transaction_request_namespace-IsNamed path h =
    let parts = split (trim_slash path) b'/' in
    let (before, behind, same) = find_namespace-IsNamed parts h in
    let clean : All (Lacks b'/') (before ++ text "namespaces" ∷ find_namespace parts ∷ behind) =
      rw same at (split-All (trim_slash path) b'/') in
    let inner : All (Lacks b'/')
        ((before ++ text "namespaces" ∷ []) ++ find_namespace parts ∷ behind) =
      rw append_assoc clean in
    (
      (before, behind, same),
      All-member (Lacks b'/') (before ++ text "namespaces" ∷ []) (find_namespace parts) behind
          inner,
    )

-- The first `namespaces` part that is followed by a part which is not empty decides, whatever stands
-- behind it.
find_namespace-append :
    (before : List Text) (ns : Text) (behind : List Text)
    → All (λ p. p ≢ text "namespaces") before
    → ns ≢ []
    → find_namespace (before ++ text "namespaces" ∷ ns ∷ behind) ≡ ns
unfolding find_namespace
find_namespace-append [] ns behind h k = ground (arith, eq_iff ns [], eq_refl (text "namespaces"))
find_namespace-append (b ∷ []) ns behind h k =
    ground (arith, eq_iff b (text "namespaces"), find_namespace-append [] ns behind tt k)
find_namespace-append (b ∷ c ∷ before) ns behind h k =
    ground (arith, eq_iff b (text "namespaces"), find_namespace-append (c ∷ before) ns behind h.1 k)

-- Transactions of different namespaces or names have different keys, if the namespaces hold no slash.
pub transaction_storage_key-injective :
    (ns₁ ns₂ name₁ name₂ : Text)
    → Lacks b'/' ns₁
    → Lacks b'/' ns₂
    → transaction_storage_key ns₁ name₁ ≡ transaction_storage_key ns₂ name₂
    → (ns₁ ≡ ns₂) × (name₁ ≡ name₂)
unfolding transaction_storage_key
transaction_storage_key-injective ns₁ ns₂ name₁ name₂ h₁ h₂ e =
    append-sep-injective b'/' ns₁ ns₂ name₁ name₂ h₁ h₂ (
      append_cancel_left (text "/harikube/transaction/") _ _
        (rw (text-slash, append_assoc, append_assoc, append_assoc, append_assoc) at e))
