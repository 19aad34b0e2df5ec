-- ===== src/Server/Replies/Denied.antt =====
-- How a query and a decision answer when the access review fails or refuses, and when it allows.
use api_extension.Prelude.{
  ℕ, ◌≡◌, ◌⊎◌, ◌↔◌, inl, inr, refl, List, Bool, true, false, arith, Result, ok, err,
}
use api_extension.Text.{Text}
use api_extension.Http.{Reply, error, content, silent, Request, forbidden, not_found}
use api_extension.Kube.{Backend, Codec, RestClient}
use api_extension.Helper.{subject_access_review}
use api_extension.Query.{require_access, query_attributes}
use api_extension.Query as Query
use api_extension.Decision.Handler as Decisions
use api_extension.Decision.Handler.{decision_attributes}
use api_extension.Server.Serving.{query, decision, serve}
use api_extension.Server.Replies.Queries.{query_access-Sent}
use api_extension.Server.Replies.Decisions.{decision_access-Sent}

-- An error reply with this status.
abbrev pub HasStatus : ℕ → Reply → Type 0
HasStatus code (error message status) = status ≡ code
HasStatus code other = ⊥

-- Which reply and which world follow a review with this result in this world.
abbrev pub IsDenied : {World : Type 0} → Result Text Bool × World → Reply × World → Type 0
IsDenied (result, reviewed) (reply, w) =
    (HasStatus forbidden reply ↔ (result ≡ ok false))
    × (HasStatus not_found reply ↔ ((e : Text) × (result ≡ err e)))
    × ((result ≡ ok true) ⊎ (w ≡ reviewed))

-- Neither of the two statuses.
abbrev IsOther : Reply → Type 0
IsOther reply = (¬ HasStatus forbidden reply) × (¬ HasStatus not_found reply)

forbidden-ne-not_found : (reply : Reply) → HasStatus forbidden reply → ¬ HasStatus not_found reply
forbidden-ne-not_found (error message status) h k = ground arith
forbidden-ne-not_found (content status kind body) h k = absurd h
forbidden-ne-not_found silent h k = absurd h

-- One case for each result of a review.
IsDenied-cases :
    {World : Type 0} (result : Result Text Bool) (reviewed : World) (reply : Reply) (w : World)
    → ((e : Text) → result ≡ err e → HasStatus not_found reply × (w ≡ reviewed))
    → (result ≡ ok false → HasStatus forbidden reply × (w ≡ reviewed))
    → (result ≡ ok true → IsOther reply)
    → IsDenied (result, reviewed) (reply, w)
IsDenied-cases (err e) reviewed reply w failed refused allowed =
    let (h, same) = failed e refl in
    (
      (λ k. absurd (forbidden-ne-not_found reply k h), λ q. absurd (ground arith)),
      (λ k. (e, refl), λ k. h),
      inr same,
    )
IsDenied-cases (ok false) reviewed reply w failed refused allowed =
    let (h, same) = refused refl in
    (
      (λ k. refl, λ q. h),
      (λ k. absurd (forbidden-ne-not_found reply h k), λ (x, q). absurd (ground arith)),
      inr same,
    )
IsDenied-cases (ok true) reviewed reply w failed refused allowed =
    let (h, k) = allowed refl in
    (
      (λ x. absurd (h x), λ q. absurd (ground arith)),
      (λ x. absurd (k x), λ (x, q). absurd (ground arith)),
      inl refl,
    )

module _ {World : Type 0} (env : Backend World) (codec : Codec) (client : RestClient)
    (core : List Text) (url namespace name : Text) (r : Request) (w : World) where
  decision-IsDenied :
      IsDenied
        (subject_access_review env (decision_attributes namespace) r.header w)
        (serve env codec client core url (decision namespace name r) w)
  unfolding serve Decisions.create_handler require_access
  decision-IsDenied =
      IsDenied-cases _ _ _ _ (λ e h. (rw h refl, rw h refl)) (λ h. (rw h refl, rw h refl))
        λ h.
          decision_access-Sent IsOther env codec url namespace name r w (rw h tt)
            (λ m. (λ k. ground arith, λ k. ground arith))
            (λ m. (λ k. ground arith, λ k. ground arith)) (λ kind body. (λ k. k, λ k. k))
            (λ k. k, λ k. k)

  query-IsDenied :
      IsDenied
        (subject_access_review env (query_attributes namespace) r.header w)
        (serve env codec client core url (query namespace name r) w)
  unfolding serve Query.create_handler require_access
  query-IsDenied =
      IsDenied-cases _ _ _ _ (λ e h. (rw h refl, rw h refl)) (λ h. (rw h refl, rw h refl))
        λ h.
          query_access-Sent IsOther env codec namespace name r w (rw h tt)
            (λ m. (λ k. ground arith, λ k. ground arith))
            (λ m. (λ k. ground arith, λ k. ground arith)) (λ kind body. (λ k. k, λ k. k))

  -- A decision and a query are answered with the status 403 exactly when the access review of their
  -- caller came back with a refusal, and with 404 exactly when that review failed; in both cases nothing
  -- is done after the review. No later step of the two handlers answers with one of these statuses.
  pub serve-IsDenied :
      IsDenied
        (subject_access_review env (decision_attributes namespace) r.header w)
        (serve env codec client core url (decision namespace name r) w)
      × IsDenied
          (subject_access_review env (query_attributes namespace) r.header w)
          (serve env codec client core url (query namespace name r) w)
  serve-IsDenied = (decision-IsDenied, query-IsDenied)
