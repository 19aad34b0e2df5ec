-- ===== src/Transaction/Written.antt =====
-- Where the resources of a transaction come from.
use api_extension.Prelude.{
  ◌≡◌, refl, Bool-cases, inl, inr, List, [], ◌∷◌, All, ok, ok_inj, bind-eq-ok,
}
use api_extension.Text.{Text, ◌==◌, eq_iff}
use api_extension.Kube.{Backend, Codec, RestClient}
use api_extension.Kube.Reached.{Reached, here, Reached-trans, reached_frame}
use api_extension.Transaction.{Operation, create, update, delete, TransactionRequest}
use api_extension.Transaction.Resource.{put_resource, map_decoded, transaction_resource_map}
use api_extension.Transaction.Handler.{map_entries, map_operations}
use api_extension.Transaction.Frame.{map_decoded-R, map_entries-R}
use api_extension.Transaction.Puts.{IsWritten, map_decoded-IsPut}

put_resource-All :
    (P : Text × Text → Type 0) (k v : Text) (m : List (Text × Text))
    → P (k, v)
    → All P m
    → All P (put_resource k v m)
unfolding put_resource
put_resource-All P k v [] p h = (p, tt)
put_resource-All P k v ((j, u) ∷ m) p (q, h) = elim (Bool-cases (j == k)) [
  | inl same ↦ let e : j ≡ k = (eq_iff j k).0 same in rw same ((rw e p), h)
  | inr other ↦ rw other (q, put_resource-All P k v m p h)
]

-- `Q op entry`: what is known of the entries of a request.
module _ {World : Type 0} (env : Backend World) (codec : Codec) (client : RestClient)
    (core : List Text) (Q : Operation → Text → Type 0) (start : World) (namespace : Text) where
  -- A key and a value that an entry of the request was mapped to.
  abbrev pub IsFrom : Text × Text → Type 0
  IsFrom kv =
      (op : Operation) × (entry : Text) × Q op entry
      × IsWritten env codec client core start op namespace entry kv

  map_entries-IsFrom :
      (op : Operation) (entries : List Text) (m m' : List (Text × Text)) (w : World)
      → Reached env start w
      → All (Q op) entries
      → All IsFrom m
      → (map_entries env codec client core op namespace entries m w).0 ≡ ok m'
      → All IsFrom m'
  unfolding map_entries transaction_resource_map
  map_entries-IsFrom op [] m m' w r q h e = rw (← (ok_inj e)) h
  map_entries-IsFrom op (entry ∷ entries) m m' w r (q, qs) h e =
      let (mid, first, rest) =
        bind-eq-ok (map_decoded env codec client core op namespace m (codec.decode_object entry))
          (map_entries env codec client core op namespace entries) w e in
      let ((k, v), written, same) =
        map_decoded-IsPut env codec client core start op namespace entry (codec.decode_object entry)
          m mid w refl r first in
      let r' = Reached-trans env start w _ r (
        map_decoded-R (reached_frame env) codec client core op namespace m
          (codec.decode_object entry) w) in
      map_entries-IsFrom op entries mid m' _ r' qs
        (rw same (put_resource-All IsFrom k v m (op, entry, q, written) h)) rest

  pub map_operations-IsFrom :
      (request : TransactionRequest) (m : List (Text × Text))
      → All (Q create) request.create
      → All (Q update) request.update
      → All (Q delete) request.delete
      → (map_operations env codec client core request namespace start).0 ≡ ok m
      → All IsFrom m
  unfolding map_operations
  map_operations-IsFrom request m c u d h =
      let (m₁, h₁, rest) =
        bind-eq-ok (map_entries env codec client core create namespace request.create []) _ start
          h in
      let (m₂, h₂, h₃) =
        bind-eq-ok (map_entries env codec client core update namespace request.update m₁) _ _
          rest in
      let frame = reached_frame env in
      let r₁ = map_entries-R frame codec client core create namespace request.create [] start in
      let r₂ =
        Reached-trans env start _ _ r₁
          (map_entries-R frame codec client core update namespace request.update m₁ _) in
      let created = map_entries-IsFrom create request.create [] m₁ start here c tt h₁ in
      let updated = map_entries-IsFrom update request.update m₁ m₂ _ r₁ u created h₂ in
      map_entries-IsFrom delete request.delete m₂ m _ r₂ d updated h₃
