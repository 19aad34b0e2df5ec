-- ===== src/Transaction/Mapped.antt =====
-- What the map of a transaction's resources holds when every entry of the request is mapped.
use api_extension.Prelude.{
  ◌≡◌, refl, Bool, true, false, ◌||◌, List, [], ◌∷◌, arith, All, ok, ok_inj, bind-eq-ok,
}
use api_extension.Text.{Text, ◌==◌, eq_refl}
use api_extension.Kube.{Backend, Codec, RestClient}
use api_extension.Kube.Reached.{Reached, here, Reached-trans, reached_frame}
use api_extension.Transaction.{Operation, create, update, delete, TransactionRequest}
use api_extension.Transaction.Resource.{put_resource, map_decoded, transaction_resource_map}
use api_extension.Transaction.Handler.{map_entries, map_operations}
use api_extension.Transaction.Frame.{map_decoded-R, map_entries-R}
use api_extension.Transaction.Puts.{IsWritten, IsPut, map_decoded-IsPut}

-- A key of the map.
unfoldable pub has_key : Text → List (Text × Text) → Bool
has_key k [] = false
has_key k ((j, v) ∷ m) = j == k || has_key k m

put_resource-has_key : (k v : Text) (m : List (Text × Text)) → has_key k (put_resource k v m) ≡ true
unfolding put_resource has_key
put_resource-has_key k v [] = ground (arith, eq_refl k)
put_resource-has_key k v ((j, u) ∷ m) = ground (arith, put_resource-has_key k v m)

put_resource-keeps :
    (j k v : Text) (m : List (Text × Text))
    → has_key j m ≡ true
    → has_key j (put_resource k v m) ≡ true
unfolding put_resource has_key
put_resource-keeps j k v [] h = cc
put_resource-keeps j k v ((i, u) ∷ m) h = ground (arith, put_resource-keeps j k v m)

-- Every key of the one map is a key of the other.
abbrev pub Keeps : List (Text × Text) → List (Text × Text) → Type 0
Keeps m m' = (k : Text) → has_key k m ≡ true → has_key k m' ≡ true

module _ {World : Type 0} (env : Backend World) (codec : Codec) (client : RestClient)
    (core : List Text) (start : World) where
  -- The map holds the key of what an entry was mapped to.
  abbrev pub IsMapped : Operation → Text → List (Text × Text) → Text → Type 0
  IsMapped op namespace m entry =
      (kv : Text × Text) × IsWritten env codec client core start op namespace entry kv
      × (has_key kv.0 m ≡ true)

  IsMapped-Keeps :
      (op : Operation) (namespace : Text) (m m' : List (Text × Text)) (entry : Text)
      → Keeps m m'
      → IsMapped op namespace m entry
      → IsMapped op namespace m' entry
  IsMapped-Keeps op namespace m m' entry h (kv, e, k) = (kv, e, h kv.0 k)

  IsPut-IsMapped :
      (op : Operation) (namespace entry : Text) (m m' : List (Text × Text))
      → IsPut env codec client core start op namespace entry m m'
      → IsMapped op namespace m' entry × Keeps m m'
  IsPut-IsMapped op namespace entry m m' ((k, v), e, same) = (
    ((k, v), e, rw same (put_resource-has_key k v m)),
    λ j q. rw same (put_resource-keeps j k v m q),
  )

  All-Keeps :
      (op : Operation) (namespace : Text) (m m' : List (Text × Text)) (entries : List Text)
      → Keeps m m'
      → All (IsMapped op namespace m) entries
      → All (IsMapped op namespace m') entries
  All-Keeps op namespace m m' [] h k = tt
  All-Keeps op namespace m m' (entry ∷ entries) h (e, k) =
      (IsMapped-Keeps op namespace m m' entry h e, All-Keeps op namespace m m' entries h k)

  map_entries-IsMapped :
      (op : Operation) (namespace : Text) (entries : List Text) (m m' : List (Text × Text))
      (w : World)
      → Reached env start w
      → (map_entries env codec client core op namespace entries m w).0 ≡ ok m'
      → All (IsMapped op namespace m') entries × Keeps m m'
  unfolding map_entries transaction_resource_map
  map_entries-IsMapped op namespace [] m m' w r h = (tt, λ k q. rw (← (ok_inj h)) q)
  map_entries-IsMapped op namespace (entry ∷ entries) m m' w r h =
      let (mid, first, rest) =
        bind-eq-ok (map_decoded env codec client core op namespace m (codec.decode_object entry))
          (map_entries env codec client core op namespace entries) w h in
      let (e, k) = IsPut-IsMapped op namespace entry m mid (
        map_decoded-IsPut env codec client core start op namespace entry (codec.decode_object entry)
          m mid w refl r first) in
      let r' = Reached-trans env start w _ r (
        map_decoded-R (reached_frame env) codec client core op namespace m
          (codec.decode_object entry) w) in
      let (es, k') = map_entries-IsMapped op namespace entries mid m' _ r' rest in
      ((IsMapped-Keeps op namespace mid m' entry k' e, es), λ j q. k' j (k j q))

module _ {World : Type 0} (env : Backend World) (codec : Codec) (client : RestClient)
    (core : List Text) where
  -- When the entries of a transaction are mapped without an error, no entry is lost: each of its three
  -- lists' entries decodes to an object with an apiVersion and a kind that discovery mapped during
  -- this call, a create and an update came through the dry run, and the map of resources holds the
  -- key of the checked object, which has a name, with the operation.
  pub map_operations-IsMapped :
      (request : TransactionRequest) (namespace : Text) (w : World) (m : List (Text × Text))
      → (map_operations env codec client core request namespace w).0 ≡ ok m
      → All (IsMapped env codec client core w create namespace m) request.create
        × All (IsMapped env codec client core w update namespace m) request.update
        × All (IsMapped env codec client core w delete namespace m) request.delete
  unfolding map_operations
  map_operations-IsMapped request namespace w m h =
      let (m₁, h₁, rest) =
        bind-eq-ok (map_entries env codec client core create namespace request.create []) _ w h in
      let (m₂, h₂, h₃) =
        bind-eq-ok (map_entries env codec client core update namespace request.update m₁) _ _
          rest in
      let frame = reached_frame env in
      let r₁ = map_entries-R frame codec client core create namespace request.create [] w in
      let r₂ =
        Reached-trans env w _ _ r₁
          (map_entries-R frame codec client core update namespace request.update m₁ _) in
      let (c, k₁) =
        map_entries-IsMapped env codec client core w create namespace request.create [] m₁ w here
          h₁ in
      let (u, k₂) =
        map_entries-IsMapped env codec client core w update namespace request.update m₁ m₂ _ r₁
          h₂ in
      let (d, k₃) =
        map_entries-IsMapped env codec client core w delete namespace request.delete m₂ m _ r₂ h₃ in
      (
        All-Keeps env codec client core w create namespace m₁ m request.create
            (λ k q. k₃ k (k₂ k q)) c,
        All-Keeps env codec client core w update namespace m₂ m request.update k₃ u,
        d,
      )
