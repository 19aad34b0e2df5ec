-- ===== src/Transaction/Last.antt =====
-- Which value each key of a transaction's resources has: the last one that was written.
use api_extension.Prelude.{
  ◌≡◌, refl, ◌∙◌, sym, ap, Bool, true, false, Option, none, some, List, [], ◌∷◌, ◌++◌, arith, ok,
  ok_inj, bind-eq-ok, if◌then◌else◌,
}
use api_extension.Text.{Text, ◌==◌, eq_iff}
use api_extension.Kube.{Backend, Codec, RestClient}
use api_extension.Kube.Reached.{Reached, here, Reached-trans, reached_frame}
use api_extension.Transaction.{Operation, create, update, delete, TransactionRequest}
use api_extension.Transaction.Resource.{put_resource, map_decoded, transaction_resource_map}
use api_extension.Transaction.Handler.{map_entries, map_operations}
use api_extension.Transaction.Frame.{map_decoded-R, map_entries-R}
use api_extension.Transaction.Puts.{IsWritten, map_decoded-IsPut}

-- The value of a key in the map.
unfoldable pub value_of : Text → List (Text × Text) → Option Text
value_of k [] = none
value_of k ((j, v) ∷ m) = if j == k then some v else value_of k m

-- A value if there is one, else the other.
abbrev later : Option Text → Option Text → Option Text
later (some v) earlier = some v
later none earlier = earlier

-- The last value that a list of writes gives to a key.
unfoldable pub last_of : Text → List (Text × Text) → Option Text
last_of k [] = none
last_of k ((j, v) ∷ writes) = later (last_of k writes) (if j == k then some v else none)

value_of-put_resource :
    (k j v : Text) (m : List (Text × Text))
    → value_of k (put_resource j v m) ≡ (if j == k then some v else value_of k m)
unfolding value_of put_resource
value_of-put_resource k j v [] = refl
value_of-put_resource k j v ((i, u) ∷ m) =
    ground (arith, value_of-put_resource k j v m, eq_iff i j, eq_iff j k, eq_iff i k)

later_assoc : (a b c : Option Text) → later a (later b c) ≡ later (later a b) c
later_assoc (some v) b c = refl
later_assoc none b c = refl

later-none : (a : Option Text) → later a none ≡ a
later-none (some v) = refl
later-none none = refl

later-if :
    (a b : Option Text) (c : Bool) (v : Text)
    → later a (if c then some v else b) ≡ later (later a (if c then some v else none)) b
later-if (some u) b c v = refl
later-if none b true v = refl
later-if none b false v = refl

last_of-append :
    (k : Text) (first second : List (Text × Text))
    → last_of k (first ++ second) ≡ later (last_of k second) (last_of k first)
unfolding last_of
last_of-append k [] second = sym (later-none _)
last_of-append k ((j, v) ∷ first) second =
    rw (last_of-append k first second) (sym (later_assoc (last_of k second) (last_of k first) _))

-- What the map holds after some writes.
abbrev IsAfter : List (Text × Text) → List (Text × Text) → List (Text × Text) → Type 0
IsAfter m writes m' = (k : Text) → value_of k m' ≡ later (last_of k writes) (value_of k m)

IsAfter-trans :
    (m₀ m₁ m₂ first second : List (Text × Text))
    → IsAfter m₀ first m₁
    → IsAfter m₁ second m₂
    → IsAfter m₀ (first ++ second) m₂
IsAfter-trans m₀ m₁ m₂ first second h h' k =
    h' k
    ∙ ap (later (last_of k second)) (h k)
    ∙ later_assoc (last_of k second) (last_of k first) (value_of k m₀)
    ∙ ap (λ o. later o (value_of k m₀)) (sym (last_of-append k first second))

put_resource-IsAfter :
    (j v : Text) (m : List (Text × Text)) → IsAfter m ((j, v) ∷ []) (put_resource j v m)
unfolding last_of
put_resource-IsAfter j v m k =
    value_of-put_resource k j v m ∙ later-if none (value_of k m) (j == k) v

module _ {World : Type 0} (env : Backend World) (codec : Codec) (client : RestClient)
    (core : List Text) (start : World) (namespace : Text) where
  -- Each entry was mapped to the write at its place.
  abbrev pub AreWritten : Operation → List Text → List (Text × Text) → Type 0
  AreWritten op [] [] = Unit
  AreWritten op (entry ∷ entries) (kv ∷ writes) =
      IsWritten env codec client core start op namespace entry kv × AreWritten op entries writes
  AreWritten op _ _ = ⊥

  map_entries-AreWritten :
      (op : Operation) (entries : List Text) (m m' : List (Text × Text)) (w : World)
      → Reached env start w
      → (map_entries env codec client core op namespace entries m w).0 ≡ ok m'
      → (writes : List (Text × Text)) × AreWritten op entries writes × IsAfter m writes m'
  unfolding map_entries transaction_resource_map last_of
  map_entries-AreWritten op [] m m' w r h = ([], tt, λ k. ap (value_of k) (sym (ok_inj h)))
  map_entries-AreWritten op (entry ∷ entries) m m' w r h =
      let (mid, first, rest) =
        bind-eq-ok (map_decoded env codec client core op namespace m (codec.decode_object entry))
          (map_entries env codec client core op namespace entries) w h in
      let ((k, v), written, same) =
        map_decoded-IsPut env codec client core start op namespace entry (codec.decode_object entry)
          m mid w refl r first in
      let r' = Reached-trans env start w _ r (
        map_decoded-R (reached_frame env) codec client core op namespace m
          (codec.decode_object entry) w) in
      let (writes, are_written, after) = map_entries-AreWritten op entries mid m' _ r' rest in
      let put : IsAfter m ((k, v) ∷ []) mid =
        λ j. ap (value_of j) same ∙ put_resource-IsAfter k v m j in
      (
        (k, v) ∷ writes,
        (written, are_written),
        IsAfter-trans m mid m' ((k, v) ∷ []) writes put after,
      )

  -- Where all entries of a transaction are mapped, each of them was decoded, found by discovery and
  -- checked, and gave one write of its object to its key; and the value of any key in the map is that of
  -- the last write to it: first those of the entries to create, then to update, then to delete, each
  -- group in the order of the request. So of two entries with one key the later one is kept, and a key
  -- that none of them writes is not there.
  pub map_operations-last_of :
      (request : TransactionRequest) (m : List (Text × Text))
      → (map_operations env codec client core request namespace start).0 ≡ ok m
      → (creates : List (Text × Text)) × (updates : List (Text × Text)) × (deletes : List
          (Text × Text))
        × AreWritten create request.create creates
        × AreWritten update request.update updates
        × AreWritten delete request.delete deletes
        × ((k : Text) → value_of k m ≡ last_of k (creates ++ (updates ++ deletes)))
  unfolding map_operations value_of
  map_operations-last_of request m h =
      let (m₁, h₁, rest) =
        bind-eq-ok (map_entries env codec client core create namespace request.create []) _ start
          h in
      let (m₂, h₂, h₃) =
        bind-eq-ok (map_entries env codec client core update namespace request.update m₁) _ _
          rest in
      let frame = reached_frame env in
      let r₁ = map_entries-R frame codec client core create namespace request.create [] start in
      let r₂ =
        Reached-trans env start _ _ r₁
          (map_entries-R frame codec client core update namespace request.update m₁ _) in
      let (creates, c, a₁) = map_entries-AreWritten create request.create [] m₁ start here h₁ in
      let (updates, u, a₂) = map_entries-AreWritten update request.update m₁ m₂ _ r₁ h₂ in
      let (deletes, d, a₃) = map_entries-AreWritten delete request.delete m₂ m _ r₂ h₃ in
      let all =
        IsAfter-trans [] m₁ m creates (updates ++ deletes) a₁
          (IsAfter-trans m₁ m₂ m updates deletes a₂ a₃) in
      (creates, updates, deletes, c, u, d, λ k. all k ∙ later-none _)
