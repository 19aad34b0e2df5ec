-- ===== src/Transaction/Keys.antt =====
-- The keys of the map of a transaction's resources.
use api_extension.Prelude.{
  ℕ, true, false, ◌+◌, ◌≡◌, refl, sym, ap, ◌∙◌, [], ◌∷◌, ◌++◌, arith, length, append_assoc,
}
use api_extension.Text.{Text, text, ◌==◌}
use api_extension.Transaction.{Operation, create, update, delete, operation_name}
use api_extension.Transaction.Resource.{resource_key}

length-append : (s t : Text) → length (s ++ t) ≡ length s + length t
length-append [] t = omega arith
length-append (c ∷ s) t = ground (arith, length-append s t)

-- Texts with ends of one length are equal just when what stands before the ends is, and the ends are.
append-suffix : (x y s t : Text) → length s ≡ length t → x ++ s ≡ y ++ t → (x ≡ y) × (s ≡ t)
append-suffix [] [] s t h e = (refl, e)
append-suffix [] (d ∷ y) s t h e = absurd (ground (arith, ap (length {A = ℕ}) e, length-append y t))
append-suffix (c ∷ x) [] s t h e = absurd (ground (arith, ap (length {A = ℕ}) e, length-append x s))
append-suffix (c ∷ x) (d ∷ y) s t h e = ground (arith, append-suffix x y s t h)

abbrev mark : Operation → Text
mark op = text "#" ++ operation_name op

mark-length : (op : Operation) → length (mark op) ≡ 7
unfolding text operation_name
mark-length create = refl
mark-length update = refl
mark-length delete = refl

mark-injective : (op op' : Operation) → mark op ≡ mark op' → op ≡ op'
unfolding text operation_name ◌==◌
mark-injective create create e = refl
mark-injective create update e =
    let differ : false ≡ true = ap (λ (s : Text). s == mark update) e in cc
mark-injective create delete e =
    let differ : false ≡ true = ap (λ (s : Text). s == mark delete) e in cc
mark-injective update create e =
    let differ : false ≡ true = ap (λ (s : Text). s == mark create) e in cc
mark-injective update update e = refl
mark-injective update delete e =
    let differ : false ≡ true = ap (λ (s : Text). s == mark delete) e in cc
mark-injective delete create e =
    let differ : false ≡ true = ap (λ (s : Text). s == mark create) e in cc
mark-injective delete update e =
    let differ : false ≡ true = ap (λ (s : Text). s == mark update) e in cc
mark-injective delete delete e = refl

-- Two entries of the map have the same key only if they are for the same key of the store and the
-- same operation, whatever the names of the objects hold, a "#" included.
pub resource_key-injective :
    (prefix name prefix' name' : Text) (op op' : Operation)
    → resource_key prefix name op ≡ resource_key prefix' name' op'
    → (prefix ++ name ≡ prefix' ++ name') × (op ≡ op')
unfolding resource_key
resource_key-injective prefix name prefix' name' op op' e =
    let assoc =
      λ (p n : Text) (o : Operation). append_assoc (p ++ n) (text "#") (operation_name o) in
    let (same, ends) =
      append-suffix (prefix ++ name) (prefix' ++ name') (mark op) (mark op')
        (mark-length op ∙ sym (mark-length op'))
        (sym (assoc prefix name op) ∙ e ∙ assoc prefix' name' op') in
    (same, mark-injective op op' ends)
