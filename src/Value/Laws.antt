-- ===== src/Value/Laws.antt =====
-- Reading a map of type map[string]interface{} after a write.
use api_extension.Prelude.{◌≡◌, ◌≢◌, some, arith}
use api_extension.Text.{Text, eq_refl, eq_false, eq_iff}
use api_extension.Value.{Value, Fields, end, field, lookup, insert}

pub lookup-insert : (k : Text) (v : Value) (m : Fields) → lookup k (insert k v m) ≡ some v
unfolding lookup insert
lookup-insert k v end = ground (arith, eq_refl k)
lookup-insert k v (field j u m) = ground (arith, lookup-insert k v m)

pub lookup-insert_other :
    (k j : Text) (v : Value) (m : Fields) → k ≢ j → lookup j (insert k v m) ≡ lookup j m
unfolding lookup insert
lookup-insert_other k j v end h = ground (arith, eq_false k j h)
lookup-insert_other k j v (field i u m) h =
    ground (arith, eq_iff k j, eq_iff i k, eq_iff i j, lookup-insert_other k j v m h)

pub insert-insert : (k : Text) (u v : Value) (m : Fields) → insert k v (insert k u m) ≡ insert k v m
unfolding insert
insert-insert k u v end = ground (arith, eq_refl k)
insert-insert k u v (field j t m) = ground (arith, insert-insert k u v m)
