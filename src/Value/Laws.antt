-- ===== src/Value/Laws.antt =====
-- Laws of maps.
use servone.Prelude.{String, ◌≡◌, refl, some, str_eq, eq_iff, if◌then◌else◌, arith}
use servone.Value.{Value, Fields, end, field, get, put}

-- Reading a map after a write.
pub get-put :
    (k j : String) (v : Value) (m : Fields)
    → get j (put k v m) ≡ (if str_eq k j then some v else get j m)
unfolding get put
get-put k j v end = refl
get-put k j v (field i w m) = ground (arith, eq_iff k j, eq_iff i k, eq_iff i j, get-put k j v m)
