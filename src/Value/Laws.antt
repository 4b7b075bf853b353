-- ===== src/Value/Laws.antt =====
-- The laws of dictionaries: what a key holds after a write or a deletion.
use dqmgui_prod.Base.{String, false, ◌≡◌, refl, some, ◌==◌, eq_iff, arith, if◌then◌else◌}
use dqmgui_prod.Value.{Value, Fields, end, field, get, put, del}

pub get-put :
    (k j : String) (v : Value) (d : Fields)
    → get j (put k v d) ≡ (if k == j then some v else get j d)
unfolding get put
get-put k j v end = refl
get-put k j v (field i w d) = ground (arith, eq_iff k j, eq_iff i k, eq_iff i j, get-put k j v d)

pub get-del_ne : (k j : String) (d : Fields) → (k == j) ≡ false → get j (del k d) ≡ get j d
unfolding get del
get-del_ne k j end h = refl
get-del_ne k j (field i w d) h =
    ground (arith, eq_iff k j, eq_iff i k, eq_iff i j, get-del_ne k j d h)
