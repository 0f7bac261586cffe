-- ===== src/Json/Laws.antt =====
-- Reading a property after an assignment, a deletion or a spread.
use xapi_lrs.Prelude.{String, ◌≡◌, refl, Option, none, some, arith, ◌==◌, eq_iff, if◌then◌else◌}
use xapi_lrs.Json.{Json, Fields, end, field, get, put, delete, spread}

pub get-put :
    (k j : String) (v : Json) (fs : Fields)
    → get j (put k v fs) ≡ (if k == j then some v else get j fs)
unfolding get put
get-put k j v end = refl
get-put k j v (field i w fs) = ground (arith, eq_iff k j, eq_iff i k, eq_iff i j, get-put k j v fs)

pub get-delete :
    (k j : String) (fs : Fields) → get j (delete k fs) ≡ (if k == j then none else get j fs)
unfolding get delete
get-delete k j end = ground arith
get-delete k j (field i w fs) =
    ground (arith, eq_iff k j, eq_iff i k, eq_iff i j, get-delete k j fs)

-- No key stands twice, as in every JavaScript object.
abbrev pub Distinct : Fields → Type 0
Distinct end = Unit
Distinct (field k v fs) = (get k fs ≡ none) × Distinct fs

abbrev pub or_get : Option Json → Option Json → Option Json
or_get (some v) o = some v
or_get none o = o

-- The second object of a spread wins.
pub get-spread :
    (a b : Fields) (j : String) → Distinct b → get j (spread a b) ≡ or_get (get j b) (get j a)
unfolding get spread
get-spread a end j d = refl
get-spread a (field k v fs) j (fresh, d) =
    ground (arith, get-spread (put k v a) fs j d, get-put k j v a, eq_iff k j)
