-- ===== src/Statement/Compare/Laws.antt =====
-- The comparison that tells a repeated statement from a conflicting one.
use xapi_lrs.Prelude.{String, ◌≡◌, refl, ap, ◌∙◌, true, false, Option, ◌==◌, eq_iff, eq_refl, arith}
use xapi_lrs.Platform.{Millis}
use xapi_lrs.Json.{Json, Fields, end, field, put, delete, str, obj}
use xapi_lrs.Statement.Decompose.{build_payload}
use xapi_lrs.Statement.Compare.{statements_match, without_server_fields}

delete-put_self : (k : String) (v : Json) (fs : Fields) → delete k (put k v fs) ≡ delete k fs
unfolding delete put
delete-put_self k v end = rw (eq_refl k) refl
delete-put_self k v (field j w fs) = ground (arith, eq_refl k, eq_iff j k, delete-put_self k v fs)

delete-put_ne :
    (k j : String) (v : Json) (fs : Fields)
    → (j == k) ≡ false
    → delete k (put j v fs) ≡ put j v (delete k fs)
unfolding delete put
delete-put_ne k j v end ne = rw ne refl
delete-put_ne k j v (field i w fs) ne =
    ground (arith, ne, eq_iff i k, eq_iff i j, eq_iff j k, delete-put_ne k j v fs ne)

delete_comm : (k j : String) (fs : Fields) → delete k (delete j fs) ≡ delete j (delete k fs)
unfolding delete
delete_comm k j end = refl
delete_comm k j (field i w fs) = ground (arith, eq_iff i k, eq_iff i j, delete_comm k j fs)

without_server_fields-build_payload :
    (s : Fields) (iso : String) (authority : Fields)
    → without_server_fields (build_payload s iso authority) ≡ without_server_fields s
unfolding build_payload
without_server_fields-build_payload s iso authority =
    ap (λ x. delete "version" (delete "authority" x))
      (delete-put_ne "stored" "authority" (obj authority) (put "stored" (str iso) s) refl)
    ∙ ap (delete "version")
        (delete-put_self "authority" (obj authority) (delete "stored" (put "stored" (str iso) s)))
    ∙ ap (λ x. delete "version" (delete "authority" x)) (delete-put_self "stored" (str iso) s)

-- A statement matches what was stored of it, whatever time and authority the server has added.
pub statements_match-build_payload :
    (quote : String → String) (js_date : String → Option Millis) (s : Fields) (iso : String)
    (authority : Fields)
    → statements_match quote js_date (build_payload s iso authority) s ≡ true
unfolding statements_match
statements_match-build_payload quote js_date s iso authority =
    rw (without_server_fields-build_payload s iso authority) (eq_refl _)
