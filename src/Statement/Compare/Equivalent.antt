-- ===== src/Statement/Compare/Equivalent.antt =====
-- xapi/statement-compare.ts, `statementsEquivalent`: a signed statement against the received one.
pub mod Laws
use xapi_lrs.Prelude.{
  ℕ, zero, suc, String, Bool, true, false, not, ◌&&◌, ◌||◌, Option, none, some, ◌==◌, if◌then◌else◌,
}
use xapi_lrs.Json.{
  Json, Items, Fields, null, bool, num, str, arr, obj, nil, cons, end, field, get, delete,
}
use xapi_lrs.Statement.Format.{indexed}

-- EXCEPTION_FIELDS and `stripExceptions`
unfoldable pub strip_exceptions : Fields → Fields
strip_exceptions stmt = delete "attachments" (
    delete "version" (delete "timestamp" (delete "stored" (delete "authority" (delete "id" stmt)))))

abbrev pub same_bool : Bool → Bool → Bool
same_bool true b = b
same_bool false b = not b

abbrev pub is_null : Json → Bool
is_null null = true
is_null _ = false

-- the keys of the second object that the first has not
unfoldable pub no_extras : Fields → Fields → Bool
no_extras a end = true
no_extras a (field k v rest) =
    let others = no_extras a rest in (elim (get k a) [ none ↦ is_null v | some w ↦ true ]) && others

-- `deepEqual`. The items of an array are compared in their order; an object is compared with an
-- array by the keys of both.
unfoldable mutual
  pub deep_equal : Json → Json → Bool
  deep_equal null w = is_null w
  deep_equal (bool b) (bool c) = same_bool b c
  deep_equal (num s) (num t) = s == t
  deep_equal (str s) (str t) = s == t
  deep_equal (arr vs) (arr ws) = equal_items vs ws
  deep_equal (obj a) (obj b) = equal_fields a b && no_extras a b
  deep_equal (obj a) (arr ws) = equal_fields a (indexed 0 ws) && no_extras a (indexed 0 ws)
  deep_equal _ _ = false

  pub equal_items : Items → Items → Bool
  equal_items nil nil = true
  equal_items (cons v vs) (cons w ws) = deep_equal v w && equal_items vs ws
  equal_items _ _ = false

  pub equal_fields : Fields → Fields → Bool
  equal_fields end b = true
  equal_fields (field k v rest) b =
      (elim (get k b) [ none ↦ is_null v | some w ↦ deep_equal v w ]) && equal_fields rest b

-- `statementsEquivalent`
unfoldable pub statements_equivalent : Fields → Fields → Bool
unfolding strip_exceptions deep_equal
statements_equivalent signed received =
    deep_equal (obj (strip_exceptions signed)) (obj (strip_exceptions received))
