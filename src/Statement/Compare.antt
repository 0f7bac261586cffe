-- ===== src/Statement/Compare.antt =====
-- xapi/statement-compare.ts, `statementsMatch`: whether an incoming statement is the stored one.
pub mod Laws
pub mod Equivalent
use Prim.Native.Nat.{Ordering}
use Prim.Native.String.{compare}
use xapi_lrs.Prelude.{
  ℕ, String, Bool, true, false, ◌&&◌, Option, none, some, List, [], ◌∷◌, ◌==◌, ◌=ℕ◌, concat,
  if◌then◌else◌,
}
use xapi_lrs.Platform.{Millis, since_epoch, before_epoch}
use xapi_lrs.Json.{
  Json, Items, nil, cons, Fields, end, field, null, bool, num, str, arr, obj, get, delete,
}

-- JavaScript's `<=` on texts, by code points (which is not UTF-16's order past the basic plane)
abbrev text_le : String → String → Bool
text_le a b = elim (compare a b) [ Ordering.gt ↦ false | _ ↦ true ]

-- the properties of an object, each rendered, in the order of their keys
unfoldable pub insert_part : String → String → List (String × String) → List (String × String)
insert_part k v [] = (k, v) ∷ []
insert_part k v ((j, w) ∷ parts) =
    if text_le k j then (k, v) ∷ (j, w) ∷ parts else (j, w) ∷ insert_part k v parts

unfoldable pub join_parts : List (String × String) → String
join_parts [] = ""
join_parts ((k, v) ∷ []) = v
join_parts ((k, v) ∷ parts) = concat v (concat "," (join_parts parts))

-- `quote` is `JSON.stringify` on a text; numbers are kept as the texts that it prints
module _ (quote : String → String) where
  -- `stableStringify`
  unfoldable mutual
    pub stable_stringify : Json → String
    stable_stringify null = "null"
    stable_stringify (bool true) = "true"
    stable_stringify (bool false) = "false"
    stable_stringify (num t) = t
    stable_stringify (str s) = quote s
    stable_stringify (arr vs) = concat "[" (concat (stringify_items vs) "]")
    stable_stringify (obj fs) = concat "{" (concat (join_parts (sorted_parts fs)) "}")

    pub stringify_items : Items → String
    stringify_items nil = ""
    stringify_items (cons v nil) = stable_stringify v
    stringify_items (cons v vs) = concat (stable_stringify v) (concat "," (stringify_items vs))

    pub sorted_parts : Fields → List (String × String)
    sorted_parts end = []
    sorted_parts (field k v fs) =
        insert_part k (concat (quote k) (concat ":" (stable_stringify v))) (sorted_parts fs)

-- the fields that only the server sets
abbrev pub without_server_fields : Fields → Fields
without_server_fields s = delete "version" (delete "authority" (delete "stored" s))

abbrev pub same_time : Option Millis → Option Millis → Bool
same_time (some (since_epoch a)) (some (since_epoch b)) = a =ℕ b
same_time (some (before_epoch a)) (some (before_epoch b)) = a =ℕ b
same_time _ _ = false

-- `ta === tb` of `new Date(s).getTime()`, false where one is NaN
abbrev pub same_instant : (String → Option Millis) → Option Json → Option Json → Bool
same_instant js_date (some (str s)) (some (str t)) = same_time (js_date s) (js_date t)
same_instant js_date _ _ = false

module _ (quote : String → String) (js_date : String → Option Millis) where
  abbrev pub rendered : Bool → Fields → String
  rendered drop s = stable_stringify quote (obj (if drop then delete "timestamp" s else s))

  -- `statementsMatch`
  unfoldable pub statements_match : Fields → Fields → Bool
  statements_match existing incoming =
      let a = without_server_fields existing in
      let b = without_server_fields incoming in
      let same = same_instant js_date (get "timestamp" a) (get "timestamp" b) in
      rendered same a == rendered same b
