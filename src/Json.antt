-- ===== src/Json.antt =====
-- The values that `JSON.parse` returns, and what the source does with them: reading a property,
-- truthiness, string interpolation, object spread and `delete`. A read that gives `undefined` is
-- `none`. A number is the text that `JSON.stringify` prints for it, which tells finite numbers
-- apart as `===` does. The order of integer-like keys, which JavaScript puts first, is not kept.
pub mod Laws
use xapi_lrs.Prelude.{
  String, Bool, true, false, not, ◌||◌, Option, none, some, List, [], ◌∷◌, ◌==◌, concat,
  if◌then◌else◌,
}
use xapi_lrs.Http.{Result, ok, err, other}

mutual
  pub data Json : Type 0 where
    null : Json
    bool : Bool → Json
    num : String → Json
    str : String → Json
    arr : Items → Json
    obj : Fields → Json

  pub data Items : Type 0 where
    nil : Items
    cons : Json → Items → Items

  -- an object's own properties; also a `Record<string, unknown>` of the source
  pub data Fields : Type 0 where
    end : Fields
    field : String → Json → Fields → Fields

abbrev pub elems : Items → List Json
elems nil = []
elems (cons v vs) = v ∷ elems vs

-- `o[k]`
unfoldable pub get : String → Fields → Option Json
get k end = none
get k (field j v fs) = if j == k then some v else get k fs

-- `o[k] = v`
unfoldable pub put : String → Json → Fields → Fields
put k v end = field k v end
put k v (field j w fs) = if j == k then field k v fs else field j w (put k v fs)

-- `delete o[k]`
unfoldable pub delete : String → Fields → Fields
delete k end = end
delete k (field j v fs) = let rest = delete k fs in if j == k then rest else field j v rest

-- `{ ...a, ...b }`
unfoldable pub spread : Fields → Fields → Fields
spread a end = a
spread a (field k v fs) = spread (put k v a) fs

-- `v.k` on any value: `null` throws a TypeError, and the values that are no objects have none of
-- the properties that the source reads
unfoldable pub prop : String → Json → Result (Option Json)
prop k null = err other
prop k (obj fs) = ok (get k fs)
prop k _ = ok none

abbrev pub truthy_value : Json → Bool
truthy_value null = false
truthy_value (bool b) = b
truthy_value (num t) = not (t == "0")
truthy_value (str s) = not (s == "")
truthy_value (arr _) = true
truthy_value (obj _) = true

abbrev pub truthy : Option Json → Bool
truthy none = false
truthy (some v) = truthy_value v

-- `v === 'text'`
abbrev pub is_text : Option Json → String → Bool
is_text (some (str s)) t = s == t
is_text _ t = false

-- `String(v)`, as `${v}` does; an array joins its items by commas, `null` among them as nothing
unfoldable mutual
  pub display : Json → String
  display null = "null"
  display (bool true) = "true"
  display (bool false) = "false"
  display (num t) = t
  display (str s) = s
  display (arr vs) = display_items vs
  display (obj _) = "[object Object]"

  pub display_items : Items → String
  display_items nil = ""
  display_items (cons null vs) = display_rest vs
  display_items (cons v vs) = concat (display v) (display_rest vs)

  pub display_rest : Items → String
  display_rest nil = ""
  display_rest (cons null vs) = concat "," (display_rest vs)
  display_rest (cons v vs) = concat "," (concat (display v) (display_rest vs))

abbrev pub display_option : Option Json → String
display_option none = "undefined"
display_option (some v) = display v
