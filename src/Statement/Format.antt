-- ===== src/Statement/Format.antt =====
-- helpers/enrichment.ts: the formats `ids` and `canonical`. An assignment of `undefined` leaves no
-- property in the JSON that is sent, so a field that is absent stays absent.
pub mod Languages
pub mod Laws
use xapi_lrs.Prelude.{
  ℕ, zero, suc, String, Bool, true, false, not, ◌&&◌, ◌||◌, Option, none, some, List, ◌==◌, show,
  is_some, if◌then◌else◌,
}
use xapi_lrs.Json.{
  Json, Items, Fields, null, bool, num, str, arr, obj, nil, cons, end, field, get, put, truthy,
  is_text,
}
use xapi_lrs.Platform.{Platform}
use xapi_lrs.Statement.Store.{StatementRow}

-- `{ ...v }` of an array: its items by their indices
unfoldable pub indexed : ℕ → Items → Fields
indexed n nil = end
indexed n (cons v vs) = field (show n) v (indexed (suc n) vs)

-- the properties of a value that passes `v && typeof v === 'object'`
unfoldable pub fields_of : Json → Option Fields
unfolding indexed
fields_of (obj o) = some o
fields_of (arr vs) = some (indexed zero vs)
fields_of _ = none

abbrev pub on_object : Option Fields → Json → (Fields → Json) → Json
on_object none v f = v
on_object (some o) v f = f o

-- `o[k] = f(o[k])`
unfoldable pub update_field : String → (Json → Json) → Fields → Fields
update_field k f end = end
update_field k f (field j v fs) =
    let rest = update_field k f fs in if j == k then field j (f v) fs else field j v rest

-- `Array.prototype.map`
unfoldable pub map_items : (Json → Json) → Items → Items
map_items f nil = nil
map_items f (cons v vs) = cons (f v) (map_items f vs)

-- `if (Array.isArray(v)) v = v.map(f)`
abbrev pub map_array : (Json → Json) → Json → Json
map_array f (arr vs) = arr (map_items f vs)
map_array f v = v

-- the loop over the four lists of context activities
abbrev pub on_lists : (Json → Json) → Fields → Fields
on_lists f o = update_field "other" (map_array f) (
    update_field "category" (map_array f)
      (update_field "grouping" (map_array f) (update_field "parent" (map_array f) o)))

abbrev pub on_context_activities : (Json → Json) → Json → Json
on_context_activities f v = on_object (fields_of v) v (λ o. obj (on_lists f o))

-- `{ id: o.id }`
abbrev pub id_field : Option Json → Fields
id_field none = end
id_field (some v) = field "id" v end

unfoldable pub ids_verb : Json → Json
unfolding fields_of
ids_verb v = on_object (fields_of v) v (λ o. obj (id_field (get "id" o)))

-- `o[ifi] != null`
abbrev pub not_null : Option Json → Bool
not_null none = false
not_null (some null) = false
not_null (some _) = true

abbrev pub kept : String → Bool → Option Json → Fields → Fields
kept k true (some v) rest = field k v rest
kept k _ _ rest = rest

-- the first identifier of an agent
abbrev pub ifi_field : Fields → Fields → Fields
ifi_field o rest =
    if not_null (get "mbox" o)
    then kept "mbox" true (get "mbox" o) rest
    else if not_null (get "mbox_sha1sum" o)
    then kept "mbox_sha1sum" true (get "mbox_sha1sum" o) rest
    else if not_null (get "openid" o)
    then kept "openid" true (get "openid" o) rest
    else kept "account" (not_null (get "account" o)) (get "account" o) rest

-- an agent with the given members
abbrev pub agent_with : Fields → Option Json → Fields
agent_with o members =
    kept "objectType" (truthy (get "objectType" o)) (get "objectType" o)
      (ifi_field o (kept "member" (is_some members) members end))

-- `stripAgentToIfi`
unfoldable mutual
  pub strip_agent : Json → Json
  strip_agent (obj o) = obj (agent_with o (strip_members o))
  strip_agent (arr vs) = obj end
  strip_agent v = v

  -- `o.member`, if it is an array
  pub strip_members : Fields → Option Json
  strip_members end = none
  strip_members (field k v fs) =
      let rest = strip_members fs in let here = strip_list v in if k == "member" then here else rest

  pub strip_list : Json → Option Json
  strip_list (arr vs) = some (arr (strip_each vs))
  strip_list _ = none

  pub strip_each : Items → Items
  strip_each nil = nil
  strip_each (cons v vs) = cons (strip_agent v) (strip_each vs)

abbrev pub not_activity : Fields → Bool
not_activity o = truthy (get "objectType" o) && not (is_text (get "objectType" o) "Activity")

abbrev pub id_or : Json → Option Json → Json
id_or v none = v
id_or v (some id) = obj (field "id" id end)

-- `stripActivityDefinition`
unfoldable pub strip_activity : Json → Json
unfolding fields_of
strip_activity v =
    on_object (fields_of v) v (λ o. if not_activity o then v else id_or v (get "id" o))

-- `if (v) v = f(v)`
abbrev pub if_truthy : (Json → Json) → Json → Json
if_truthy f v = if truthy (some v) then f v else v

abbrev pub ids_context : Json → Json
ids_context v = on_object (fields_of v) v (λ o. obj (
    update_field "contextActivities" (on_context_activities strip_activity) (
      update_field "team" (if_truthy strip_agent)
        (update_field "instructor" (if_truthy strip_agent) o))))

abbrev pub is_agent : Fields → Bool
is_agent o = is_text (get "objectType" o) "Agent" || is_text (get "objectType" o) "Group"

abbrev pub ids_inner_object : Json → Json
ids_inner_object v =
    on_object (fields_of v) v (λ o. if is_agent o then strip_agent v else strip_activity v)

-- `formatIdsSubStatement`
unfoldable pub ids_sub_statement : Fields → Fields
unfolding update_field strip_agent ids_verb strip_activity map_items fields_of
ids_sub_statement o = update_field "context" ids_context (
    update_field "object" ids_inner_object
      (update_field "verb" ids_verb (update_field "actor" strip_agent o)))

abbrev pub ids_object : Json → Json
ids_object v = on_object (fields_of v) v (λ o.
    if is_agent o
    then strip_agent v
    else if is_text (get "objectType" o) "SubStatement"
    then obj (ids_sub_statement o)
    else strip_activity v)

-- `formatIds`
unfoldable pub format_ids : Fields → Fields
unfolding update_field strip_agent ids_verb strip_activity map_items fields_of ids_sub_statement
format_ids o = update_field "context" ids_context (
    update_field "object" ids_object
      (update_field "actor" strip_agent (update_field "verb" ids_verb o)))
