-- ===== src/Statement/Activity.antt =====
-- repositories/statements.ts, `getActivityDefinition`, and GET /xapi/activities: an activity with
-- the definitions of all statements about it. The query names no order of its rows; here it is that
-- of the table.
pub mod Laws
use xapi_lrs.Prelude.{
  ℕ, String, Bool, true, false, ◌&&◌, Option, none, some, List, [], ◌∷◌, ◌++◌, ◌==◌, map, keep,
  if◌then◌else◌,
}
use xapi_lrs.Http.{Result, ok}
use xapi_lrs.Json.{Json, Fields, str, obj, end, field, get, put, spread}
use xapi_lrs.Statement.Decompose.{read_prop}
use xapi_lrs.Statement.Format.{fields_of, indexed}
use xapi_lrs.Statement.Store.{StatementDb, StatementRow, ActivityLink}

-- the rows of the join
abbrev pub is_object_link : String → String → ActivityLink → Bool
is_object_link iri id l = l.statement_id == id && (l.activity_iri == iri && l.usage == "Object")

unfoldable pub object_payloads : String → List ActivityLink → List StatementRow → List Fields
object_payloads iri links [] = []
object_payloads iri links (row ∷ rows) =
    map (λ l. row.payload) (keep (is_object_link iri row.statement_id) links)
    ++ object_payloads iri links rows

-- a value over the one that is there: two objects are merged
abbrev pub over : Option Json → Json → Json
over (some (obj old)) (obj new_fields) = obj (spread old new_fields)
over _ v = v

-- the loop over `Object.entries(def)`
unfoldable pub merge_definition : Fields → Fields → Fields
merge_definition merged end = merged
merge_definition merged (field k v rest) =
    merge_definition (put k (over (get k merged) v) merged) rest

-- `obj.definition`, where it is an object
abbrev pub object_fields : Option Json → Option Fields
object_fields none = none
object_fields (some v) = fields_of v

abbrev pub definition_of : Fields → Option Fields
definition_of payload = object_fields (read_prop "definition" (get "object" payload))

abbrev pub merge_option : Fields → Option Fields → Fields
merge_option merged none = merged
merge_option merged (some def) = merge_definition merged def

unfoldable pub merge_all : Fields → List Fields → Fields
unfolding merge_definition fields_of
merge_all merged [] = merged
merge_all merged (payload ∷ rest) = merge_all (merge_option merged (definition_of payload)) rest

abbrev pub with_definition : Fields → List (String × Json)
with_definition end = []
with_definition def = ("definition", obj def) ∷ []

abbrev pub fields_from : List (String × Json) → Fields
fields_from [] = end
fields_from ((k, v) ∷ rest) = field k v (fields_from rest)

-- `getActivityDefinition`
unfoldable pub get_activity_definition : String → StatementDb → Fields
unfolding merge_all object_payloads
get_activity_definition iri db = field "objectType" (str "Activity") (
    field "id" (str iri) (
      fields_from (
        with_definition
          (merge_all end (object_payloads iri db.statement_to_activity db.statements)))))
