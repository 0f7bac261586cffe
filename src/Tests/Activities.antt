-- ===== src/Tests/Activities.antt =====
-- The theorems on activity definitions, at two statements about one activity, and on the
-- equivalence of statements.
use xapi_lrs.Prelude.{String, ◌≡◌, refl, some, [], ◌∷◌}
use xapi_lrs.Json.{Fields, obj, str, field, end, get}
use xapi_lrs.Statement.Activity.{get_activity_definition, object_payloads}
use xapi_lrs.Statement.Activity.Laws.{get_activity_definition-HasField, HasField}
use xapi_lrs.Statement.Format.{fields_of}
use xapi_lrs.Statement.Store.{StatementDb, StatementRow, ActivityLink}
use xapi_lrs.Tests.{one_field}
use xapi_lrs.Tests.Statements.{no_statements, sent_row}

abbrev about : String → Fields → StatementRow
about id def = record sent_row {
  statement_id = id;
  payload =
      field "object" (obj (field "id" (str "http://a") (field "definition" (obj def) end))) end;
}

abbrev described : StatementRow
described = about "s1" (one_field "type" "http://type")

abbrev named : StatementRow
named = about "s2" (one_field "moreInfo" "http://info")

abbrev link_of : String → ActivityLink
link_of id = record { statement_id = id; usage = "Object"; activity_iri = "http://a" }

abbrev activity_db : StatementDb
activity_db = record no_statements {
  statements = described ∷ named ∷ [];
  statement_to_activity = link_of "s1" ∷ link_of "s2" ∷ [];
}

get_activity_definition-HasField_example :
    (merged : Fields) × (get "definition" (get_activity_definition "http://a" activity_db)
      ≡ some (obj merged))
    × HasField "type" merged
unfolding object_payloads fields_of get
get_activity_definition-HasField_example =
    get_activity_definition-HasField "http://a" activity_db [] (named.payload ∷ [])
      described.payload (one_field "type" "http://type") "type" (str "http://type") refl refl refl
