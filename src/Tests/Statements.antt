-- ===== src/Tests/Statements.antt =====
-- The theorems on statements, at a concrete batch.
use xapi_lrs.Prelude.{false, String, ◌≡◌, refl, true, none, some, List, [], ◌∷◌, map, All, ◌⊎◌}
use xapi_lrs.Http.{ok, err, http}
use xapi_lrs.Json.{obj, get, display, Fields, str, field, delete, put}
use xapi_lrs.Version.{v2_0_0}
use xapi_lrs.Document.{with_client}
use xapi_lrs.Statement.Decompose.{collect_context_activities, build_payload, extract_activities}
use xapi_lrs.Statement.Store.{
  StatementRow, statement_at, get_statement_by_id, insert_dependents, StatementDb, insert_statement,
  insert_statements, as_uuid,
}
use xapi_lrs.Statement.Store.Laws.{insert_statement_keeps, Repeated, Added, insert_statement_cases}
use xapi_lrs.Statement.Compare.{statements_match, insert_part, join_parts, stable_stringify}
use xapi_lrs.Statement.Routes.{
  Tables, post_statements, post_tx, validate_batch, validate_all, validate_statement,
  has_duplicates, void_targets, check_conflicts,
}
use xapi_lrs.Statement.Routes.Laws.{IsStored, post_statements-IsStored}
use xapi_lrs.Statement.Attachments.{id_text}
use xapi_lrs.Statement.Services.{row_id}
use xapi_lrs.Tests.{test_platform, test_services, one_field}

-- Bob launched an activity
abbrev pub sent : Fields
sent = field "id" (str "s1") (
    field "actor" (obj (one_field "mbox" "mailto:bob@example.org")) (
      field "verb" (obj (one_field "id" "http://launched"))
        (field "object" (obj (one_field "id" "http://a")) (one_field "timestamp" "T"))))

abbrev pub no_statements : StatementDb
no_statements = record {
  statements = [];
  actors = [];
  activities = [];
  statement_to_actor = [];
  statement_to_activity = [];
  statement_to_statement = [];
}

abbrev first_id : String
first_id = row_id test_platform test_services 0

abbrev empty_tables : Tables test_platform
empty_tables = record { db = no_statements; attachments = [] }

abbrev pub authority : Fields
authority = one_field "name" "LRS"

-- the tables after the statement is posted
abbrev posted_tables : Tables test_platform
posted_tables =
    (post_statements test_platform test_services v2_0_0 (some (obj sent)) none authority
      empty_tables).1

post_answered :
    post_statements test_platform test_services v2_0_0 (some (obj sent)) none authority empty_tables
    ≡ (ok ("s1" ∷ []), posted_tables)
unfolding post_statements post_tx validate_batch validate_all validate_statement has_duplicates
    with_client void_targets get delete insert_statements insert_statement insert_dependents
    extract_activities collect_context_activities build_payload put check_conflicts display
post_answered = refl

-- the same id with another verb
abbrev changed : Fields
changed = put "verb" (obj (one_field "id" "http://passed")) sent

changed_refused :
    post_statements test_platform test_services v2_0_0
      (some (obj changed))
      none
      authority
      posted_tables
    ≡ (err (http 409 "Statement already exists with different content"), posted_tables)
unfolding post_statements post_tx validate_batch validate_all validate_statement has_duplicates
    with_client void_targets get delete insert_statements insert_statement insert_dependents
    extract_activities collect_context_activities build_payload put check_conflicts display
    get_statement_by_id statements_match insert_part join_parts stable_stringify
changed_refused = refl

insert_answered :
    insert_statement test_platform first_id test_services.stored_iso 0 sent authority no_statements
    ≡ ok (record { inserted = true; id = first_id; statement_id = "s1" }, posted_tables.db)
unfolding post_statements post_tx validate_batch validate_all validate_statement has_duplicates
    with_client void_targets get delete insert_statements insert_statement insert_dependents
    extract_activities collect_context_activities build_payload put check_conflicts display
insert_answered = refl

insert_statement_cases_example :
    (id : String) × (as_uuid test_platform (id_text sent) ≡ ok id)
    × (Repeated test_platform first_id test_services.stored_iso 0 sent authority no_statements
          posted_tables.db
          (record { inserted = true; id = first_id; statement_id = "s1" })
          id
        ⊎ Added test_platform first_id test_services.stored_iso 0 sent authority no_statements
            posted_tables.db
            (record { inserted = true; id = first_id; statement_id = "s1" })
            id)
insert_statement_cases_example =
    insert_statement_cases test_platform first_id test_services.stored_iso 0 sent authority
      no_statements posted_tables.db
      (record { inserted = true; id = first_id; statement_id = "s1" }) insert_answered

post_statements-IsStored_example :
    (validated : List Fields) × (validate_batch test_platform test_services v2_0_0
        (some (obj sent))
        none
      ≡ ok validated)
    × ("s1" ∷ [] ≡ map id_text validated)
    × All (IsStored test_platform test_services posted_tables.db) validated
post_statements-IsStored_example =
    post_statements-IsStored test_platform test_services v2_0_0 (some (obj sent)) none authority
      empty_tables posted_tables ("s1" ∷ []) post_answered

-- a second statement
abbrev other : Fields
other = put "id" (str "s2") sent

abbrev after_other : StatementDb
after_other =
    (post_statements test_platform test_services v2_0_0 (some (obj other)) none authority
      posted_tables).1.db

abbrev pub sent_row : StatementRow
sent_row = record {
  id = 0;
  statement_id = "s1";
  registration = none;
  verb_iri = "http://launched";
  is_voided = false;
  payload = build_payload sent test_services.stored_iso authority;
  timestamp = some 0;
  stored = 0;
}

other_answered :
    insert_statement test_platform first_id test_services.stored_iso 0 other authority
      posted_tables.db
    ≡ ok (record { inserted = true; id = first_id; statement_id = "s2" }, after_other)
unfolding post_statements post_tx validate_batch validate_all validate_statement has_duplicates
    with_client void_targets get delete insert_statements insert_statement insert_dependents
    extract_activities collect_context_activities build_payload put check_conflicts display
other_answered = refl

sent_found : statement_at "s1" posted_tables.db ≡ some sent_row
unfolding post_statements post_tx validate_batch validate_all validate_statement has_duplicates
    with_client void_targets get delete insert_statements insert_statement insert_dependents
    extract_activities collect_context_activities build_payload put check_conflicts display
sent_found = refl

insert_statement_keeps_example : statement_at "s1" after_other ≡ some sent_row
insert_statement_keeps_example =
    insert_statement_keeps test_platform first_id test_services.stored_iso 0 other authority
      posted_tables.db after_other (record { inserted = true; id = first_id; statement_id = "s2" })
      "s1" sent_row other_answered sent_found
