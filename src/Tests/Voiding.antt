-- ===== src/Tests/Voiding.antt =====
-- The theorems on voiding and on PUT of statements, at concrete requests.
use xapi_lrs.Prelude.{◌≡◌, refl, true, false, none, some, [], ◌∷◌}
use xapi_lrs.Http.{ok}
use xapi_lrs.Json.{obj, get, display, Fields, end, field, delete, put}
use xapi_lrs.Version.{v2_0_0}
use xapi_lrs.Document.{with_client}
use xapi_lrs.Statement.Decompose.{collect_context_activities, build_payload, extract_activities}
use xapi_lrs.Statement.Store.{
  get_statement_by_id, insert_dependents, StatementRow, statement_at, insert_statement,
  insert_statements,
}
use xapi_lrs.Statement.Attachments.{id_text}
use xapi_lrs.Statement.Routes.Laws.{IsStored}
use xapi_lrs.Statement.Routes.PutLaws.{put_statement-IsStored}
use xapi_lrs.Statement.Routes.{
  put_statement, put_tx, validate_put, Tables, is_voiding, post_statements, post_tx, validate_batch,
  validate_all, validate_statement, has_duplicates, void_targets, check_conflicts, voided_verb_id,
}
use xapi_lrs.Statement.Routes.Voiding.{post_statements_keeps_voiding}
use xapi_lrs.Tests.{test_platform, test_services, one_field}
use xapi_lrs.Tests.Statements.{sent, no_statements, authority}

-- a voiding statement that is stored
abbrev void_row : StatementRow
void_row = record {
  id = 1;
  statement_id = "v1";
  registration = none;
  verb_iri = voided_verb_id;
  is_voided = false;
  payload = field "verb" (obj (one_field "id" voided_verb_id)) end;
  timestamp = some 0;
  stored = 0;
}

abbrev before : Tables test_platform
before = record { db = record no_statements { statements = void_row ∷ [] }; attachments = [] }

abbrev after_post : Tables test_platform
after_post =
    (post_statements test_platform test_services v2_0_0 (some (obj sent)) none authority before).1

sent_answered :
    post_statements test_platform test_services v2_0_0 (some (obj sent)) none authority before
    ≡ (ok ("s1" ∷ []), after_post)
unfolding post_statements post_tx validate_batch validate_all validate_statement has_duplicates
    with_client void_targets get delete insert_statements insert_statement insert_dependents
    extract_activities collect_context_activities build_payload put check_conflicts display
sent_answered = refl

void_row_found : statement_at "v1" before.db ≡ some void_row
void_row_found = refl

voiding_verb : is_voiding void_row.payload ≡ true
unfolding get
voiding_verb = refl

post_statements_keeps_voiding_example : statement_at "v1" after_post.db ≡ some void_row
post_statements_keeps_voiding_example =
    post_statements_keeps_voiding test_platform test_services v2_0_0 (some (obj sent)) none
      authority before after_post ("s1" ∷ []) "v1" void_row sent_answered void_row_found
      voiding_verb

abbrev after_put : Tables test_platform
after_put =
    (put_statement test_platform test_services v2_0_0 "s1" (some (obj sent)) none authority
      before).1

put_answered :
    put_statement test_platform test_services v2_0_0 "s1" (some (obj sent)) none authority before
    ≡ (ok tt, after_put)
unfolding put_statement put_tx validate_put get_statement_by_id validate_statement with_client get
    delete insert_statement insert_dependents extract_activities collect_context_activities
    build_payload put display
put_answered = refl

put_statement-IsStored_example :
    (stmt : Fields) × (validate_put test_platform test_services v2_0_0 "s1" (some (obj sent)) none
      ≡ ok stmt)
    × (id_text stmt ≡ "s1")
    × IsStored test_platform test_services after_put.db stmt
put_statement-IsStored_example =
    put_statement-IsStored test_platform test_services v2_0_0 "s1" (some (obj sent)) none authority
      before after_put tt put_answered
