-- ===== src/Tests/Documents.antt =====
-- The theorems on documents and their preconditions, at concrete requests.
use xapi_lrs.Prelude.{
  any, Bool-cases, inr, drop_trailing_quote, includes, arith, String, ◌≡◌, refl, ◌↔◌, true, none,
  some, [], ◌∷◌, inl, if◌then◌else◌,
}
use xapi_lrs.Http.{ok, err, http}
use xapi_lrs.Json.{put, obj, str, end, field, get, display, spread, Fields}
use xapi_lrs.Version.{is_v2}
use xapi_lrs.Json.Laws.{or_get}
use xapi_lrs.Agent.{validate_registration, param_ifi, value_ifi, canonical_agent_ifi, ifi_count}
use xapi_lrs.Etag.{check_concurrency_headers, compute_etag}
use xapi_lrs.Etag.Laws.{Passes, check_concurrency_headers_iff}
use xapi_lrs.Document.{
  own_fields, DocumentRow, no_content, with_client, document_response, parse_merge_body, merge_into,
}
use xapi_lrs.Document.State.{
  StateKey, StateRow, StateTable, Others, conflicts, bind_key, upsert_rows, get_state_document,
  upsert_state_document,
}
use xapi_lrs.Document.State.Table.{same_key, at_key}
use xapi_lrs.Document.State.Unique.{IsUnique, IsWritten, upsert_rows-IsUnique}
use xapi_lrs.Document.State.Routes.{
  StateRequest, key_of, put_state, put_state_tx, post_state, post_state_tx, get_state, ifi_and_body,
  registration_then_ifi,
}
use xapi_lrs.Document.State.Concurrency.{put_document}
use xapi_lrs.Document.State.RoundTrip.{put_state-refines, get-put_state, reading}
use xapi_lrs.Document.State.Merge.{existing_fields, post_state_merges}
use xapi_lrs.Tests.{test_platform, one_field, no_headers, if_match_da39}

-- a request of a learner on an activity
abbrev pub bob_request : StateRequest test_platform
bob_request = record {
  activity_id = "http://a";
  agent = "mailto:bob@example.org";
  state_id = none;
  registration = none;
  since = none;
  headers = no_headers;
  content_type = some "application/json";
  version = none;
  body = obj (one_field "page" "3");
  now = 5;
}

abbrev pub bob_key : StateKey
bob_key = record {
  state_id = "bookmark";
  activity_iri = "http://a";
  agent_ifi = "mbox::mailto:bob@example.org";
  registration = none;
}

abbrev row_of : DocumentRow test_platform → StateRow test_platform
row_of d = record {
  state_id = "bookmark";
  activity_iri = "http://a";
  agent_ifi = "mbox::mailto:bob@example.org";
  registration = none;
  document = d;
}

abbrev pub old_document : DocumentRow test_platform
old_document = record {
  contents = obj (one_field "book" "B");
  content_type = "application/json";
  content_length = 0;
  last_modified = 1;
}

abbrev pub old_table : StateTable test_platform
old_table = row_of old_document ∷ []

abbrev pub new_table : StateTable test_platform
new_table = row_of (put_document test_platform bob_request) ∷ []

abbrev pub guarded_request : StateRequest test_platform
guarded_request = record bob_request { headers = if_match_da39 }

put_answered : put_state test_platform bob_request "bookmark" old_table ≡ (ok no_content, new_table)
unfolding put_state put_state_tx with_client get_state_document upsert_state_document upsert_rows
    check_concurrency_headers param_ifi value_ifi canonical_agent_ifi ifi_count get
    validate_registration is_v2 display
put_answered = refl

guarded_answered :
    put_state test_platform guarded_request "bookmark" old_table ≡ (ok no_content, new_table)
unfolding put_state put_state_tx with_client get_state_document upsert_state_document upsert_rows
    check_concurrency_headers param_ifi value_ifi canonical_agent_ifi ifi_count get
    validate_registration is_v2 display compute_etag drop_trailing_quote
guarded_answered = refl

put_refused :
    put_state test_platform guarded_request "other" old_table
    ≡ (err (http 412 "ETag mismatch"), old_table)
unfolding put_state put_state_tx with_client get_state_document upsert_state_document upsert_rows
    check_concurrency_headers param_ifi value_ifi canonical_agent_ifi ifi_count get
    validate_registration is_v2 display
put_refused = refl

check_concurrency_headers_iff_example :
    (check_concurrency_headers if_match_da39 (some "da39") true ≡ ok tt)
    ↔ Passes if_match_da39 (some "da39") true
check_concurrency_headers_iff_example =
    check_concurrency_headers_iff if_match_da39 (some "da39") true

-- Bob's key in a registration, whose document another request commits before the INSERT
abbrev registered_key : StateKey
registered_key = record bob_key { registration = some "r1" }

abbrev registered_table : StateTable test_platform
registered_table = record (row_of old_document) { registration = some "r1" } ∷ []

abbrev other_request : Others test_platform
other_request = record {
  before_insert = λ t. registered_table;
  before_retry = λ t. registered_table;
}

registered-IsUnique : IsUnique test_platform registered_table
registered-IsUnique j = elim (Bool-cases (any (conflicts test_platform j) registered_table)) [
  | inl one ↦ ground arith
  | inr missing ↦ ground arith
]

upsert_rows-IsUnique_example :
    IsWritten test_platform registered_key old_document
      (upsert_rows test_platform other_request registered_key old_document [])
upsert_rows-IsUnique_example =
    upsert_rows-IsUnique test_platform registered_key old_document other_request
      (record {
        before_insert = λ t u. registered-IsUnique;
        before_retry = λ t u. registered-IsUnique;
      })
      (λ t h. refl) refl [] (λ j. omega arith)

put_state-refines_example :
    (ifi : String) × (b : StateKey) × (registration_then_ifi test_platform bob_request ≡ ok ifi)
    × (bind_key test_platform (key_of test_platform bob_request "bookmark" ifi) ≡ ok b)
    × ((j : StateKey)
        → at_key test_platform j new_table ≡ (
            if same_key b j
            then some (put_document test_platform bob_request)
            else at_key test_platform j old_table))
put_state-refines_example =
    put_state-refines test_platform bob_request "bookmark" old_table new_table no_content
      put_answered

get-put_state_example :
    get_state test_platform
      (reading test_platform bob_request "bookmark" old_table new_table)
      new_table
    ≡ (document_response test_platform (put_document test_platform bob_request), new_table)
get-put_state_example =
    get-put_state test_platform bob_request "bookmark" old_table new_table no_content put_answered
      (λ h. cc)

abbrev merged_fields : Fields
merged_fields = field "book" (str "B") (field "page" (str "3") end)

abbrev merged_document : DocumentRow test_platform
merged_document = record {
  contents = obj merged_fields;
  content_type = "application/json";
  content_length = 0;
  last_modified = 5;
}

page_new : get "page" end ≡ none
unfolding get
page_new = refl

bob_parsed :
    ifi_and_body test_platform bob_request
    ≡ ok ("mbox::mailto:bob@example.org", one_field "page" "3")
unfolding param_ifi value_ifi canonical_agent_ifi ifi_count get validate_registration
    parse_merge_body display includes
bob_parsed = refl

post_answered :
    post_state test_platform bob_request "bookmark" old_table
    ≡ (ok no_content, row_of merged_document ∷ [])
unfolding post_state post_state_tx with_client get_state_document upsert_state_document upsert_rows
    check_concurrency_headers param_ifi value_ifi canonical_agent_ifi ifi_count get
    validate_registration display parse_merge_body merge_into spread includes put own_fields
post_answered = refl

post_state_merges_example :
    (b : StateKey) × (d : DocumentRow test_platform) × (merged : Fields) × (bind_key test_platform
        (key_of test_platform bob_request "bookmark" "mbox::mailto:bob@example.org")
      ≡ ok b)
    × ((j : StateKey)
        → at_key test_platform j (row_of merged_document ∷ [])
          ≡ (if same_key b j then some d else at_key test_platform j old_table))
    × (test_platform.parse_buffer d.contents ≡ some (obj merged))
    × ((k : String)
        → get k merged
          ≡ or_get
              (get k (one_field "page" "3"))
              (get k (existing_fields test_platform (at_key test_platform b old_table))))
post_state_merges_example =
    post_state_merges test_platform bob_request "bookmark" old_table (row_of merged_document ∷ [])
      no_content "mbox::mailto:bob@example.org" (one_field "page" "3") (λ v. refl) post_answered
      bob_parsed (page_new, tt)
