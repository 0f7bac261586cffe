-- ===== src/Tests/Deletions.antt =====
-- The theorems on profiles, deletions and version 2, at concrete requests.
use xapi_lrs.Prelude.{
  String, ◌≡◌, refl, none, some, [], ◌∷◌, true, false, drop_trailing_quote, if◌then◌else◌,
}
use xapi_lrs.Http.{ok}
use xapi_lrs.Json.{obj, get, display}
use xapi_lrs.Version.{v2_0_0, is_v2}
use xapi_lrs.Agent.{
  validate_registration, validate_since, param_ifi, value_ifi, canonical_agent_ifi, ifi_count,
}
use xapi_lrs.Etag.{check_concurrency_headers, compute_etag}
use xapi_lrs.Etag.Laws.{Passes}
use xapi_lrs.Document.{no_content, with_client, etag_of}
use xapi_lrs.Document.State.{
  StateKey, get_state_document, upsert_state_document, delete_state_document, upsert_rows,
}
use xapi_lrs.Document.State.Table.{same_key, at_key}
use xapi_lrs.Document.State.Routes.{
  StateRequest, checked_ifi, registration_then_ifi, put_state, put_state_tx, delete_state,
  delete_state_tx,
}
use xapi_lrs.Document.State.Delete.{delete_state-removes}
use xapi_lrs.Document.Profile.{ProfileTable, upsert_profile, get_profile, delete_profile}
use xapi_lrs.Document.Profile.Routes.{
  ProfileRequest, key_at, put_agent_profile, put_profile_tx, delete_activity_profile,
  delete_profile_tx,
}
use xapi_lrs.Document.Profile.Refine.{IsWrite, put_profile_document, put_agent_profile-IsWrite}
use xapi_lrs.Tests.{test_platform, one_field, no_headers, if_match_da39}
use xapi_lrs.Tests.Documents.{bob_request, guarded_request, bob_key, old_table, new_table}

abbrev v2_request : StateRequest test_platform
v2_request = record guarded_request { version = some v2_0_0 }

v2_ifi : registration_then_ifi test_platform v2_request ≡ ok "mbox::mailto:bob@example.org"
unfolding param_ifi value_ifi canonical_agent_ifi ifi_count get validate_registration display
v2_ifi = refl

v2_answered : put_state test_platform v2_request "bookmark" old_table ≡ (ok no_content, new_table)
unfolding put_state put_state_tx with_client get_state_document upsert_state_document upsert_rows
    check_concurrency_headers param_ifi value_ifi canonical_agent_ifi ifi_count get
    validate_registration is_v2 display compute_etag drop_trailing_quote
v2_answered = refl

abbrev delete_request : StateRequest test_platform
delete_request = record bob_request { state_id = some "bookmark" }

delete_ifi : checked_ifi test_platform delete_request ≡ ok "mbox::mailto:bob@example.org"
unfolding param_ifi value_ifi canonical_agent_ifi ifi_count get validate_registration validate_since
    display
delete_ifi = refl

delete_answered : delete_state test_platform delete_request old_table ≡ (ok no_content, [])
unfolding delete_state delete_state_tx with_client get_state_document delete_state_document
    check_concurrency_headers param_ifi value_ifi canonical_agent_ifi ifi_count get
    validate_registration validate_since display
delete_answered = refl

delete_state-removes_example :
    Passes no_headers (etag_of test_platform (at_key test_platform bob_key old_table)) false
    × ((j : StateKey)
        → at_key test_platform j []
          ≡ (if same_key bob_key j then none else at_key test_platform j old_table))
delete_state-removes_example =
    delete_state-removes test_platform delete_request "bookmark" old_table [] no_content
      "mbox::mailto:bob@example.org" bob_key delete_answered refl (λ h. cc) delete_ifi refl

abbrev profile_request : ProfileRequest test_platform
profile_request = record {
  profile_id = some "settings";
  since = none;
  headers = record { if_match = none; if_none_match = some "*" };
  content_type = some "application/json";
  body = obj (one_field "theme" "dark");
  now = 5;
}

abbrev bob_profiles : ProfileTable test_platform
bob_profiles =
    record {
      profile_id = "settings";
      owner = "mbox::bob";
      document = put_profile_document test_platform profile_request;
    }
    ∷ []

profile_answered :
    put_agent_profile test_platform profile_request "bob" [] ≡ (ok no_content, bob_profiles)
unfolding put_agent_profile put_profile_tx with_client upsert_profile get_profile
    check_concurrency_headers param_ifi value_ifi canonical_agent_ifi ifi_count get display
profile_answered = refl

put_agent_profile-IsWrite_example :
    (ifi : String) × (param_ifi test_platform "bob" ≡ ok ifi)
    × IsWrite test_platform profile_request true
        (key_at test_platform profile_request ifi)
        (some (put_profile_document test_platform profile_request))
        []
        bob_profiles
put_agent_profile-IsWrite_example =
    put_agent_profile-IsWrite test_platform profile_request "bob" [] bob_profiles no_content
      profile_answered

abbrev removal : ProfileRequest test_platform
removal = record profile_request { headers = if_match_da39 }

profile_removed :
    delete_activity_profile test_platform removal "mbox::bob" bob_profiles ≡ (ok no_content, [])
unfolding delete_activity_profile delete_profile_tx with_client delete_profile get_profile
    check_concurrency_headers compute_etag drop_trailing_quote
profile_removed = refl
