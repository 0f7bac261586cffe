-- ===== src/Document/Profile/Routes.antt =====
-- routes/activities.ts, /xapi/activities/profile, and routes/agents.ts, /xapi/agents/profile. The
-- two differ in the owner: the activity id as it stands, or the IFI of the agent parameter.
use xapi_lrs.Prelude.{ℕ, String, true, false, Option, none, some, or_else, if◌then◌else◌}
use xapi_lrs.Http.{Result, ok, err, http, ◌>>=◌, ◌>>◌}
use xapi_lrs.Json.{Fields}
use xapi_lrs.Platform.{Platform}
use xapi_lrs.Agent.{param_ifi, validate_since}
use xapi_lrs.Etag.{ConcurrencyHeaders, check_concurrency_headers, present}
use xapi_lrs.Document.{
  DocumentRow, Tx, with_client, after, parse_merge_body, Response, no_content, ids,
  document_response, etag_of, merge_into,
}
use xapi_lrs.Document.Profile.{
  ProfileKey, ProfileTable, upsert_profile, get_profile, list_profile_ids, delete_profile,
}

-- what the handlers read of a request, without its owner; `now` is the app's clock
pub record ProfileRequest (p : Platform) : Type 0 where
  pub profile_id : Option String
  pub since : Option String
  pub headers : ConcurrencyHeaders
  pub content_type : Option String
  pub body : p.Buffer
  pub now : ℕ

module _ (p : Platform) where
  abbrev pub stored_profile : ProfileRequest p → p.Buffer → String → DocumentRow p
  stored_profile r contents content_type = record {
    contents = contents;
    content_type = content_type;
    content_length = p.size contents;
    last_modified = r.now;
  }

  -- the transaction of PUT, which requires a precondition
  unfoldable pub put_profile_tx : ProfileRequest p → ProfileKey → Tx (ProfileTable p) (Response p)
  put_profile_tx r k t = do
    check_concurrency_headers r.headers (etag_of p (get_profile p k t)) true
    ok (
      no_content,
      upsert_profile p k
          (stored_profile r r.body (or_else r.content_type "application/octet-stream")) t,
    )

  -- `existing?.content_type ?? 'application/json'`
  abbrev pub merged_type : Option (DocumentRow p) → String
  merged_type none = "application/json"
  merged_type (some row) = row.content_type

  -- the transaction of POST
  unfoldable pub post_profile_tx :
      ProfileRequest p → ProfileKey → Fields → Tx (ProfileTable p) (Response p)
  post_profile_tx r k incoming t = do
    check_concurrency_headers r.headers (etag_of p (get_profile p k t)) false
    merged ← merge_into p (get_profile p k t) incoming
    ok (
      no_content,
      upsert_profile p k (stored_profile r merged (merged_type (get_profile p k t))) t,
    )

  -- the transaction of DELETE
  unfoldable pub delete_profile_tx :
      ProfileRequest p → ProfileKey → Tx (ProfileTable p) (Response p)
  delete_profile_tx r k t = do
    check_concurrency_headers r.headers (etag_of p (get_profile p k t)) false
    ok (no_content, delete_profile p k t)

  abbrev pub found_or_404 : Option (DocumentRow p) → String → Result (DocumentRow p)
  found_or_404 none message = err (http 404 message)
  found_or_404 (some row) message = ok row

  -- the transaction of GET: the ids of the owner's profiles, or the one that is named
  unfoldable pub get_profile_tx :
      ProfileRequest p → String → String → Tx (ProfileTable p) (Response p)
  get_profile_tx r owner missing t =
      if present r.profile_id
      then (do
        row ←
            found_or_404
              (get_profile p (record { profile_id = or_else r.profile_id ""; owner = owner }) t)
              missing
        response ← document_response p row
        ok (response, t))
      else (do (found, t) ← list_profile_ids p owner r.since t; ok (ids found, t))

  abbrev pub key_at : ProfileRequest p → String → ProfileKey
  key_at r owner = record { profile_id = or_else r.profile_id ""; owner = owner }

  -- PUT /xapi/activities/profile
  unfoldable pub put_activity_profile :
      ProfileRequest p → String → ProfileTable p → Result (Response p) × ProfileTable p
  put_activity_profile r activity t = with_client (put_profile_tx r (key_at r activity)) t

  -- POST /xapi/activities/profile
  unfoldable pub post_activity_profile :
      ProfileRequest p → String → ProfileTable p → Result (Response p) × ProfileTable p
  post_activity_profile r activity t =
      after (parse_merge_body p r.body (or_else r.content_type ""))
        (λ incoming. with_client (post_profile_tx r (key_at r activity) incoming)) t

  -- GET /xapi/activities/profile
  unfoldable pub get_activity_profile :
      ProfileRequest p → String → ProfileTable p → Result (Response p) × ProfileTable p
  get_activity_profile r activity t =
      after (validate_since p r.since)
        (λ done. with_client (get_profile_tx r activity "Activity profile not found")) t

  -- DELETE /xapi/activities/profile
  unfoldable pub delete_activity_profile :
      ProfileRequest p → String → ProfileTable p → Result (Response p) × ProfileTable p
  delete_activity_profile r activity t = with_client (delete_profile_tx r (key_at r activity)) t

  -- PUT /xapi/agents/profile
  unfoldable pub put_agent_profile :
      ProfileRequest p → String → ProfileTable p → Result (Response p) × ProfileTable p
  put_agent_profile r agent t =
      after (param_ifi p agent) (λ ifi. with_client (put_profile_tx r (key_at r ifi))) t

  abbrev pub agent_and_body : ProfileRequest p → String → Result (String × Fields)
  agent_and_body r agent = do
    ifi ← param_ifi p agent
    incoming ← parse_merge_body p r.body (or_else r.content_type "")
    ok (ifi, incoming)

  -- POST /xapi/agents/profile
  unfoldable pub post_agent_profile :
      ProfileRequest p → String → ProfileTable p → Result (Response p) × ProfileTable p
  post_agent_profile r agent t =
      after (agent_and_body r agent)
        (λ checked. with_client (post_profile_tx r (key_at r checked.0) checked.1)) t

  abbrev pub agent_and_since : ProfileRequest p → String → Result String
  agent_and_since r agent = do ifi ← param_ifi p agent; validate_since p r.since; ok ifi

  -- GET /xapi/agents/profile
  unfoldable pub get_agent_profile :
      ProfileRequest p → String → ProfileTable p → Result (Response p) × ProfileTable p
  get_agent_profile r agent t =
      after (agent_and_since r agent)
        (λ ifi. with_client (get_profile_tx r ifi "Agent profile not found")) t

  -- DELETE /xapi/agents/profile
  unfoldable pub delete_agent_profile :
      ProfileRequest p → String → ProfileTable p → Result (Response p) × ProfileTable p
  delete_agent_profile r agent t =
      after (param_ifi p agent) (λ ifi. with_client (delete_profile_tx r (key_at r ifi))) t
