-- ===== src/Document/State/Routes.antt =====
-- routes/activities.ts, /xapi/activities/state. A handler takes the parsed request and the table,
-- and gives the response or the error, and the table that the transaction leaves.
use xapi_lrs.Prelude.{ℕ, String, false, ◌&&◌, Option, none, some, is_some, or_else, if◌then◌else◌}
use xapi_lrs.Http.{Result, ok, err, http, ◌>>=◌, ◌>>◌}
use xapi_lrs.Json.{Fields}
use xapi_lrs.Platform.{Platform}
use xapi_lrs.Agent.{param_ifi, validate_since, validate_registration}
use xapi_lrs.Version.{XapiVersion, is_v2, v1_0_3}
use xapi_lrs.Etag.{ConcurrencyHeaders, check_concurrency_headers, present}
use xapi_lrs.Document.{
  DocumentRow, Tx, with_client, after, parse_merge_body, Response, no_content, ids,
  document_response, etag_of, merge_into,
}
use xapi_lrs.Document.State.{
  StateKey, StateTable, alone, upsert_state_document, get_state_document, list_state_ids,
  delete_state_document, delete_all_state_documents,
}

-- what the handlers read of a request; `now` is the app's clock
pub record StateRequest (p : Platform) : Type 0 where
  pub activity_id : String
  pub agent : String
  pub state_id : Option String
  pub registration : Option String
  pub since : Option String
  pub headers : ConcurrencyHeaders
  pub content_type : Option String
  pub version : Option XapiVersion
  pub body : p.Buffer
  pub now : ℕ

module _ (p : Platform) where
  abbrev pub key_of : StateRequest p → String → String → StateKey
  key_of r state_id ifi = record {
    state_id = state_id;
    activity_iri = r.activity_id;
    agent_ifi = ifi;
    registration = r.registration;
  }

  abbrev pub written : StateRequest p → p.Buffer → String → DocumentRow p
  written r contents content_type = record {
    contents = contents;
    content_type = content_type;
    content_length = p.size contents;
    last_modified = r.now;
  }

  -- the transaction of PUT
  unfoldable pub put_state_tx : StateRequest p → StateKey → Tx (StateTable p) (Response p)
  put_state_tx r k t = do
    (existing, t) ← get_state_document p k t
    let current = etag_of p existing
    check_concurrency_headers r.headers current
        (is_v2 (or_else r.version v1_0_3) && is_some current)
    (done, t) ←
        upsert_state_document p (alone p) k
          (written r r.body (or_else r.content_type "application/octet-stream")) t
    ok (no_content, t)

  abbrev pub registration_then_ifi : StateRequest p → Result String
  registration_then_ifi r = do validate_registration r.registration; param_ifi p r.agent

  -- PUT /xapi/activities/state
  unfoldable pub put_state :
      StateRequest p → String → StateTable p → Result (Response p) × StateTable p
  put_state r state_id t =
      after (registration_then_ifi r) (λ ifi. with_client (put_state_tx r (key_of r state_id ifi)))
        t

  -- the transaction of POST
  unfoldable pub post_state_tx : StateRequest p → StateKey → Fields → Tx (StateTable p) (Response p)
  post_state_tx r k incoming t = do
    (existing, t) ← get_state_document p k t
    check_concurrency_headers r.headers (etag_of p existing) false
    merged ← merge_into p existing incoming
    (done, t) ← upsert_state_document p (alone p) k (written r merged "application/json") t
    ok (no_content, t)

  abbrev pub ifi_and_body : StateRequest p → Result (String × Fields)
  ifi_and_body r = do
    validate_registration r.registration
    ifi ← param_ifi p r.agent
    incoming ← parse_merge_body p r.body (or_else r.content_type "")
    ok (ifi, incoming)

  -- POST /xapi/activities/state
  unfoldable pub post_state :
      StateRequest p → String → StateTable p → Result (Response p) × StateTable p
  post_state r state_id t =
      after (ifi_and_body r)
        (λ checked. with_client (post_state_tx r (key_of r state_id checked.0) checked.1)) t

  abbrev pub checked_ifi : StateRequest p → Result String
  checked_ifi r = do
    ifi ← param_ifi p r.agent
    validate_since p r.since
    validate_registration r.registration
    ok ifi

  abbrev pub or_404 : Option (DocumentRow p) → String → Result (DocumentRow p)
  or_404 none message = err (http 404 message)
  or_404 (some row) message = ok row

  unfoldable pub get_state_tx : StateRequest p → String → Tx (StateTable p) (Response p)
  get_state_tx r ifi t =
      if present r.state_id
      then (do
        (row, t) ← get_state_document p (key_of r (or_else r.state_id "") ifi) t
        found ← or_404 row "State document not found"
        response ← document_response p found
        ok (response, t))
      else (do
        (found, t) ← list_state_ids p r.activity_id ifi r.registration r.since t
        ok (ids found, t))

  -- GET /xapi/activities/state
  unfoldable pub get_state : StateRequest p → StateTable p → Result (Response p) × StateTable p
  get_state r t = after (checked_ifi r) (λ ifi. with_client (get_state_tx r ifi)) t

  unfoldable pub delete_state_tx : StateRequest p → String → Tx (StateTable p) (Response p)
  delete_state_tx r ifi t =
      if present r.state_id
      then (do
        (existing, t) ← get_state_document p (key_of r (or_else r.state_id "") ifi) t
        check_concurrency_headers r.headers (etag_of p existing) false
        (done, t) ← delete_state_document p (key_of r (or_else r.state_id "") ifi) t
        ok (no_content, t))
      else (do
        (done, t) ← delete_all_state_documents p r.activity_id ifi r.registration r.since t
        ok (no_content, t))

  -- DELETE /xapi/activities/state
  unfoldable pub delete_state : StateRequest p → StateTable p → Result (Response p) × StateTable p
  delete_state r t = after (checked_ifi r) (λ ifi. with_client (delete_state_tx r ifi)) t
