-- ===== src/Stream/Events.antt =====
-- sse/statement-event.ts, and the handler of notifications in sse/sse-producer.ts: the event of a
-- stored statement, and who is sent it.
pub mod Laws
use xapi_lrs.Prelude.{String, Bool, true, false, not, Option, none, some, ◌==◌, if◌then◌else◌}
use xapi_lrs.Http.{Result, ok, err, other, ◌>>=◌}
use xapi_lrs.Json.{Json, Fields, null, str, get, prop, truthy, display, display_option}
use xapi_lrs.Platform.{Platform}
use xapi_lrs.Etag.{present}
use xapi_lrs.Auth.{AuthInfo, scopes_of, agent_ifi_from_auth, has_only_mine_scope}
use xapi_lrs.Statement.Decompose.{read_prop}
use xapi_lrs.Statement.Retrieve.{property_ifi}
use xapi_lrs.Statement.Store.{StatementDb, StatementRow, get_statement_by_id}

-- `a ?? b`
abbrev pub or_value : Option Json → Option Json → Option Json
or_value none b = b
or_value (some null) b = b
or_value (some v) b = some v

abbrev pub or_null : Option Json → Json
or_null none = null
or_null (some v) = v

-- `StatementStoredEvent`
pub record StoredEvent : Type 0 where
  pub seq : String
  pub id : String
  pub registration_id : Json
  pub session_id : Json
  pub verb_iri : Json
  pub statement : Fields

abbrev pub session_extension : String
session_extension = "https://w3id.org/xapi/cmi5/context/extensions/sessionid"

abbrev pub text_of_value : Option Json → String
text_of_value v = display_option (or_value v (some (str "")))

-- `String(data.verb_iri ?? '') || (verb?.id ?? '')`
abbrev pub verb_of : Option Json → Fields → Json
verb_of iri payload =
    if text_of_value iri == ""
    then or_null (or_value (read_prop "id" (get "verb" payload)) (some (str "")))
    else str (text_of_value iri)

abbrev pub event_of : (seq registration session iri : Option Json) → StatementRow → StoredEvent
event_of seq registration session iri row = record {
  seq = text_of_value seq;
  id = row.statement_id;
  registration_id =
      or_null (or_value registration (read_prop "registration" (get "context" row.payload)));
  session_id = or_null (
      or_value session
        (read_prop session_extension (read_prop "extensions" (get "context" row.payload))));
  verb_iri = verb_of iri row.payload;
  statement = row.payload;
}

abbrev pub parsed_payload : Option Json → Result Json
parsed_payload none = err other
parsed_payload (some v) = ok v

abbrev pub event_if :
    (seq registration session iri : Option Json) → Option StatementRow → Option StoredEvent
event_if seq registration session iri none = none
event_if seq registration session iri (some row) = some (event_of seq registration session iri row)

module _ (p : Platform) where
  -- `buildStatementEvent`
  unfoldable pub build_statement_event : String → StatementDb → Result (Option StoredEvent)
  build_statement_event payload db = do
    data' ← parsed_payload (p.parse_text payload)
    id ← prop "statement_id" data'
    other_id ← prop "id" data'
    found ← get_statement_by_id p (display_option (or_value id other_id)) db
    seq ← prop "seq" data'
    registration ← prop "registration_id" data'
    session ← prop "session_id" data'
    iri ← prop "verb_iri" data'
    ok (event_if seq registration session iri found.0)

  -- the IFI that a caller's events must have
  abbrev pub stream_filter : Option AuthInfo → Option String
  stream_filter none = none
  stream_filter (some auth) =
      if has_only_mine_scope (scopes_of auth) then some (agent_ifi_from_auth auth) else none

  abbrev pub is_ifi : Result String → String → Bool
  is_ifi (ok ifi) own = ifi == own
  is_ifi (err _) own = false

  abbrev pub is_from : Option Json → String → Bool
  is_from none own = false
  is_from (some actor) own =
      if truthy (some actor) then is_ifi (property_ifi p actor) own else false

  abbrev pub passes : Option String → StoredEvent → Bool
  passes none event = true
  passes (some own) event = if own == "" then true else is_from (get "actor" event.statement) own

  abbrev pub sent_if : Option String → Result (Option StoredEvent) → Option StoredEvent
  sent_if own (err _) = none
  sent_if own (ok none) = none
  sent_if own (ok (some event)) = if passes own event then some event else none

  -- the event that the handler writes; errors are logged
  unfoldable pub handle_notification : Option AuthInfo → String → StatementDb → Option StoredEvent
  unfolding build_statement_event
  handle_notification auth payload db =
      sent_if (stream_filter auth) (build_statement_event payload db)
