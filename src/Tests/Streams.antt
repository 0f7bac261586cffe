-- ===== src/Tests/Streams.antt =====
-- The theorems on streams and on the addresses of clients, at concrete connections.
use xapi_lrs.Prelude.{
  String, ◌≡◌, refl, none, some, [], ◌∷◌, arith, split_first, trim_start, trim_end,
}
use xapi_lrs.Http.{ok}
use xapi_lrs.Json.{Json, obj, get, prop, put, display}
use xapi_lrs.Platform.{Platform}
use xapi_lrs.Auth.{agent_from_auth, agent_ifi_from_auth, has_only_mine_scope}
use xapi_lrs.Agent.{canonical_agent_ifi, value_ifi, ifi_count, account_of, account_ifi}
use xapi_lrs.ClientIp.{resolve_client_ip, forwarded_parts}
use xapi_lrs.ClientIp.Laws.{resolve_client_ip-trusted}
use xapi_lrs.Statement.Store.{StatementDb, StatementRow, statement_at, get_statement_by_id}
use xapi_lrs.Statement.Decompose.{build_payload}
use xapi_lrs.Statement.Retrieve.{property_ifi}
use xapi_lrs.Stream.{
  ConnectionLimits, StreamState, no_clients, asked, left, connect, count_of, set_count, Reachable,
  start, after, asks, leaves,
}
use xapi_lrs.Stream.Laws.{IsCounted, reachable-IsCounted}
use xapi_lrs.Stream.Events.{StoredEvent, handle_notification, build_statement_event, event_of}
use xapi_lrs.Stream.Events.Laws.{handle_notification-own}
use xapi_lrs.Tests.{test_platform, one_field}
use xapi_lrs.Tests.Statements.{no_statements, sent_row}
use xapi_lrs.Tests.Retrievals.{bob_auth}

-- two connections are allowed; a third is refused, and one of the two leaves
abbrev two_allowed : ConnectionLimits
two_allowed = record { max_global = 2; max_per_ip = 1 }

abbrev second : StreamState
second = asked two_allowed "10.0.0.2" (asked two_allowed "10.0.0.1" no_clients)

abbrev final_state : StreamState
final_state = left "10.0.0.1" (asked two_allowed "10.0.0.1" second)

final_reached : Reachable two_allowed final_state
unfolding connect count_of set_count
final_reached =
    after
      (after
        (after (after start (asks "10.0.0.1" no_clients))
          (asks "10.0.0.2" (asked two_allowed "10.0.0.1" no_clients)))
        (asks "10.0.0.1" second))
      (leaves "10.0.0.1" (asked two_allowed "10.0.0.1" second) refl)

reachable-IsCounted_example : IsCounted two_allowed final_state
unfolding connect
reachable-IsCounted_example = reachable-IsCounted two_allowed final_state final_reached

parts_read :
    forwarded_parts "1.1.1.1, 203.0.113.9, 10.0.0.1" ≡ "1.1.1.1" ∷ "203.0.113.9" ∷ "10.0.0.1" ∷ []
unfolding forwarded_parts split_first trim_start trim_end
parts_read = refl

resolve_client_ip-trusted_example :
    resolve_client_ip (some "1.1.1.1, 203.0.113.9, 10.0.0.1") 1 ≡ "203.0.113.9"
resolve_client_ip-trusted_example =
    resolve_client_ip-trusted "1.1.1.1, 203.0.113.9, 10.0.0.1" "203.0.113.9" ("1.1.1.1" ∷ [])
      ("10.0.0.1" ∷ []) refl parts_read (omega arith) refl

-- a statement of the caller
abbrev own_row : StatementRow
own_row = record sent_row {
  payload = put "actor" (obj (agent_from_auth bob_auth)) sent_row.payload;
}

abbrev own_db : StatementDb
own_db = record no_statements { statements = own_row ∷ [] }

abbrev notify_platform : Platform
notify_platform = record test_platform { parse_text = λ s. some (obj (one_field "statement_id" s)) }

abbrev own_event : StoredEvent
own_event = event_of none none none none own_row

event_sent : handle_notification notify_platform (some bob_auth) "s1" own_db ≡ some own_event
unfolding handle_notification build_statement_event get_statement_by_id prop get put display
    has_only_mine_scope agent_from_auth agent_ifi_from_auth canonical_agent_ifi ifi_count account_of
    account_ifi value_ifi build_payload
event_sent = refl

handle_notification-own_example :
    ((id : String) × (row : StatementRow) × (statement_at id own_db ≡ some row)
      × (own_event.id ≡ row.statement_id)
      × (own_event.statement ≡ row.payload))
    × ((actor : Json) × (get "actor" own_event.statement ≡ some actor)
        × (property_ifi notify_platform actor ≡ ok (agent_ifi_from_auth bob_auth)))
unfolding has_only_mine_scope
handle_notification-own_example =
    handle_notification-own notify_platform bob_auth "s1" own_db own_event refl event_sent
