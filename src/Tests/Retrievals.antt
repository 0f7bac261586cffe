-- ===== src/Tests/Retrievals.antt =====
-- The theorems on GET /xapi/statements, the formats and the Consistent-Through header, at concrete
-- statements.
use xapi_lrs.Prelude.{
  ◌<◌, ◌≡◌, refl, true, false, none, some, [], ◌∷◌, arith, or_else, sort_by, insert_by,
}
use xapi_lrs.Http.{ok}
use xapi_lrs.Json.{Json, Fields, obj, str, field, end, put, get, prop, display}
use xapi_lrs.Platform.{Platform}
use xapi_lrs.Agent.{
  ActorType, canonical_agent_ifi, param_ifi, value_ifi, ifi_count, account_of, account_ifi,
}
use xapi_lrs.Auth.{AuthInfo, jwt, statements_read_mine, agent_from_auth, has_only_mine_scope}
use xapi_lrs.Auth.Laws.{HasNames}
use xapi_lrs.Statement.Store.{StatementDb, StatementRow}
use xapi_lrs.Statement.Format.{strip_agent}
use xapi_lrs.Statement.Format.Laws.Identity.{strip_agent-canonical_agent_ifi}
use xapi_lrs.Statement.Format.Languages.{best_key, pick_language, keys_of}
use xapi_lrs.Statement.Format.Languages.Laws.{pick_language-get}
use xapi_lrs.Statement.Query.{
  query_statements, conditions, ordered_matches, selects_row, matches_content, effective_limit,
}
use xapi_lrs.Statement.Consistent.{
  Session, get_consistent_through, get_transaction_time, get_consistent_through-lt,
}
use xapi_lrs.Statement.Retrieve.{GetRequest, Found, page, retrieve, retrieve_page}
use xapi_lrs.Statement.Retrieve.Laws.{retrieve-IsMine, IsMine}
use xapi_lrs.Tests.{test_platform, one_field}
use xapi_lrs.Tests.Statements.{sent_row, no_statements}

-- Bob with his name
abbrev named_bob : Fields
named_bob = put "name" (str "Bob") (one_field "mbox" "mailto:bob@example.org")

bob_has_ifi : canonical_agent_ifi named_bob ≡ ok "mbox::mailto:bob@example.org"
unfolding canonical_agent_ifi ifi_count put get display
bob_has_ifi = refl

strip_agent-canonical_agent_ifi_example :
    (a : Fields) × (strip_agent (obj named_bob) ≡ obj a)
    × (canonical_agent_ifi a ≡ ok "mbox::mailto:bob@example.org")
unfolding put get
strip_agent-canonical_agent_ifi_example =
    strip_agent-canonical_agent_ifi named_bob "mbox::mailto:bob@example.org" bob_has_ifi
      (refl, refl, refl, refl)

pick_language-get_example :
    (w : Json) × (pick_language test_platform
        ("de" ∷ [])
        (obj end)
        (field "en" (str "yes") (field "de" (str "ja") end))
      ≡ obj (
          field
            (or_else
              (best_key test_platform
                (keys_of (field "en" (str "yes") (field "de" (str "ja") end)))
                ("de" ∷ []))
              "en")
            w
            end))
    × (get
          (or_else
            (best_key test_platform
              (keys_of (field "en" (str "yes") (field "de" (str "ja") end)))
              ("de" ∷ []))
            "en")
          (field "en" (str "yes") (field "de" (str "ja") end))
        ≡ some w)
pick_language-get_example =
    pick_language-get test_platform ("de" ∷ []) (obj end) (str "yes") (str "ja") "en" "de" end

-- a transaction that began 2 ms after 1970
abbrev open_session : Session
open_session = record {
  own_database = true;
  own_user = true;
  client_backend = true;
  own_backend = false;
  xact_start = some 2000;
}

get_consistent_through-lt_example :
    get_consistent_through 5000 (open_session ∷ []) < get_transaction_time 2000
get_consistent_through-lt_example =
    get_consistent_through-lt 5000 2000 [] [] open_session refl (omega arith)

abbrev pub bob_auth : AuthInfo
bob_auth = jwt "bob" "https://id.example.org" (statements_read_mine ∷ [])

abbrev bob_platform : Platform
bob_platform = record test_platform {
  parse_text = λ s. some (obj (agent_from_auth bob_auth));
  stringify_text = λ v. "{}";
}

abbrev pub no_filter : GetRequest
no_filter = record {
  statement_id = none;
  voided_statement_id = none;
  agent = none;
  verb = none;
  activity = none;
  registration = none;
  related_activities = none;
  related_agents = none;
  format = none;
  since = none;
  until = none;
  limit = none;
  ascending = none;
  attachments = none;
  cursor = none;
  accept_language = none;
  names = [];
}

abbrev alice_row : StatementRow
alice_row = record sent_row { id = 8; statement_id = "s2" }

-- a statement of Bob, and one of someone else
abbrev two_statements : StatementDb
two_statements = record no_statements {
  statements = sent_row ∷ alice_row ∷ [];
  statement_to_actor =
      record {
        statement_id = "s1";
        usage = "Actor";
        actor_ifi = "account::bob@https://id.example.org";
        actor_type = ActorType.agent;
      }
      ∷ [];
}

abbrev own_page : Found
own_page = page (record { rows = sent_row ∷ []; has_more = false })

own_page_found : retrieve bob_platform no_filter bob_auth none 50 100 two_statements ≡ ok own_page
unfolding retrieve_page query_statements effective_limit conditions ordered_matches selects_row
    matches_content sort_by insert_by param_ifi value_ifi canonical_agent_ifi ifi_count account_of
    account_ifi agent_from_auth has_only_mine_scope get prop display
own_page_found = refl

bob_parsed :
    bob_platform.parse_text (bob_platform.stringify_text (obj (agent_from_auth bob_auth)))
    ≡ some (obj (agent_from_auth bob_auth))
bob_parsed = refl

bob_names : HasNames bob_auth
bob_names = ((λ h. cc), (λ h. cc))

retrieve-IsMine_example : IsMine bob_platform two_statements bob_auth own_page
unfolding has_only_mine_scope
retrieve-IsMine_example =
    retrieve-IsMine bob_platform no_filter bob_auth none 50 100 two_statements own_page refl
      (λ h. cc) bob_names bob_parsed refl own_page_found
