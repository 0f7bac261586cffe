-- ===== src/Statement/Retrieve.antt =====
-- routes/statements.ts and routes/statement-helpers.ts: GET /xapi/statements, one statement or a
-- page of them.
pub mod Involved
pub mod Laws
pub mod Answer
pub mod More
use xapi_lrs.Prelude.{
  ℕ, String, Bool, true, false, not, ◌&&◌, ◌||◌, Option, none, some, List, [], ◌∷◌, ◌++◌, ◌==◌, map,
  ltb, any, first, keep, last, contains, concat, is_some, if◌then◌else◌,
}
use xapi_lrs.Http.{Result, ok, err, http, guard, ◌>>=◌, ◌>>◌}
use xapi_lrs.Json.{Json, Fields, str, obj, get, truthy, display_option}
use xapi_lrs.Platform.{Platform, Place, not_finite, below_zero}
use xapi_lrs.Agent.{param_ifi, value_ifi, validate_since, validate_registration}
use xapi_lrs.Auth.{AuthInfo, scopes_of, agent_from_auth, agent_ifi_from_auth, has_only_mine_scope}
use xapi_lrs.Etag.{present}
use xapi_lrs.Statement.Attachments.{AttachmentRow}
use xapi_lrs.Statement.Format.Languages.{format_statement}
use xapi_lrs.Statement.Query.{Limit, QueryParams, Page, query_statements}
use xapi_lrs.Statement.Routes.{Tables}
use xapi_lrs.Statement.Store.{StatementDb, StatementRow, as_uuid, get_statement_by_id}

-- STATEMENTS_KNOWN_PARAMS
abbrev pub statements_known_params : List String
statements_known_params =
    "statementId" ∷ "voidedStatementId" ∷ "agent" ∷ "verb" ∷ "activity" ∷ "registration"
    ∷ "related_activities" ∷ "related_agents" ∷ "format" ∷ "since" ∷ "until" ∷ "limit" ∷ "ascending"
    ∷ "attachments" ∷ "_cursor" ∷ []

-- what the handler reads of the request: the query's parameters, all their names, and a header
pub record GetRequest : Type 0 where
  pub statement_id : Option String
  pub voided_statement_id : Option String
  pub agent : Option String
  pub verb : Option String
  pub activity : Option String
  pub registration : Option String
  pub related_activities : Option String
  pub related_agents : Option String
  pub format : Option String
  pub since : Option String
  pub until : Option String
  pub limit : Option String
  pub ascending : Option String
  pub attachments : Option String
  pub cursor : Option String
  pub accept_language : Option String
  pub names : List String

-- `v === 'true'`
abbrev pub is_true : Option String → Bool
is_true none = false
is_true (some s) = s == "true"

-- `a ?? b`
abbrev pub or_else_text : Option String → Option String → Option String
or_else_text none b = b
or_else_text (some s) b = some s

abbrev pub unknown_error : Option String → Result (Unit {0})
unknown_error none = ok tt
unknown_error (some k) = err (http 400 (concat "Unknown query parameter: " k))

unfoldable pub check_names : List String → Result (Unit {0})
check_names names = unknown_error (first (λ k. not (contains statements_known_params k)) names)

-- `format ?? 'exact'`
abbrev pub format_of : Option String → String
format_of none = "exact"
format_of (some f) = f

abbrev pub is_format : String → Bool
is_format f = f == "exact" || (f == "ids" || f == "canonical")

abbrev pub has_filter : GetRequest → Bool
has_filter r =
    is_some r.agent
    || (is_some r.verb
        || (is_some r.activity
            || (is_some r.registration
                || (is_some r.related_activities
                    || (is_some r.related_agents
                        || (is_some r.since
                            || (is_some r.until || (is_some r.limit || is_some r.ascending))))))))

abbrev pub limit_error : Result (Option Limit)
limit_error = err (http 400 "limit must be a positive integer")

-- `!Number.isFinite(limit) || limit < 1`
abbrev pub limit_at : Place → Result (Option Limit)
limit_at not_finite = limit_error
limit_at below_zero = limit_error
limit_at (Place.whole n) = if ltb 0 n then ok (some (Limit.whole n)) else limit_error
limit_at (Place.fraction n) = if ltb 0 n then ok (some (Limit.fraction n)) else limit_error

-- what the database gives
pub data Found : Type 0 where
  single : StatementRow → Found
  page : Page → Found

module _ (p : Platform) where
  abbrev pub limit_param : Option String → Result (Option Limit)
  limit_param none = ok none
  limit_param (some s) = if s == "" then ok none else limit_at (p.place (p.number_of s))

  abbrev pub check_agent : Option String → Result (Unit {0})
  check_agent none = ok tt
  check_agent (some s) = if s == "" then ok tt else param_ifi p s >>= λ ifi. ok tt

  -- `canonicalAgentIfi` of a property: a text is parsed
  abbrev pub property_ifi : Json → Result String
  property_ifi (str s) = param_ifi p s
  property_ifi v = value_ifi v

  abbrev pub forbidden : Result (Unit {0})
  forbidden = err (http 403 "Forbidden")

  -- the `try` of `assertStatementBelongsToAgent`
  abbrev pub belongs : Result String → AuthInfo → Result (Unit {0})
  belongs (ok ifi) auth = guard (ifi == agent_ifi_from_auth auth) 403 "Forbidden"
  belongs (err (http status message)) auth = err (http status message)
  belongs (err _) auth = forbidden

  abbrev pub actor_belongs : Option Json → AuthInfo → Result (Unit {0})
  actor_belongs none auth = forbidden
  actor_belongs (some actor) auth =
      if truthy (some actor) then belongs (property_ifi actor) auth else forbidden

  -- `assertStatementBelongsToAgent`
  unfoldable pub assert_statement_belongs_to_agent : Fields → AuthInfo → Result (Unit {0})
  assert_statement_belongs_to_agent payload auth = actor_belongs (get "actor" payload) auth

  -- the checks before the database is asked
  unfoldable pub check_request : GetRequest → Result (Option Limit)
  unfolding check_names
  check_request r = limit_param r.limit >>= λ limit. do
    check_names r.names
    validate_since p r.since
    validate_since p r.until
    validate_registration r.registration
    check_agent r.agent
    guard (not (present r.statement_id && present r.voided_statement_id)) 400
        "Cannot use both statementId and voidedStatementId"
    guard (is_format (format_of r.format)) 400 "format must be one of: ids, exact, canonical"
    guard (not ((present r.statement_id || present r.voided_statement_id) && has_filter r)) 400
        "Cannot combine statementId or voidedStatementId with other filter parameters"
    ok limit

  abbrev pub mine_only : AuthInfo → Bool
  mine_only auth = has_only_mine_scope (scopes_of auth)

  -- `mineOnly && !statementId && !voidedStatementId`
  abbrev pub restricted : GetRequest → AuthInfo → Bool
  restricted r auth =
      mine_only auth && (not (present r.statement_id) && not (present r.voided_statement_id))

  abbrev pub query_of :
      GetRequest → AuthInfo → Option Limit → (default_limit max_limit : ℕ) → QueryParams
  query_of r auth limit default_limit max_limit = record {
    agent =
        if restricted r auth then some (p.stringify_text (obj (agent_from_auth auth))) else r.agent;
    verb = r.verb;
    activity = r.activity;
    registration = r.registration;
    related_activities = is_true r.related_activities;
    related_agents = if restricted r auth then true else is_true r.related_agents;
    since = r.since;
    until = r.until;
    limit = limit;
    ascending = is_true r.ascending;
    cursor = r.cursor;
    default_limit = default_limit;
    max_limit = max_limit;
  }

  abbrev pub not_found : Bool → Result Found
  not_found true = err (http 404 "Voided statement not found")
  not_found false = err (http 404 "Statement not found")

  abbrev pub same_flag : Bool → Bool → Bool
  same_flag true b = b
  same_flag false b = not b

  abbrev pub own_or_all : Fields → AuthInfo → Result (Unit {0})
  own_or_all payload auth =
      if mine_only auth then assert_statement_belongs_to_agent payload auth else ok tt

  abbrev pub single_of : Bool → AuthInfo → Option StatementRow → Result Found
  single_of want_voided auth none = not_found want_voided
  single_of want_voided auth (some row) =
      if same_flag row.is_voided want_voided
      then own_or_all row.payload auth >> ok (single row)
      else not_found want_voided

  unfoldable pub retrieve_single : GetRequest → AuthInfo → String → StatementDb → Result Found
  unfolding assert_statement_belongs_to_agent
  retrieve_single r auth id db = do
    found ← get_statement_by_id p id db
    single_of (present r.voided_statement_id) auth found.0

  unfoldable pub retrieve_page :
      GetRequest
      → AuthInfo
      → Option Limit
      → (default_limit max_limit : ℕ) → StatementDb
      → Result Found
  retrieve_page r auth limit default_limit max_limit db = do
    found ← query_statements p (query_of r auth limit default_limit max_limit) db
    ok (page found)

  -- `if (singleId)`
  abbrev pub by_id : Option String → (String → Result Found) → Result Found → Result Found
  by_id none one_of rest = rest
  by_id (some id) one_of rest = if id == "" then rest else one_of id

  -- the rows that are read; an empty `statementId` hides a `voidedStatementId`
  abbrev pub retrieve :
      GetRequest
      → AuthInfo
      → Option Limit
      → (default_limit max_limit : ℕ) → StatementDb
      → Result Found
  retrieve r auth limit default_limit max_limit db =
      by_id (or_else_text r.statement_id r.voided_statement_id) (λ id. retrieve_single r auth id db)
        (retrieve_page r auth limit default_limit max_limit db)
