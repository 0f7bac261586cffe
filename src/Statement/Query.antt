-- ===== src/Statement/Query.antt =====
-- repositories/statements.ts, `queryStatements`: the statements that match, in the order of their
-- row identifiers, a page at a time.
pub mod Pages
pub mod Laws
use xapi_lrs.Prelude.{
  ℕ, suc, String, Bool, true, false, not, ◌&&◌, ◌||◌, Option, none, some, List, ◌==◌, ltb, leb, any,
  keep, length, take, pop, sort_by, or_else, is_some, if◌then◌else◌,
}
use xapi_lrs.Http.{Result, ok, err, http, other, ◌>>=◌}
use xapi_lrs.Json.{Json, null, bool, num, str, arr, obj, get}
use xapi_lrs.Platform.{Platform, Millis}
use xapi_lrs.Agent.{param_ifi}
use xapi_lrs.Squuid.{squuid_min}
use xapi_lrs.Etag.{present}
use xapi_lrs.Statement.Decompose.{read_prop}
use xapi_lrs.Statement.Store.{
  StatementDb, StatementRow, ActorLink, ActivityLink, StatementLink, cast_result,
}

-- a limit: the handlers let positive numbers through, whole or not; `fraction n` lies between `n`
-- and `n + 1`
pub data Limit : Type 0 where
  whole fraction : ℕ → Limit

-- `StatementQueryParams`; the limits of the configuration are always given
pub record QueryParams : Type 0 where
  pub agent : Option String
  pub verb : Option String
  pub activity : Option String
  pub registration : Option String
  pub related_activities : Bool
  pub related_agents : Bool
  pub since : Option String
  pub until : Option String
  pub limit : Option Limit
  pub ascending : Bool
  pub cursor : Option String
  pub default_limit : ℕ
  pub max_limit : ℕ

-- what a truthy parameter asks
abbrev pub given : Option String → (String → Bool) → Bool
given none test = true
given (some s) test = if s == "" then true else test s

-- the conditions on a statement's content, with the IFI of the agent parameter
pub record Content : Type 0 where
  pub agent_ifi : Option String
  pub verb : Option String
  pub activity : Option String
  pub registration : Option String
  pub related_activities : Bool
  pub related_agents : Bool

-- EXISTS over statement_to_actor, and over statement_to_activity
abbrev pub has_actor : StatementDb → Bool → String → String → Bool
has_actor db any_usage ifi id =
    any
      (λ (l : ActorLink).
        l.statement_id == id && ((any_usage || l.usage == "Actor") && l.actor_ifi == ifi))
      db.statement_to_actor

abbrev pub has_activity : StatementDb → Bool → String → String → Bool
has_activity db any_usage iri id =
    any
      (λ (l : ActivityLink).
        l.statement_id == id && ((any_usage || l.usage == "Object") && l.activity_iri == iri))
      db.statement_to_activity

abbrev pub has_content : Content → Bool
has_content c =
    is_some c.agent_ifi || (present c.verb || (present c.activity || present c.registration))

-- `s.id > cursor`, or `s.id < cursor`
abbrev pub past_cursor : Bool → Option ℕ → ℕ → Bool
past_cursor ascending none id = true
past_cursor true (some c) id = ltb c id
past_cursor false (some c) id = ltb id c

-- the bounds of `since` and `until`, exclusive below and inclusive above
abbrev pub is_above : Option ℕ → ℕ → Bool
is_above none id = true
is_above (some n) id = ltb n id

abbrev pub is_up_to : Option ℕ → ℕ → Bool
is_up_to none id = true
is_up_to (some n) id = leb id n

abbrev pub in_time : Bool → (start above up_to : Option ℕ) → ℕ → Bool
in_time ascending start above up_to id =
    past_cursor ascending start id && (is_above above id && is_up_to up_to id)

abbrev pub content_of : QueryParams → Option String → Content
content_of q ifi = record {
  agent_ifi = ifi;
  verb = q.verb;
  activity = q.activity;
  registration = q.registration;
  related_activities = q.related_activities;
  related_agents = q.related_agents;
}

-- `Math.min(params.limit ?? defaultLimit, maxLimit)`; a fraction is no value for LIMIT
abbrev pub smaller : ℕ → ℕ → ℕ
smaller a b = if ltb a b then a else b

abbrev pub limit_of : ℕ → ℕ → Option Limit → Result ℕ
limit_of default_limit max_limit none = ok (smaller default_limit max_limit)
limit_of default_limit max_limit (some (whole n)) = ok (smaller n max_limit)
limit_of default_limit max_limit (some (fraction n)) =
    if ltb n max_limit then err other else ok max_limit

unfoldable pub effective_limit : QueryParams → Result ℕ
effective_limit q = limit_of q.default_limit q.max_limit q.limit

-- rows and `hasMore`
pub record Page : Type 0 where
  pub rows : List StatementRow
  pub has_more : Bool

abbrev pub page_of : ℕ → List StatementRow → Page
page_of limit found = record {
  rows = if ltb limit (length found) then pop found else found;
  has_more = ltb limit (length found);
}

abbrev pub row_key : StatementRow → ℕ
row_key row = row.id

module _ (p : Platform) where
  -- `->>`, with NULL as `none`
  abbrev pub json_text : Option Json → Option String
  json_text none = none
  json_text (some null) = none
  json_text (some (bool true)) = some "true"
  json_text (some (bool false)) = some "false"
  json_text (some (num t)) = some t
  json_text (some (str s)) = some s
  json_text (some v) = some (p.pg_json_text v)

  abbrev pub is_some_text : Option String → String → Bool
  is_some_text none s = false
  is_some_text (some t) s = t == s

  -- the conjunction of `directContentConds`, and of `voidedContentConds`
  unfoldable pub matches_content : Content → StatementDb → StatementRow → Bool
  matches_content c db row =
      given c.verb (λ verb. row.verb_iri == verb)
      && (elim c.agent_ifi [
        | none ↦ true
        | some ifi ↦ has_actor db c.related_agents ifi row.statement_id
      ]
          && (given c.activity (λ iri. has_activity db c.related_activities iri row.statement_id)
              && given c.registration (λ reg.
                is_some_text (json_text (read_prop "registration" (get "context" row.payload)))
                  reg)))

  -- a statement that refers, at any remove, to a voided statement with the content
  unfoldable pub targets_voided : Content → StatementDb → StatementRow → Bool
  unfolding matches_content
  targets_voided c db row =
      any
        (λ (l : StatementLink).
          l.ancestor_id == row.statement_id
          && any (λ v. v.statement_id == l.descendant_id && (v.is_voided && matches_content c db v))
              db.statements)
        db.statement_to_statement

  -- the WHERE clause
  unfoldable pub selects_row : Content → (ℕ → Bool) → StatementDb → StatementRow → Bool
  unfolding targets_voided matches_content
  selects_row c timely db row =
      (not row.is_voided && (matches_content c db row && timely row.id))
      || (has_content c && (not row.is_voided && (timely row.id && targets_voided c db row)))

  -- `squuidMin(new Date(s).getTime())` bound to a uuid, where the parameter is truthy
  abbrev pub bind_bits : Option ℕ → Result (Option ℕ)
  bind_bits none = err other
  bind_bits (some n) = ok (some n)

  abbrev pub min_of : Option Millis → Option ℕ
  min_of none = none
  min_of (some ms) = p.pg_uuid_bits (squuid_min ms)

  abbrev pub time_bound : Option String → Result (Option ℕ)
  time_bound none = ok none
  time_bound (some s) = if s == "" then ok none else bind_bits (min_of (p.js_date s))

  abbrev pub bind_cursor : Option String → Result (Option ℕ)
  bind_cursor none = ok none
  bind_cursor (some s) = if s == "" then ok none else bind_bits (p.pg_uuid_bits s)

  -- the time conditions: with a cursor, only the bound on its far side is kept
  unfoldable pub conditions : Bool → (cursor since until : Option String) → Result (ℕ → Bool)
  conditions ascending cursor since until = do
    start ← bind_cursor cursor
    above ← time_bound (if present cursor && ascending then none else since)
    up_to ← time_bound (if present cursor && not ascending then none else until)
    ok (in_time ascending start above up_to)

  abbrev pub time_conditions : QueryParams → Result (ℕ → Bool)
  time_conditions q = conditions q.ascending q.cursor q.since q.until

  -- a content filter by agent: any error of its IFI is answered by 400
  abbrev pub or_bad_agent : Result String → Result (Option String)
  or_bad_agent (ok ifi) = ok (some ifi)
  or_bad_agent (err e) = err (http 400 "agent parameter is not valid JSON")

  abbrev pub agent_filter : Option String → Result (Option String)
  agent_filter none = ok none
  agent_filter (some s) = if s == "" then ok none else or_bad_agent (param_ifi p s)

  -- the rows that match, in their order
  unfoldable pub ordered_matches : Bool → Content → (ℕ → Bool) → StatementDb → List StatementRow
  unfolding selects_row
  ordered_matches ascending c timely db =
      sort_by row_key ascending (keep (selects_row c timely db) db.statements)

  -- `queryStatements`
  unfoldable pub query_statements : QueryParams → StatementDb → Result Page
  query_statements q db = do
    ifi ← agent_filter q.agent
    timely ← time_conditions q
    limit ← effective_limit q
    ok (page_of limit (take (suc limit) (ordered_matches q.ascending (content_of q ifi) timely db)))
