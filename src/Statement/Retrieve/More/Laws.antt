-- ===== src/Statement/Retrieve/More/Laws.antt =====
-- The query of the `more` link, against the first.
use xapi_lrs.Prelude.{
  ℕ, String, ◌≡◌, refl, ap, ◌∙◌, Bool, true, not, ◌&&◌, Option, none, some, Bool-cases, inl, inr,
  if◌then◌else◌, ◌==◌, false,
}
use xapi_lrs.Statement.Retrieve.{GetRequest, is_true, query_of, mine_only, limit_at, limit_param}
use xapi_lrs.Http.{ok}
use xapi_lrs.Platform.{Platform}
use xapi_lrs.Statement.Retrieve.Answer.{limit_text}
use xapi_lrs.Auth.{AuthInfo}
use xapi_lrs.Etag.{present}
use xapi_lrs.Statement.Store.{StatementDb}
use xapi_lrs.Statement.Query.{
  Limit, ordered_matches, agent_filter, time_conditions, effective_limit, content_of,
  query_statements,
}
use xapi_lrs.Statement.Query.Pages.{continued}
use xapi_lrs.Statement.Retrieve.More.{clean, flag, next_request}
use xapi_lrs.Statement.Retrieve.More.Lookup.{
  lookup-agent, lookup-verb, lookup-activity, lookup-registration, lookup-related_activities,
  lookup-related_agents, lookup_cursor, lookup-statement_id, lookup-voided_statement_id,
  lookup-ascending, lookup-since, lookup-until, lookup-limit,
}
use xapi_lrs.Statement.Retrieve.More.Clean.{
  is_true-flag, agent_filter-clean, ordered_matches-cleaned, conditions-clean,
  query_statements_cong,
}

-- the parameters of the link's request, by those of the first
abbrev carried : Platform → GetRequest → ℕ → GetRequest
carried p r id = record (next_request p r id) {
  statement_id = none;
  voided_statement_id = none;
  agent = clean r.agent;
  verb = clean r.verb;
  activity = clean r.activity;
  registration = clean r.registration;
  related_activities = flag (is_true r.related_activities);
  related_agents = flag (is_true r.related_agents);
  since = if is_true r.ascending then none else clean r.since;
  until = if is_true r.ascending then clean r.until else none;
  ascending = flag (is_true r.ascending);
  cursor = some (p.uuid_text id);
}

next_request-carried :
    (p : Platform) (r : GetRequest) (id : ℕ) → next_request p r id ≡ carried p r id
next_request-carried p r id = λ i. record (next_request p r id) {
  statement_id = lookup-statement_id p r id i;
  voided_statement_id = lookup-voided_statement_id p r id i;
  agent = lookup-agent p r id i;
  verb = lookup-verb p r id i;
  activity = lookup-activity p r id i;
  registration = lookup-registration p r id i;
  related_activities = lookup-related_activities p r id i;
  related_agents = lookup-related_agents p r id i;
  since = lookup-since p r id i;
  until = lookup-until p r id i;
  ascending = lookup-ascending p r id i;
  cursor = lookup_cursor p r id i;
}

module _ (p : Platform) (r : GetRequest) (auth : AuthInfo) (limit : Option Limit) (d m id : ℕ)
    (ids : (not (present r.statement_id) && not (present r.voided_statement_id)) ≡ true)
    (full : present (some (p.uuid_text id)) ≡ true) where
  carried_agent :
      agent_filter p (query_of p (carried p r id) auth limit d m).agent
      ≡ agent_filter p (query_of p r auth limit d m).agent
  carried_agent = elim (Bool-cases (mine_only p auth)) [
    | inl mine ↦ rw (mine, ids) refl
    | inr all ↦ rw all (agent_filter-clean p r.agent)
  ]

  carried_times :
      time_conditions p (query_of p (carried p r id) auth limit d m)
      ≡ time_conditions p (continued p (query_of p r auth limit d m) id)
  carried_times =
      rw (is_true-flag (is_true r.ascending))
        (conditions-clean p (is_true r.ascending) (some (p.uuid_text id)) r.since r.until full)

  carried_matches :
      (db : StatementDb) (ifi : Option String) (t : ℕ → Bool)
      → let q' = query_of p (carried p r id) auth limit d m in
        let q = query_of p r auth limit d m in
        ordered_matches p q'.ascending (content_of q' ifi) t db
        ≡ ordered_matches p q.ascending (content_of q ifi) t db
  carried_matches db ifi t =
      let c = content_of (query_of p r auth limit d m) ifi in
      let up = is_true-flag (is_true r.ascending) in
      let related = is_true-flag (is_true r.related_activities) in
      elim (Bool-cases (mine_only p auth)) [
        | inl mine ↦
            rw (mine, ids, up, related)
              (ordered_matches-cleaned p (is_true r.ascending) (record c { related_agents = true })
                t db)
        | inr all ↦
            rw (all, up, related, is_true-flag (is_true r.related_agents))
              (ordered_matches-cleaned p (is_true r.ascending)
                (record c { related_agents = is_true r.related_agents }) t db)
      ]

-- the limit that the link carries is read as that of the first request was
limit_param-limit_text :
    (p : Platform) (o : Option String)
    → ((n : p.Number) → p.place (p.number_of (p.number_text n)) ≡ p.place n)
    → ((n : p.Number) → (p.number_text n == "") ≡ false)
    → limit_param p (clean (limit_text p o)) ≡ limit_param p o
limit_param-limit_text p none printed written = refl
limit_param-limit_text p (some s) printed written = elim (Bool-cases (s == "")) [
  | inl empty ↦ rw empty refl
  | inr full ↦
      rw (full, written (p.number_of s), written (p.number_of s))
        (ap limit_at (printed (p.number_of s)))
]

-- The request of a `more` link passes the check of its limit, and its query, with the limit that the
-- link carries, is that of the first request, continued after the row whose identifier the link has.
-- The first request is assumed to have passed the check of its limit and to name no statement; the
-- identifier's text not to be empty; and a number's text not to be empty and to be read as a number
-- at the same place.
pub query_statements-next_request :
    (p : Platform) (r : GetRequest) (auth : AuthInfo) (limit : Option Limit) (d m id : ℕ)
    (db : StatementDb)
    → (not (present r.statement_id) && not (present r.voided_statement_id)) ≡ true
    → present (some (p.uuid_text id)) ≡ true
    → ((n : p.Number) → p.place (p.number_of (p.number_text n)) ≡ p.place n)
    → ((n : p.Number) → (p.number_text n == "") ≡ false)
    → limit_param p r.limit ≡ ok limit
    → (carried_limit : Option Limit) × (limit_param p (next_request p r id).limit
        ≡ ok carried_limit)
      × (query_statements p (query_of p (next_request p r id) auth carried_limit d m) db
          ≡ query_statements p (continued p (query_of p r auth limit d m) id) db)
unfolding effective_limit
query_statements-next_request p r auth limit d m id db ids full printed written checked = (
  limit,
  ap (limit_param p) (lookup-limit p r id)
      ∙ limit_param-limit_text p r.limit printed written
      ∙ checked,
  ap (λ x. query_statements p (query_of p x auth limit d m) db) (next_request-carried p r id)
      ∙ query_statements_cong p (query_of p (carried p r id) auth limit d m)
          (continued p (query_of p r auth limit d m) id) db
          (carried_agent p r auth limit d m id ids full)
          (carried_times p r auth limit d m id ids full) refl
          (carried_matches p r auth limit d m id ids full db),
)
