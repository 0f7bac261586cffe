-- ===== src/Statement/Retrieve/More.antt =====
-- The request that the `more` link makes, as its parameters are read back.
pub mod Lookup
pub mod Clean
pub mod Laws
use xapi_lrs.Prelude.{
  ℕ, suc, String, ◌≡◌, refl, sym, ap, ◌∙◌, Bool, true, false, not, ◌&&◌, ◌||◌, Option, none, some,
  List, [], ◌∷◌, ◌++◌, ◌==◌, map, any, keep, keep_ext, sort_by, take, Bool-cases, inl, inr,
  if◌then◌else◌,
}
use xapi_lrs.Statement.Retrieve.{
  GetRequest, format_of, is_true, or_else_text, query_of, restricted, mine_only,
}
use xapi_lrs.Statement.Retrieve.Answer.{more_params, if_present, if_true, limit_text}
use xapi_lrs.Platform.{Platform}
use xapi_lrs.Auth.{AuthInfo, agent_from_auth, has_only_mine_scope}
use xapi_lrs.Http.{Result, ok, ◌>>=◌}
use xapi_lrs.Etag.{present}
use xapi_lrs.Statement.Store.{StatementDb, StatementRow, StatementLink}
use xapi_lrs.Statement.Query.{
  Limit, Content, QueryParams, Page, given, matches_content, targets_voided, selects_row,
  ordered_matches, row_key, agent_filter, time_bound, conditions, time_conditions, effective_limit,
  content_of, query_statements, page_of,
}
use xapi_lrs.Statement.Query.Pages.{continued}

-- `c.req.query(k)`
unfoldable pub lookup : String → List (String × String) → Option String
lookup k [] = none
lookup k ((j, v) ∷ rest) = if j == k then some v else lookup k rest

-- a parameter that the link repeats, if it is not empty
abbrev pub clean : Option String → Option String
clean none = none
clean (some s) = if s == "" then none else some s

-- the value of a parameter that is sent as `true` or not at all
abbrev pub flag : Bool → Option String
flag b = if b then some "true" else none

-- the request of the link: its parameters are read as those of the first request were
abbrev pub next_request : Platform → GetRequest → ℕ → GetRequest
next_request p r id =
    let params = more_params p r id in
    record {
      statement_id = lookup "statementId" params;
      voided_statement_id = lookup "voidedStatementId" params;
      agent = lookup "agent" params;
      verb = lookup "verb" params;
      activity = lookup "activity" params;
      registration = lookup "registration" params;
      related_activities = lookup "related_activities" params;
      related_agents = lookup "related_agents" params;
      format = lookup "format" params;
      since = lookup "since" params;
      until = lookup "until" params;
      limit = lookup "limit" params;
      ascending = lookup "ascending" params;
      attachments = lookup "attachments" params;
      cursor = lookup "_cursor" params;
      accept_language = r.accept_language;
      names = map (λ (x : String × String). x.0) params;
    }
