-- ===== src/Auth.antt =====
-- Who makes a request and what it may do: auth/types.ts, helpers/auth-agent.ts,
-- `buildAuthority` and `authorityFromAuth`, and middleware/authorization.ts.
pub mod Laws
use xapi_lrs.Prelude.{
  ℕ, String, Bool, true, false, not, ◌&&◌, ◌||◌, Option, none, some, List, [], ◌∷◌, ◌==◌, any,
  concat, if◌then◌else◌,
}
use xapi_lrs.Http.{Result, ok, err, http}
use xapi_lrs.Json.{Fields, end, field, str, obj}

pub data XapiScope : Type 0 where
  statements_write statements_read statements_read_mine all_read all state state_read define :
      XapiScope
  activities_profile activities_profile_read agents_profile agents_profile_read : XapiScope

pub XapiScope-discrete : Discrete XapiScope
XapiScope-discrete = hlevel

abbrev pub scope_name : XapiScope → String
scope_name statements_write = "statements/write"
scope_name statements_read = "statements/read"
scope_name statements_read_mine = "statements/read/mine"
scope_name all_read = "all/read"
scope_name all = "all"
scope_name state = "state"
scope_name state_read = "state/read"
scope_name define = "define"
scope_name activities_profile = "activities_profile"
scope_name activities_profile_read = "activities_profile/read"
scope_name agents_profile = "agents_profile"
scope_name agents_profile_read = "agents_profile/read"

-- `scopes.includes(s)`, on the names
abbrev pub includes_scope : List XapiScope → XapiScope → Bool
includes_scope [] s = false
includes_scope (x ∷ xs) s = scope_name x == scope_name s || includes_scope xs s

-- the payloads, with the fields that the source reads
pub data AuthInfo : Type 0 where
  basic : (credential_id account_name : String) → List XapiScope → AuthInfo
  jwt : (sub iss : String) → List XapiScope → AuthInfo

abbrev pub scopes_of : AuthInfo → List XapiScope
scopes_of (basic _ _ scopes) = scopes
scopes_of (jwt _ _ scopes) = scopes

-- LRS_AUTHORITY_HOME_PAGE
abbrev pub lrs_authority_home_page : String
lrs_authority_home_page = "https://xapi-lrs.pelotech.dev"

abbrev pub account_agent : String → String → Fields
account_agent home_page name =
    field "objectType" (str "Agent")
      (field "account" (obj (field "homePage" (str home_page) (field "name" (str name) end))) end)

-- `agentFromAuth`
unfoldable pub agent_from_auth : AuthInfo → Fields
agent_from_auth (basic _ account_name _) = account_agent lrs_authority_home_page account_name
agent_from_auth (jwt sub iss _) = account_agent iss sub

-- `buildAuthority`
abbrev pub build_authority : String → Fields
build_authority account_name = account_agent lrs_authority_home_page account_name

-- `authorityFromAuth`
unfoldable pub authority_from_auth : AuthInfo → Fields
authority_from_auth (basic _ account_name _) = build_authority account_name
authority_from_auth (jwt sub iss _) = account_agent iss sub

-- `agentIfiFromAuth`
unfoldable pub agent_ifi_from_auth : AuthInfo → String
agent_ifi_from_auth (basic _ account_name _) =
    concat "account::" (concat account_name (concat "@" lrs_authority_home_page))
agent_ifi_from_auth (jwt sub iss _) = concat "account::" (concat sub (concat "@" iss))

-- FULL_READ_SCOPES
abbrev pub full_read_scopes : List XapiScope
full_read_scopes = statements_read ∷ all_read ∷ all ∷ []

-- `hasOnlyMineScope`
unfoldable pub has_only_mine_scope : List XapiScope → Bool
has_only_mine_scope scopes =
    includes_scope scopes statements_read_mine
    && not (any (λ s. includes_scope full_read_scopes s) scopes)

abbrev pub is_read : String → Bool
is_read method = method == "GET" || method == "HEAD"

-- `requiredScopes`; `none` lets the request through
unfoldable pub required_scopes : String → String → Option (List XapiScope)
required_scopes path method =
    if path == "/xapi/statements"
    then (if is_read method
        then some (statements_read ∷ statements_read_mine ∷ all_read ∷ all ∷ [])
        else some (statements_write ∷ all ∷ []))
    else if path == "/xapi/activities/state"
    then (if is_read method
        then some (state ∷ state_read ∷ all_read ∷ all ∷ [])
        else some (state ∷ all ∷ []))
    else if path == "/xapi/activities/profile"
    then (if is_read method
        then some (activities_profile ∷ activities_profile_read ∷ all_read ∷ all ∷ [])
        else some (activities_profile ∷ define ∷ all ∷ []))
    else if path == "/xapi/agents/profile"
    then (if is_read method
        then some (agents_profile ∷ agents_profile_read ∷ all_read ∷ all ∷ [])
        else some (agents_profile ∷ all ∷ []))
    else if path == "/xapi/agents"
    then some (agents_profile_read ∷ all_read ∷ all ∷ [])
    else if path == "/xapi/activities"
    then some (activities_profile_read ∷ all_read ∷ all ∷ [])
    else if path == "/xapi/stream"
    then some (statements_read ∷ statements_read_mine ∷ all_read ∷ all ∷ [])
    else none

-- `hasScope`
unfoldable pub has_scope : List XapiScope → List XapiScope → Bool
has_scope granted required = any (λ s. includes_scope granted s) required

abbrev pub scope_check : Option AuthInfo → List XapiScope → Result (Unit {0})
scope_check none rule = err (http 401 "Unauthorized")
scope_check (some auth) rule =
    if has_scope (scopes_of auth) rule then ok tt else err (http 403 "Insufficient scope")

abbrev pub rule_check : Option AuthInfo → Option (List XapiScope) → Result (Unit {0})
rule_check auth none = ok tt
rule_check auth (some rule) = scope_check auth rule

-- `scopeMiddleware`: `ok` calls the next handler
unfoldable pub scope_middleware : String → String → Option AuthInfo → Result (Unit {0})
scope_middleware path method auth =
    if path == "/xapi/about" then ok tt else rule_check auth (required_scopes path method)
