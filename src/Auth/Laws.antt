-- ===== src/Auth/Laws.antt =====
-- The scopes that allow writes, and the two views of the authenticated agent.
use xapi_lrs.Prelude.{
  String, ◌≡◌, ◌≢◌, refl, Bool, true, false, ◌&&◌, some, List, [], ◌∷◌, ◌==◌, eq_iff, arith,
}
use xapi_lrs.Http.{ok, err, http}
use xapi_lrs.Json.{get, prop, display}
use xapi_lrs.Agent.{canonical_agent_ifi, account_of, account_ifi, ifi_count}
use xapi_lrs.Auth.{
  XapiScope, statements_write, statements_read, statements_read_mine, all_read, all, state,
  state_read, define, activities_profile, activities_profile_read, agents_profile,
  agents_profile_read, scope_name, includes_scope, AuthInfo, basic, jwt, scopes_of, agent_from_auth,
  agent_ifi_from_auth, is_read, required_scopes, has_scope, scope_middleware,
}

-- the scopes that name reading alone
abbrev pub is_read_scope : XapiScope → Bool
is_read_scope statements_read = true
is_read_scope statements_read_mine = true
is_read_scope all_read = true
is_read_scope state_read = true
is_read_scope activities_profile_read = true
is_read_scope agents_profile_read = true
is_read_scope _ = false

abbrev pub only_read : List XapiScope → Bool
only_read [] = true
only_read (s ∷ rest) = is_read_scope s && only_read rest

name_ne :
    (x s : XapiScope)
    → is_read_scope x ≡ true
    → is_read_scope s ≡ false
    → (scope_name x == scope_name s) ≡ false
name_ne statements_write s h g = cc
name_ne all s h g = cc
name_ne state s h g = cc
name_ne define s h g = cc
name_ne activities_profile s h g = cc
name_ne agents_profile s h g = cc
name_ne x statements_read h g = cc
name_ne x statements_read_mine h g = cc
name_ne x all_read h g = cc
name_ne x state_read h g = cc
name_ne x activities_profile_read h g = cc
name_ne x agents_profile_read h g = cc
name_ne x s h g = refl

includes_none :
    (xs : List XapiScope) (s : XapiScope)
    → only_read xs ≡ true
    → is_read_scope s ≡ false
    → includes_scope xs s ≡ false
includes_none [] s h g = refl
includes_none (x ∷ xs) s h g = ground (arith, includes_none xs s, name_ne x s)

-- the resources that are written through the API
pub data IsWritable : String → Type 0 where
  statements : IsWritable "/xapi/statements"
  states : IsWritable "/xapi/activities/state"
  activity_profiles : IsWritable "/xapi/activities/profile"
  agent_profiles : IsWritable "/xapi/agents/profile"

-- A credential whose scopes all name reading alone is refused with 403 on every writable resource,
-- for every method but GET and HEAD.
pub scope_middleware-read_only :
    (path method : String) (auth : AuthInfo)
    → IsWritable path
    → only_read (scopes_of auth) ≡ true
    → is_read method ≡ false
    → scope_middleware path method (some auth) ≡ err (http 403 "Insufficient scope")
unfolding scope_middleware required_scopes has_scope
scope_middleware-read_only _ method auth statements h g =
    rw
      (
        g,
        includes_none (scopes_of auth) statements_write h refl,
        includes_none (scopes_of auth) all h refl,
      )
      refl
scope_middleware-read_only _ method auth states h g =
    rw (g, includes_none (scopes_of auth) state h refl, includes_none (scopes_of auth) all h refl)
      refl
scope_middleware-read_only _ method auth activity_profiles h g =
    rw
      (
        g,
        includes_none (scopes_of auth) activities_profile h refl,
        includes_none (scopes_of auth) define h refl,
        includes_none (scopes_of auth) all h refl,
      )
      refl
scope_middleware-read_only _ method auth agent_profiles h g =
    rw
      (
        g,
        includes_none (scopes_of auth) agents_profile h refl,
        includes_none (scopes_of auth) all h refl,
      )
      refl

-- the name and the home page of an account are not empty
abbrev pub HasNames : AuthInfo → Type 0
HasNames (basic _ account_name _) = account_name ≢ ""
HasNames (jwt sub iss _) = (sub ≢ "") × (iss ≢ "")

-- Where its names are not empty, the agent object by which a `statements/read/mine` caller's
-- queries are filtered has the IFI with which single statements and stream events are compared.
pub canonical_agent_ifi-agent_from_auth :
    (auth : AuthInfo)
    → HasNames auth
    → canonical_agent_ifi (agent_from_auth auth) ≡ ok (agent_ifi_from_auth auth)
unfolding canonical_agent_ifi ifi_count account_of account_ifi agent_from_auth agent_ifi_from_auth
    get prop display
canonical_agent_ifi-agent_from_auth (basic c name s) h = ground (arith, eq_iff name "")
canonical_agent_ifi-agent_from_auth (jwt sub iss s) h = ground (arith, eq_iff sub "", eq_iff iss "")
