-- ===== src/Agent.antt =====
-- helpers/agent.ts: the canonical inverse functional identifier (IFI) of an agent, and the checks
-- of the `since` and `registration` parameters.
use xapi_lrs.Prelude.{
  ℕ, ◌+◌, String, Bool, not, ◌&&◌, Option, none, some, ◌==◌, concat, is_uuid, is_some, ◌=ℕ◌,
  if◌then◌else◌,
}
use xapi_lrs.Http.{Result, ok, err, http, other, guard, ◌>>=◌, ◌>>◌}
use xapi_lrs.Json.{Json, obj, Fields, get, prop, truthy, is_text, display_option}
use xapi_lrs.Platform.{Platform}

abbrev pub one_if : Bool → ℕ
one_if b = if b then 1 else 0

unfoldable pub ifi_count : Fields → ℕ
ifi_count agent =
    one_if (truthy (get "mbox" agent))
    + one_if (truthy (get "mbox_sha1sum" agent))
    + one_if (truthy (get "openid" agent))
    + one_if (truthy (get "account" agent))

-- `account::${account.name}@${account.homePage}`
unfoldable pub account_ifi : Option Json → Option Json → String
account_ifi name home_page =
    concat "account::" (concat (display_option name) (concat "@" (display_option home_page)))

unfoldable pub account_of : Option Json → Result String
unfolding account_ifi
account_of none = err other
account_of (some account) = do
  home_page ← prop "homePage" account
  name ← prop "name" account
  guard (truthy home_page && truthy name) 400 "Agent account must have both homePage and name"
  ok (account_ifi name home_page)

-- `canonicalAgentIfi` of an object
unfoldable pub canonical_agent_ifi : Fields → Result String
unfolding ifi_count
canonical_agent_ifi agent =
    if not (ifi_count agent =ℕ 1)
    then err (http 400 "Agent must have exactly one IFI (mbox, mbox_sha1sum, openid, or account)")
    else if truthy (get "mbox" agent)
    then ok (concat "mbox::" (display_option (get "mbox" agent)))
    else if truthy (get "mbox_sha1sum" agent)
    then ok (concat "mbox_sha1sum::" (display_option (get "mbox_sha1sum" agent)))
    else if truthy (get "openid" agent)
    then ok (concat "openid::" (display_option (get "openid" agent)))
    else account_of (get "account" agent)

-- an agent of any JSON value: the reads of `mbox` throw on `null`, and find nothing on the values
-- that are no objects
unfoldable pub value_ifi : Json → Result String
value_ifi Json.null = err other
value_ifi (obj agent) = canonical_agent_ifi agent
value_ifi _ = canonical_agent_ifi Fields.end

abbrev pub parsed_or_400 : Option Json → Result Json
parsed_or_400 none = err (http 400 "Agent parameter is not valid JSON")
parsed_or_400 (some v) = ok v

-- `canonicalAgentIfi` of a query parameter
unfoldable pub param_ifi : Platform → String → Result String
unfolding value_ifi
param_ifi p agent = do v ← parsed_or_400 (p.parse_text agent); value_ifi v

pub data ActorType : Type 0 where
  agent group : ActorType

-- `agentActorType`
unfoldable pub agent_actor_type : Fields → ActorType
agent_actor_type o = if is_text (get "objectType" o) "Group" then group else agent

-- `validateSince`; an empty text passes, as a missing one does
unfoldable pub validate_since : Platform → Option String → Result (Unit {0})
validate_since p none = ok tt
validate_since p (some since) =
    if since == ""
    then ok tt
    else guard (is_some (p.js_date since)) 400 "since parameter is not a valid ISO 8601 timestamp"

-- `validateRegistration`
unfoldable pub validate_registration : Option String → Result (Unit {0})
validate_registration none = ok tt
validate_registration (some registration) =
    if registration == ""
    then ok tt
    else guard (is_uuid registration) 400 "registration parameter is not a valid UUID"
