-- ===== src/Statement/Decompose.antt =====
-- repositories/statement-decomposition.ts: the actors and the activities of a statement.
use xapi_lrs.Prelude.{
  String, Bool, true, false, ◌&&◌, ◌||◌, Option, none, some, List, [], ◌∷◌, ◌++◌, concat, contains,
  if◌then◌else◌,
}
use xapi_lrs.Http.{Result, ok, err, ◌>>=◌}
use xapi_lrs.Json.{Json, Fields, end, field, str, arr, obj, elems, get, put, prop, truthy, is_text}
use xapi_lrs.Platform.{Platform}
use xapi_lrs.Agent.{ActorType, agent, group, agent_actor_type, param_ifi, value_ifi}

abbrev pub type_text : ActorType → String
type_text agent = "Agent"
type_text group = "Group"

pub record ActorEntry : Type 0 where
  pub ifi : String
  pub type : ActorType
  pub usage : String
  pub payload : Fields

pub record ActivityEntry : Type 0 where
  pub iri : Json
  pub usage : String
  pub payload : Json

-- `v?.k`, and `v.k` where `v` is known to be truthy
abbrev pub read_prop : String → Option Json → Option Json
read_prop k (some (obj fs)) = get k fs
read_prop k _ = none

-- the items of an array, and none of any other value
abbrev pub items : Option Json → List Json
items (some (arr vs)) = elems vs
items _ = []

-- `buildPayload`
unfoldable pub build_payload : Fields → String → Fields → Fields
build_payload statement stored authority =
    put "authority" (obj authority) (put "stored" (str stored) statement)

-- `actorPayload`
unfoldable pub actor_payload : Option Json → Fields
actor_payload v = if truthy (read_prop "name" v) then named (read_prop "name" v) else end
  where
    named : Option Json → Fields
    named none = end
    named (some n) = field "name" n end

-- `agentActorType` of a truthy value
abbrev pub type_of : Json → ActorType
type_of (obj fs) = agent_actor_type fs
type_of _ = agent

-- the usage, the IFI and the type, separated by NUL
abbrev pub entry_key : ActorEntry → String
entry_key a = concat a.usage (concat "\0" (concat a.ifi (concat "\0" (type_text a.type))))

-- the filter over the set `seen`
unfoldable pub unseen : List String → List ActorEntry → List ActorEntry
unseen seen [] = []
unseen seen (a ∷ rest) =
    let later = a ∷ unseen (entry_key a ∷ seen) rest in
    let skipped = unseen seen rest in if contains seen (entry_key a) then skipped else later

module _ (p : Platform) where
  -- `canonicalAgentIfi` of any value: a text is parsed first
  abbrev pub any_ifi : Json → Result String
  any_ifi (str s) = param_ifi p s
  any_ifi v = value_ifi v

  abbrev pub entry_of : Result String → ActorType → String → Json → List ActorEntry
  entry_of (ok ifi) type usage v =
      record { ifi = ifi; type = type; usage = usage; payload = actor_payload (some v) } ∷ []
  entry_of (err e) type usage v = []

  -- `tryPush`: an agent without a valid IFI is skipped
  abbrev pub try_push : Json → ActorType → String → List ActorEntry
  try_push v type usage = entry_of (any_ifi v) type usage v

  abbrev pub push_members : List Json → String → List ActorEntry
  push_members [] usage = []
  push_members (m ∷ ms) usage = try_push m agent usage ++ push_members ms usage

  -- `pushWithMembers`: the agent or group, and its members under the same usage
  unfoldable pub push_with_members : Option Json → String → List ActorEntry
  push_with_members none usage = []
  push_with_members (some v) usage =
      if truthy (some v)
      then try_push v (type_of v) usage ++ push_members (items (read_prop "member" (some v))) usage
      else []

  abbrev pub push_each : List Json → String → String → List ActorEntry
  push_each [] key usage = []
  push_each (el ∷ els) key usage =
      push_with_members (read_prop key (some el)) usage ++ push_each els key usage

  -- `pushContextAgentsGroups`
  unfoldable pub push_context_agents_groups : Option Json → String → String → List ActorEntry
  push_context_agents_groups ctx agent_usage group_usage =
      push_each (items (read_prop "contextAgents" ctx)) "agent" agent_usage
      ++ push_each (items (read_prop "contextGroups" ctx)) "group" group_usage

  abbrev pub is_actor : Option Json → Bool
  is_actor o =
      is_text (read_prop "objectType" o) "Agent" || is_text (read_prop "objectType" o) "Group"

  -- the actors of a context, under the usages of its position
  abbrev pub context_actors :
      Option Json → (instructor team agents groups : String) → List ActorEntry
  context_actors ctx instructor team agents groups =
      if truthy ctx
      then push_with_members (read_prop "instructor" ctx) instructor
        ++ (push_with_members (read_prop "team" ctx) team
            ++ push_context_agents_groups ctx agents groups)
      else []

  abbrev pub sub_actors : Option Json → List ActorEntry
  sub_actors o =
      if is_text (read_prop "objectType" o) "SubStatement"
      then push_with_members (read_prop "actor" o) "SubActor"
        ++ ((if is_actor (read_prop "object" o)
              then push_with_members (read_prop "object" o) "SubObject"
              else [])
            ++ context_actors (read_prop "context" o) "SubInstructor" "SubTeam" "SubContextAgent"
                "SubContextGroup")
      else []

  -- the entries in the order in which they are pushed
  unfoldable pub all_actors : Fields → List ActorEntry
  all_actors stmt =
      push_with_members (get "actor" stmt) "Actor"
      ++ ((if is_actor (get "object" stmt)
            then push_with_members (get "object" stmt) "Object"
            else [])
          ++ (push_with_members (get "authority" stmt) "Authority"
              ++ (context_actors (get "context" stmt) "Instructor" "Team" "ContextAgent"
                    "ContextGroup"
                  ++ sub_actors (get "object" stmt))))

  -- `extractActors`
  unfoldable pub extract_actors : Fields → List ActorEntry
  unfolding unseen
  extract_actors stmt = unseen [] (all_actors stmt)

abbrev pub entry_if : Bool → Json → Option Json → String → List ActivityEntry
entry_if true v (some iri) usage = record { iri = iri; usage = usage; payload = v } ∷ []
entry_if _ v _ usage = []

-- the items of one list of a context's activities; `a.id` throws on `null`
unfoldable pub collect_items : List Json → String → Result (List ActivityEntry)
collect_items [] usage = ok []
collect_items (a ∷ rest) usage = do
  id ← prop "id" a
  later ← collect_items rest usage
  ok (entry_if (truthy id) a id usage ++ later)

-- `collectContextActivities`
unfoldable pub collect_context_activities : Option Json → String → Result (List ActivityEntry)
unfolding collect_items
collect_context_activities ctx prefix = do
  let found = read_prop "contextActivities" ctx
  parent ← collect_items (items (read_prop "parent" found)) (concat prefix "Parent")
  grouping ← collect_items (items (read_prop "grouping" found)) (concat prefix "Grouping")
  category ← collect_items (items (read_prop "category" found)) (concat prefix "Category")
  other ← collect_items (items (read_prop "other" found)) (concat prefix "Other")
  ok (parent ++ (grouping ++ (category ++ other)))

-- `(o.objectType ?? 'Activity') === 'Activity'`
abbrev pub is_activity : Option Json → Bool
is_activity none = true
is_activity (some Json.null) = true
is_activity (some (str s)) = is_text (some (str s)) "Activity"
is_activity (some _) = false

abbrev pub activity_object : Option Json → String → List ActivityEntry
activity_object none usage = []
activity_object (some v) usage =
    entry_if
      (truthy (some v)
        && (is_activity (read_prop "objectType" (some v)) && truthy (read_prop "id" (some v))))
      v (read_prop "id" (some v)) usage

-- `extractActivities`
unfoldable pub extract_activities : Fields → Result (List ActivityEntry)
extract_activities stmt = do
  let o = get "object" stmt
  context ← collect_context_activities (get "context" stmt) ""
  sub ←
      (if is_text (read_prop "objectType" o) "SubStatement"
        then collect_context_activities (read_prop "context" o) "Sub"
        else ok [])
  let sub_object =
      if is_text (read_prop "objectType" o) "SubStatement"
      then activity_object (read_prop "object" o) "SubObject"
      else []
  ok (activity_object o "Object" ++ (context ++ (sub_object ++ sub)))
