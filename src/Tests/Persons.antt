-- ===== src/Tests/Persons.antt =====
-- The theorem on Person objects, at an account that the tables have.
use xapi_lrs.Prelude.{◌≡◌, refl, some, [], ◌∷◌, split_at}
use xapi_lrs.Http.{ok}
use xapi_lrs.Json.{Fields, obj, str, field, end, get}
use xapi_lrs.Platform.{Platform}
use xapi_lrs.Agent.{agent}
use xapi_lrs.Statement.Store.{StatementDb}
use xapi_lrs.Person.{PersonObject, get_agent}
use xapi_lrs.Person.Values.{Identifier, account, ifi_text, with_values, without_name}
use xapi_lrs.Person.Laws.{person_values, actor_rows, IsAgentOf, get_agent-with_values}
use xapi_lrs.Tests.{test_platform}

abbrev ann : Identifier
ann = account "ann" "https://example.org"

abbrev ann_account : Fields
ann_account = field "homePage" (str "https://example.org") (field "name" (str "ann") end)

-- the agent of the parameter, with its type and its name
abbrev ann_agent : Fields
ann_agent =
    field "objectType" (str "Agent")
      (field "name" (str "Ann") (field "account" (obj ann_account) end))

abbrev agent_platform : Platform
agent_platform = record test_platform { parse_text = λ s. some (obj ann_agent) }

abbrev person_db : StatementDb
person_db = record {
  statements = [];
  actors = record { actor_ifi = ifi_text ann; actor_type = agent; payload = ann_agent } ∷ [];
  activities = [];
  statement_to_actor = [];
  statement_to_activity = [];
  statement_to_statement = [];
}

ann_agent-IsAgentOf : IsAgentOf ann (obj ann_account) ann_agent
unfolding get
ann_agent-IsAgentOf = record {
  has = refl;
  is_value = (ann_account, refl, refl, refl, (λ h. cc), (λ h. cc));
  no_other = (refl, refl, refl);
}

get_agent-with_values_example :
    (person : PersonObject) × (get_agent agent_platform person_db "{}" ≡ ok person)
    × (without_name person
        ≡ with_values ann
            (some (person_values (obj ann_account) ann (actor_rows agent_platform person_db ann))))
unfolding split_at
get_agent-with_values_example =
    get_agent-with_values agent_platform person_db ann (obj ann_account) ann_agent "{}" refl
      ann_agent-IsAgentOf refl
