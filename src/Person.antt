-- ===== src/Person.antt =====
-- repositories/agents.ts and GET /xapi/agents of routes/agents.ts: the Person object of an agent.
-- The order of the names, which the query leaves open, is that of their first statements here.
pub mod Values
pub mod Laws
use xapi_lrs.Prelude.{
  ℕ, String, Bool, true, false, not, ◌&&◌, ◌||◌, Option, none, some, List, [], ◌∷◌, ◌++◌, ◌==◌,
  contains, concat, keep, map, or_else, starts_with, drop_chars, split_at, if◌then◌else◌,
}
use xapi_lrs.Http.{Result, ok, err, http, other, guard, ◌>>=◌, ◌>>◌}
use xapi_lrs.Json.{
  Json, Fields, null, str, num, bool, arr, obj, end, field, get, prop, truthy, display,
}
use xapi_lrs.Platform.{Platform}
use xapi_lrs.Agent.{parsed_or_400, value_ifi}
use xapi_lrs.Statement.Store.{StatementDb, StatementRow, ActorRow, ActorLink, statement_at}
use xapi_lrs.Statement.Decompose.{read_prop}
use xapi_lrs.Statement.Query.{json_text}

-- `PersonObject`, each property with its values
pub record PersonObject : Type 0 where
  pub name : Option (List Json)
  pub mbox : Option (List Json)
  pub mbox_sha1sum : Option (List Json)
  pub openid : Option (List Json)
  pub account : Option (List Json)

abbrev pub no_properties : PersonObject
no_properties = record {
  name = none;
  mbox = none;
  mbox_sha1sum = none;
  openid = none;
  account = none;
}

-- `if (!list) list = []; list.push(v)`
abbrev pub pushed : Option (List Json) → Json → Option (List Json)
pushed values v = some (or_else values [] ++ v ∷ [])

abbrev pub account_json : String → String → Json
account_json name home_page = obj (field "name" (str name) (field "homePage" (str home_page) end))

-- the account of a text `name@homePage`; a text without `@` adds none
abbrev pub push_account : Option (List Json) → Option (String × String) → Option (List Json)
push_account values none = some (or_else values [])
push_account values (some (name, home_page)) = pushed values (account_json name home_page)

-- the loop's body, on one row of the table actor
unfoldable pub add_ifi : String → PersonObject → PersonObject
add_ifi ifi person =
    if starts_with ifi "mbox::"
    then record person { mbox = pushed person.mbox (str (drop_chars 6 ifi)) }
    else if starts_with ifi "mbox_sha1sum::"
    then record person { mbox_sha1sum = pushed person.mbox_sha1sum (str (drop_chars 14 ifi)) }
    else if starts_with ifi "openid::"
    then record person { openid = pushed person.openid (str (drop_chars 8 ifi)) }
    else if starts_with ifi "account::"
    then record person { account = push_account person.account (split_at b'@' (drop_chars 9 ifi)) }
    else person

unfoldable pub add_rows : List ActorRow → PersonObject → PersonObject
add_rows [] person = person
add_rows (row ∷ rest) person = add_rows rest (add_ifi row.actor_ifi person)

module _ (p : Platform) where
  abbrev pub name_in : Option StatementRow → Option String
  name_in none = none
  name_in (some row) = json_text p (read_prop "name" (get "actor" row.payload))

  -- SELECT DISTINCT
  abbrev pub and_distinct : Option String → List String → List String
  and_distinct none names = names
  and_distinct (some name) names = if contains names name then names else names ++ name ∷ []

  -- the names in the statements that have the agent as their actor
  unfoldable pub actor_names : StatementDb → String → List ActorLink → List String → List String
  actor_names db ifi [] names = names
  actor_names db ifi (link ∷ rest) names = actor_names db ifi rest (
      if link.actor_ifi == ifi && link.usage == "Actor"
      then and_distinct (name_in (statement_at link.statement_id db)) names
      else names)

  abbrev pub with_names : List String → PersonObject → PersonObject
  with_names [] person = person
  with_names (name ∷ rest) person = record person { name = some (map str (name ∷ rest)) }

  abbrev pub person_of : StatementDb → String → List ActorRow → Option PersonObject
  person_of db ifi [] = none
  person_of db ifi (row ∷ rest) = some (
      with_names (actor_names db ifi db.statement_to_actor [])
        (add_rows (row ∷ rest) no_properties))

  -- `getPersonObject`
  unfoldable pub get_person_object : StatementDb → String → Option PersonObject
  get_person_object db ifi = person_of db ifi (keep (λ row. row.actor_ifi == ifi) db.actors)

  -- the values of a property that is truthy
  abbrev pub values_of : String → Fields → Option (List Json)
  values_of key agent = elim (get key agent) [
    | none ↦ none
    | some v ↦ if truthy (some v) then some (v ∷ []) else none
  ]

  -- the person of an agent that no statement names
  abbrev pub unknown_person : Fields → PersonObject
  unknown_person agent = record {
    name = values_of "name" agent;
    mbox = values_of "mbox" agent;
    mbox_sha1sum = values_of "mbox_sha1sum" agent;
    openid = values_of "openid" agent;
    account = values_of "account" agent;
  }

  abbrev pub fields_or_none : Json → Fields
  fields_or_none (obj agent) = agent
  fields_or_none _ = end

  abbrev pub has_identifier : Fields → Bool
  has_identifier agent =
      truthy (get "account" agent)
      || truthy (get "mbox" agent)
      || truthy (get "mbox_sha1sum" agent)
      || truthy (get "openid" agent)

  abbrev pub reject_null : Json → Result (Unit {0})
  reject_null null = err other
  reject_null _ = ok tt

  -- GET /xapi/agents; reading a property of `null` throws, and other values have none of them
  unfoldable pub get_agent : StatementDb → String → Result PersonObject
  get_agent db param = do
    agent ← parsed_or_400 (p.parse_text param)
    reject_null agent
    guard (has_identifier (fields_or_none agent)) 400
        "Agent must have at least one identifying property"
    ifi ← value_ifi agent
    ok (or_else (get_person_object db ifi) (unknown_person (fields_or_none agent)))
