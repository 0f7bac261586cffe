-- ===== src/Person/Laws.antt =====
-- The identifier of a Person object is that of the agent that was asked for.
use xapi_lrs.Prelude.{
  String, ◌≡◌, ◌≢◌, refl, sym, ap, ◌∙◌, true, false, none, some, List, [], ◌∷◌, ◌==◌, eq_iff, arith,
  All, keep, or_else, keep-All, Option-cases, inl, inr,
}
use xapi_lrs.Http.{ok}
use xapi_lrs.Json.{Json, Fields, str, obj, get, prop, display, truthy}
use xapi_lrs.Agent.{canonical_agent_ifi, value_ifi, ifi_count, account_of, account_ifi}
use xapi_lrs.Platform.{Platform}
use xapi_lrs.Statement.Store.{StatementDb, ActorRow}
use xapi_lrs.Person.{
  PersonObject, person_of, get_person_object, unknown_person, has_identifier, get_agent, values_of,
}
use xapi_lrs.Person.Values.{
  Identifier, mailbox, mailbox_sha1, open_id, account, ifi_text, with_values, HasPlainName,
  values_for, without_name, person_of-with_values,
}

-- the property of an agent that has the identifier
abbrev pub property : Identifier → String
property (mailbox s) = "mbox"
property (mailbox_sha1 s) = "mbox_sha1sum"
property (open_id s) = "openid"
property (account name home_page) = "account"

-- the value is the identifier, whose texts are not empty; an account may have more properties
abbrev pub IsValue : Identifier → Json → Type 0
IsValue (mailbox s) own = (own ≡ str s) × (s ≢ "")
IsValue (mailbox_sha1 s) own = (own ≡ str s) × (s ≢ "")
IsValue (open_id s) own = (own ≡ str s) × (s ≢ "")
IsValue (account name home_page) own =
    (fields : Fields) × (own ≡ obj fields)
    × (get "name" fields ≡ some (str name))
    × (get "homePage" fields ≡ some (str home_page))
    × (name ≢ "")
    × (home_page ≢ "")

abbrev pub HasNo : String → Fields → Type 0
HasNo key agent = truthy (get key agent) ≡ false

-- the agent has no other of the four identifiers
abbrev pub HasNoOther : Identifier → Fields → Type 0
HasNoOther (mailbox s) a = HasNo "mbox_sha1sum" a × HasNo "openid" a × HasNo "account" a
HasNoOther (mailbox_sha1 s) a = HasNo "mbox" a × HasNo "openid" a × HasNo "account" a
HasNoOther (open_id s) a = HasNo "mbox" a × HasNo "mbox_sha1sum" a × HasNo "account" a
HasNoOther (account n h) a = HasNo "mbox" a × HasNo "mbox_sha1sum" a × HasNo "openid" a

-- an agent object with the identifier, whatever its other properties are
pub record IsAgentOf (id : Identifier) (own : Json) (agent : Fields) : Type 0 where
  pub has : get (property id) agent ≡ some own
  pub is_value : IsValue id own
  pub no_other : HasNoOther id agent

not_empty : (s : String) → s ≢ "" → (s == "") ≡ false
not_empty s h = ground (arith, eq_iff s "")

account_of-texts :
    (name home_page : String) (fields : Fields)
    → get "name" fields ≡ some (str name)
    → get "homePage" fields ≡ some (str home_page)
    → (name == "") ≡ false
    → (home_page == "") ≡ false
    → account_of (some (obj fields)) ≡ ok (ifi_text (account name home_page))
unfolding account_of account_ifi prop display
account_of-texts name home_page fields n h named paged = rw (n, h, named, paged) refl

canonical_agent_ifi-ifi_text :
    (id : Identifier) (own : Json) (agent : Fields)
    → IsAgentOf id own agent
    → canonical_agent_ifi agent ≡ ok (ifi_text id)
unfolding canonical_agent_ifi ifi_count display
canonical_agent_ifi-ifi_text (mailbox s) own agent a =
    let (e, ne) = a.is_value in
    let (x, y, z) = a.no_other in rw (a.has, e, not_empty s ne, x, y, z) refl
canonical_agent_ifi-ifi_text (mailbox_sha1 s) own agent a =
    let (e, ne) = a.is_value in
    let (x, y, z) = a.no_other in rw (a.has, e, not_empty s ne, x, y, z) refl
canonical_agent_ifi-ifi_text (open_id s) own agent a =
    let (e, ne) = a.is_value in
    let (x, y, z) = a.no_other in rw (a.has, e, not_empty s ne, x, y, z) refl
canonical_agent_ifi-ifi_text (account name home_page) own agent a =
    let (fields, e, n, h, named, paged) = a.is_value in
    let (x, y, z) = a.no_other in
    rw (a.has, e, x, y, z)
      (account_of-texts name home_page fields n h (not_empty name named)
        (not_empty home_page paged))

-- the values that a person has: one for each row, or the agent's own where there is no row
abbrev pub person_values : Json → Identifier → List ActorRow → List Json
person_values own id [] = own ∷ []
person_values own id rows = values_for id rows

module _ (p : Platform) (db : StatementDb) where
  abbrev pub actor_rows : Identifier → List ActorRow
  actor_rows id = keep (λ row. row.actor_ifi == ifi_text id) db.actors

  own_truthy : (id : Identifier) (own : Json) → IsValue id own → truthy (some own) ≡ true
  own_truthy (mailbox s) own (e, ne) = rw (e, not_empty s ne) refl
  own_truthy (mailbox_sha1 s) own (e, ne) = rw (e, not_empty s ne) refl
  own_truthy (open_id s) own (e, ne) = rw (e, not_empty s ne) refl
  own_truthy (account name home_page) own (fields, e, n, h, named, paged) = rw e refl

  has_identifier-IsAgentOf :
      (id : Identifier) (own : Json) (agent : Fields)
      → IsAgentOf id own agent
      → has_identifier p agent ≡ true
  has_identifier-IsAgentOf (mailbox s) own agent a =
      let t = own_truthy (mailbox s) own a.is_value in
      let (x, y, z) = a.no_other in rw (a.has, t, z) refl
  has_identifier-IsAgentOf (mailbox_sha1 s) own agent a =
      let t = own_truthy (mailbox_sha1 s) own a.is_value in
      let (x, y, z) = a.no_other in rw (a.has, t, x, z) refl
  has_identifier-IsAgentOf (open_id s) own agent a =
      let t = own_truthy (open_id s) own a.is_value in
      let (x, y, z) = a.no_other in rw (a.has, t, x, y, z) refl
  has_identifier-IsAgentOf (account name home_page) own agent a =
      let t = own_truthy (account name home_page) own a.is_value in rw (a.has, t) refl

  values_of-some :
      (key : String) (own : Json) (agent : Fields)
      → get key agent ≡ some own
      → truthy (some own) ≡ true
      → values_of p key agent ≡ some (own ∷ [])
  values_of-some key own agent e t = rw (e, values_of, t) refl

  values_of-HasNo : (key : String) (agent : Fields) → HasNo key agent → values_of p key agent ≡ none
  values_of-HasNo key agent h = elim (Option-cases (get key agent)) [
    | inl missing ↦ rw (missing, values_of) refl
    | inr (v, e) ↦ rw (e, values_of, sym (ap truthy e) ∙ h) refl
  ]

  unknown_person-with_values :
      (id : Identifier) (own : Json) (agent : Fields)
      → IsAgentOf id own agent
      → without_name (unknown_person p agent) ≡ with_values id (some (own ∷ []))
  unknown_person-with_values (mailbox s) own agent a =
      let t = own_truthy (mailbox s) own a.is_value in
      let (x, y, z) = a.no_other in
      λ i. record {
        name = none;
        mbox = values_of-some "mbox" own agent a.has t i;
        mbox_sha1sum = values_of-HasNo "mbox_sha1sum" agent x i;
        openid = values_of-HasNo "openid" agent y i;
        account = values_of-HasNo "account" agent z i;
      }
  unknown_person-with_values (mailbox_sha1 s) own agent a =
      let t = own_truthy (mailbox_sha1 s) own a.is_value in
      let (x, y, z) = a.no_other in
      λ i. record {
        name = none;
        mbox = values_of-HasNo "mbox" agent x i;
        mbox_sha1sum = values_of-some "mbox_sha1sum" own agent a.has t i;
        openid = values_of-HasNo "openid" agent y i;
        account = values_of-HasNo "account" agent z i;
      }
  unknown_person-with_values (open_id s) own agent a =
      let t = own_truthy (open_id s) own a.is_value in
      let (x, y, z) = a.no_other in
      λ i. record {
        name = none;
        mbox = values_of-HasNo "mbox" agent x i;
        mbox_sha1sum = values_of-HasNo "mbox_sha1sum" agent y i;
        openid = values_of-some "openid" own agent a.has t i;
        account = values_of-HasNo "account" agent z i;
      }
  unknown_person-with_values (account name home_page) own agent a =
      let t = own_truthy (account name home_page) own a.is_value in
      let (x, y, z) = a.no_other in
      λ i. record {
        name = none;
        mbox = values_of-HasNo "mbox" agent x i;
        mbox_sha1sum = values_of-HasNo "mbox_sha1sum" agent y i;
        openid = values_of-HasNo "openid" agent z i;
        account = values_of-some "account" own agent a.has t i;
      }

  person_or_unknown :
      (id : Identifier) (own : Json) (agent : Fields) (rows : List ActorRow)
      → HasPlainName id
      → IsAgentOf id own agent
      → All (λ row. row.actor_ifi ≡ ifi_text id) rows
      → without_name (or_else (person_of p db (ifi_text id) rows) (unknown_person p agent))
        ≡ with_values id (some (person_values own id rows))
  person_or_unknown id own agent [] plain a same = unknown_person-with_values id own agent a
  person_or_unknown id own agent (row ∷ rest) plain a same =
      person_of-with_values p db id (row ∷ rest) plain same refl

  -- GET /xapi/agents, of an agent object with one identifier and whatever other properties, answers
  -- with a Person that, but for its names, has the agent's identifier, once for each of the agent's
  -- rows, or as the parameter has it where the agent has no row, and no other identifier. The texts
  -- of the identifier are not empty, and the name of an account has no `@`.
  pub get_agent-with_values :
      (id : Identifier) (own : Json) (agent : Fields) (param : String)
      → p.parse_text param ≡ some (obj agent)
      → IsAgentOf id own agent
      → HasPlainName id
      → (person : PersonObject) × (get_agent p db param ≡ ok person)
        × (without_name person ≡ with_values id (some (person_values own id (actor_rows id))))
  unfolding get_agent get_person_object value_ifi
  get_agent-with_values id own agent param at a plain = (
    or_else (person_of p db (ifi_text id) (actor_rows id)) (unknown_person p agent),
    rw (at, has_identifier-IsAgentOf id own agent a, canonical_agent_ifi-ifi_text id own agent a)
        refl,
    person_or_unknown id own agent (actor_rows id) plain a (
        keep-All _ (λ row. row.actor_ifi == ifi_text id) (λ row same. (eq_iff _ _).0 same)
          db.actors),
  )
