-- ===== src/Person/Values.antt =====
-- The Person object of the rows of one identifier.
use text.Mathlib.TextLemmas.{cons-append, nil-append}
use text.Mathlib.TextPositions.{starts_with-append}
use mathlib.Core.List.{append_assoc, append-nil}
use mathlib.Core.Option.{some-injective}
use xapi_lrs.Prelude.{
  String, ◌≡◌, refl, sym, ap, ◌∙◌, Option, none, some, List, [], ◌∷◌, ◌++◌, All, concat,
  count_chars, split_at, drop_chars-concat, starts_with-apart, split_at-none, map,
}
use xapi_lrs.Json.{Json, str}
use xapi_lrs.Platform.{Platform}
use xapi_lrs.Statement.Store.{StatementDb, ActorRow}
use xapi_lrs.Person.{
  PersonObject, no_properties, pushed, account_json, push_account, add_ifi, add_rows, with_names,
  actor_names, person_of,
}

-- the four identifiers of an agent
pub data Identifier : Type 0 where
  mailbox mailbox_sha1 open_id : String → Identifier
  account : (name home_page : String) → Identifier

-- the text of the identifier, as `canonicalAgentIfi` writes it
abbrev pub ifi_text : Identifier → String
ifi_text (mailbox s) = concat "mbox::" s
ifi_text (mailbox_sha1 s) = concat "mbox_sha1sum::" s
ifi_text (open_id s) = concat "openid::" s
ifi_text (account name home_page) = concat "account::" (concat name (concat "@" home_page))

abbrev pub identifier_json : Identifier → Json
identifier_json (mailbox s) = str s
identifier_json (mailbox_sha1 s) = str s
identifier_json (open_id s) = str s
identifier_json (account name home_page) = account_json name home_page

-- the person with values of the identifier's property, and with no other property
abbrev pub with_values : Identifier → Option (List Json) → PersonObject
with_values (mailbox s) vs = record no_properties { mbox = vs }
with_values (mailbox_sha1 s) vs = record no_properties { mbox_sha1sum = vs }
with_values (open_id s) vs = record no_properties { openid = vs }
with_values (account name home_page) vs = record no_properties { account = vs }

-- the name of an account has no `@`
abbrev pub HasPlainName : Identifier → Type 0
HasPlainName (account name home_page) = split_at b'@' name ≡ none
HasPlainName _ = Unit

split_account :
    (name home_page : String)
    → split_at b'@' name ≡ none
    → split_at b'@' (concat name (concat "@" home_page)) ≡ some (name, home_page)
split_account name home_page h =
    ap (λ t. split_at b'@' (concat name t))
      (cons-append "@" "" home_page ∙ ap (λ t. String.◌∷◌ "@" t) (nil-append home_page))
    ∙ split_at-none "@" name home_page h

-- what a row of the identifier adds to a person with values of its property
add_ifi-with_values :
    (id : Identifier) (vs : Option (List Json))
    → HasPlainName id
    → add_ifi (ifi_text id) (with_values id vs) ≡ with_values id (pushed vs (identifier_json id))
unfolding add_ifi count_chars
add_ifi-with_values (mailbox s) vs h =
    rw (starts_with-append "mbox::" s)
      (ap (λ t. with_values (mailbox s) (pushed vs (str t))) (drop_chars-concat "mbox::" s))
add_ifi-with_values (mailbox_sha1 s) vs h =
    rw
      (
        starts_with-apart "mbox" ":" "_" ":" "sha1sum::" s refl,
        starts_with-append "mbox_sha1sum::" s,
      )
      (ap (λ t. with_values (mailbox_sha1 s) (pushed vs (str t)))
        (drop_chars-concat "mbox_sha1sum::" s))
add_ifi-with_values (open_id s) vs h =
    rw
      (
        starts_with-apart "" "m" "o" "box::" "penid::" s refl,
        starts_with-apart "" "m" "o" "box_sha1sum::" "penid::" s refl,
        starts_with-append "openid::" s,
      )
      (ap (λ t. with_values (open_id s) (pushed vs (str t))) (drop_chars-concat "openid::" s))
add_ifi-with_values (account name home_page) vs h =
    let rest = concat name (concat "@" home_page) in
    rw
      (
        starts_with-apart "" "m" "a" "box::" "ccount::" rest refl,
        starts_with-apart "" "m" "a" "box_sha1sum::" "ccount::" rest refl,
        starts_with-apart "" "o" "a" "penid::" "ccount::" rest refl,
        starts_with-append "account::" rest,
      )
      (ap (λ t. record no_properties { account = push_account vs (split_at b'@' t) })
          (drop_chars-concat "account::" rest)
        ∙ ap (λ cut. record no_properties { account = push_account vs cut })
            (split_account name home_page h))

with_values-none : (id : Identifier) → no_properties ≡ with_values id none
with_values-none (mailbox s) = refl
with_values-none (mailbox_sha1 s) = refl
with_values-none (open_id s) = refl
with_values-none (account name home_page) = refl

-- one value for each row
abbrev pub values_for : Identifier → List ActorRow → List Json
values_for id rows = map (λ row. identifier_json id) rows

add_rows-with_values :
    (id : Identifier) (rows : List ActorRow) (vs : List Json)
    → HasPlainName id
    → All (λ row. row.actor_ifi ≡ ifi_text id) rows
    → add_rows rows (with_values id (some vs)) ≡ with_values id (some (vs ++ values_for id rows))
unfolding add_rows
add_rows-with_values id [] vs h same = ap (λ ws. with_values id (some ws)) (sym (append-nil vs))
add_rows-with_values id (row ∷ rows) vs h (here, later) =
    ap (λ ifi. add_rows rows (add_ifi ifi (with_values id (some vs)))) here
    ∙ ap (add_rows rows) (add_ifi-with_values id (some vs) h)
    ∙ add_rows-with_values id rows (vs ++ identifier_json id ∷ []) h later
    ∙ ap (λ ws. with_values id (some ws))
        (append_assoc vs (identifier_json id ∷ []) (values_for id rows))

-- the rows of an identifier, of which there is one
rows-with_values :
    (id : Identifier) (row : ActorRow) (rest : List ActorRow)
    → HasPlainName id
    → All (λ row. row.actor_ifi ≡ ifi_text id) (row ∷ rest)
    → add_rows (row ∷ rest) no_properties ≡ with_values id (some (values_for id (row ∷ rest)))
unfolding add_rows
rows-with_values id row rest plain (here, later) =
    ap (λ person. add_rows rest (add_ifi row.actor_ifi person)) (with_values-none id)
    ∙ ap (λ ifi. add_rows rest (add_ifi ifi (with_values id none))) here
    ∙ ap (add_rows rest) (add_ifi-with_values id none plain)
    ∙ add_rows-with_values id rest (identifier_json id ∷ []) plain later

abbrev pub without_name : PersonObject → PersonObject
without_name person = record person { name = none }

module _ (p : Platform) where
  without_name-with_names :
      (names : List String) (id : Identifier) (vs : Option (List Json))
      → without_name (with_names p names (with_values id vs)) ≡ with_values id vs
  without_name-with_names [] (mailbox s) vs = refl
  without_name-with_names [] (mailbox_sha1 s) vs = refl
  without_name-with_names [] (open_id s) vs = refl
  without_name-with_names [] (account name home_page) vs = refl
  without_name-with_names (n ∷ names) (mailbox s) vs = refl
  without_name-with_names (n ∷ names) (mailbox_sha1 s) vs = refl
  without_name-with_names (n ∷ names) (open_id s) vs = refl
  without_name-with_names (n ∷ names) (account name home_page) vs = refl

  pub person_of-with_values :
      (db : StatementDb) (id : Identifier) (rows : List ActorRow) {person : PersonObject}
      → HasPlainName id
      → All (λ row. row.actor_ifi ≡ ifi_text id) rows
      → person_of p db (ifi_text id) rows ≡ some person
      → without_name person ≡ with_values id (some (values_for id rows))
  person_of-with_values db id [] plain same h = cc
  person_of-with_values db id (row ∷ rest) plain (here, later) h =
      let names = actor_names p db (ifi_text id) db.statement_to_actor [] in
      ap without_name (sym (some-injective _ _ h))
      ∙ ap (λ q. without_name (with_names p names q))
          (rows-with_values id row rest plain (here, later))
      ∙ without_name-with_names names id (some (values_for id (row ∷ rest)))
