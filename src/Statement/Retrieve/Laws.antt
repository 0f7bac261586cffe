-- ===== src/Statement/Retrieve/Laws.antt =====
-- What a caller with the scope `statements/read/mine` alone is given.
use xapi_lrs.Prelude.{
  ℕ, String, ◌≡◌, ◌≢◌, refl, ap, subst, Bool, true, false, not, ◌&&◌, Option, none, some, ◌==◌,
  eq_iff, arith, Bool-cases, inl, inr, ◌⊎◌, All,
}
use xapi_lrs.Http.{Result, ok, err, http, other, with_status, >>=-eq-ok, ok-injective}
use xapi_lrs.Json.{Json, obj, get, truthy}
use xapi_lrs.Platform.{Platform}
use xapi_lrs.Agent.{param_ifi, value_ifi}
use xapi_lrs.Auth.{AuthInfo, scopes_of, agent_from_auth, agent_ifi_from_auth, has_only_mine_scope}
use xapi_lrs.Auth.Laws.{HasNames, canonical_agent_ifi-agent_from_auth}
use xapi_lrs.Etag.{present}
use xapi_lrs.Statement.Store.{StatementDb, StatementRow, get_statement_by_id}
use xapi_lrs.Statement.Query.{Limit, agent_filter, query_statements}
use xapi_lrs.Statement.Retrieve.{
  GetRequest, Found, single, page, property_ifi, belongs, actor_belongs,
  assert_statement_belongs_to_agent, retrieve, retrieve_single, retrieve_page, query_of, single_of,
  not_found, same_flag, by_id, own_or_all, restricted, mine_only, or_else_text,
}
use xapi_lrs.Statement.Retrieve.Involved.{Involves, and-intro, query_statements-Involves}

abbrev pub IsMine : Platform → StatementDb → AuthInfo → Found → Type 0
IsMine p db auth (single row) =
    (actor : Json) × (get "actor" row.payload ≡ some actor)
    × (property_ifi p actor ≡ ok (agent_ifi_from_auth auth))
IsMine p db auth (page found) = All (Involves db (agent_ifi_from_auth auth)) found.rows

belongs-ok :
    (p : Platform) (result : Result String) (auth : AuthInfo) (done : Unit {0})
    → belongs p result auth ≡ ok done
    → result ≡ ok (agent_ifi_from_auth auth)
belongs-ok p (ok ifi) auth done h = ground (arith, eq_iff ifi (agent_ifi_from_auth auth))
belongs-ok p (err (http status message)) auth done h = absurd (cc)
belongs-ok p (err (with_status status message)) auth done h = absurd (cc)
belongs-ok p (err other) auth done h = absurd (cc)

actor_belongs-ok :
    (p : Platform) (actor : Option Json) (auth : AuthInfo) (done : Unit {0})
    → actor_belongs p actor auth ≡ ok done
    → (v : Json) × (actor ≡ some v) × (property_ifi p v ≡ ok (agent_ifi_from_auth auth))
actor_belongs-ok p none auth done h = absurd (cc)
actor_belongs-ok p (some v) auth done h = elim (Bool-cases (truthy (some v))) [
  | inl full ↦ (v, refl, belongs-ok p (property_ifi p v) auth done (rw full at h))
  | inr empty ↦ absurd (cc (rw empty at h))
]

not_found-err : (p : Platform) (b : Bool) (found : Found) → not_found p b ≢ ok found
not_found-err p true found h = cc
not_found-err p false found h = cc

module _ (p : Platform) (r : GetRequest) (auth : AuthInfo)
    (mine : has_only_mine_scope (scopes_of auth) ≡ true) where
  single_of-IsMine :
      (want_voided : Bool) (db : StatementDb) (row : Option StatementRow) (found : Found)
      → single_of p want_voided auth row ≡ ok found
      → IsMine p db auth found
  unfolding assert_statement_belongs_to_agent
  single_of-IsMine want_voided db none found h = absurd (not_found-err p want_voided found h)
  single_of-IsMine want_voided db (some row) found h =
      elim (Bool-cases (same_flag p row.is_voided want_voided)) [
        | inl same ↦
            let (done, e, g) = >>=-eq-ok (own_or_all p row.payload auth) _ (rw same at h) in
            subst (IsMine p db auth) (ok-injective g)
              (actor_belongs-ok p (get "actor" row.payload) auth done (rw mine at e))
        | inr apart ↦ absurd (not_found-err p want_voided found (rw apart at h))
      ]

  retrieve_single-IsMine :
      (id : String) (db : StatementDb) (found : Found)
      → retrieve_single p r auth id db ≡ ok found
      → IsMine p db auth found
  unfolding retrieve_single
  retrieve_single-IsMine id db found h =
      let (got, e, g) = >>=-eq-ok (get_statement_by_id p id db) _ h in
      single_of-IsMine (present r.voided_statement_id) db got.0 found g

  page_filter :
      (limit : Option Limit) (d m : ℕ)
      → restricted p r auth ≡ true
      → HasNames auth
      → p.parse_text (p.stringify_text (obj (agent_from_auth auth)))
        ≡ some (obj (agent_from_auth auth))
      → (p.stringify_text (obj (agent_from_auth auth)) == "") ≡ false
      → agent_filter p (query_of p r auth limit d m).agent ≡ ok (some (agent_ifi_from_auth auth))
  unfolding param_ifi value_ifi
  page_filter limit d m only names codec full =
      rw (only, full, codec, canonical_agent_ifi-agent_from_auth auth names) refl

  retrieve_page-IsMine :
      (limit : Option Limit) (d m : ℕ) (db : StatementDb) (found : Found)
      → restricted p r auth ≡ true
      → HasNames auth
      → p.parse_text (p.stringify_text (obj (agent_from_auth auth)))
        ≡ some (obj (agent_from_auth auth))
      → (p.stringify_text (obj (agent_from_auth auth)) == "") ≡ false
      → retrieve_page p r auth limit d m db ≡ ok found
      → IsMine p db auth found
  unfolding retrieve_page
  retrieve_page-IsMine limit d m db found only names codec full h =
      let (rows, e, g) = >>=-eq-ok (query_statements p (query_of p r auth limit d m) db) _ h in
      subst (IsMine p db auth) (ok-injective g) (
        query_statements-Involves p (agent_ifi_from_auth auth) (query_of p r auth limit d m) db
          (rw only refl) rows (page_filter limit d m only names codec full) e)

by_id-cases :
    (p : Platform) (o : Option String) (one_of : String → Result Found) (rest : Result Found)
    (found : Found)
    → by_id p o one_of rest ≡ ok found
    → ((id : String) × (one_of id ≡ ok found)) ⊎ ((present o ≡ false) × (rest ≡ ok found))
by_id-cases p none one_of rest found h = inr (refl, h)
by_id-cases p (some id) one_of rest found h = elim (Bool-cases (id == "")) [
  | inl empty ↦ inr (rw empty refl, rw empty at h)
  | inr named ↦ inl (id, rw named at h)
]

no_ids :
    (a b : Option String)
    → a ≢ some ""
    → present (or_else_text a b) ≡ false
    → (not (present a) && not (present b)) ≡ true
no_ids none b given_id h = rw h refl
no_ids (some id) b given_id h = elim (Bool-cases (id == "")) [
  | inl empty ↦ absurd (given_id (ap some ((eq_iff id "").0 empty)))
  | inr named ↦ absurd (cc (rw named at h))
]

-- A caller whose scopes let it read its own statements alone gets nothing else: one statement whose
-- actor has the caller's IFI, or a page of statements that are not voided and that involve the
-- caller, or refer, at any remove, to a voided statement that does. The parameter `statementId` is
-- assumed not to be an empty text, the caller's account to have names, and its agent object to be
-- printed as a text that is read back as it was.
pub retrieve-IsMine :
    (p : Platform) (r : GetRequest) (auth : AuthInfo) (limit : Option Limit) (d m : ℕ)
    (db : StatementDb) (found : Found)
    → has_only_mine_scope (scopes_of auth) ≡ true
    → r.statement_id ≢ some ""
    → HasNames auth
    → p.parse_text (p.stringify_text (obj (agent_from_auth auth)))
      ≡ some (obj (agent_from_auth auth))
    → (p.stringify_text (obj (agent_from_auth auth)) == "") ≡ false
    → retrieve p r auth limit d m db ≡ ok found
    → IsMine p db auth found
retrieve-IsMine p r auth limit d m db found mine given_id names codec full h =
    elim (by_id-cases p (or_else_text r.statement_id r.voided_statement_id) _
      (retrieve_page p r auth limit d m db) found h) [
        | inl (id, e) ↦ retrieve_single-IsMine p r auth mine id db found e
        | inr (absent, e) ↦
            retrieve_page-IsMine p r auth mine limit d m db found
              (and-intro (mine_only p auth) _ mine
                (no_ids r.statement_id r.voided_statement_id given_id absent))
              names codec full e
      ]
