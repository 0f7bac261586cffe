-- ===== src/Stream/Events/Laws.antt =====
-- What a caller with the scope `statements/read/mine` alone is sent.
use xapi_lrs.Prelude.{
  String, ◌≡◌, refl, sym, ap, subst, true, false, Option, none, some, ◌==◌, eq_iff, Bool-cases, inl,
  inr, concat, starts_with,
}
use text.Mathlib.TextPositions.{starts_with-append}
use xapi_lrs.Http.{Result, ok, err, >>=-eq-ok, ok-injective}
use xapi_lrs.Json.{Json, get, prop, truthy}
use xapi_lrs.Platform.{Platform}
use xapi_lrs.Auth.{AuthInfo, basic, jwt, scopes_of, agent_ifi_from_auth, has_only_mine_scope}
use xapi_lrs.Statement.Store.{StatementDb, StatementRow, statement_at, get_statement_by_id, as_uuid}
use xapi_lrs.Statement.Retrieve.{property_ifi}
use xapi_lrs.Stream.Events.{
  StoredEvent, build_statement_event, handle_notification, sent_if, is_from, is_ifi, event_of,
  event_if, parsed_payload,
}

module _ (p : Platform) where
  is_ifi-ok : (r : Result String) (own : String) → is_ifi p r own ≡ true → r ≡ ok own
  is_ifi-ok (ok ifi) own h = ap ok ((eq_iff ifi own).0 h)
  is_ifi-ok (err e) own h = absurd (cc)

  is_from-actor :
      (actor : Option Json) (own : String)
      → is_from p actor own ≡ true
      → (v : Json) × (actor ≡ some v) × (property_ifi p v ≡ ok own)
  is_from-actor none own h = absurd (cc)
  is_from-actor (some v) own h = elim (Bool-cases (truthy (some v))) [
    | inl full ↦ (v, refl, is_ifi-ok (property_ifi p v) own (rw full at h))
    | inr empty ↦ absurd (cc (rw empty at h))
  ]

  sent_if-passes :
      (own : String) (built : Result (Option StoredEvent)) (event : StoredEvent)
      → (own == "") ≡ false
      → sent_if p (some own) built ≡ some event
      → (built ≡ ok (some event)) × (is_from p (get "actor" event.statement) own ≡ true)
  sent_if-passes own (err e) event full h = absurd (cc)
  sent_if-passes own (ok none) event full h = absurd (cc)
  sent_if-passes own (ok (some built)) event full h =
      elim (Bool-cases (is_from p (get "actor" built.statement) own)) [
        | inl own_event ↦
            let same : built ≡ event = cc (rw (full, own_event) at h) in
            (
              ap (λ (x : StoredEvent). ok (some x)) same,
              subst (λ (x : StoredEvent). is_from p (get "actor" x.statement) own ≡ true) same
                  own_event,
            )
        | inr foreign ↦ absurd (cc (rw (full, foreign) at h))
      ]

  event_if-stored :
      (id : String) (db : StatementDb) (seq registration session iri : Option Json)
      (found : Option StatementRow) (event : StoredEvent)
      → statement_at id db ≡ found
      → event_if seq registration session iri found ≡ some event
      → (i : String) × (row : StatementRow) × (statement_at i db ≡ some row)
        × (event.id ≡ row.statement_id)
        × (event.statement ≡ row.payload)
  event_if-stored id db seq registration session iri none event e h = absurd (cc)
  event_if-stored id db seq registration session iri (some row) event e h =
      let same : event_of seq registration session iri row ≡ event = cc in
      (
        id,
        row,
        e,
        sym (ap (λ (x : StoredEvent). x.id) same),
        sym (ap (λ (x : StoredEvent). x.statement) same),
      )

  build_statement_event-stored :
      (payload : String) (db : StatementDb) (event : StoredEvent)
      → build_statement_event p payload db ≡ ok (some event)
      → (id : String) × (row : StatementRow) × (statement_at id db ≡ some row)
        × (event.id ≡ row.statement_id)
        × (event.statement ≡ row.payload)
  unfolding build_statement_event get_statement_by_id
  build_statement_event-stored payload db event h =
      let (v, e₁, h₁) = >>=-eq-ok (parsed_payload (p.parse_text payload)) _ h in
      let (a, e₂, h₂) = >>=-eq-ok (prop "statement_id" v) _ h₁ in
      let (b, e₃, h₃) = >>=-eq-ok (prop "id" v) _ h₂ in
      let (found, e₄, h₄) = >>=-eq-ok _ _ h₃ in
      let (seq, e₅, h₅) = >>=-eq-ok (prop "seq" v) _ h₄ in
      let (registration, e₆, h₆) = >>=-eq-ok (prop "registration_id" v) _ h₅ in
      let (session, e₇, h₇) = >>=-eq-ok (prop "session_id" v) _ h₆ in
      let (iri, e₈, h₈) = >>=-eq-ok (prop "verb_iri" v) _ h₇ in
      let (id, e₉, h₉) = >>=-eq-ok (as_uuid p _) _ e₄ in
      event_if-stored id db seq registration session iri found.0 event
        (ap (λ (x : Option StatementRow × StatementDb). x.0) (ok-injective h₉)) (ok-injective h₈)

account-full : (t : String) → (concat "account::" t == "") ≡ false
account-full t = elim (Bool-cases (concat "account::" t == "")) [
  | inl empty ↦ absurd (
      cc (
        subst (λ s. starts_with s "account::" ≡ true) ((eq_iff (concat "account::" t) "").0 empty)
          (starts_with-append "account::" t)))
  | inr full ↦ full
]

agent_ifi_from_auth-full : (auth : AuthInfo) → (agent_ifi_from_auth auth == "") ≡ false
unfolding agent_ifi_from_auth
agent_ifi_from_auth-full (basic c name s) = account-full _
agent_ifi_from_auth-full (jwt sub iss s) = account-full _

-- An event that is sent to a caller whose scopes let it read its own statements alone is that of a
-- stored statement whose actor has the caller's IFI.
pub handle_notification-own :
    (p : Platform) (auth : AuthInfo) (payload : String) (db : StatementDb) (event : StoredEvent)
    → has_only_mine_scope (scopes_of auth) ≡ true
    → handle_notification p (some auth) payload db ≡ some event
    → ((id : String) × (row : StatementRow) × (statement_at id db ≡ some row)
        × (event.id ≡ row.statement_id)
        × (event.statement ≡ row.payload))
      × ((actor : Json) × (get "actor" event.statement ≡ some actor)
          × (property_ifi p actor ≡ ok (agent_ifi_from_auth auth)))
unfolding handle_notification
handle_notification-own p auth payload db event mine h =
    let own = agent_ifi_from_auth auth in
    let (built, from) =
      sent_if-passes p own (build_statement_event p payload db) event
        (agent_ifi_from_auth-full auth) (rw mine at h) in
    (
      build_statement_event-stored p payload db event built,
      is_from-actor p (get "actor" event.statement) own from,
    )
