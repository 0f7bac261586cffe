-- ===== src/Statement/Retrieve/More/Lookup.antt =====
-- What each parameter of the `more` link is read back as.
use xapi_lrs.Prelude.{
  ℕ, String, ◌≡◌, refl, Bool, true, false, Option, none, some, List, [], ◌∷◌, ◌++◌, ◌==◌,
  Bool-cases, inl, inr, if◌then◌else◌,
}
use xapi_lrs.Statement.Retrieve.{GetRequest, format_of, is_true, or_else_text}
use xapi_lrs.Statement.Retrieve.Answer.{more_params, if_present, if_true, limit_text}
use xapi_lrs.Platform.{Platform}
use xapi_lrs.Statement.Retrieve.More.{lookup, clean, flag}

if_same : (b : Bool) (o : Option String) → o ≡ (if b then o else o)
if_same true o = refl
if_same false o = refl

lookup-append :
    (k : String) (xs ys : List (String × String))
    → lookup k (xs ++ ys) ≡ or_else_text (lookup k xs) (lookup k ys)
unfolding lookup
lookup-append k [] ys = refl
lookup-append k ((j, v) ∷ xs) ys = elim (Bool-cases (j == k)) [
  | inl same ↦ rw same refl
  | inr apart ↦ rw apart (lookup-append k xs ys)
]

lookup-if_present :
    (p : Platform) (k j : String) (o : Option String)
    → lookup k (if_present p j o) ≡ (if j == k then clean o else none)
unfolding lookup
lookup-if_present p k j none = if_same (j == k) none
lookup-if_present p k j (some s) = elim (Bool-cases (s == "")) [
  | inl empty ↦ rw empty (if_same (j == k) none)
  | inr full ↦ rw full refl
]

lookup-if_true :
    (p : Platform) (k j : String) (b : Bool)
    → lookup k (if_true p j b) ≡ (if j == k then if b then some "true" else none else none)
unfolding lookup
lookup-if_true p k j true = refl
lookup-if_true p k j false = if_same (j == k) none

or_else_text-none : (o : Option String) → or_else_text o none ≡ o
or_else_text-none none = refl
or_else_text-none (some s) = refl

-- the parameters whose presence depends on the format and on the order
abbrev format_params : GetRequest → List (String × String)
format_params r = if format_of r.format == "exact" then [] else ("format", format_of r.format) ∷ []

lookup-format :
    (k : String) (r : GetRequest) → ("format" == k) ≡ false → lookup k (format_params r) ≡ none
unfolding lookup
lookup-format k r h = elim (Bool-cases (format_of r.format == "exact")) [
  | inl exact ↦ rw exact refl
  | inr other ↦ rw (other, h) refl
]

abbrev end_params : Platform → GetRequest → List (String × String)
end_params p r =
    if is_true r.ascending
    then ("ascending", "true") ∷ if_present p "until" r.until
    else if_present p "since" r.since

lookup-cursor :
    (k v : String) (rest : List (String × String))
    → lookup k (("_cursor", v) ∷ rest) ≡ (if "_cursor" == k then some v else lookup k rest)
unfolding lookup
lookup-cursor k v rest = refl

lookup-end :
    (p : Platform) (k : String) (r : GetRequest)
    → ("ascending" == k) ≡ false
    → ("until" == k) ≡ false
    → ("since" == k) ≡ false
    → lookup k (end_params p r) ≡ none
unfolding lookup
lookup-end p k r a u s = elim (Bool-cases (is_true r.ascending)) [
  | inl up ↦ rw (up, a, lookup-if_present p k "until" r.until, u) refl
  | inr down ↦ rw (down, lookup-if_present p k "since" r.since, s) refl
]

ruleset lookups =
    (lookup-append, lookup-if_present, lookup-if_true, lookup-cursor, or_else_text-none)

module _ (p : Platform) (r : GetRequest) (id : ℕ) where
  pub lookup-agent : lookup "agent" (more_params p r id) ≡ clean r.agent
  unfolding more_params
  lookup-agent = simp (lookups, lookup-format "agent" r refl, lookup-end p "agent" r refl refl refl)

  pub lookup-verb : lookup "verb" (more_params p r id) ≡ clean r.verb
  unfolding more_params
  lookup-verb = simp (lookups, lookup-format "verb" r refl, lookup-end p "verb" r refl refl refl)

  pub lookup-activity : lookup "activity" (more_params p r id) ≡ clean r.activity
  unfolding more_params
  lookup-activity =
      simp (lookups, lookup-format "activity" r refl, lookup-end p "activity" r refl refl refl)

  pub lookup-registration : lookup "registration" (more_params p r id) ≡ clean r.registration
  unfolding more_params
  lookup-registration =
      simp
        (lookups, lookup-format "registration" r refl, lookup-end p "registration" r refl refl refl)

  pub lookup-related_activities :
      lookup "related_activities" (more_params p r id) ≡ flag (is_true r.related_activities)
  unfolding more_params
  lookup-related_activities = simp (
    lookups,
    lookup-format "related_activities" r refl,
    lookup-end p "related_activities" r refl refl refl,
  )

  pub lookup-related_agents :
      lookup "related_agents" (more_params p r id) ≡ flag (is_true r.related_agents)
  unfolding more_params
  lookup-related_agents = simp (
    lookups,
    lookup-format "related_agents" r refl,
    lookup-end p "related_agents" r refl refl refl,
  )

  pub lookup_cursor : lookup "_cursor" (more_params p r id) ≡ some (p.uuid_text id)
  unfolding more_params
  lookup_cursor = simp (lookups, lookup-format "_cursor" r refl)

  pub lookup-statement_id : lookup "statementId" (more_params p r id) ≡ none
  unfolding more_params
  lookup-statement_id =
      simp
        (lookups, lookup-format "statementId" r refl, lookup-end p "statementId" r refl refl refl)

  pub lookup-voided_statement_id : lookup "voidedStatementId" (more_params p r id) ≡ none
  unfolding more_params
  lookup-voided_statement_id = simp (
    lookups,
    lookup-format "voidedStatementId" r refl,
    lookup-end p "voidedStatementId" r refl refl refl,
  )

  pub lookup-limit : lookup "limit" (more_params p r id) ≡ clean (limit_text p r.limit)
  unfolding more_params
  lookup-limit = simp (lookups, lookup-format "limit" r refl, lookup-end p "limit" r refl refl refl)

  pub lookup_end-ascending : lookup "ascending" (end_params p r) ≡ flag (is_true r.ascending)
  unfolding lookup
  lookup_end-ascending = elim (Bool-cases (is_true r.ascending)) [
    | inl up ↦ rw up refl
    | inr down ↦ rw down (lookup-if_present p "ascending" "since" r.since)
  ]

  pub lookup_end-since :
      lookup "since" (end_params p r) ≡ (if is_true r.ascending then none else clean r.since)
  unfolding lookup
  lookup_end-since = elim (Bool-cases (is_true r.ascending)) [
    | inl up ↦ rw up (lookup-if_present p "since" "until" r.until)
    | inr down ↦ rw down (lookup-if_present p "since" "since" r.since)
  ]

  pub lookup_end-until :
      lookup "until" (end_params p r) ≡ (if is_true r.ascending then clean r.until else none)
  unfolding lookup
  lookup_end-until = elim (Bool-cases (is_true r.ascending)) [
    | inl up ↦ rw up (lookup-if_present p "until" "until" r.until)
    | inr down ↦ rw down (lookup-if_present p "until" "since" r.since)
  ]

  pub lookup-ascending : lookup "ascending" (more_params p r id) ≡ (flag (is_true r.ascending))
  unfolding more_params
  lookup-ascending = simp (lookups, lookup-format "ascending" r refl, lookup_end-ascending)

  pub lookup-since :
      lookup "since" (more_params p r id) ≡ (if is_true r.ascending then none else clean r.since)
  unfolding more_params
  lookup-since = simp (lookups, lookup-format "since" r refl, lookup_end-since)

  pub lookup-until :
      lookup "until" (more_params p r id) ≡ (if is_true r.ascending then clean r.until else none)
  unfolding more_params
  lookup-until = simp (lookups, lookup-format "until" r refl, lookup_end-until)
