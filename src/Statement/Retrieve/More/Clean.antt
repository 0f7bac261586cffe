-- ===== src/Statement/Retrieve/More/Clean.antt =====
-- A query whose empty parameters are left out.
use xapi_lrs.Prelude.{
  ℕ, suc, String, ◌≡◌, refl, ap, Bool, true, false, ◌&&◌, Option, none, some, ◌==◌, any, keep_ext,
  sort_by, take, Bool-cases, inl, inr, if◌then◌else◌,
}
use xapi_lrs.Statement.Retrieve.{is_true}
use xapi_lrs.Platform.{Platform}
use xapi_lrs.Http.{ok, ◌>>=◌}
use xapi_lrs.Etag.{present}
use xapi_lrs.Statement.Store.{StatementDb, StatementRow, StatementLink}
use xapi_lrs.Statement.Query.{
  Content, QueryParams, given, matches_content, targets_voided, selects_row, ordered_matches,
  row_key, agent_filter, time_bound, conditions, time_conditions, effective_limit, content_of,
  query_statements, page_of,
}
use xapi_lrs.Statement.Retrieve.More.{clean, flag}

-- a parameter that is cleaned asks the same
pub given-clean : (o : Option String) (test : String → Bool) → given (clean o) test ≡ given o test
given-clean none test = refl
given-clean (some s) test = elim (Bool-cases (s == "")) [
  | inl empty ↦ rw empty refl
  | inr full ↦ rw (full, full) refl
]

pub present-clean : (o : Option String) → present (clean o) ≡ present o
present-clean none = refl
present-clean (some s) = elim (Bool-cases (s == "")) [
  | inl empty ↦ rw empty refl
  | inr full ↦ rw (full, full) refl
]

pub is_true-flag : (b : Bool) → is_true (flag b) ≡ b
is_true-flag true = refl
is_true-flag false = refl

abbrev pub cleaned : Content → Content
cleaned c = record c {
  verb = clean c.verb;
  activity = clean c.activity;
  registration = clean c.registration;
}

module _ (p : Platform) where
  pub agent_filter-clean : (o : Option String) → agent_filter p (clean o) ≡ agent_filter p o
  agent_filter-clean none = refl
  agent_filter-clean (some s) = elim (Bool-cases (s == "")) [
    | inl empty ↦ rw empty refl
    | inr full ↦ rw (full, full) refl
  ]

  pub time_bound-clean : (o : Option String) → time_bound p (clean o) ≡ time_bound p o
  time_bound-clean none = refl
  time_bound-clean (some s) = elim (Bool-cases (s == "")) [
    | inl empty ↦ rw empty refl
    | inr full ↦ rw (full, full) refl
  ]

  pub matches_content-cleaned :
      (c : Content) (db : StatementDb) (row : StatementRow)
      → matches_content p (cleaned c) db row ≡ matches_content p c db row
  unfolding matches_content
  matches_content-cleaned c db row =
      rw (given-clean c.verb, given-clean c.activity, given-clean c.registration) refl

  pub targets_voided-cleaned :
      (c : Content) (db : StatementDb) (row : StatementRow)
      → targets_voided p (cleaned c) db row ≡ targets_voided p c db row
  unfolding targets_voided
  targets_voided-cleaned c db row = λ i.
      any
        (λ (l : StatementLink).
          l.ancestor_id == row.statement_id
          && any
              (λ (v : StatementRow).
                v.statement_id == l.descendant_id
                && (v.is_voided && matches_content-cleaned c db v i))
              db.statements)
        db.statement_to_statement

  pub selects_row-cleaned :
      (c : Content) (t : ℕ → Bool) (db : StatementDb) (row : StatementRow)
      → selects_row p (cleaned c) t db row ≡ selects_row p c t db row
  unfolding selects_row
  selects_row-cleaned c t db row =
      rw
        (
          matches_content-cleaned c db row,
          targets_voided-cleaned c db row,
          present-clean c.verb,
          present-clean c.activity,
          present-clean c.registration,
        )
        refl

  pub ordered_matches-cleaned :
      (asc : Bool) (c : Content) (t : ℕ → Bool) (db : StatementDb)
      → ordered_matches p asc (cleaned c) t db ≡ ordered_matches p asc c t db
  unfolding ordered_matches
  ordered_matches-cleaned asc c t db = ap (sort_by row_key asc) (
      keep_ext (selects_row p (cleaned c) t db) (selects_row p c t db) (selects_row-cleaned c t db)
        db.statements)

  pub conditions-clean :
      (asc : Bool) (cursor since until : Option String)
      → present cursor ≡ true
      → conditions p asc cursor
          (if asc then none else clean since)
          (if asc then clean until else none)
        ≡ conditions p asc cursor since until
  unfolding conditions
  conditions-clean true cursor since until h = rw (h, time_bound-clean until) refl
  conditions-clean false cursor since until h = rw (h, time_bound-clean since) refl

  pub query_statements_cong :
      (q q' : QueryParams) (db : StatementDb)
      → agent_filter p q.agent ≡ agent_filter p q'.agent
      → time_conditions p q ≡ time_conditions p q'
      → effective_limit q ≡ effective_limit q'
      → ((ifi : Option String) (t : ℕ → Bool)
          → ordered_matches p q.ascending (content_of q ifi) t db
            ≡ ordered_matches p q'.ascending (content_of q' ifi) t db)
      → query_statements p q db ≡ query_statements p q' db
  unfolding query_statements
  query_statements_cong q q' db e f g h = λ i.
      e i >>= λ ifi. f i >>= λ t. g i >>= λ limit. ok (page_of limit (take (suc limit) (h ifi t i)))
