-- ===== src/Statement/Store/Laws.antt =====
-- What the insertion of a statement stores, and what it leaves.
use xapi_lrs.Prelude.{
  ℕ, String, ◌≡◌, refl, sym, ap, ◌∙◌, true, false, Option, none, some, List, [], ◌∷◌, ◌++◌, ◌==◌,
  eq_iff, any, first, arith, Bool-cases, ◌⊎◌, inl, inr, if◌then◌else◌,
}
use xapi_lrs.Http.{ok, ok-injective, >>=-eq-ok}
use xapi_lrs.Json.{Fields, get, display_option, Json, display}
use xapi_lrs.Platform.{Platform}
use xapi_lrs.Statement.Decompose.{build_payload, extract_activities, extract_actors, read_prop}
use xapi_lrs.Statement.Store.{
  StatementDb, StatementRow, InsertStatementResult, has_id, statement_at, statement_row, as_uuid,
  insert_dependents, insert_statement, with_reference, with_activities, with_actors, reference_of,
  uuid_or_null, timestamp_or_null, cast_bits,
}

pub first_of_any :
    (id : String) (t : List StatementRow)
    → any (has_id id) t ≡ true
    → (row : StatementRow) × (first (has_id id) t ≡ some row)
first_of_any id [] h = absurd (cc)
first_of_any id (row ∷ t) h = elim (Bool-cases (has_id id row)) [
  | inl here ↦ (row, rw here refl)
  | inr there ↦ let (found, e) = first_of_any id t (ground arith) in (found, rw there e)
]

pub first-add :
    (id j : String) (new : StatementRow) (t : List StatementRow)
    → new.statement_id ≡ id
    → any (has_id id) t ≡ false
    → first (has_id j) (t ++ new ∷ []) ≡ (if id == j then some new else first (has_id j) t)
first-add id j new [] e h = ground arith
first-add id j new (row ∷ t) e h = ground (
  arith,
  first-add id j new t e,
  eq_iff row.statement_id id,
  eq_iff row.statement_id j,
  eq_iff id j,
)

module _ (p : Platform) where
  with_reference_rows :
      (id : String) (target : Option Json) (db db' : StatementDb)
      → with_reference p id target db ≡ ok db'
      → db'.statements ≡ db.statements
  with_reference_rows id none db db' h =
      sym (ap (λ (x : StatementDb). x.statements) (ok-injective h))
  with_reference_rows id (some v) db db' h =
      let (u, e, left) = >>=-eq-ok (as_uuid p (display v)) _ h in
      sym (ap (λ (x : StatementDb). x.statements) (ok-injective left))

  insert_dependents_rows :
      (id : String) (payload : Fields) (db db' : StatementDb)
      → insert_dependents p id payload db ≡ ok db'
      → db'.statements ≡ db.statements
  unfolding insert_dependents
  insert_dependents_rows id payload db db' h =
      let (entries, e, left) = >>=-eq-ok (extract_activities payload) _ h in
      with_reference_rows id (reference_of payload)
        (with_activities p id entries (with_actors p id (extract_actors p payload) db)) db' left

  module _ (sq : String) (iso : String) (stored : ℕ) (stmt authority : Fields)
      (db db' : StatementDb) (r : InsertStatementResult) where
    -- the statement id was there, and nothing has changed
    pub record Repeated (id : String) : Type 0 where
      pub there : any (has_id id) db.statements ≡ true
      pub inserted : r.inserted ≡ false
      pub unchanged : db' ≡ db

    -- the statement id was new, and its row has been added
    pub record Added (id : String) : Type 0 where
      pub new : any (has_id id) db.statements ≡ false
      pub inserted : r.inserted ≡ true
      pub row : StatementRow
      pub row_id : row.statement_id ≡ id
      pub row_payload : row.payload ≡ build_payload stmt iso authority
      pub row_live : row.is_voided ≡ false
      pub rows : db'.statements ≡ db.statements ++ row ∷ []

    -- An insertion that returns has either found the statement id, and then changed no table, or
    -- added one row, not voided, with the statement and the server's fields as its payload.
    pub insert_statement_cases :
        insert_statement p sq iso stored stmt authority db ≡ ok (r, db')
        → (id : String) × (as_uuid p (display_option (get "id" stmt)) ≡ ok id)
          × (Repeated id ⊎ Added id)
    unfolding insert_statement
    insert_statement_cases h =
        let (row_id, cast, h₀) = >>=-eq-ok (cast_bits (p.pg_uuid_bits sq)) _ h in
        let (id, bound, h₁) = >>=-eq-ok (as_uuid p (display_option (get "id" stmt))) _ h₀ in
        let (registration, e, h₂) =
          >>=-eq-ok (uuid_or_null p (read_prop "registration" (get "context" stmt))) _ h₁ in
        let (timestamp, at, h₃) =
          >>=-eq-ok (timestamp_or_null p (get "timestamp" (build_payload stmt iso authority))) _
            h₂ in
        (
          id,
          bound,
          elim (Bool-cases (any (has_id id) db.statements)) [
            | inl old ↦
                let same = ok-injective (rw old at h₃) in
                inl (record {
                  there = old;
                  inserted =
                      sym (ap (λ (x : InsertStatementResult × StatementDb). x.0.inserted) same);
                  unchanged = sym (ap (λ (x : InsertStatementResult × StatementDb). x.1) same);
                })
            | inr new ↦
                let row =
                  statement_row row_id id registration (build_payload stmt iso authority) timestamp
                    stored in
                let (left, made, h₄) =
                  >>=-eq-ok
                    (insert_dependents p id (build_payload stmt iso authority)
                      (record db { statements = db.statements ++ row ∷ [] }))
                    _ (rw new at h₃) in
                let same = ok-injective h₄ in
                inr (record {
                  new = new;
                  inserted =
                      sym (ap (λ (x : InsertStatementResult × StatementDb). x.0.inserted) same);
                  row = row;
                  row_id = refl;
                  row_payload = refl;
                  row_live = refl;
                  rows =
                      sym (ap (λ (x : InsertStatementResult × StatementDb). x.1.statements) same)
                      ∙ insert_dependents_rows id (build_payload stmt iso authority) _ left made;
                })
          ],
        )

pub first-append_some :
    (j : String) (row : StatementRow) (t u : List StatementRow)
    → first (has_id j) t ≡ some row
    → first (has_id j) (t ++ u) ≡ some row
first-append_some j row [] u h = absurd (cc)
first-append_some j row (x ∷ t) u h = ground (arith, first-append_some j row t u)

-- A statement that is stored stays, as it is, whatever statement is then inserted.
pub insert_statement_keeps :
    (p : Platform) (sq : String) (iso : String) (stored : ℕ) (stmt authority : Fields)
    (db db' : StatementDb) (r : InsertStatementResult) (j : String) (row : StatementRow)
    → insert_statement p sq iso stored stmt authority db ≡ ok (r, db')
    → statement_at j db ≡ some row
    → statement_at j db' ≡ some row
insert_statement_keeps p sq iso stored stmt authority db db' r j row h e =
    let (id, bound, which) = insert_statement_cases p sq iso stored stmt authority db db' r h in
    elim which [
      | inl old ↦ ap (statement_at j) old.unchanged ∙ e
      | inr new ↦
          ap (first (has_id j)) new.rows ∙ first-append_some j row db.statements (new.row ∷ []) e
    ]
