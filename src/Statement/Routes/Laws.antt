-- ===== src/Statement/Routes/Laws.antt =====
-- The tables after an answered POST.
use xapi_lrs.Prelude.{
  ℕ, suc, String, ◌≡◌, refl, sym, ap, ◌∙◌, true, false, Option, some, List, [], ◌∷◌, first, arith,
  inl, inr, if◌then◌else◌, All, map, subst, eq_refl,
}
use xapi_lrs.Http.{Result, ok, ok-injective, >>=-eq-ok, ◌>>=◌}
use xapi_lrs.Json.{Json, Fields}
use xapi_lrs.Platform.{Platform}
use xapi_lrs.Version.{XapiVersion}
use xapi_lrs.Document.{with_client, after_ok, with_client_ok}
use xapi_lrs.Statement.Store.{
  StatementDb, StatementRow, InsertStatementResult, has_id, statement_at, as_uuid,
  get_statement_by_id, insert_statement, insert_statements,
}
use xapi_lrs.Statement.Store.Laws.{
  insert_statement_cases, insert_statement_keeps, first_of_any, first-add,
}
use xapi_lrs.Statement.Compare.{statements_match}
use xapi_lrs.Statement.Compare.Laws.{statements_match-build_payload}
use xapi_lrs.Statement.Services.{row_id, Services, AttachmentPart}
use xapi_lrs.Statement.Attachments.{id_text}
use xapi_lrs.Statement.Routes.{
  Tables, check_conflicts, conflict_check, void_targets, post_tx, validate_batch, post_statements,
}

module _ (p : Platform) (sv : Services p) where
  -- The id of a statement is stored, with a statement that matches it.
  pub record IsStored (db : StatementDb) (stmt : Fields) : Type 0 where
    pub id : String
    pub id_bound : as_uuid p (id_text stmt) ≡ ok id
    pub row : StatementRow
    pub found : statement_at id db ≡ some row
    pub matched : statements_match sv.quote p.js_date row.payload stmt ≡ true

  pub matched_of_check :
      (row : StatementRow) (stmt : Fields) (x : Unit {0})
      → conflict_check p sv (some row) stmt ≡ ok x
      → statements_match sv.quote p.js_date row.payload stmt ≡ true
  matched_of_check row stmt x h = ground arith

  pub keep_all :
      (i : ℕ) (stmts : List Fields) (authority : Fields) (db db' : StatementDb)
      (rs : List InsertStatementResult) (j : String) (row : StatementRow)
      → insert_statements p (row_id p sv) sv.stored_iso sv.transaction_time i stmts authority db
        ≡ ok (rs, db')
      → statement_at j db ≡ some row
      → statement_at j db' ≡ some row
  unfolding insert_statements
  keep_all i [] authority db db' rs j row h e =
      ap (statement_at j)
        (sym (ap (λ (x : List InsertStatementResult × StatementDb). x.1) (ok-injective h)))
      ∙ e
  keep_all i (stmt ∷ rest) authority db db' rs j row h e =
      let ((r, db₁), inserted, h₁) =
        >>=-eq-ok
          (insert_statement p (row_id p sv i) sv.stored_iso sv.transaction_time stmt authority db) _
          h in
      let ((rs', db₂), later, h₂) =
        >>=-eq-ok
          (insert_statements p (row_id p sv) sv.stored_iso sv.transaction_time (suc i) rest
            authority db₁)
          _ h₁ in
      let last : db₂ ≡ db' =
        ap (λ (x : List InsertStatementResult × StatementDb). x.1) (ok-injective h₂) in
      ap (statement_at j) (sym last)
      ∙ keep_all (suc i) rest authority db₁ db₂ rs' j row later
          (insert_statement_keeps p _ _ _ stmt authority db db₁ r j row inserted e)

  check_of_repeated :
      (stmt : Fields) (final : StatementDb) (r : InsertStatementResult) (id : String)
      (row : StatementRow)
      → r.inserted ≡ false
      → as_uuid p (id_text stmt) ≡ ok id
      → statement_at id final ≡ some row
      → (if r.inserted
          then ok tt
          else (get_statement_by_id p (id_text stmt) final >>= λ e. conflict_check p sv e.0 stmt))
        ≡ conflict_check p sv (some row) stmt
  unfolding get_statement_by_id
  check_of_repeated stmt final r id row old bound found = rw (old, bound, found) refl

  -- one statement that an insertion has reported, checked against the tables at the end
  pub IsStored-one :
      (sq : String) (stmt authority : Fields) (db db₁ final : StatementDb)
      (r : InsertStatementResult)
      → insert_statement p sq sv.stored_iso sv.transaction_time stmt authority db ≡ ok (r, db₁)
      → ((j : String) (row : StatementRow)
          → statement_at j db₁ ≡ some row
          → statement_at j final ≡ some row)
      → (x : Unit {0})
      → (if r.inserted
          then ok tt
          else (get_statement_by_id p (id_text stmt) final >>= λ e. conflict_check p sv e.0 stmt))
        ≡ ok x
      → IsStored final stmt
  IsStored-one sq stmt authority db db₁ final r h persist x checked =
      let (id, bound, which) = insert_statement_cases p sq _ _ stmt authority db db₁ r h in
      elim which [
        | inr new ↦ record {
          id = id;
          id_bound = bound;
          row = new.row;
          found = persist id new.row (
              ap (first (has_id id)) new.rows
              ∙ first-add id id new.row db.statements new.row_id new.new
              ∙ rw (eq_refl id) refl);
          matched =
              ap (λ y. statements_match sv.quote p.js_date y stmt) new.row_payload
              ∙ statements_match-build_payload sv.quote p.js_date stmt sv.stored_iso authority;
        }
        | inl old ↦
            let (row, there) = first_of_any id db.statements old.there in
            let kept = persist id row (ap (statement_at id) old.unchanged ∙ there) in
            record {
              id = id;
              id_bound = bound;
              row = row;
              found = kept;
              matched =
                  matched_of_check row stmt x
                    (sym (check_of_repeated stmt final r id row old.inserted bound kept) ∙ checked);
            }
      ]

  abbrev one_check : InsertStatementResult → Fields → StatementDb → Result (Unit {0})
  one_check r stmt db =
      if r.inserted
      then ok tt
      else (get_statement_by_id p (id_text stmt) db >>= λ e. conflict_check p sv e.0 stmt)

  All-IsStored :
      (i : ℕ) (stmts : List Fields) (authority : Fields) (db db' : StatementDb)
      (rs : List InsertStatementResult) (x : Unit {0})
      → insert_statements p (row_id p sv) sv.stored_iso sv.transaction_time i stmts authority db
        ≡ ok (rs, db')
      → check_conflicts p sv rs stmts db' ≡ ok x
      → All (IsStored db') stmts
  unfolding insert_statements check_conflicts
  All-IsStored i [] authority db db' rs x h c = tt
  All-IsStored i (stmt ∷ rest) authority db db' rs x h c =
      let ((r, db₁), inserted, h₁) =
        >>=-eq-ok
          (insert_statement p (row_id p sv i) sv.stored_iso sv.transaction_time stmt authority db) _
          h in
      let ((rs', db₂), later, h₂) =
        >>=-eq-ok
          (insert_statements p (row_id p sv) sv.stored_iso sv.transaction_time (suc i) rest
            authority db₁)
          _ h₁ in
      let same = ok-injective h₂ in
      let last : db₂ ≡ db' = ap (λ (y : List InsertStatementResult × StatementDb). y.1) same in
      let c' : check_conflicts p sv (r ∷ rs') (stmt ∷ rest) db' ≡ ok x =
        ap
          (λ (y : List InsertStatementResult × StatementDb).
            check_conflicts p sv y.0 (stmt ∷ rest) db')
          same
        ∙ c in
      let (u, here, there) = >>=-eq-ok (one_check r stmt db') _ c' in
      (
        IsStored-one (row_id p sv i) stmt authority db db₁ db' r inserted
            (λ j row e.
              ap (statement_at j) (sym last)
              ∙ keep_all (suc i) rest authority db₁ db₂ rs' j row later e)
            u here,
        All-IsStored (suc i) rest authority db₁ db' rs' x (later ∙ ap (λ y. ok (rs', y)) last)
            there,
      )

  post_tx-IsStored :
      (parts : Option (List (AttachmentPart p))) (authority : Fields) (validated : List Fields)
      (t t' : Tables p) (ids : List String)
      → post_tx p sv parts authority validated t ≡ ok (ids, t')
      → (ids ≡ map id_text validated) × All (IsStored t'.db) validated
  unfolding post_tx
  post_tx-IsStored parts authority validated t t' ids h =
      let (voided, v, h₁) = >>=-eq-ok (void_targets p validated t.db) _ h in
      let ((rs, db'), inserted, h₂) =
        >>=-eq-ok
          (insert_statements p (row_id p sv) sv.stored_iso sv.transaction_time 0 validated authority
            voided)
          _ h₁ in
      let (x, checked, h₃) = >>=-eq-ok (check_conflicts p sv rs validated db') _ h₂ in
      let same = ok-injective h₃ in
      (
        sym (ap (λ (y : List String × Tables p). y.0) same),
        subst (λ y. All (IsStored y) validated) (ap (λ (y : List String × Tables p). y.1.db) same)
            (All-IsStored 0 validated authority voided db' rs x inserted checked),
      )

  -- A POST that is answered gives the ids of the validated statements, in their order, and every
  -- one of them is then stored under its id, with a payload that `statementsMatch` accepts for it.
  pub post_statements-IsStored :
      (version : XapiVersion) (body : Option Json) (parts : Option (List (AttachmentPart p)))
      (authority : Fields) (t t' : Tables p) (ids : List String)
      → post_statements p sv version body parts authority t ≡ (ok ids, t')
      → (validated : List Fields) × (validate_batch p sv version body parts ≡ ok validated)
        × (ids ≡ map id_text validated)
        × All (IsStored t'.db) validated
  unfolding post_statements
  post_statements-IsStored version body parts authority t t' ids h =
      let (validated, valid, ran) =
        after_ok (validate_batch p sv version body parts)
          (λ stmts. with_client (post_tx p sv parts authority stmts)) t ids t' h in
      let (same, stored) =
        post_tx-IsStored parts authority validated t t' ids
          (with_client_ok (post_tx p sv parts authority validated) t ids t' ran) in
      (validated, valid, same, stored)
