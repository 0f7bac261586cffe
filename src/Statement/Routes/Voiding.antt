-- ===== src/Statement/Routes/Voiding.antt =====
-- The effect of voiding on the rows of statements.
use xapi_lrs.Prelude.{
  String, ◌≡◌, refl, sym, ap, ◌∙◌, Bool, true, false, not, ◌&&◌, Option, some, List, [], ◌∷◌, first,
  read, update, ◌==◌, eq_iff, arith, Bool-cases, inl, inr, if◌then◌else◌,
}
use xapi_lrs.Http.{ok, guard, ok-injective, >>=-eq-ok}
use xapi_lrs.Json.{Json, Fields, get, display_option, truthy, is_text}
use xapi_lrs.Platform.{Platform}
use xapi_lrs.Version.{XapiVersion}
use xapi_lrs.Document.{after_ok, with_client_ok}
use xapi_lrs.Statement.Decompose.{read_prop}
use xapi_lrs.Statement.Store.{
  StatementDb, StatementRow, has_id, statement_at, as_uuid, get_statement_by_id, void_statement,
  void_rows, insert_statements,
}
use xapi_lrs.Statement.Services.{row_id, Services, AttachmentPart}
use xapi_lrs.Statement.Routes.{
  Tables, is_voiding, is_voiding_row, handle_voiding, void_targets, post_tx, validate_batch,
  post_statements, check_conflicts,
}
use xapi_lrs.Statement.Routes.Laws.{keep_all}

-- a voiding of the id `u`, on one row
abbrev pub after_void : String → StatementRow → StatementRow
after_void u row =
    if has_id u row && not row.is_voided then record row { is_voided = true } else row

pub first-void :
    (u j : String) (t : List StatementRow)
    → first (has_id j) (
        update
          (λ row. has_id u row && not row.is_voided)
          (λ row. record row { is_voided = true })
          t)
      ≡ read (after_void u) (first (has_id j) t)
first-void u j [] = refl
first-void u j (row ∷ t) = ground (arith, first-void u j t)

id_of_first :
    (j : String) (t : List StatementRow) (row : StatementRow)
    → first (has_id j) t ≡ some row
    → row.statement_id ≡ j
id_of_first j [] row h = absurd (cc)
id_of_first j (x ∷ t) row h = ground (arith, id_of_first j t row, eq_iff x.statement_id j)

module _ (p : Platform) where
  -- A statement that is not the target stays as it is.
  void_statement_other :
      (id u j : String) (db db' : StatementDb) (b : Bool) (row : StatementRow)
      → as_uuid p id ≡ ok u
      → void_statement p id db ≡ ok (b, db')
      → statement_at j db ≡ some row
      → (j == u) ≡ false
      → statement_at j db' ≡ some row
  unfolding void_statement void_rows
  void_statement_other id u j db db' b row bound h there ne =
      let (u', bound', left) = >>=-eq-ok (as_uuid p id) _ h in
      let same : u' ≡ u = ok-injective (sym bound' ∙ bound) in
      let same_id = id_of_first j db.statements row there in
      let stays : after_void u row ≡ row = ground (arith, eq_iff row.statement_id u, eq_iff j u) in
      ap (λ (y : Bool × StatementDb). statement_at j y.1) (sym (ok-injective left))
      ∙ first-void u' j db.statements
      ∙ ap (read (after_void u')) there
      ∙ ap (λ x. some (after_void x row)) same
      ∙ ap some stays

  handle_voiding_keeps :
      (stmt : Fields) (db db' : StatementDb) (j : String) (row : StatementRow)
      → handle_voiding p stmt db ≡ ok db'
      → statement_at j db ≡ some row
      → is_voiding row.payload ≡ true
      → statement_at j db' ≡ some row
  unfolding handle_voiding get_statement_by_id
  handle_voiding_keeps stmt db db' j row h there voids =
      let target = display_option (read_prop "id" (get "object" stmt)) in
      let (x, stated, h₁) =
        >>=-eq-ok
          (guard
            (is_text (read_prop "objectType" (get "object" stmt)) "StatementRef"
              && truthy (read_prop "id" (get "object" stmt)))
            400 "Voiding statement must reference a StatementRef")
          _ h in
      let ((found, db₁), looked, h₂) = >>=-eq-ok (get_statement_by_id p target db) _ h₁ in
      let (y, allowed, h₃) =
        >>=-eq-ok (guard (not (is_voiding_row found)) 400 "Cannot void a voiding statement") _ h₂ in
      let ((b, v), voided, h₄) = >>=-eq-ok (void_statement p target db) _ h₃ in
      let (u, bound, left) = >>=-eq-ok (as_uuid p target) _ looked in
      let seen : statement_at u db ≡ found =
        ap (λ (y : Option StatementRow × StatementDb). y.0) (ok-injective left) in
      elim (Bool-cases (j == u)) [
        | inl same ↦
            let e : j ≡ u = (eq_iff j u).0 same in
            let there_u : found ≡ some row =
              sym seen ∙ ap (λ x. statement_at x db) (sym e) ∙ there in
            let bad : is_voiding_row found ≡ true = ap is_voiding_row there_u ∙ voids in
            absurd (cc (rw bad at allowed))
        | inr ne ↦
            ap (statement_at j) (sym (ok-injective h₄))
            ∙ void_statement_other target u j db v b row bound voided there ne
      ]

  one_keeps :
      (stmt : Fields) (db db' : StatementDb) (j : String) (row : StatementRow)
      → (if is_voiding stmt then handle_voiding p stmt db else ok db) ≡ ok db'
      → statement_at j db ≡ some row
      → is_voiding row.payload ≡ true
      → statement_at j db' ≡ some row
  one_keeps stmt db db' j row h there voids = elim (Bool-cases (is_voiding stmt)) [
    | inl voiding ↦ handle_voiding_keeps stmt db db' j row (rw voiding at h) there voids
    | inr plain ↦ ap (statement_at j) (sym (ok-injective (rw plain at h))) ∙ there
  ]

  void_targets_keeps :
      (stmts : List Fields) (db db' : StatementDb) (j : String) (row : StatementRow)
      → void_targets p stmts db ≡ ok db'
      → statement_at j db ≡ some row
      → is_voiding row.payload ≡ true
      → statement_at j db' ≡ some row
  unfolding void_targets
  void_targets_keeps [] db db' j row h there voids =
      ap (statement_at j) (sym (ok-injective h)) ∙ there
  void_targets_keeps (stmt ∷ rest) db db' j row h there voids =
      let (db₁, one, h₁) =
        >>=-eq-ok (if is_voiding stmt then handle_voiding p stmt db else ok db) _ h in
      void_targets_keeps rest db₁ db' j row h₁ (one_keeps stmt db db₁ j row one there voids) voids

  module _ (sv : Services p) where
    post_tx_keeps :
        (parts : Option (List (AttachmentPart p))) (authority : Fields) (validated : List Fields)
        (t t' : Tables p) (ids : List String) (j : String) (row : StatementRow)
        → post_tx p sv parts authority validated t ≡ ok (ids, t')
        → statement_at j t.db ≡ some row
        → is_voiding row.payload ≡ true
        → statement_at j t'.db ≡ some row
    unfolding post_tx
    post_tx_keeps parts authority validated t t' ids j row h there voids =
        let (voided, v, h₁) = >>=-eq-ok (void_targets p validated t.db) _ h in
        let ((rs, db'), inserted, h₂) =
          >>=-eq-ok
            (insert_statements p (row_id p sv) sv.stored_iso sv.transaction_time 0 validated
              authority voided)
            _ h₁ in
        let (x, checked, h₃) = >>=-eq-ok (check_conflicts p sv rs validated db') _ h₂ in
        ap (λ (y : List String × Tables p). statement_at j y.1.db) (sym (ok-injective h₃))
        ∙ keep_all p sv 0 validated authority voided db' rs j row inserted
            (void_targets_keeps validated t.db voided j row v there voids)

    -- A stored voiding statement stays as it is, so that it is not voided, whatever an answered
    -- POST stores or voids.
    pub post_statements_keeps_voiding :
        (version : XapiVersion) (body : Option Json) (parts : Option (List (AttachmentPart p)))
        (authority : Fields) (t t' : Tables p) (ids : List String) (j : String) (row : StatementRow)
        → post_statements p sv version body parts authority t ≡ (ok ids, t')
        → statement_at j t.db ≡ some row
        → is_voiding row.payload ≡ true
        → statement_at j t'.db ≡ some row
    unfolding post_statements
    post_statements_keeps_voiding version body parts authority t t' ids j row h there voids =
        let (validated, valid, ran) =
          after_ok (validate_batch p sv version body parts) _ t ids t' h in
        post_tx_keeps parts authority validated t t' ids j row (with_client_ok _ t ids t' ran) there
          voids
