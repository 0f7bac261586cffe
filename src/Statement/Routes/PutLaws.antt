-- ===== src/Statement/Routes/PutLaws.antt =====
-- The tables after an answered PUT.
use xapi_lrs.Prelude.{
  String, ◌≡◌, refl, sym, ap, ◌∙◌, Bool, Option, none, some, List, read, not, ◌&&◌, ◌∷◌, [], eq_iff,
  arith, Bool-cases, Option-cases, inl, inr, if◌then◌else◌, subst,
}
use xapi_lrs.Http.{Result-cases, ok, guard, ok-injective, >>=-eq-ok}
use xapi_lrs.Json.{Json, Fields, get, display_option, truthy, is_text}
use xapi_lrs.Platform.{Platform}
use xapi_lrs.Version.{XapiVersion}
use xapi_lrs.Document.{after_ok, with_client_ok}
use xapi_lrs.Statement.Decompose.{read_prop}
use xapi_lrs.Statement.Store.{
  StatementDb, InsertStatementResult, statement_at, as_uuid, get_statement_by_id, void_statement,
  void_rows, insert_statement,
}
use xapi_lrs.Statement.Store.Laws.{insert_statement_cases, first_of_any}
use xapi_lrs.Statement.Services.{row_id, Services, AttachmentPart}
use xapi_lrs.Statement.Attachments.{id_text, validate_parts}
use xapi_lrs.Statement.Routes.{
  Tables, is_voiding, is_voiding_row, handle_voiding, put_tx, put_body, validate_put,
  validate_statement, put_statement, conflict_check,
}
use xapi_lrs.Statement.Routes.Laws.{IsStored, IsStored-one, matched_of_check}
use xapi_lrs.Statement.Routes.Voiding.{first-void, after_void}

module _ (p : Platform) where
  void_statement_absent :
      (id j : String) (db db' : StatementDb) (b : Bool)
      → void_statement p id db ≡ ok (b, db')
      → statement_at j db ≡ none
      → statement_at j db' ≡ none
  unfolding void_statement void_rows
  void_statement_absent id j db db' b h absent =
      let (u, bound, left) = >>=-eq-ok (as_uuid p id) _ h in
      ap (λ (y : Bool × StatementDb). statement_at j y.1) (sym (ok-injective left))
      ∙ first-void u j db.statements
      ∙ ap (read (after_void u)) absent

  handle_voiding_absent :
      (stmt : Fields) (db db' : StatementDb) (j : String)
      → handle_voiding p stmt db ≡ ok db'
      → statement_at j db ≡ none
      → statement_at j db' ≡ none
  unfolding handle_voiding
  handle_voiding_absent stmt db db' j h absent =
      let target = display_option (read_prop "id" (get "object" stmt)) in
      let (x, stated, h₁) =
        >>=-eq-ok
          (guard
            (is_text (read_prop "objectType" (get "object" stmt)) "StatementRef"
              && truthy (read_prop "id" (get "object" stmt)))
            400 "Voiding statement must reference a StatementRef")
          _ h in
      let ((found, db₁), looked, h₂) = >>=-eq-ok (get_statement_by_id p target db) _ h₁ in
      let (y, allowed, h₃) =
        >>=-eq-ok (guard (not (is_voiding_row found)) 400 "Cannot void a voiding statement") _ h₂ in
      let ((b, v), voided, h₄) = >>=-eq-ok (void_statement p target db) _ h₃ in
      ap (statement_at j) (sym (ok-injective h₄))
      ∙ void_statement_absent target j db v b voided absent

  one_absent :
      (stmt : Fields) (db db' : StatementDb) (j : String)
      → (if is_voiding stmt then handle_voiding p stmt db else ok db) ≡ ok db'
      → statement_at j db ≡ none
      → statement_at j db' ≡ none
  one_absent stmt db db' j h absent = elim (Bool-cases (is_voiding stmt)) [
    | inl voiding ↦ handle_voiding_absent stmt db db' j (rw voiding at h) absent
    | inr plain ↦ ap (statement_at j) (sym (ok-injective (rw plain at h))) ∙ absent
  ]

  module _ (sv : Services p) where
    id_of_valid :
        (version : XapiVersion) (id : String) (body : Option Json)
        (parts : Option (List (AttachmentPart p))) (stmt : Fields)
        → validate_put p sv version id body parts ≡ ok stmt
        → id_text stmt ≡ id
    unfolding validate_put
    id_of_valid version id body parts stmt h =
        let (raw, made, h₁) = >>=-eq-ok (put_body p sv id body) _ h in
        let (s, valid, h₂) = >>=-eq-ok (validate_statement p sv version 0 (some raw)) _ h₁ in
        let (x, parted, h₃) = >>=-eq-ok (validate_parts p sv (s ∷ []) parts) _ h₂ in
        ground (arith, eq_iff (id_text s) id)

    -- an insertion of an id that no row has
    IsStored-new :
        (sq : String) (stmt authority : Fields) (db db' : StatementDb) (r : InsertStatementResult)
        (u : String)
        → as_uuid p (id_text stmt) ≡ ok u
        → statement_at u db ≡ none
        → insert_statement p sq sv.stored_iso sv.transaction_time stmt authority db ≡ ok (r, db')
        → IsStored p sv db' stmt
    IsStored-new sq stmt authority db db' r u bound absent h =
        let (id, same, which) = insert_statement_cases p sq _ _ stmt authority db db' r h in
        let e : id ≡ u = ok-injective (sym same ∙ bound) in
        elim which [
          | inl old ↦
              let (row, there) = first_of_any id db.statements old.there in
              absurd (cc (sym there ∙ ap (λ x. statement_at x db) e ∙ absent))
          | inr new ↦
              IsStored-one p sv sq stmt authority db db' db' r h (λ j row here. here) tt
                (rw new.inserted refl)
        ]

    put_tx-IsStored :
        (id u : String) (parts : Option (List (AttachmentPart p))) (authority stmt : Fields)
        (t t' : Tables p) (x : Unit {0})
        → as_uuid p id ≡ ok u
        → id_text stmt ≡ id
        → put_tx p sv id parts authority stmt t ≡ ok (x, t')
        → IsStored p sv t'.db stmt
    unfolding put_tx get_statement_by_id
    put_tx-IsStored id u parts authority stmt t t' x bound named h =
        let bound_id : as_uuid p (id_text stmt) ≡ ok u = ap (as_uuid p) named ∙ bound in
        let h₀ = rw bound at h in
        elim (Option-cases (statement_at u t.db)) [
          | inr (row, there) ↦
              let (y, checked, left) =
                >>=-eq-ok (conflict_check p sv (some row) stmt) _ (rw there at h₀) in
              let same : t ≡ t' = ap (λ (z : Unit {0} × Tables p). z.1) (ok-injective left) in
              subst (λ z. IsStored p sv z.db stmt) same
                (record {
                  id = u;
                  id_bound = bound_id;
                  row = row;
                  found = there;
                  matched = matched_of_check p sv row stmt y checked;
                })
          | inl absent ↦
              let (voided, v, h₁) =
                >>=-eq-ok (if is_voiding stmt then handle_voiding p stmt t.db else ok t.db) _
                  (rw absent at h₀) in
              let ((r, db), inserted, h₂) =
                >>=-eq-ok
                  (insert_statement p (row_id p sv 0) sv.stored_iso sv.transaction_time stmt
                    authority voided)
                  _ h₁ in
              subst (λ z. IsStored p sv z stmt)
                (ap (λ (z : Unit {0} × Tables p). z.1.db) (ok-injective h₂))
                (IsStored-new (row_id p sv 0) stmt authority voided db r u bound_id
                  (one_absent stmt t.db voided u v absent) inserted)
        ]

    put_tx_bound :
        (id : String) (parts : Option (List (AttachmentPart p))) (authority stmt : Fields)
        (t t' : Tables p) (x : Unit {0})
        → put_tx p sv id parts authority stmt t ≡ ok (x, t')
        → (u : String) × (as_uuid p id ≡ ok u)
    unfolding put_tx get_statement_by_id
    put_tx_bound id parts authority stmt t t' x h = elim (Result-cases (as_uuid p id)) [
      | inl found ↦ found
      | inr (e, bad) ↦ absurd (cc (rw bad at h))
    ]

    -- An answered PUT has its statement stored under the id of the parameter, with a payload that
    -- `statementsMatch` accepts for it.
    pub put_statement-IsStored :
        (version : XapiVersion) (id : String) (body : Option Json)
        (parts : Option (List (AttachmentPart p))) (authority : Fields) (t t' : Tables p)
        (x : Unit {0})
        → put_statement p sv version id body parts authority t ≡ (ok x, t')
        → (stmt : Fields) × (validate_put p sv version id body parts ≡ ok stmt)
          × (id_text stmt ≡ id)
          × IsStored p sv t'.db stmt
    unfolding put_statement
    put_statement-IsStored version id body parts authority t t' x h =
        let (stmt, valid, ran) = after_ok (validate_put p sv version id body parts) _ t x t' h in
        let done = with_client_ok _ t x t' ran in
        let (u, bound) = put_tx_bound id parts authority stmt t t' x done in
        let named = id_of_valid version id body parts stmt valid in
        (stmt, valid, named, put_tx-IsStored id u parts authority stmt t t' x bound named done)
