-- ===== src/Statement/Routes.antt =====
-- routes/statements.ts and routes/statement-helpers.ts: storing statements by POST and PUT, with
-- the validation of xapi/statement-validator.ts. A handler gives its response or error, and the
-- tables that its transaction leaves.
pub mod Laws
pub mod Voiding
pub mod PutLaws
use xapi_lrs.Prelude.{
  ℕ, suc, String, Bool, true, false, not, ◌&&◌, ◌||◌, Option, none, some, List, [], ◌∷◌, ◌++◌, map,
  ◌==◌, length, all, any, contains, or_else, if◌then◌else◌,
}
use xapi_lrs.Http.{Result, ok, err, http, other, guard, ◌>>=◌, ◌>>◌}
use xapi_lrs.Json.{
  Json, Fields, str, arr, obj, elems, get, put, delete, truthy, is_text, display, display_option,
}
use xapi_lrs.Platform.{Platform}
use xapi_lrs.Version.{XapiVersion}
use xapi_lrs.Document.{Tx, with_client, after}
use xapi_lrs.Statement.Decompose.{read_prop, items}
use xapi_lrs.Statement.Store.{
  StatementDb, StatementRow, InsertStatementResult, get_statement_by_id, insert_statement,
  insert_statements, void_statement,
}
use xapi_lrs.Statement.Compare.{statements_match}
use xapi_lrs.Statement.Attachments.{AttachmentRow, id_text, validate_parts, batch_rows, rows_of}
use xapi_lrs.Statement.Services.{row_id, Services, AttachmentPart, Parsed, success, failure}

abbrev pub voided_verb_id : String
voided_verb_id = "http://adlnet.gov/expapi/verbs/voided"

abbrev pub is_voiding : Fields → Bool
is_voiding stmt = is_text (read_prop "id" (get "verb" stmt)) voided_verb_id

pub record Tables (p : Platform) : Type 0 where
  pub db : StatementDb
  pub attachments : List (AttachmentRow p)

-- `handleVoiding`
abbrev pub is_voiding_row : Option StatementRow → Bool
is_voiding_row none = false
is_voiding_row (some row) = is_voiding row.payload

unfoldable pub handle_voiding : Platform → Fields → StatementDb → Result StatementDb
handle_voiding p stmt db = do
  let target = read_prop "id" (get "object" stmt)
  guard (is_text (read_prop "objectType" (get "object" stmt)) "StatementRef" && truthy target) 400
      "Voiding statement must reference a StatementRef"
  found ← get_statement_by_id p (display_option target) db
  guard (not (is_voiding_row found.0)) 400 "Cannot void a voiding statement"
  voided ← void_statement p (display_option target) db
  ok voided.1

-- the loop over the batch
unfoldable pub void_targets : Platform → List Fields → StatementDb → Result StatementDb
void_targets p [] db = ok db
void_targets p (stmt ∷ rest) db =
    (if is_voiding stmt then handle_voiding p stmt db else ok db) >>= void_targets p rest

module _ (p : Platform) (sv : Services p) where
  abbrev pub with_default : String → String → Fields → Fields
  with_default k v stmt = elim (get k stmt) [ none ↦ put k (str v) stmt | some _ ↦ stmt ]

  -- the statement of `validateStatement`: `stored` and `authority` are the server's, and an
  -- absent id or timestamp is generated
  abbrev pub finished : ℕ → Fields → Fields
  finished i data' =
      with_default "timestamp" sv.now_iso
        (with_default "id" (sv.uuidv7 i) (delete "authority" (delete "stored" data')))

  -- `validateStatement` of the i-th input, with its errors thrown as the handlers do
  unfoldable pub validate_statement : XapiVersion → ℕ → Option Json → Result Fields
  validate_statement version i (some (obj input)) = elim (sv.safe_parse version input) [
    | failure issues ↦ err (http 400 issues)
    | success parsed ↦ ok (finished i parsed)
  ]
  validate_statement version i _ = err (http 400 ": Statement must be a JSON object")

  unfoldable pub validate_all : XapiVersion → ℕ → List (Option Json) → Result (List Fields)
  validate_all version i [] = ok []
  validate_all version i (raw ∷ rest) = validate_statement version i raw >>= λ stmt. do
    later ← validate_all version (suc i) rest
    ok (stmt ∷ later)

  -- `new Set(batchIds).size !== batchIds.length`
  unfoldable pub has_duplicates : List String → Bool
  has_duplicates [] = false
  has_duplicates (x ∷ xs) = contains xs x || has_duplicates xs

  abbrev pub matches_row : Option StatementRow → Fields → Bool
  matches_row none stmt = true
  matches_row (some row) stmt = statements_match sv.quote p.js_date row.payload stmt

  abbrev pub conflict_check : Option StatementRow → Fields → Result (Unit {0})
  conflict_check existing stmt =
      guard (matches_row existing stmt) 409 "Statement already exists with different content"

  -- the loop that compares what was not inserted with what is stored
  unfoldable pub check_conflicts :
      List InsertStatementResult → List Fields → StatementDb → Result (Unit {0})
  check_conflicts (r ∷ rs) (stmt ∷ stmts) db =
      (if r.inserted then ok tt else (do
        existing ← get_statement_by_id p (id_text stmt) db
        conflict_check existing.0 stmt))
      >>= λ _. check_conflicts rs stmts db
  check_conflicts _ _ db = ok tt

  -- the transaction of POST
  unfoldable pub post_tx :
      Option (List (AttachmentPart p)) → Fields → List Fields → Tx (Tables p) (List String)
  post_tx parts authority validated t = do
    voided ← void_targets p validated t.db
    (results, db) ←
        insert_statements p (row_id p sv) sv.stored_iso sv.transaction_time 0 validated authority
          voided
    check_conflicts results validated db
    ok (
      map id_text validated,
      record { db = db; attachments = t.attachments ++ batch_rows p sv parts results validated },
    )

  -- `Array.isArray(rawBody) ? rawBody : [rawBody]`
  abbrev pub raw_array : Option Json → List (Option Json)
  raw_array (some (arr vs)) = map some (elems vs)
  raw_array raw = raw ∷ []

  unfoldable pub validate_batch :
      XapiVersion → Option Json → Option (List (AttachmentPart p)) → Result (List Fields)
  validate_batch version body parts = do
    validated ← validate_all version 0 (raw_array body)
    guard (not (has_duplicates (map id_text validated))) 400
        "Batch contains duplicate statement ids"
    validate_parts p sv validated parts
    ok validated

  -- POST /xapi/statements
  unfoldable pub post_statements :
      XapiVersion
      → Option Json
      → Option (List (AttachmentPart p))
      → Fields
      → Tables p
      → Result (List String) × Tables p
  post_statements version body parts authority t =
      after (validate_batch version body parts)
        (λ validated. with_client (post_tx parts authority validated)) t

  -- `(c.var.parsedBody ?? {})`, with the parameter as its id if it has none; assigning to a
  -- property of a primitive throws, and an array stays one
  abbrev pub put_body : String → Option Json → Result Json
  put_body id none = ok (obj (put "id" (str id) Fields.end))
  put_body id (some Json.null) = ok (obj (put "id" (str id) Fields.end))
  put_body id (some (obj fs)) = ok (obj (if truthy (get "id" fs) then fs else put "id" (str id) fs))
  put_body id (some (arr vs)) = ok (arr vs)
  put_body id (some _) = err other

  -- the transaction of PUT
  unfoldable pub put_tx :
      String → Option (List (AttachmentPart p)) → Fields → Fields → Tx (Tables p) (Unit {0})
  put_tx id parts authority stmt t = do
    existing ← get_statement_by_id p id t.db
    elim existing.0 [
      | some row ↦ (do conflict_check (some row) stmt; ok (tt, t))
      | none ↦ (do
        voided ← (if is_voiding stmt then handle_voiding p stmt t.db else ok t.db)
        (result, db) ←
            insert_statement p (row_id p sv 0) sv.stored_iso sv.transaction_time stmt authority
              voided
        ok (tt, record { db = db; attachments = t.attachments ++ rows_of p sv parts result stmt }))
    ]

  unfoldable pub validate_put :
      XapiVersion → String → Option Json → Option (List (AttachmentPart p)) → Result Fields
  validate_put version id body parts = do
    raw ← put_body id body
    stmt ← validate_statement version 0 (some raw)
    validate_parts p sv (stmt ∷ []) parts
    guard (id_text stmt == id) 409 "Statement id does not match statementId parameter"
    ok stmt

  -- PUT /xapi/statements
  unfoldable pub put_statement :
      XapiVersion
      → String
      → Option Json
      → Option (List (AttachmentPart p))
      → Fields
      → Tables p
      → Result (Unit {0}) × Tables p
  put_statement version id body parts authority t =
      after (validate_put version id body parts)
        (λ stmt. with_client (put_tx id parts authority stmt)) t
