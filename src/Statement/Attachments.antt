-- ===== src/Statement/Attachments.antt =====
-- The attachments of statements: `validateAttachmentParts` of routes/statement-helpers.ts, and the
-- rows that routes/statements.ts inserts by repositories/attachments.ts.
pub mod Laws
use xapi_lrs.Prelude.{
  String, Bool, true, false, not, ◌&&◌, Option, none, some, List, [], ◌∷◌, ◌++◌, ◌==◌, any, first,
  contains, concat, if◌then◌else◌,
}
use xapi_lrs.Http.{Result, ok, err, http, ◌>>◌}
use xapi_lrs.Json.{Json, Fields, get, truthy, display_option}
use xapi_lrs.Platform.{Platform}
use xapi_lrs.Statement.Decompose.{read_prop, items}
use xapi_lrs.Statement.Store.{InsertStatementResult}
use xapi_lrs.Statement.Services.{Services, AttachmentPart}
use xapi_lrs.Statement.Signatures.{validate_signed_statements}

-- a row of the table attachment
pub record AttachmentRow (p : Platform) : Type 0 where
  pub statement_id : String
  pub attachment_sha : String
  pub content_type : String
  pub contents : p.Buffer

-- the hashes that the attachments of a batch name, all of them or those without a `fileUrl`
abbrev pub hashes_of : Bool → List Json → List String
hashes_of only_required [] = []
hashes_of only_required (att ∷ rest) =
    if truthy (read_prop "sha2" (some att))
      && not (only_required && truthy (read_prop "fileUrl" (some att)))
    then display_option (read_prop "sha2" (some att)) ∷ hashes_of only_required rest
    else hashes_of only_required rest

abbrev pub batch_hashes : Bool → List Fields → List String
batch_hashes only_required [] = []
batch_hashes only_required (stmt ∷ rest) =
    hashes_of only_required (items (get "attachments" stmt)) ++ batch_hashes only_required rest

abbrev pub id_text : Fields → String
id_text stmt = display_option (get "id" stmt)

module _ (p : Platform) (sv : Services p) where
  abbrev pub part_of : String → List (AttachmentPart p) → Option (AttachmentPart p)
  part_of sha2 parts = first (λ part. part.sha2 == sha2) parts

  abbrev pub has_part : List (AttachmentPart p) → String → Bool
  has_part parts sha2 = any (λ part. part.sha2 == sha2) parts

  abbrev pub excess_error : Option (AttachmentPart p) → Result (Unit {0})
  excess_error none = ok tt
  excess_error (some part) = err (
      http 400 (
        concat "Excess multipart section with hash "
          (concat part.sha2 " does not match any statement attachment")))

  abbrev pub missing_error : Option String → Result (Unit {0})
  missing_error none = ok tt
  missing_error (some sha2) =
      err (http 400 (concat "Missing binary data for attachment with sha2 " sha2))

  abbrev pub mismatch_error : Option (AttachmentPart p) → Result (Unit {0})
  mismatch_error none = ok tt
  mismatch_error (some part) = err (
      http 400 (
        concat "Attachment hash mismatch: expected "
          (concat part.sha2 (concat ", got " (sv.sha256_hex part.contents)))))

  -- `validateAttachmentParts`
  unfoldable pub validate_attachment_parts :
      List Fields → List (AttachmentPart p) → Result (Unit {0})
  validate_attachment_parts statements parts = do
    excess_error (first (λ part. not (contains (batch_hashes false statements) part.sha2)) parts)
    missing_error (first (λ sha2. not (has_part parts sha2)) (batch_hashes true statements))
    mismatch_error (first (λ part. not (sv.sha256_hex part.contents == part.sha2)) parts)
    validate_signed_statements p sv.signatures parts statements

  abbrev pub validate_parts : List Fields → Option (List (AttachmentPart p)) → Result (Unit {0})
  validate_parts statements none = ok tt
  validate_parts statements (some parts) = validate_attachment_parts statements parts

  -- the rows for the attachments of one statement whose data was sent
  abbrev pub attachment_rows : String → List Json → List (AttachmentPart p) → List (AttachmentRow p)
  attachment_rows id [] parts = []
  attachment_rows id (att ∷ rest) parts =
      elim (part_of (display_option (read_prop "sha2" (some att))) parts) [
        | none ↦ attachment_rows id rest parts
        | some part ↦
            record {
              statement_id = id;
              attachment_sha = display_option (read_prop "sha2" (some att));
              content_type = part.content_type;
              contents = part.contents;
            }
            ∷ attachment_rows id rest parts
      ]

  abbrev pub rows_of :
      Option (List (AttachmentPart p)) → InsertStatementResult → Fields → List (AttachmentRow p)
  rows_of none r stmt = []
  rows_of (some parts) r stmt =
      if r.inserted
      then attachment_rows (id_text stmt) (items (get "attachments" stmt)) parts
      else []

  unfoldable pub batch_rows :
      Option (List (AttachmentPart p))
      → List InsertStatementResult
      → List Fields
      → List (AttachmentRow p)
  batch_rows parts [] stmts = []
  batch_rows parts (r ∷ rs) [] = []
  batch_rows parts (r ∷ rs) (stmt ∷ stmts) = rows_of parts r stmt ++ batch_rows parts rs stmts
