-- ===== src/Statement/Attachments/Laws.antt =====
-- The batches whose attachments pass the checks.
use xapi_lrs.Prelude.{
  String, ◌≡◌, refl, inl, inr, Bool, true, false, not, Option, none, some, List, [], ◌∷◌, ◌==◌,
  arith, All, first, contains, Bool-cases,
}
use xapi_lrs.Http.{ok, ◌>>=◌, >>=-eq-ok}
use xapi_lrs.Json.{Fields, get}
use xapi_lrs.Platform.{Platform}
use xapi_lrs.Statement.Decompose.{items}
use xapi_lrs.Statement.Services.{Services, AttachmentPart}
use xapi_lrs.Statement.Signatures.{validate_signed_statements}
use xapi_lrs.Statement.Signatures.Laws.{IsChecked, validate_signed_statements-IsChecked}
use xapi_lrs.Statement.Attachments.{
  batch_hashes, has_part, excess_error, missing_error, mismatch_error, validate_attachment_parts,
}

first-none {ℓ} :
    {A : Type ℓ} (test : A → Bool) (xs : List A)
    → first (λ x. not (test x)) xs ≡ none
    → All (λ x. test x ≡ true) xs
first-none test [] h = tt
first-none test (x ∷ xs) h = elim (Bool-cases (test x)) [
  | inl holds ↦ (holds, first-none test xs (rw holds at h))
  | inr fails ↦ ground (arith, fails)
]

module _ (p : Platform) (sv : Services p) (on : sv.signatures.verify_signatures ≡ true) where
  -- what the checks promise of a batch and its parts
  abbrev pub IsComplete : List Fields → List (AttachmentPart p) → Type 0
  IsComplete statements parts =
      All (λ part. contains (batch_hashes false statements) part.sha2 ≡ true) parts
      × All (λ sha2. has_part p sv parts sha2 ≡ true) (batch_hashes true statements)
      × All (λ part. (sv.sha256_hex part.contents == part.sha2) ≡ true) parts
      × All (λ stmt. All (IsChecked p sv.signatures parts stmt) (items (get "attachments" stmt)))
          statements

  excess_none :
      (found : Option (AttachmentPart p)) {u : Unit {0}}
      → excess_error p sv found ≡ ok u
      → found ≡ none
  excess_none none h = refl
  excess_none (some part) h = cc

  missing_none :
      (found : Option String) {u : Unit {0}} → missing_error p sv found ≡ ok u → found ≡ none
  missing_none none h = refl
  missing_none (some sha2) h = cc

  mismatch_none :
      (found : Option (AttachmentPart p)) {u : Unit {0}}
      → mismatch_error p sv found ≡ ok u
      → found ≡ none
  mismatch_none none h = refl
  mismatch_none (some part) h = cc

  -- Where the verification of signatures is on, a batch passes the checks of its attachments only
  -- if every part is named by a statement, every attachment without a `fileUrl` has its part, every
  -- part has the hash that it claims, and every signature that was sent is one of its statement.
  pub validate_attachment_parts-IsComplete :
      (statements : List Fields) (parts : List (AttachmentPart p)) {u : Unit {0}}
      → validate_attachment_parts p sv statements parts ≡ ok u
      → IsComplete statements parts
  unfolding validate_attachment_parts
  validate_attachment_parts-IsComplete statements parts h =
      let (_, named, h1) =
        >>=-eq-ok
          (excess_error p sv
            (first (λ part. not (contains (batch_hashes false statements) part.sha2)) parts))
          _ h in
      let (_, sent, h2) =
        >>=-eq-ok
          (missing_error p sv
            (first (λ sha2. not (has_part p sv parts sha2)) (batch_hashes true statements)))
          (λ _.
            mismatch_error p sv
              (first (λ part. not (sv.sha256_hex part.contents == part.sha2)) parts)
            >>= λ _. validate_signed_statements p sv.signatures parts statements)
          h1 in
      let (_, hashed, h3) =
        >>=-eq-ok
          (mismatch_error p sv
            (first (λ part. not (sv.sha256_hex part.contents == part.sha2)) parts))
          (λ _. validate_signed_statements p sv.signatures parts statements) h2 in
      (
        first-none (λ part. contains (batch_hashes false statements) part.sha2) parts
            (excess_none _ named),
        first-none (has_part p sv parts) (batch_hashes true statements) (missing_none _ sent),
        first-none (λ part. sv.sha256_hex part.contents == part.sha2) parts
            (mismatch_none _ hashed),
        validate_signed_statements-IsChecked p sv.signatures on parts statements h3,
      )
