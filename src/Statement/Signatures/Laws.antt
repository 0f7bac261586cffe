-- ===== src/Statement/Signatures/Laws.antt =====
-- What the check of signatures shows of a batch that passes it.
use xapi_lrs.Prelude.{
  ℕ, String, ◌≡◌, refl, ◌⊎◌, inl, inr, Bool, true, false, Option, none, some, List, [], ◌∷◌, All,
  split, Bool-cases,
}
use xapi_lrs.Http.{ok, guard, ◌>>=◌, >>=-eq-ok}
use xapi_lrs.Json.{Json, Fields, get, is_text, display, display_option}
use xapi_lrs.Platform.{Platform}
use xapi_lrs.Statement.Decompose.{read_prop, items}
use xapi_lrs.Statement.Compare.Equivalent.{statements_equivalent}
use xapi_lrs.Statement.Services.{SignatureLibrary, AttachmentPart}
use xapi_lrs.Statement.Signatures.{
  is_allowed, spread_fields, or_400, is_compact, second_part, certificate_pem, first_certificate,
  verify_with, check_certificate, check_payload, check_header, check_jws, check_part, part_with,
  is_signature, check_signature, check_signatures, validate_signed_statements,
}

guard_ok :
    (b : Bool) (n : ℕ) (message : String) {u : Unit {0}} → guard b n message ≡ ok u → b ≡ true
guard_ok true n message h = refl
guard_ok false n message h = cc

or_400-eq-ok {ℓ} :
    {A : Type ℓ} (message : String) (o : Option A) {a : A} → or_400 message o ≡ ok a → o ≡ some a
or_400-eq-ok message none h = cc
or_400-eq-ok message (some a) h = cc

module _ (p : Platform) (lib : SignatureLibrary p) where
  -- the header has no certificate, or the text verifies with the key of its first one
  abbrev pub HasVerified : String → Fields → Type 0
  HasVerified jws header =
      (first_certificate (get "x5c" header) ≡ none)
      ⊎ ((der : Json) × (key : lib.Key) × (first_certificate (get "x5c" header) ≡ some der)
          × (lib.import_x509 (certificate_pem (display der)) (display_option (get "alg" header))
              ≡ some key)
          × (lib.compact_verify jws key ≡ true))

  -- the text is a signature of the statement
  abbrev pub IsSignatureOf : String → Fields → Type 0
  IsSignatureOf jws stmt =
      (header : Fields) × (payload : Json) × (lib.decode_header jws ≡ some header)
      × (is_allowed (get "alg" header) ≡ true)
      × (lib.base64url_json (second_part (split b'.' jws)) ≡ some payload)
      × (statements_equivalent (spread_fields payload) stmt ≡ true)
      × HasVerified jws header

  -- an attachment that is no signature, one whose data were not sent, or one whose data are a
  -- signature of the statement
  abbrev pub IsChecked : List (AttachmentPart p) → Fields → Json → Type 0
  IsChecked parts stmt att =
      (is_signature p lib att ≡ false)
      ⊎ (part_with p lib parts att ≡ none)
      ⊎ ((part : AttachmentPart p) × (part_with p lib parts att ≡ some part)
          × IsSignatureOf (lib.text_of_part part.contents) stmt)

  check_certificate-HasVerified :
      (jws : String) (header : Fields) (found : Option Json) {u : Unit {0}}
      → first_certificate (get "x5c" header) ≡ found
      → check_certificate p lib jws header found ≡ ok u
      → HasVerified jws header
  check_certificate-HasVerified jws header none at h = inl at
  check_certificate-HasVerified jws header (some der) at h =
      let (key, imported, h1) =
        >>=-eq-ok
          (or_400 "x5c certificate in JWS header could not be parsed"
            (lib.import_x509 (certificate_pem (display der)) (display_option (get "alg" header))))
          (verify_with p lib jws) h in
      inr (
        der,
        key,
        at,
        or_400-eq-ok "x5c certificate in JWS header could not be parsed" (lib.import_x509 _ _)
            imported,
        guard_ok (lib.compact_verify jws key) 400
            "JWS signature does not verify against the x5c certificate" h1,
      )

  module _ (on : lib.verify_signatures ≡ true) where
    check_payload-passes :
        (stmt : Fields) (jws : String) (header : Fields) (payload : Json) {u : Unit {0}}
        → check_payload p lib stmt jws header payload ≡ ok u
        → (statements_equivalent (spread_fields payload) stmt ≡ true) × HasVerified jws header
    check_payload-passes stmt jws header payload h =
        let (_, same, h1) =
          >>=-eq-ok
            (guard (statements_equivalent (spread_fields payload) stmt) 400
              "Signed statement payload is not logically equivalent to the received statement")
            (λ _. check_certificate p lib jws header (first_certificate (get "x5c" header)))
            (rw on at h) in
        (
          guard_ok _ 400 _ same,
          check_certificate-HasVerified jws header (first_certificate (get "x5c" header)) refl h1,
        )

    check_jws-IsSignatureOf :
        (stmt : Fields) (jws : String) {u : Unit {0}}
        → check_jws p lib stmt jws ≡ ok u
        → IsSignatureOf jws stmt
    check_jws-IsSignatureOf stmt jws h =
        let (header, decoded, h1) =
          >>=-eq-ok (or_400 "Signature attachment is not a valid JWS" (lib.decode_header jws))
            (check_header p lib stmt jws) h in
        let (_, allowed, h2) =
          >>=-eq-ok (guard (is_allowed (get "alg" header)) 400 _)
            (λ _.
              guard (is_compact (split b'.' jws)) 400
                "Signature attachment is not a valid JWS compact serialization"
              >>= λ _.
                  or_400 "JWS payload is not valid JSON"
                    (lib.base64url_json (second_part (split b'.' jws)))
                  >>= check_payload p lib stmt jws header)
            h1 in
        let (_, _, h3) =
          >>=-eq-ok
            (guard (is_compact (split b'.' jws)) 400
              "Signature attachment is not a valid JWS compact serialization")
            (λ _.
              or_400 "JWS payload is not valid JSON"
                (lib.base64url_json (second_part (split b'.' jws)))
              >>= check_payload p lib stmt jws header)
            h2 in
        let (payload, parsed, h4) =
          >>=-eq-ok
            (or_400 "JWS payload is not valid JSON"
              (lib.base64url_json (second_part (split b'.' jws))))
            (check_payload p lib stmt jws header) h3 in
        let (same, verified) = check_payload-passes stmt jws header payload h4 in
        (
          header,
          payload,
          or_400-eq-ok "Signature attachment is not a valid JWS" (lib.decode_header jws) decoded,
          guard_ok (is_allowed (get "alg" header)) 400 _ allowed,
          or_400-eq-ok "JWS payload is not valid JSON" (lib.base64url_json _) parsed,
          same,
          verified,
        )

    check_part-IsChecked :
        (parts : List (AttachmentPart p)) (stmt : Fields) (att : Json)
        (found : Option (AttachmentPart p)) {u : Unit {0}}
        → part_with p lib parts att ≡ found
        → check_part p lib stmt found ≡ ok u
        → IsChecked parts stmt att
    check_part-IsChecked parts stmt att none at h = inr (inl at)
    check_part-IsChecked parts stmt att (some part) at h =
        inr (inr (part, at, check_jws-IsSignatureOf stmt (lib.text_of_part part.contents) h))

    check_signature-IsChecked :
        (parts : List (AttachmentPart p)) (stmt : Fields) (att : Json) {u : Unit {0}}
        → check_signature p lib parts stmt att ≡ ok u
        → IsChecked parts stmt att
    unfolding check_signature
    check_signature-IsChecked parts stmt att h = elim (Bool-cases (is_signature p lib att)) [
      | inl signs ↦
          let (_, _, h1) =
            >>=-eq-ok
              (guard (is_text (read_prop "contentType" (some att)) "application/octet-stream") 400
                "Signed statement attachment must have contentType \"application/octet-stream\"")
              (λ _. check_part p lib stmt (part_with p lib parts att)) (rw signs at h) in
          check_part-IsChecked parts stmt att (part_with p lib parts att) refl h1
      | inr plain ↦ inl plain
    ]

    check_signatures-IsChecked :
        (parts : List (AttachmentPart p)) (stmt : Fields) (atts : List Json) {u : Unit {0}}
        → check_signatures p lib parts stmt atts ≡ ok u
        → All (IsChecked parts stmt) atts
    unfolding check_signatures
    check_signatures-IsChecked parts stmt [] h = tt
    check_signatures-IsChecked parts stmt (att ∷ rest) h =
        let (_, first_one, h1) =
          >>=-eq-ok (check_signature p lib parts stmt att)
            (λ _. check_signatures p lib parts stmt rest) h in
        (
          check_signature-IsChecked parts stmt att first_one,
          check_signatures-IsChecked parts stmt rest h1,
        )

    -- Where verification is on, a batch passes the check only if every signature attachment whose
    -- data were sent is a signature in an allowed algorithm of a payload that is equivalent to its
    -- statement, and verifies with the certificate that its header has, if there is one.
    pub validate_signed_statements-IsChecked :
        (parts : List (AttachmentPart p)) (statements : List Fields) {u : Unit {0}}
        → validate_signed_statements p lib parts statements ≡ ok u
        → All (λ stmt. All (IsChecked parts stmt) (items (get "attachments" stmt))) statements
    unfolding validate_signed_statements
    validate_signed_statements-IsChecked parts [] h = tt
    validate_signed_statements-IsChecked parts (stmt ∷ rest) h =
        let (_, first_one, h1) =
          >>=-eq-ok (check_signatures p lib parts stmt (items (get "attachments" stmt)))
            (λ _. validate_signed_statements p lib parts rest) h in
        (
          check_signatures-IsChecked parts stmt (items (get "attachments" stmt)) first_one,
          validate_signed_statements-IsChecked parts rest h1,
        )
