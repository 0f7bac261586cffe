-- ===== src/Statement/Signatures.antt =====
-- xapi/signature.ts: the check of the signatures that are sent as attachments. The warning that is
-- logged once when verification is off is left out.
pub mod Laws
use Prim.Native.String
use xapi_lrs.Prelude.{
  ℕ, zero, suc, String, Bool, true, false, not, ◌&&◌, ◌||◌, ◌=ℕ◌, Option, none, some, List, [], ◌∷◌,
  ◌==◌, first, length, concat, split, if◌then◌else◌,
}
use xapi_lrs.Http.{Result, ok, err, http, guard, ◌>>=◌, ◌>>◌}
use xapi_lrs.Json.{
  Json, Items, Fields, null, str, arr, obj, nil, cons, end, get, is_text, display, display_option,
}
use xapi_lrs.Platform.{Platform}
use xapi_lrs.Statement.Decompose.{read_prop, items}
use xapi_lrs.Statement.Format.{indexed}
use xapi_lrs.Statement.Compare.Equivalent.{statements_equivalent}
use xapi_lrs.Statement.Services.{SignatureLibrary, AttachmentPart}

-- SIGNATURE_USAGE_TYPE
abbrev pub signature_usage_type : String
signature_usage_type = "http://adlnet.gov/expapi/attachments/signature"

-- `ALLOWED_ALGORITHMS.has(header.alg)`
unfoldable pub is_allowed : Option Json → Bool
is_allowed alg = is_text alg "RS256" || is_text alg "RS384" || is_text alg "RS512"

-- `header.alg ?? 'none'`
abbrev pub algorithm_text : Option Json → String
algorithm_text none = "none"
algorithm_text (some null) = "none"
algorithm_text alg = display_option alg

-- the characters of a text, as `{ ...text }` numbers them
abbrev pub text_items : String → Items
text_items String.[] = nil
text_items (String.◌∷◌ c s) = cons (str (String.◌∷◌ c "")) (text_items s)

-- `{ ...payload }`
abbrev pub spread_fields : Json → Fields
spread_fields (obj o) = o
spread_fields (arr vs) = indexed zero vs
spread_fields (str s) = indexed zero (text_items s)
spread_fields _ = end

abbrev pub or_400 {ℓ} : {A : Type ℓ} → String → Option A → Result A
or_400 message none = err (http 400 message)
or_400 message (some a) = ok a

-- the payload, the second of the three parts
abbrev pub is_compact : List String → Bool
is_compact parts = length parts =ℕ 3

abbrev pub second_part : List String → String
second_part (a ∷ b ∷ rest) = b
second_part _ = ""

abbrev pub certificate_pem : String → String
certificate_pem der =
    concat "-----BEGIN CERTIFICATE-----\n" (concat der "\n-----END CERTIFICATE-----")

-- `header.x5c[0]`, where there is one
abbrev pub first_certificate : Option Json → Option Json
first_certificate (some (arr (cons der rest))) = some der
first_certificate _ = none

module _ (p : Platform) (lib : SignatureLibrary p) where
  abbrev pub verify_with : String → lib.Key → Result (Unit {0})
  verify_with jws key =
      guard (lib.compact_verify jws key) 400
        "JWS signature does not verify against the x5c certificate"

  abbrev pub check_certificate : String → Fields → Option Json → Result (Unit {0})
  check_certificate jws header none = ok tt
  check_certificate jws header (some der) =
      or_400 "x5c certificate in JWS header could not be parsed"
        (lib.import_x509 (certificate_pem (display der)) (display_option (get "alg" header)))
      >>= verify_with jws

  -- the checks of the payload and of the certificate, if they are on
  abbrev pub check_payload : Fields → String → Fields → Json → Result (Unit {0})
  check_payload stmt jws header payload =
      if lib.verify_signatures
      then guard (statements_equivalent (spread_fields payload) stmt) 400
          "Signed statement payload is not logically equivalent to the received statement"
        >> check_certificate jws header (first_certificate (get "x5c" header))
      else ok tt

  abbrev pub check_header : Fields → String → Fields → Result (Unit {0})
  check_header stmt jws header = do
    guard (is_allowed (get "alg" header)) 400 (
        concat "JWS signature must use algorithm RS256, RS384, or RS512 (got \""
          (concat (algorithm_text (get "alg" header)) "\")"))
    guard (is_compact (split b'.' jws)) 400
        "Signature attachment is not a valid JWS compact serialization"
    (or_400 "JWS payload is not valid JSON" (lib.base64url_json (second_part (split b'.' jws)))
        >>= check_payload stmt jws header)

  abbrev pub check_jws : Fields → String → Result (Unit {0})
  check_jws stmt jws =
      or_400 "Signature attachment is not a valid JWS" (lib.decode_header jws)
      >>= check_header stmt jws

  -- the signature whose data were sent
  abbrev pub check_part : Fields → Option (AttachmentPart p) → Result (Unit {0})
  check_part stmt none = ok tt
  check_part stmt (some part) = check_jws stmt (lib.text_of_part part.contents)

  abbrev pub part_with : List (AttachmentPart p) → Json → Option (AttachmentPart p)
  part_with parts att =
      first (λ part. part.sha2 == display_option (read_prop "sha2" (some att))) parts

  abbrev pub is_signature : Json → Bool
  is_signature att = is_text (read_prop "usageType" (some att)) signature_usage_type

  unfoldable pub check_signature : List (AttachmentPart p) → Fields → Json → Result (Unit {0})
  check_signature parts stmt att =
      if is_signature att
      then guard (is_text (read_prop "contentType" (some att)) "application/octet-stream") 400
          "Signed statement attachment must have contentType \"application/octet-stream\""
        >> check_part stmt (part_with parts att)
      else ok tt

  unfoldable pub check_signatures : List (AttachmentPart p) → Fields → List Json → Result (Unit {0})
  check_signatures parts stmt [] = ok tt
  check_signatures parts stmt (att ∷ rest) =
      check_signature parts stmt att >> check_signatures parts stmt rest

  -- `validateSignedStatements`
  unfoldable pub validate_signed_statements :
      List (AttachmentPart p) → List Fields → Result (Unit {0})
  validate_signed_statements parts [] = ok tt
  validate_signed_statements parts (stmt ∷ rest) =
      check_signatures parts stmt (items (get "attachments" stmt))
      >> validate_signed_statements parts rest
