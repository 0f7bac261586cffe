-- ===== src/Tests/Attachments.antt =====
-- The theorem on the attachments of a batch, at a signed statement.
use xapi_lrs.Prelude.{◌≡◌, refl, [], ◌∷◌, split_first}
use xapi_lrs.Http.{ok}
use xapi_lrs.Json.{Fields, end, field, str, arr, obj, nil, cons, get, delete, prop, display}
use xapi_lrs.Statement.Services.{AttachmentPart}
use xapi_lrs.Statement.Compare.Equivalent.{
  statements_equivalent, strip_exceptions, deep_equal, no_extras,
}
use xapi_lrs.Statement.Signatures.{
  signature_usage_type, is_allowed, check_signature, check_signatures, validate_signed_statements,
}
use xapi_lrs.Statement.Attachments.{validate_attachment_parts}
use xapi_lrs.Statement.Attachments.Laws.{IsComplete, validate_attachment_parts-IsComplete}
use xapi_lrs.Tests.{test_platform, test_services}

abbrev signed_statement : Fields
signed_statement = field "verb" (str "b") (
    field "attachments"
      (arr (
        cons
          (obj (
            field "usageType" (str signature_usage_type) (
              field "contentType" (str "application/octet-stream")
                (field "sha2" (str "e3b0") end))))
          nil))
      end)

abbrev signature_part : AttachmentPart test_platform
signature_part = record {
  sha2 = "e3b0";
  content_type = "application/octet-stream";
  contents = str "";
}

signed_passes :
    validate_attachment_parts test_platform test_services
      (signed_statement ∷ [])
      (signature_part ∷ [])
    ≡ ok tt
unfolding validate_attachment_parts validate_signed_statements check_signatures check_signature
    is_allowed statements_equivalent strip_exceptions deep_equal no_extras get delete prop
    split_first display
signed_passes = refl

validate_attachment_parts-IsComplete_example :
    IsComplete test_platform test_services refl (signed_statement ∷ []) (signature_part ∷ [])
validate_attachment_parts-IsComplete_example =
    validate_attachment_parts-IsComplete test_platform test_services refl (signed_statement ∷ [])
      (signature_part ∷ []) signed_passes
