-- ===== src/Tests.antt =====
-- Concrete services and requests on which the theorems are tried.
pub mod Documents
pub mod Statements
pub mod Access
pub mod Voiding
pub mod Deletions
pub mod Queries
pub mod Retrievals
pub mod Streams
pub mod Activities
pub mod Listeners
pub mod Persons
pub mod Attachments
pub mod Requests
use xapi_lrs.Prelude.{ℕ, String, Option, none, some, List, ltb, show, true, false}
use xapi_lrs.Http.{ok}
use xapi_lrs.Json.{Json, Fields, end, field, str, obj}
use xapi_lrs.Platform.{Platform, since_epoch, whole}
use xapi_lrs.Etag.{ConcurrencyHeaders}
use xapi_lrs.Statement.Services.{Services, SignatureLibrary, success}

abbrev pub one_field : String → String → Fields
one_field k v = field k (str v) end

-- bodies that stay JSON values, and agent parameters that are mailboxes
abbrev pub test_platform : Platform
test_platform = record {
  Buffer = Json;
  size = λ b. 0;
  parse_text = λ s. some (obj (one_field "mbox" s));
  parse_buffer = λ b. some b;
  stringify_buffer = λ v. v;
  sha1_hex = λ b. "da39";
  js_date = λ s. some (since_epoch 0);
  pg_timestamp = λ s. some 0;
  pg_uuid = λ s. some s;
  pg_uuid_bits = λ s. some 0;
  uuid_text = λ n. "";
  stringify_text = λ v. "";
  pg_json_text = λ v. "";
  to_lower = λ s. s;
  Number = ℕ;
  parse_float = λ s. 0;
  number_of = λ s. 1;
  is_less = ltb;
  number_text = show;
  number_one = 1;
  place = whole;
}

-- signatures whose text is their header and their payload
abbrev pub test_signatures : SignatureLibrary test_platform
test_signatures = record {
  verify_signatures = true;
  text_of_part = λ b. "a.b.c";
  decode_header = λ s. some (one_field "alg" "RS256");
  base64url_json = λ s. some (obj (one_field "verb" s));
  Key = ℕ;
  import_x509 = λ pem alg. none;
  compact_verify = λ jws key. false;
}

abbrev pub test_services : Services test_platform
test_services = record {
  safe_parse = λ version input. success input;
  uuidv7 = λ i. "u";
  now_iso = "2026-01-01T00:00:00.000Z";
  random_uuid = λ i. "00000000-0000-4000-8000-000000000007";
  transaction_time = 0;
  stored_iso = "2026-01-01T00:00:00.000Z";
  sha256_hex = λ b. "e3b0";
  quote = λ s. s;
  signatures = test_signatures;
}

abbrev pub no_headers : ConcurrencyHeaders
no_headers = record { if_match = none; if_none_match = none }

abbrev pub if_match_da39 : ConcurrencyHeaders
if_match_da39 = record { if_match = some "\"da39\""; if_none_match = none }
