-- ===== src/Tests/Requests.antt =====
-- The theorems on requests, their callers and their bodies, at concrete requests.
use xapi_lrs.Prelude.{
  String, ◌≡◌, refl, some, none, [], ◌∷◌, All, contains, includes, split_first, trim_start,
  trim_end, lines_of, if◌then◌else◌, drop_chars, split_at, split_runs, split_spaces, optional_patch,
}
use xapi_lrs.Http.{ok}
use xapi_lrs.Json.{Fields, str, obj, get}
use xapi_lrs.Version.{on_line, version_middleware, v2_0_0}
use xapi_lrs.Auth.{
  basic, statements_write, state, includes_scope, scope_name, scope_middleware, required_scopes,
  has_scope,
}
use xapi_lrs.Authentication.{
  CredentialDb, TokenLibrary, auth_middleware, extract_basic_auth, authenticate_basic_credential,
  extract_scopes,
}
use xapi_lrs.Authentication.Scopes.{extract_scopes-scope}
use xapi_lrs.RateLimit.{Limiter, new_limiter, check, rate_limit_middleware, bucket, set_bucket}
use xapi_lrs.Multipart.{
  Bytewise, assemble, collect_parts, sanitize_content_type, base_type, set_part,
  parse_multipart_mixed,
}
use xapi_lrs.Multipart.Frame.{Bytes, has_prefix, positions, parts_at}
use xapi_lrs.Multipart.Frame.Laws.{framed}
use xapi_lrs.Multipart.Part.{find_double_newline, strip_break, data_end, put_header, parse_part}
use xapi_lrs.Multipart.Laws.{Section, written_all, meanings, parse_multipart_mixed-framed}
use xapi_lrs.Multipart.Safety.{IsInert, parse_multipart_mixed-IsInert}
use xapi_lrs.App.Rewrite.{HttpRequest, Web, value_of, alternate_request}
use xapi_lrs.App.{
  AppDeps, Context, admitted, size_limit, body_middleware, authenticated, guarded, admit, fetch,
}
use xapi_lrs.App.Laws.{IsServed, IsGuarded, fetch-IsGuarded, fetch_enough, served_result}
use xapi_lrs.Statement.Services.{AttachmentPart}
use xapi_lrs.Tests.{test_platform, one_field}

abbrev scoped : Fields
scoped = one_field "scope" "openid  state"

scoped_scopes : extract_scopes scoped ≡ some (state ∷ [])
unfolding extract_scopes get split_runs
scoped_scopes = refl

extract_scopes-scope_example :
    includes_scope (state ∷ []) state ≡ contains (split_spaces "openid  state") (scope_name state)
unfolding get
extract_scopes-scope_example =
    extract_scopes-scope scoped "openid  state" refl refl scoped_scopes state

abbrev test_web : Web test_platform
test_web = record {
  text_of = λ b. "";
  form_pairs = λ s. [];
  utf8 = λ s. str s;
  no_bytes = str "";
  to_upper = λ s. s;
  header_value = λ s. some s;
  number = λ n. n;
}

-- credentials that are sent as they are
abbrev test_tokens : TokenLibrary
test_tokens = record {
  atob = λ s. some s;
  decode_jwt = λ t. none;
  jwt_verify = λ uri issuer audience t. none;
}

abbrev test_credentials : CredentialDb
test_credentials = record {
  credentials = record { id = "c1"; api_key = "key"; secret_key = "s3"; account_id = "a1" } ∷ [];
  accounts = record { id = "a1"; username = "ann" } ∷ [];
  scopes = record { api_key = "key"; secret_key = "s3"; scope = some statements_write } ∷ [];
}

-- the headers of a statement, and of an attachment, each by one byte
abbrev test_decode : Bytes → String
test_decode b =
    if has_prefix (1 ∷ []) b
    then "content-type: application/json"
    else if has_prefix (2 ∷ []) b
    then "content-type: text/html\r\nx-experience-api-hash: ab\r\ncontent-transfer-encoding: binary"
    else "3"

abbrev test_bytewise : Bytewise test_platform
test_bytewise = record {
  encode = λ s. 45 ∷ 45 ∷ 66 ∷ [];
  decode = test_decode;
  bytes_of = λ b. [];
  buffer_of = λ b. str "";
}

abbrev test_deps : AppDeps test_platform
test_deps = record {
  web = test_web;
  bytewise = test_bytewise;
  tokens = test_tokens;
  jwt_config = none;
  credentials = test_credentials;
  max_request_body_bytes = 100;
  trusted_proxy_hops = 1;
}

abbrev post_request : HttpRequest test_platform
post_request = record {
  method = "POST";
  path = "/xapi/statements";
  query = [];
  headers =
      ("x-experience-api-version", "2.0.0")
      ∷ ("authorization", "Basic key:s3")
      ∷ ("content-type", "application/json")
      ∷ [];
  body = str "statement";
}

abbrev post_context : Context test_platform
post_context = record {
  version = v2_0_0;
  body_json = some (str "statement");
  raw_body = str "statement";
  attachments = none;
  auth = some (basic "c1" "ann" (statements_write ∷ []));
}

abbrev limiter : Limiter
limiter = new_limiter 60 2

abbrev limiter_after : Limiter
limiter_after = record limiter { buckets = ("cred:c1", 5 ∷ []) ∷ [] }

post_admitted :
    fetch test_platform test_deps 2 5 limiter post_request
    ≡ some (limiter_after, admitted post_request post_context)
unfolding fetch admit guarded alternate_request value_of version_middleware on_line optional_patch
    size_limit body_middleware authenticated auth_middleware extract_basic_auth drop_chars split_at
    authenticate_basic_credential scope_middleware required_scopes has_scope rate_limit_middleware
    check bucket set_bucket includes
post_admitted = refl

fetch-IsGuarded_example :
    IsServed test_platform test_deps refl post_request post_request
    × IsGuarded test_platform test_deps refl post_request post_context
fetch-IsGuarded_example =
    fetch-IsGuarded test_platform test_deps refl 2 5 limiter post_request post_admitted

fetch_enough_example :
    fetch test_platform test_deps 5 5 limiter post_request
    ≡ some (
        served_result test_platform test_deps refl 5 limiter post_request
          (alternate_request test_platform test_web post_request))
fetch_enough_example = fetch_enough test_platform test_deps refl 3 5 limiter post_request

abbrev delimiter : Bytes
delimiter = 45 ∷ 45 ∷ 66 ∷ []

abbrev closing : Bytes
closing = 45 ∷ 45 ∷ 13 ∷ 10 ∷ []

-- a statement, and an attachment whose data hold line breaks
abbrev statement_section : Section
statement_section = record { head = 1 ∷ []; contents = 7 ∷ [] }

abbrev attachment_section : Section
attachment_section = record { head = 2 ∷ []; contents = 13 ∷ 10 ∷ 45 ∷ 45 ∷ 10 ∷ [] }

abbrev multipart_text : Bytes
multipart_text =
    framed delimiter (written_all (statement_section ∷ attachment_section ∷ [])) closing

parse_multipart_mixed-framed_example :
    parse_multipart_mixed test_platform test_bytewise multipart_text "B"
    ≡ assemble test_platform test_bytewise
        (meanings test_platform test_bytewise (statement_section ∷ attachment_section ∷ []))
unfolding has_prefix
parse_multipart_mixed-framed_example =
    parse_multipart_mixed-framed test_platform test_bytewise "B" 45 (45 ∷ 66 ∷ []) closing
      statement_section (attachment_section ∷ []) refl refl refl refl

abbrev octets : AttachmentPart test_platform
octets = record { sha2 = "ab"; content_type = "application/octet-stream"; contents = str "" }

multipart_parsed :
    parse_multipart_mixed test_platform test_bytewise multipart_text "B"
    ≡ ok (obj (one_field "mbox" "3"), octets ∷ [])
unfolding parse_multipart_mixed has_prefix positions parts_at find_double_newline strip_break
    data_end put_header parse_part assemble collect_parts sanitize_content_type base_type set_part
    includes split_first trim_start trim_end lines_of split_at
multipart_parsed = refl

parse_multipart_mixed-IsInert_example : All (IsInert test_platform test_bytewise refl) (octets ∷ [])
parse_multipart_mixed-IsInert_example =
    parse_multipart_mixed-IsInert test_platform test_bytewise refl multipart_text "B"
      multipart_parsed
