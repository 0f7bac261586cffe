-- ===== src/App.antt =====
-- app.ts: what a request under /xapi passes before its route, in the order of the middleware: the
-- alternate request syntax, the version, the size and the parsing of the body, the authentication,
-- the scope and the rate limit; and how errors are answered. CORS, request identifiers, logging and
-- tracing are left out.
pub mod Rewrite
pub mod Laws
use xapi_lrs.Prelude.{
  ℕ, zero, suc, String, Bool, true, false, not, ◌&&◌, ◌||◌, Option, none, some, List, ◌==◌, ltb,
  includes, or_else, if◌then◌else◌,
}
use xapi_lrs.Http.{Error, http, with_status, other, Result, ok, err, guard, ◌>>=◌, ◌>>◌}
use xapi_lrs.Json.{Json}
use xapi_lrs.Platform.{Platform}
use xapi_lrs.Version.{XapiVersion, version_middleware}
use xapi_lrs.Auth.{AuthInfo, scope_middleware}
use xapi_lrs.Authentication.{TokenLibrary, JwtConfig, CredentialDb, auth_middleware}
use xapi_lrs.RateLimit.{Limiter, rate_limit_middleware}
use xapi_lrs.ClientIp.{resolve_client_ip}
use xapi_lrs.Multipart.{Bytewise, extract_boundary, parse_multipart_mixed}
use xapi_lrs.Statement.Services.{AttachmentPart}
use Rewrite.{Pairs, value_of, HttpRequest, Web, alternate_request}

-- the variables of the context that the routes read
pub record Context (p : Platform) : Type 0 where
  pub version : XapiVersion
  pub body_json : Option Json
  pub raw_body : p.Buffer
  pub attachments : Option (List (AttachmentPart p))
  pub auth : Option AuthInfo

pub record ParsedBody (p : Platform) : Type 0 where
  pub parsed_json : Option Json
  pub raw : p.Buffer
  pub parts : Option (List (AttachmentPart p))

-- what the app is made with, of its configuration, and the tables of its credentials
pub record AppDeps (p : Platform) : Type 0 where
  pub web : Web p
  pub bytewise : Bytewise p
  pub tokens : TokenLibrary
  pub jwt_config : Option JwtConfig
  pub credentials : CredentialDb
  pub max_request_body_bytes : ℕ
  pub trusted_proxy_hops : ℕ

-- `app.onError`: the status and the message of an error
abbrev pub on_error : Error → ℕ × String
on_error (http status message) = (status, message)
on_error (with_status status message) =
    (status, if message == "" then "Authentication failed" else message)
on_error other = (500, "Internal server error")

pub data Outcome (p : Platform) : Type 0 where
  -- the route runs
  admitted : HttpRequest p → Context p → Outcome p
  refused : Error → Outcome p
  -- 429 with its Retry-After
  limited : (retry_after_seconds : ℕ) → Outcome p

module _ (p : Platform) (deps : AppDeps p) where
  abbrev pub request_header : String → HttpRequest p → Option String
  request_header name req = value_of name req.headers

  -- the limit on the announced size: a header that is empty, or no number, lets the request through
  unfoldable pub size_limit : Option String → Result (Unit {0})
  size_limit none = ok tt
  size_limit (some text) =
      guard
        (text == ""
          || not (p.is_less (deps.web.number deps.max_request_body_bytes) (p.number_of text)))
        413 "Request body too large"

  abbrev pub has_no_body : String → Bool
  has_no_body method =
      method == "GET" || method == "DELETE" || method == "HEAD" || method == "OPTIONS"

  abbrev pub without_parts : p.Buffer → Option Json → ParsedBody p
  without_parts raw parsed_json = record { parsed_json = parsed_json; raw = raw; parts = none }

  abbrev pub with_parts : p.Buffer → Json × List (AttachmentPart p) → Result (ParsedBody p)
  with_parts raw (json, parts) =
      ok (record { parsed_json = some json; raw = raw; parts = some parts })

  abbrev pub multipart_body : p.Buffer → Option String → Result (ParsedBody p)
  multipart_body raw none = ok (without_parts raw none)
  multipart_body raw (some boundary) =
      parse_multipart_mixed p deps.bytewise (deps.bytewise.bytes_of raw) boundary >>= with_parts raw

  abbrev pub json_body : p.Buffer → Option Json → Result (ParsedBody p)
  json_body raw none = err (http 400 "Invalid JSON in request body")
  json_body raw (some value) = ok (without_parts raw (some value))

  abbrev pub typed_body : p.Buffer → String → Result (ParsedBody p)
  typed_body raw content_type =
      if includes content_type "multipart/mixed"
      then multipart_body raw (extract_boundary content_type)
      else if includes content_type "application/json"
      then json_body raw (p.parse_buffer raw)
      else ok (without_parts raw none)

  -- the middleware that reads and parses the body
  unfoldable pub body_middleware : HttpRequest p → Result (ParsedBody p)
  body_middleware req =
      if has_no_body req.method
      then ok (without_parts deps.web.no_bytes none)
      else guard (not (ltb deps.max_request_body_bytes (p.size req.body))) 413
          "Request body too large"
        >> typed_body req.body (or_else (request_header "content-type" req) "")

  -- the authentication, which /xapi/about does without
  abbrev pub caller : Result AuthInfo → Result (Option AuthInfo)
  caller (err e) = err e
  caller (ok auth) = ok (some auth)

  unfoldable pub authenticated : HttpRequest p → Result (Option AuthInfo)
  authenticated req =
      if req.path == "/xapi/about"
      then ok none
      else caller (
          auth_middleware deps.tokens deps.jwt_config deps.credentials
            (request_header "authorization" req))

  abbrev pub context : XapiVersion → ParsedBody p → Option AuthInfo → Context p
  context version body auth = record {
    version = version;
    body_json = body.parsed_json;
    raw_body = body.raw;
    attachments = body.parts;
    auth = auth;
  }

  abbrev pub authorized :
      HttpRequest p → XapiVersion → ParsedBody p → Option AuthInfo → Result (Context p)
  authorized req version body auth =
      scope_middleware req.path req.method auth >> ok (context version body auth)

  abbrev pub with_body : HttpRequest p → XapiVersion → ParsedBody p → Result (Context p)
  with_body req version body = authenticated req >>= authorized req version body

  abbrev pub with_version : HttpRequest p → XapiVersion → Result (Context p)
  with_version req version =
      size_limit (request_header "content-length" req)
      >> (body_middleware req >>= with_body req version)

  -- the middleware from the version to the scope
  unfoldable pub guarded : HttpRequest p → Result (Context p)
  guarded req =
      (version_middleware req.path (request_header "x-experience-api-version" req)).resolved
      >>= with_version req

  -- the rate limit, and the route
  abbrev pub rated : HttpRequest p → Context p → Limiter × Option ℕ → Limiter × Outcome p
  rated req ctx (limiter, none) = (limiter, admitted req ctx)
  rated req ctx (limiter, some seconds) = (limiter, limited seconds)

  abbrev pub verdict : HttpRequest p → ℕ → Limiter → Context p → Limiter × Option ℕ
  verdict req now limiter ctx =
      rate_limit_middleware limiter req.path ctx.auth
        (resolve_client_ip (request_header "x-forwarded-for" req) deps.trusted_proxy_hops) now

  abbrev pub rate : HttpRequest p → ℕ → Limiter → Result (Context p) → Limiter × Outcome p
  rate req now limiter (err e) = (limiter, refused e)
  rate req now limiter (ok ctx) = rated req ctx (verdict req now limiter ctx)

  -- the chain after the alternate syntax
  unfoldable pub admit : ℕ → Limiter → HttpRequest p → Limiter × Outcome p
  admit now limiter req = rate req now limiter (guarded req)

  -- `app.fetch`, by the way that a request takes which the alternate syntax makes
  abbrev pub dispatch :
      (HttpRequest p → Option (Limiter × Outcome p))
      → (HttpRequest p → Limiter × Outcome p)
      → Limiter
      → HttpRequest p
      → Result (Option (HttpRequest p))
      → Option (Limiter × Outcome p)
  dispatch again next limiter req (err e) = some (limiter, refused e)
  dispatch again next limiter req (ok none) = some (next req)
  dispatch again next limiter req (ok (some made)) = again made

  -- with fuel for so many requests, each made of the one before; `none` where more are made
  unfoldable pub fetch : (fuel : ℕ) → ℕ → Limiter → HttpRequest p → Option (Limiter × Outcome p)
  fetch zero now limiter req = none
  fetch (suc fuel) now limiter req =
      dispatch (fetch fuel now limiter) (admit now limiter) limiter req
        (alternate_request p deps.web req)
