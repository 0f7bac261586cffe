-- ===== src/Statement/Services.antt =====
-- What the statement handlers take from libraries and from parts that are not modelled: the
-- parser of xapi/statement-schema.ts, random identifiers, clocks, hashes and the library jose. Each
-- is a parameter.
use xapi_lrs.Prelude.{ℕ, String, Bool, Option}
use xapi_lrs.Json.{Json, Fields}
use xapi_lrs.Platform.{Platform}
use xapi_lrs.Squuid.{squuid}
use xapi_lrs.Version.{XapiVersion}

-- xapi/multipart.ts, `MultipartAttachmentPart`
pub record AttachmentPart (p : Platform) : Type 0 where
  pub sha2 : String
  pub content_type : String
  pub contents : p.Buffer

-- zod's result of a parse
pub data Parsed : Type 0 where
  success : Fields → Parsed
  failure : String → Parsed

-- jose, as xapi/signature.ts uses it, and the configuration of that check
pub record SignatureLibrary (p : Platform) : Type 1 where
  -- `xapiVerifySignatures`
  pub verify_signatures : Bool
  -- `data.toString('utf8')`
  pub text_of_part : p.Buffer → String
  -- `decodeProtectedHeader(jws)`, `none` where it throws
  pub decode_header : String → Option Fields
  -- `JSON.parse(new TextDecoder().decode(base64url.decode(s)))`, `none` where it throws
  pub base64url_json : String → Option Json
  -- `importX509(pem, alg)`, `none` where it throws, and whether `compactVerify(jws, key)` does not
  pub Key : Type 0
  pub import_x509 : (pem alg : String) → Option Key
  pub compact_verify : (jws : String) → Key → Bool

pub record Services (p : Platform) : Type 1 where
  -- `statementSchemaFor(version).safeParse(input)`: the data, or the issues as one message
  pub safe_parse : XapiVersion → Fields → Parsed
  -- the i-th `uuidv7()`, the app's clock as text, and the i-th `crypto.randomUUID()`
  pub uuidv7 : ℕ → String
  pub now_iso : String
  pub random_uuid : ℕ → String
  -- `getTransactionTime`, and `toISOString` of it
  pub transaction_time : ℕ
  pub stored_iso : String
  -- `createHash('sha256').update(data).digest('hex')`
  pub sha256_hex : p.Buffer → String
  -- `JSON.stringify` of a text
  pub quote : String → String
  pub signatures : SignatureLibrary p

-- the row identifier of the i-th statement of a request, `squuid(storedAt.getTime())`
abbrev pub row_id : (p : Platform) → Services p → ℕ → String
row_id p sv i = squuid sv.transaction_time (sv.random_uuid i)
