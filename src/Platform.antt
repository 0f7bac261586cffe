-- ===== src/Platform.antt =====
-- What the handlers take from outside src/: the JSON codec and Buffer, SHA-1, the date parsers of
-- JavaScript and of the database. Each is a parameter; a theorem that relies on a law of one
-- has the law as a hypothesis.
use xapi_lrs.Prelude.{ℕ, String, Bool, Option}
use xapi_lrs.Json.{Json}

-- a time in milliseconds since 1970, or that many before it
pub data Millis : Type 0 where
  since_epoch before_epoch : ℕ → Millis

-- a finite number from 0 on is whole, or lies between `n` and `n + 1`
pub data Place : Type 0 where
  not_finite below_zero : Place
  whole fraction : ℕ → Place

pub record Platform : Type 1 where
  -- Node's Buffer, and its length
  pub Buffer : Type 0
  pub size : Buffer → ℕ
  -- `JSON.parse` of a text, and of a buffer's UTF-8; `none` where it throws
  pub parse_text : String → Option Json
  pub parse_buffer : Buffer → Option Json
  -- `Buffer.from(JSON.stringify(v), 'utf8')`
  pub stringify_buffer : Json → Buffer
  -- `createHash('sha1').update(b).digest('hex')`, which is never empty
  pub sha1_hex : Buffer → String
  -- `new Date(s).getTime()`, `none` where it is NaN, and PostgreSQL's `$n::timestamptz`
  pub js_date : String → Option Millis
  pub pg_timestamp : String → Option ℕ
  -- PostgreSQL's cast to `uuid`: the canonical form, `none` where the cast fails
  pub pg_uuid : String → Option String
  -- the same cast and its inverse, for row identifiers: a uuid as the number of its bits
  pub pg_uuid_bits : String → Option ℕ
  pub uuid_text : ℕ → String
  -- `JSON.stringify`
  pub stringify_text : Json → String
  -- PostgreSQL's `->>` of an object or an array
  pub pg_json_text : Json → String
  -- `s.toLowerCase()`
  pub to_lower : String → String
  -- JavaScript's numbers: `parseFloat(s)`, `Number(s)`, `a < b`, `n.toString()`, the number 1, and
  -- where a number lies
  pub Number : Type 0
  pub parse_float : String → Number
  pub number_of : String → Number
  pub is_less : Number → Number → Bool
  pub number_text : Number → String
  pub number_one : Number
  pub place : Number → Place
