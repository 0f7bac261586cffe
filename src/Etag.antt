-- ===== src/Etag.antt =====
-- helpers/etag.ts: the entity tag of a document, and the concurrency headers.
pub mod Laws
use xapi_lrs.Prelude.{
  String, Bool, true, false, not, ◌&&◌, ◌||◌, Option, none, some, ◌==◌, if◌then◌else◌,
  drop_leading_quote, drop_trailing_quote,
}
use xapi_lrs.Http.{Result, ok, err, http, ◌>>◌}
use xapi_lrs.Platform.{Platform}

-- `computeEtag` of a buffer
unfoldable pub compute_etag : (p : Platform) → p.Buffer → String
compute_etag p content = p.sha1_hex content

-- the headers `if-match` and `if-none-match`
pub record ConcurrencyHeaders : Type 0 where
  pub if_match : Option String
  pub if_none_match : Option String

-- truthiness of an optional text
abbrev pub present : Option String → Bool
present none = false
present (some s) = not (s == "")

abbrev pub unquote : String → String
unquote s = drop_trailing_quote (drop_leading_quote s)

-- `!currentEtag || expected !== currentEtag`
abbrev pub mismatch : String → Option String → Bool
mismatch expected none = true
mismatch expected (some etag) = (etag == "") || not (expected == etag)

check_required : Bool → ConcurrencyHeaders → Option String → Result (Unit {0})
check_required required headers current =
    if (required && not (present headers.if_match)) && not (present headers.if_none_match)
    then (if present current
        then err
            (http 409 "If-Match or If-None-Match header required when updating existing documents")
        else err (http 400 "If-Match or If-None-Match header required"))
    else ok tt

abbrev pub expected_of : Option String → String
expected_of none = ""
expected_of (some s) = unquote s

check_match : ConcurrencyHeaders → Option String → Result (Unit {0})
check_match headers current =
    if present headers.if_match && mismatch (expected_of headers.if_match) current
    then err (http 412 "ETag mismatch")
    else ok tt

abbrev pub is_star : Option String → Bool
is_star none = false
is_star (some s) = s == "*"

check_none_match : ConcurrencyHeaders → Option String → Result (Unit {0})
check_none_match headers current =
    if is_star headers.if_none_match && present current
    then err (http 412 "Document already exists")
    else ok tt

-- `checkConcurrencyHeaders(headers, currentEtag, requireConcurrency)`
unfoldable pub check_concurrency_headers :
    ConcurrencyHeaders → Option String → Bool → Result (Unit {0})
unfolding check_required check_match check_none_match
check_concurrency_headers headers current required = do
  check_required required headers current
  check_match headers current
  check_none_match headers current
