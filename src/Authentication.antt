-- ===== src/Authentication.antt =====
-- middleware/authentication.ts and auth/jwt.ts: who sends a request, by HTTP Basic credentials of
-- the tables or by a bearer token of the configured OIDC provider. `atob` and the library jose,
-- with the keys that it fetches, are parameters. The counters of failures are left out.
pub mod Laws
pub mod Scopes
use xapi_lrs.Prelude.{
  String, Bool, true, false, not, ◌&&◌, ◌||◌, ◌==◌, Option, none, some, List, [], ◌∷◌, first,
  or_else, starts_with, drop_chars, split_at, split_spaces, if◌then◌else◌,
}
use xapi_lrs.Http.{Result, ok, err, http, other, guard, ◌>>=◌, ◌>>◌}
use xapi_lrs.Json.{Json, Fields, str, arr, elems, get}
use xapi_lrs.Auth.{
  XapiScope, statements_write, statements_read, statements_read_mine, all_read, all, state,
  state_read, define, activities_profile, activities_profile_read, agents_profile,
  agents_profile_read, scope_name, AuthInfo, basic, jwt,
}

-- rows of lrs_credential, admin_account and credential_to_scope
pub record Credential : Type 0 where
  pub id : String
  pub api_key : String
  pub secret_key : String
  pub account_id : String

pub record Account : Type 0 where
  pub id : String
  pub username : String

pub record CredentialScope : Type 0 where
  pub api_key : String
  pub secret_key : String
  pub scope : Option XapiScope

pub record CredentialDb : Type 0 where
  pub credentials : List Credential
  pub accounts : List Account
  pub scopes : List CredentialScope

-- jose's `JWTPayload`: the claims that it names, and all of them
pub data Audience : Type 0 where
  no_audience : Audience
  one : String → Audience
  several : List String → Audience

pub record JwtPayload : Type 0 where
  pub iss : Option String
  pub sub : Option String
  pub aud : Audience
  pub claims : Fields

pub record JwtConfig : Type 0 where
  pub issuer : String
  pub audience : String
  pub jwks_uri : String

pub record TokenLibrary : Type 0 where
  -- `atob(s)`, `none` where it throws
  pub atob : String → Option String
  -- `jose.decodeJwt(token)`, and `jose.jwtVerify(token, keys, { issuer, audience })` with the keys
  -- of a URI; `none` where they throw
  pub decode_jwt : String → Option JwtPayload
  pub jwt_verify : (jwks_uri issuer audience token : String) → Option JwtPayload

-- `extractBearerToken`, of a header that starts with `Bearer `
abbrev pub bearer_token : String → String
bearer_token header = drop_chars 7 header

-- `extractBasicAuth`, of a header that starts with `Basic `: `atob` may throw, and a text without a
-- colon is no pair of keys
abbrev pub decoded_keys : Option String → Result (Option (String × String))
decoded_keys none = err other
decoded_keys (some decoded) = ok (split_at b':' decoded)

unfoldable pub extract_basic_auth : TokenLibrary → String → Result (Option (String × String))
extract_basic_auth lib header = decoded_keys (lib.atob (drop_chars 6 header))

-- the rows of the join of lrs_credential and admin_account, of which the first is read
abbrev pub owner_of : CredentialDb → Credential → Option Account
owner_of db c = first (λ a. a.id == c.account_id) db.accounts

abbrev pub has_keys : String → String → Credential → Bool
has_keys key secret c = c.api_key == key && c.secret_key == secret

abbrev pub joined_rows :
    CredentialDb → String → String → List Credential → List (Credential × Account)
joined_rows db key secret [] = []
joined_rows db key secret (c ∷ rest) =
    let later = joined_rows db key secret rest in
    if has_keys key secret c
    then elim (owner_of db c) [ none ↦ later | some a ↦ (c, a) ∷ later ]
    else later

-- the rows of the query on credential_to_scope
abbrev pub and_scope : Option XapiScope → List XapiScope → List XapiScope
and_scope none later = later
and_scope (some s) later = s ∷ later

abbrev pub granted_scopes : String → String → List CredentialScope → List XapiScope
granted_scopes key secret [] = []
granted_scopes key secret (row ∷ rest) =
    if row.api_key == key && row.secret_key == secret
    then and_scope row.scope (granted_scopes key secret rest)
    else granted_scopes key secret rest

abbrev pub first_row : List (Credential × Account) → List XapiScope → Option AuthInfo
first_row [] scopes = none
first_row ((c, a) ∷ rest) scopes = some (basic c.id a.username scopes)

-- `authenticateBasicCredential`
unfoldable pub authenticate_basic_credential : CredentialDb → String → String → Option AuthInfo
authenticate_basic_credential db key secret =
    first_row (joined_rows db key secret db.credentials) (granted_scopes key secret db.scopes)

-- VALID_SCOPES
abbrev pub valid_scopes : List XapiScope
valid_scopes =
    statements_write ∷ statements_read ∷ statements_read_mine ∷ all_read ∷ all ∷ state ∷ state_read
    ∷ define ∷ activities_profile ∷ activities_profile_read ∷ agents_profile ∷ agents_profile_read
    ∷ []

-- `VALID_SCOPES.has(name)`, and the scope of that name
abbrev pub scope_of : String → Option XapiScope
scope_of name = first (λ s. scope_name s == name) valid_scopes

-- the texts that name a scope
abbrev pub named_scopes : List String → List XapiScope
named_scopes [] = []
named_scopes (name ∷ rest) = and_scope (scope_of name) (named_scopes rest)

abbrev pub texts_of : List Json → List String
texts_of [] = []
texts_of (str s ∷ rest) = s ∷ texts_of rest
texts_of (_ ∷ rest) = texts_of rest

-- the scopes of the claim `scope`, a text of words, and of the claim `scopes`, an array
abbrev pub scope_claim : Option Json → List XapiScope
scope_claim (some (str words)) = named_scopes (split_spaces words)
scope_claim _ = []

abbrev pub scopes_claim : Option Json → List XapiScope
scopes_claim (some (arr vs)) = named_scopes (texts_of (elems vs))
scopes_claim _ = []

abbrev pub nonempty : List XapiScope → Option (List XapiScope)
nonempty [] = none
nonempty (s ∷ rest) = some (s ∷ rest)

abbrev pub or_scopes : List XapiScope → List XapiScope → Option (List XapiScope)
or_scopes [] second = nonempty second
or_scopes (s ∷ rest) second = some (s ∷ rest)

-- `extractScopes`
unfoldable pub extract_scopes : Fields → Option (List XapiScope)
extract_scopes claims =
    or_scopes (scope_claim (get "scope" claims)) (scopes_claim (get "scopes" claims))

-- `normalizeAudience`
abbrev pub normalize_audience : Audience → Option String
normalize_audience no_audience = none
normalize_audience (one aud) = some aud
normalize_audience (several []) = none
normalize_audience (several (aud ∷ rest)) = some aud

-- a text that is there and is not empty
abbrev pub is_present : Option String → Bool
is_present none = false
is_present (some s) = not (s == "")

-- an error that is no `HttpError`, where the test fails
abbrev pub throw_unless : Bool → Result (Unit {0})
throw_unless true = ok tt
throw_unless false = err other

abbrev pub or_throw {ℓ} : {A : Type ℓ} → Option A → Result A
or_throw none = err other
or_throw (some a) = ok a

-- the claims that are compared before the token is verified
abbrev pub check_claims : JwtConfig → JwtPayload → Result (Unit {0})
check_claims config unverified = do
  throw_unless (is_present unverified.iss && is_present (normalize_audience unverified.aud))
  throw_unless (or_else unverified.iss "" == config.issuer)

abbrev pub auth_of_payload : JwtPayload → List XapiScope → Result AuthInfo
auth_of_payload payload scopes = ok (jwt (or_else payload.sub "") (or_else payload.iss "") scopes)

abbrev pub payload_auth : JwtPayload → Result AuthInfo
payload_auth payload = or_throw (extract_scopes payload.claims) >>= auth_of_payload payload

-- `verifyJwt`, of which the middleware takes the payload
unfoldable pub verify_jwt : TokenLibrary → JwtConfig → String → Result AuthInfo
verify_jwt lib config token = do
  (or_throw (lib.decode_jwt token) >>= check_claims config)
  (or_throw (lib.jwt_verify config.jwks_uri config.issuer config.audience token) >>= payload_auth)

-- `authMiddleware`: the caller with which the next handler runs
abbrev pub unauthorized {ℓ} : {A : Type ℓ} → Result A
unauthorized = err (http 401 "Unauthorized")

abbrev pub or_unauthorized : Option AuthInfo → Result AuthInfo
or_unauthorized none = unauthorized
or_unauthorized (some auth) = ok auth

abbrev pub basic_auth : CredentialDb → Option (String × String) → Result AuthInfo
basic_auth db none = unauthorized
basic_auth db (some (key, secret)) = or_unauthorized (authenticate_basic_credential db key secret)

abbrev pub bearer_auth : TokenLibrary → Option JwtConfig → String → Result AuthInfo
bearer_auth lib none token = unauthorized
bearer_auth lib (some config) token =
    if token == "" then unauthorized else verify_jwt lib config token

unfoldable pub auth_middleware :
    TokenLibrary → Option JwtConfig → CredentialDb → Option String → Result AuthInfo
auth_middleware lib config db authorization =
    let header = or_else authorization "" in
    if starts_with header "Basic "
    then extract_basic_auth lib header >>= basic_auth db
    else if starts_with header "Bearer "
    then bearer_auth lib config (bearer_token header)
    else unauthorized
