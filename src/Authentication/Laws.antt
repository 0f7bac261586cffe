-- ===== src/Authentication/Laws.antt =====
-- The requests that authenticate.
use mathlib.Core.List.{Memᴰ}
use mathlib.Core.Option.{some-injective}
use text.Mathlib.TextLemmas.{cons-append, nil-append}
use xapi_lrs.Prelude.{
  String, ◌≡◌, refl, sym, ap, subst, ◌∙◌, inl, inr, Bool, true, ◌&&◌, Option, none, some, List, [],
  ◌∷◌, ◌==◌, eq_iff, arith, first, concat, or_else, starts_with, drop_chars, split_at,
  split_at-eq-some, starts_with-drop, count_chars, Bool-cases, Option-cases, All, All-map,
}
use xapi_lrs.Http.{ok, ◌>>=◌, >>=-eq-ok, ok-injective}
use xapi_lrs.Auth.{XapiScope, AuthInfo, basic, jwt}
use xapi_lrs.Authentication.{
  Credential, Account, CredentialScope, CredentialDb, JwtPayload, JwtConfig, TokenLibrary,
  decoded_keys, extract_basic_auth, owner_of, has_keys, joined_rows, granted_scopes,
  authenticate_basic_credential, and_scope, extract_scopes, verify_jwt, check_claims, payload_auth,
  auth_of_payload, or_throw, or_unauthorized, first_row, basic_auth, bearer_auth, auth_middleware,
}

abbrev pub row_of : String → String → XapiScope → CredentialScope
row_of key secret s = record { api_key = key; secret_key = secret; scope = some s }

module _ (lib : TokenLibrary) (config : Option JwtConfig) (db : CredentialDb) where
  -- the caller that a header proves: the owner of the key and the secret that it encodes, with the
  -- scopes of their rows, or the subject of a token that the provider's keys verify, with the
  -- scopes of its claims
  pub data IsProved : Option String → AuthInfo → Type 0 where
    by_keys :
        (encoded key secret : String) (c : Credential) (a : Account) (scopes : List XapiScope)
        → lib.atob encoded ≡ some (concat key (concat ":" secret))
        → Memᴰ c db.credentials
        → c.api_key ≡ key
        → c.secret_key ≡ secret
        → Memᴰ a db.accounts
        → a.id ≡ c.account_id
        → All (λ s. Memᴰ (row_of key secret s) db.scopes) scopes
        → IsProved (some (concat "Basic " encoded)) (basic c.id a.username scopes)
    by_token :
        (token : String) (cfg : JwtConfig) (payload : JwtPayload) (scopes : List XapiScope)
        → config ≡ some cfg
        → lib.jwt_verify cfg.jwks_uri cfg.issuer cfg.audience token ≡ some payload
        → extract_scopes payload.claims ≡ some scopes
        → IsProved
            (some (concat "Bearer " token))
            (jwt (or_else payload.sub "") (or_else payload.iss "") scopes)

cons_head {ℓ} : {A : Type ℓ} {x y : A} {xs ys : List A} → x ∷ xs ≡ y ∷ ys → x ≡ y
cons_head h = cc

colon : (key secret : String) → concat key (String.◌∷◌ ":" secret) ≡ concat key (concat ":" secret)
colon key secret = ap (concat key) (sym (rw (cons-append ":" "" secret, nil-append secret) refl))

keys_equal : (a b c d : String) → (a == b && c == d) ≡ true → (a ≡ b) × (c ≡ d)
keys_equal a b c d h = ground (arith, eq_iff a b, eq_iff c d)

first-Mem {ℓ} :
    {A : Type ℓ} (p : A → Bool) (xs : List A) {x : A}
    → first p xs ≡ some x
    → Memᴰ x xs × (p x ≡ true)
first-Mem p [] h = cc
first-Mem p (y ∷ ys) h = elim (Bool-cases (p y)) [
  | inl holds ↦
      let at = some-injective _ _ (rw holds at h) in (Memᴰ.head (sym at), ap p (sym at) ∙ holds)
  | inr fails ↦ let (found, test) = first-Mem p ys (rw fails at h) in (Memᴰ.tail found, test)
]

-- what is true of a row of the join
abbrev IsJoined : CredentialDb → String → String → List Credential → Credential × Account → Type 0
IsJoined db key secret cs row =
    Memᴰ row.0 cs × (has_keys key secret row.0 ≡ true) × (owner_of db row.0 ≡ some row.1)

joined_rows-IsJoined :
    (db : CredentialDb) (key secret : String) (cs : List Credential) {row : Credential × Account}
    {rest : List (Credential × Account)}
    → joined_rows db key secret cs ≡ row ∷ rest
    → IsJoined db key secret cs row
joined_rows-IsJoined db key secret [] h = cc
joined_rows-IsJoined db key secret (c ∷ cs) h = elim (Bool-cases (has_keys key secret c)) [
  | inl holds ↦ elim (Option-cases (owner_of db c)) [
    | inl gone ↦
        let (at, test, owner) = joined_rows-IsJoined db key secret cs (rw (holds, gone) at h) in
        (Memᴰ.tail at, test, owner)
    | inr (a, owner) ↦
        subst (IsJoined db key secret (c ∷ cs)) (cons_head (rw (holds, owner) at h))
          (Memᴰ.head refl, holds, owner)
  ]
  | inr fails ↦
      let (at, test, owner) = joined_rows-IsJoined db key secret cs (rw fails at h) in
      (Memᴰ.tail at, test, owner)
]

abbrev InRows : String → String → List CredentialScope → List XapiScope → Type 0
InRows key secret rows scopes = All (λ s. Memᴰ (row_of key secret s) rows) scopes

and_scope-Mem :
    (key secret : String) (row : CredentialScope) (rows : List CredentialScope)
    → (scope : Option XapiScope)
    → row ≡ record { api_key = key; secret_key = secret; scope = scope }
    → (later : List XapiScope) → InRows key secret (row ∷ rows) later
    → InRows key secret (row ∷ rows) (and_scope scope later)
and_scope-Mem key secret row rows none e later h = h
and_scope-Mem key secret row rows (some s) e later h = (Memᴰ.head (sym e), h)

granted_scopes-Mem :
    (key secret : String) (rows : List CredentialScope)
    → InRows key secret rows (granted_scopes key secret rows)
granted_scopes-Mem key secret [] = tt
granted_scopes-Mem key secret (row ∷ rows) =
    let later = All-map _ _ (λ s m. Memᴰ.tail m) _ (granted_scopes-Mem key secret rows) in
    elim (Bool-cases (row.api_key == key && row.secret_key == secret)) [
      | inl same ↦
          let (ka, se) = keys_equal row.api_key key row.secret_key secret same in
          rw same (
            and_scope-Mem key secret row rows row.scope
              (λ i. record { api_key = ka i; secret_key = se i; scope = row.scope }) _ later)
      | inr other_keys ↦ rw other_keys later
    ]

or_throw-eq-ok {ℓ} : {A : Type ℓ} (o : Option A) {a : A} → or_throw o ≡ ok a → o ≡ some a
or_throw-eq-ok none h = cc
or_throw-eq-ok (some a) h = cc

module _ (lib : TokenLibrary) (config : Option JwtConfig) (db : CredentialDb) where
  row-IsProved :
      (encoded key secret : String) (rows : List (Credential × Account)) {auth : AuthInfo}
      → lib.atob encoded ≡ some (concat key (concat ":" secret))
      → joined_rows db key secret db.credentials ≡ rows
      → or_unauthorized (first_row rows (granted_scopes key secret db.scopes)) ≡ ok auth
      → IsProved lib config db (some (concat "Basic " encoded)) auth
  row-IsProved encoded key secret [] decoded at h = cc
  row-IsProved encoded key secret ((c, a) ∷ rest) decoded at h =
      let (found, keys, owner) = joined_rows-IsJoined db key secret db.credentials at in
      let (same_key, same_secret) = keys_equal c.api_key key c.secret_key secret keys in
      let (owns, id) = first-Mem (λ a. a.id == c.account_id) db.accounts owner in
      subst (IsProved lib config db (some (concat "Basic " encoded))) (ok-injective h) (
        by_keys encoded key secret c a _ decoded found same_key same_secret owns
          ((eq_iff a.id c.account_id).0 id) (granted_scopes-Mem key secret db.scopes))

  keys-IsProved :
      (encoded decoded : String) (keys : Option (String × String)) {auth : AuthInfo}
      → lib.atob encoded ≡ some decoded
      → split_at b':' decoded ≡ keys
      → basic_auth db keys ≡ ok auth
      → IsProved lib config db (some (concat "Basic " encoded)) auth
  unfolding authenticate_basic_credential
  keys-IsProved encoded decoded none at cut h = cc
  keys-IsProved encoded decoded (some (key, secret)) at cut h =
      row-IsProved encoded key secret (joined_rows db key secret db.credentials)
        (at ∙ ap some (split_at-eq-some ":" decoded cut ∙ colon key secret)) refl h

  verified-IsProved :
      (cfg : JwtConfig) (token : String) {auth : AuthInfo}
      → config ≡ some cfg
      → verify_jwt lib cfg token ≡ ok auth
      → IsProved lib config db (some (concat "Bearer " token)) auth
  unfolding verify_jwt
  verified-IsProved cfg token at h =
      let (checked, _, h1) = >>=-eq-ok (or_throw (lib.decode_jwt token) >>= check_claims cfg) _ h in
      let (payload, verified, h2) =
        >>=-eq-ok (or_throw (lib.jwt_verify cfg.jwks_uri cfg.issuer cfg.audience token))
          payload_auth h1 in
      let (scopes, extracted, h3) =
        >>=-eq-ok (or_throw (extract_scopes payload.claims)) (auth_of_payload payload) h2 in
      subst (IsProved lib config db (some (concat "Bearer " token))) (ok-injective h3) (
        by_token token cfg payload scopes at (or_throw-eq-ok (lib.jwt_verify _ _ _ token) verified)
          (or_throw-eq-ok (extract_scopes payload.claims) extracted))

  token-IsProved :
      (token : String) (found : Option JwtConfig) {auth : AuthInfo}
      → config ≡ found
      → bearer_auth lib found token ≡ ok auth
      → IsProved lib config db (some (concat "Bearer " token)) auth
  token-IsProved token none at h = cc
  token-IsProved token (some cfg) at h = elim (Bool-cases (token == "")) [
    | inl empty ↦ ground (arith, empty)
    | inr full ↦ verified-IsProved cfg token at (rw full at h)
  ]

  decoded-IsProved :
      (encoded : String) (decoded : Option String) {auth : AuthInfo}
      → lib.atob encoded ≡ decoded
      → decoded_keys decoded >>= basic_auth db ≡ ok auth
      → IsProved lib config db (some (concat "Basic " encoded)) auth
  decoded-IsProved encoded none at h = cc
  decoded-IsProved encoded (some decoded) at h =
      keys-IsProved encoded decoded (split_at b':' decoded) at refl h

  -- A request passes the authentication only as a caller that its Authorization header proves: the
  -- owner of the row that has the key and the secret of the header, with scopes of these keys' rows
  -- alone, or the subject of a token that verifies with the provider's keys, with the scopes of its
  -- claims.
  pub auth_middleware-IsProved :
      (authorization : Option String) {auth : AuthInfo}
      → auth_middleware lib config db authorization ≡ ok auth
      → IsProved lib config db authorization auth
  unfolding auth_middleware extract_basic_auth count_chars
  auth_middleware-IsProved none h = cc
  auth_middleware-IsProved (some header) {auth} h =
      elim (Bool-cases (starts_with header "Basic ")) [
        | inl basics ↦
            subst (λ s. IsProved lib config db (some s) auth)
              (sym (starts_with-drop header "Basic " basics))
              (decoded-IsProved (drop_chars 6 header) (lib.atob (drop_chars 6 header)) refl
                (rw basics at h))
        | inr others ↦ elim (Bool-cases (starts_with header "Bearer ")) [
          | inl bearer ↦
              subst (λ s. IsProved lib config db (some s) auth)
                (sym (starts_with-drop header "Bearer " bearer))
                (token-IsProved (drop_chars 7 header) config refl (rw (others, bearer) at h))
          | inr neither ↦ ground (arith, others, neither)
        ]
      ]
