-- ===== src/App/Laws.antt =====
-- The requests that reach a route.
use xapi_lrs.Prelude.{
  ℕ, zero, suc, ◌≤◌, String, ◌≡◌, refl, sym, ap, subst, ◌∙◌, ◌⊎◌, inl, inr, true, false, Option,
  none, some, List, ◌==◌, eq_iff, arith, ltb, ltb→ge, includes, or_else, Bool-cases, Option-cases,
}
use xapi_lrs.Http.{Result, ok, err, ◌>>=◌, >>=-eq-ok, ok-injective}
use xapi_lrs.Json.{Json}
use xapi_lrs.Platform.{Platform}
use xapi_lrs.Version.{XapiVersion, version_middleware}
use xapi_lrs.Auth.{XapiScope, AuthInfo, scopes_of, required_scopes, has_scope, scope_middleware}
use xapi_lrs.Authentication.{auth_middleware}
use xapi_lrs.Authentication.Laws.{IsProved, auth_middleware-IsProved}
use xapi_lrs.RateLimit.{Limiter}
use xapi_lrs.Multipart.{extract_boundary, parse_multipart_mixed}
use xapi_lrs.App.Rewrite.{value_of, HttpRequest, alternate_request}
use xapi_lrs.App.Rewrite.Laws.{alternate_request-made}
use mathlib.Core.Option.{some-injective}
use xapi_lrs.App.{
  Outcome, refused, Context, ParsedBody, AppDeps, admitted, request_header, size_limit, has_no_body,
  with_parts, multipart_body, json_body, typed_body, body_middleware, caller, authenticated,
  context, authorized, with_body, with_version, guarded, rated, verdict, rate, admit, dispatch,
  fetch,
}

-- a caller's scopes meet the rule of the path and the method, if there is one
abbrev pub HasScope : String → String → AuthInfo → Type 0
HasScope path method auth =
    (required_scopes path method ≡ none)
    ⊎ ((rule : List XapiScope) × (required_scopes path method ≡ some rule)
        × (has_scope (scopes_of auth) rule ≡ true))

scope_middleware-HasScope :
    (path method : String) (auth : AuthInfo)
    → (path == "/xapi/about") ≡ false
    → scope_middleware path method (some auth) ≡ ok tt
    → HasScope path method auth
unfolding scope_middleware
scope_middleware-HasScope path method auth elsewhere h =
    elim (Option-cases (required_scopes path method)) [
      | inl free ↦ inl free
      | inr (rule, at) ↦ elim (Bool-cases (has_scope (scopes_of auth) rule)) [
        | inl met ↦ inr (rule, at, met)
        | inr unmet ↦ ground (arith, at, unmet, elsewhere)
      ]
    ]

module _ (p : Platform) (deps : AppDeps p) (empty : p.size deps.web.no_bytes ≡ 0) where
  -- a request under /xapi/about, or one with a caller that its Authorization header proves and
  -- whose scopes meet the rule
  abbrev pub IsAllowed : HttpRequest p → Option AuthInfo → Type 0
  IsAllowed req caller =
      ((req.path ≡ "/xapi/about") × (caller ≡ none))
      ⊎ ((auth : AuthInfo) × (caller ≡ some auth)
          × IsProved deps.tokens deps.jwt_config deps.credentials
              (value_of "authorization" req.headers) auth
          × HasScope req.path req.method auth)

  abbrev pub IsGuarded : HttpRequest p → Context p → Type 0
  IsGuarded req ctx =
      ((version_middleware req.path (value_of "x-experience-api-version" req.headers)).resolved
        ≡ ok ctx.version)
      × (p.size ctx.raw_body ≤ deps.max_request_body_bytes)
      × IsAllowed req ctx.auth

  multipart_body-raw :
      (raw : p.Buffer) (boundary : Option String) {body : ParsedBody p}
      → multipart_body p deps raw boundary ≡ ok body
      → body.raw ≡ raw
  multipart_body-raw raw none h = ap (λ b. b.raw) (sym (ok-injective h))
  multipart_body-raw raw (some boundary) h =
      let (result, _, at) =
        >>=-eq-ok (parse_multipart_mixed p deps.bytewise (deps.bytewise.bytes_of raw) boundary)
          (with_parts p deps raw) h in
      ap (λ b. b.raw) (sym (ok-injective at))

  json_body-raw :
      (raw : p.Buffer) (value : Option Json) {body : ParsedBody p}
      → json_body p deps raw value ≡ ok body
      → body.raw ≡ raw
  json_body-raw raw none h = cc
  json_body-raw raw (some v) h = ap (λ b. b.raw) (sym (ok-injective h))

  typed_body-raw :
      (raw : p.Buffer) (content_type : String) {body : ParsedBody p}
      → typed_body p deps raw content_type ≡ ok body
      → body.raw ≡ raw
  typed_body-raw raw content_type h = elim (Bool-cases (includes content_type "multipart/mixed")) [
    | inl mixed ↦ multipart_body-raw raw (extract_boundary content_type) (rw mixed at h)
    | inr single ↦ elim (Bool-cases (includes content_type "application/json")) [
      | inl json ↦ json_body-raw raw (p.parse_buffer raw) (rw (single, json) at h)
      | inr neither ↦ ap (λ b. b.raw) (sym (ok-injective (rw (single, neither) at h)))
    ]
  ]

  body_middleware-size :
      (req : HttpRequest p) {body : ParsedBody p}
      → body_middleware p deps req ≡ ok body
      → p.size body.raw ≤ deps.max_request_body_bytes
  unfolding body_middleware
  body_middleware-size req h = elim (Bool-cases (has_no_body p deps req.method)) [
    | inl bodiless ↦
        subst (λ b. p.size b.raw ≤ deps.max_request_body_bytes) (ok-injective (rw bodiless at h))
          (rw empty (omega arith))
    | inr with_bytes ↦ elim (Bool-cases (ltb deps.max_request_body_bytes (p.size req.body))) [
      | inl large ↦ ground (arith, with_bytes, large)
      | inr small ↦
          subst (λ raw. p.size raw ≤ deps.max_request_body_bytes)
            (sym (
              typed_body-raw req.body (or_else (value_of "content-type" req.headers) "")
                (rw (with_bytes, small) at h)))
            (ltb→ge _ _ small)
    ]
  ]

  caller-eq-ok :
      (result : Result AuthInfo) {found : Option AuthInfo}
      → caller p deps result ≡ ok found
      → (auth : AuthInfo) × (result ≡ ok auth) × (found ≡ some auth)
  caller-eq-ok (err e) h = cc
  caller-eq-ok (ok auth) h = (auth, refl, sym (ok-injective h))

  authenticated-IsAllowed :
      (req : HttpRequest p) (found : Option AuthInfo)
      → authenticated p deps req ≡ ok found
      → scope_middleware req.path req.method found ≡ ok tt
      → IsAllowed req found
  unfolding authenticated
  authenticated-IsAllowed req found h scoped = elim (Bool-cases (req.path == "/xapi/about")) [
    | inl about ↦ inl ((eq_iff _ _).0 about, sym (ok-injective (rw about at h)))
    | inr elsewhere ↦
        let (auth, proved, at) =
          caller-eq-ok
            (auth_middleware deps.tokens deps.jwt_config deps.credentials
              (value_of "authorization" req.headers))
            (rw elsewhere at h) in
        inr (
          auth,
          at,
          auth_middleware-IsProved deps.tokens deps.jwt_config deps.credentials _ proved,
          scope_middleware-HasScope req.path req.method auth elsewhere (rw at at scoped),
        )
  ]

  with_version-IsGuarded :
      (req : HttpRequest p) (version : XapiVersion) {ctx : Context p}
      → (version_middleware req.path (value_of "x-experience-api-version" req.headers)).resolved
        ≡ ok version
      → with_version p deps req version ≡ ok ctx
      → IsGuarded req ctx
  with_version-IsGuarded req version at h =
      let (_, _, h1) =
        >>=-eq-ok (size_limit p deps (request_header p deps "content-length" req))
          (λ _. body_middleware p deps req >>= with_body p deps req version) h in
      let (body, read, h2) =
        >>=-eq-ok (body_middleware p deps req) (with_body p deps req version) h1 in
      let (found, known, h3) =
        >>=-eq-ok (authenticated p deps req) (authorized p deps req version body) h2 in
      let (_, scoped, h4) =
        >>=-eq-ok (scope_middleware req.path req.method found)
          (λ _. ok (context p deps version body found)) h3 in
      subst (IsGuarded req) (ok-injective h4)
        (at, body_middleware-size req read, authenticated-IsAllowed req found known scoped)

  guarded-IsGuarded :
      (req : HttpRequest p) {ctx : Context p} → guarded p deps req ≡ ok ctx → IsGuarded req ctx
  unfolding guarded
  guarded-IsGuarded req h =
      let (version, at, h1) = >>=-eq-ok _ (with_version p deps req) h in
      with_version-IsGuarded req version at h1

  rated-admitted :
      (req : HttpRequest p) (ctx : Context p) (result : Limiter × Option ℕ) {l : Limiter}
      {req' : HttpRequest p} {ctx' : Context p}
      → rated p deps req ctx result ≡ (l, admitted req' ctx')
      → (req' ≡ req) × (ctx' ≡ ctx)
  rated-admitted req ctx (limiter, none) h = (cc, cc)
  rated-admitted req ctx (limiter, some seconds) h = (cc, cc)

  -- the request itself, or the one that the alternate syntax makes of it
  abbrev pub IsServed : HttpRequest p → HttpRequest p → Type 0
  IsServed req served = (served ≡ req) ⊎ (alternate_request p deps.web req ≡ ok (some served))

  rate-admitted :
      (req : HttpRequest p) (now : ℕ) (limiter : Limiter) (result : Result (Context p))
      {l : Limiter} {served : HttpRequest p} {ctx : Context p}
      → guarded p deps req ≡ result
      → rate p deps req now limiter result ≡ (l, admitted served ctx)
      → (served ≡ req) × IsGuarded served ctx
  rate-admitted req now limiter (err e) at h = cc
  rate-admitted req now limiter (ok found) {ctx} at h =
      let (same, known) = rated-admitted req found (verdict p deps req now limiter found) h in
      (
        same,
        subst (λ r. IsGuarded r ctx) (sym same)
            (subst (IsGuarded req) (sym known) (guarded-IsGuarded req at)),
      )

  dispatch-admitted :
      (fuel now : ℕ) (limiter : Limiter) (req : HttpRequest p)
      (result : Result (Option (HttpRequest p))) {l : Limiter} {served : HttpRequest p}
      {ctx : Context p}
      → alternate_request p deps.web req ≡ result
      → ((made : HttpRequest p)
          → fetch p deps fuel now limiter made ≡ some (l, admitted served ctx)
          → IsServed made served × IsGuarded served ctx)
      → dispatch p deps
          (fetch p deps fuel now limiter)
          (admit p deps now limiter)
          limiter
          req
          result
        ≡ some (l, admitted served ctx)
      → IsServed req served × IsGuarded served ctx
  unfolding admit
  dispatch-admitted fuel now limiter req (err e) at again h = cc
  dispatch-admitted fuel now limiter req (ok none) at again h =
      let (same, held) =
        rate-admitted req now limiter (guarded p deps req) refl (some-injective _ _ h) in
      (inl same, held)
  dispatch-admitted fuel now limiter req (ok (some made)) at again h =
      let (origin, held) = again made h in
      elim origin [
        | inl same ↦ (inr (at ∙ ap (λ r. ok (some r)) (sym same)), held)
        | inr twice ↦
            let once = alternate_request-made p deps.web req at in ground (arith, once, twice)
      ]

  -- A request reaches a route only as itself or as the one request that the alternate syntax makes
  -- of it; and it has a supported version, or needs none, a body within the limit, and, unless its
  -- path is /xapi/about, a caller that its Authorization header proves and whose scopes meet the
  -- route's rule.
  pub fetch-IsGuarded :
      (fuel now : ℕ) (limiter : Limiter) (req : HttpRequest p) {l : Limiter}
      {served : HttpRequest p} {ctx : Context p}
      → fetch p deps fuel now limiter req ≡ some (l, admitted served ctx)
      → IsServed req served × IsGuarded served ctx
  unfolding fetch
  fetch-IsGuarded zero now limiter req h = cc
  fetch-IsGuarded (suc fuel) now limiter req h =
      dispatch-admitted fuel now limiter req (alternate_request p deps.web req) refl
        (λ made g. fetch-IsGuarded fuel now limiter made g) h

  -- what the request is answered with, and the limiter after it
  abbrev pub served_result :
      (now : ℕ) (limiter : Limiter) (req : HttpRequest p)
      → Result (Option (HttpRequest p))
      → Limiter × Outcome p
  served_result now limiter req (err e) = (limiter, refused e)
  served_result now limiter req (ok none) = admit p deps now limiter req
  served_result now limiter req (ok (some made)) = admit p deps now limiter made

  dispatch-enough :
      (more now : ℕ) (limiter : Limiter) (req : HttpRequest p)
      (result : Result (Option (HttpRequest p)))
      → alternate_request p deps.web req ≡ result
      → dispatch p deps
          (fetch p deps (suc more) now limiter)
          (admit p deps now limiter)
          limiter
          req
          result
        ≡ some (served_result now limiter req result)
  unfolding fetch
  dispatch-enough more now limiter req (err e) at = refl
  dispatch-enough more now limiter req (ok none) at = refl
  dispatch-enough more now limiter req (ok (some made)) at =
      rw (alternate_request-made p deps.web req at) refl

  -- Every request is answered: fuel for two requests is enough, and with any fuel from there on the
  -- answer is the error of the alternate syntax, or that of the middleware chain on the one request
  -- that the alternate syntax makes, or on the request itself where it makes none.
  pub fetch_enough :
      (more now : ℕ) (limiter : Limiter) (req : HttpRequest p)
      → fetch p deps (suc (suc more)) now limiter req
        ≡ some (served_result now limiter req (alternate_request p deps.web req))
  unfolding fetch
  fetch_enough more now limiter req =
      dispatch-enough more now limiter req (alternate_request p deps.web req) refl
