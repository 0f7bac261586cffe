-- ===== src/Tests/Access.antt =====
-- The theorems on versions, authorization and the rate limit, at concrete requests.
use xapi_lrs.Prelude.{
  optional_patch, ℕ, String, Option, ◌≡◌, refl, ◌≤◌, some, List, [], ◌∷◌, length, arith, ◌*◌,
}
use xapi_lrs.Http.{ok, err, http}
use xapi_lrs.Version.{v1_0_3, on_line, version_middleware}
use xapi_lrs.Auth.{AuthInfo, basic, statements_read, state_read, scope_middleware}
use xapi_lrs.Auth.Laws.{statements, scope_middleware-read_only}
use xapi_lrs.RateLimit.{new_limiter}
use xapi_lrs.RateLimit.Laws.{in_window, run, run_limit}

abbrev sent_version : Option String
sent_version = some "1.0.1"

version_accepted : (version_middleware "/xapi/statements" sent_version).resolved ≡ ok v1_0_3
unfolding version_middleware on_line optional_patch
version_accepted = refl

abbrev reader : AuthInfo
reader = basic "c1" "dashboard" (statements_read ∷ state_read ∷ [])

scope_middleware-read_only_example :
    scope_middleware "/xapi/statements" "POST" (some reader) ≡ err (http 403 "Insufficient scope")
scope_middleware-read_only_example =
    scope_middleware-read_only "/xapi/statements" "POST" reader statements refl refl

-- two of the three requests are let through
abbrev requests : List (String × ℕ)
requests = ("ip:1", 0) ∷ ("ip:1", 10) ∷ ("ip:2", 15) ∷ ("ip:1", 20) ∷ []

run_limit_example :
    length (in_window (60 * 1000) 20 (run "ip:1" requests (new_limiter 60 2) []).1) ≤ 2
run_limit_example =
    run_limit "ip:1" 60 2 requests 20 (omega arith, (omega arith, (omega arith, (omega arith, tt))))
      (omega arith)
