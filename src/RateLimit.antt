-- ===== src/RateLimit.antt =====
-- middleware/rate-limit.ts: the sliding-window limiter and its middleware. Times are milliseconds;
-- the buckets are an association list from keys to the times of the recorded requests.
pub mod Laws
use xapi_lrs.Prelude.{
  ℕ, ◌+◌, ◌-◌, ◌*◌, ◌/◌, String, Bool, true, false, Option, none, some, List, [], ◌∷◌, ◌++◌, ◌==◌,
  ltb, leb, keep, length, concat, or_else, if◌then◌else◌,
}
use xapi_lrs.Auth.{AuthInfo, basic, jwt}

abbrev pub Buckets : Type 0
Buckets = List (String × List ℕ)

-- `this.buckets.get(key)` and `this.buckets.set(key, timestamps)`
unfoldable pub bucket : String → Buckets → Option (List ℕ)
bucket key [] = none
bucket key ((k, ts) ∷ rest) = if k == key then some ts else bucket key rest

unfoldable pub set_bucket : String → List ℕ → Buckets → Buckets
set_bucket key ts [] = (key, ts) ∷ []
set_bucket key ts ((k, us) ∷ rest) =
    if k == key then (key, ts) ∷ rest else (k, us) ∷ set_bucket key ts rest

pub record Limiter : Type 0 where
  pub window_ms : ℕ
  pub max : ℕ
  pub buckets : Buckets

-- `new SlidingWindowLimiter(windowSeconds, max)`
abbrev pub new_limiter : ℕ → ℕ → Limiter
new_limiter window_seconds max = record {
  window_ms = window_seconds * 1000;
  max = max;
  buckets = [];
}

-- `timestamps.filter((t) => t > now - windowMs)`; the cutoff may be negative, so it is moved over
abbrev pub recent : Limiter → ℕ → List ℕ → List ℕ
recent l now ts = keep (λ t. ltb now (t + l.window_ms)) ts

abbrev pub recorded : Option (List ℕ) → List ℕ
recorded none = []
recorded (some ts) = ts

-- `timestamps[0]`, where the source reads it only if it is there
abbrev pub oldest : List ℕ → ℕ
oldest [] = 0
oldest (t ∷ ts) = t

-- `Math.ceil(n / 1000)`, at least 1
abbrev pub at_least_1 : ℕ → ℕ
at_least_1 n = if ltb n 1 then 1 else n

abbrev pub retry_after : Limiter → ℕ → List ℕ → ℕ
retry_after l now ts = at_least_1 ((oldest ts + l.window_ms - now + 999) / 1000)

pub data Verdict : Type 0 where
  allowed : Verdict
  limited : (retry_after_seconds : ℕ) → Verdict

abbrev pub with_bucket : Limiter → String → List ℕ → Limiter
with_bucket l key ts = record l { buckets = set_bucket key ts l.buckets }

abbrev pub decide : Limiter → String → ℕ → List ℕ → Limiter × Verdict
decide l key now ts =
    if leb l.max (length ts)
    then (with_bucket l key ts, limited (retry_after l now ts))
    else (with_bucket l key (ts ++ now ∷ []), allowed)

-- `check(key)` at the time `now`
unfoldable pub check : Limiter → String → ℕ → Limiter × Verdict
check l key now = decide l key now (recent l now (recorded (bucket key l.buckets)))

-- `pruneStaleKeys`
abbrev pub and_bucket : String → List ℕ → Buckets → Buckets
and_bucket key [] rest = rest
and_bucket key (t ∷ ts) rest = (key, t ∷ ts) ∷ rest

pub prune_buckets : Limiter → ℕ → Buckets → Buckets
prune_buckets l now [] = []
prune_buckets l now ((key, ts) ∷ rest) = and_bucket key (recent l now ts) (prune_buckets l now rest)

unfoldable pub prune_stale_keys : Limiter → ℕ → Limiter
unfolding prune_buckets
prune_stale_keys l now = record l { buckets = prune_buckets l now l.buckets }

-- the key of a request: the credential, or the subject, or the client's address
abbrev pub limit_key : Option AuthInfo → String → String
limit_key (some (basic credential_id _ _)) ip = concat "cred:" credential_id
limit_key (some (jwt sub _ _)) ip = concat "jwt:" sub
limit_key none ip = concat "ip:" ip

-- `rateLimitMiddleware`; `none` calls the next handler, `some` is the 429 with its Retry-After
abbrev pub answer : Verdict → Option ℕ
answer allowed = none
answer (limited seconds) = some seconds

unfoldable pub rate_limit_middleware :
    Limiter → String → Option AuthInfo → String → ℕ → Limiter × Option ℕ
unfolding check
rate_limit_middleware l path auth ip now =
    if path == "/xapi/about"
    then (l, none)
    else (let result = check l (limit_key auth ip) now in (result.0, answer result.1))
