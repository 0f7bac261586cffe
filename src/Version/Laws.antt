-- ===== src/Version/Laws.antt =====
-- The requests that pass the version negotiation.
use xapi_lrs.Prelude.{
  String, ◌≡◌, true, Option, none, some, ◌⊎◌, inl, inr, arith, Bool-cases, Option-cases,
}
use xapi_lrs.Http.{ok}
use xapi_lrs.Version.{
  XapiVersion, latest_version, negotiate, negotiate_text, is_open, version_middleware,
}

-- A request that passes the negotiation runs with the version that the response echoes, and either
-- it sent a version of that line, or it sent none, its path is open, and it runs with the latest
-- one.
pub version_middleware-ok :
    (path : String) (version : Option String) {v : XapiVersion}
    → (version_middleware path version).resolved ≡ ok v
    → ((version_middleware path version).echoed ≡ v)
      × ((negotiate version ≡ some v)
          ⊎ ((version ≡ none) × (is_open path ≡ true) × (v ≡ latest_version)))
unfolding version_middleware
version_middleware-ok path (some version) h = elim (Option-cases (negotiate_text version)) [
  | inl at ↦ ground (arith, at)
  | inr (w, at) ↦ ground (arith, at)
]
version_middleware-ok path none h = elim (Bool-cases (is_open path)) [
  | inl opens ↦ ground (arith, opens)
  | inr shut ↦ ground (arith, shut)
]
