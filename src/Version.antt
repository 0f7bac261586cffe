-- ===== src/Version.antt =====
-- xapi/versions.ts, and the version negotiation of app.ts.
pub mod Laws
use xapi_lrs.Prelude.{
  String, Bool, ◌&&◌, ◌||◌, Option, none, some, ◌==◌, starts_with, concat, optional_patch,
  if◌then◌else◌, or_else,
}
use Prim.Native.String.{[], ◌∷◌}
use xapi_lrs.Http.{Result, ok, err, http}

-- SUPPORTED_VERSIONS
pub data XapiVersion : Type 0 where
  v1_0_3 v2_0_0 : XapiVersion

abbrev pub version_text : XapiVersion → String
version_text v1_0_3 = "1.0.3"
version_text v2_0_0 = "2.0.0"

-- `isV2`
unfoldable pub is_v2 : XapiVersion → Bool
is_v2 v = starts_with (version_text v) "2."

abbrev pub latest_version : XapiVersion
latest_version = v2_0_0

after_three : String → String
after_three (a ∷ b ∷ c ∷ rest) = rest
after_three _ = ""

-- `/^<line>(\.\d+)?$/.test(version)`, with a line of three characters
unfoldable pub on_line : String → String → Bool
unfolding after_three
on_line line version = starts_with version line && optional_patch (after_three version)

-- `negotiate` of a version that is sent
abbrev pub negotiate_text : String → Option XapiVersion
negotiate_text version =
    if on_line "1.0" version
    then some v1_0_3
    else if on_line "2.0" version
    then some v2_0_0
    else none

-- `negotiate`
abbrev pub negotiate : Option String → Option XapiVersion
negotiate none = none
negotiate (some version) = negotiate_text version

-- the paths on which the header is optional
abbrev pub is_open : String → Bool
is_open path = path == "/xapi/about" || path == "/xapi/stream"

-- the version that the response echoes, and the version with which the next handler runs
pub record Negotiated : Type 0 where
  pub echoed : XapiVersion
  pub resolved : Result XapiVersion

abbrev pub unsupported : String → Negotiated
unsupported version = record {
  echoed = latest_version;
  resolved = err (http 400 (concat "Unsupported xAPI version: " version));
}

abbrev pub accepted : XapiVersion → Negotiated
accepted v = record { echoed = v; resolved = ok v }

abbrev pub of_text : String → Option XapiVersion → Negotiated
of_text version none = unsupported version
of_text version (some v) = accepted v

-- the middleware of app.ts
unfoldable pub version_middleware : String → Option String → Negotiated
version_middleware path (some version) = of_text version (negotiate_text version)
version_middleware path none =
    if is_open path then accepted (or_else (negotiate none) latest_version) else record {
      echoed = latest_version;
      resolved = err (http 400 "X-Experience-API-Version header is required");
    }
