-- ===== src/ClientIp.antt =====
-- helpers/client-ip.ts: the address of a client behind trusted proxies.
pub mod Laws
use xapi_lrs.Prelude.{
  ℕ, zero, suc, ◌+◌, ◌-◌, String, Bool, true, false, Option, none, some, List, [], ◌∷◌, ◌==◌, map,
  leb, length, drop, split, split_first, trim, trim_start, trim_end, if◌then◌else◌,
}

-- `part || 'unknown'`
abbrev pub or_unknown : String → String
or_unknown part = if part == "" then "unknown" else part

abbrev pub part_at : List String → String
part_at [] = "unknown"
part_at (part ∷ rest) = or_unknown part

-- the parts of the header
unfoldable pub forwarded_parts : String → List String
unfolding split_first trim_start trim_end
forwarded_parts header = map trim (split b',' header)

-- the part before the last `hops`, or the first if there are too few
unfoldable pub part_before : ℕ → List String → String
part_before hops parts =
    if leb (length parts) hops
    then part_at parts
    else part_at (drop (length parts - hops - 1) parts)

-- `resolveClientIp`; the number of hops is not negative
unfoldable pub resolve_client_ip : Option String → ℕ → String
unfolding forwarded_parts part_before
resolve_client_ip none hops = "unknown"
resolve_client_ip (some header) hops =
    if header == ""
    then "unknown"
    else if leb hops 0
    then part_at (forwarded_parts header)
    else part_before hops (forwarded_parts header)
