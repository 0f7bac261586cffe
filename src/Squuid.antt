-- ===== src/Squuid.antt =====
-- helpers/squuid.ts: row identifiers that sort by their time, as their texts.
pub mod Digits
pub mod Laws
use Prim.Native.Char.{Char, code}
use Prim.Native.String.{[], ◌∷◌}
use xapi_lrs.Prelude.{
  ℕ, zero, suc, ◌+◌, ◌-◌, ◌*◌, ◌/◌, ◌%◌, String, Bool, ltb, leb, is_digit, is_hex, concat,
  drop_chars, count_chars, Option, some, none, if◌then◌else◌,
}
use xapi_lrs.Platform.{Millis, since_epoch, before_epoch}

-- `s.slice(0, n)`
unfoldable pub take_chars : ℕ → String → String
take_chars zero s = ""
take_chars (suc n) [] = ""
take_chars (suc n) (c ∷ s) = c ∷ take_chars n s

-- `s.slice(first, last)`
abbrev pub slice : (first last : ℕ) → String → String
slice first last s = take_chars (last - first) (drop_chars first s)

unfoldable pub hex_digit : ℕ → String
unfolding take_chars
hex_digit n = slice n (suc n) "0123456789abcdef"

unfoldable pub hex_from : ℕ → ℕ → String
hex_from zero n = ""
hex_from (suc fuel) n =
    let more = concat (hex_from fuel (n / 16)) (hex_digit (n % 16)) in
    if ltb n 16 then hex_digit n else more

-- `n.toString(16)`: a number has no more digits than its value
abbrev pub to_hex : ℕ → String
to_hex n = hex_from (suc n) n

unfoldable pub zeros : ℕ → String
zeros zero = ""
zeros (suc n) = concat "0" (zeros n)

-- `s.padStart(12, '0')`
abbrev pub pad_start : String → String
pad_start s = concat (zeros (12 - count_chars s)) s

-- the first 13 characters, of the digits of a time
abbrev pub time_part : String → String
time_part hex = concat (slice 0 8 hex) (concat "-" (slice 8 12 hex))

-- `squuid`; `base` is the random UUID
unfoldable pub squuid : (now : ℕ) (base : String) → String
unfolding take_chars hex_digit hex_from zeros
squuid now base = concat (time_part (pad_start (to_hex now))) (concat "-" (drop_chars 14 base))

-- `timestampMs.toString(16)`
abbrev pub signed_hex : Millis → String
signed_hex (since_epoch ms) = to_hex ms
signed_hex (before_epoch ms) = concat "-" (to_hex ms)

-- `squuidMin`
unfoldable pub squuid_min : Millis → String
unfolding take_chars hex_digit hex_from zeros
squuid_min time = concat (time_part (pad_start (signed_hex time))) "-0000-0000-000000000000"

abbrev pub hex_value : Char → ℕ
hex_value c =
    if is_digit c then code c - b'0' else if leb b'a' (code c) then code c - 87 else code c - 55

unfoldable pub read_hex : ℕ → String → ℕ
read_hex acc [] = acc
read_hex acc (c ∷ s) =
    let rest = read_hex (acc * 16 + hex_value c) s in if is_hex c then rest else acc

-- `parseInt(s, 16)`, which reads up to the first character that is no digit; `none` is NaN. White
-- space, a sign and `0x` at the start, which no identifier has, are left out.
abbrev pub parse_hex : String → Option ℕ
parse_hex [] = none
parse_hex (c ∷ s) = if is_hex c then some (read_hex 0 (c ∷ s)) else none

-- `squuidTimestamp`
unfoldable pub squuid_timestamp : String → Option ℕ
unfolding take_chars read_hex
squuid_timestamp id = parse_hex (concat (slice 0 8 id) (slice 9 13 id))
