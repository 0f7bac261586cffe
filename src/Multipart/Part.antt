-- ===== src/Multipart/Part.antt =====
-- One part of a multipart body (xapi/multipart.ts): its headers and its data.
pub mod Laws
use Prim.Native.Char.{Char, code}
use xapi_lrs.Prelude.{
  ℕ, zero, suc, ◌+◌, ◌-◌, String, Bool, true, false, ◌&&◌, ◌||◌, Option, none, some, List, [], ◌∷◌,
  ◌==◌, ◌=ℕ◌, leb, length, drop, first, map, trim, concat, split_at, split_lines, read,
  if◌then◌else◌,
}
use xapi_lrs.Platform.{Platform}
use xapi_lrs.Multipart.Frame.{Bytes, has_prefix, subarray}

abbrev pub crlf : Bytes
crlf = 13 ∷ 10 ∷ []

abbrev pub lf : Bytes
lf = 10 ∷ []

-- whether the last bytes are these
abbrev pub has_suffix : Bytes → Bytes → Bool
has_suffix end part =
    leb (length end) (length part) && has_prefix end (drop (length part - length end) part)

abbrev pub blank : Bytes
blank = 13 ∷ 10 ∷ 13 ∷ 10 ∷ []

abbrev pub starts_blank : Bytes → Bool
starts_blank part = has_prefix blank part || has_prefix (10 ∷ 10 ∷ []) part

abbrev pub one_more : Option ℕ → Option ℕ
one_more none = none
one_more (some n) = some (suc n)

-- `findDoubleNewline(buf, from)`, counted from there; `none` for -1
unfoldable pub find_double_newline : Bytes → Option ℕ
find_double_newline [] = none
find_double_newline (b ∷ part) =
    let later = find_double_newline part in
    if starts_blank (b ∷ part) then some 0 else one_more later

-- the headers of a part, a Map from names to values
abbrev pub Headers : Type 0
Headers = List (String × String)

unfoldable pub put_header : String → String → Headers → Headers
put_header name value [] = (name, value) ∷ []
put_header name value ((n, v) ∷ rest) =
    if n == name then (n, value) ∷ rest else (n, v) ∷ put_header name value rest

abbrev pub part_header : String → Headers → Option String
part_header name headers = read (λ h. h.1) (first (λ h. h.0 == name) headers)

-- one line of the headers; a line without a colon, or with it in front, is passed over
abbrev pub add_pair : Platform → Option (String × String) → Headers → Headers
add_pair p none headers = headers
add_pair p (some (name, value)) headers =
    if name == "" then headers else put_header (p.to_lower (trim name)) (trim value) headers

abbrev pub add_line : Platform → String → Headers → Headers
add_line p line headers = add_pair p (split_at b':' line) headers

abbrev pub add_lines : Platform → List String → Headers → Headers
add_lines p [] headers = headers
add_lines p (line ∷ rest) headers = add_lines p rest (add_line p line headers)

pub record ParsedPart : Type 0 where
  pub headers : Headers
  pub body : Bytes

-- the part without the line break in front
unfoldable pub strip_break : Bytes → Bytes
strip_break part =
    if has_prefix crlf part then drop 2 part else if has_prefix lf part then drop 1 part else part

-- where the data ends, without the line break before the next boundary
unfoldable pub data_end : Bytes → ℕ
data_end part =
    if has_suffix crlf part
    then length part - 2
    else if has_suffix lf part
    then length part - 1
    else length part

abbrev pub blank_width : Bytes → ℕ
blank_width rest = if has_prefix (13 ∷ []) rest then 4 else 2

-- the part whose headers end at a position, if there is a blank line; `text` is `toString('utf8')`
abbrev pub split_part : Platform → (Bytes → String) → Bytes → Option ℕ → ParsedPart
split_part p text rest none = record { headers = []; body = rest }
split_part p text rest (some end) = record {
  headers = add_lines p (split_lines (text (subarray 0 end rest))) [];
  body = subarray (end + blank_width (drop end rest)) (data_end rest) rest;
}

-- `parsePartHeadersAndBody`; positions are counted after the break in front, and the ends of the
-- part are looked at there, where the headers that come before a blank line are
unfoldable pub parse_part : Platform → (Bytes → String) → Bytes → ParsedPart
parse_part p text part =
    split_part p text (strip_break part) (find_double_newline (strip_break part))
