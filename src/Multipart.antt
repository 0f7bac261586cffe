-- ===== src/Multipart.antt =====
-- xapi/multipart.ts: the boundary of a content type, the parser of multipart bodies and the builder
-- of multipart responses. UTF-8 and Node's Buffer are parameters. An Error that the parser throws
-- is written as the 400 by which app.ts answers it.
pub mod Frame
pub mod Part
pub mod Laws
pub mod Safety
use Prim.Native.Char.{Char, code}
use Prim.Native.String
use xapi_lrs.Prelude.{
  ℕ, zero, suc, ◌+◌, String, Bool, true, false, not, ◌&&◌, ◌||◌, Option, none, some, List, [], ◌∷◌,
  ◌++◌, ◌==◌, ltb, contains, includes, length, concat, or_else, split, split_at, starts_with,
  drop_chars, show, trim, until_break, find_text, or_later, if◌then◌else◌,
}
use xapi_lrs.Http.{Result, ok, err, http, guard, ◌>>=◌, ◌>>◌}
use xapi_lrs.Json.{Json}
use xapi_lrs.Platform.{Platform}
use xapi_lrs.Statement.Services.{AttachmentPart}
use Frame.{Bytes, positions, parts_at}
use Part.{Headers, ParsedPart, part_header, parse_part}

-- UTF-8, and the bytes of a Buffer
pub record Bytewise (p : Platform) : Type 0 where
  pub encode : String → Bytes
  pub decode : Bytes → String
  pub bytes_of : p.Buffer → Bytes
  pub buffer_of : Bytes → p.Buffer

-- the first match of `boundary="([^"]+)"` that starts here, and of `boundary=([^\s;]+)`
abbrev pub quoted_value : Option (String × String) → Option String
quoted_value none = none
quoted_value (some (value, rest)) = if value == "" then none else some value

unfoldable pub quoted_here : String → Option String
quoted_here s =
    if starts_with s "boundary=\"" then quoted_value (split_at 34 (drop_chars 10 s)) else none

unfoldable pub unquoted_here : String → Option String
unquoted_here s =
    if starts_with s "boundary=" && not (until_break (drop_chars 9 s) == "")
    then some (until_break (drop_chars 9 s))
    else none

-- `extractBoundary`
unfoldable pub extract_boundary : String → Option String
extract_boundary content_type =
    or_later (find_text quoted_here content_type) (find_text unquoted_here content_type)

-- DANGEROUS_CONTENT_TYPES
abbrev pub dangerous_content_types : List String
dangerous_content_types =
    "text/html" ∷ "text/xml" ∷ "application/xhtml+xml" ∷ "image/svg+xml" ∷ "text/xsl" ∷ []

abbrev pub head_text : List String → String
head_text [] = ""
head_text (s ∷ rest) = s

-- the type without its parameters
unfoldable pub base_type : Platform → String → String
base_type p content_type = p.to_lower (trim (head_text (split b';' content_type)))

-- `sanitizeAttachmentContentType`
unfoldable pub sanitize_content_type : Platform → String → String
sanitize_content_type p content_type =
    if contains dangerous_content_types (base_type p content_type)
    then "application/octet-stream"
    else content_type

abbrev pub fail {ℓ} : {A : Type ℓ} → String → Result A
fail message = err (http 400 message)

module _ (p : Platform) (bw : Bytewise p) where
  -- `attachments.set(sha2, ...)`
  unfoldable pub set_part : AttachmentPart p → List (AttachmentPart p) → List (AttachmentPart p)
  set_part part [] = part ∷ []
  set_part part (q ∷ rest) = if q.sha2 == part.sha2 then part ∷ rest else q ∷ set_part part rest

  abbrev pub is_binary : Option String → Bool
  is_binary none = false
  is_binary (some encoding) = encoding == "binary"

  -- an attachment, by its number
  abbrev pub hash_of : ℕ → Option String → Result String
  hash_of n none =
      fail (concat "Attachment part " (concat (show n) " missing X-Experience-API-Hash header"))
  hash_of n (some sha2) =
      if sha2 == ""
      then fail
          (concat "Attachment part " (concat (show n) " missing X-Experience-API-Hash header"))
      else ok sha2

  abbrev pub named_part : ParsedPart → String → AttachmentPart p
  named_part part sha2 = record {
    sha2 = sha2;
    content_type =
        sanitize_content_type p
          (or_else (part_header "content-type" part.headers) "application/octet-stream");
    contents = bw.buffer_of part.body;
  }

  abbrev pub binary_part : ℕ → ParsedPart → String → Result (AttachmentPart p)
  binary_part n part sha2 = do
    guard (is_binary (part_header "content-transfer-encoding" part.headers)) 400
        (concat "Attachment part " (concat (show n) " must have Content-Transfer-Encoding: binary"))
    ok (named_part part sha2)

  abbrev pub attachment_of : ℕ → ParsedPart → Result (AttachmentPart p)
  attachment_of n part =
      hash_of n (part_header "x-experience-api-hash" part.headers) >>= binary_part n part

  -- the loop over the parts after the first
  unfoldable pub collect_parts :
      ℕ → List ParsedPart → List (AttachmentPart p) → Result (List (AttachmentPart p))
  collect_parts n [] found = ok found
  collect_parts n (part ∷ rest) found =
      attachment_of n part >>= λ a. collect_parts (suc n) rest (set_part a found)

  abbrev pub json_value : Option Json → Result Json
  json_value none = fail "First part of multipart/mixed must be valid JSON"
  json_value (some v) = ok v

  abbrev pub first_json : ParsedPart → Result Json
  first_json part = do
    guard (includes (or_else (part_header "content-type" part.headers) "") "application/json") 400
        "First part of multipart/mixed must have Content-Type application/json"
    json_value (p.parse_text (bw.decode part.body))

  abbrev pub with_json : Json → List (AttachmentPart p) → Result (Json × List (AttachmentPart p))
  with_json json found = ok (json, found)

  -- what is made of the parts
  unfoldable pub assemble : List ParsedPart → Result (Json × List (AttachmentPart p))
  assemble [] = fail "Malformed multipart body: no parts found"
  assemble (part ∷ rest) = first_json part >>= λ json. collect_parts 2 rest [] >>= with_json json

  abbrev pub parse_parts : List Bytes → List ParsedPart
  parse_parts [] = []
  parse_parts (bytes ∷ rest) = parse_part p bw.decode bytes ∷ parse_parts rest

  abbrev pub delimiter_of : String → Bytes
  delimiter_of boundary = bw.encode (concat "--" boundary)

  abbrev pub raw_parts : Bytes → Bytes → List Bytes
  raw_parts delimiter body = parts_at body (length delimiter) (positions delimiter 0 0 body)

  -- `parseMultipartMixed`
  unfoldable pub parse_multipart_mixed : Bytes → String → Result (Json × List (AttachmentPart p))
  parse_multipart_mixed body boundary = do
    guard (not (ltb (length (positions (delimiter_of boundary) 0 0 body)) 2)) 400
        "Malformed multipart body: insufficient boundary markers"
    assemble (parse_parts (raw_parts (delimiter_of boundary) body))

  -- the bytes of the body of `buildMultipartResponse`
  abbrev pub built_part : String → AttachmentPart p → Bytes
  built_part boundary part =
      bw.encode (
        concat "--" (
          concat boundary (
            concat "\r\nContent-Type: " (
              concat part.content_type (
                concat "\r\nContent-Transfer-Encoding: binary\r\nX-Experience-API-Hash: "
                  (concat part.sha2 "\r\n\r\n"))))))
      ++ bw.bytes_of part.contents
      ++ bw.encode "\r\n"

  unfoldable pub built_parts : String → List (AttachmentPart p) → Bytes
  built_parts boundary [] = []
  built_parts boundary (part ∷ rest) = built_part boundary part ++ built_parts boundary rest

  unfoldable pub build_multipart : String → Json → List (AttachmentPart p) → Bytes
  build_multipart boundary json parts =
      bw.encode (concat "--" (concat boundary "\r\nContent-Type: application/json\r\n\r\n"))
      ++ bw.encode (p.stringify_text json)
      ++ bw.encode "\r\n"
      ++ built_parts boundary parts
      ++ bw.encode (concat "--" (concat boundary "--\r\n"))
