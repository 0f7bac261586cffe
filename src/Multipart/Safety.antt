-- ===== src/Multipart/Safety.antt =====
-- The content types with which attachments are kept.
use xapi_lrs.Prelude.{
  ℕ, suc, String, ◌≡◌, ◌≢◌, refl, ap, subst, false, List, [], ◌∷◌, ◌==◌, arith, All, contains,
  eq_iff, trim_end, trim_start, split_first, Bool-cases, inl, inr, Option, none, some,
}
use xapi_lrs.Http.{ok, guard, ◌>>=◌, >>=-eq-ok, ok-injective}
use xapi_lrs.Json.{Json}
use xapi_lrs.Platform.{Platform}
use xapi_lrs.Statement.Services.{AttachmentPart}
use xapi_lrs.Multipart.Frame.{Bytes}
use xapi_lrs.Multipart.Part.{ParsedPart, part_header}
use xapi_lrs.Multipart.{
  Bytewise, dangerous_content_types, base_type, sanitize_content_type, set_part, hash_of,
  named_part, binary_part, is_binary, attachment_of, collect_parts, first_json, with_json, assemble,
  delimiter_of, raw_parts, parse_parts, parse_multipart_mixed,
}

module _ (p : Platform) (bw : Bytewise p)
    (lower : p.to_lower "application/octet-stream" ≡ "application/octet-stream") where
  -- an attachment with a hash, whose content type is none of those that a browser would run
  abbrev pub IsInert : AttachmentPart p → Type 0
  IsInert a =
      (a.sha2 ≢ "") × (contains dangerous_content_types (base_type p a.content_type) ≡ false)

  sanitize_content_type-safe :
      (content_type : String)
      → contains dangerous_content_types (base_type p (sanitize_content_type p content_type))
        ≡ false
  unfolding sanitize_content_type base_type trim_end trim_start split_first
  sanitize_content_type-safe content_type =
      elim (Bool-cases (contains dangerous_content_types (base_type p content_type))) [
        | inl dangerous ↦ rw dangerous octets
        | inr safe ↦ rw (safe, safe) refl
      ]
    where
      octets : contains dangerous_content_types (base_type p "application/octet-stream") ≡ false
      octets = rw lower refl

  set_part-IsInert :
      (a : AttachmentPart p) (found : List (AttachmentPart p))
      → IsInert a
      → All IsInert found
      → All IsInert (set_part p bw a found)
  unfolding set_part
  set_part-IsInert a [] h hs = (h, tt)
  set_part-IsInert a (q ∷ rest) h (g, hs) = elim (Bool-cases (q.sha2 == a.sha2)) [
    | inl same ↦ rw same (h, hs)
    | inr differs ↦ rw differs (g, set_part-IsInert a rest h hs)
  ]

  hash_of-nonempty :
      (n : ℕ) (found : Option String) {sha2 : String} → hash_of p bw n found ≡ ok sha2 → sha2 ≢ ""
  hash_of-nonempty n none h = cc
  hash_of-nonempty n (some s) h = ground (arith, eq_iff s "")

  attachment_of-IsInert :
      (n : ℕ) (part : ParsedPart) {a : AttachmentPart p}
      → attachment_of p bw n part ≡ ok a
      → IsInert a
  attachment_of-IsInert n part h =
      let (sha2, hashed, h1) =
        >>=-eq-ok (hash_of p bw n (part_header "x-experience-api-hash" part.headers))
          (binary_part p bw n part) h in
      let (_, _, h2) =
        >>=-eq-ok
          (guard (is_binary p bw (part_header "content-transfer-encoding" part.headers)) 400 _)
          (λ _. ok (named_part p bw part sha2)) h1 in
      subst IsInert (ok-injective h2) (
        hash_of-nonempty n (part_header "x-experience-api-hash" part.headers) hashed,
        sanitize_content_type-safe _,
      )

  collect_parts-IsInert :
      (n : ℕ) (parts : List ParsedPart) (found : List (AttachmentPart p))
      {kept : List (AttachmentPart p)}
      → All IsInert found
      → collect_parts p bw n parts found ≡ ok kept
      → All IsInert kept
  unfolding collect_parts
  collect_parts-IsInert n [] found hs h = subst (All IsInert) (ok-injective h) hs
  collect_parts-IsInert n (part ∷ rest) found hs h =
      let (a, at, h1) =
        >>=-eq-ok (attachment_of p bw n part)
          (λ a. collect_parts p bw (suc n) rest (set_part p bw a found)) h in
      collect_parts-IsInert (suc n) rest (set_part p bw a found)
        (set_part-IsInert a found (attachment_of-IsInert n part at) hs) h1

  assemble-IsInert :
      (parts : List ParsedPart) {json : Json} {kept : List (AttachmentPart p)}
      → assemble p bw parts ≡ ok (json, kept)
      → All IsInert kept
  unfolding assemble
  assemble-IsInert [] h = cc
  assemble-IsInert (part ∷ rest) h =
      let (json, _, h1) =
        >>=-eq-ok (first_json p bw part)
          (λ json. collect_parts p bw 2 rest [] >>= with_json p bw json) h in
      let (found, at, h2) = >>=-eq-ok (collect_parts p bw 2 rest []) (with_json p bw json) h1 in
      subst (All IsInert) (ap (λ r. r.1) (ok-injective h2)) (collect_parts-IsInert 2 rest [] tt at)

  -- Every attachment that the parser takes from a body, whatever the body, has a hash and a content
  -- type that is none of the dangerous ones, its parameters, its case and the space around it left
  -- aside.
  pub parse_multipart_mixed-IsInert :
      (body : Bytes) (boundary : String) {json : Json} {kept : List (AttachmentPart p)}
      → parse_multipart_mixed p bw body boundary ≡ ok (json, kept)
      → All IsInert kept
  unfolding parse_multipart_mixed
  parse_multipart_mixed-IsInert body boundary h =
      let (_, _, h1) =
        >>=-eq-ok (guard _ 400 "Malformed multipart body: insufficient boundary markers")
          (λ _. assemble p bw (parse_parts p bw (raw_parts p bw (delimiter_of p bw boundary) body)))
          h in
      assemble-IsInert (parse_parts p bw (raw_parts p bw (delimiter_of p bw boundary) body)) h1
