-- ===== src/Multipart/Laws.antt =====
-- What the parser makes of a body that is framed by its boundary.
use xapi_lrs.Prelude.{
  ℕ, suc, String, ◌≡◌, refl, ap, ◌∙◌, Bool, true, false, ◌&&◌, List, [], ◌∷◌, arith, length, ltb,
  split_lines,
}
use xapi_lrs.Platform.{Platform}
use xapi_lrs.Multipart.Frame.{Bytes}
use xapi_lrs.Multipart.Frame.Laws.{
  all_clean, is_free, framed, next_starts, positions-framed, raw_parts-framed,
}
use xapi_lrs.Multipart.Part.{ParsedPart, add_lines}
use xapi_lrs.Multipart.Part.Laws.{is_unbroken, written_part, parse_part-written}
use xapi_lrs.Multipart.{Bytewise, delimiter_of, assemble, parse_parts, parse_multipart_mixed}

two_starts :
    (width : ℕ) (part : Bytes) (rest : List Bytes)
    → ltb (length (0 ∷ next_starts width 0 (part ∷ rest))) 2 ≡ false
two_starts width part rest = ground arith

-- the headers' text of a part in bytes, and its data
pub record Section : Type 0 where
  pub head : Bytes
  pub contents : Bytes

abbrev pub written_all : List Section → List Bytes
written_all [] = []
written_all (s ∷ rest) = written_part s.head s.contents ∷ written_all rest

abbrev pub all_unbroken : List Section → Bool
all_unbroken [] = true
all_unbroken (s ∷ rest) = is_unbroken s.head && all_unbroken rest

module _ (p : Platform) (bw : Bytewise p) where
  -- the headers that the text means, and the data
  abbrev pub meaning : Section → ParsedPart
  meaning s = record {
    headers = add_lines p (split_lines (bw.decode s.head)) [];
    body = s.contents;
  }

  abbrev pub meanings : List Section → List ParsedPart
  meanings [] = []
  meanings (s ∷ rest) = meaning s ∷ meanings rest

  parse_parts-written :
      (sections : List Section)
      → all_unbroken sections ≡ true
      → parse_parts p bw (written_all sections) ≡ meanings sections
  parse_parts-written [] h = refl
  parse_parts-written (s ∷ rest) h =
      ap (λ part. part ∷ parse_parts p bw (written_all rest))
        (parse_part-written p bw.decode s.head s.contents (ground arith))
      ∙ ap (λ parts. meaning s ∷ parts) (parse_parts-written rest (ground arith))

  -- A body of at least one part, in which the boundary's delimiter stands just around the parts and
  -- no blank line stands in the headers, is read as its parts: with the headers of
  -- their texts, and with their data byte for byte, in order.
  pub parse_multipart_mixed-framed :
      (boundary : String) (c : ℕ) (d last : Bytes) (s : Section) (rest : List Section)
      → delimiter_of p bw boundary ≡ c ∷ d
      → all_clean (c ∷ d) (written_all (s ∷ rest)) ≡ true
      → is_free (c ∷ d) last ≡ true
      → all_unbroken (s ∷ rest) ≡ true
      → parse_multipart_mixed p bw (framed (c ∷ d) (written_all (s ∷ rest)) last) boundary
        ≡ assemble p bw (meanings (s ∷ rest))
  unfolding parse_multipart_mixed
  parse_multipart_mixed-framed boundary c d last s rest delimiter clean free unbroken =
      rw
        (
          delimiter,
          raw_parts-framed c d (written_all (s ∷ rest)) last clean free,
          positions-framed c d 0 (written_all (s ∷ rest)) last clean free,
          two_starts (suc (length d)) (written_part s.head s.contents) (written_all rest),
        )
        (ap (assemble p bw) (parse_parts-written (s ∷ rest) unbroken))
