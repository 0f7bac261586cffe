-- ===== src/Multipart/Part/Laws.antt =====
-- The headers and the data of a part are read as they were written.
use mathlib.Core.List.{append_assoc}
use xapi_lrs.Prelude.{
  ℕ, ◌+◌, ◌-◌, ◌≤◌, String, ◌≡◌, refl, sym, ap, ◌∙◌, Bool, true, false, some, [], ◌∷◌, ◌++◌, arith,
  length, length-append, take, drop, split_lines, if◌then◌else◌,
}
use xapi_lrs.Platform.{Platform}
use xapi_lrs.Multipart.Frame.{Bytes, has_prefix, subarray}
use xapi_lrs.Multipart.Frame.Laws.{
  has_prefix-append, has_prefix_self, subarray-middle, take-append, drop-append,
}
use xapi_lrs.Multipart.Part.{
  crlf, blank, has_suffix, starts_blank, one_more, find_double_newline, add_lines, strip_break,
  data_end, blank_width, split_part, parse_part,
}

-- the blank line, once it is put behind the headers, is not met before their end
abbrev pub is_unbroken : Bytes → Bool
is_unbroken [] = true
is_unbroken (b ∷ head) = if starts_blank ((b ∷ head) ++ blank) then false else is_unbroken head

-- a part as it stands between two delimiters
abbrev pub written_part : Bytes → Bytes → Bytes
written_part head contents = crlf ++ (head ++ (blank ++ (contents ++ crlf)))

starts_blank-append : (xs ys : Bytes) → 4 ≤ length xs → starts_blank (xs ++ ys) ≡ starts_blank xs
starts_blank-append xs ys h =
    rw (has_prefix-append blank xs ys h, has_prefix-append (10 ∷ 10 ∷ []) xs ys (omega arith)) refl

clear_head :
    (b : ℕ) (head rest : Bytes)
    → is_unbroken (b ∷ head) ≡ true
    → starts_blank ((b ∷ head) ++ (blank ++ rest)) ≡ false
clear_head b head rest h =
    ap starts_blank (sym (append_assoc (b ∷ head) blank rest))
    ∙ starts_blank-append ((b ∷ head) ++ blank) rest (rw (length-append head blank) (omega arith))
    ∙ ground arith

find_double_newline-blank :
    (head rest : Bytes)
    → is_unbroken head ≡ true
    → find_double_newline (head ++ (blank ++ rest)) ≡ some (length head)
unfolding find_double_newline has_prefix
find_double_newline-blank [] rest h = refl
find_double_newline-blank (b ∷ head) rest h =
    rw (clear_head b head rest h) (ap one_more (find_double_newline-blank head rest (ground arith)))

has_suffix-append : (xs end : Bytes) → has_suffix end (xs ++ end) ≡ true
has_suffix-append xs end = rw (length-append xs end) (
    let at : length xs + length end - length end ≡ length xs = omega arith in
    rw (at, drop-append xs end, has_prefix_self end) (ground arith))

data_end-crlf : (xs : Bytes) → data_end (xs ++ crlf) ≡ length xs
unfolding data_end
data_end-crlf xs = rw (has_suffix-append xs crlf, length-append xs crlf) (omega arith)

-- A part that is written with its headers, a blank line, its data and a line break is read with
-- these headers and just these data, whatever bytes the data are.
pub parse_part-written :
    (p : Platform) (text : Bytes → String) (head contents : Bytes)
    → is_unbroken head ≡ true
    → parse_part p text (written_part head contents)
      ≡ record { headers = add_lines p (split_lines (text head)) []; body = contents }
unfolding parse_part strip_break data_end has_prefix
parse_part-written p text head contents h =
    ap (split_part p text rest) (find_double_newline-blank head (contents ++ crlf) h) ∙ λ i.
    record { headers = add_lines p (split_lines (text (head_at i))) []; body = contents_at i }
  where
    rest : Bytes
    rest = head ++ (blank ++ (contents ++ crlf))

    regroup : rest ≡ (head ++ blank) ++ (contents ++ crlf)
    regroup = sym (append_assoc head blank (contents ++ crlf))

    width : blank_width (drop (length head) rest) ≡ 4
    width = rw (drop-append head (blank ++ (contents ++ crlf))) refl

    end : data_end rest ≡ length (head ++ blank) + length contents
    end =
        ap data_end (regroup ∙ sym (append_assoc (head ++ blank) contents crlf))
        ∙ data_end-crlf ((head ++ blank) ++ contents)
        ∙ length-append (head ++ blank) contents

    head_at : subarray 0 (length head) rest ≡ head
    head_at = ap (λ n. take n rest) (omega arith) ∙ take-append head (blank ++ (contents ++ crlf))

    contents_at :
        subarray (length head + blank_width (drop (length head) rest)) (data_end rest) rest
        ≡ contents
    contents_at =
        ap (subarray (length head + blank_width (drop (length head) rest)) (data_end rest)) regroup
        ∙ subarray-middle (head ++ blank) contents crlf _ _
            (ap (λ n. length head + n) width ∙ sym (length-append head blank)) end
