-- ===== src/Prelude/Text.antt =====
-- JavaScript's text functions, and the regular expressions of the source by recursive functions.
use Prim.Native.Nat.{ℕ, zero, suc, ◌/◌, ◌%◌}
use Prim.Native.Char.{Char, code}
use Prim.Native.String.{String, [], ◌∷◌, ◌++◌}
use mathlib.Core.Bool.{Bool, true, false, ◌&&◌, ◌||◌}
use mathlib.Core.List.{List}
use mathlib.Core.Option.{Option, none, some}
use text.Mathlib.Text.{◌==◌, starts_with}
use xapi_lrs.Prelude.Tests.{leb, ltb, ◌=ℕ◌, if◌then◌else◌}

-- `a + b`, `${a}${b}`
abbrev pub concat : String → String → String
concat a b = a ++ b

-- `s.includes(t)`
unfoldable pub includes : String → String → Bool
includes [] t = t == ""
includes (c ∷ s) t = starts_with (c ∷ s) t || includes s t

abbrev pub is_digit : Char → Bool
is_digit c = leb b'0' (code c) && leb (code c) b'9'

-- `[0-9a-f]` under the flag `i`
abbrev pub is_hex : Char → Bool
is_hex c =
    is_digit c
    || ((leb b'a' (code c) && leb (code c) b'f') || (leb b'A' (code c) && leb (code c) b'F'))

-- `\d+$`
unfoldable pub all_digits : String → Bool
all_digits [] = false
all_digits (c ∷ []) = is_digit c
all_digits (c ∷ s) = is_digit c && all_digits s

-- `(\.\d+)?$`
unfoldable pub optional_patch : String → Bool
unfolding all_digits
optional_patch [] = true
optional_patch (c ∷ s) = (code c =ℕ b'.') && all_digits s

-- `[0-9a-f]{n}`, then what `next` accepts
unfoldable pub hex_run : ℕ → (String → Bool) → String → Bool
hex_run zero next s = next s
hex_run (suc n) next [] = false
hex_run (suc n) next (c ∷ s) = is_hex c && hex_run n next s

unfoldable pub dash : (String → Bool) → String → Bool
dash next [] = false
dash next (c ∷ s) = (code c =ℕ b'-') && next s

-- `/^[0-9a-f]{8}-[0-9a-f]{4}-[0-9a-f]{4}-[0-9a-f]{4}-[0-9a-f]{12}$/i`
unfoldable pub is_uuid : String → Bool
unfolding hex_run dash
is_uuid s =
    hex_run 8
      (dash (hex_run 4 (dash (hex_run 4 (dash (hex_run 4 (dash (hex_run 12 (λ r. r == ""))))))))) s

-- `s.replace(/^"/, '')`
abbrev pub drop_leading_quote : String → String
drop_leading_quote [] = []
drop_leading_quote (c ∷ s) = if code c =ℕ 34 then s else c ∷ s

-- `s.replace(/"$/, '')`
unfoldable pub drop_trailing_quote : String → String
drop_trailing_quote [] = []
drop_trailing_quote (c ∷ []) = if code c =ℕ 34 then [] else c ∷ []
drop_trailing_quote (c ∷ s) = c ∷ drop_trailing_quote s

digit_text : ℕ → String
digit_text zero = "0"
digit_text (suc zero) = "1"
digit_text (suc (suc zero)) = "2"
digit_text (suc (suc (suc zero))) = "3"
digit_text (suc (suc (suc (suc zero)))) = "4"
digit_text (suc (suc (suc (suc (suc zero))))) = "5"
digit_text (suc (suc (suc (suc (suc (suc zero)))))) = "6"
digit_text (suc (suc (suc (suc (suc (suc (suc zero))))))) = "7"
digit_text (suc (suc (suc (suc (suc (suc (suc (suc zero)))))))) = "8"
digit_text _ = "9"

show_from : ℕ → ℕ → String
show_from zero n = ""
show_from (suc fuel) n =
    let more = concat (show_from fuel (n / 10)) (digit_text (n % 10)) in
    if ltb n 10 then digit_text n else more

-- `String(n)`: a number has no more digits than its value
unfoldable pub show : ℕ → String
unfolding show_from digit_text
show n = show_from (suc n) n

-- `s.split(c)` at a character: the part before the first `c`, and the parts after it
unfoldable pub split_first : ℕ → String → String × List String
split_first c [] = ("", List.[])
split_first c (d ∷ s) =
    let rest = split_first c s in
    if code d =ℕ c then ("", List.◌∷◌ rest.0 rest.1) else (concat (d ∷ "") rest.0, rest.1)

abbrev pub split : ℕ → String → List String
split c s = List.◌∷◌ (split_first c s).0 (split_first c s).1

-- `\s`, the white space that `trim` takes too
abbrev pub is_space : Char → Bool
is_space c =
    ((code c =ℕ 32) || (leb 9 (code c) && leb (code c) 13))
    || (((code c =ℕ 160) || (code c =ℕ 5760) || (leb 8192 (code c) && leb (code c) 8202))
        || ((code c =ℕ 8232)
            || (code c =ℕ 8233)
            || (code c =ℕ 8239)
            || (code c =ℕ 8287)
            || (code c =ℕ 12288)
            || (code c =ℕ 65279)))

unfoldable pub trim_start : String → String
trim_start [] = ""
trim_start (c ∷ s) = if is_space c then trim_start s else c ∷ s

unfoldable pub trim_end : String → String
trim_end [] = ""
trim_end (c ∷ s) =
    let rest = trim_end s in if is_space c && rest == "" then "" else concat (c ∷ "") rest

-- `s.trim()`
abbrev pub trim : String → String
trim s = trim_end (trim_start s)

-- `s.slice(n)`
unfoldable pub drop_chars : ℕ → String → String
drop_chars zero s = s
drop_chars (suc n) [] = []
drop_chars (suc n) (c ∷ s) = drop_chars n s

-- the text before the first character `c` and the text after it, by `s.indexOf(c)` and `s.slice`
abbrev pub before_and_after : Char → Option (String × String) → Option (String × String)
before_and_after d none = none
before_and_after d (some (before, after)) = some (d ∷ before, after)

unfoldable pub split_at : ℕ → String → Option (String × String)
split_at c [] = none
split_at c (d ∷ s) =
    let rest = split_at c s in if code d =ℕ c then some ([], s) else before_and_after d rest

abbrev pub starts_with_space : String → Bool
starts_with_space [] = false
starts_with_space (c ∷ s) = is_space c

-- `s.split(/\s+/)`: the part before the first run of white space, and the parts after it
unfoldable pub split_runs : String → String × List String
split_runs [] = ("", List.[])
split_runs (c ∷ s) =
    let rest = split_runs s in
    if is_space c
    then (if starts_with_space s then rest else ("", List.◌∷◌ rest.0 rest.1))
    else (concat (c ∷ "") rest.0, rest.1)

abbrev pub split_spaces : String → List String
split_spaces s = List.◌∷◌ (split_runs s).0 (split_runs s).1

abbrev pub starts_with_lf : String → Bool
starts_with_lf [] = false
starts_with_lf (c ∷ s) = code c =ℕ 10

-- `s.split(/\r?\n/)`: the first line, and the lines after it
unfoldable pub lines_of : String → String × List String
lines_of [] = ("", List.[])
lines_of (c ∷ s) =
    let rest = lines_of s in
    if code c =ℕ 10
    then ("", List.◌∷◌ rest.0 rest.1)
    else if (code c =ℕ 13) && starts_with_lf s
    then rest
    else (concat (c ∷ "") rest.0, rest.1)

abbrev pub split_lines : String → List String
split_lines s = List.◌∷◌ (lines_of s).0 (lines_of s).1

-- the longest match of `[^\s;]*` at the start of a text
unfoldable pub until_break : String → String
until_break [] = ""
until_break (c ∷ s) =
    let rest = until_break s in if is_space c || (code c =ℕ b';') then "" else concat (c ∷ "") rest

-- the first match of a pattern in a text, by its matches at each position
abbrev pub or_later : Option String → Option String → Option String
or_later none later = later
or_later (some match_here) later = some match_here

unfoldable pub find_text : (String → Option String) → String → Option String
find_text matches [] = none
find_text matches (c ∷ s) = or_later (matches (c ∷ s)) (find_text matches s)
