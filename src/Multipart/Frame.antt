-- ===== src/Multipart/Frame.antt =====
-- The parts between the boundaries of a multipart body (xapi/multipart.ts). A Buffer is the list of
-- its bytes here.
pub mod Laws
use xapi_lrs.Prelude.{
  ℕ, zero, suc, ◌+◌, ◌-◌, Bool, true, false, ◌&&◌, List, [], ◌∷◌, ◌=ℕ◌, length, take, drop,
  if◌then◌else◌,
}

abbrev pub Bytes : Type 0
Bytes = List ℕ

unfoldable pub has_prefix : Bytes → Bytes → Bool
has_prefix [] body = true
has_prefix (c ∷ cs) [] = false
has_prefix (c ∷ cs) (b ∷ body) = (c =ℕ b) && has_prefix cs body

-- `body.subarray(start, end)`, empty where the end is not after the start
abbrev pub subarray : ℕ → ℕ → Bytes → Bytes
subarray start end body = take (end - start) (drop start body)

-- the positions that the repeated `body.indexOf(delimiter, searchFrom)` finds, the search going on
-- after each: the scan is at a position, with so many bytes to pass over. A delimiter is not empty.
unfoldable pub positions : Bytes → (at skipped : ℕ) → Bytes → List ℕ
positions delimiter at skipped [] = []
positions delimiter at (suc skipped) (b ∷ body) = positions delimiter (suc at) skipped body
positions delimiter at zero (b ∷ body) =
    let here = positions delimiter (suc at) (length delimiter - 1) body in
    let later = positions delimiter (suc at) zero body in
    if has_prefix delimiter (b ∷ body) then at ∷ here else later

-- the bytes between one position's delimiter and the next position
unfoldable pub parts_at : Bytes → ℕ → List ℕ → List Bytes
parts_at body width (start ∷ next ∷ rest) =
    subarray (start + width) next body ∷ parts_at body width (next ∷ rest)
parts_at body width _ = []
