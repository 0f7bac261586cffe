-- ===== src/Multipart/Frame/Laws.antt =====
-- The parts of a body that is framed by a delimiter are found again.
use mathlib.Core.List.{append_assoc}
use xapi_lrs.Prelude.{
  ℕ, suc, ◌+◌, ◌-◌, ◌≤◌, ◌≡◌, refl, sym, ap, ◌∙◌, Bool, true, false, ◌&&◌, List, [], ◌∷◌, ◌++◌,
  ◌=ℕ◌, arith, length, length-append, take, drop, if◌then◌else◌,
}
use xapi_lrs.Multipart.Frame.{Bytes, has_prefix, subarray, positions, parts_at}

-- the delimiter, once it is put behind the part, is not met before the part's end
abbrev pub is_clean : Bytes → Bytes → Bool
is_clean delimiter [] = true
is_clean delimiter (b ∷ part) =
    if has_prefix delimiter ((b ∷ part) ++ delimiter) then false else is_clean delimiter part

abbrev pub all_clean : Bytes → List Bytes → Bool
all_clean delimiter [] = true
all_clean delimiter (part ∷ rest) = is_clean delimiter part && all_clean delimiter rest

-- no delimiter is met in the bytes
abbrev pub is_free : Bytes → Bytes → Bool
is_free delimiter [] = true
is_free delimiter (b ∷ rest) =
    if has_prefix delimiter (b ∷ rest) then false else is_free delimiter rest

-- the parts, the delimiter between them, and what comes after the last delimiter
abbrev pub between : Bytes → List Bytes → Bytes → Bytes
between delimiter [] last = last
between delimiter (part ∷ rest) last = part ++ (delimiter ++ between delimiter rest last)

-- the parts in their frame, the delimiter in front
abbrev pub framed : Bytes → List Bytes → Bytes → Bytes
framed delimiter parts last = delimiter ++ between delimiter parts last

pub has_prefix-append :
    (d xs ys : Bytes) → length d ≤ length xs → has_prefix d (xs ++ ys) ≡ has_prefix d xs
unfolding has_prefix
has_prefix-append [] xs ys h = refl
has_prefix-append (c ∷ d) [] ys h = ground arith
has_prefix-append (c ∷ d) (x ∷ xs) ys h =
    ap (λ b. (c =ℕ x) && b) (has_prefix-append d xs ys (omega arith))

pub has_prefix_refl : (d ys : Bytes) → has_prefix d (d ++ ys) ≡ true
unfolding has_prefix
has_prefix_refl [] ys = refl
has_prefix_refl (c ∷ d) ys = ground (arith, has_prefix_refl d ys)

pub has_prefix_self : (d : Bytes) → has_prefix d d ≡ true
unfolding has_prefix
has_prefix_self [] = refl
has_prefix_self (c ∷ d) = ground (arith, has_prefix_self d)

positions-skip :
    (d : Bytes) (at : ℕ) (xs ys : Bytes)
    → positions d at (length xs) (xs ++ ys) ≡ positions d (at + length xs) 0 ys
unfolding positions
positions-skip d at [] ys = ap (λ n. positions d n 0 ys) (omega arith)
positions-skip d at (x ∷ xs) ys =
    positions-skip d (suc at) xs ys ∙ ap (λ n. positions d n 0 ys) (omega arith)

clean_head :
    (d : Bytes) (b : ℕ) (part ys : Bytes)
    → is_clean d (b ∷ part) ≡ true
    → (has_prefix d ((b ∷ part) ++ d ++ ys) ≡ false) × (is_clean d part ≡ true)
clean_head d b part ys h = (
  has_prefix-append d ((b ∷ part) ++ d) ys (rw (length-append part d) (omega arith)) ∙ ground arith,
  ground arith,
)

positions-clean :
    (d : Bytes) (at : ℕ) (part ys : Bytes)
    → is_clean d part ≡ true
    → positions d at 0 (part ++ d ++ ys) ≡ positions d (at + length part) 0 (d ++ ys)
unfolding positions
positions-clean d at [] ys h = ap (λ n. positions d n 0 (d ++ ys)) (omega arith)
positions-clean d at (b ∷ part) ys h =
    let (clear, rest) = clean_head d b part ys h in
    rw clear
      (positions-clean d (suc at) part ys rest ∙ ap (λ n. positions d n 0 (d ++ ys)) (omega arith))

-- the positions of the delimiters after one at a position
abbrev pub next_starts : ℕ → ℕ → List Bytes → List ℕ
next_starts width at [] = []
next_starts width at (part ∷ rest) =
    (at + width + length part) ∷ next_starts width (at + width + length part) rest

positions-here :
    (c : ℕ) (d : Bytes) (at : ℕ) (ys : Bytes)
    → positions (c ∷ d) at 0 ((c ∷ d) ++ ys) ≡ at ∷ positions (c ∷ d) (at + suc (length d)) 0 ys
unfolding positions
positions-here c d at ys = rw (has_prefix_refl (c ∷ d) ys) (
    ap (λ ps. at ∷ ps)
      (ap (λ n. positions (c ∷ d) (suc at) n (d ++ ys)) (omega arith)
        ∙ positions-skip (c ∷ d) (suc at) d ys
        ∙ ap (λ n. positions (c ∷ d) n 0 ys) (omega arith)))

positions-free :
    (d : Bytes) (at : ℕ) (last : Bytes) → is_free d last ≡ true → positions d at 0 last ≡ []
unfolding positions
positions-free d at [] h = refl
positions-free d at (b ∷ last) h = ground (arith, positions-free d (suc at) last)

pub positions-framed :
    (c : ℕ) (d : Bytes) (at : ℕ) (parts : List Bytes) (last : Bytes)
    → all_clean (c ∷ d) parts ≡ true
    → is_free (c ∷ d) last ≡ true
    → positions (c ∷ d) at 0 (framed (c ∷ d) parts last)
      ≡ at ∷ next_starts (suc (length d)) at parts
positions-framed c d at [] last h g =
    positions-here c d at last ∙ ap (λ ps. at ∷ ps) (positions-free (c ∷ d) _ last g)
positions-framed c d at (part ∷ rest) last h g =
    positions-here c d at _
    ∙ ap (λ ps. at ∷ ps)
        (ap (positions (c ∷ d) (at + suc (length d)) 0)
            (sym (append_assoc part (c ∷ d) (between (c ∷ d) rest last)))
          ∙ positions-clean (c ∷ d) (at + suc (length d)) part (between (c ∷ d) rest last)
              (ground arith)
          ∙ positions-framed c d (at + suc (length d) + length part) rest last (ground arith) g)

pub drop-append : (xs ys : Bytes) → drop (length xs) (xs ++ ys) ≡ ys
drop-append [] ys = refl
drop-append (x ∷ xs) ys = drop-append xs ys

pub take-append : (xs ys : Bytes) → take (length xs) (xs ++ ys) ≡ xs
take-append [] ys = refl
take-append (x ∷ xs) ys = ap (λ zs. x ∷ zs) (take-append xs ys)

pub subarray-middle :
    (pre part rest : Bytes) (start next : ℕ)
    → start ≡ length pre
    → next ≡ length pre + length part
    → subarray start next (pre ++ (part ++ rest)) ≡ part
subarray-middle pre part rest start next h g =
    ap (λ n. take (next - n) (drop n (pre ++ (part ++ rest)))) h
    ∙ ap (λ n. take n (drop (length pre) (pre ++ (part ++ rest)))) (omega (arith, g))
    ∙ ap (take (length part)) (drop-append pre (part ++ rest))
    ∙ take-append part rest

parts_at-framed :
    (d pre : Bytes) (parts : List Bytes) (last : Bytes)
    → parts_at
        (pre ++ framed d parts last)
        (length d)
        (length pre ∷ next_starts (length d) (length pre) parts)
      ≡ parts
unfolding parts_at
parts_at-framed d pre [] last = refl
parts_at-framed d pre (part ∷ rest) last =
    ap (λ xs. xs ∷ from (pre ++ framed d (part ∷ rest) last) next) first_part
    ∙ ap (λ xs. part ∷ xs)
        (ap (λ body. from body next) (regroup ∙ sym (append_assoc (pre ++ d) part after))
          ∙ ap (from (((pre ++ d) ++ part) ++ after)) next_length
          ∙ parts_at-framed d ((pre ++ d) ++ part) rest last)
  where
    after : Bytes
    after = framed d rest last

    next : ℕ
    next = length pre + length d + length part

    from : Bytes → ℕ → List Bytes
    from body n = parts_at body (length d) (n ∷ next_starts (length d) n rest)

    regroup : pre ++ (d ++ (part ++ after)) ≡ (pre ++ d) ++ (part ++ after)
    regroup = sym (append_assoc pre d (part ++ after))

    next_length : next ≡ length ((pre ++ d) ++ part)
    next_length = rw (length-append (pre ++ d) part, length-append pre d) refl

    first_part : subarray (length pre + length d) next (pre ++ framed d (part ∷ rest) last) ≡ part
    first_part =
        ap (subarray (length pre + length d) next) regroup
        ∙ subarray-middle (pre ++ d) part after _ _ (sym (length-append pre d))
            (ap (λ n. n + length part) (sym (length-append pre d)))

-- The parts of a body in its frame are found as they were sent, byte for byte and in order, where
-- the delimiter is met neither in a part nor after the last delimiter.
pub raw_parts-framed :
    (c : ℕ) (d : Bytes) (parts : List Bytes) (last : Bytes)
    → all_clean (c ∷ d) parts ≡ true
    → is_free (c ∷ d) last ≡ true
    → parts_at
        (framed (c ∷ d) parts last)
        (length (c ∷ d))
        (positions (c ∷ d) 0 0 (framed (c ∷ d) parts last))
      ≡ parts
raw_parts-framed c d parts last h g =
    ap (parts_at (framed (c ∷ d) parts last) (length (c ∷ d)))
      (positions-framed c d 0 parts last h g)
    ∙ parts_at-framed (c ∷ d) [] parts last
