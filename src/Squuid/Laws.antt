-- ===== src/Squuid/Laws.antt =====
-- The times of row identifiers.
use text.Mathlib.TextLemmas.{append_assoc, append-nil}
use xapi_lrs.Prelude.{
  ℕ, suc, ◌+◌, ◌-◌, ◌<◌, ◌^◌, String, ◌≡◌, sym, ap, subst, ◌∙◌, some, arith, concat, drop_chars,
  count_chars, drop_chars-concat,
}
use xapi_lrs.Platform.{since_epoch}
use xapi_lrs.Squuid.{
  squuid, squuid_min, squuid_timestamp, take_chars, slice, time_part, pad_start, to_hex, parse_hex,
  zeros,
}
use xapi_lrs.Squuid.Digits.{
  IsDigits, power, hex_from-HasDigits, padded-IsDigits, parse_hex-IsDigits, take_chars-concat,
  cut_chars, count_chars-concat,
}

count_dash : (a : String) → count_chars a ≡ 8 → count_chars (concat a "-") ≡ 9
unfolding count_chars
count_dash a h = omega (arith, count_chars-concat a "-", h)

-- the first eight characters after `a`, the four after `-`
slices :
    (a b rest : String)
    → count_chars a ≡ 8
    → count_chars b ≡ 4
    → let id = concat (concat a (concat "-" b)) rest in
      concat (slice 0 8 id) (slice 9 13 id) ≡ concat a b
unfolding count_chars drop_chars
slices a b rest h g =
    let id = concat (concat a (concat "-" b)) rest in
    let front : id ≡ concat a (concat (concat "-" b) rest) = append_assoc a (concat "-" b) rest in
    let back : id ≡ concat (concat a "-") (concat b rest) =
      front ∙ ap (concat a) (append_assoc "-" b rest) ∙ sym (append_assoc a "-" (concat b rest)) in
    let eight : take_chars 8 id ≡ a =
      ap (take_chars 8) front
      ∙ ap (λ n. take_chars n (concat a (concat (concat "-" b) rest))) (sym h)
      ∙ take_chars-concat a _ in
    let nine : drop_chars 9 id ≡ concat b rest =
      ap (drop_chars 9) back
      ∙ ap (λ n. drop_chars n (concat (concat a "-") (concat b rest))) (sym (count_dash a h))
      ∙ drop_chars-concat (concat a "-") (concat b rest) in
    let four : take_chars 4 (drop_chars 9 id) ≡ b =
      ap (take_chars 4) nine
      ∙ ap (λ n. take_chars n (concat b rest)) (sym g)
      ∙ take_chars-concat b rest in
    λ i. concat (eight i) (four i)

taken_all : (s : String) → count_chars s ≡ 4 → take_chars 4 s ≡ s
taken_all s h =
    ap (λ n. take_chars n s) (sym h)
    ∙ ap (take_chars (count_chars s)) (sym (append-nil s))
    ∙ take_chars-concat s ""

-- the digits that an identifier begins by are read back
read_back :
    (n : ℕ) (h rest : String)
    → IsDigits 12 n h
    → squuid_timestamp (concat (time_part h) rest) ≡ some n
unfolding squuid_timestamp drop_chars
read_back n h rest ds =
    let (whole, taken, left) = cut_chars 8 h (omega (arith, ds.counted)) in
    let (all, four, end) = cut_chars 4 (drop_chars 8 h) (omega (arith, ds.counted, left)) in
    let b = take_chars 4 (drop_chars 8 h) in
    ap parse_hex (slices (take_chars 8 h) b rest taken four)
    ∙ ap (λ t. parse_hex (concat (take_chars 8 h) t))
        (taken_all (drop_chars 8 h) (omega (arith, ds.counted, left)))
    ∙ ap parse_hex whole
    ∙ parse_hex-IsDigits 11 n h ds

padded : (now : ℕ) → now < 2 ^ 48 → IsDigits 12 now (pad_start (to_hex now))
unfolding power
padded now small =
    let (count, some_digit, few, ds) =
      hex_from-HasDigits (suc now) 11 now (omega arith) (omega (arith, small)) in
    let e : (12 - count_chars (to_hex now)) ≡ 12 - count = ap (λ n. 12 - n) ds.counted in
    let twelve : (12 - count) + count ≡ 12 = omega (arith, few) in
    subst (λ m. IsDigits 12 now (concat (zeros m) (to_hex now))) (sym e)
      (subst (λ m. IsDigits m now (concat (zeros (12 - count)) (to_hex now))) twelve
        (padded-IsDigits (12 - count) count now (to_hex now) ds))

-- Up to the year 10889, the time of an identifier is read back from its text, whatever the random
-- UUID is, and so is the time of the bound of its millisecond.
pub squuid_timestamp-squuid :
    (now : ℕ) (base : String)
    → now < 2 ^ 48
    → (squuid_timestamp (squuid now base) ≡ some now)
      × (squuid_timestamp (squuid_min (since_epoch now)) ≡ some now)
unfolding squuid squuid_min
squuid_timestamp-squuid now base small =
    let ds = padded now small in
    (
      read_back now _ (concat "-" (drop_chars 14 base)) ds,
      read_back now _ "-0000-0000-000000000000" ds,
    )
