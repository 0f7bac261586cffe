-- ===== src/Squuid/Digits.antt =====
-- Hexadecimal digits as texts, and texts cut at a position.
use Prim.Native.String.{[], ◌∷◌}
use text.Mathlib.TextLemmas.{cons-append, nil-append}
use xapi_lrs.Prelude.{
  ℕ, zero, suc, ◌+◌, ◌-◌, ◌*◌, ◌/◌, ◌%◌, ◌≤◌, ◌<◌, String, ◌≡◌, refl, ap, ◌∙◌, Bool, true, false,
  ◌&&◌, arith, ltb, is_hex, concat, drop_chars, count_chars, some, Bool-cases, inl, inr,
}
use xapi_lrs.Squuid.{take_chars, hex_digit, hex_from, zeros, read_hex, parse_hex}

unfoldable pub all_hex : String → Bool
all_hex [] = true
all_hex (c ∷ s) = is_hex c && all_hex s

-- a text of digits that is read as a number
pub record IsDigits (count n : ℕ) (s : String) : Type 0 where
  pub counted : count_chars s ≡ count
  pub hex : all_hex s ≡ true
  pub reads : read_hex 0 s ≡ n

pub count_chars-concat : (s t : String) → count_chars (concat s t) ≡ count_chars s + count_chars t
unfolding count_chars
count_chars-concat [] t = omega (arith, ap count_chars (nil-append t))
count_chars-concat (c ∷ s) t =
    omega (arith, ap count_chars (cons-append c s t), count_chars-concat s t)

all_hex-concat : (s t : String) → all_hex s ≡ true → all_hex t ≡ true → all_hex (concat s t) ≡ true
unfolding all_hex
all_hex-concat [] t h g = ap all_hex (nil-append t) ∙ g
all_hex-concat (c ∷ s) t h g =
    ap all_hex (cons-append c s t) ∙ ground (arith, all_hex-concat s t, h, g)

read_hex-concat :
    (s t : String) (acc : ℕ)
    → all_hex s ≡ true
    → read_hex acc (concat s t) ≡ read_hex (read_hex acc s) t
unfolding all_hex read_hex
read_hex-concat [] t acc h = ap (read_hex acc) (nil-append t)
read_hex-concat (c ∷ s) t acc h = elim (Bool-cases (is_hex c)) [
  | inl digit ↦
      ap (read_hex acc) (cons-append c s t) ∙ rw digit (read_hex-concat s t _ (rw digit at h))
  | inr other ↦ absurd (ground (arith, other, h))
]

-- one digit
record IsOneDigit (n : ℕ) : Type 0 where
  one : count_chars (hex_digit n) ≡ 1
  hex : all_hex (hex_digit n) ≡ true
  reads : (acc : ℕ) → read_hex acc (hex_digit n) ≡ acc * 16 + n

hex_digit-IsOneDigit : (n : ℕ) → n < 16 → IsOneDigit n
unfolding count_chars all_hex read_hex hex_digit take_chars drop_chars
hex_digit-IsOneDigit zero h = record { one = refl; hex = refl; reads = λ acc. refl }
hex_digit-IsOneDigit (suc zero) h = record { one = refl; hex = refl; reads = λ acc. refl }
hex_digit-IsOneDigit (suc (suc zero)) h = record { one = refl; hex = refl; reads = λ acc. refl }
hex_digit-IsOneDigit (suc (suc (suc zero))) h = record {
  one = refl;
  hex = refl;
  reads = λ acc. refl;
}
hex_digit-IsOneDigit (suc (suc (suc (suc zero)))) h = record {
  one = refl;
  hex = refl;
  reads = λ acc. refl;
}
hex_digit-IsOneDigit (suc (suc (suc (suc (suc zero))))) h = record {
  one = refl;
  hex = refl;
  reads = λ acc. refl;
}
hex_digit-IsOneDigit (suc (suc (suc (suc (suc (suc zero)))))) h = record {
  one = refl;
  hex = refl;
  reads = λ acc. refl;
}
hex_digit-IsOneDigit (suc (suc (suc (suc (suc (suc (suc zero))))))) h = record {
  one = refl;
  hex = refl;
  reads = λ acc. refl;
}
hex_digit-IsOneDigit (suc (suc (suc (suc (suc (suc (suc (suc zero)))))))) h = record {
  one = refl;
  hex = refl;
  reads = λ acc. refl;
}
hex_digit-IsOneDigit (suc (suc (suc (suc (suc (suc (suc (suc (suc zero))))))))) h = record {
  one = refl;
  hex = refl;
  reads = λ acc. refl;
}
hex_digit-IsOneDigit (suc (suc (suc (suc (suc (suc (suc (suc (suc (suc zero)))))))))) h = record {
  one = refl;
  hex = refl;
  reads = λ acc. refl;
}
hex_digit-IsOneDigit (suc (suc (suc (suc (suc (suc (suc (suc (suc (suc (suc zero))))))))))) h =
    record { one = refl; hex = refl; reads = λ acc. refl }
hex_digit-IsOneDigit (suc (suc (suc (suc (suc (suc (suc (suc (suc (suc (suc (suc zero))))))))))))
      h =
    record { one = refl; hex = refl; reads = λ acc. refl }
hex_digit-IsOneDigit
      (suc (suc (suc (suc (suc (suc (suc (suc (suc (suc (suc (suc (suc zero))))))))))))) h =
    record { one = refl; hex = refl; reads = λ acc. refl }
hex_digit-IsOneDigit
      (suc (suc (suc (suc (suc (suc (suc (suc (suc (suc (suc (suc (suc (suc zero)))))))))))))) h =
    record { one = refl; hex = refl; reads = λ acc. refl }
hex_digit-IsOneDigit
      (suc (suc (suc (suc (suc (suc (suc (suc (suc (suc (suc (suc (suc (suc (suc zero)))))))))))))))
      h =
    record { one = refl; hex = refl; reads = λ acc. refl }
hex_digit-IsOneDigit
      (suc
        (suc (suc (suc (suc (suc (suc (suc (suc (suc (suc (suc (suc (suc (suc (suc n))))))))))))))))
      h =
    absurd (omega (arith, h))

-- sixteen to a power, by recursion
unfoldable pub power : ℕ → ℕ
power zero = 1
power (suc k) = 16 * power k

-- at most so many digits, and at least one
abbrev pub HasDigits : (most n : ℕ) → String → Type 0
HasDigits most n s = (count : ℕ) × (1 ≤ count) × (count ≤ most) × IsDigits count n s

one_digit : (most fuel n : ℕ) → ltb n 16 ≡ true → HasDigits (suc most) n (hex_from (suc fuel) n)
unfolding hex_from
one_digit most fuel n small =
    let d = hex_digit-IsOneDigit n (ground (arith, small)) in
    (
      1,
      omega arith,
      omega arith,
      rw small (record { counted = d.one; hex = d.hex; reads = omega (arith, d.reads 0) }),
    )

more_digits :
    (most fuel n : ℕ)
    → ltb n 16 ≡ false
    → HasDigits most (n / 16) (hex_from fuel (n / 16))
    → HasDigits (suc most) n (hex_from (suc fuel) n)
unfolding hex_from
more_digits most fuel n large (count, some_digit, few, ds) =
    let d = hex_digit-IsOneDigit (n % 16) (omega arith) in
    let more = hex_from fuel (n / 16) in
    (
      suc count,
      omega arith,
      omega (arith, few),
      rw large (record {
        counted = omega (arith, count_chars-concat more (hex_digit (n % 16)), ds.counted, d.one);
        hex = all_hex-concat more (hex_digit (n % 16)) ds.hex d.hex;
        reads =
            read_hex-concat more (hex_digit (n % 16)) 0 ds.hex
            ∙ d.reads (read_hex 0 more)
            ∙ omega (arith, ds.reads);
      }),
    )

-- a number below a power of sixteen has as many digits as the exponent at most
pub hex_from-HasDigits :
    (fuel most n : ℕ) → n < fuel → n < power (suc most) → HasDigits (suc most) n (hex_from fuel n)
unfolding power
hex_from-HasDigits zero most n h g = absurd (omega (arith, h))
hex_from-HasDigits (suc fuel) zero n h g = one_digit zero fuel n (ground (arith, g))
hex_from-HasDigits (suc fuel) (suc most) n h g = elim (Bool-cases (ltb n 16)) [
  | inl small ↦ one_digit (suc most) fuel n small
  | inr large ↦
      more_digits (suc most) fuel n large
        (hex_from-HasDigits fuel most (n / 16) (ground (arith, h, large)) (omega (arith, g)))
]

zeros-IsDigits : (n : ℕ) → IsDigits n 0 (zeros n)
unfolding zeros count_chars all_hex read_hex
zeros-IsDigits zero = record { counted = refl; hex = refl; reads = refl }
zeros-IsDigits (suc n) =
    let ds = zeros-IsDigits n in
    record {
      counted = omega (arith, count_chars-concat "0" (zeros n), ds.counted);
      hex = all_hex-concat "0" (zeros n) refl ds.hex;
      reads = read_hex-concat "0" (zeros n) 0 refl ∙ ds.reads;
    }

-- a text of digits after zeros
pub padded-IsDigits :
    (m count n : ℕ) (s : String) → IsDigits count n s → IsDigits (m + count) n (concat (zeros m) s)
padded-IsDigits m count n s ds =
    let os = zeros-IsDigits m in
    record {
      counted = omega (arith, count_chars-concat (zeros m) s, os.counted, ds.counted);
      hex = all_hex-concat (zeros m) s os.hex ds.hex;
      reads = read_hex-concat (zeros m) s 0 os.hex ∙ ap (λ acc. read_hex acc s) os.reads ∙ ds.reads;
    }

pub parse_hex-IsDigits :
    (count n : ℕ) (s : String) → IsDigits (suc count) n s → parse_hex s ≡ some n
unfolding count_chars all_hex
parse_hex-IsDigits count n [] ds = absurd (omega (arith, ds.counted))
parse_hex-IsDigits count n (c ∷ s) ds = rw (digit (ds.hex)) (ap some ds.reads)
  where
    digit : (is_hex c && all_hex s) ≡ true → is_hex c ≡ true
    digit h = ground (arith, h)

pub take_chars-concat : (s t : String) → take_chars (count_chars s) (concat s t) ≡ s
unfolding take_chars count_chars
take_chars-concat [] t = refl
take_chars-concat (c ∷ s) t =
    ap (take_chars (suc (count_chars s))) (cons-append c s t)
    ∙ ap (λ x. c ∷ x) (take_chars-concat s t)

-- a text cut at a position
pub cut_chars :
    (n : ℕ) (s : String)
    → n ≤ count_chars s
    → (concat (take_chars n s) (drop_chars n s) ≡ s)
      × (count_chars (take_chars n s) ≡ n)
      × (count_chars (drop_chars n s) ≡ count_chars s - n)
unfolding take_chars drop_chars count_chars
cut_chars zero s h = (nil-append s, refl, omega arith)
cut_chars (suc n) [] h = absurd (omega (arith, h))
cut_chars (suc n) (c ∷ s) h =
    let (whole, taken, left) = cut_chars n s (omega (arith, h)) in
    (
      cons-append c (take_chars n s) (drop_chars n s) ∙ ap (λ x. c ∷ x) whole,
      ap suc taken,
      omega (arith, left),
    )
