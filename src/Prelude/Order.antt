-- ===== src/Prelude/Order.antt =====
-- ORDER BY a numeric key, and strictly ordered lists.
use Prim.Native.Nat.{ℕ, zero, suc, ◌≤◌}
use mathlib.Core.Path.{◌≡◌, refl, sym, ap, ◌∙◌}
use mathlib.Core.Logic.{inl, inr}
use mathlib.Core.Bool.{Bool, true, false, ◌&&◌}
use mathlib.Core.Option.{some-injective, some}
use mathlib.Core.List.{List, [], ◌∷◌, ◌++◌}
use native.Mathlib.Omega.{arith}
use xapi_lrs.Prelude.Tests.{if◌then◌else◌, ltb, ◌=ℕ◌, Bool-cases}
use xapi_lrs.Prelude.Lists.{length, keep, All}
use xapi_lrs.Prelude.Paging.{take, drop, last}
use xapi_lrs.Prelude.Everywhere.{All-keep, All-right, All-last, All-map}

-- whether one key stands before another, in ascending or descending order
abbrev pub before : Bool → ℕ → ℕ → Bool
before true a b = ltb a b
before false a b = ltb b a

before_trans :
    (asc : Bool) (a b c : ℕ) → before asc a b ≡ true → before asc b c ≡ true → before asc a c ≡ true
before_trans true a b c h g = ground arith
before_trans false a b c h g = ground arith

before_total :
    (asc : Bool) (a b : ℕ) → before asc a b ≡ false → (a =ℕ b) ≡ false → before asc b a ≡ true
before_total true a b h g = ground arith
before_total false a b h g = ground arith

before_skip :
    (asc : Bool) (a b c : ℕ)
    → before asc a b ≡ false
    → before asc a c ≡ true
    → before asc c b ≡ false
before_skip true a b c h g = ground arith
before_skip false a b c h g = ground arith

before_irrefl : (asc : Bool) (a : ℕ) → before asc a a ≡ false
before_irrefl true a = ground arith
before_irrefl false a = ground arith

before_asymm : (asc : Bool) (a b : ℕ) → before asc a b ≡ true → before asc b a ≡ false
before_asymm true a b h = ground arith
before_asymm false a b h = ground arith

module _ {ℓ} {A : Type ℓ} (key : A → ℕ) (asc : Bool) where
  abbrev pub beyond : ℕ → A → Bool
  beyond k x = before asc k (key x)

  unfoldable pub insert_by : A → List A → List A
  insert_by x [] = x ∷ []
  insert_by x (y ∷ ys) = if beyond (key y) x then y ∷ insert_by x ys else x ∷ y ∷ ys

  -- ORDER BY
  unfoldable pub sort_by : List A → List A
  sort_by [] = []
  sort_by (x ∷ xs) = insert_by x (sort_by xs)

  -- each element stands before all that follow
  abbrev pub IsStrict : List A → Type 0
  IsStrict [] = Unit
  IsStrict (x ∷ xs) = All (λ y. beyond (key x) y ≡ true) xs × IsStrict xs

-- no two elements have one key
abbrev pub HasKeys {ℓ} : {A : Type ℓ} → (A → ℕ) → List A → Type 0
HasKeys key [] = Unit
HasKeys key (x ∷ xs) = All (λ y. (key x =ℕ key y) ≡ false) xs × HasKeys key xs

module _ {ℓ κ} {A : Type ℓ} (key : A → ℕ) (asc : Bool) (P : A → Type κ) where
  All-insert_by : (x : A) (ys : List A) → P x → All P ys → All P (insert_by key asc x ys)
  unfolding insert_by
  All-insert_by x [] p h = (p, tt)
  All-insert_by x (y ∷ ys) p (q, h) = elim (Bool-cases (beyond key asc (key y) x)) [
    | inl after ↦ rw after (q, All-insert_by x ys p h)
    | inr here ↦ rw here (p, (q, h))
  ]

  pub All-sort_by : (xs : List A) → All P xs → All P (sort_by key asc xs)
  unfolding sort_by
  All-sort_by [] h = tt
  All-sort_by (x ∷ xs) (p, h) = All-insert_by x (sort_by key asc xs) p (All-sort_by xs h)

module _ {ℓ} {A : Type ℓ} (key : A → ℕ) (asc : Bool) where
  insert_by-IsStrict :
      (x : A) (ys : List A)
      → All (λ y. (key x =ℕ key y) ≡ false) ys
      → IsStrict key asc ys
      → IsStrict key asc (insert_by key asc x ys)
  unfolding insert_by
  insert_by-IsStrict x [] n s = (tt, tt)
  insert_by-IsStrict x (y ∷ ys) (ne, n) (l, s) = elim (Bool-cases (beyond key asc (key y) x)) [
    | inl after ↦ rw after (
      All-insert_by key asc (λ z. beyond key asc (key y) z ≡ true) x ys after l,
      insert_by-IsStrict x ys n s,
    )
    | inr here ↦
        let stands : beyond key asc (key x) y ≡ true =
          before_total asc (key y) (key x) here (ground (arith)) in
        rw here (
          (
            stands,
            All-map (λ z. beyond key asc (key y) z ≡ true) (λ z. beyond key asc (key x) z ≡ true)
                (λ z h. before_trans asc (key x) (key y) (key z) stands h) ys l,
          ),
          (l, s),
        )
  ]

  pub sort_by-IsStrict : (xs : List A) → HasKeys key xs → IsStrict key asc (sort_by key asc xs)
  unfolding sort_by
  sort_by-IsStrict [] h = tt
  sort_by-IsStrict (x ∷ xs) (n, h) =
      insert_by-IsStrict x (sort_by key asc xs)
        (All-sort_by key asc (λ y. (key x =ℕ key y) ≡ false) xs n) (sort_by-IsStrict xs h)

  length-insert_by : (x : A) (ys : List A) → length (insert_by key asc x ys) ≡ suc (length ys)
  unfolding insert_by
  length-insert_by x [] = refl
  length-insert_by x (y ∷ ys) = ground (arith, length-insert_by x ys)

  pub length-sort_by : (xs : List A) → length (sort_by key asc xs) ≡ length xs
  unfolding sort_by
  length-sort_by [] = refl
  length-sort_by (x ∷ xs) =
      omega (arith, length-insert_by x (sort_by key asc xs), length-sort_by xs)

  insert_by_least :
      (x : A) (zs : List A)
      → All (λ z. beyond key asc (key z) x ≡ false) zs
      → insert_by key asc x zs ≡ x ∷ zs
  unfolding insert_by
  insert_by_least x [] h = refl
  insert_by_least x (z ∷ zs) (h, _) = rw h refl

  keep-insert_by :
      (q : A → Bool) (x : A) (ys : List A)
      → IsStrict key asc ys
      → keep q (insert_by key asc x ys)
        ≡ (if q x then insert_by key asc x (keep q ys) else keep q ys)
  unfolding insert_by
  keep-insert_by q x [] s = refl
  keep-insert_by q x (y ∷ ys) (l, s) = elim (Bool-cases (beyond key asc (key y) x)) [
    | inl after ↦ rw after (ground (arith, after, keep-insert_by q x ys s))
    | inr here ↦
        let least = insert_by_least x (keep q ys) (
          All-keep (λ z. beyond key asc (key z) x ≡ false) q ys
            (All-map (λ z. beyond key asc (key y) z ≡ true) (λ z. beyond key asc (key z) x ≡ false)
              (λ z h. before_skip asc (key y) (key x) (key z) here h) ys l)) in
        rw here (ground (arith, here, least))
  ]

  -- A filter and ORDER BY commute.
  pub keep-sort_by :
      (q : A → Bool) (xs : List A)
      → HasKeys key xs
      → keep q (sort_by key asc xs) ≡ sort_by key asc (keep q xs)
  unfolding sort_by
  keep-sort_by q [] h = refl
  keep-sort_by q (x ∷ xs) (n, h) =
      keep-insert_by q x (sort_by key asc xs) (sort_by-IsStrict xs h) ∙ elim (Bool-cases (q x)) [
        | inl kept ↦ rw kept (ap (insert_by key asc x) (keep-sort_by q xs h))
        | inr left ↦ rw left (keep-sort_by q xs h)
      ]

  keep_every : (q : A → Bool) (xs : List A) → All (λ x. q x ≡ true) xs → keep q xs ≡ xs
  keep_every q [] h = refl
  keep_every q (x ∷ xs) (p, h) = rw p (ap (λ ys. x ∷ ys) (keep_every q xs h))

  -- What stands beyond the last element of a page is what follows the page.
  pub keep-beyond :
      (n : ℕ) (xs : List A) (c : A)
      → IsStrict key asc xs
      → last (take n xs) ≡ some c
      → keep (beyond key asc (key c)) xs ≡ drop n xs
  keep-beyond zero xs c s e = cc
  keep-beyond (suc n) [] c s e = cc
  keep-beyond (suc zero) (x ∷ xs) c (l, s) e =
      let same : key c ≡ key x = ap key (sym (some-injective _ _ e)) in
      ap (λ k. keep (beyond key asc k) (x ∷ xs)) same
      ∙ rw (before_irrefl asc (key x)) (keep_every (beyond key asc (key x)) xs l)
  keep-beyond (suc (suc n)) (x ∷ []) c (l, s) e =
      let same : key c ≡ key x = ap key (sym (some-injective _ _ e)) in
      rw (same, before_irrefl asc (key x)) refl
  keep-beyond (suc (suc n)) (x ∷ y ∷ ys) c (l, s) e =
      rw
        (before_asymm asc (key x) (key c)
          (All-last (λ z. beyond key asc (key x) z ≡ true) (suc n) (y ∷ ys) c l e))
        (keep-beyond (suc n) (y ∷ ys) c s e)

  -- The same, where other elements stand before the page.
  pub keep-beyond-append :
      (before_page xs : List A) (n : ℕ) (c : A)
      → IsStrict key asc (before_page ++ xs)
      → last (take n xs) ≡ some c
      → keep (beyond key asc (key c)) (before_page ++ xs) ≡ drop n xs
  keep-beyond-append [] xs n c s e = keep-beyond n xs c s e
  keep-beyond-append (x ∷ rest) xs n c (l, s) e =
      let right = All-right (λ z. beyond key asc (key x) z ≡ true) rest xs l in
      rw
        (before_asymm asc (key x) (key c)
          (All-last (λ z. beyond key asc (key x) z ≡ true) n xs c right e))
        (keep-beyond-append rest xs n c s e)

module _ {ℓ} {A : Type ℓ} where
  pub keep-keep : (p q : A → Bool) (xs : List A) → keep (λ x. p x && q x) xs ≡ keep p (keep q xs)
  keep-keep p q [] = refl
  keep-keep p q (x ∷ xs) = ground (arith, keep-keep p q xs)

  pub keep_ext : (p q : A → Bool) → ((x : A) → p x ≡ q x) → (xs : List A) → keep p xs ≡ keep q xs
  keep_ext p q e [] = refl
  keep_ext p q e (x ∷ xs) = ground (arith, e x, keep_ext p q e xs)

  pub length-keep-le : (p : A → Bool) (xs : List A) → length (keep p xs) ≤ length xs
  length-keep-le p [] = omega arith
  length-keep-le p (x ∷ xs) = ground (arith, length-keep-le p xs)

module _ {ℓ} {A : Type ℓ} (key : A → ℕ) where
  pub keep-HasKeys : (q : A → Bool) (xs : List A) → HasKeys key xs → HasKeys key (keep q xs)
  keep-HasKeys q [] h = tt
  keep-HasKeys q (x ∷ xs) (n, h) = elim (Bool-cases (q x)) [
    | inl kept ↦ rw kept (All-keep (λ y. (key x =ℕ key y) ≡ false) q xs n, keep-HasKeys q xs h)
    | inr left ↦ rw left (keep-HasKeys q xs h)
  ]
