-- ===== src/Prelude/Paging.antt =====
-- LIMIT, OFFSET and the last element of a list.
use Prim.Native.Nat.{ℕ, zero, suc, ◌+◌, ◌-◌, ◌≤◌, ◌<◌}
use mathlib.Core.Path.{◌≡◌, refl, ap}
use mathlib.Core.Option.{Option, none, some}
use mathlib.Core.List.{List, [], ◌∷◌, ◌++◌}
use native.Mathlib.Omega.{arith}
use xapi_lrs.Prelude.Lists.{length}

module _ {ℓ} {A : Type ℓ} where
  abbrev pub take : ℕ → List A → List A
  take zero xs = []
  take (suc n) [] = []
  take (suc n) (x ∷ xs) = x ∷ take n xs

  abbrev pub drop : ℕ → List A → List A
  drop zero xs = xs
  drop (suc n) [] = []
  drop (suc n) (x ∷ xs) = drop n xs

  -- `rows.pop()`
  abbrev pub pop : List A → List A
  pop [] = []
  pop (x ∷ []) = []
  pop (x ∷ y ∷ ys) = x ∷ pop (y ∷ ys)

  -- `rows.at(-1)`
  abbrev pub last : List A → Option A
  last [] = none
  last (x ∷ []) = some x
  last (x ∷ y ∷ ys) = last (y ∷ ys)

  pub take-append-drop : (n : ℕ) (xs : List A) → take n xs ++ drop n xs ≡ xs
  take-append-drop zero xs = refl
  take-append-drop (suc n) [] = refl
  take-append-drop (suc n) (x ∷ xs) = ap (λ ys. x ∷ ys) (take-append-drop n xs)

  pub length-take-le : (n : ℕ) (xs : List A) → length (take n xs) ≤ n
  length-take-le zero xs = omega arith
  length-take-le (suc n) [] = omega arith
  length-take-le (suc n) (x ∷ xs) = omega (arith, length-take-le n xs)

  pub length-drop : (n : ℕ) (xs : List A) → n ≤ length xs → length (drop n xs) + n ≡ length xs
  length-drop zero xs h = omega arith
  length-drop (suc n) [] h = absurd (omega arith)
  length-drop (suc n) (x ∷ xs) h = omega (arith, length-drop n xs)

  pub length-pop : (xs : List A) → length (pop xs) ≡ length xs - 1
  length-pop [] = refl
  length-pop (x ∷ []) = omega arith
  length-pop (x ∷ y ∷ ys) = omega (arith, length-pop (y ∷ ys))

  -- a query for one row more than the page
  pub pop-take :
      (n : ℕ) (xs : List A) → n < length (take (suc n) xs) → pop (take (suc n) xs) ≡ take n xs
  pop-take zero [] h = refl
  pop-take zero (x ∷ xs) h = refl
  pop-take (suc n) [] h = refl
  pop-take (suc n) (x ∷ []) h = absurd (omega arith)
  pop-take (suc n) (x ∷ y ∷ ys) h = ap (λ zs. x ∷ zs) (pop-take n (y ∷ ys) (omega arith))

  pub lt-length-of-take : (n : ℕ) (xs : List A) → n < length (take (suc n) xs) → n < length xs
  lt-length-of-take zero [] h = h
  lt-length-of-take zero (x ∷ xs) h = omega arith
  lt-length-of-take (suc n) [] h = absurd (omega arith)
  lt-length-of-take (suc n) (x ∷ xs) h = omega (arith, lt-length-of-take n xs)

  pub take_all : (n : ℕ) (xs : List A) → length (take (suc n) xs) ≤ n → take (suc n) xs ≡ xs
  take_all n [] h = refl
  take_all zero (x ∷ xs) h = absurd (omega arith)
  take_all (suc n) (x ∷ xs) h = ap (λ ys. x ∷ ys) (take_all n xs (omega arith))

  pub last-take :
      (n : ℕ) (xs : List A) → suc n ≤ length xs → (x : A) × (last (take (suc n) xs) ≡ some x)
  last-take n [] h = absurd (omega arith)
  last-take zero (x ∷ xs) h = (x, refl)
  last-take (suc n) (x ∷ []) h = absurd (omega arith)
  last-take (suc n) (x ∷ y ∷ ys) h = last-take n (y ∷ ys) (omega arith)
