-- ===== src/Prelude/Everywhere.antt =====
-- What holds of every element of a list, and of the lists that are made of it.
use Prim.Native.Nat.{ℕ, zero, suc}
use mathlib.Core.Path.{◌≡◌, subst}
use mathlib.Core.Logic.{inl, inr}
use mathlib.Core.Bool.{Bool, true}
use mathlib.Core.Option.{some, some-injective}
use mathlib.Core.List.{List, [], ◌∷◌, ◌++◌}
use xapi_lrs.Prelude.Tests.{Bool-cases}
use xapi_lrs.Prelude.Lists.{keep, All}
use xapi_lrs.Prelude.Paging.{take, pop, last}

module _ {ℓ κ} {A : Type ℓ} (P : A → Type κ) where
  pub All-keep : (q : A → Bool) (xs : List A) → All P xs → All P (keep q xs)
  All-keep q [] h = tt
  All-keep q (x ∷ xs) (p, h) = elim (Bool-cases (q x)) [
    | inl kept ↦ rw kept (p, All-keep q xs h)
    | inr left ↦ rw left (All-keep q xs h)
  ]

  pub keep-All : (q : A → Bool) → ((x : A) → q x ≡ true → P x) → (xs : List A) → All P (keep q xs)
  keep-All q f [] = tt
  keep-All q f (x ∷ xs) = elim (Bool-cases (q x)) [
    | inl kept ↦ rw kept (f x kept, keep-All q f xs)
    | inr left ↦ rw left (keep-All q f xs)
  ]

  pub All-both {μ} : (Q : A → Type μ) (xs : List A) → All P xs → All Q xs → All (λ x. P x × Q x) xs
  All-both Q [] h g = tt
  All-both Q (x ∷ xs) (p, h) (q, g) = ((p, q), All-both Q xs h g)

  pub All-take : (n : ℕ) (xs : List A) → All P xs → All P (take n xs)
  All-take zero xs h = tt
  All-take (suc n) [] h = tt
  All-take (suc n) (x ∷ xs) (p, h) = (p, All-take n xs h)

  pub All-pop : (xs : List A) → All P xs → All P (pop xs)
  All-pop [] h = tt
  All-pop (x ∷ []) h = tt
  All-pop (x ∷ y ∷ ys) (p, h) = (p, All-pop (y ∷ ys) h)

  pub All-right : (xs ys : List A) → All P (xs ++ ys) → All P ys
  All-right [] ys h = h
  All-right (x ∷ xs) ys (p, h) = All-right xs ys h

  pub All-last : (n : ℕ) (xs : List A) (c : A) → All P xs → last (take n xs) ≡ some c → P c
  All-last zero xs c h e = cc
  All-last (suc n) [] c h e = cc
  All-last (suc zero) (x ∷ xs) c (p, h) e = subst P (some-injective _ _ e) p
  All-last (suc (suc n)) (x ∷ []) c (p, h) e = subst P (some-injective _ _ e) p
  All-last (suc (suc n)) (x ∷ y ∷ ys) c (p, h) e = All-last (suc n) (y ∷ ys) c h e

  pub All-map {μ} : (Q : A → Type μ) → ((x : A) → P x → Q x) → (xs : List A) → All P xs → All Q xs
  All-map Q f [] h = tt
  All-map Q f (x ∷ xs) (p, h) = (f x p, All-map Q f xs h)
