-- ===== src/Prelude/Rows.antt =====
-- Tables as lists of rows: what a query by a predicate finds after another query has changed rows.
use Prim.Native.Nat.{◌+◌, ◌≤◌}
use mathlib.Core.Path.{◌≡◌, refl}
use mathlib.Core.Bool.{Bool, true, false, not, ◌&&◌}
use mathlib.Core.Option.{Option, none, some}
use mathlib.Core.List.{List, [], ◌∷◌, ◌++◌}
use native.Mathlib.Omega.{arith}
use xapi_lrs.Prelude.Tests.{if◌then◌else◌, ltb}
use xapi_lrs.Prelude.Lists.{length, any, keep, first, update}

abbrev pub read {ℓ κ} : {A : Type ℓ} {D : Type κ} → (A → D) → Option A → Option D
read f none = none
read f (some a) = some (f a)

pub ltb-length-keep {ℓ} :
    {A : Type ℓ} (u : A → Bool) (t : List A) → ltb 0 (length (keep u t)) ≡ any u t
ltb-length-keep u [] = ground arith
ltb-length-keep u (row ∷ t) = ground (arith, ltb-length-keep u t)

-- `u` says which rows are written, `s` which are read, and `same` whether the two keys are one.
module _ {ℓ κ} {A : Type ℓ} {D : Type κ} (u s : A → Bool) (same : Bool) (doc : A → D) where
  pub first-update :
      (f : A → A) (d : D)
      → ((row : A) → doc (f row) ≡ d)
      → ((row : A) → u row ≡ true → s (f row) ≡ same)
      → ((row : A) → u row ≡ true → s row ≡ same)
      → ((row : A) → s row ≡ true → u row ≡ same)
      → (t : List A)
      → read doc (first s (update u f t))
        ≡ (if same && any u t then some d else read doc (first s t))
  first-update f d hd hf hu hs [] = ground arith
  first-update f d hd hf hu hs (row ∷ t) =
      ground (arith, first-update f d hd hf hu hs t, hd row, hf row, hu row, hs row)

  pub first-append :
      (new : A)
      → s new ≡ same
      → ((row : A) → s row ≡ true → u row ≡ same)
      → (t : List A) → any u t ≡ false
      → read doc (first s (t ++ new ∷ [])) ≡ (if same then some (doc new) else read doc (first s t))
  first-append new hn hs [] h = ground arith
  first-append new hn hs (row ∷ t) h = ground (arith, first-append new hn hs t, hs row)

  pub first-delete :
      ((row : A) → u row ≡ true → s row ≡ same)
      → ((row : A) → s row ≡ true → u row ≡ same)
      → (t : List A)
      → read doc (first s (keep (λ row. not (u row)) t))
        ≡ (if same then none else read doc (first s t))
  first-delete hu hs [] = ground arith
  first-delete hu hs (row ∷ t) = ground (arith, first-delete hu hs t, hu row, hs row)

module _ {ℓ} {A : Type ℓ} (u : A → Bool) where
  pub update_none : (f : A → A) (t : List A) → any u t ≡ false → update u f t ≡ t
  update_none f [] h = refl
  update_none f (row ∷ t) h = ground (arith, update_none f t)

  pub any_weaken :
      (v : A → Bool)
      → ((row : A) → v row ≡ true → u row ≡ true)
      → (t : List A) → any u t ≡ false
      → any v t ≡ false
  any_weaken v w [] h = refl
  any_weaken v w (row ∷ t) h = ground (arith, any_weaken v w t, w row)

module _ {ℓ} {A : Type ℓ} (s : A → Bool) where
  pub length-keep-update :
      (u : A → Bool) (f : A → A)
      → ((row : A) → s (f row) ≡ s row)
      → (t : List A) → length (keep s (update u f t)) ≡ length (keep s t)
  length-keep-update u f h [] = refl
  length-keep-update u f h (row ∷ t) = ground (arith, length-keep-update u f h t, h row)

  pub length-keep-append :
      (new : A) (t : List A)
      → length (keep s (t ++ new ∷ [])) ≡ length (keep s t) + (if s new then 1 else 0)
  length-keep-append new [] = ground arith
  length-keep-append new (row ∷ t) = ground (arith, length-keep-append new t)

  pub length-keep_none : (t : List A) → any s t ≡ false → length (keep s t) ≡ 0
  length-keep_none [] h = refl
  length-keep_none (row ∷ t) h = ground (arith, length-keep_none t)

  pub length-keep-keep :
      (v : A → Bool) (t : List A) → length (keep s (keep v t)) ≤ length (keep s t)
  length-keep-keep v [] = omega arith
  length-keep-keep v (row ∷ t) = ground (arith, length-keep-keep v t)
