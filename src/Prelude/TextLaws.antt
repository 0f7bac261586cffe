-- ===== src/Prelude/TextLaws.antt =====
-- Texts cut in two are put together again.
use Prim.Native.Nat.{ℕ, suc}
use Prim.Native.Char.{Char, code}
use Prim.Native.String.{◌++◌, String, [], ◌∷◌}
use mathlib.Core.Path.{◌≡◌, refl, sym, ap, subst, ◌∙◌}
use mathlib.Core.Logic.{inl, inr}
use mathlib.Core.Bool.{true, false}
use mathlib.Core.Option.{Option, none, some, some-injective}
use native.Mathlib.Omega.{arith}
use text.Mathlib.Text.{starts_with}
use text.Mathlib.TextEquality.{starts_with_iff, Char-path}
use text.Mathlib.TextLemmas.{cons-append, nil-append, append_assoc}
use xapi_lrs.Prelude.Tests.{◌=ℕ◌, Bool-cases, Option-cases}
use xapi_lrs.Prelude.Text.{before_and_after, concat, drop_chars, split_at}

unfoldable pub count_chars : String → ℕ
count_chars [] = 0
count_chars (c ∷ s) = suc (count_chars s)

-- what is left of a text after its prefix
pub drop_chars-concat : (p t : String) → drop_chars (count_chars p) (concat p t) ≡ t
unfolding drop_chars count_chars
drop_chars-concat [] t = rw (nil-append t) refl
drop_chars-concat (c ∷ p) t = rw (cons-append c p t) (drop_chars-concat p t)

-- A text that starts with another is it and what is left after it.
pub starts_with-drop :
    (s p : String) → starts_with s p ≡ true → s ≡ concat p (drop_chars (count_chars p) s)
starts_with-drop s p h =
    let (t, at) = (starts_with_iff s p).0 h in
    sym at ∙ ap (concat p) (sym (drop_chars-concat p t) ∙ ap (drop_chars (count_chars p)) at)

eq_of_test : (a b : ℕ) → (a =ℕ b) ≡ true → a ≡ b
eq_of_test a b h = ground arith

JoinsTo : Char → String → String × String → Type 0
JoinsTo c s cut = s ≡ concat cut.0 (c ∷ cut.1)

found-JoinsTo :
    (c d : Char) (s : String) {cut : String × String}
    → code d ≡ code c
    → some ("", s) ≡ some cut
    → JoinsTo c (d ∷ s) cut
unfolding JoinsTo
found-JoinsTo c d s same h =
    subst (JoinsTo c (d ∷ s)) (some-injective _ _ h)
      (ap (λ x. x ∷ s) (Char-path d c same) ∙ sym (nil-append (c ∷ s)))

later-JoinsTo :
    (c d : Char) (s : String) {cut joined : String × String}
    → JoinsTo c s cut
    → some (d ∷ cut.0, cut.1) ≡ some joined
    → JoinsTo c (d ∷ s) joined
unfolding JoinsTo
later-JoinsTo c d s {cut} at h =
    subst (JoinsTo c (d ∷ s)) (some-injective _ _ h)
      (ap (λ x. d ∷ x) at ∙ sym (cons-append d cut.0 (c ∷ cut.1)))

-- A text that is cut at a character is the two parts with that character between them.
pub split_at-eq-some :
    (c : Char) (s : String) {cut : String × String}
    → split_at (code c) s ≡ some cut
    → s ≡ concat cut.0 (c ∷ cut.1)
unfolding split_at JoinsTo
split_at-eq-some c [] h = cc
split_at-eq-some c (d ∷ s) h = elim (Bool-cases (code d =ℕ code c)) [
  | inl same ↦ found-JoinsTo c d s (eq_of_test _ _ same) (rw same at h)
  | inr differs ↦ elim (Option-cases (split_at (code c) s)) [
    | inl at ↦ ground (arith, at, differs)
    | inr (cut, at) ↦ later-JoinsTo c d s (split_at-eq-some c s at) (rw (differs, at) at h)
  ]
]

-- what is left after a shared prefix
after_shared :
    (shared : String) (c : Char) (u s : String)
    → drop_chars (count_chars shared) (concat (concat shared (c ∷ u)) s) ≡ c ∷ (u ++ s)
after_shared shared c u s =
    ap (drop_chars (count_chars shared)) (append_assoc shared (c ∷ u) s)
    ∙ drop_chars-concat shared ((c ∷ u) ++ s)
    ∙ cons-append c u s

-- A text does not start with one that has another character after what the two share.
pub starts_with-apart :
    (shared : String) (c d : Char) (u v s : String)
    → (code d =ℕ code c) ≡ false
    → starts_with (concat (concat shared (d ∷ v)) s) (concat shared (c ∷ u)) ≡ false
starts_with-apart shared c d u v s h =
    elim (Bool-cases (starts_with (concat (concat shared (d ∷ v)) s) (concat shared (c ∷ u)))) [
      | inl starts ↦
          let (t, at) =
            (starts_with_iff (concat (concat shared (d ∷ v)) s) (concat shared (c ∷ u))).0 starts in
          let same : c ∷ (u ++ t) ≡ d ∷ (v ++ s) =
            sym (after_shared shared c u t)
            ∙ ap (drop_chars (count_chars shared)) at
            ∙ after_shared shared d v s in
          let characters : c ≡ d = cc in
          let codes : code d ≡ code c = ap code (sym characters) in ground arith
      | inr differs ↦ differs
    ]

test_refl : (n : ℕ) → (n =ℕ n) ≡ true
test_refl n = ground arith

before_and_after-none :
    (d : Char) (cut : Option (String × String)) → before_and_after d cut ≡ none → cut ≡ none
before_and_after-none d none h = refl
before_and_after-none d (some cut) h = cc

-- A text without the character, the character and another text are cut into the two texts.
pub split_at-none :
    (c : Char) (s t : String)
    → split_at (code c) s ≡ none
    → split_at (code c) (concat s (c ∷ t)) ≡ some (s, t)
unfolding split_at
split_at-none c [] t h = rw (nil-append (c ∷ t)) (rw (test_refl (code c)) refl)
split_at-none c (d ∷ s) t h = elim (Bool-cases (code d =ℕ code c)) [
  | inl same ↦ ground (arith, same)
  | inr differs ↦
      let rest : split_at (code c) s ≡ none = before_and_after-none d _ (rw differs at h) in
      rw (cons-append d s (c ∷ t), differs, split_at-none c s t rest) refl
]
