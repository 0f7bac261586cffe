-- ===== src/Statement/Format/Languages/Laws.antt =====
-- The entry of a language map that the format `canonical` keeps.
use xapi_lrs.Prelude.{
  String, ◌≡◌, refl, Bool, true, false, Option, none, some, List, [], ◌∷◌, ◌==◌, eq_iff, eq_refl,
  first, or_else, arith, Option-cases, Bool-cases, inl, inr, split_first, starts_with, concat,
  if◌then◌else◌,
}
use xapi_lrs.Json.{Json, Fields, obj, end, field, get}
use xapi_lrs.Platform.{Platform}
use xapi_lrs.Statement.Format.Languages.{
  keys_of, truthy_key, earlier, find_key, key_for, best_key, pick_language,
}

abbrev IsKey : Fields → String → Type 0
IsKey fs k = (w : Json) × (get k fs ≡ some w)

get-first :
    (test : String → Bool) (fs : Fields) (k : String)
    → first test (keys_of fs) ≡ some k
    → IsKey fs k
unfolding get keys_of
get-first test end k h = absurd (cc)
get-first test (field j v fs) k h = elim (Bool-cases (j == k)) [
  | inl same ↦ (v, rw same refl)
  | inr apart ↦ elim (Bool-cases (test j)) [
    | inl here ↦ absurd (ground (arith, eq_iff j k))
    | inr not_here ↦ let (w, e) = get-first test fs k (ground arith) in (w, rw apart e)
  ]
]

truthy_key-some : (o : Option String) (k : String) → truthy_key o ≡ some k → o ≡ some k
truthy_key-some none k h = h
truthy_key-some (some j) k h = ground arith

module _ (p : Platform) (fs : Fields) where
  find_key-IsKey :
      (test : String → Bool) (k : String) → find_key p test (keys_of fs) ≡ some k → IsKey fs k
  find_key-IsKey test k h = get-first test fs k (truthy_key-some (first test (keys_of fs)) k h)

  parent-IsKey :
      (alone : Bool) (test : String → Bool) (k : String)
      → (if alone then none else find_key p test (keys_of fs)) ≡ some k
      → IsKey fs k
  parent-IsKey true test k h = absurd (cc)
  parent-IsKey false test k h = find_key-IsKey test k h

  earlier-IsKey :
      (a b : Option String)
      → ((k : String) → a ≡ some k → IsKey fs k)
      → ((k : String) → b ≡ some k → IsKey fs k)
      → (k : String) → earlier a b ≡ some k
      → IsKey fs k
  earlier-IsKey none b f g k h = g k h
  earlier-IsKey (some a) b f g k h = f k h

  key_for-IsKey : (pref k : String) → key_for p (keys_of fs) pref ≡ some k → IsKey fs k
  unfolding key_for
  key_for-IsKey pref =
      let same = λ (k : String). p.to_lower k == pref in
      let longer = λ (k : String). starts_with (p.to_lower k) (concat pref "-") in
      let parent = λ (k : String). p.to_lower k == (split_first b'-' pref).0 in
      let alone = (split_first b'-' pref).0 == pref in
      earlier-IsKey (find_key p same (keys_of fs))
        (earlier (find_key p longer (keys_of fs))
          (if alone then none else find_key p parent (keys_of fs)))
        (find_key-IsKey same)
        (earlier-IsKey (find_key p longer (keys_of fs))
          (if alone then none else find_key p parent (keys_of fs)) (find_key-IsKey longer)
          (parent-IsKey alone parent))

  best_key-IsKey :
      (prefs : List String) (k : String) → best_key p (keys_of fs) prefs ≡ some k → IsKey fs k
  unfolding best_key
  best_key-IsKey [] k h = absurd (cc)
  best_key-IsKey (pref ∷ prefs) k h =
      earlier-IsKey (key_for p (keys_of fs) pref) (best_key p (keys_of fs) prefs)
        (key_for-IsKey pref) (best_key-IsKey prefs) k h

IsKey-head : (k : String) (v : Json) (fs : Fields) → IsKey (field k v fs) k
unfolding get
IsKey-head k v fs = (v, rw (eq_refl k) refl)

-- Of a language map with two entries or more, the format `canonical` keeps one entry, with the
-- text that the map has for it, whatever the header asks for: the entry that the languages choose,
-- or, if they choose none, the first.
pub pick_language-get :
    (p : Platform) (prefs : List String) (v first second : Json) (j k : String) (rest : Fields)
    → let fs = field j first (field k second rest) in
      let key = or_else (best_key p (keys_of fs) prefs) j in
      (w : Json) × (pick_language p prefs v fs ≡ obj (field key w end)) × (get key fs ≡ some w)
unfolding pick_language
pick_language-get p prefs v first second j k rest =
    let fs = field j first (field k second rest) in
    let found : IsKey fs (or_else (best_key p (keys_of fs) prefs) j) =
      elim (Option-cases (best_key p (keys_of fs) prefs)) [
        | inl missing ↦ rw missing (IsKey-head j first (field k second rest))
        | inr (key, e) ↦ rw e (best_key-IsKey p fs prefs key e)
      ] in
    let (w, e) = found in (w, rw e refl, e)
