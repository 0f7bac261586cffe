-- ===== src/Authentication/Scopes.antt =====
-- The scopes that the claims of a token grant.
use mathlib.Core.Option.{some-injective}
use xapi_lrs.Prelude.{
  String, ◌≡◌, refl, sym, ap, ◌∙◌, inl, inr, false, ◌||◌, Option, none, some, List, [], ◌∷◌, ◌==◌,
  eq_iff, arith, first, contains, Bool-cases, split_spaces,
}
use xapi_lrs.Json.{Fields, str, get}
use xapi_lrs.Auth.{
  XapiScope, statements_write, statements_read, statements_read_mine, all_read, all, state,
  state_read, define, activities_profile, activities_profile_read, agents_profile,
  agents_profile_read, scope_name, includes_scope,
}
use xapi_lrs.Authentication.{
  valid_scopes, scope_of, and_scope, named_scopes, or_scopes, extract_scopes,
}

-- every scope has a name that is valid
scope_of-scope_name : (s : XapiScope) → scope_of (scope_name s) ≡ some s
scope_of-scope_name statements_write = refl
scope_of-scope_name statements_read = refl
scope_of-scope_name statements_read_mine = refl
scope_of-scope_name all_read = refl
scope_of-scope_name all = refl
scope_of-scope_name state = refl
scope_of-scope_name state_read = refl
scope_of-scope_name define = refl
scope_of-scope_name activities_profile = refl
scope_of-scope_name activities_profile_read = refl
scope_of-scope_name agents_profile = refl
scope_of-scope_name agents_profile_read = refl

first-name :
    (name : String) (xs : List XapiScope) {s : XapiScope}
    → first (λ x. scope_name x == name) xs ≡ some s
    → scope_name s ≡ name
first-name name [] h = cc
first-name name (x ∷ xs) h = elim (Bool-cases (scope_name x == name)) [
  | inl same ↦ ap scope_name (sym (some-injective _ _ (rw same at h))) ∙ (eq_iff _ _).0 same
  | inr differs ↦ first-name name xs (rw differs at h)
]

unnamed : (name : String) (s : XapiScope) → scope_of name ≡ none → (name == scope_name s) ≡ false
unnamed name s h = elim (Bool-cases (name == scope_name s)) [
  | inl same ↦
      let at = sym (ap scope_of ((eq_iff name (scope_name s)).0 same)) in
      ground (arith, sym (scope_of-scope_name s) ∙ at ∙ h)
  | inr differs ↦ differs
]

includes_scope-and_scope :
    (name : String) (found : Option XapiScope) (later : List XapiScope) (s : XapiScope)
    → scope_of name ≡ found
    → includes_scope (and_scope found later) s ≡ ((name == scope_name s) || includes_scope later s)
includes_scope-and_scope name none later s h = rw (unnamed name s h) refl
includes_scope-and_scope name (some x) later s h = rw (first-name name valid_scopes h) refl

includes_scope-named_scopes :
    (names : List String) (s : XapiScope)
    → includes_scope (named_scopes names) s ≡ contains names (scope_name s)
includes_scope-named_scopes [] s = refl
includes_scope-named_scopes (name ∷ rest) s =
    includes_scope-and_scope name (scope_of name) (named_scopes rest) s refl
    ∙ ap (λ b. (name == scope_name s) || b) (includes_scope-named_scopes rest s)

or_scopes-eq-some :
    (xs : List XapiScope) {scopes : List XapiScope} → or_scopes xs [] ≡ some scopes → xs ≡ scopes
or_scopes-eq-some [] h = cc
or_scopes-eq-some (x ∷ xs) h = some-injective _ _ h

-- A token whose claim `scope` is a text and that has no claim `scopes` grants just the scopes that
-- are words of the text, if it grants any.
pub extract_scopes-scope :
    (claims : Fields) (words : String) {scopes : List XapiScope}
    → get "scope" claims ≡ some (str words)
    → get "scopes" claims ≡ none
    → extract_scopes claims ≡ some scopes
    → (s : XapiScope) → includes_scope scopes s ≡ contains (split_spaces words) (scope_name s)
unfolding extract_scopes
extract_scopes-scope claims words at none_at h s =
    let same = or_scopes-eq-some (named_scopes (split_spaces words)) (rw (at, none_at) at h) in
    ap (λ xs. includes_scope xs s) (sym same) ∙ includes_scope-named_scopes (split_spaces words) s
