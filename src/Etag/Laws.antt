-- ===== src/Etag/Laws.antt =====
-- The concurrency headers against the preconditions that they state.
use xapi_lrs.Prelude.{String, ◌≡◌, ◌↔◌, ◌⊎◌, Bool, true, false, Option, none, some, eq_iff, arith}
use xapi_lrs.Http.{ok}
use xapi_lrs.Etag.{
  ConcurrencyHeaders, check_concurrency_headers, present, mismatch, expected_of, is_star,
}

-- The preconditions that the headers state, met by the document's tag.
pub record Passes (h : ConcurrencyHeaders) (current : Option String) (required : Bool)
    : Type 0 where
  pub some_header : required ≡ true → (present h.if_match ≡ true) ⊎ (present h.if_none_match ≡ true)
  pub match_holds :
      present h.if_match ≡ true
      → (present current ≡ true) × (current ≡ some (expected_of h.if_match))
  pub none_match_holds : h.if_none_match ≡ some "*" → present current ≡ false

is_star_iff : (o : Option String) → (is_star o ≡ true) ↔ (o ≡ some "*")
is_star_iff none = (λ h. cc, λ h. cc)
is_star_iff (some s) = (λ h. ground (arith, eq_iff s "*"), λ h. ground (arith, eq_iff s "*"))

mismatch_iff :
    (e : String) (o : Option String) → (mismatch e o ≡ false) ↔ ((present o ≡ true) × (o ≡ some e))
mismatch_iff e none = (λ h. cc, λ h. cc h.0)
mismatch_iff e (some t) = (λ h. ground (arith, eq_iff e t), λ h. ground (arith, eq_iff e t))

module _ (h : ConcurrencyHeaders) (current : Option String) (required : Bool) where
  Passes-of_ok : check_concurrency_headers h current required ≡ ok tt → Passes h current required
  unfolding check_concurrency_headers
  Passes-of_ok e = record {
    some_header = λ q. ground arith;
    match_holds = λ q. (mismatch_iff (expected_of h.if_match) current).0 (ground arith);
    none_match_holds = λ q. let star = (is_star_iff h.if_none_match).1 q in ground arith;
  }

  ok_of_Passes : Passes h current required → check_concurrency_headers h current required ≡ ok tt
  unfolding check_concurrency_headers
  ok_of_Passes w = ground (
    arith,
    w.some_header,
    w.match_holds,
    w.none_match_holds,
    (is_star_iff h.if_none_match).0,
    (mismatch_iff (expected_of h.if_match) current).1,
  )

-- The check passes exactly when every precondition that the headers state, and the one that the
-- caller requires, is met.
pub check_concurrency_headers_iff :
    (h : ConcurrencyHeaders) (current : Option String) (required : Bool)
    → (check_concurrency_headers h current required ≡ ok tt) ↔ Passes h current required
check_concurrency_headers_iff h current required =
    (Passes-of_ok h current required, ok_of_Passes h current required)
