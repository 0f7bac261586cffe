-- ===== src/App/Rewrite/Laws.antt =====
-- The requests that the alternate syntax makes.
use mathlib.Core.Option.{some-injective}
use xapi_lrs.Prelude.{
  String, ◌≡◌, refl, sym, ap, subst, ◌∙◌, inl, inr, false, Option, none, some, [], ◌∷◌, ◌==◌,
  eq_iff, arith, first, contains, Bool-cases,
}
use xapi_lrs.Http.{ok, ◌>>=◌, >>=-eq-ok, ok-injective}
use xapi_lrs.Platform.{Platform}
use xapi_lrs.App.Rewrite.{
  Pairs, value_of, without, HttpRequest, Web, alternate_header_fields, has_key, form_data,
  known_method, method_override, or_header, is_rewritten, moved_headers, duplicate_error,
  new_request, made, rewrite_form, is_form, rewrite_as, alternate_request,
}

module _ (p : Platform) (w : Web p) where
  -- what is true of a request made from another
  abbrev pub IsMade : HttpRequest p → HttpRequest p → Type 0
  IsMade req new =
      (method : String) × (form headers : Pairs) × (method_override p w
          (value_of "method" req.query)
        ≡ some method)
      × (first (λ pair. has_key pair.0 form) (without "method" req.query) ≡ none)
      × (moved_headers p w alternate_header_fields form req.headers ≡ ok headers)
      × (new ≡ new_request p w req method form headers)

  no_duplicate :
      (found : Option (String × String)) {u : Unit {0}}
      → duplicate_error p w found ≡ ok u
      → found ≡ none
  no_duplicate none h = refl
  no_duplicate (some pair) h = cc

  rewrite_form-IsMade :
      (req : HttpRequest p) (method : String) (form : Pairs) {new : HttpRequest p}
      → method_override p w (value_of "method" req.query) ≡ some method
      → rewrite_form p w req method form ≡ ok (some new)
      → IsMade req new
  rewrite_form-IsMade req method form at h =
      elim (Bool-cases (
        is_rewritten p w (
          or_header p w (value_of "X-Experience-API-Version" form)
            (value_of "x-experience-api-version" req.headers)))) [
              | inl old ↦
                  let (_, single, h1) =
                    >>=-eq-ok
                      (duplicate_error p w
                        (first (λ pair. has_key pair.0 form) (without "method" req.query)))
                      (λ _.
                        moved_headers p w alternate_header_fields form req.headers
                        >>= made p w req method form)
                      (rw old at h) in
                  let (headers, moved, h2) =
                    >>=-eq-ok (moved_headers p w alternate_header_fields form req.headers)
                      (made p w req method form) h1 in
                  (
                    method,
                    form,
                    headers,
                    at,
                    no_duplicate _ single,
                    moved,
                    sym (some-injective _ _ (ok-injective h2)),
                  )
              | inr new_version ↦ ground (arith, new_version)
            ]

  rewrite_as-IsMade :
      (req : HttpRequest p) (method : Option String) {new : HttpRequest p}
      → method_override p w (value_of "method" req.query) ≡ method
      → rewrite_as p w req method ≡ ok (some new)
      → IsMade req new
  rewrite_as-IsMade req none at h = cc
  rewrite_as-IsMade req (some method) at h = elim (Bool-cases (is_form p w req)) [
    | inl form ↦
        rewrite_form-IsMade req method (form_data (w.form_pairs (w.text_of req.body)) []) at
          (rw form at h)
    | inr body ↦ ground (arith, body)
  ]

  alternate_request-IsMade :
      (req : HttpRequest p) {new : HttpRequest p}
      → alternate_request p w req ≡ ok (some new)
      → IsMade req new
  unfolding alternate_request
  alternate_request-IsMade req h = elim (Bool-cases (req.method == "POST")) [
    | inl posts ↦
        rewrite_as-IsMade req (method_override p w (value_of "method" req.query)) refl
          (rw posts at h)
    | inr other_method ↦ ground (arith, other_method)
  ]

  known_method_not_post :
      (text : String) {method : String}
      → known_method p w text ≡ some method
      → (method == "POST") ≡ false
  known_method_not_post text h = elim (Bool-cases (text == "POST")) [
    | inl posts ↦
        let at : known_method p w "POST" ≡ some _ =
          sym (ap (known_method p w) ((eq_iff _ _).0 posts)) ∙ h in
        cc
    | inr differs ↦ elim (Bool-cases (contains ("GET" ∷ "PUT" ∷ "DELETE" ∷ []) text)) [
      | inl known ↦ subst (λ m. (m == "POST") ≡ false) (some-injective _ _ (rw known at h)) differs
      | inr unknown ↦ ground (arith, unknown)
    ]
  ]

  override_not_post :
      (text : Option String) {method : String}
      → method_override p w text ≡ some method
      → (method == "POST") ≡ false
  override_not_post none h = cc
  override_not_post (some text) h = known_method_not_post (w.to_upper text) h

  -- A request that the alternate syntax makes is passed on as it is.
  pub alternate_request-made :
      (req : HttpRequest p) {new : HttpRequest p}
      → alternate_request p w req ≡ ok (some new)
      → alternate_request p w new ≡ ok none
  unfolding alternate_request
  alternate_request-made req h =
      let (method, form, headers, at, _, _, same) = alternate_request-IsMade req h in
      let fixed = ap (λ r. r.method) same in rw (fixed, override_not_post _ at) refl
