-- ===== src/Document/State/RoundTrip.antt =====
-- PUT against the abstract view of the table: a document, or none, for each key.
use xapi_lrs.Prelude.{
  String, ◌≡◌, ◌≢◌, refl, ap, ◌∙◌, sym, ◌⊎◌, true, Option, none, some, eq_iff, arith, if◌then◌else◌,
}
use xapi_lrs.Version.{is_v2, v2_0_0}
use xapi_lrs.Http.{ok, ok-injective, ◌>>=◌}
use xapi_lrs.Platform.{Platform}
use xapi_lrs.Agent.{validate_since}
use xapi_lrs.Etag.{present, compute_etag, unquote, expected_of}
use xapi_lrs.Etag.Laws.{check_concurrency_headers_iff}
use xapi_lrs.Document.{DocumentRow, Response, document_response, etag_of, with_client_read}
use xapi_lrs.Document.State.{StateKey, StateTable, bind_key, get_state_document}
use xapi_lrs.Document.State.Table.{same_key_refl, same_key, at_key, at_key-upsert_rows}
use xapi_lrs.Document.State.Routes.{
  StateRequest, key_of, registration_then_ifi, checked_ifi, put_state, get_state, get_state_tx,
}
use xapi_lrs.Document.State.Concurrency.{put_state-PutDone, put_document}

found_of_tag :
    (p : Platform) (o : Option (DocumentRow p)) (e : String)
    → etag_of p o ≡ some e
    → (d : DocumentRow p) × (o ≡ some d) × (compute_etag p d.contents ≡ e)
found_of_tag p none e h = absurd (cc)
found_of_tag p (some d) e h = (d, refl, cc)

module _ (p : Platform) (r : StateRequest p) (state_id : String) (t t' : StateTable p) where
  -- A PUT that is answered has written its document at the key that the request names, and every
  -- other key reads what it read before.
  pub put_state-refines :
      (resp : Response p)
      → put_state p r state_id t ≡ (ok resp, t')
      → (ifi : String) × (b : StateKey) × (registration_then_ifi p r ≡ ok ifi)
        × (bind_key p (key_of p r state_id ifi) ≡ ok b)
        × ((j : StateKey)
            → at_key p j t' ≡ (if same_key b j then some (put_document p r) else at_key p j t))
  put_state-refines resp h =
      let d = put_state-PutDone p r state_id t t' resp h in
      (
        d.ifi,
        d.bound,
        d.ifi_ok,
        d.bound_ok,
        λ j. ap (at_key p j) d.table ∙ at_key-upsert_rows p d.bound (put_document p r) j t,
      )

  -- An answered PUT with `If-Match` had a current document with that entity tag.
  pub put_state_match :
      (resp : Response p) (m : String)
      → put_state p r state_id t ≡ (ok resp, t')
      → r.headers.if_match ≡ some m
      → m ≢ ""
      → (b : StateKey) × (d : DocumentRow p) × (at_key p b t ≡ some d)
        × (compute_etag p d.contents ≡ unquote m)
  put_state_match resp m h e ne =
      let done = put_state-PutDone p r state_id t t' resp h in
      let passes = (check_concurrency_headers_iff _ _ _).0 done.checked in
      let stated : present r.headers.if_match ≡ true = rw e (ground (arith, eq_iff m "")) in
      let (d, found, tag) =
        found_of_tag p (at_key p done.bound t) _ (passes.match_holds stated).1 in
      (done.bound, d, found, tag ∙ ap expected_of e)

  -- Under version 2, an answered PUT over a document stated a precondition.
  pub put_state_v2 :
      (resp : Response p) (ifi : String) (b : StateKey) (d : DocumentRow p)
      → put_state p r state_id t ≡ (ok resp, t')
      → r.version ≡ some v2_0_0
      → registration_then_ifi p r ≡ ok ifi
      → bind_key p (key_of p r state_id ifi) ≡ ok b
      → at_key p b t ≡ some d
      → (present r.headers.if_match ≡ true) ⊎ (present r.headers.if_none_match ≡ true)
  unfolding is_v2
  put_state_v2 resp ifi b d h two found bound there =
      let done = put_state-PutDone p r state_id t t' resp h in
      let same : done.ifi ≡ ifi = ok-injective (sym done.ifi_ok ∙ found) in
      let key : done.bound ≡ b =
        ok-injective
          (sym done.bound_ok ∙ ap (λ x. bind_key p (key_of p r state_id x)) same ∙ bound) in
      let here : at_key p done.bound t ≡ some d = ap (λ x. at_key p x t) key ∙ there in
      ((check_concurrency_headers_iff _ _ _).0 done.checked).some_header (rw (two, here) refl)

  abbrev pub reading : StateRequest p
  reading = record r { state_id = some state_id; since = none }

  checked_of_registration :
      (ifi : String) → registration_then_ifi p r ≡ ok ifi → checked_ifi p reading ≡ ok ifi
  unfolding validate_since
  checked_of_registration ifi h = ground arith

  get_state_tx_found :
      (ifi : String) (b : StateKey) (d : DocumentRow p) (u : StateTable p)
      → present (some state_id) ≡ true
      → bind_key p (key_of p r state_id ifi) ≡ ok b
      → at_key p b u ≡ some d
      → get_state_tx p reading ifi u ≡ (document_response p d >>= λ a. ok (a, u))
  unfolding get_state_tx get_state_document
  get_state_tx_found ifi b d u named bound found = rw (named, bound, found) refl

  -- A GET that follows an answered PUT of the same state id, which is not the empty text, reads the
  -- document that was put.
  pub get-put_state :
      (resp : Response p)
      → put_state p r state_id t ≡ (ok resp, t')
      → state_id ≢ ""
      → get_state p reading t' ≡ (document_response p (put_document p r), t')
  get-put_state resp h ne =
      let d = put_state-PutDone p r state_id t t' resp h in
      let read : at_key p d.bound t' ≡ some (put_document p r) =
        ap (at_key p d.bound) d.table
        ∙ at_key-upsert_rows p d.bound (put_document p r) d.bound t
        ∙ rw (same_key_refl d.bound) refl in
      let named : present (some state_id) ≡ true = ground (arith, eq_iff state_id "") in
      unfold get_state in
      rw (checked_of_registration d.ifi d.ifi_ok) (
        with_client_read _ t' _
          (get_state_tx_found d.ifi d.bound (put_document p r) t' named d.bound_ok read))
