-- ===== src/Document/State/Concurrency.antt =====
-- The preconditions of the state resource.
use xapi_lrs.Prelude.{String, ◌≡◌, refl, sym, ◌∙◌, ◌&&◌, inl, inr, is_some, or_else}
use xapi_lrs.Http.{Error, Result, ok, err, ◌>>◌, Result-cases}
use xapi_lrs.Platform.{Platform}
use xapi_lrs.Version.{is_v2, v1_0_3}
use xapi_lrs.Etag.{check_concurrency_headers}
use xapi_lrs.Document.{DocumentRow, Response, no_content, after_ok, with_client_ok, etag_of}
use xapi_lrs.Document.State.{
  StateKey, StateTable, bind_key, alone, upsert_rows, upsert_state_document, get_state_document,
}
use xapi_lrs.Document.State.Table.{at_key}
use xapi_lrs.Document.State.Routes.{
  StateRequest, key_of, registration_then_ifi, written, put_state_tx, put_state,
}

module _ (p : Platform) (r : StateRequest p) where
  abbrev pub put_document : DocumentRow p
  put_document = written p r r.body (or_else r.content_type "application/octet-stream")

  -- the check of PUT against what the key reads
  abbrev pub put_check : StateKey → StateTable p → Result (Unit {0})
  put_check b t =
      check_concurrency_headers r.headers (etag_of p (at_key p b t))
        (is_v2 (or_else r.version v1_0_3) && is_some (etag_of p (at_key p b t)))

  put_state_tx_lem :
      (k b : StateKey) (t : StateTable p)
      → bind_key p k ≡ ok b
      → put_state_tx p r k t
        ≡ (put_check b t >> ok (no_content, upsert_rows p (alone p) b put_document t))
  unfolding put_state_tx get_state_document upsert_state_document
  put_state_tx_lem k b t h = rw h refl

  put_state_tx_unbound :
      (k : StateKey) (e : Error) (t : StateTable p)
      → bind_key p k ≡ err e
      → put_state_tx p r k t ≡ err e
  unfolding put_state_tx get_state_document
  put_state_tx_unbound k e t h = rw h

  -- What stands behind a PUT that is answered with a response.
  pub record PutDone (state_id : String) (t t' : StateTable p) : Type 0 where
    pub ifi : String
    pub bound : StateKey
    pub ifi_ok : registration_then_ifi p r ≡ ok ifi
    pub bound_ok : bind_key p (key_of p r state_id ifi) ≡ ok bound
    pub checked : put_check bound t ≡ ok tt
    pub table : t' ≡ upsert_rows p (alone p) bound put_document t

  checked_tx :
      (c : Result (Unit {0})) (t t' : StateTable p) (x : Response p × StateTable p)
      (resp : Response p)
      → (c >> ok x) ≡ ok (resp, t')
      → (c ≡ ok tt) × (t' ≡ x.1)
  checked_tx (ok done) t t' x resp h = (refl, cc)
  checked_tx (err e) t t' x resp h = absurd (cc)

  put_tx-PutDone :
      (state_id : String) (t t' : StateTable p) (resp : Response p) (ifi : String)
      → registration_then_ifi p r ≡ ok ifi
      → put_state_tx p r (key_of p r state_id ifi) t ≡ ok (resp, t')
      → PutDone state_id t t'
  put_tx-PutDone state_id t t' resp ifi found h =
      elim (Result-cases (bind_key p (key_of p r state_id ifi))) [
        | inr (e, bad) ↦ absurd (cc (put_state_tx_unbound _ e t bad))
        | inl (b, bound) ↦
            let (checked, left) =
              checked_tx (put_check b t) t t' _ resp (sym (put_state_tx_lem _ b t bound) ∙ h) in
            record {
              ifi = ifi;
              bound = b;
              ifi_ok = found;
              bound_ok = bound;
              checked = checked;
              table = left;
            }
      ]

  pub put_state-PutDone :
      (state_id : String) (t t' : StateTable p) (resp : Response p)
      → put_state p r state_id t ≡ (ok resp, t')
      → PutDone state_id t t'
  unfolding put_state
  put_state-PutDone state_id t t' resp h =
      let (ifi, found, ran) = after_ok _ _ t resp t' h in
      put_tx-PutDone state_id t t' resp ifi found (with_client_ok _ t resp t' ran)
