-- ===== src/Document/State/Delete.antt =====
-- DELETE of one document against the abstract view of the table.
use xapi_lrs.Prelude.{
  String, ◌≡◌, ◌≢◌, refl, sym, ap, ◌∙◌, true, false, none, some, eq_iff, arith, if◌then◌else◌, not,
  keep,
}
use xapi_lrs.Http.{ok, >>=-eq-ok, ok-injective, ◌>>◌}
use xapi_lrs.Platform.{Platform}
use xapi_lrs.Etag.{check_concurrency_headers, present}
use xapi_lrs.Etag.Laws.{Passes, check_concurrency_headers_iff}
use xapi_lrs.Document.{Response, no_content, after_ok, with_client_ok, etag_of}
use xapi_lrs.Document.State.{
  StateKey, StateTable, bind_key, selects, get_state_document, delete_state_document,
}
use xapi_lrs.Document.State.Table.{same_key, at_key, at_key-delete}
use xapi_lrs.Document.State.Routes.{
  StateRequest, key_of, checked_ifi, delete_state, delete_state_tx,
}

module _ (p : Platform) (r : StateRequest p) (state_id : String) (t t' : StateTable p)
    (resp : Response p) where
  delete_state_tx_lem :
      (ifi : String) (b : StateKey)
      → r.state_id ≡ some state_id
      → state_id ≢ ""
      → bind_key p (key_of p r state_id ifi) ≡ ok b
      → delete_state_tx p r ifi t ≡ (
          check_concurrency_headers r.headers (etag_of p (at_key p b t)) false
          >> ok (no_content, keep (λ row. not (selects p b row)) t))
  unfolding delete_state_tx get_state_document delete_state_document
  delete_state_tx_lem ifi b e ne bound =
      let named : present (some state_id) ≡ true = ground (arith, eq_iff state_id "") in
      rw (e, named, bound) refl

  -- An answered DELETE that names a state id, of a key whose registration is bound, met every
  -- precondition that it stated, and has removed the document at that key and no other.
  pub delete_state-removes :
      (ifi : String) (b : StateKey)
      → delete_state p r t ≡ (ok resp, t')
      → r.state_id ≡ some state_id
      → state_id ≢ ""
      → checked_ifi p r ≡ ok ifi
      → bind_key p (key_of p r state_id ifi) ≡ ok b
      → Passes r.headers (etag_of p (at_key p b t)) false
        × ((j : StateKey) → at_key p j t' ≡ (if same_key b j then none else at_key p j t))
  unfolding delete_state
  delete_state-removes ifi b h e ne found bound =
      let (ifi', found', ran) = after_ok (checked_ifi p r) _ t resp t' h in
      let same : ifi' ≡ ifi = ok-injective (sym found' ∙ found) in
      let done : delete_state_tx p r ifi t ≡ ok (resp, t') =
        ap (λ x. delete_state_tx p r x t) (sym same) ∙ with_client_ok _ t resp t' ran in
      let (x, checked, left) =
        >>=-eq-ok (check_concurrency_headers r.headers (etag_of p (at_key p b t)) false) _
          (sym (delete_state_tx_lem ifi b e ne bound) ∙ done) in
      (
        (check_concurrency_headers_iff _ _ _).0 checked,
        λ j.
            ap (λ (y : Response p × StateTable p). at_key p j y.1) (sym (ok-injective left))
            ∙ at_key-delete p b j t,
      )
