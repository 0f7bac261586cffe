-- ===== src/Document/State/Merge.antt =====
-- POST on a state document.
use xapi_lrs.Prelude.{
  String, ◌≡◌, refl, sym, ap, ◌∙◌, false, Option, none, some, arith, inl, inr, if◌then◌else◌,
}
use xapi_lrs.Http.{ok, ◌>>=◌, ◌>>◌, Result-cases, >>=-eq-ok, ok-injective}
use xapi_lrs.Json.{Json, Fields, end, obj, get, spread}
use xapi_lrs.Json.Laws.{Distinct, or_get, get-spread}
use xapi_lrs.Platform.{Platform}
use xapi_lrs.Etag.{check_concurrency_headers}
use xapi_lrs.Document.{
  DocumentRow, Response, no_content, own_fields, merge_into, etag_of, after_ok, with_client_ok,
}
use xapi_lrs.Document.State.{
  StateKey, StateTable, bind_key, alone, upsert_rows, get_state_document, upsert_state_document,
}
use xapi_lrs.Document.State.Table.{same_key, at_key, at_key-upsert_rows}
use xapi_lrs.Document.State.Routes.{
  StateRequest, key_of, written, ifi_and_body, post_state, post_state_tx,
}

-- what POST finds at a key: the properties of the stored JSON, and none where there is no document
abbrev pub properties : Option Json → Fields
properties none = end
properties (some v) = own_fields v

abbrev pub existing_fields : (p : Platform) → Option (DocumentRow p) → Fields
existing_fields p none = end
existing_fields p (some row) = properties (p.parse_buffer row.contents)

merge_into_ok :
    (p : Platform) (o : Option (DocumentRow p)) (incoming : Fields) (b : p.Buffer)
    → merge_into p o incoming ≡ ok b
    → b ≡ p.stringify_buffer (obj (spread (existing_fields p o) incoming))
unfolding merge_into
merge_into_ok p none incoming b h = ground arith
merge_into_ok p (some row) incoming b h = ground arith

module _ (p : Platform) (r : StateRequest p) where
  -- What stands behind a POST that is answered.
  pub record PostDone (state_id : String) (t t' : StateTable p) : Type 0 where
    pub ifi : String
    pub incoming : Fields
    pub bound : StateKey
    pub merged : p.Buffer
    pub parsed : ifi_and_body p r ≡ ok (ifi, incoming)
    pub bound_ok : bind_key p (key_of p r state_id ifi) ≡ ok bound
    pub merged_ok : merge_into p (at_key p bound t) incoming ≡ ok merged
    pub table : t' ≡ upsert_rows p (alone p) bound (written p r merged "application/json") t

  post_state_tx_lem :
      (k b : StateKey) (incoming : Fields) (t : StateTable p)
      → bind_key p k ≡ ok b
      → post_state_tx p r k incoming t ≡ (
          check_concurrency_headers r.headers (etag_of p (at_key p b t)) false
          >> (merge_into p (at_key p b t) incoming >>= λ merged.
              ok (no_content, upsert_rows p (alone p) b (written p r merged "application/json") t)))
  unfolding post_state_tx get_state_document upsert_state_document
  post_state_tx_lem k b incoming t h = rw h refl

  post_state_tx_bound :
      (k : StateKey) (incoming : Fields) (t : StateTable p) (x : Response p × StateTable p)
      → post_state_tx p r k incoming t ≡ ok x
      → (b : StateKey) × (bind_key p k ≡ ok b)
  unfolding post_state_tx get_state_document
  post_state_tx_bound k incoming t x h = elim (Result-cases (bind_key p k)) [
    | inl found ↦ found
    | inr (e, bad) ↦ absurd (cc (rw bad at h))
  ]

  post_state-PostDone :
      (state_id : String) (t t' : StateTable p) (resp : Response p)
      → post_state p r state_id t ≡ (ok resp, t')
      → PostDone state_id t t'
  unfolding post_state
  post_state-PostDone state_id t t' resp h =
      let ((ifi, incoming), parsed, ran) = after_ok _ _ t resp t' h in
      let done = with_client_ok _ t resp t' ran in
      let (b, bound) = post_state_tx_bound _ incoming t (resp, t') done in
      let (_, checked, later) =
        >>=-eq-ok (check_concurrency_headers r.headers (etag_of p (at_key p b t)) false) _
          (sym (post_state_tx_lem (key_of p r state_id ifi) b incoming t bound) ∙ done) in
      let (merged, merge, left) = >>=-eq-ok (merge_into p (at_key p b t) incoming) _ later in
      record {
        ifi = ifi;
        incoming = incoming;
        bound = b;
        merged = merged;
        parsed = parsed;
        bound_ok = bound;
        merged_ok = merge;
        table = cc;
      }

  -- An answered POST, whose body has distinct keys, has stored at the key that the request names
  -- JSON whose properties are those of the body, and the former document's where the body has none;
  -- every other key reads what it read before. The codec is assumed to parse what it prints.
  pub post_state_merges :
      (state_id : String) (t t' : StateTable p) (resp : Response p) (ifi : String)
      (incoming : Fields)
      → ((v : Json) → p.parse_buffer (p.stringify_buffer v) ≡ some v)
      → post_state p r state_id t ≡ (ok resp, t')
      → ifi_and_body p r ≡ ok (ifi, incoming)
      → Distinct incoming
      → (b : StateKey) × (d : DocumentRow p) × (merged : Fields) × (bind_key p
            (key_of p r state_id ifi)
          ≡ ok b)
        × ((j : StateKey) → at_key p j t' ≡ (if same_key b j then some d else at_key p j t))
        × (p.parse_buffer d.contents ≡ some (obj merged))
        × ((k : String)
            → get k merged ≡ or_get (get k incoming) (get k (existing_fields p (at_key p b t))))
  post_state_merges state_id t t' resp ifi incoming codec h parsed distinct =
      let d = post_state-PostDone state_id t t' resp h in
      let same : (d.ifi, d.incoming) ≡ (ifi, incoming) = ok-injective (sym d.parsed ∙ parsed) in
      let body : d.incoming ≡ incoming = ap (λ (x : String × Fields). x.1) same in
      let old = existing_fields p (at_key p d.bound t) in
      let doc = written p r d.merged "application/json" in
      (
        d.bound,
        doc,
        spread old incoming,
        ap (λ (x : String × Fields). bind_key p (key_of p r state_id x.0)) (sym same) ∙ d.bound_ok,
        λ j. ap (at_key p j) d.table ∙ at_key-upsert_rows p d.bound doc j t,
        ap p.parse_buffer (merge_into_ok p _ d.incoming d.merged d.merged_ok)
            ∙ (codec _ ∙ ap (λ x. some (obj (spread old x))) body),
        λ k. get-spread old incoming k distinct,
      )
