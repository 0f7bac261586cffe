-- ===== src/Document/Profile/Refine.antt =====
-- The profile handlers against the abstract view of the table: a document, or none, for each key.
use xapi_lrs.Prelude.{
  String, ◌≡◌, sym, ap, ◌∙◌, Bool, true, false, Option, none, some, or_else, if◌then◌else◌,
}
use xapi_lrs.Http.{ok, >>=-eq-ok, ok-injective}
use xapi_lrs.Platform.{Platform}
use xapi_lrs.Agent.{param_ifi}
use xapi_lrs.Etag.{check_concurrency_headers}
use xapi_lrs.Etag.Laws.{Passes, check_concurrency_headers_iff}
use xapi_lrs.Document.{DocumentRow, Response, with_client_ok, after_ok, etag_of}
use xapi_lrs.Document.Profile.{ProfileKey, ProfileTable, get_profile}
use xapi_lrs.Document.Profile.Table.{
  same_profile, get_profile-upsert_profile, get_profile-delete_profile,
}
use xapi_lrs.Document.Profile.Routes.{
  ProfileRequest, stored_profile, key_at, put_profile_tx, delete_profile_tx, put_agent_profile,
  delete_activity_profile,
}

module _ (p : Platform) (r : ProfileRequest p) where
  abbrev pub put_profile_document : DocumentRow p
  put_profile_document =
      stored_profile p r r.body (or_else r.content_type "application/octet-stream")

  -- One write at a key whose document meets the preconditions.
  pub record IsWrite (required : Bool) (k : ProfileKey) (new : Option (DocumentRow p))
      (t t' : ProfileTable p) : Type 0 where
    pub passes : Passes r.headers (etag_of p (get_profile p k t)) required
    pub reads :
        (j : ProfileKey)
        → get_profile p j t' ≡ (if same_profile k j then new else get_profile p j t)

  put_profile_tx-IsWrite :
      (k : ProfileKey) (t t' : ProfileTable p) (resp : Response p)
      → put_profile_tx p r k t ≡ ok (resp, t')
      → IsWrite true k (some put_profile_document) t t'
  unfolding put_profile_tx
  put_profile_tx-IsWrite k t t' resp h =
      let (x, checked, left) = >>=-eq-ok (check_concurrency_headers r.headers _ true) _ h in
      record {
        passes = (check_concurrency_headers_iff _ _ _).0 checked;
        reads = λ j.
            ap (λ (y : Response p × ProfileTable p). get_profile p j y.1) (sym (ok-injective left))
            ∙ get_profile-upsert_profile p k j put_profile_document t;
      }

  delete_profile_tx-IsWrite :
      (k : ProfileKey) (t t' : ProfileTable p) (resp : Response p)
      → delete_profile_tx p r k t ≡ ok (resp, t')
      → IsWrite false k none t t'
  unfolding delete_profile_tx
  delete_profile_tx-IsWrite k t t' resp h =
      let (x, checked, left) = >>=-eq-ok (check_concurrency_headers r.headers _ false) _ h in
      record {
        passes = (check_concurrency_headers_iff _ _ _).0 checked;
        reads = λ j.
            ap (λ (y : Response p × ProfileTable p). get_profile p j y.1) (sym (ok-injective left))
            ∙ get_profile-delete_profile p k j t;
      }

  -- An answered PUT of an agent's profile stated a precondition, every stated one held of the
  -- document at the key of the profile and the agent's IFI, and it has written its document there
  -- and nowhere else.
  pub put_agent_profile-IsWrite :
      (agent : String) (t t' : ProfileTable p) (resp : Response p)
      → put_agent_profile p r agent t ≡ (ok resp, t')
      → (ifi : String) × (param_ifi p agent ≡ ok ifi)
        × IsWrite true (key_at p r ifi) (some put_profile_document) t t'
  unfolding put_agent_profile
  put_agent_profile-IsWrite agent t t' resp h =
      let (ifi, found, ran) = after_ok (param_ifi p agent) _ t resp t' h in
      (ifi, found, put_profile_tx-IsWrite _ t t' resp (with_client_ok _ t resp t' ran))

  -- An answered DELETE of an activity's profile met every precondition that it stated, and has
  -- removed the document at its key and no other.
  pub delete_activity_profile-IsWrite :
      (activity : String) (t t' : ProfileTable p) (resp : Response p)
      → delete_activity_profile p r activity t ≡ (ok resp, t')
      → IsWrite false (key_at p r activity) none t t'
  unfolding delete_activity_profile
  delete_activity_profile-IsWrite activity t t' resp h =
      delete_profile_tx-IsWrite _ t t' resp (with_client_ok _ t resp t' h)
