-- ===== src/Document/Profile.antt =====
-- repositories/activity-profile.ts and repositories/agent-profile.ts. The two tables have one
-- shape: a profile id and its owner, an activity IRI or an agent IFI, are UNIQUE together.
pub mod Routes
pub mod Table
pub mod Refine
use xapi_lrs.Prelude.{
  String, Bool, ◌&&◌, Option, none, some, List, [], ◌∷◌, ◌++◌, map, ◌==◌, any, keep, first, read,
  update, not, if◌then◌else◌,
}
use xapi_lrs.Http.{ok, ◌>>=◌}
use xapi_lrs.Platform.{Platform}
use xapi_lrs.Document.{DocumentRow, Tx, modified_after, bind_since}

pub record ProfileKey : Type 0 where
  pub profile_id : String
  pub owner : String

pub record ProfileRow (p : Platform) : Type 0 where
  pub profile_id : String
  pub owner : String
  pub document : DocumentRow p

abbrev pub ProfileTable : Platform → Type 0
ProfileTable p = List (ProfileRow p)

module _ (p : Platform) where
  -- `profile_id = $1 AND activity_iri = $2`
  abbrev pub is_at : ProfileKey → ProfileRow p → Bool
  is_at k row = row.profile_id == k.profile_id && row.owner == k.owner

  abbrev pub new_profile : ProfileKey → DocumentRow p → ProfileRow p
  new_profile k d = record { profile_id = k.profile_id; owner = k.owner; document = d }

  -- INSERT ... ON CONFLICT (profile_id, activity_iri) DO UPDATE
  unfoldable pub upsert_profile : ProfileKey → DocumentRow p → ProfileTable p → ProfileTable p
  upsert_profile k d t =
      if any (is_at k) t
      then update (is_at k) (λ row. record row { document = d }) t
      else t ++ new_profile k d ∷ []

  unfoldable pub get_profile : ProfileKey → ProfileTable p → Option (DocumentRow p)
  get_profile k t = read (λ row. row.document) (first (is_at k) t)

  unfoldable pub list_profile_ids : String → Option String → Tx (ProfileTable p) (List String)
  list_profile_ids owner since t = do
    after ← bind_since p since
    ok (
      map (λ row. row.profile_id)
          (keep (λ row. row.owner == owner && modified_after p after row.document) t),
      t,
    )

  unfoldable pub delete_profile : ProfileKey → ProfileTable p → ProfileTable p
  delete_profile k t = keep (λ row. not (is_at k row)) t
