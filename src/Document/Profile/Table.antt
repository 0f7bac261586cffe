-- ===== src/Document/Profile/Table.antt =====
-- The profile tables under the queries: what a key reads after an upsert or a deletion.
use xapi_lrs.Prelude.{
  ◌≡◌, refl, Bool, true, ◌&&◌, none, some, ◌==◌, eq_iff, any, first-update, first-append,
  first-delete, arith, Bool-cases, inl, inr, if◌then◌else◌,
}
use xapi_lrs.Platform.{Platform}
use xapi_lrs.Document.{DocumentRow}
use xapi_lrs.Document.Profile.{
  ProfileKey, ProfileRow, ProfileTable, is_at, new_profile, upsert_profile, get_profile,
  delete_profile,
}

-- One key names the profiles of another.
abbrev pub same_profile : ProfileKey → ProfileKey → Bool
same_profile k j = k.profile_id == j.profile_id && k.owner == j.owner

module _ (p : Platform) (k j : ProfileKey) where
  is_at_meet : (row : ProfileRow p) → is_at p k row ≡ true → is_at p j row ≡ same_profile k j
  is_at_meet row h = ground (arith, eq_iff row.profile_id k.profile_id, eq_iff row.owner k.owner)

  is_at_meet_other : (row : ProfileRow p) → is_at p j row ≡ true → is_at p k row ≡ same_profile k j
  is_at_meet_other row h = ground (
    arith,
    eq_iff row.profile_id j.profile_id,
    eq_iff row.owner j.owner,
    eq_iff k.profile_id j.profile_id,
    eq_iff k.owner j.owner,
    eq_iff row.profile_id k.profile_id,
    eq_iff row.owner k.owner,
  )

  -- After an upsert a key reads the new document if it is the same key, and what it read before
  -- otherwise.
  pub get_profile-upsert_profile :
      (d : DocumentRow p) (t : ProfileTable p)
      → get_profile p j (upsert_profile p k d t)
        ≡ (if same_profile k j then some d else get_profile p j t)
  unfolding get_profile upsert_profile
  get_profile-upsert_profile d t = elim (Bool-cases (any (is_at p k) t)) [
    | inl found ↦ rw found (
        rw
          (
            first-update (is_at p k) (is_at p j) (same_profile k j) (λ row. row.document)
                (λ row. record row { document = d }) d (λ row. refl) is_at_meet is_at_meet
                is_at_meet_other t,
            found,
          )
          (ground arith))
    | inr missing ↦ rw missing (
        first-append (is_at p k) (is_at p j) (same_profile k j) (λ row. row.document)
          (new_profile p k d) refl is_at_meet_other t missing)
  ]

  -- After a deletion a key reads nothing if it is the same key, and what it read before otherwise.
  pub get_profile-delete_profile :
      (t : ProfileTable p)
      → get_profile p j (delete_profile p k t)
        ≡ (if same_profile k j then none else get_profile p j t)
  unfolding get_profile delete_profile
  get_profile-delete_profile t =
      first-delete (is_at p k) (is_at p j) (same_profile k j) (λ (row : ProfileRow p). row.document)
        is_at_meet is_at_meet_other t
