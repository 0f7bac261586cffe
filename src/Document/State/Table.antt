-- ===== src/Document/State/Table.antt =====
-- The table state_document under the queries: what a key reads after an upsert or a deletion, and
-- the uniqueness that its index enforces.
use xapi_lrs.Prelude.{
  String, ◌≡◌, refl, sym, ◌∙◌, keep, not, Bool, true, false, ◌&&◌, ◌||◌, Option, none, some, ◌==◌,
  eq_iff, eq_refl, any, first, read, [], ◌∷◌, ◌++◌, ltb-length-keep, first-update, first-append,
  first-delete, update_none, any_weaken, arith, Bool-cases, inl, inr, if◌then◌else◌,
}
use xapi_lrs.Platform.{Platform}
use xapi_lrs.Document.{DocumentRow}
use xapi_lrs.Document.State.{
  StateKey, StateRow, StateTable, is_null, sql_eq, is_not_distinct, updates, selects, conflicts,
  new_row, update_rows, upsert_rows, alone,
}

-- One key names the documents of another: the registrations are equal or both absent.
abbrev pub same_key : StateKey → StateKey → Bool
same_key k j =
    k.state_id == j.state_id
    && (k.activity_iri == j.activity_iri
        && (k.agent_ifi == j.agent_ifi && is_not_distinct k.registration j.registration))

is_not_distinct_refl : (a : Option String) → is_not_distinct a a ≡ true
is_not_distinct_refl none = refl
is_not_distinct_refl (some a) = eq_refl a

pub same_key_refl : (k : StateKey) → same_key k k ≡ true
same_key_refl k =
    rw
      (
        eq_refl k.state_id,
        eq_refl k.activity_iri,
        eq_refl k.agent_ifi,
        is_not_distinct_refl k.registration,
      )
      refl

-- what a SELECT by key finds
abbrev pub at_key : (p : Platform) → StateKey → StateTable p → Option (DocumentRow p)
at_key p k t = read (λ (row : StateRow p). row.document) (first (selects p k) t)

-- the two ways in which the queries compare registrations are one
same_registration :
    (a b : Option String) → (sql_eq a b || (is_null b && is_null a)) ≡ is_not_distinct a b
same_registration none none = refl
same_registration none (some b) = refl
same_registration (some a) none = refl
same_registration (some a) (some b) = ground arith

registration_trans :
    (a k j : Option String)
    → is_not_distinct a k ≡ true
    → (sql_eq a j || (is_null j && is_null a)) ≡ is_not_distinct k j
registration_trans none none none h = refl
registration_trans none none (some j) h = refl
registration_trans none (some k) j h = cc
registration_trans (some a) none j h = cc
registration_trans (some a) (some k) none h = refl
registration_trans (some a) (some k) (some j) h = ground (arith, eq_iff a k)

-- two registrations that one row meets are equal
registration_meet :
    (a k j : Option String)
    → (sql_eq a j || (is_null j && is_null a)) ≡ true
    → is_not_distinct a k ≡ is_not_distinct k j
registration_meet none none none h = refl
registration_meet none (some k) none h = refl
registration_meet none k (some j) h = cc
registration_meet (some a) k none h = cc
registration_meet (some a) none (some j) h = refl
registration_meet (some a) (some k) (some j) h = ground (arith, eq_iff a k, eq_iff k j, eq_iff a j)

eq_of_sql_eq : (a b : Option String) → sql_eq a b ≡ true → is_not_distinct a b ≡ true
eq_of_sql_eq (some a) (some b) h = h
eq_of_sql_eq none b h = cc
eq_of_sql_eq (some a) none h = cc

module _ (p : Platform) (k : StateKey) where
  updates-eq-selects : (row : StateRow p) → updates p k row ≡ selects p k row
  updates-eq-selects row = rw (sym (same_registration row.registration k.registration)) refl

  selects_of_updates :
      (j : StateKey) (row : StateRow p) → updates p k row ≡ true → selects p j row ≡ same_key k j
  selects_of_updates j row h = ground (
    arith,
    eq_iff row.state_id k.state_id,
    eq_iff row.activity_iri k.activity_iri,
    eq_iff row.agent_ifi k.agent_ifi,
    registration_trans row.registration k.registration j.registration,
  )

  updates_of_selects :
      (j : StateKey) (row : StateRow p) → selects p j row ≡ true → updates p k row ≡ same_key k j
  updates_of_selects j row h = ground (
    arith,
    eq_iff row.state_id k.state_id,
    eq_iff row.activity_iri k.activity_iri,
    eq_iff row.agent_ifi k.agent_ifi,
    eq_iff row.state_id j.state_id,
    eq_iff row.activity_iri j.activity_iri,
    eq_iff row.agent_ifi j.agent_ifi,
    eq_iff k.state_id j.state_id,
    eq_iff k.activity_iri j.activity_iri,
    eq_iff k.agent_ifi j.agent_ifi,
    registration_meet row.registration k.registration j.registration,
  )

  new_row-selected : (j : StateKey) (d : DocumentRow p) → selects p j (new_row p k d) ≡ same_key k j
  new_row-selected j d = ground (arith, same_registration k.registration j.registration)

  updates_of_conflicts : (row : StateRow p) → conflicts p k row ≡ true → updates p k row ≡ true
  updates_of_conflicts row h = ground (arith, eq_of_sql_eq row.registration k.registration)

  module _ (d : DocumentRow p) (j : StateKey) (t : StateTable p) where
    -- the UPDATE found the row
    pub at_key-update_rows :
        any (updates p k) t ≡ true
        → at_key p j (update_rows p k d t).1 ≡ (if same_key k j then some d else at_key p j t)
    unfolding update_rows
    at_key-update_rows found =
        rw
          (
            first-update (updates p k) (selects p j) (same_key k j) (λ row. row.document)
                (λ row. record row { document = d }) d (λ row. refl) (selects_of_updates j)
                (selects_of_updates j) (updates_of_selects j) t,
            found,
          )
          (ground arith)

    upsert_found :
        any (updates p k) t ≡ true
        → at_key p j (upsert_rows p (alone p) k d t)
          ≡ (if same_key k j then some d else at_key p j t)
    unfolding upsert_rows
    upsert_found found = rw (ltb-length-keep (updates p k) t, found) (at_key-update_rows found)

    -- the INSERT, where no row has the key
    pub at_key-append :
        any (updates p k) t ≡ false
        → at_key p j (t ++ new_row p k d ∷ []) ≡ (if same_key k j then some d else at_key p j t)
    at_key-append missing =
        first-append (updates p k) (selects p j) (same_key k j) (λ row. row.document)
          (new_row p k d) (new_row-selected j d) (updates_of_selects j) t missing

    -- the UPDATE found none, so that no row conflicts with the INSERT
    upsert_missing :
        any (updates p k) t ≡ false
        → at_key p j (upsert_rows p (alone p) k d t)
          ≡ (if same_key k j then some d else at_key p j t)
    unfolding upsert_rows
    upsert_missing missing =
        rw
          (
            ltb-length-keep (updates p k) t,
            missing,
            update_none (updates p k) (λ row. record row { document = d }) t missing,
            any_weaken (updates p k) (conflicts p k) updates_of_conflicts t missing,
          )
          (at_key-append missing)

    -- After an upsert that nothing interrupts, a key reads the new document if it is the same key,
    -- and what it read before otherwise.
    pub at_key-upsert_rows :
        at_key p j (upsert_rows p (alone p) k d t) ≡ (if same_key k j then some d else at_key p j t)
    at_key-upsert_rows = elim (Bool-cases (any (updates p k) t)) [
      | inl found ↦ upsert_found found
      | inr missing ↦ upsert_missing missing
    ]

  -- After a deletion a key reads nothing if it is the same key, and what it read before otherwise.
  pub at_key-delete :
      (j : StateKey) (t : StateTable p)
      → at_key p j (keep (λ row. not (selects p k row)) t)
        ≡ (if same_key k j then none else at_key p j t)
  at_key-delete j t =
      first-delete (selects p k) (selects p j) (same_key k j) (λ (row : StateRow p). row.document)
        (λ row h. selects_of_updates j row (updates-eq-selects row ∙ h))
        (λ row h. sym (updates-eq-selects row) ∙ updates_of_selects j row h) t
