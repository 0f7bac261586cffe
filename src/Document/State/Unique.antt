-- ===== src/Document/State/Unique.antt =====
-- Registration-scoped state documents and the unique index, with what other transactions commit
-- between the statements of an upsert.
use xapi_lrs.Prelude.{
  String, ◌≡◌, refl, ◌≤◌, true, false, Option, none, some, [], ◌∷◌, ◌++◌, eq_iff, any, keep, length,
  ltb-length-keep, ◌∙◌, arith, Bool-cases, inl, inr, any_weaken, length-keep-update,
  length-keep-append, length-keep_none,
}
use xapi_lrs.Platform.{Platform}
use xapi_lrs.Document.{DocumentRow}
use xapi_lrs.Document.State.{
  StateKey, StateRow, StateTable, sql_eq, is_not_distinct, conflicts, updates, new_row, insert_row,
  update_rows, upsert_rows, Others, or_retry,
}
use xapi_lrs.Document.State.Table.{same_key_refl, at_key, at_key-update_rows, at_key-append}

-- What the index UNIQUE (state_id, activity_iri, agent_ifi, registration) enforces.
abbrev pub IsUnique : (p : Platform) → StateTable p → Type 0
IsUnique p t = (j : StateKey) → length (keep (conflicts p j) t) ≤ 1

-- Other transactions keep the index's promise.
pub record KeepUnique (p : Platform) (others : Others p) : Type 0 where
  pub before_insert : (t : StateTable p) → IsUnique p t → IsUnique p (others.before_insert t)
  pub before_retry : (t : StateTable p) → IsUnique p t → IsUnique p (others.before_retry t)

sql_eq_meet : (a k j : Option String) → sql_eq a j ≡ true → sql_eq k j ≡ true → sql_eq a k ≡ true
sql_eq_meet (some a) (some k) (some j) h g = ground (arith, eq_iff a j, eq_iff k j, eq_iff a k)
sql_eq_meet none k j h g = cc
sql_eq_meet (some a) none j h g = cc
sql_eq_meet (some a) (some k) none h g = cc

sql_eq_of_eq :
    (a b : Option String) {reg : String}
    → b ≡ some reg
    → is_not_distinct a b ≡ true
    → sql_eq a b ≡ true
sql_eq_of_eq a none at h = cc
sql_eq_of_eq none (some b) at h = h
sql_eq_of_eq (some a) (some b) at h = h

module _ (p : Platform) (k : StateKey) (d : DocumentRow p) where
  -- a row that conflicts where the new row does, conflicts with it
  conflicts_meet :
      (j : StateKey)
      → conflicts p j (new_row p k d) ≡ true
      → (row : StateRow p) → conflicts p j row ≡ true
      → conflicts p k row ≡ true
  conflicts_meet j h row g = ground (
    arith,
    eq_iff row.state_id k.state_id,
    eq_iff row.activity_iri k.activity_iri,
    eq_iff row.agent_ifi k.agent_ifi,
    eq_iff row.state_id j.state_id,
    eq_iff row.activity_iri j.activity_iri,
    eq_iff row.agent_ifi j.agent_ifi,
    eq_iff k.state_id j.state_id,
    eq_iff k.activity_iri j.activity_iri,
    eq_iff k.agent_ifi j.agent_ifi,
    sql_eq_meet row.registration k.registration j.registration,
  )

  update_rows-IsUnique : (t : StateTable p) → IsUnique p t → IsUnique p (update_rows p k d t).1
  unfolding update_rows
  update_rows-IsUnique t u j =
      rw
        (length-keep-update (conflicts p j) (updates p k) (λ row. record row { document = d })
          (λ row. refl) t)
        (u j)

  append-IsUnique :
      (t : StateTable p)
      → any (conflicts p k) t ≡ false
      → IsUnique p t
      → IsUnique p (t ++ new_row p k d ∷ [])
  append-IsUnique t fresh u j =
      rw (length-keep-append (conflicts p j) (new_row p k d) t)
        (elim (Bool-cases (conflicts p j (new_row p k d))) [
          | inl same ↦
              rw
                (
                  same,
                  length-keep_none (conflicts p j) t
                      (any_weaken (conflicts p k) (conflicts p j) (conflicts_meet j same) t fresh),
                )
                (omega arith)
          | inr other ↦ let h = u j in rw other (omega arith)
        ])

  -- with a registration, the row that an UPDATE looks for is one that conflicts
  conflicts_of_updates :
      {reg : String}
      → k.registration ≡ some reg
      → (row : StateRow p) → updates p k row ≡ true
      → conflicts p k row ≡ true
  conflicts_of_updates at row h = ground (arith, sql_eq_of_eq row.registration k.registration at)

  -- What an upsert is for: its key reads the document, and no key has two.
  abbrev pub IsWritten : StateTable p → Type 0
  IsWritten t = IsUnique p t × (at_key p k t ≡ some d)

  module _ (others : Others p) (keeps : KeepUnique p others)
      (visible : (t : StateTable p)
        → any (conflicts p k) t ≡ true
        → any (updates p k) (others.before_retry t) ≡ true)
      {reg : String} (registered : k.registration ≡ some reg) where
    insert-IsWritten :
        (t : StateTable p) → IsUnique p t → IsWritten (or_retry p others k d t (insert_row p k d t))
    insert-IsWritten t u = elim (Bool-cases (any (conflicts p k) t)) [
      | inl taken ↦ rw taken (
        update_rows-IsUnique (others.before_retry t) (keeps.before_retry t u),
        at_key-update_rows p k d k (others.before_retry t) (visible t taken)
            ∙ rw (same_key_refl k) refl,
      )
      | inr fresh ↦ rw fresh (
        append-IsUnique t fresh u,
        at_key-append p k d k t
              (any_weaken (conflicts p k) (updates p k) (conflicts_of_updates registered) t fresh)
            ∙ rw (same_key_refl k) refl,
      )
    ]

    -- Whatever other transactions commit between its statements, an upsert at a key with a
    -- registration ends with the key reading the document, and leaves at most one document for each
    -- key. The other transactions are assumed to leave at most one too, and not to delete, before
    -- the retry, the row that the INSERT met.
    pub upsert_rows-IsUnique :
        (t : StateTable p) → IsUnique p t → IsWritten (upsert_rows p others k d t)
    unfolding upsert_rows
    upsert_rows-IsUnique t u = elim (Bool-cases (any (updates p k) t)) [
      | inl found ↦
          rw (ltb-length-keep (updates p k) t, found)
            (
              update_rows-IsUnique t u,
              at_key-update_rows p k d k t found ∙ rw (same_key_refl k) refl,
            )
      | inr missing ↦
          rw (ltb-length-keep (updates p k) t, missing)
            (insert-IsWritten (others.before_insert (update_rows p k d t).1)
              (keeps.before_insert (update_rows p k d t).1 (update_rows-IsUnique t u)))
    ]
