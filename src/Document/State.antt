-- ===== src/Document/State.antt =====
-- repositories/activity-state.ts over the table state_document. A statement of SQL is the function
-- of the table that it denotes; the random column `id`, which no query reads, is left out.
pub mod Routes
pub mod Table
pub mod Unique
pub mod Concurrency
pub mod RoundTrip
pub mod Merge
pub mod Delete
use xapi_lrs.Prelude.{
  ℕ, String, Bool, true, false, ◌&&◌, ◌||◌, Option, none, some, List, [], ◌∷◌, ◌++◌, map, ◌==◌, ltb,
  any, keep, first, read, update, length, not, if◌then◌else◌,
}
use xapi_lrs.Http.{Result, ok, err, other, ◌>>=◌}
use xapi_lrs.Platform.{Platform}
use xapi_lrs.Document.{DocumentRow, Tx, modified_after, bind_since}

-- the parameters that name a document; the column `registration` is a uuid or NULL
pub record StateKey : Type 0 where
  pub state_id : String
  pub activity_iri : String
  pub agent_ifi : String
  pub registration : Option String

pub record StateRow (p : Platform) : Type 0 where
  pub state_id : String
  pub activity_iri : String
  pub agent_ifi : String
  pub registration : Option String
  pub document : DocumentRow p

abbrev pub StateTable : Platform → Type 0
StateTable p = List (StateRow p)

-- a parameter bound to a uuid: a text that is no uuid fails the query
abbrev pub bind_uuid : Platform → Option String → Result (Option String)
bind_uuid p none = ok none
bind_uuid p (some s) = elim (p.pg_uuid s) [ none ↦ err other | some u ↦ ok (some u) ]

-- SQL's `=`, which is not true where a side is NULL, and `IS NOT DISTINCT FROM`
abbrev pub sql_eq : Option String → Option String → Bool
sql_eq (some a) (some b) = a == b
sql_eq _ _ = false

abbrev pub is_null : Option String → Bool
is_null none = true
is_null (some _) = false

abbrev pub is_not_distinct : Option String → Option String → Bool
is_not_distinct none none = true
is_not_distinct (some a) (some b) = a == b
is_not_distinct _ _ = false

module _ (p : Platform) where
  abbrev pub same_owner : String → String → StateRow p → Bool
  same_owner activity agent row = row.activity_iri == activity && row.agent_ifi == agent

  -- the WHERE clause of UPDATE_STATE_DOCUMENT
  abbrev pub updates : StateKey → StateRow p → Bool
  updates k row =
      row.state_id == k.state_id
      && (same_owner k.activity_iri k.agent_ifi row
          && is_not_distinct row.registration k.registration)

  -- `registration = $n OR ($n IS NULL AND registration IS NULL)`
  abbrev pub in_registration : Option String → StateRow p → Bool
  in_registration reg row = sql_eq row.registration reg || (is_null reg && is_null row.registration)

  -- the WHERE clause of SELECT_STATE_DOCUMENT and DELETE_STATE_DOCUMENT
  abbrev pub selects : StateKey → StateRow p → Bool
  selects k row =
      row.state_id == k.state_id
      && (same_owner k.activity_iri k.agent_ifi row && in_registration k.registration row)

  -- the WHERE clause of SELECT_STATE_IDS and DELETE_STATE_DOCUMENTS
  abbrev pub listed : String → String → Option String → Option ℕ → StateRow p → Bool
  listed activity agent reg since row =
      same_owner activity agent row
      && (in_registration reg row && modified_after p since row.document)

  -- UPDATE_STATE_DOCUMENT: the number of rows, and the table
  pub update_rows : StateKey → DocumentRow p → StateTable p → ℕ × StateTable p
  update_rows k d t =
      (length (keep (updates k) t), update (updates k) (λ row. record row { document = d }) t)

  abbrev pub new_row : StateKey → DocumentRow p → StateRow p
  new_row k d = record {
    state_id = k.state_id;
    activity_iri = k.activity_iri;
    agent_ifi = k.agent_ifi;
    registration = k.registration;
    document = d;
  }

  -- the index UNIQUE (state_id, activity_iri, agent_ifi, registration), for which NULLs differ
  abbrev pub conflicts : StateKey → StateRow p → Bool
  conflicts k row =
      row.state_id == k.state_id
      && (same_owner k.activity_iri k.agent_ifi row && sql_eq row.registration k.registration)

  -- INSERT_STATE_DOCUMENT; `none` is a unique violation
  abbrev pub insert_row : StateKey → DocumentRow p → StateTable p → Option (StateTable p)
  insert_row k d t = if any (conflicts k) t then none else some (t ++ new_row k d ∷ [])

  -- What other transactions commit while an upsert runs: before its INSERT and before its retry.
  pub record Others : Type 0 where
    pub before_insert : StateTable p → StateTable p
    pub before_retry : StateTable p → StateTable p

  abbrev pub alone : Others
  alone = record { before_insert = λ t. t; before_retry = λ t. t }

  -- the catch of a unique violation: ROLLBACK TO SAVEPOINT, and the UPDATE once more
  abbrev pub or_retry :
      Others → StateKey → DocumentRow p → StateTable p → Option (StateTable p) → StateTable p
  or_retry others k d t (some t') = t'
  or_retry others k d t none = (update_rows k d (others.before_retry t)).1

  -- `upsertStateDocument` after its parameters are bound: UPDATE, and INSERT where no row matched
  unfoldable pub upsert_rows : Others → StateKey → DocumentRow p → StateTable p → StateTable p
  unfolding update_rows
  upsert_rows others k d t =
      if ltb 0 (update_rows k d t).0
      then (update_rows k d t).1
      else (let seen = others.before_insert (update_rows k d t).1 in
          or_retry others k d seen (insert_row k d seen))

  abbrev pub bind_key : StateKey → Result StateKey
  bind_key k = do reg ← bind_uuid p k.registration; ok (record k { registration = reg })

  unfoldable pub upsert_state_document :
      Others → StateKey → DocumentRow p → Tx (StateTable p) (Unit {0})
  unfolding upsert_rows
  upsert_state_document others k d t = do bound ← bind_key k; ok (tt, upsert_rows others bound d t)

  unfoldable pub get_state_document : StateKey → Tx (StateTable p) (Option (DocumentRow p))
  get_state_document k t = do
    bound ← bind_key k
    ok (read (λ row. row.document) (first (selects bound) t), t)

  unfoldable pub list_state_ids :
      String → String → Option String → Option String → Tx (StateTable p) (List String)
  list_state_ids activity agent registration since t = do
    reg ← bind_uuid p registration
    after ← bind_since p since
    ok (map (λ row. row.state_id) (keep (listed activity agent reg after) t), t)

  unfoldable pub delete_state_document : StateKey → Tx (StateTable p) (Unit {0})
  delete_state_document k t = do
    bound ← bind_key k
    ok (tt, keep (λ row. not (selects bound row)) t)

  unfoldable pub delete_all_state_documents :
      String → String → Option String → Option String → Tx (StateTable p) (Unit {0})
  delete_all_state_documents activity agent registration since t = do
    reg ← bind_uuid p registration
    after ← bind_since p since
    ok (tt, keep (λ row. not (listed activity agent reg after row)) t)
