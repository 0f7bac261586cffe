-- ===== src/Statement/Store.antt =====
-- repositories/statements.ts: inserting, reading and voiding. A statement of SQL is the function
-- of the tables that it denotes; the random `id` columns that no query reads are left out.
pub mod Laws
use xapi_lrs.Prelude.{
  ℕ, suc, String, Bool, true, false, not, ◌&&◌, ◌||◌, Option, none, some, List, [], ◌∷◌, ◌++◌, map,
  ◌==◌, any, keep, first, update, contains, or_else, if◌then◌else◌,
}
use xapi_lrs.Http.{Result, ok, err, other, ◌>>=◌, ◌>>◌}
use xapi_lrs.Json.{Json, Fields, get, str, truthy, is_text, display, display_option}
use xapi_lrs.Platform.{Platform}
use xapi_lrs.Agent.{ActorType}
use xapi_lrs.Document.{Tx}
use xapi_lrs.Statement.Decompose.{
  ActorEntry, ActivityEntry, type_text, build_payload, extract_actors, extract_activities,
  read_prop,
}

-- a row of xapi_statement; `id` is the SQUUID by which pages are ordered, and times are in
-- milliseconds
pub record StatementRow : Type 0 where
  pub id : ℕ
  pub statement_id : String
  pub registration : Option String
  pub verb_iri : String
  pub is_voided : Bool
  pub payload : Fields
  pub timestamp : Option ℕ
  pub stored : ℕ

pub record ActorRow : Type 0 where
  pub actor_ifi : String
  pub actor_type : ActorType
  pub payload : Fields

pub record ActivityRow : Type 0 where
  pub activity_iri : String
  pub payload : Json

pub record ActorLink : Type 0 where
  pub statement_id : String
  pub usage : String
  pub actor_ifi : String
  pub actor_type : ActorType

pub record ActivityLink : Type 0 where
  pub statement_id : String
  pub usage : String
  pub activity_iri : String

pub record StatementLink : Type 0 where
  pub ancestor_id : String
  pub descendant_id : String

pub record StatementDb : Type 0 where
  pub statements : List StatementRow
  pub actors : List ActorRow
  pub activities : List ActivityRow
  pub statement_to_actor : List ActorLink
  pub statement_to_activity : List ActivityLink
  pub statement_to_statement : List StatementLink

abbrev pub has_id : String → StatementRow → Bool
has_id id row = row.statement_id == id

-- SELECT_STATEMENT_BY_ID, on a bound uuid
abbrev pub statement_at : String → StatementDb → Option StatementRow
statement_at id db = first (has_id id) db.statements

abbrev pub cast_result : Option String → Result String
cast_result none = err other
cast_result (some u) = ok u

-- a parameter bound to a uuid column: a text that is no uuid fails the query
abbrev pub as_uuid : Platform → String → Result String
as_uuid p s = cast_result (p.pg_uuid s)

-- `getStatementById`
unfoldable pub get_statement_by_id : Platform → String → Tx StatementDb (Option StatementRow)
get_statement_by_id p id db = do u ← as_uuid p id; ok (statement_at u db, db)

abbrev pub same_actor : ActorEntry → ActorRow → Bool
same_actor a row = row.actor_ifi == a.ifi && type_text row.actor_type == type_text a.type

-- BATCH_UPSERT_ACTORS: an actor that is there keeps its payload
abbrev pub upsert_actor : List ActorRow → ActorEntry → List ActorRow
upsert_actor t a =
    if any (same_actor a) t
    then t
    else t ++ record { actor_ifi = a.ifi; actor_type = a.type; payload = a.payload } ∷ []

unfoldable pub upsert_actors : List ActorRow → List ActorEntry → List ActorRow
upsert_actors t [] = t
upsert_actors t (a ∷ rest) = upsert_actors (upsert_actor t a) rest

abbrev pub link_actor : String → ActorEntry → ActorLink
link_actor id a = record {
  statement_id = id;
  usage = a.usage;
  actor_ifi = a.ifi;
  actor_type = a.type;
}

-- BATCH_UPSERT_ACTIVITIES: of the entries with one IRI the first is taken (DISTINCT ON), and an
-- activity that is there takes its payload
abbrev pub is_activity_at : String → ActivityRow → Bool
is_activity_at iri row = row.activity_iri == iri

abbrev pub upsert_activity : List ActivityRow → ActivityEntry → List ActivityRow
upsert_activity t a =
    if any (is_activity_at (display a.iri)) t
    then update (is_activity_at (display a.iri)) (λ row. record row { payload = a.payload }) t
    else t ++ record { activity_iri = display a.iri; payload = a.payload } ∷ []

unfoldable pub upsert_activities :
    List String → List ActivityRow → List ActivityEntry → List ActivityRow
upsert_activities seen t [] = t
upsert_activities seen t (a ∷ rest) =
    upsert_activities (display a.iri ∷ seen)
      (if contains seen (display a.iri) then t else upsert_activity t a) rest

abbrev pub link_activity : String → ActivityEntry → ActivityLink
link_activity id a = record { statement_id = id; usage = a.usage; activity_iri = display a.iri }

-- INSERT_STATEMENT_TO_STATEMENT: the target, if it is stored, and the target's own descendants,
-- each once (UNION)
abbrev pub descendants : String → StatementDb → List String
descendants id db =
    map (λ (l : StatementLink). l.descendant_id)
      (keep (λ (l : StatementLink). l.ancestor_id == id) db.statement_to_statement)

unfoldable pub distinct_texts : List String → List String → List String
distinct_texts seen [] = []
distinct_texts seen (x ∷ xs) =
    let rest = distinct_texts (x ∷ seen) xs in if contains seen x then rest else x ∷ rest

abbrev pub linked_targets : String → StatementDb → List String
linked_targets target db =
    distinct_texts []
      ((if any (has_id target) db.statements then target ∷ [] else []) ++ descendants target db)

abbrev pub link_statements : String → String → StatementDb → List StatementLink
link_statements id target db =
    map (λ d. record { ancestor_id = id; descendant_id = d }) (linked_targets target db)

-- `(v as string) ?? ''`
abbrev pub text_or_empty : Option Json → String
text_or_empty none = ""
text_or_empty (some Json.null) = ""
text_or_empty (some v) = display v

-- the statement row of INSERT_XAPI_STATEMENT
abbrev pub statement_row :
    (row_id : ℕ) (id : String) (registration : Option String) (payload : Fields)
    (timestamp : Option ℕ) (stored : ℕ)
    → StatementRow
statement_row row_id id registration payload timestamp stored = record {
  id = row_id;
  statement_id = id;
  registration = registration;
  verb_iri = text_or_empty (read_prop "id" (get "verb" payload));
  is_voided = false;
  payload = payload;
  timestamp = timestamp;
  stored = stored;
}

-- what `insertStatement` reports
pub record InsertStatementResult : Type 0 where
  pub inserted : Bool
  pub id : String
  pub statement_id : String

-- the link of a StatementRef
abbrev pub reference_of : Fields → Option Json
reference_of payload =
    if is_text (read_prop "objectType" (get "object" payload)) "StatementRef"
      && truthy (read_prop "id" (get "object" payload))
    then read_prop "id" (get "object" payload)
    else none

-- a parameter that is bound to a uuid column, NULL where it is undefined or null
abbrev pub uuid_or_null : Platform → Option Json → Result (Option String)
uuid_or_null p none = ok none
uuid_or_null p (some Json.null) = ok none
uuid_or_null p (some v) = do u ← as_uuid p (display v); ok (some u)

abbrev pub cast_bits : Option ℕ → Result ℕ
cast_bits none = err other
cast_bits (some n) = ok n

-- a parameter bound to a timestamptz column: a text that is no timestamp fails the query
abbrev pub cast_time : Option ℕ → Result (Option ℕ)
cast_time none = err other
cast_time (some t) = ok (some t)

abbrev pub timestamp_or_null : Platform → Option Json → Result (Option ℕ)
timestamp_or_null p none = ok none
timestamp_or_null p (some Json.null) = ok none
timestamp_or_null p (some v) = cast_time (p.pg_timestamp (display v))

module _ (p : Platform) where
  abbrev pub with_actors : String → List ActorEntry → StatementDb → StatementDb
  with_actors id entries db = record db {
    actors = upsert_actors db.actors entries;
    statement_to_actor = db.statement_to_actor ++ map (link_actor id) entries;
  }

  abbrev pub with_activities : String → List ActivityEntry → StatementDb → StatementDb
  with_activities id entries db = record db {
    activities = upsert_activities [] db.activities entries;
    statement_to_activity = db.statement_to_activity ++ map (link_activity id) entries;
  }

  abbrev pub with_reference : String → Option Json → StatementDb → Result StatementDb
  with_reference id none db = ok db
  with_reference id (some v) db = do
    target ← as_uuid p (display v)
    ok (record db {
      statement_to_statement = db.statement_to_statement ++ link_statements id target db;
    })

  -- what follows the insertion of the row: the decomposition into the other tables
  unfoldable pub insert_dependents : String → Fields → StatementDb → Result StatementDb
  insert_dependents id payload db = do
    activities ← extract_activities payload
    with_reference id (reference_of payload)
        (with_activities id activities (with_actors id (extract_actors p payload) db))

  -- `insertStatement`; `squuid` is the text of the row's id, and `iso` that of the stored time
  unfoldable pub insert_statement :
      (squuid : String) (iso : String) (stored : ℕ)
      → Fields
      → Fields
      → Tx StatementDb InsertStatementResult
  insert_statement squuid iso stored statement authority db = do
    let sent_id = display_option (get "id" statement)
    row_id ← cast_bits (p.pg_uuid_bits squuid)
    id ← as_uuid p sent_id
    let payload = build_payload statement iso authority
    registration ← uuid_or_null p (read_prop "registration" (get "context" statement))
    timestamp ← timestamp_or_null p (get "timestamp" payload)
    if any (has_id id) db.statements
        then ok (record { inserted = false; id = squuid; statement_id = sent_id }, db)
        else (do
          db' ← insert_dependents id payload (record db {
            statements =
                db.statements ++ statement_row row_id id registration payload timestamp stored ∷ [];
          })
          ok (record { inserted = true; id = squuid; statement_id = sent_id }, db'))

  -- `insertStatements`; `squuids` gives the row ids in turn
  unfoldable pub insert_statements :
      (squuids : ℕ → String) (iso : String) (stored : ℕ)
      → ℕ
      → List Fields
      → Fields
      → Tx StatementDb (List InsertStatementResult)
  insert_statements squuids iso stored i [] authority db = ok ([], db)
  insert_statements squuids iso stored i (stmt ∷ rest) authority db =
      insert_statement (squuids i) iso stored stmt authority db >>= λ first. do
        (later, db') ← insert_statements squuids iso stored (suc i) rest authority first.1
        ok (first.0 ∷ later, db')

-- VOID_STATEMENT
unfoldable pub void_rows : String → StatementDb → StatementDb
void_rows id db = record db {
  statements =
      update (λ row. has_id id row && not row.is_voided) (λ row. record row { is_voided = true })
        db.statements;
}

-- `voidStatement`
unfoldable pub void_statement : Platform → String → Tx StatementDb Bool
unfolding void_rows
void_statement p id db = do
  u ← as_uuid p id
  ok (any (λ row. has_id u row && not row.is_voided) db.statements, void_rows u db)
