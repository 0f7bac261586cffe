-- ===== src/Statement/Activity/Laws.antt =====
-- Nothing that a statement says of an activity is left out of its definition.
use xapi_lrs.Prelude.{
  String, ◌≡◌, refl, ◌∙◌, subst, Option, none, some, List, [], ◌∷◌, ◌++◌, ◌==◌, eq_iff, eq_refl,
  Bool-cases, inl, inr,
}
use xapi_lrs.Json.{Json, Fields, obj, end, field, get, put}
use xapi_lrs.Json.Laws.{get-put}
use xapi_lrs.Statement.Activity.{
  object_payloads, over, merge_definition, definition_of, merge_option, merge_all, with_definition,
  fields_from, get_activity_definition,
}
use xapi_lrs.Statement.Store.{StatementDb}

abbrev pub HasField : String → Fields → Type 0
HasField k fs = (w : Json) × (get k fs ≡ some w)

HasField-put : (k j : String) (v : Json) (fs : Fields) → HasField j fs → HasField j (put k v fs)
HasField-put k j v fs (w, e) = elim (Bool-cases (k == j)) [
  | inl same ↦ (v, get-put k j v fs ∙ rw same refl)
  | inr apart ↦ (w, get-put k j v fs ∙ rw apart e)
]

HasField-put_here : (k : String) (v : Json) (fs : Fields) → HasField k (put k v fs)
HasField-put_here k v fs = (v, get-put k k v fs ∙ rw (eq_refl k) refl)

-- a merge keeps what was there, and has what is merged
HasField-merge_definition :
    (j : String) (merged def : Fields)
    → HasField j merged
    → HasField j (merge_definition merged def)
unfolding merge_definition
HasField-merge_definition j merged end h = h
HasField-merge_definition j merged (field k v rest) h =
    HasField-merge_definition j (put k (over (get k merged) v) merged) rest
      (HasField-put k j (over (get k merged) v) merged h)

merge_definition-HasField :
    (j : String) (merged def : Fields) → HasField j def → HasField j (merge_definition merged def)
unfolding merge_definition get
merge_definition-HasField j merged end (w, e) = absurd (cc)
merge_definition-HasField j merged (field k v rest) (w, e) = elim (Bool-cases (k == j)) [
  | inl same ↦ HasField-merge_definition j (put k (over (get k merged) v) merged) rest (
      subst (λ i. HasField i (put k (over (get k merged) v) merged)) ((eq_iff k j).0 same)
        (HasField-put_here k (over (get k merged) v) merged))
  | inr apart ↦
      merge_definition-HasField j (put k (over (get k merged) v) merged) rest (w, rw apart at e)
]

HasField-merge_option :
    (j : String) (merged : Fields) (def : Option Fields)
    → HasField j merged
    → HasField j (merge_option merged def)
HasField-merge_option j merged none h = h
HasField-merge_option j merged (some def) h = HasField-merge_definition j merged def h

HasField-merge_all :
    (j : String) (merged : Fields) (payloads : List Fields)
    → HasField j merged
    → HasField j (merge_all merged payloads)
unfolding merge_all
HasField-merge_all j merged [] h = h
HasField-merge_all j merged (payload ∷ rest) h =
    HasField-merge_all j (merge_option merged (definition_of payload)) rest
      (HasField-merge_option j merged (definition_of payload) h)

merge_all-HasField :
    (j : String) (merged : Fields) (before later : List Fields) (payload def : Fields)
    → definition_of payload ≡ some def
    → HasField j def
    → HasField j (merge_all merged (before ++ payload ∷ later))
unfolding merge_all
merge_all-HasField j merged [] later payload def e h =
    HasField-merge_all j (merge_option merged (definition_of payload)) later
      (rw e (merge_definition-HasField j merged def h))
merge_all-HasField j merged (first ∷ before) later payload def e h =
    merge_all-HasField j (merge_option merged (definition_of first)) before later payload def e h

read_definition :
    (k : String) (merged : Fields)
    → HasField k merged
    → get "definition" (fields_from (with_definition merged)) ≡ some (obj merged)
unfolding get
read_definition k end (w, e) = absurd (cc)
read_definition k (field j v rest) h = refl

-- The definition that the activity is answered with has every property that the definition of any
-- statement about the activity has.
pub get_activity_definition-HasField :
    (iri : String) (db : StatementDb) (before later : List Fields) (payload def : Fields)
    (k : String) (w : Json)
    → object_payloads iri db.statement_to_activity db.statements ≡ before ++ payload ∷ later
    → definition_of payload ≡ some def
    → get k def ≡ some w
    → (merged : Fields) × (get "definition" (get_activity_definition iri db) ≡ some (obj merged))
      × HasField k merged
unfolding get_activity_definition get
get_activity_definition-HasField iri db before later payload def k w rows e has =
    let merged = merge_all end (object_payloads iri db.statement_to_activity db.statements) in
    let h : HasField k merged =
      rw rows (merge_all-HasField k end before later payload def e (w, has)) in
    (merged, read_definition k merged h, h)
