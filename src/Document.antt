-- ===== src/Document.antt =====
-- What the document resources share: the transaction wrapper and the merge body of db.ts, and
-- `documentResponse` of routes/activity-helpers.ts.
pub mod State
pub mod Profile
use Prim.Native.String.{[] as empty_text, ◌∷◌ as char_and}
use xapi_lrs.Prelude.{
  ℕ, ◌+◌, String, Bool, true, ltb, Option, none, some, List, concat, show, includes, ◌≡◌, refl, sym,
  ap, inl, inr, arith, if◌then◌else◌,
}
use xapi_lrs.Http.{Error, Result, ok, err, http, other, guard, ◌>>=◌, ◌>>◌, Result-cases}
use xapi_lrs.Json.{Json, Items, nil, cons, Fields, end, field, arr, str, obj, spread}
use xapi_lrs.Platform.{Platform}
use xapi_lrs.Etag.{compute_etag}

-- A transaction: what it returns with the tables that it leaves, or what it throws.
abbrev pub Tx : Type 0 → Type 0 → Type 0
Tx S A = S → Result (A × S)

-- `withClient`: COMMIT where the callback returns, ROLLBACK where it throws
abbrev pub settle : {S A : Type 0} → Result (A × S) → S → Result A × S
settle (ok (a, s')) s = (ok a, s')
settle (err e) s = (err e, s)

unfoldable pub with_client : {S A : Type 0} → Tx S A → S → Result A × S
with_client f s = settle (f s) s

-- What a handler does before its transaction may throw, and the tables are then untouched.
abbrev pub after {ℓ κ} :
    {A : Type ℓ} {B S : Type κ} → Result A → (A → S → Result B × S) → S → Result B × S
after (ok a) f s = f a s
after (err e) f s = (err e, s)

module _ {S A : Type 0} (f : Tx S A) (s : S) where
  with_client_by :
      (r : Result (A × S))
      → f s ≡ r
      → ((a : A) (s' : S) → with_client f s ≡ (ok a, s') → f s ≡ ok (a, s'))
        × ((e : Error) (s' : S) → with_client f s ≡ (err e, s') → s' ≡ s)
  unfolding with_client
  with_client_by (ok (b, u)) h = (λ a s' g. ground arith, λ e s' g. ground arith)
  with_client_by (err x) h = (λ a s' g. ground arith, λ e s' g. ground arith)

  -- A transaction that commits leaves what its callback left, and one that throws leaves all.
  pub with_client_ok : (a : A) (s' : S) → with_client f s ≡ (ok a, s') → f s ≡ ok (a, s')
  with_client_ok = (with_client_by (f s) refl).0

  pub with_client_err : (e : Error) (s' : S) → with_client f s ≡ (err e, s') → s' ≡ s
  with_client_err = (with_client_by (f s) refl).1

-- a transaction that only reads
pub with_client_read :
    {S A : Type 0} (f : Tx S A) (s : S) (r : Result A)
    → f s ≡ (r >>= λ a. ok (a, s))
    → with_client f s ≡ (r, s)
unfolding with_client
with_client_read f s (ok a) h = rw h refl
with_client_read f s (err e) h = rw h refl

module _ {ℓ} {A : Type ℓ} {B S : Type 0} (r : Result A) (f : A → S → Result B × S) (s : S) where
  pub after_ok :
      (b : B) (s' : S) → after r f s ≡ (ok b, s') → (a : A) × (r ≡ ok a) × (f a s ≡ (ok b, s'))
  after_ok b s' h = elim (Result-cases r) [
    | inl (a, g) ↦ (a, g, rw g at h)
    | inr (e, g) ↦ absurd (cc (ap (λ (x : Result B × S). x.0) (rw g at h)))
  ]

  pub after_err :
      ((a : A) (e : Error) (s' : S) → f a s ≡ (err e, s') → s' ≡ s)
      → (e : Error) (s' : S) → after r f s ≡ (err e, s')
      → s' ≡ s
  after_err keeps e s' h = elim (Result-cases r) [
    | inl (a, g) ↦ keeps a e s' (rw g at h)
    | inr (x, g) ↦ ap (λ (x : Result B × S). x.1) (sym (rw g at h))
  ]

abbrev pub parsed_body : Option Json → Result Fields
parsed_body (some (obj fs)) = ok fs
parsed_body (some _) = err (http 400 "Request body must be a JSON object")
parsed_body none = err (http 400 "Request body is not valid JSON")

-- `parseMergeBody`
unfoldable pub parse_merge_body : (p : Platform) → p.Buffer → String → Result Fields
parse_merge_body p body content_type = do
  guard (includes content_type "application/json") 400
      "POST merge requires application/json content type"
  parsed_body (p.parse_buffer body)

-- the own properties that a spread finds in a value: an array's and a text's are its indices
index_fields : ℕ → Items → Fields
index_fields i nil = end
index_fields i (cons v vs) = field (show i) v (index_fields (i + 1) vs)

char_fields : ℕ → String → Fields
char_fields i empty_text = end
char_fields i (char_and c s) = field (show i) (str (char_and c empty_text)) (char_fields (i + 1) s)

unfoldable pub own_fields : Json → Fields
unfolding index_fields char_fields
own_fields (obj fs) = fs
own_fields (arr vs) = index_fields 0 vs
own_fields (str s) = char_fields 0 s
own_fields _ = end

-- a response: 204, a JSON list of ids, or a document with its headers and body
pub data Response (p : Platform) : Type 0 where
  no_content : Response p
  ids : List String → Response p
  json_document : (etag : String) (last_modified : ℕ) (content_type : String) → Json → Response p
  raw_document : (etag : String) (last_modified : ℕ) (content_type : String) → p.Buffer → Response p

-- the columns that the SELECTs of a document return
pub record DocumentRow (p : Platform) : Type 0 where
  pub contents : p.Buffer
  pub content_type : String
  pub content_length : ℕ
  pub last_modified : ℕ

-- `$n::timestamptz IS NULL OR last_modified > $n`, and the binding of the parameter, whose cast
-- may fail
abbrev pub modified_after : (p : Platform) → Option ℕ → DocumentRow p → Bool
modified_after p none row = true
modified_after p (some t) row = ltb t row.last_modified

abbrev pub bind_since : Platform → Option String → Result (Option ℕ)
bind_since p none = ok none
bind_since p (some s) = elim (p.pg_timestamp s) [ none ↦ err other | some t ↦ ok (some t) ]

abbrev pub quoted : String → String
quoted etag = concat "\"" (concat etag "\"")

-- `JSON.parse` of stored contents, whose error no handler catches
abbrev pub parsed_or_throw : Option Json → Result Json
parsed_or_throw none = err other
parsed_or_throw (some v) = ok v

-- `documentResponse`
unfoldable pub document_response : (p : Platform) → DocumentRow p → Result (Response p)
document_response p row =
    let etag = quoted (compute_etag p row.contents) in
    if includes row.content_type "application/json"
    then (do
      v ← parsed_or_throw (p.parse_buffer row.contents)
      ok (json_document etag row.last_modified row.content_type v))
    else ok (raw_document etag row.last_modified row.content_type row.contents)

-- `existing ? computeEtag(existing.contents) : undefined`
abbrev pub etag_of : (p : Platform) → Option (DocumentRow p) → Option String
etag_of p none = none
etag_of p (some row) = some (compute_etag p row.contents)

-- The merge of POST: refuses a document that is not JSON, and spreads the body over what is there.
unfoldable pub merge_into : (p : Platform) → Option (DocumentRow p) → Fields → Result p.Buffer
merge_into p none incoming = ok (p.stringify_buffer (obj (spread end incoming)))
merge_into p (some row) incoming = do
  guard (includes row.content_type "application/json") 400 "Cannot merge into non-JSON document"
  existing ← parsed_or_throw (p.parse_buffer row.contents)
  ok (p.stringify_buffer (obj (spread (own_fields existing) incoming)))
