-- ===== src/App/Rewrite.antt =====
-- The alternate request syntax of app.ts: a POST with a form body and `?method=` stands for a GET,
-- PUT or DELETE. URLs are pairs of parameters; the headers' names are in lower case. What
-- `Headers`, `URLSearchParams` and `Request` do with texts is a parameter.
pub mod Laws
use xapi_lrs.Prelude.{
  ℕ, String, Bool, true, false, not, ◌&&◌, ◌||◌, Option, none, some, List, [], ◌∷◌, ◌++◌, ◌==◌, any,
  keep, first, read, contains, includes, concat, or_else, if◌then◌else◌,
}
use xapi_lrs.Http.{Result, ok, err, http, other, ◌>>=◌, ◌>>◌}
use xapi_lrs.Platform.{Platform}
use xapi_lrs.Version.{on_line}

-- names and values, of a query string, of headers or of an object of texts
abbrev pub Pairs : Type 0
Pairs = List (String × String)

unfoldable pub value_of : String → Pairs → Option String
value_of key [] = none
value_of key ((k, v) ∷ rest) = if k == key then some v else value_of key rest

-- `searchParams.delete(key)`, `headers.delete(key)`
unfoldable pub without : String → Pairs → Pairs
without key [] = []
without key ((k, v) ∷ rest) =
    let later = without key rest in if k == key then later else (k, v) ∷ later

-- `searchParams.set(key, value)`, `headers.set(key, value)` and `o[key] = value`: the first pair of
-- the name is changed, and others of the name are deleted
unfoldable pub set_value : String → String → Pairs → Pairs
set_value key value [] = (key, value) ∷ []
set_value key value ((k, v) ∷ rest) =
    let later = set_value key value rest in
    if k == key then (key, value) ∷ without key rest else (k, v) ∷ later

pub record HttpRequest (p : Platform) : Type 0 where
  pub method : String
  pub path : String
  pub query : Pairs
  pub headers : Pairs
  pub body : p.Buffer

pub record Web (p : Platform) : Type 0 where
  -- `await c.req.text()`, and the pairs of `new URLSearchParams(text)`
  pub text_of : p.Buffer → String
  pub form_pairs : String → Pairs
  -- the body of a `new Request` with a text, and of one without a body; `Buffer.alloc(0)`
  pub utf8 : String → p.Buffer
  pub no_bytes : p.Buffer
  -- `s.toUpperCase()`
  pub to_upper : String → String
  -- the value that `headers.set` keeps, `none` where it throws
  pub header_value : String → Option String
  -- a whole number
  pub number : ℕ → p.Number

-- ALTERNATE_HEADER_FIELDS, each with its name in lower case
abbrev pub alternate_header_fields : Pairs
alternate_header_fields =
    ("Authorization", "authorization")
    ∷ ("X-Experience-API-Version", "x-experience-api-version")
    ∷ ("Content-Type", "content-type")
    ∷ ("Content-Length", "content-length")
    ∷ ("If-Match", "if-match")
    ∷ ("If-None-Match", "if-none-match")
    ∷ []

-- the members that every object inherits, which `key in formData` finds too
abbrev pub inherited : List String
inherited =
    "constructor" ∷ "hasOwnProperty" ∷ "isPrototypeOf" ∷ "propertyIsEnumerable" ∷ "toLocaleString"
    ∷ "toString" ∷ "valueOf" ∷ "__proto__" ∷ "__defineGetter__" ∷ "__defineSetter__"
    ∷ "__lookupGetter__" ∷ "__lookupSetter__" ∷ []

-- `formData`: of a name that comes twice the last value is kept; assigning a text to `__proto__`
-- does nothing
abbrev pub set_field : String × String → Pairs → Pairs
set_field (k, v) form = if k == "__proto__" then form else set_value k v form

unfoldable pub form_data : Pairs → Pairs → Pairs
form_data [] form = form
form_data (pair ∷ rest) form = form_data rest (set_field pair form)

abbrev pub has_key : String → Pairs → Bool
has_key key form = contains inherited key || any (λ pair. pair.0 == key) form

-- the text of a field, where it is there and not empty
abbrev pub unless_empty : Option String → Option String
unless_empty none = none
unless_empty (some v) = if v == "" then none else some v

abbrev pub field_text : String → Pairs → Option String
field_text key form = unless_empty (value_of key form)

abbrev pub is_header_field : String → Bool
is_header_field key = any (λ field. field.0 == key) alternate_header_fields

module _ (p : Platform) (w : Web p) where
  abbrev pub known_method : String → Option String
  known_method method =
      if contains ("GET" ∷ "PUT" ∷ "DELETE" ∷ []) method then some method else none

  -- `methodOverride`, where it is one of the methods
  abbrev pub method_override : Option String → Option String
  method_override none = none
  method_override (some method) = known_method (w.to_upper method)

  -- the effective version, and whether the request is rewritten under it
  abbrev pub or_header : Option String → Option String → Option String
  or_header none header_version = header_version
  or_header (some v) header_version = some v

  abbrev pub is_rewritten : Option String → Bool
  is_rewritten none = true
  is_rewritten (some version) = on_line "1.0" version

  abbrev pub try_header : String → Option String → Pairs → Result Pairs
  try_header name none headers = err other
  try_header name (some value) headers = ok (set_value name value headers)

  abbrev pub moved_header : String → Option String → Pairs → Result Pairs
  moved_header name none headers = ok headers
  moved_header name (some value) headers = try_header name (w.header_value value) headers

  -- the loop over ALTERNATE_HEADER_FIELDS
  unfoldable pub moved_headers : Pairs → Pairs → Pairs → Result Pairs
  moved_headers [] form headers = ok headers
  moved_headers ((name, lower) ∷ rest) form headers =
      moved_header lower (field_text name form) headers >>= moved_headers rest form

  abbrev pub is_moved : String → Bool
  is_moved key = not (is_header_field key) && not (key == "content")

  -- the loop that moves the other fields to the query string
  unfoldable pub moved_params : Pairs → Pairs → Pairs
  moved_params [] query = query
  moved_params ((k, v) ∷ rest) query =
      moved_params rest (if is_moved k then set_value k v query else query)

  abbrev pub duplicate_error : Option (String × String) → Result (Unit {0})
  duplicate_error none = ok tt
  duplicate_error (some (key, v)) =
      err (http 400 (concat "Duplicate parameter in query string and body: " key))

  -- the body, and the headers that describe it
  abbrev pub default_type : Option String → Pairs → Pairs
  default_type none headers = set_value "content-type" "application/json" headers
  default_type (some _) headers = headers

  abbrev pub content_sent : String → Option String → Pairs → Pairs → p.Buffer × Pairs
  content_sent method content form headers =
      if method == "PUT"
      then elim content [
        | none ↦ (w.no_bytes, headers)
        | some text ↦ (w.utf8 text, default_type (field_text "Content-Type" form) headers)
      ]
      else (w.no_bytes, without "content-type" headers)

  abbrev pub new_request : HttpRequest p → String → Pairs → Pairs → HttpRequest p
  new_request req method form headers =
      let request =
        content_sent method (field_text "content" form) form (without "content-length" headers) in
      record {
        method = method;
        path = req.path;
        query = moved_params form (without "method" req.query);
        headers = request.1;
        body = request.0;
      }

  abbrev pub made : HttpRequest p → String → Pairs → Pairs → Result (Option (HttpRequest p))
  made req method form headers = ok (some (new_request req method form headers))

  abbrev pub rewrite_form : HttpRequest p → String → Pairs → Result (Option (HttpRequest p))
  rewrite_form req method form =
      if is_rewritten (
        or_header (value_of "X-Experience-API-Version" form)
          (value_of "x-experience-api-version" req.headers))
      then duplicate_error (first (λ pair. has_key pair.0 form) (without "method" req.query))
        >> (moved_headers alternate_header_fields form req.headers >>= made req method form)
      else ok none

  abbrev pub is_form : HttpRequest p → Bool
  is_form req =
      includes (or_else (value_of "content-type" req.headers) "")
        "application/x-www-form-urlencoded"

  abbrev pub rewrite_as : HttpRequest p → Option String → Result (Option (HttpRequest p))
  rewrite_as req none = ok none
  rewrite_as req (some method) =
      if is_form req
      then rewrite_form req method (form_data (w.form_pairs (w.text_of req.body)) [])
      else ok none

  -- the middleware: `none` calls the next one, and a request is dispatched in place of the old one
  unfoldable pub alternate_request : HttpRequest p → Result (Option (HttpRequest p))
  alternate_request req =
      if req.method == "POST"
      then rewrite_as req (method_override (value_of "method" req.query))
      else ok none
