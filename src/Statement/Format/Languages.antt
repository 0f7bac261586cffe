-- ===== src/Statement/Format/Languages.antt =====
-- helpers/enrichment.ts, the format `canonical`: one entry of each language map, by the languages
-- of the Accept-Language header.
pub mod Laws
use xapi_lrs.Prelude.{
  ℕ, String, Bool, true, false, not, ◌&&◌, ◌||◌, Option, none, some, List, [], ◌∷◌, map, ◌==◌,
  starts_with, concat, split, split_first, trim, trim_start, trim_end, first, or_else, is_some,
  if◌then◌else◌,
}
use xapi_lrs.Json.{
  Json, Fields, null, bool, num, str, arr, obj, end, field, get, put, truthy, is_text,
}
use xapi_lrs.Platform.{Platform}
use xapi_lrs.Statement.Format.{
  fields_of, on_object, update_field, map_items, on_context_activities, not_activity, if_truthy,
  format_ids,
}

-- `Object.keys`
unfoldable pub keys_of : Fields → List String
keys_of end = []
keys_of (field k v fs) = k ∷ keys_of fs

-- `{ [k]: o[k] }`
abbrev pub only : String → Option Json → Fields
only k none = end
only k (some v) = field k v end

-- the result of `find`, where an empty key counts as none
abbrev pub truthy_key : Option String → Option String
truthy_key none = none
truthy_key (some k) = if k == "" then none else some k

abbrev pub earlier : Option String → Option String → Option String
earlier none b = b
earlier (some a) b = some a

abbrev pub head_or : List String → String → String
head_or [] d = d
head_or (x ∷ xs) d = x

module _ (p : Platform) where
  -- an entry of the header, with its quality
  pub record Weighted : Type 0 where
    pub tag : String
    pub q : p.Number

  abbrev pub is_quality : String → Bool
  is_quality s = starts_with (trim s) "q="

  -- `s.slice(2)` of a text that begins by `q=`
  abbrev pub after_two : String → String
  after_two String.[] = ""
  after_two (String.◌∷◌ c String.[]) = ""
  after_two (String.◌∷◌ c (String.◌∷◌ d s)) = s

  abbrev pub quality : Option String → p.Number
  quality none = p.number_one
  quality (some s) = p.parse_float (after_two (trim s))

  unfoldable pub weigh : String → Weighted
  unfolding split_first trim_start trim_end
  weigh part = record {
    tag = p.to_lower (trim (split_first b';' (trim part)).0);
    q = quality (first is_quality (split_first b';' (trim part)).1);
  }

  -- a stable sort by decreasing quality
  abbrev pub insert_weighted : Weighted → List Weighted → List Weighted
  insert_weighted x [] = x ∷ []
  insert_weighted x (y ∷ ys) =
      let later = insert_weighted x ys in if p.is_less x.q y.q then y ∷ later else x ∷ y ∷ ys

  abbrev pub sort_weighted : List Weighted → List Weighted
  sort_weighted [] = []
  sort_weighted (x ∷ xs) = insert_weighted x (sort_weighted xs)

  -- `parseAcceptLanguage`
  unfoldable pub parse_accept_language : Option String → List String
  unfolding split_first weigh
  parse_accept_language none = []
  parse_accept_language (some header) =
      if header == ""
      then []
      else map (λ (w : Weighted). w.tag) (sort_weighted (map weigh (split b',' header)))

  abbrev pub find_key : (String → Bool) → List String → Option String
  find_key test keys = truthy_key (first test keys)

  -- the key for one preferred language: itself, one that it is a prefix of, or its parent
  unfoldable pub key_for : List String → String → Option String
  unfolding split_first
  key_for keys pref = earlier (find_key (λ k. p.to_lower k == pref) keys) (
      earlier (find_key (λ k. starts_with (p.to_lower k) (concat pref "-")) keys) (
        if (split_first b'-' pref).0 == pref
        then none
        else find_key (λ k. p.to_lower k == (split_first b'-' pref).0) keys))

  unfoldable pub best_key : List String → List String → Option String
  unfolding key_for
  best_key keys [] = none
  best_key keys (pref ∷ prefs) = earlier (key_for keys pref) (best_key keys prefs)

  -- `pickLanguage`, on the properties of the map `v`
  unfoldable pub pick_language : List String → Json → Fields → Json
  unfolding best_key keys_of
  pick_language preferred v end = v
  pick_language preferred v (field k w end) = v
  pick_language preferred v (field k w fs) =
      let key = or_else (best_key (keys_of (field k w fs)) preferred) k in
      obj (only key (get key (field k w fs)))

  abbrev pub pick : List String → Json → Json
  pick preferred v = on_object (fields_of v) v (pick_language preferred v)

  -- `canonicalizeVerb`
  abbrev pub canonical_verb : List String → Json → Json
  canonical_verb preferred v =
      on_object (fields_of v) v (λ o. obj (update_field "display" (pick preferred) o))

  abbrev pub canonical_definition : List String → Json → Json
  canonical_definition preferred v = on_object (fields_of v) v (λ o.
      obj (update_field "description" (pick preferred) (update_field "name" (pick preferred) o)))

  -- `canonicalizeActivityLangMaps`; without a definition, or with one that is no object, nothing
  -- is changed
  abbrev pub has_definition : Option Json → Bool
  has_definition none = false
  has_definition (some d) = is_some (fields_of d)

  unfoldable pub canonical_activity : List String → Json → Json
  unfolding update_field pick_language fields_of
  canonical_activity preferred v = on_object (fields_of v) v (λ o.
      if not_activity o || not (has_definition (get "definition" o))
      then v
      else obj (update_field "definition" (canonical_definition preferred) o))

  -- `canonicalizeContext`
  abbrev pub canonical_context : List String → Json → Json
  canonical_context preferred v = on_object (fields_of v) v (λ o.
      obj
        (update_field "contextActivities" (on_context_activities (canonical_activity preferred)) o))

  -- `canonicalizeSubStatement`
  abbrev pub canonical_sub_statement : List String → Fields → Fields
  canonical_sub_statement preferred o = update_field "context" (canonical_context preferred) (
      update_field "object" (if_truthy (canonical_activity preferred))
        (update_field "verb" (canonical_verb preferred) o))

  abbrev pub canonical_object : List String → Json → Json
  canonical_object preferred v = on_object (fields_of v) v (λ o.
      if is_text (get "objectType" o) "SubStatement"
      then obj (canonical_sub_statement preferred o)
      else canonical_activity preferred v)

  -- `formatCanonical`
  unfoldable pub format_canonical : List String → Fields → Fields
  unfolding update_field pick_language canonical_activity map_items fields_of
  format_canonical preferred o = update_field "context" (canonical_context preferred) (
      update_field "object" (canonical_object preferred)
        (update_field "verb" (canonical_verb preferred) o))

  -- `formatStatement`
  unfoldable pub format_statement : String → Option String → Fields → Fields
  unfolding format_ids format_canonical parse_accept_language
  format_statement format accept stmt =
      if format == "exact"
      then stmt
      else if format == "ids"
      then format_ids stmt
      else if format == "canonical"
      then format_canonical (parse_accept_language accept) stmt
      else stmt
