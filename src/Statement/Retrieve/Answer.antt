-- ===== src/Statement/Retrieve/Answer.antt =====
-- routes/statements.ts and routes/statement-helpers.ts: the response of GET /xapi/statements, with
-- its `more` link and its parts.
use xapi_lrs.Prelude.{
  ℕ, String, Bool, true, false, Option, none, some, List, [], ◌∷◌, ◌++◌, ◌==◌, map, keep, last,
  contains, if◌then◌else◌,
}
use xapi_lrs.Http.{Result, ok, ◌>>=◌}
use xapi_lrs.Json.{Fields, get, truthy, display_option}
use xapi_lrs.Platform.{Platform}
use xapi_lrs.Auth.{AuthInfo}
use xapi_lrs.Statement.Attachments.{AttachmentRow}
use xapi_lrs.Statement.Format.Languages.{format_statement}
use xapi_lrs.Statement.Routes.{Tables}
use xapi_lrs.Statement.Store.{StatementRow, as_uuid}
use xapi_lrs.Statement.Retrieve.{
  GetRequest, Found, single, page, check_request, format_of, is_true, retrieve, retrieve_page,
  retrieve_single,
}

-- a part of a multipart answer
pub record Part (p : Platform) : Type 0 where
  pub sha2 : String
  pub content_type : String
  pub contents : p.Buffer

-- the response: a statement with its time of storage, or statements with the parameters of the
-- `more` link; and the parts, if it is multipart
pub data Answer (p : Platform) : Type 0 where
  one : Fields → ℕ → Option (List (Part p)) → Answer p
  many : List Fields → Option (List (String × String)) → Option (List (Part p)) → Answer p

module _ (p : Platform) where
  -- `collectAttachmentParts`, with `getAttachmentsByStatement`
  abbrev pub part_of_row : AttachmentRow p → Part p
  part_of_row row = record {
    sha2 = row.attachment_sha;
    content_type = row.content_type;
    contents = row.contents;
  }

  unfoldable pub collect_attachment_parts : Fields → List (AttachmentRow p) → Result (List (Part p))
  collect_attachment_parts stmt table =
      if truthy (get "id" stmt)
      then (do
        u ← as_uuid p (display_option (get "id" stmt))
        ok (map part_of_row (keep (λ (row : AttachmentRow p). row.statement_id == u) table)))
      else ok []

  -- the parts whose hash was not seen yet
  unfoldable pub unseen_parts : List String → List (Part p) → List (Part p)
  unseen_parts seen [] = []
  unseen_parts seen (part ∷ parts) =
      if contains seen part.sha2
      then unseen_parts seen parts
      else part ∷ unseen_parts (part.sha2 ∷ seen) parts

  unfoldable pub concat_parts : List Fields → List (AttachmentRow p) → Result (List (Part p))
  unfolding collect_attachment_parts
  concat_parts [] table = ok []
  concat_parts (stmt ∷ stmts) table = collect_attachment_parts stmt table >>= λ here. do
    later ← concat_parts stmts table
    ok (here ++ later)

  -- `collectAttachmentPartsFromList`
  unfoldable pub collect_attachment_parts_from_list :
      List Fields → List (AttachmentRow p) → Result (List (Part p))
  unfolding concat_parts unseen_parts
  collect_attachment_parts_from_list stmts table = do
    parts ← concat_parts stmts table
    ok (unseen_parts [] parts)

  abbrev pub if_present : String → Option String → List (String × String)
  if_present k none = []
  if_present k (some s) = if s == "" then [] else (k, s) ∷ []

  abbrev pub if_true : String → Bool → List (String × String)
  if_true k b = if b then (k, "true") ∷ [] else []

  abbrev pub limit_text : Option String → Option String
  limit_text none = none
  limit_text (some s) = if s == "" then none else some (p.number_text (p.number_of s))

  -- the parameters of the `more` link after the row with the given identifier
  unfoldable pub more_params : GetRequest → ℕ → List (String × String)
  more_params r id =
      if_present "agent" r.agent
      ++ (if_present "verb" r.verb
          ++ (if_present "activity" r.activity
              ++ (if_present "registration" r.registration
                  ++ (if_true "related_activities" (is_true r.related_activities)
                      ++ (if_true "related_agents" (is_true r.related_agents)
                          ++ (if_present "limit" (limit_text r.limit)
                              ++ ((if format_of r.format == "exact"
                                    then []
                                    else ("format", format_of r.format) ∷ [])
                                  ++ (("_cursor", p.uuid_text id)
                                      ∷ (if is_true r.ascending
                                          then ("ascending", "true") ∷ if_present "until" r.until
                                          else if_present "since" r.since)))))))))

  abbrev pub more_after : GetRequest → Bool → Option StatementRow → Option (List (String × String))
  more_after r true (some row) = some (more_params r row.id)
  more_after r _ _ = none

  abbrev pub formatted : GetRequest → StatementRow → Fields
  formatted r row = format_statement p (format_of r.format) r.accept_language row.payload

  abbrev pub if_asked : Bool → Result (List (Part p)) → Result (Option (List (Part p)))
  if_asked false parts = ok none
  if_asked true parts = parts >>= λ found. ok (some found)

  -- the response for what was found
  unfoldable pub answer_of : GetRequest → List (AttachmentRow p) → Found → Result (Answer p)
  unfolding collect_attachment_parts collect_attachment_parts_from_list more_params
  answer_of r table (single row) = do
    parts ← if_asked (is_true r.attachments) (collect_attachment_parts (formatted r row) table)
    ok (one (formatted r row) row.stored parts)
  answer_of r table (page found) = do
    parts ←
        if_asked (is_true r.attachments)
          (collect_attachment_parts_from_list (map (formatted r) found.rows) table)
    ok (many (map (formatted r) found.rows) (more_after r found.has_more (last found.rows)) parts)

  -- GET /xapi/statements
  unfoldable pub get_statements :
      (default_limit max_limit : ℕ) → GetRequest → AuthInfo → Tables p → Result (Answer p)
  unfolding answer_of retrieve_page retrieve_single check_request
  get_statements default_limit max_limit r auth t = do
    limit ← check_request p r
    found ← retrieve p r auth limit default_limit max_limit t.db
    answer_of r t.attachments found
