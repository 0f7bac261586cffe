-- ===== src/Statement/Query/Pages.antt =====
-- Following the cursor of each page that has more.
pub mod Sequence
use xapi_lrs.Prelude.{
  ℕ, zero, suc, ◌≤◌, ◌<◌, ◌^◌, String, ◌≡◌, refl, sym, ap, ◌∙◌, Bool, true, false, ◌&&◌, Option,
  none, some, List, ◌++◌, ltb, keep, length, take, sort_by, last, Bool-cases, inl, inr, arith,
  before, beyond, HasKeys, IsStrict, All, All-sort_by, All-both, All-keep, keep-All, keep_ext,
  keep-keep, keep-sort_by, keep-HasKeys, sort_by-IsStrict, drop, subst, append_assoc, ltb→lt,
  ltb→ge, length-sort_by, length-keep-le, last-take, pop-take, take_all, take-append-drop,
  length-drop, lt-length-of-take, keep-beyond-append, All-last, All-right, Option-cases,
}
use xapi_lrs.Http.{Result, ok, err, other, ◌>>=◌}
use xapi_lrs.Platform.{Platform}
use xapi_lrs.Etag.{present}
use xapi_lrs.Statement.Store.{StatementDb, StatementRow}
use xapi_lrs.Statement.Query.{
  QueryParams, Content, Page, selects_row, conditions, in_time, time_bound, bind_cursor,
  agent_filter, content_of, effective_limit, row_key, ordered_matches, query_statements, page_of,
}

-- the row whose identifier `more` carries
abbrev pub cursor_of : Bool → Option StatementRow → Option ℕ
cursor_of more none = none
cursor_of true (some row) = some row.id
cursor_of false (some row) = none

abbrev pub next_cursor : Page → Option ℕ
next_cursor page = cursor_of page.has_more (last page.rows)

-- the rows of a page, and of those that its cursor leads to
abbrev pub joined :
    List StatementRow → Option ℕ → (ℕ → Result (List StatementRow)) → Result (List StatementRow)
joined rows none later = ok rows
joined rows (some id) later = later id >>= λ rest. ok (rows ++ rest)

-- a page with no more, and one with more
pub next_cursor-done : (page : Page) → page.has_more ≡ false → next_cursor page ≡ none
next_cursor-done page h = elim (Option-cases (last page.rows)) [
  | inl empty ↦ rw empty refl
  | inr (row, e) ↦ rw (e, h) refl
]

pub next_cursor-more :
    (page : Page) (row : StatementRow)
    → page.has_more ≡ true
    → last page.rows ≡ some row
    → next_cursor page ≡ some row.id
next_cursor-more page row h e = rw (h, e) refl

module _ (p : Platform) where
  abbrev pub continued : QueryParams → ℕ → QueryParams
  continued q id = record q { cursor = some (p.uuid_text id) }

  -- A client that asks for page after page, until there is no more. The fuel bounds their number.
  unfoldable pub collect : ℕ → QueryParams → StatementDb → Result (List StatementRow)
  collect zero q db = err other
  collect (suc fuel) q db = query_statements p q db >>= λ page.
      joined page.rows (next_cursor page) (λ id. collect fuel (continued q id) db)

  pub in_time_after :
      (above up_to : Option ℕ) (id i : ℕ)
      → in_time true none above up_to id ≡ true
      → in_time true (some id) none up_to i ≡ (ltb id i && in_time true none above up_to i)
  in_time_after none up_to id i h = refl
  in_time_after (some n) up_to id i h = ground arith

  pub in_time_before :
      (above up_to : Option ℕ) (id i : ℕ)
      → in_time false none above up_to id ≡ true
      → in_time false (some id) above none i ≡ (ltb i id && in_time false none above up_to i)
  in_time_before above none id i h = ground arith
  in_time_before above (some n) id i h = ground arith

  pub collect_done :
      (fuel : ℕ) (q : QueryParams) (db : StatementDb) (page : Page)
      → query_statements p q db ≡ ok page
      → next_cursor page ≡ none
      → collect (suc fuel) q db ≡ ok page.rows
  unfolding collect
  collect_done fuel q db page h e =
      rw h (ap (λ x. joined page.rows x (λ id. collect fuel (continued q id) db)) e)

  pub collect_more :
      (fuel : ℕ) (q : QueryParams) (db : StatementDb) (page : Page) (id : ℕ)
      (rest : List StatementRow)
      → query_statements p q db ≡ ok page
      → next_cursor page ≡ some id
      → collect fuel (continued q id) db ≡ ok rest
      → collect (suc fuel) q db ≡ ok (page.rows ++ rest)
  unfolding collect
  collect_more fuel q db page id rest h e later = rw h (
      ap (λ x. joined page.rows x (λ i. collect fuel (continued q i) db)) e
      ∙ ap (λ x. x >>= λ more. ok (page.rows ++ more)) later)

  -- the conditions of a page that a cursor begins, against those of the first page
  pub conditions-continued :
      (ascending : Bool) (since until : Option String) (s : String) (id : ℕ)
      (above up_to : Option ℕ)
      → time_bound p since ≡ ok above
      → time_bound p until ≡ ok up_to
      → bind_cursor p (some s) ≡ ok (some id)
      → present (some s) ≡ true
      → in_time ascending none above up_to id ≡ true
      → (t : ℕ → Bool) × (conditions p ascending (some s) since until ≡ ok t)
        × ((i : ℕ) → t i ≡ (before ascending id i && in_time ascending none above up_to i))
  unfolding conditions
  conditions-continued true since until s id above up_to a b c full near = (
    in_time true (some id) none up_to,
    rw (c, full, b) refl,
    λ i. in_time_after above up_to id i near,
  )
  conditions-continued false since until s id above up_to a b c full near = (
    in_time false (some id) above none,
    rw (c, full, a) refl,
    λ i. in_time_before above up_to id i near,
  )

  pub selects_row-later :
      (c : Content) (db : StatementDb) (t later : ℕ → Bool) (b : Bool) (row : StatementRow)
      → later row.id ≡ (b && t row.id)
      → selects_row p c later db row ≡ (b && selects_row p c t db row)
  unfolding selects_row
  selects_row-later c db t later true row e = rw e refl
  selects_row-later c db t later false row e = rw e (ground arith)

  pub timely_of_selects_row :
      (c : Content) (db : StatementDb) (t : ℕ → Bool) (row : StatementRow)
      → selects_row p c t db row ≡ true
      → t row.id ≡ true
  unfolding selects_row
  timely_of_selects_row c db t row h = ground arith
