-- ===== src/Statement/Query/Laws.antt =====
-- The pages of a query against the list of all matching statements, and the bounds of one page.
use xapi_lrs.Prelude.{
  ℕ, suc, ◌≤◌, ◌<◌, ◌^◌, String, ◌≡◌, refl, Bool, true, false, Option, none, some, List, [], length,
  take, arith, Bool-cases, inl, inr, ltb, HasKeys, IsStrict, All, All-take, All-pop, All-sort_by,
  keep-All, length-take-le, length-pop, keep, ltb→ge, subst,
}
use xapi_lrs.Http.{ok, >>=-eq-ok, ok-injective}
use xapi_lrs.Platform.{Platform}
use xapi_lrs.Etag.{present}
use xapi_lrs.Statement.Store.{StatementDb, StatementRow}
use xapi_lrs.Statement.Query.{
  QueryParams, Content, Limit, whole, fraction, Page, agent_filter, time_bound, effective_limit,
  content_of, in_time, row_key, ordered_matches, query_statements, selects_row, time_conditions,
  page_of, limit_of,
}
use xapi_lrs.Statement.Query.Pages.{collect}
use xapi_lrs.Statement.Query.Pages.Sequence.{
  collect_all, conditions_first, length-all_matches, all_matches-IsStrict,
}

-- A client that follows `more` from a first page to the end, over tables that do not change and
-- with a limit of at least one, gets in the end all the statements that match the query, each once
-- and in the order of their row identifiers, in no more requests than there are statements, and
-- one. The texts of row identifiers are assumed to be not empty and to be read back as they were.
pub collect-ordered_matches :
    (p : Platform) (q : QueryParams) (db : StatementDb) (ifi : Option String) (size fuel : ℕ)
    (above up_to : Option ℕ) (agent_ok : agent_filter p q.agent ≡ ok ifi)
    (limit_ok : effective_limit q ≡ ok (suc size))
    → time_bound p q.since ≡ ok above
    → time_bound p q.until ≡ ok up_to
    → HasKeys row_key db.statements
    → ((i : ℕ) → i < 2 ^ 128 → p.pg_uuid_bits (p.uuid_text i) ≡ some i)
    → ((i : ℕ) → present (some (p.uuid_text i)) ≡ true)
    → All (λ row. row.id < 2 ^ 128) db.statements
    → length db.statements < fuel
    → let found =
        ordered_matches p q.ascending
          (content_of q ifi)
          (in_time q.ascending none above up_to)
          db in
      (collect p fuel (record q { cursor = none }) db ≡ ok found)
      × IsStrict row_key q.ascending found
collect-ordered_matches p q db ifi size fuel above up_to agent_ok limit_ok since_ok until_ok unique
      codec full small enough =
    (
      collect_all p q db ifi size agent_ok limit_ok above up_to since_ok until_ok unique codec full
          small fuel none (in_time q.ascending none above up_to) []
          (ordered_matches p q.ascending (content_of q ifi) (in_time q.ascending none above up_to)
            db)
          (conditions_first p q db ifi size agent_ok limit_ok above up_to since_ok until_ok unique)
          refl refl
          (omega (
            arith,
            length-all_matches p q db ifi size agent_ok limit_ok above up_to since_ok until_ok
                unique,
          )),
      all_matches-IsStrict p q db ifi size agent_ok limit_ok above up_to since_ok until_ok unique,
    )

limit_of-le : (d m limit : ℕ) (l : Option Limit) → limit_of d m l ≡ ok limit → limit ≤ m
limit_of-le d m limit none h = ground arith
limit_of-le d m limit (some (whole n)) h = ground arith
limit_of-le d m limit (some (fraction n)) h = ground arith

page_of_bounds :
    (P : StatementRow → Type 0) (limit : ℕ) (found : List StatementRow)
    → All P found
    → let page = page_of limit (take (suc limit) found) in
      (length page.rows ≤ limit) × All P page.rows
page_of_bounds P limit found h = elim (Bool-cases (ltb limit (length (take (suc limit) found)))) [
  | inl more ↦ rw more (
    omega (arith, length-take-le (suc limit) found, length-pop (take (suc limit) found)),
    All-pop P (take (suc limit) found) (All-take P (suc limit) found h),
  )
  | inr done ↦
      rw done (ltb→ge limit (length (take (suc limit) found)) done, All-take P (suc limit) found h)
]

module _ (p : Platform) where
  live_of_selects_row :
      (c : Content) (db : StatementDb) (t : ℕ → Bool) (row : StatementRow)
      → selects_row p c t db row ≡ true
      → row.is_voided ≡ false
  unfolding selects_row
  live_of_selects_row c db t row h = ground arith

  live_of_ordered :
      (asc : Bool) (c : Content) (t : ℕ → Bool) (db : StatementDb)
      → All (λ row. row.is_voided ≡ false) (ordered_matches p asc c t db)
  unfolding ordered_matches
  live_of_ordered asc c t db =
      All-sort_by row_key asc (λ row. row.is_voided ≡ false)
        (keep (selects_row p c t db) db.statements)
        (keep-All (λ row. row.is_voided ≡ false) (selects_row p c t db)
          (λ row h. live_of_selects_row c db t row h) db.statements)

  -- A page that a query answers has no more rows than the limit, the limit is no more than the
  -- configured maximum, and none of the rows is voided.
  pub query_statements_bounds :
      (q : QueryParams) (db : StatementDb) (page : Page)
      → query_statements p q db ≡ ok page
      → (limit : ℕ) × (effective_limit q ≡ ok limit)
        × (length page.rows ≤ limit)
        × (limit ≤ q.max_limit)
        × All (λ row. row.is_voided ≡ false) page.rows
  unfolding query_statements effective_limit
  query_statements_bounds q db page h =
      let (ifi, e₁, h₁) = >>=-eq-ok (agent_filter p q.agent) _ h in
      let (timely, e₂, h₂) = >>=-eq-ok (time_conditions p q) _ h₁ in
      let (limit, e₃, h₃) = >>=-eq-ok (effective_limit q) _ h₂ in
      let (few, live) =
        page_of_bounds (λ row. row.is_voided ≡ false) limit
          (ordered_matches p q.ascending (content_of q ifi) timely db)
          (live_of_ordered q.ascending (content_of q ifi) timely db) in
      let same = ok-injective h₃ in
      (
        limit,
        e₃,
        subst (λ (x : Page). length x.rows ≤ limit) same few,
        limit_of-le q.default_limit q.max_limit limit q.limit e₃,
        subst (λ (x : Page). All (λ row. row.is_voided ≡ false) x.rows) same live,
      )
