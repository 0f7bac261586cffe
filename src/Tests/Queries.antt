-- ===== src/Tests/Queries.antt =====
-- The theorems on queries and row identifiers, at three statements and pages of one.
use xapi_lrs.Prelude.{
  ℕ, zero, suc, ◌≤◌, String, ◌≡◌, refl, true, false, Option, none, some, [], ◌∷◌, ap, sym, ◌∙◌,
  ◌==◌, eq_iff, Bool-cases, inl, inr, arith, All, IsStrict, sort_by, insert_by, or_else,
}
use xapi_lrs.Http.{ok}
use xapi_lrs.Platform.{Platform, since_epoch}
use xapi_lrs.Squuid.{squuid, squuid_min, squuid_timestamp}
use xapi_lrs.Squuid.Laws.{squuid_timestamp-squuid}
use xapi_lrs.Etag.{present}
use xapi_lrs.Statement.Store.{StatementDb, StatementRow}
use xapi_lrs.Statement.Query.{
  Limit, QueryParams, whole, query_statements, ordered_matches, content_of, in_time,
  effective_limit, row_key, selects_row, matches_content, conditions,
}
use xapi_lrs.Statement.Query.Laws.{collect-ordered_matches, query_statements_bounds}
use xapi_lrs.Statement.Query.Pages.{collect, continued}
use xapi_lrs.Statement.Retrieve.{GetRequest, query_of, limit_param}
use xapi_lrs.Statement.Retrieve.More.{next_request}
use xapi_lrs.Statement.Retrieve.More.Laws.{query_statements-next_request}
use xapi_lrs.Tests.Retrievals.{no_filter, bob_auth}
use xapi_lrs.Tests.{test_platform}
use xapi_lrs.Tests.Statements.{no_statements, sent_row}

abbrev random_base : String
random_base = "00000000-0000-4000-8000-000000000007"

squuid_timestamp-squuid_example :
    (squuid_timestamp (squuid 5 random_base) ≡ some 5)
    × (squuid_timestamp (squuid_min (since_epoch 5)) ≡ some 5)
squuid_timestamp-squuid_example = squuid_timestamp-squuid 5 random_base (omega arith)

-- identifiers written in tally marks, of which there is one more than the number
unfoldable tally : ℕ → String
tally zero = "i"
tally (suc n) = String.◌∷◌ "i" (tally n)

unfoldable marks : String → ℕ
marks String.[] = zero
marks (String.◌∷◌ c s) = suc (marks s)

abbrev before_one : ℕ → Option ℕ
before_one zero = none
before_one (suc n) = some n

marks-tally : (n : ℕ) → marks (tally n) ≡ suc n
unfolding tally marks
marks-tally zero = refl
marks-tally (suc n) = ap suc (marks-tally n)

tally-read : (n : ℕ) → before_one (marks (tally n)) ≡ some n
tally-read n = rw (marks-tally n) refl

tally-full : (n : ℕ) → (tally n == "") ≡ false
unfolding marks
tally-full n = elim (Bool-cases (tally n == "")) [
  | inl empty ↦
      absurd (omega (arith, sym (ap marks ((eq_iff (tally n) "").0 empty)) ∙ marks-tally n))
  | inr full ↦ full
]

tally-present : (n : ℕ) → present (some (tally n)) ≡ true
tally-present n = rw (tally-full n) refl

abbrev tally_platform : Platform
tally_platform = record test_platform {
  pg_uuid_bits = λ s. before_one (marks s);
  uuid_text = tally;
}

abbrev row_of : ℕ → String → StatementRow
row_of n id = record sent_row { id = n; statement_id = id }

abbrev three_rows : StatementDb
three_rows = record no_statements {
  statements = row_of 2 "s2" ∷ row_of 1 "s1" ∷ row_of 3 "s3" ∷ [];
}

abbrev all_statements : QueryParams
all_statements = record {
  agent = none;
  verb = none;
  activity = none;
  registration = none;
  related_activities = false;
  related_agents = false;
  since = none;
  until = none;
  limit = some (whole 1);
  ascending = false;
  cursor = none;
  default_limit = 50;
  max_limit = 100;
}

collect-ordered_matches_example :
    (collect tally_platform 4 all_statements three_rows
      ≡ ok (
          ordered_matches tally_platform false
            (content_of all_statements none)
            (in_time false none none none)
            three_rows))
    × IsStrict row_key false (
        ordered_matches tally_platform false
          (content_of all_statements none)
          (in_time false none none none)
          three_rows)
unfolding effective_limit
collect-ordered_matches_example =
    collect-ordered_matches tally_platform all_statements three_rows none 0 4 none none refl refl
      refl refl ((refl, (refl, tt)), ((refl, tt), (tt, tt))) (λ i h. tally-read i) tally-present
      (omega arith, (omega arith, (omega arith, tt))) (omega arith)

first_page :
    query_statements tally_platform all_statements three_rows
    ≡ ok (record { rows = row_of 3 "s3" ∷ []; has_more = true })
unfolding query_statements effective_limit ordered_matches selects_row matches_content conditions
    sort_by insert_by
first_page = refl

query_statements_bounds_example :
    (limit : ℕ) × (effective_limit all_statements ≡ ok limit)
    × (1 ≤ limit)
    × (limit ≤ 100)
    × All (λ (row : StatementRow). row.is_voided ≡ false) (row_of 3 "s3" ∷ [])
query_statements_bounds_example =
    query_statements_bounds tally_platform all_statements three_rows
      (record { rows = row_of 3 "s3" ∷ []; has_more = true }) first_page

-- one statement on a page, with numbers in tally marks
abbrev number_platform : Platform
number_platform = record tally_platform {
  number_of = λ s. or_else (before_one (marks s)) 0;
  number_text = tally;
}

abbrev one_a_page : GetRequest
one_a_page = record no_filter { limit = some "ii" }

limit_checked : limit_param number_platform one_a_page.limit ≡ ok (some (whole 1))
unfolding marks
limit_checked = refl

query_statements-next_request_example :
    (carried_limit : Option Limit) × (limit_param number_platform
        (next_request number_platform one_a_page 3).limit
      ≡ ok carried_limit)
    × (query_statements number_platform
          (query_of number_platform
            (next_request number_platform one_a_page 3)
            bob_auth
            carried_limit
            50
            100)
          three_rows
        ≡ query_statements number_platform
            (continued number_platform
              (query_of number_platform one_a_page bob_auth (some (whole 1)) 50 100)
              3)
            three_rows)
query_statements-next_request_example =
    query_statements-next_request number_platform one_a_page bob_auth (some (whole 1)) 50 100 3
      three_rows refl (tally-present 3)
      (λ n. ap (λ read. test_platform.place (or_else read 0)) (tally-read n)) tally-full
      limit_checked
