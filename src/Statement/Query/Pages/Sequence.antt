-- ===== src/Statement/Query/Pages/Sequence.antt =====
-- The pages of one query, one after the other.
use xapi_lrs.Prelude.{
  ℕ, zero, suc, ◌≤◌, ◌<◌, ◌^◌, String, ◌≡◌, refl, sym, ap, ◌∙◌, Bool, true, ◌&&◌, Option, none,
  some, List, ◌++◌, ltb, keep, length, take, sort_by, last, Bool-cases, inl, inr, arith, before,
  beyond, HasKeys, IsStrict, All, All-sort_by, All-both, All-keep, keep-All, keep_ext, keep-keep,
  keep-sort_by, keep-HasKeys, sort_by-IsStrict, drop, subst, append_assoc, ltb→lt, ltb→ge,
  length-sort_by, length-keep-le, last-take, pop-take, take_all, take-append-drop, length-drop,
  lt-length-of-take, keep-beyond-append, All-last, All-right,
}
use xapi_lrs.Http.{ok}
use xapi_lrs.Platform.{Platform}
use xapi_lrs.Etag.{present}
use xapi_lrs.Statement.Store.{StatementDb, StatementRow}
use xapi_lrs.Statement.Query.{
  QueryParams, selects_row, conditions, in_time, time_bound, bind_cursor, agent_filter, content_of,
  effective_limit, row_key, ordered_matches, query_statements, page_of,
}
use xapi_lrs.Statement.Query.Pages.{
  collect, collect_done, collect_more, conditions-continued, selects_row-later,
  timely_of_selects_row, next_cursor-done, next_cursor-more,
}

module _ (p : Platform) where
  module _ (q : QueryParams) (db : StatementDb) (ifi : Option String) (size : ℕ)
      (agent_ok : agent_filter p q.agent ≡ ok ifi)
      (limit_ok : effective_limit q ≡ ok (suc size)) where
    abbrev pub at_cursor : Option String → QueryParams
    at_cursor c = record q { cursor = c }

    query_statements_lem :
        (c : Option String) (t : ℕ → Bool)
        → conditions p q.ascending c q.since q.until ≡ ok t
        → query_statements p (at_cursor c) db
          ≡ ok (
              page_of
                (suc size)
                (take (suc (suc size)) (ordered_matches p q.ascending (content_of q ifi) t db)))
    unfolding query_statements effective_limit
    query_statements_lem c t h = rw (agent_ok, h, limit_ok) refl

    module _ (above up_to : Option ℕ) (since_ok : time_bound p q.since ≡ ok above)
        (until_ok : time_bound p q.until ≡ ok up_to) (unique : HasKeys row_key db.statements) where
      -- the conditions of the first page, and all that it and its followers find
      abbrev pub timely : ℕ → Bool
      timely = in_time q.ascending none above up_to

      abbrev pub all_matches : List StatementRow
      all_matches = ordered_matches p q.ascending (content_of q ifi) timely db

      abbrev chosen : StatementRow → Bool
      chosen = selects_row p (content_of q ifi) timely db

      pub all_matches-IsStrict : IsStrict row_key q.ascending all_matches
      unfolding ordered_matches
      all_matches-IsStrict =
          sort_by-IsStrict row_key q.ascending (keep chosen db.statements)
            (keep-HasKeys row_key chosen db.statements unique)

      -- what holds of the rows of the table holds of those that are found, and these are timely
      All-all_matches :
          (P : StatementRow → Type 0)
          → All P db.statements
          → All (λ row. P row × (timely row.id ≡ true)) all_matches
      unfolding ordered_matches
      All-all_matches P h =
          All-sort_by row_key q.ascending (λ row. P row × (timely row.id ≡ true))
            (keep chosen db.statements)
            (All-both P (λ row. timely row.id ≡ true) (keep chosen db.statements)
              (All-keep P chosen db.statements h)
              (keep-All (λ row. timely row.id ≡ true) chosen
                (λ row e. timely_of_selects_row p (content_of q ifi) db timely row e)
                db.statements))

      -- a page's followers, where a cursor is bound
      ordered_matches-later :
          (t : ℕ → Bool) (id : ℕ)
          → ((i : ℕ) → t i ≡ (before q.ascending id i && timely i))
          → ordered_matches p q.ascending (content_of q ifi) t db
            ≡ keep (beyond row_key q.ascending id) all_matches
      unfolding ordered_matches
      ordered_matches-later t id e =
          ap (sort_by row_key q.ascending) (
            keep_ext (selects_row p (content_of q ifi) t db)
              (λ row. beyond row_key q.ascending id row && chosen row)
              (λ row.
                selects_row-later p (content_of q ifi) db timely t (before q.ascending id row.id)
                  row (e row.id))
              db.statements
            ∙ keep-keep (beyond row_key q.ascending id) chosen db.statements)
          ∙ sym (
              keep-sort_by row_key q.ascending (beyond row_key q.ascending id)
                (keep chosen db.statements) (keep-HasKeys row_key chosen db.statements unique))

      module _ (codec : (i : ℕ) → i < 2 ^ 128 → p.pg_uuid_bits (p.uuid_text i) ≡ some i)
          (full : (i : ℕ) → present (some (p.uuid_text i)) ≡ true)
          (small : All (λ row. row.id < 2 ^ 128) db.statements) where
        -- the cursor of a row that is found
        cursor_bound :
            (row : StatementRow)
            → row.id < 2 ^ 128
            → bind_cursor p (some (p.uuid_text row.id)) ≡ ok (some row.id)
        cursor_bound row lt =
            let bits = codec row.id lt in let some_text = full row.id in ground arith

        collect_step :
            (fuel : ℕ) (c : Option String) (t : ℕ → Bool) (shown m : List StatementRow)
            → ((c' : Option String) (t' : ℕ → Bool) (shown' m' : List StatementRow)
                → conditions p q.ascending c' q.since q.until ≡ ok t'
                → ordered_matches p q.ascending (content_of q ifi) t' db ≡ m'
                → shown' ++ m' ≡ all_matches
                → length m' < fuel
                → collect p fuel (at_cursor c') db ≡ ok m')
            → conditions p q.ascending c q.since q.until ≡ ok t
            → ordered_matches p q.ascending (content_of q ifi) t db ≡ m
            → shown ++ m ≡ all_matches
            → length m < suc fuel
            → collect p (suc fuel) (at_cursor c) db ≡ ok m
        collect_step fuel c t shown m ih cond found split enough =
            let asked = take (suc (suc size)) m in
            let page = page_of (suc size) asked in
            let ran : query_statements p (at_cursor c) db ≡ ok page =
              query_statements_lem c t cond
              ∙ ap (λ x. ok (page_of (suc size) (take (suc (suc size)) x))) found in
            elim (Bool-cases (ltb (suc size) (length asked))) [
              | inl more ↦
                  let longer = ltb→lt (suc size) (length asked) more in
                  let fits = lt-length-of-take (suc size) m longer in
                  let (row, is_last) = last-take size m (omega arith) in
                  let shown_rows : page.rows ≡ take (suc size) m =
                    rw more (pop-take (suc size) m longer) in
                  let rows_end : last page.rows ≡ some row = ap last shown_rows ∙ is_last in
                  let (lt, near) =
                    All-last (λ r. (r.id < 2 ^ 128) × (timely r.id ≡ true)) (suc size) m row
                      (All-right (λ r. (r.id < 2 ^ 128) × (timely r.id ≡ true)) shown m
                        (subst (All (λ r. (r.id < 2 ^ 128) × (timely r.id ≡ true))) (sym split)
                          (All-all_matches (λ r. r.id < 2 ^ 128) small)))
                      is_last in
                  let (t', cond', later) =
                    conditions-continued p q.ascending q.since q.until (p.uuid_text row.id) row.id
                      above up_to since_ok until_ok (cursor_bound row lt) (full row.id) near in
                  let rest : ordered_matches p q.ascending (content_of q ifi) t' db
                      ≡ drop (suc size) m =
                    ordered_matches-later t' row.id later
                    ∙ ap (keep (beyond row_key q.ascending row.id)) (sym split)
                    ∙ keep-beyond-append row_key q.ascending shown m (suc size) row
                        (subst (IsStrict row_key q.ascending) (sym split) all_matches-IsStrict)
                        is_last in
                  let done =
                    ih (some (p.uuid_text row.id)) t' (shown ++ take (suc size) m)
                      (drop (suc size) m) cond' rest
                      (append_assoc shown (take (suc size) m) (drop (suc size) m)
                        ∙ ap (λ x. shown ++ x) (take-append-drop (suc size) m)
                        ∙ split)
                      (omega (arith, length-drop (suc size) m)) in
                  collect_more p fuel (at_cursor c) db page row.id (drop (suc size) m) ran
                    (next_cursor-more page row more rows_end) done
                  ∙ ap (λ x. ok (x ++ drop (suc size) m)) shown_rows
                  ∙ ap ok (take-append-drop (suc size) m)
              | inr none_left ↦
                  collect_done p fuel (at_cursor c) db page ran (next_cursor-done page none_left)
                  ∙ ap ok (
                      rw none_left
                        (take_all (suc size) m (ltb→ge (suc size) (length asked) none_left)))
            ]

        pub collect_all :
            (fuel : ℕ) (c : Option String) (t : ℕ → Bool) (shown m : List StatementRow)
            → conditions p q.ascending c q.since q.until ≡ ok t
            → ordered_matches p q.ascending (content_of q ifi) t db ≡ m
            → shown ++ m ≡ all_matches
            → length m < fuel
            → collect p fuel (at_cursor c) db ≡ ok m
        collect_all zero c t shown m cond found split enough = absurd (omega arith)
        collect_all (suc fuel) c t shown m cond found split enough =
            collect_step fuel c t shown m (collect_all fuel) cond found split enough

      pub conditions_first : conditions p q.ascending none q.since q.until ≡ ok timely
      unfolding conditions
      conditions_first = rw (since_ok, until_ok) refl

      pub length-all_matches : length all_matches ≤ length db.statements
      unfolding ordered_matches
      length-all_matches = omega (
        arith,
        length-sort_by row_key q.ascending (keep chosen db.statements),
        length-keep-le chosen db.statements,
      )
