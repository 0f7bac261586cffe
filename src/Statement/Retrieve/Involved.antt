-- ===== src/Statement/Retrieve/Involved.antt =====
-- The statements that a query by the caller's IFI selects.
use xapi_lrs.Prelude.{
  ℕ, suc, String, ◌≡◌, refl, sym, ap, subst, ◌∙◌, Bool, true, false, not, ◌&&◌, ◌||◌, Option, some,
  List, [], ◌∷◌, ◌==◌, any, arith, Bool-cases, inl, inr, ◌⊎◌, All, All-take, All-pop, All-sort_by,
  keep-All, keep, take, pop, length, ltb, if◌then◌else◌,
}
use xapi_lrs.Http.{ok, >>=-eq-ok, ok-injective}
use xapi_lrs.Platform.{Platform}
use xapi_lrs.Statement.Store.{StatementDb, StatementRow, StatementLink}
use xapi_lrs.Statement.Query.{
  QueryParams, Page, has_actor, content_of, agent_filter, selects_row, targets_voided,
  matches_content, query_statements, page_of, ordered_matches, time_conditions, effective_limit,
  row_key, has_content,
}

-- a voided statement that involves the agent, at the end of the links from a statement
abbrev pub refers_to_voided : StatementDb → String → String → Bool
refers_to_voided db ifi id =
    any
      (λ (l : StatementLink).
        l.ancestor_id == id
        && any
            (λ (v : StatementRow).
              v.statement_id == l.descendant_id
              && (v.is_voided && has_actor db true ifi v.statement_id))
            db.statements)
      db.statement_to_statement

abbrev pub Involves : StatementDb → String → StatementRow → Type 0
Involves db ifi row =
    (row.is_voided ≡ false)
    × (has_actor db true ifi row.statement_id || refers_to_voided db ifi row.statement_id ≡ true)

-- a weaker test of the elements
any_mono :
    {A : Type 0} (f g : A → Bool) (xs : List A)
    → ((x : A) → f x ≡ true → g x ≡ true)
    → any f xs ≡ true
    → any g xs ≡ true
any_mono f g [] h e = e
any_mono f g (x ∷ xs) h e = elim (Bool-cases (f x)) [
  | inl here ↦ rw (h x here) refl
  | inr apart ↦ ground (arith, any_mono f g xs h (rw apart at e))
]

and-left : (a b : Bool) → (a && b) ≡ true → a ≡ true
and-left true b h = refl
and-left false b h = h

and-right : (a b : Bool) → (a && b) ≡ true → b ≡ true
and-right true b h = h
and-right false b h = absurd (cc)

pub and-intro : (a b : Bool) → a ≡ true → b ≡ true → (a && b) ≡ true
and-intro a b h g = rw (h, g) refl

-- the WHERE clause as a formula
selected-cases :
    (voided m t has tv : Bool)
    → ((not voided && (m && t)) || (has && (not voided && (t && tv)))) ≡ true
    → (voided ≡ false) × ((m ≡ true) ⊎ (tv ≡ true))
selected-cases true m t has tv h = ground arith
selected-cases false true t has tv h = (refl, inl refl)
selected-cases false false t has tv h = (refl, inr (ground arith))

or-intro : (a b : Bool) → (a ≡ true) ⊎ (b ≡ true) → (a || b) ≡ true
or-intro a b (inl h) = rw h refl
or-intro true b (inr h) = refl
or-intro false b (inr h) = h

if_All :
    (P : StatementRow → Type 0) (b : Bool) (xs : List StatementRow)
    → All P xs
    → All P (if b then pop xs else xs)
if_All P true xs h = All-pop P xs h
if_All P false xs h = h

module _ (p : Platform) (ifi : String) (q : QueryParams) (db : StatementDb)
    (related : q.related_agents ≡ true) where
  matches_content-has_actor :
      (row : StatementRow)
      → matches_content p (content_of q (some ifi)) db row ≡ true
      → has_actor db true ifi row.statement_id ≡ true
  unfolding matches_content
  matches_content-has_actor row h =
      subst (λ b. has_actor db b ifi row.statement_id ≡ true) related
        (and-left _ _ (and-right _ _ h))

  targets_voided-refers :
      (row : StatementRow)
      → targets_voided p (content_of q (some ifi)) db row ≡ true
      → refers_to_voided db ifi row.statement_id ≡ true
  unfolding targets_voided
  targets_voided-refers row h =
      any_mono _ _ db.statement_to_statement
        (λ l e. and-intro _ _ (and-left _ _ e) (
          any_mono _ _ db.statements
            (λ v g. and-intro _ _ (and-left _ _ g) (
              and-intro _ _ (and-left _ _ (and-right _ _ g))
                (matches_content-has_actor v (and-right _ _ (and-right _ _ g)))))
            (and-right _ _ e)))
        h

  selects_row-Involves :
      (timely : ℕ → Bool) (row : StatementRow)
      → selects_row p (content_of q (some ifi)) timely db row ≡ true
      → Involves db ifi row
  unfolding selects_row
  selects_row-Involves timely row h =
      let (live, cases) =
        selected-cases row.is_voided (matches_content p (content_of q (some ifi)) db row)
          (timely row.id) (has_content (content_of q (some ifi)))
          (targets_voided p (content_of q (some ifi)) db row) h in
      (
        live,
        or-intro _ _ (elim cases [
          | inl m ↦ inl (matches_content-has_actor row m)
          | inr t ↦ inr (targets_voided-refers row t)
        ]),
      )

  page_of-Involves :
      (timely : ℕ → Bool) (limit : ℕ)
      → All
          (Involves db ifi)
          (page_of limit (
            take
              (suc limit)
              (ordered_matches p q.ascending (content_of q (some ifi)) timely db))).rows
  unfolding ordered_matches
  page_of-Involves timely limit =
      let c = content_of q (some ifi) in
      let found = ordered_matches p q.ascending c timely db in
      let mine = All-take (Involves db ifi) (suc limit) found (
        All-sort_by row_key q.ascending (Involves db ifi)
          (keep (selects_row p c timely db) db.statements)
          (keep-All (Involves db ifi) (selects_row p c timely db)
            (λ row h. selects_row-Involves timely row h) db.statements)) in
      if_All (Involves db ifi) (ltb limit (length (take (suc limit) found)))
        (take (suc limit) found) mine

  pub query_statements-Involves :
      (found : Page)
      → agent_filter p q.agent ≡ ok (some ifi)
      → query_statements p q db ≡ ok found
      → All (Involves db ifi) found.rows
  unfolding query_statements
  query_statements-Involves found f h =
      let (o, e₁, h₁) = >>=-eq-ok (agent_filter p q.agent) _ h in
      let (timely, e₂, h₂) = >>=-eq-ok (time_conditions p q) _ h₁ in
      let (limit, e₃, h₃) = >>=-eq-ok (effective_limit q) _ h₂ in
      let same_ifi : o ≡ some ifi = ok-injective (sym e₁ ∙ f) in
      subst (λ (x : Page). All (Involves db ifi) x.rows)
        (ap
            (λ (i : Option String).
              page_of limit
                (take (suc limit) (ordered_matches p q.ascending (content_of q i) timely db)))
            (sym same_ifi)
          ∙ ok-injective h₃)
        (page_of-Involves timely limit)
