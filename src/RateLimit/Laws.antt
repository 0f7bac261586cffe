-- ===== src/RateLimit/Laws.antt =====
-- The limit over every window of time.
use xapi_lrs.Prelude.{
  ℕ, ◌+◌, ◌*◌, ◌≤◌, String, ◌≡◌, refl, sym, ap, subst, ◌∙◌, Bool, true, false, some, List, [], ◌∷◌,
  ◌++◌, ◌==◌, eq_iff, eq_refl, ltb, leb, keep, length, arith, if◌then◌else◌, length-append,
  Bool-cases, inl, inr,
}
use xapi_lrs.RateLimit.{
  Limiter, Buckets, new_limiter, bucket, set_bucket, recorded, recent, check, decide, Verdict,
  allowed,
}

bucket-set_bucket :
    (k j : String) (ts : List ℕ) (b : Buckets)
    → bucket j (set_bucket k ts b) ≡ (if k == j then some ts else bucket j b)
unfolding bucket set_bucket
bucket-set_bucket k j ts [] = refl
bucket-set_bucket k j ts ((i, us) ∷ rest) =
    ground (arith, eq_iff k j, eq_iff i k, eq_iff i j, bucket-set_bucket k j ts rest)

-- the times that lie in the window of `w` milliseconds that ends at `n`
abbrev pub in_window : ℕ → ℕ → List ℕ → List ℕ
in_window w n ts = keep (λ t. ltb n (t + w)) ts

in_window-in_window :
    (w now n : ℕ) (ts : List ℕ) → now ≤ n → in_window w n (in_window w now ts) ≡ in_window w n ts
in_window-in_window w now n [] h = refl
in_window-in_window w now n (t ∷ ts) h = ground (arith, in_window-in_window w now n ts h)

in_window-append :
    (w n : ℕ) (xs ys : List ℕ) → in_window w n (xs ++ ys) ≡ in_window w n xs ++ in_window w n ys
in_window-append w n [] ys = refl
in_window-append w n (x ∷ xs) ys = ground (arith, in_window-append w n xs ys)

length-in_window : (w n : ℕ) (ts : List ℕ) → length (in_window w n ts) ≤ length ts
length-in_window w n [] = omega arith
length-in_window w n (t ∷ ts) = ground (arith, length-in_window w n ts)

-- A run of requests, each of a key at a time: the limiter that it leaves, and the times at which
-- the key `k` was let through.
abbrev pub logged : Bool → Verdict → ℕ → List ℕ → List ℕ
logged true allowed now log = log ++ now ∷ []
logged _ v now log = log

unfoldable pub run : String → List (String × ℕ) → Limiter → List ℕ → Limiter × List ℕ
run k [] l log = (l, log)
run k ((j, now) ∷ rest) l log =
    run k rest (check l j now).0 (logged (j == k) (check l j now).1 now log)

-- the times do not go back
abbrev pub IsOrdered : ℕ → List (String × ℕ) → Type 0
IsOrdered last [] = Unit
IsOrdered last ((j, now) ∷ rest) = (last ≤ now) × IsOrdered now rest

abbrev pub end_time : ℕ → List (String × ℕ) → ℕ
end_time last [] = last
end_time last ((j, now) ∷ rest) = end_time now rest

module _ (k : String) (w m : ℕ) where
  abbrev held : Limiter → List ℕ
  held l = recorded (bucket k l.buckets)

  -- The limiter holds, of the times that were let through, all that a window can still contain.
  record Holds (l : Limiter) (log : List ℕ) (last : ℕ) : Type 0 where
    window : l.window_ms ≡ w
    most : l.max ≡ m
    same : (n : ℕ) → last ≤ n → in_window w n log ≡ in_window w n (held l)
    few : (n : ℕ) → last ≤ n → length (in_window w n log) ≤ m

  module _ (l : Limiter) (log : List ℕ) (last now : ℕ) (h : Holds l log last)
      (later : last ≤ now) where
    abbrev seen : List ℕ
    seen = in_window w now (held l)

    held_set : (ts : List ℕ) → recorded (bucket k (set_bucket k ts l.buckets)) ≡ ts
    held_set ts = rw (bucket-set_bucket k k ts l.buckets, eq_refl k) refl

    same_seen : (n : ℕ) → now ≤ n → in_window w n log ≡ in_window w n seen
    same_seen n le = h.same n (omega arith) ∙ sym (in_window-in_window w now n (held l) le)

    few_more :
        (n : ℕ)
        → now ≤ n
        → leb m (length seen) ≡ false
        → length (in_window w n (log ++ now ∷ [])) ≤ m
    few_more n le room =
        let split = ap length (in_window-append w n log (now ∷ [])) in
        let old = ap length (same_seen n le) in
        let one = length-in_window w n (now ∷ []) in
        let bound = length-in_window w n seen in
        let below : length seen + 1 ≤ m = ground arith in
        omega (arith, length-append (in_window w n log) (in_window w n (now ∷ [])))

    full-Holds : Holds (record l { buckets = set_bucket k seen l.buckets }) log now
    full-Holds = record {
      window = h.window;
      most = h.most;
      same = λ n le. same_seen n le ∙ ap (in_window w n) (sym (held_set seen));
      few = λ n le. h.few n (omega arith);
    }

    room-Holds :
        leb m (length seen) ≡ false
        → Holds
            (record l { buckets = set_bucket k (seen ++ now ∷ []) l.buckets })
            (log ++ now ∷ [])
            now
    room-Holds room = record {
      window = h.window;
      most = h.most;
      same = λ n le.
          in_window-append w n log (now ∷ [])
          ∙ ap (λ (x : List ℕ). x ++ in_window w n (now ∷ [])) (same_seen n le)
          ∙ sym (in_window-append w n seen (now ∷ []))
          ∙ ap (in_window w n) (sym (held_set (seen ++ now ∷ [])));
      few = λ n le. few_more n le room;
    }

    decide-Holds : Holds (decide l k now seen).0 (logged true (decide l k now seen).1 now log) now
    decide-Holds = elim (Bool-cases (leb l.max (length seen))) [
      | inl full ↦ rw full full-Holds
      | inr room ↦ rw room (room-Holds (ap (λ (x : ℕ). leb x (length seen)) (sym h.most) ∙ room))
    ]

    check-Holds : Holds (check l k now).0 (logged true (check l k now).1 now log) now
    unfolding check
    check-Holds =
        subst (λ ts. Holds (decide l k now ts).0 (logged true (decide l k now ts).1 now log) now)
          (ap (λ x. in_window x now (held l)) (sym h.window)) decide-Holds

  -- a request of another key leaves the bucket of `k`
  bucket-check_ne :
      (l : Limiter) (j : String) (now : ℕ)
      → (j == k) ≡ false
      → bucket k (check l j now).0.buckets ≡ bucket k l.buckets
  unfolding check
  bucket-check_ne l j now ne =
      elim (Bool-cases (leb l.max (length (recent l now (recorded (bucket j l.buckets)))))) [
        | inl full ↦ rw (full, bucket-set_bucket j k _ l.buckets, ne) refl
        | inr room ↦ rw (room, bucket-set_bucket j k _ l.buckets, ne) refl
      ]

  check_config :
      (l : Limiter) (j : String) (now : ℕ)
      → ((check l j now).0.window_ms ≡ l.window_ms) × ((check l j now).0.max ≡ l.max)
  unfolding check
  check_config l j now =
      elim (Bool-cases (leb l.max (length (recent l now (recorded (bucket j l.buckets)))))) [
        | inl full ↦ rw full (refl, refl)
        | inr room ↦ rw room (refl, refl)
      ]

  check-Holds_ne :
      (l : Limiter) (log : List ℕ) (last now : ℕ) (j : String)
      → Holds l log last
      → last ≤ now
      → (j == k) ≡ false
      → Holds (check l j now).0 log now
  check-Holds_ne l log last now j h later ne = record {
    window = (check_config l j now).0 ∙ h.window;
    most = (check_config l j now).1 ∙ h.most;
    same = λ n le.
        h.same n (omega arith)
        ∙ ap (λ b. in_window w n (recorded b)) (sym (bucket-check_ne l j now ne));
    few = λ n le. h.few n (omega arith);
  }

  step-Holds :
      (l : Limiter) (log : List ℕ) (last now : ℕ) (j : String)
      → Holds l log last
      → last ≤ now
      → Holds (check l j now).0 (logged (j == k) (check l j now).1 now log) now
  step-Holds l log last now j h later = elim (Bool-cases (j == k)) [
    | inl same ↦ rw same (
        subst (λ x. Holds (check l x now).0 (logged true (check l x now).1 now log) now)
          (sym ((eq_iff j k).0 same)) (check-Holds l log last now h later))
    | inr ne ↦ rw ne (check-Holds_ne l log last now j h later ne)
  ]

  run-Holds :
      (es : List (String × ℕ)) (l : Limiter) (log : List ℕ) (last : ℕ)
      → Holds l log last
      → IsOrdered last es
      → Holds (run k es l log).0 (run k es l log).1 (end_time last es)
  unfolding run
  run-Holds [] l log last h o = h
  run-Holds ((j, now) ∷ es) l log last h (later, o) =
      run-Holds es _ _ now (step-Holds l log last now j h later) o

-- However the requests of all keys follow one another, as long as the clock does not go back: at
-- every time from the last request on, at most `max` of the requests that were let through for a
-- key lie in the window that ends there.
pub run_limit :
    (k : String) (seconds max : ℕ) (es : List (String × ℕ)) (n : ℕ)
    → IsOrdered 0 es
    → end_time 0 es ≤ n
    → length (in_window (seconds * 1000) n (run k es (new_limiter seconds max) []).1) ≤ max
unfolding bucket
run_limit k seconds max es n o le =
    (run-Holds k (seconds * 1000) max es (new_limiter seconds max) [] 0
        (record { window = refl; most = refl; same = λ n le. refl; few = λ n le. omega arith })
        o).few
      n le
