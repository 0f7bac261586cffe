-- ===== src/Statement/Consistent.antt =====
-- repositories/statements.ts, `getConsistentThrough` and `getTransactionTime`: the time up to which
-- all statements can be read. Times of the database are in microseconds.
use xapi_lrs.Prelude.{
  ℕ, ◌-◌, ◌/◌, ◌≤◌, ◌<◌, ◌≡◌, refl, Bool, not, ◌&&◌, Option, none, some, List, [], ◌∷◌, ◌++◌, ltb,
  arith, if◌then◌else◌,
}

-- a row of pg_stat_activity, with the tests of the query on it
pub record Session : Type 0 where
  pub own_database : Bool
  pub own_user : Bool
  pub client_backend : Bool
  pub own_backend : Bool
  pub xact_start : Option ℕ

-- the start of a transaction that the query counts
abbrev pub counted : Session → Option ℕ
counted s =
    if s.own_database && (s.own_user && (s.client_backend && not s.own_backend))
    then s.xact_start
    else none

-- `min`
abbrev pub least : Option ℕ → Option ℕ → Option ℕ
least none b = b
least (some a) none = some a
least (some a) (some b) = some (if ltb a b then a else b)

unfoldable pub oldest_start : List Session → Option ℕ
oldest_start [] = none
oldest_start (s ∷ rest) = least (counted s) (oldest_start rest)

-- `LEAST(now(), COALESCE(min(xact_start) - interval '1 millisecond', now()))`
abbrev pub bound_at : ℕ → Option ℕ → ℕ
bound_at now none = now
bound_at now (some start) = if ltb now (start - 1000) then now else start - 1000

-- a database time as a Date, which keeps whole milliseconds
abbrev pub to_millis : ℕ → ℕ
to_millis micros = micros / 1000

-- `getConsistentThrough`
unfoldable pub get_consistent_through : ℕ → List Session → ℕ
unfolding oldest_start
get_consistent_through now sessions = to_millis (bound_at now (oldest_start sessions))

-- `getTransactionTime` of a transaction with the given start
unfoldable pub get_transaction_time : ℕ → ℕ
get_transaction_time xact_start = to_millis xact_start

IsLeast : Option ℕ → ℕ → Type 0
IsLeast o a = (x : ℕ) × (o ≡ some x) × (x ≤ a)

least-left : (a : ℕ) (o : Option ℕ) → IsLeast (least (some a) o) a
unfolding IsLeast
least-left a none = (a, refl, omega arith)
least-left a (some b) = (if ltb a b then a else b, refl, ground arith)

least-right : (o : Option ℕ) (m a : ℕ) → m ≤ a → IsLeast (least o (some m)) a
unfolding IsLeast
least-right none m a h = (m, refl, h)
least-right (some b) m a h = (if ltb b m then b else m, refl, ground arith)

oldest_start-le :
    (before later : List Session) (s : Session) (start : ℕ)
    → counted s ≡ some start
    → IsLeast (oldest_start (before ++ s ∷ later)) start
unfolding oldest_start IsLeast
oldest_start-le [] later s start h = rw h (least-left start (oldest_start later))
oldest_start-le (r ∷ before) later s start h =
    let (m, e, l) = oldest_start-le before later s start h in
    rw e (least-right (counted r) m start l)

-- While another transaction of this role is open, the header is before the time that its
-- statements get, though both are cut to milliseconds. The transaction is assumed to have begun
-- at least a millisecond after 1970.
pub get_consistent_through-lt :
    (now start : ℕ) (before later : List Session) (s : Session)
    → counted s ≡ some start
    → 1000 ≤ start
    → get_consistent_through now (before ++ s ∷ later) < get_transaction_time start
unfolding get_consistent_through get_transaction_time IsLeast
get_consistent_through-lt now start before later s h g =
    let (m, e, l) = oldest_start-le before later s start h in rw e (ground arith)
