-- ===== src/Stream/Listener/Recovery.antt =====
-- A listener that lost its connection gets one again.
use xapi_lrs.Prelude.{◌<◌, ◌≡◌, true, false, arith, is_some, Bool-cases, inl, inr}
use xapi_lrs.Stream.Listener.{PgListener, Runs, connect_client, connected, timer_fires, is_ready}
use xapi_lrs.Stream.Listener.Laws.{Runs-IsWatching}

-- a state is reached from another by the timer and by connections that are answered, with no other
-- step
pub data RetriedFrom (t : PgListener) : PgListener → Type 0 where
  stays : RetriedFrom t t
  fires_then :
      (s : PgListener) → s.reconnect_timer ≡ true → RetriedFrom t (timer_fires s) → RetriedFrom t s
  connects_then :
      (s : PgListener) → 0 < s.connecting → RetriedFrom t (connected s) → RetriedFrom t s

connects_next :
    (s : PgListener)
    → s.stopped ≡ false
    → 0 < s.connecting
    → (t : PgListener) × RetriedFrom t s × (is_ready t ≡ true)
unfolding connected
connects_next s runs waits = (connected s, connects_then s waits stays, ground arith)

fires_next :
    (s : PgListener)
    → s.stopped ≡ false
    → s.reconnect_timer ≡ true
    → (t : PgListener) × RetriedFrom t s × (is_ready t ≡ true)
unfolding timer_fires connect_client
fires_next s runs set =
    let (t, way, ready) = connects_next (timer_fires s) (still s runs) (waits s runs) in
    (t, fires_then s set way, ready)
  where
    still : (s : PgListener) → s.stopped ≡ false → (timer_fires s).stopped ≡ false
    still s runs = ground arith

    waits : (s : PgListener) → s.stopped ≡ false → 0 < (timer_fires s).connecting
    waits s runs = ground arith

-- From every state that a listener can come to and in which it is not stopped, the timer and
-- connections that are answered make it ready.
pub Runs-recover :
    (s : PgListener)
    → Runs s
    → s.stopped ≡ false
    → (t : PgListener) × RetriedFrom t s × (is_ready t ≡ true)
Runs-recover s run runs =
    let (alive, _, _) = Runs-IsWatching s run in
    elim (Bool-cases (is_some s.client)) [
      | inl there ↦ (s, stays, ground arith)
      | inr gone ↦ elim (Bool-cases s.reconnect_timer) [
        | inl set ↦ fires_next s runs set
        | inr unset ↦ connects_next s runs (ground arith)
      ]
    ]
