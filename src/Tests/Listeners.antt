-- ===== src/Tests/Listeners.antt =====
-- The theorems on the listener of notifications, after a lost connection.
use xapi_lrs.Prelude.{◌≡◌, refl, true, false, arith}
use xapi_lrs.Stream.Listener.{
  PgListener, new_listener, start, connect_client, connected, on_error_event, schedule_reconnect,
  Runs, started, then_step, connects, errs, is_ready,
}
use xapi_lrs.Stream.Listener.Laws.{is_alive, is_quiet, Listens, Runs-IsWatching}
use xapi_lrs.Stream.Listener.Recovery.{RetriedFrom, Runs-recover}

abbrev lost : PgListener
lost = on_error_event (connected (start new_listener))

lost-Runs : Runs lost
unfolding start connect_client
lost-Runs = then_step _ lost (then_step _ _ started (connects (omega arith))) errs

Runs-IsWatching_example :
    (is_alive lost ≡ true) × (is_quiet lost ≡ true) × Listens lost.client lost.handlers lost.sent
Runs-IsWatching_example = Runs-IsWatching lost lost-Runs

lost_goes_on : lost.stopped ≡ false
unfolding on_error_event schedule_reconnect connected start connect_client
lost_goes_on = refl

Runs-recover_example : (t : PgListener) × RetriedFrom t lost × (is_ready t ≡ true)
Runs-recover_example = Runs-recover lost lost-Runs lost_goes_on
