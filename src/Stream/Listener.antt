-- ===== src/Stream/Listener.antt =====
-- sse/pg-listener.ts: the connection that listens for PostgreSQL's notifications. Handlers and
-- clients are named by numbers. The steps are what callers, the client library and the timer do, in
-- any order; one channel is allowed, so that the LISTEN statements of a new connection are sent in
-- one step.
pub mod Laws
pub mod Recovery
use xapi_lrs.Prelude.{
  ℕ, suc, ◌-◌, ◌<◌, String, Bool, true, false, not, ◌&&◌, ◌||◌, ◌+◌, ◌≡◌, Option, none, some, List,
  [], ◌∷◌, ◌++◌, ◌==◌, ◌=ℕ◌, any, keep, map, contains, concat, is_some, or_else, if◌then◌else◌,
}
use xapi_lrs.Http.{Result, ok, err, other}

-- `Map<string, Set<NotificationHandler>>`
abbrev pub Handlers : Type 0
Handlers = List (String × List ℕ)

pub record PgListener : Type 0 where
  pub client : Option ℕ
  pub handlers : Handlers
  pub reconnect_timer : Bool
  pub stopped : Bool
  -- the calls of `connect` that await their client, and the number of the next client
  pub connecting : ℕ
  pub next_client : ℕ
  -- the calls of `stop` that await the end of their client
  pub stopping : ℕ
  -- the LISTEN statements that were sent, by client
  pub sent : List (ℕ × String)

-- `new PgListener`
abbrev pub new_listener : PgListener
new_listener = record {
  client = none;
  handlers = [];
  reconnect_timer = false;
  stopped = false;
  connecting = 0;
  next_client = 0;
  stopping = 0;
  sent = [];
}

-- ALLOWED_CHANNELS
abbrev pub allowed_channels : List String
allowed_channels = "xapi_statement_stored" ∷ []

abbrev pub handlers_of : String → Handlers → Option (List ℕ)
handlers_of channel [] = none
handlers_of channel ((c, hs) ∷ rest) = if c == channel then some hs else handlers_of channel rest

-- `handlers.add(handler)` in the Set of a channel, which may be new
abbrev pub with_handler : ℕ → List ℕ → List ℕ
with_handler h hs = if any (λ x. x =ℕ h) hs then hs else hs ++ h ∷ []

unfoldable pub add_handler : String → ℕ → Handlers → Handlers
add_handler channel h [] = (channel, h ∷ []) ∷ []
add_handler channel h ((c, hs) ∷ rest) =
    let later = add_handler channel h rest in
    if c == channel then (c, with_handler h hs) ∷ rest else (c, hs) ∷ later

-- `handlers.delete(handler)`, and the channel with it where no handler is left
abbrev pub unless_none : String → List ℕ → Handlers → Handlers
unless_none channel [] rest = rest
unless_none channel (h ∷ hs) rest = (channel, h ∷ hs) ∷ rest

unfoldable pub remove_handler : String → ℕ → Handlers → Handlers
remove_handler channel h [] = []
remove_handler channel h ((c, hs) ∷ rest) =
    let later = remove_handler channel h rest in
    if c == channel then unless_none c (keep (λ x. not (x =ℕ h)) hs) rest else (c, hs) ∷ later

-- `isReady`
abbrev pub is_ready : PgListener → Bool
is_ready s = not s.stopped && is_some s.client

-- `connect`, up to the await
unfoldable pub connect_client : PgListener → PgListener
connect_client s = if s.stopped then s else record s { connecting = suc s.connecting }

-- `start`
unfoldable pub start : PgListener → PgListener
start s = connect_client (record s { stopped = false })

-- `stop`, up to the await of the client's end, and after it
unfoldable pub stop : PgListener → PgListener
stop s = record s {
  stopped = true;
  reconnect_timer = false;
  stopping = if is_some s.client then suc s.stopping else s.stopping;
}

unfoldable pub stop_ended : PgListener → PgListener
stop_ended s = record s { client = none; stopping = s.stopping - 1 }

-- the LISTEN statement of a new channel, if there is a client
abbrev pub listen_new : Option ℕ → Bool → String → List (ℕ × String)
listen_new (some n) true channel = (n, channel) ∷ []
listen_new _ _ channel = []

-- `on`
unfoldable pub on : String → ℕ → PgListener → Result PgListener
on channel h s =
    if contains allowed_channels channel
    then ok (record s {
      handlers = add_handler channel h s.handlers;
      sent = s.sent ++ listen_new s.client (not (is_some (handlers_of channel s.handlers))) channel;
    })
    else err other

-- `off`
unfoldable pub off : String → ℕ → PgListener → PgListener
off channel h s = record s { handlers = remove_handler channel h s.handlers }

-- `connect`, after the await: the client is kept, and listens on every channel
unfoldable pub connected : PgListener → PgListener
connected s = record s {
  client = some s.next_client;
  next_client = suc s.next_client;
  connecting = s.connecting - 1;
  sent = s.sent ++ map (λ entry. (s.next_client, entry.0)) s.handlers;
}

-- `scheduleReconnect`
unfoldable pub schedule_reconnect : PgListener → PgListener
schedule_reconnect s =
    if s.stopped || s.reconnect_timer then s else record s { client = none; reconnect_timer = true }

-- `connect`, where its client fails
unfoldable pub connect_failed : PgListener → PgListener
connect_failed s = schedule_reconnect (record s { connecting = s.connecting - 1 })

-- the events `error` and `end` of a client, of which the second is passed over once it is stopped
unfoldable pub on_error_event : PgListener → PgListener
on_error_event s = schedule_reconnect s

unfoldable pub on_end_event : PgListener → PgListener
on_end_event s = if s.stopped then s else schedule_reconnect s

-- the timer
unfoldable pub timer_fires : PgListener → PgListener
timer_fires s = connect_client (record s { reconnect_timer = false })

-- the handlers that are called with a notification
unfoldable pub notified : String → String → PgListener → List ℕ
notified channel payload s =
    if payload == "" then [] else or_else (handlers_of channel s.handlers) []

-- one step; a caller starts the listener only after a stop has ended
pub data ListenerStep (s : PgListener) : PgListener → Type 0 where
  starts : s.stopping ≡ 0 → ListenerStep s (start s)
  stops : ListenerStep s (stop s)
  stop_ends : 0 < s.stopping → ListenerStep s (stop_ended s)
  adds : (channel : String) (h : ℕ) (s' : PgListener) → on channel h s ≡ ok s' → ListenerStep s s'
  removes : (channel : String) (h : ℕ) → ListenerStep s (off channel h s)
  connects : 0 < s.connecting → ListenerStep s (connected s)
  fails : 0 < s.connecting → ListenerStep s (connect_failed s)
  errs : ListenerStep s (on_error_event s)
  ends : ListenerStep s (on_end_event s)
  fires : s.reconnect_timer ≡ true → ListenerStep s (timer_fires s)

-- the states after a first start
pub data Runs : PgListener → Type 0 where
  started : Runs (start new_listener)
  then_step : (s s' : PgListener) → Runs s → ListenerStep s s' → Runs s'
