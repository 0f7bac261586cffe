-- ===== src/Stream.antt =====
-- sse/sse-producer.ts: the connections of GET /xapi/stream. The counters are those of
-- `createSseRoute`; a connection is known by the address that it was counted under.
pub mod Laws
pub mod Events
pub mod Listener
use xapi_lrs.Prelude.{
  ℕ, ◌+◌, ◌-◌, String, Bool, true, false, Option, none, some, List, [], ◌∷◌, ◌==◌, leb, contains,
  or_else, if◌then◌else◌, ◌≡◌,
}

-- `perIpCount`
abbrev pub Counts : Type 0
Counts = List (String × ℕ)

unfoldable pub count_of : String → Counts → Option ℕ
count_of ip [] = none
count_of ip ((k, n) ∷ rest) = if k == ip then some n else count_of ip rest

unfoldable pub set_count : String → ℕ → Counts → Counts
set_count ip n [] = (ip, n) ∷ []
set_count ip n ((k, m) ∷ rest) = if k == ip then (ip, n) ∷ rest else (k, m) ∷ set_count ip n rest

unfoldable pub delete_count : String → Counts → Counts
delete_count ip [] = []
delete_count ip ((k, m) ∷ rest) =
    let later = delete_count ip rest in if k == ip then later else (k, m) ∷ later

pub record Counters : Type 0 where
  pub global : ℕ
  pub per_ip : Counts

pub record ConnectionLimits : Type 0 where
  pub max_global : ℕ
  pub max_per_ip : ℕ

-- the stream, 503 or 429
pub data Admission : Type 0 where
  streaming too_many too_many_from_ip : Admission

abbrev pub counted_in : String → Counters → Counters
counted_in ip c = record {
  global = c.global + 1;
  per_ip = set_count ip (or_else (count_of ip c.per_ip) 0 + 1) c.per_ip;
}

-- GET /stream, up to the stream
unfoldable pub connect : ConnectionLimits → String → Counters → Admission × Counters
connect l ip c =
    if leb l.max_global c.global
    then (too_many, c)
    else if leb l.max_per_ip (or_else (count_of ip c.per_ip) 0)
    then (too_many_from_ip, c)
    else (streaming, counted_in ip c)

-- `stream.onAbort`
unfoldable pub on_abort : String → Counters → Counters
on_abort ip c = record {
  global = c.global - 1;
  per_ip =
      if leb (or_else (count_of ip c.per_ip) 1 - 1) 0
      then delete_count ip c.per_ip
      else set_count ip (or_else (count_of ip c.per_ip) 1 - 1) c.per_ip;
}

-- the counters with the addresses of the connections that are open
pub record StreamState : Type 0 where
  pub counters : Counters
  pub clients : List String

abbrev pub no_clients : StreamState
no_clients = record { counters = record { global = 0; per_ip = [] }; clients = [] }

abbrev pub admitted : Admission → String → List String → List String
admitted streaming ip clients = ip ∷ clients
admitted _ ip clients = clients

-- the list without one occurrence
unfoldable pub remove_one : String → List String → List String
remove_one ip [] = []
remove_one ip (k ∷ rest) = if k == ip then rest else k ∷ remove_one ip rest

abbrev pub asked : ConnectionLimits → String → StreamState → StreamState
asked l ip s = record {
  counters = (connect l ip s.counters).1;
  clients = admitted (connect l ip s.counters).0 ip s.clients;
}

abbrev pub left : String → StreamState → StreamState
left ip s = record { counters = on_abort ip s.counters; clients = remove_one ip s.clients }

-- a client asks for the stream, or one that is connected leaves
pub data Step (l : ConnectionLimits) : StreamState → StreamState → Type 0 where
  asks : (ip : String) (s : StreamState) → Step l s (asked l ip s)
  leaves : (ip : String) (s : StreamState) → contains s.clients ip ≡ true → Step l s (left ip s)

pub data Reachable (l : ConnectionLimits) : StreamState → Type 0 where
  start : Reachable l no_clients
  after : {s t : StreamState} → Reachable l s → Step l s t → Reachable l t
