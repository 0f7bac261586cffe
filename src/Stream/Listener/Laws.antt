-- ===== src/Stream/Listener/Laws.antt =====
-- What holds of the listener whatever happens to it.
use xapi_lrs.Prelude.{
  ℕ, String, ◌≡◌, refl, sym, subst, inl, inr, Bool, true, false, not, ◌&&◌, ◌||◌, Option, none,
  some, List, [], ◌∷◌, ◌++◌, ◌==◌, ◌=ℕ◌, eq_iff, arith, All, All-map, any, map, ltb, contains,
  is_some, keep, if◌then◌else◌, Bool-cases,
}
use xapi_lrs.Http.{ok-injective}
use xapi_lrs.Stream.Listener.{
  Handlers, PgListener, allowed_channels, handlers_of, add_handler, unless_none, remove_handler,
  connect_client, start, stop, stop_ended, listen_new, on, off, connected, schedule_reconnect,
  connect_failed, on_error_event, on_end_event, timer_fires, ListenerStep, starts, stops, stop_ends,
  adds, removes, connects, fails, errs, ends, fires, Runs, started, then_step,
}

-- the listener is stopped, or has a client, or will have one or another try: a connection is under
-- way or the timer is set
abbrev pub is_alive : PgListener → Bool
is_alive s = s.stopped || is_some s.client || s.reconnect_timer || ltb 0 s.connecting

-- no timer is set once it is stopped, and a stop is awaited only when it is stopped
abbrev pub is_quiet : PgListener → Bool
is_quiet s = not (s.reconnect_timer && s.stopped) && (s.stopped || not (ltb 0 s.stopping))

IsSteady : PgListener → Type 0
IsSteady s = (is_alive s ≡ true) × (is_quiet s ≡ true)

schedule_reconnect-IsSteady : (s : PgListener) → is_quiet s ≡ true → IsSteady (schedule_reconnect s)
unfolding IsSteady schedule_reconnect
schedule_reconnect-IsSteady s h = elim (Bool-cases s.stopped) [
  | inl over ↦ ground (arith, over)
  | inr runs ↦ elim (Bool-cases s.reconnect_timer) [
    | inl set ↦ ground (arith, runs, set)
    | inr unset ↦ ground (arith, runs, unset)
  ]
]

-- a stopped listener passes both events over
end_as_error : (s : PgListener) → on_end_event s ≡ schedule_reconnect s
unfolding on_end_event schedule_reconnect
end_as_error s = elim (Bool-cases s.stopped) [
  | inl over ↦ simp over refl
  | inr runs ↦ simp runs refl
]

step-IsSteady : (s s' : PgListener) → ListenerStep s s' → IsSteady s → IsSteady s'
unfolding IsSteady connect_client start stop stop_ended on off connected connect_failed
    on_error_event on_end_event timer_fires
step-IsSteady s _ (starts idle) h = ground arith
step-IsSteady s _ stops h = ground arith
step-IsSteady s _ (stop_ends waits) h = ground arith
step-IsSteady s _ (adds channel n new at) h =
    elim (Bool-cases (contains allowed_channels channel)) [
      | inl allowed ↦ subst IsSteady (ok-injective (rw allowed at at)) h
      | inr refused ↦ ground (arith, refused)
    ]
step-IsSteady s _ (removes channel n) h = h
step-IsSteady s _ (connects waits) h = ground arith
step-IsSteady s _ (fails waits) h = schedule_reconnect-IsSteady _ h.1
step-IsSteady s _ errs h = schedule_reconnect-IsSteady s h.1
step-IsSteady s _ ends h = subst IsSteady (sym (end_as_error s)) (schedule_reconnect-IsSteady s h.1)
step-IsSteady s _ (fires set) h = ground arith

-- the client has been sent a LISTEN for the channel
abbrev pub is_sent : ℕ → String → List (ℕ × String) → Bool
is_sent n channel sent = any (λ entry. (entry.0 =ℕ n) && entry.1 == channel) sent

-- the client, if there is one, listens on every channel that has handlers
abbrev pub Listens : Option ℕ → Handlers → List (ℕ × String) → Type 0
Listens none handlers sent = Unit
Listens (some n) handlers sent = All (λ entry. is_sent n entry.0 sent ≡ true) handlers

any_left {ℓ} :
    {A : Type ℓ} (q : A → Bool) (xs ys : List A) → any q xs ≡ true → any q (xs ++ ys) ≡ true
any_left q [] ys h = cc
any_left q (x ∷ xs) ys h = ground (arith, any_left q xs ys)

any_right {ℓ} :
    {A : Type ℓ} (q : A → Bool) (xs ys : List A) → any q ys ≡ true → any q (xs ++ ys) ≡ true
any_right q [] ys h = h
any_right q (x ∷ xs) ys h = ground (arith, any_right q xs ys)

self_sent : (n : ℕ) (channel : String) → ((n =ℕ n) && channel == channel) ≡ true
self_sent n channel = ground (arith, eq_iff channel channel)

-- what a new client is sent
All-new_client :
    (n : ℕ) (handlers : Handlers)
    → All (λ entry. is_sent n entry.0 (map (λ e. (n, e.0)) handlers) ≡ true) handlers
All-new_client n [] = tt
All-new_client n ((channel, hs) ∷ rest) = (
  ground (arith, self_sent n channel),
  All-map _ _
      (λ entry h.
        any_right (λ e. (e.0 =ℕ n) && e.1 == entry.0) ((n, channel) ∷ []) (map (λ e. (n, e.0)) rest)
          h)
      rest (All-new_client n rest),
)

module _ (Q : String → Type 0) where
  abbrev OnChannels : Handlers → Type 0
  OnChannels handlers = All (λ entry. Q entry.0) handlers

  add_handler-OnChannels :
      (channel : String) (h : ℕ) (handlers : Handlers)
      → Q channel
      → OnChannels handlers
      → OnChannels (add_handler channel h handlers)
  unfolding add_handler
  add_handler-OnChannels channel h [] q qs = (q, tt)
  add_handler-OnChannels channel h ((c, hs) ∷ rest) q (qc, qs) = elim (Bool-cases (c == channel)) [
    | inl same ↦ rw same (qc, qs)
    | inr differs ↦ rw differs (qc, add_handler-OnChannels channel h rest q qs)
  ]

  unless_none-OnChannels :
      (c : String) (hs : List ℕ) (rest : Handlers)
      → Q c
      → OnChannels rest
      → OnChannels (unless_none c hs rest)
  unless_none-OnChannels c [] rest q qs = qs
  unless_none-OnChannels c (h ∷ hs) rest q qs = (q, qs)

  remove_handler-OnChannels :
      (channel : String) (h : ℕ) (handlers : Handlers)
      → OnChannels handlers
      → OnChannels (remove_handler channel h handlers)
  unfolding remove_handler
  remove_handler-OnChannels channel h [] qs = tt
  remove_handler-OnChannels channel h ((c, hs) ∷ rest) (qc, qs) = elim (Bool-cases (c == channel)) [
    | inl same ↦ rw same (unless_none-OnChannels c (keep (λ x. not (x =ℕ h)) hs) rest qc qs)
    | inr differs ↦ rw differs (qc, remove_handler-OnChannels channel h rest qs)
  ]

  known-OnChannels :
      (channel : String) (handlers : Handlers)
      → is_some (handlers_of channel handlers) ≡ true
      → OnChannels handlers
      → Q channel
  known-OnChannels channel [] h qs = cc
  known-OnChannels channel ((c, hs) ∷ rest) h (qc, qs) = elim (Bool-cases (c == channel)) [
    | inl same ↦ subst Q ((eq_iff _ _).0 same) qc
    | inr differs ↦ known-OnChannels channel rest (rw differs at h) qs
  ]

IsOn : ℕ → List (ℕ × String) → String → Type 0
IsOn n sent channel = is_sent n channel sent ≡ true

removed-Listens :
    (client : Option ℕ) (channel : String) (h : ℕ) (handlers : Handlers) (sent : List (ℕ × String))
    → Listens client handlers sent
    → Listens client (remove_handler channel h handlers) sent
unfolding IsOn
removed-Listens none channel h handlers sent held = tt
removed-Listens (some n) channel h handlers sent held =
    remove_handler-OnChannels (IsOn n sent) channel h handlers held

-- the channel of a new handler is listened on, whether it is new or known
channel_sent :
    (n : ℕ) (channel : String) (handlers : Handlers) (sent : List (ℕ × String)) (known : Bool)
    → is_some (handlers_of channel handlers) ≡ known
    → Listens (some n) handlers sent
    → is_sent n channel (sent ++ listen_new (some n) (not known) channel) ≡ true
unfolding IsOn
channel_sent n channel handlers sent true at held =
    any_left (λ e. (e.0 =ℕ n) && e.1 == channel) sent []
      (known-OnChannels (IsOn n sent) channel handlers at held)
channel_sent n channel handlers sent false at held =
    any_right (λ e. (e.0 =ℕ n) && e.1 == channel) sent ((n, channel) ∷ [])
      (ground (arith, self_sent n channel))

added-Listens :
    (client : Option ℕ) (channel : String) (h : ℕ) (handlers : Handlers) (sent : List (ℕ × String))
    → Listens client handlers sent
    → Listens client
        (add_handler channel h handlers)
        (sent ++ listen_new client (not (is_some (handlers_of channel handlers))) channel)
unfolding IsOn
added-Listens none channel h handlers sent held = tt
added-Listens (some n) channel h handlers sent held =
    let new = listen_new (some n) (not (is_some (handlers_of channel handlers))) channel in
    add_handler-OnChannels (IsOn n (sent ++ new)) channel h handlers
      (channel_sent n channel handlers sent (is_some (handlers_of channel handlers)) refl held)
      (All-map _ _ (λ entry e. any_left (λ x. (x.0 =ℕ n) && x.1 == entry.0) sent new e) handlers
        held)

AllListens : PgListener → Type 0
AllListens s = Listens s.client s.handlers s.sent

either_way :
    (P : PgListener → Type 0) (b : Bool) (x y : PgListener) → P x → P y → P (if b then x else y)
either_way P true x y h g = h
either_way P false x y h g = g

schedule_reconnect-AllListens : (s : PgListener) → AllListens s → AllListens (schedule_reconnect s)
unfolding AllListens schedule_reconnect
schedule_reconnect-AllListens s h = either_way AllListens (s.stopped || s.reconnect_timer) _ _ h tt

step-AllListens : (s s' : PgListener) → ListenerStep s s' → AllListens s → AllListens s'
unfolding AllListens connect_client start stop stop_ended on off connected connect_failed
    on_error_event on_end_event timer_fires
step-AllListens s _ (starts idle) h = h
step-AllListens s _ stops h = h
step-AllListens s _ (stop_ends waits) h = tt
step-AllListens s _ (adds channel n new at) h =
    elim (Bool-cases (contains allowed_channels channel)) [
      | inl allowed ↦
          subst AllListens (ok-injective (rw allowed at at))
            (added-Listens s.client channel n s.handlers s.sent h)
      | inr refused ↦ ground (arith, refused)
    ]
step-AllListens s _ (removes channel n) h = removed-Listens s.client channel n s.handlers s.sent h
step-AllListens s _ (connects waits) h =
    All-map _ _
      (λ entry e.
        any_right (λ x. (x.0 =ℕ s.next_client) && x.1 == entry.0) s.sent
          (map (λ e. (s.next_client, e.0)) s.handlers) e)
      s.handlers (All-new_client s.next_client s.handlers)
step-AllListens s _ (fails waits) h = schedule_reconnect-AllListens _ h
step-AllListens s _ errs h = schedule_reconnect-AllListens s h
step-AllListens s _ ends h =
    subst AllListens (sym (end_as_error s)) (schedule_reconnect-AllListens s h)
step-AllListens s _ (fires set) h = either_way AllListens s.stopped _ _ h h

-- Whatever callers, connections and the timer do, in whatever order, a listener that is not stopped
-- has a client, or has a connection under way or a timer that will try again; a stopped one has no
-- timer; and a client has been sent a LISTEN for every channel that has handlers. A caller is
-- assumed to start it again only after a stop has ended.
pub Runs-IsWatching :
    (s : PgListener)
    → Runs s
    → (is_alive s ≡ true) × (is_quiet s ≡ true) × Listens s.client s.handlers s.sent
unfolding start connect_client IsSteady AllListens
Runs-IsWatching _ started = (refl, refl, tt)
Runs-IsWatching s' (then_step s _ before step) =
    let (alive, quiet, held) = Runs-IsWatching s before in
    let (still, calm) = step-IsSteady s s' step (alive, quiet) in
    (still, calm, step-AllListens s s' step held)
