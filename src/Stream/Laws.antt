-- ===== src/Stream/Laws.antt =====
-- The counters of connections against the connections that are open.
use xapi_lrs.Prelude.{
  ℕ, suc, ◌+◌, ◌-◌, ◌≤◌, String, ◌≡◌, refl, ◌∙◌, true, false, List, [], ◌∷◌, ◌==◌, eq_iff, arith,
  length, leb, contains, or_else, if◌then◌else◌, Bool-cases, Option-cases, inl, inr,
}
use xapi_lrs.Stream.{
  Counts, count_of, set_count, delete_count, Counters, ConnectionLimits, counted_in, connect,
  on_abort, StreamState, no_clients, remove_one, asked, left, asks, leaves, Reachable, start, after,
}

-- how many of the connections are from an address
unfoldable pub occurrences : String → List String → ℕ
occurrences ip [] = 0
occurrences ip (k ∷ rest) = if k == ip then suc (occurrences ip rest) else occurrences ip rest

abbrev pub count_at : String → Counts → ℕ
count_at ip counts = or_else (count_of ip counts) 0

count_at-set_count :
    (ip j : String) (n : ℕ) (c : Counts)
    → count_at j (set_count ip n c) ≡ (if ip == j then n else count_at j c)
unfolding count_of set_count
count_at-set_count ip j n [] = ground arith
count_at-set_count ip j n ((k, m) ∷ rest) =
    ground (arith, eq_iff k ip, eq_iff k j, eq_iff ip j, count_at-set_count ip j n rest)

count_at-delete_count :
    (ip j : String) (c : Counts)
    → count_at j (delete_count ip c) ≡ (if ip == j then 0 else count_at j c)
unfolding count_of delete_count
count_at-delete_count ip j [] = ground arith
count_at-delete_count ip j ((k, m) ∷ rest) =
    ground (arith, eq_iff k ip, eq_iff k j, eq_iff ip j, count_at-delete_count ip j rest)

occurrences-remove_one :
    (ip j : String) (clients : List String)
    → contains clients ip ≡ true
    → occurrences j clients ≡ (
        if ip == j
        then suc (occurrences j (remove_one ip clients))
        else occurrences j (remove_one ip clients))
unfolding occurrences remove_one
occurrences-remove_one ip j [] h = absurd (cc)
occurrences-remove_one ip j (k ∷ rest) h =
    ground (arith, eq_iff k ip, eq_iff k j, eq_iff ip j, occurrences-remove_one ip j rest)

length-remove_one :
    (ip : String) (clients : List String)
    → contains clients ip ≡ true
    → length clients ≡ suc (length (remove_one ip clients))
unfolding remove_one
length-remove_one ip [] h = absurd (cc)
length-remove_one ip (k ∷ rest) h = ground (arith, length-remove_one ip rest)

-- the counters count the connections, which keep the limits
pub record IsCounted (l : ConnectionLimits) (s : StreamState) : Type 0 where
  pub total : s.counters.global ≡ length s.clients
  pub each : (ip : String) → count_at ip s.counters.per_ip ≡ occurrences ip s.clients
  pub total_le : length s.clients ≤ l.max_global
  pub each_le : (ip : String) → occurrences ip s.clients ≤ l.max_per_ip

IsCounted-no_clients : (l : ConnectionLimits) → IsCounted l no_clients
unfolding count_of occurrences
IsCounted-no_clients l = record {
  total = refl;
  each = λ ip. refl;
  total_le = omega arith;
  each_le = λ ip. omega arith;
}

abbrev entered : String → StreamState → StreamState
entered ip s = record { counters = counted_in ip s.counters; clients = ip ∷ s.clients }

IsCounted-entered :
    (l : ConnectionLimits) (ip : String) (s : StreamState)
    → IsCounted l s
    → leb l.max_global s.counters.global ≡ false
    → leb l.max_per_ip (count_at ip s.counters.per_ip) ≡ false
    → IsCounted l (entered ip s)
unfolding occurrences
IsCounted-entered l ip s c room room_here = record {
  total = omega (arith, c.total);
  each = λ j. ground (
    arith,
    count_at-set_count ip j (count_at ip s.counters.per_ip + 1) s.counters.per_ip,
    eq_iff ip j,
    c.each ip,
    c.each j,
  );
  total_le = ground (arith, c.total);
  each_le = λ j. ground (arith, eq_iff ip j, c.each ip, c.each_le j);
}

IsCounted-asked :
    (l : ConnectionLimits) (ip : String) (s : StreamState)
    → IsCounted l s
    → IsCounted l (asked l ip s)
unfolding connect
IsCounted-asked l ip s c = elim (Bool-cases (leb l.max_global s.counters.global)) [
  | inl full ↦ rw full c
  | inr room ↦ elim (Bool-cases (leb l.max_per_ip (count_at ip s.counters.per_ip))) [
    | inl full_here ↦ rw (room, full_here) c
    | inr room_here ↦ rw (room, room_here) (IsCounted-entered l ip s c room room_here)
  ]
]

occurrences-pos :
    (ip : String) (clients : List String) → contains clients ip ≡ true → 1 ≤ occurrences ip clients
unfolding occurrences
occurrences-pos ip [] h = absurd (cc)
occurrences-pos ip (k ∷ rest) h = ground (arith, occurrences-pos ip rest)

-- the count after a departure
count_at-on_abort :
    (ip j : String) (c : Counters)
    → 1 ≤ count_at ip c.per_ip
    → count_at j (on_abort ip c).per_ip
      ≡ (if ip == j then count_at ip c.per_ip - 1 else count_at j c.per_ip)
unfolding on_abort
count_at-on_abort ip j c h = elim (Option-cases (count_of ip c.per_ip)) [
  | inl missing ↦ absurd (omega (arith, (rw missing at h)))
  | inr (n, e) ↦ elim (Bool-cases (leb (n - 1) 0)) [
    | inl last ↦ rw (e, last) (count_at-delete_count ip j c.per_ip ∙ ground arith)
    | inr more ↦ rw (e, more) (count_at-set_count ip j (n - 1) c.per_ip)
  ]
]

c_pos :
    (ip : String) (s : StreamState)
    → count_at ip s.counters.per_ip ≡ occurrences ip s.clients
    → contains s.clients ip ≡ true
    → 1 ≤ count_at ip s.counters.per_ip
c_pos ip s e h = omega (arith, occurrences-pos ip s.clients h, e)

IsCounted-left :
    (l : ConnectionLimits) (ip : String) (s : StreamState)
    → IsCounted l s
    → contains s.clients ip ≡ true
    → IsCounted l (left ip s)
unfolding on_abort
IsCounted-left l ip s c here = record {
  total = omega (arith, c.total, length-remove_one ip s.clients here);
  each = λ j. ground (
    arith,
    count_at-on_abort ip j s.counters (c_pos ip s (c.each ip) here),
    occurrences-remove_one ip j s.clients here,
    eq_iff ip j,
    c.each ip,
    c.each j,
  );
  total_le = omega (arith, c.total_le, length-remove_one ip s.clients here);
  each_le =
      λ j. ground (arith, c.each_le j, occurrences-remove_one ip j s.clients here, eq_iff ip j);
}

-- Whatever clients ask and leave in whatever order, the counters are right: the global count is the
-- number of open connections, the count of each address is the number of those from it, and no
-- limit is exceeded.
pub reachable-IsCounted : (l : ConnectionLimits) (s : StreamState) → Reachable l s → IsCounted l s
reachable-IsCounted l _ start = IsCounted-no_clients l
reachable-IsCounted l _ (after r (asks ip s)) = IsCounted-asked l ip s (reachable-IsCounted l s r)
reachable-IsCounted l _ (after r (leaves ip s here)) =
    IsCounted-left l ip s (reachable-IsCounted l s r) here
