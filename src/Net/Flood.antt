-- ===== src/Net/Flood.antt =====
-- `TestFlood` of my_nginx_event/src/net/my_socket.cpp. `now` is the time in milliseconds, which the
-- source keeps in a `uint16_t`.
use mynginx_evnet_module.Base.{
  List, [], ◌∷◌, length, ap, ◌∙◌, ◌&&◌, ℕ, ◌+◌, ◌-◌, ◌*◌, ◌%◌, ◌^◌, ◌≤◌, ◌<◌, lt→ltb, ◌≡◌, refl,
  Bool, if◌then◌else◌, ltb, leb, arith, Bool-cases, inl, inr, ◌/◌,
}
use mathlib.Core.Path.{ap₂}
use mathlib.Core.List
use mynginx_evnet_module.Net.Pool.{Connection}

-- The limits from the configuration: `m_floodTimeInterval` and `m_floodKickCount`.
pub record FloodLimits : Type 0 where
  pub interval : ℕ
  pub kick_count : ℕ

abbrev pub short_time : ℕ → ℕ
short_time now = now % 2 ^ 16

-- The difference of a `uint16_t` and a `uint64_t`, which is a `uint64_t`.
abbrev pub since_last : ℕ → Connection → ℕ
since_last now c = (short_time now + 2 ^ 64 - c.flood_kick_last_time) % 2 ^ 64

-- `int`s are held by their 32 bits: one more, and `a <= b` for an `a` that is not negative.
abbrev pub next_int : ℕ → ℕ
next_int n = (n + 1) % 2 ^ 32

abbrev pub reaches : ℕ → ℕ → Bool
reaches kick n = leb kick n && ltb n (2 ^ 31)

unfoldable pub note_packet : FloodLimits → ℕ → Connection → Connection
note_packet limits now c =
    if ltb (since_last now c) limits.interval
    then record c {
      flood_attack_count = next_int c.flood_attack_count;
      flood_kick_last_time = short_time now;
    }
    else record c { flood_attack_count = 0; flood_kick_last_time = short_time now }

-- The answer, and the connection with what was noted.
unfoldable pub test_flood : FloodLimits → ℕ → Connection → Bool × Connection
unfolding note_packet
test_flood limits now c =
    let c' = note_packet limits now c in (reaches limits.kick_count c'.flood_attack_count, c')

-- The answers to packets that come at a row of times.
unfoldable pub test_packets : FloodLimits → List ℕ → Connection → List Bool × Connection
unfolding test_flood
test_packets limits [] c = ([], c)
test_packets limits (t ∷ ts) c =
    let r = test_flood limits t c in let rest = test_packets limits ts r.1 in (r.0 ∷ rest.0, rest.1)

-- How many packets in a row have come within the interval: the count for each packet of a row of
-- times, where the packet before came at `t0` and had the count `n`.
abbrev pub bursts : ℕ → ℕ → ℕ → List ℕ → List ℕ
bursts interval t0 n [] = []
bursts interval t0 n (t ∷ ts) =
    let m = if ltb (t - t0) interval then n + 1 else 0 in m ∷ bursts interval t m ts

-- Times that go up within the same 65536 milliseconds.
abbrev pub InWindow : ℕ → List ℕ → Type 0
InWindow t0 [] = Unit {0}
InWindow t0 (t ∷ ts) = (t0 ≤ t) × (t0 / 2 ^ 16 ≡ t / 2 ^ 16) × InWindow t ts

since_last-window :
    (t0 t1 : ℕ) (c : Connection)
    → c.flood_kick_last_time ≡ short_time t0
    → t0 ≤ t1
    → t0 / 2 ^ 16 ≡ t1 / 2 ^ 16
    → since_last t1 c ≡ t1 - t0
since_last-window t0 t1 c h l w = omega arith

note_packet-window :
    (limits : FloodLimits) (t0 t n : ℕ) (c : Connection)
    → c.flood_kick_last_time ≡ short_time t0
    → c.flood_attack_count ≡ n
    → n + 1 < 2 ^ 31
    → t0 ≤ t
    → t0 / 2 ^ 16 ≡ t / 2 ^ 16
    → ((note_packet limits t c).flood_attack_count
        ≡ (if ltb (t - t0) limits.interval then n + 1 else 0))
      × ((note_packet limits t c).flood_kick_last_time ≡ short_time t)
unfolding note_packet
note_packet-window limits t0 t n c h k b l w =
    rw (since_last-window t0 t c h l w) (elim (Bool-cases (ltb (t - t0) limits.interval)) [
      | inl e ↦ rw e (omega (arith, k, b), refl)
      | inr e ↦ rw e (refl, refl)
    ])

reaches-small : (kick m : ℕ) → m < 2 ^ 31 → reaches kick m ≡ leb kick m
reaches-small kick m h = rw (lt→ltb m (2 ^ 31) h) (ground arith)

next-small : (interval t0 t n : ℕ) → (if ltb (t - t0) interval then n + 1 else 0) ≤ n + 1
next-small interval t0 t n = ground arith

-- For a row of packets whose times go up within the same 65536 milliseconds, and as long as the count
-- fits an `int`: each packet is told to be a flood exactly if the number of packets in a row up to it
-- that came before the interval behind the one before was over has reached the limit.
pub test_packets-bursts :
    (limits : FloodLimits) (ts : List ℕ) (t0 n : ℕ) (c : Connection)
    → c.flood_kick_last_time ≡ short_time t0
    → c.flood_attack_count ≡ n
    → n + length ts < 2 ^ 31
    → InWindow t0 ts
    → (test_packets limits ts c).0
      ≡ List.map (leb limits.kick_count) (bursts limits.interval t0 n ts)
unfolding test_packets test_flood
test_packets-bursts limits [] t0 n c h k b w = refl
test_packets-bursts limits (t ∷ ts) t0 n c h k b (l, same, w) =
    let m = if ltb (t - t0) limits.interval then n + 1 else 0 in
    let small : m ≤ n + 1 = next-small limits.interval t0 t n in
    let (count, time) = note_packet-window limits t0 t n c h k (omega (arith, b)) l same in
    ap₂ (λ b bs. b ∷ bs)
      (ap (reaches limits.kick_count) count
        ∙ reaches-small limits.kick_count m (omega (arith, small, b)))
      (test_packets-bursts limits ts t m (note_packet limits t c) time count
        (omega (arith, small, b)) w)

-- Since the time is kept in 16 bits, a packet any number of 65536 milliseconds behind the last one is
-- counted as if it had come at the same time.
test_flood-wraps :
    (limits : FloodLimits) (t0 k : ℕ) (c : Connection)
    → c.flood_kick_last_time ≡ short_time t0
    → 0 < limits.interval
    → (test_flood limits (t0 + k * 65536) c).1.flood_attack_count ≡ next_int c.flood_attack_count
unfolding test_flood note_packet
test_flood-wraps limits t0 k c h i =
    let z : since_last (t0 + k * 65536) c ≡ 0 = omega arith in
    rw (z, lt→ltb 0 limits.interval i) refl
