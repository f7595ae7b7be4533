-- ===== src/Net/Timer.antt =====
-- The timer queue of my_nginx_event/src/net/my_socket_time.cpp: `m_timeQueuemap`, a `multimap` from
-- a time to the header of a message, which names a connection and the sequence number that it had.
-- The clock is a parameter of each operation.
pub mod Order
pub mod Expiry
use mynginx_evnet_module.Base.{
  ℕ, zero, suc, ◌+◌, ◌-◌, Bool, true, false, Option, none, some, List, [], ◌∷◌, ◌++◌, if◌then◌else◌,
  ltb, leb, ◌==◌,
}

-- `STRUC_MSG_HEADER`
pub record Header : Type 0 where
  pub conn : ℕ
  pub sequence : ℕ

pub record Timers : Type 0 where
  pub queue : List (ℕ × Header)
  pub cur_size : ℕ
  pub timer_value : ℕ
  pub wait_time : ℕ
  pub kick : Bool

-- `emplace` on a `multimap`: behind the entries with the same key.
unfoldable pub emplace : ℕ → Header → List (ℕ × Header) → List (ℕ × Header)
emplace k h [] = (k, h) ∷ []
emplace k h ((j, g) ∷ q) =
    let rest = emplace k h q in if ltb k j then (k, h) ∷ (j, g) ∷ q else (j, g) ∷ rest

-- `GetEarliestTime`
abbrev pub earliest : List (ℕ × Header) → ℕ
earliest [] = 0
earliest ((k, h) ∷ q) = k

-- `AddToTimmerQueue`, for a connection and its sequence number.
unfoldable pub add_to_timer_queue : ℕ → Header → Timers → Timers
unfolding emplace
add_to_timer_queue now h t =
    let q = emplace (now + t.wait_time) h t.queue in
    record t { queue = q; cur_size = t.cur_size + 1; timer_value = earliest q }

-- `RemoveFirstTimer`; with a positive size and an empty map the source has no defined behaviour, and
-- nothing is taken here.
abbrev pub take_first : Timers → List (ℕ × Header) → Option Header × Timers
take_first t [] = (none, t)
take_first t ((k, h) ∷ q) = (some h, record t { queue = q; cur_size = t.cur_size - 1 })

unfoldable pub remove_first_timer : Timers → Option Header × Timers
remove_first_timer t = if t.cur_size == 0 then (none, t) else take_first t t.queue

-- Without the kick the timer starts again.
unfoldable pub restart : ℕ → Option Header → Timers → Timers
unfolding emplace
restart now none t = t
restart now (some h) t =
    if t.kick
    then t
    else record t { queue = emplace (now + t.wait_time) h t.queue; cur_size = t.cur_size + 1 }

-- The first entry is taken, and the time of the next expiry is set.
unfoldable pub take_over_time : ℕ → Timers → Option Header × Timers
unfolding remove_first_timer restart
take_over_time now t =
    let taken = remove_first_timer t in
    let t' = restart now taken.0 taken.1 in (taken.0, record t' { timer_value = earliest t'.queue })

abbrev pub over_time : ℕ → Timers → List (ℕ × Header) → Option Header × Timers
over_time now t [] = (none, t)
over_time now t (e ∷ q) = if ltb now (earliest (e ∷ q)) then (none, t) else take_over_time now t

-- `GetOverTimeTimer`
unfoldable pub get_over_time_timer : ℕ → Timers → Option Header × Timers
unfolding take_over_time
get_over_time_timer now t = over_time now t t.queue

unfoldable pub erase_conn : ℕ → List (ℕ × Header) → List (ℕ × Header)
erase_conn conn [] = []
erase_conn conn ((k, h) ∷ q) =
    let rest = erase_conn conn q in if h.conn == conn then rest else (k, h) ∷ rest

unfoldable pub count_conn : ℕ → List (ℕ × Header) → ℕ
count_conn conn [] = 0
count_conn conn ((k, h) ∷ q) =
    let rest = count_conn conn q in if h.conn == conn then suc rest else rest

-- `DeleteFromTimerQueue`
unfoldable pub delete_from_timer_queue : ℕ → Timers → Timers
unfolding erase_conn count_conn
delete_from_timer_queue conn t = record t {
  queue = erase_conn conn t.queue;
  cur_size = t.cur_size - count_conn conn t.queue;
  timer_value = earliest (erase_conn conn t.queue);
}

-- `clearAllFromTimerQueue`
abbrev pub clear_all : Timers → Timers
clear_all t = record t { queue = []; cur_size = 0 }

abbrev pub put_first : Header → Option (List Header × Timers) → Option (List Header × Timers)
put_first h none = none
put_first h (some (hs, t)) = some (h ∷ hs, t)

-- What the loop does with the answer of `GetOverTimeTimer`.
abbrev pub collect_after :
    (Timers → Option (List Header × Timers))
    → Option Header × Timers
    → Option (List Header × Timers)
collect_after again (none, t) = some ([], t)
collect_after again (some h, t) = put_first h (again t)

-- The inner loop of `ServerTimerQueueMonitorThread`, on fuel: the headers taken, in order.
unfoldable pub collect_expired : ℕ → ℕ → Timers → Option (List Header × Timers)
collect_expired now zero t = none
collect_expired now (suc fuel) t =
    collect_after (collect_expired now fuel) (get_over_time_timer now t)

-- One round of the thread: the headers that are checked.
unfoldable pub monitor_round : ℕ → ℕ → Timers → Option (List Header × Timers)
unfolding collect_expired
monitor_round now fuel t =
    if ltb 0 t.cur_size
    then if leb t.timer_value now then collect_expired now fuel t else some ([], t)
    else some ([], t)
