-- ===== src/Tests/Net.antt =====
-- Examples for the buffers, connections and timers: my_nginx_event/src/net/.
use mynginx_evnet_module.Base.{
  List, ◌++◌, none, ℕ, ◌≡◌, refl, true, false, some, [], ◌∷◌, inr, arith,
}
use mynginx_evnet_module.Base.Bytes.{codes}
use mynginx_evnet_module.Net.Buffer.{Buffer, new, append, contents, IsValid}
use mynginx_evnet_module.Net.Buffer.Queue.{appends, retrieves, run, new-IsValid, run-Refines}
use mynginx_evnet_module.Net.Pool.{
  Connection, Pool, init_connections, get_connection, recycle_round, new_connection,
  add_connections, add_new,
}
use mynginx_evnet_module.Net.Pool.Ownership
use mynginx_evnet_module.Net.Pool.Reuse.{init_connections-IsValid, get_connection-IsValid}
use mynginx_evnet_module.Net.Pool.Steps.{starts, goes_on, sweeps, Reachable-IsValid}
use mynginx_evnet_module.Net.Timer.{Timers, collect_expired}
use mynginx_evnet_module.Net.Timer.Order
use mynginx_evnet_module.Net.Timer.Order.{IsOrdered, run-IsOrdered}
use mynginx_evnet_module.Net.Timer.Expiry.{due, collect_expired-due}
use mynginx_evnet_module.Net.Flood.{FloodLimits, test_packets, test_packets-bursts}
use mynginx_evnet_module.Net.Send.{Socket, epoll_removed, fd_closed, fd_of, close_socket_proc}
use mynginx_evnet_module.Net.Send.Close.{close_socket_proc-once}

run-Refines_example :
    IsValid (run (new 4) (appends (codes "abc") ∷ retrieves 1 ∷ appends (codes "de") ∷ []))
    × (contents (run (new 4) (appends (codes "abc") ∷ retrieves 1 ∷ appends (codes "de") ∷ []))
        ≡ codes "bcde")
unfolding new
run-Refines_example =
    run-Refines (new 4) (appends (codes "abc") ∷ retrieves 1 ∷ appends (codes "de") ∷ [])
      (new-IsValid 4)

abbrev three_bytes : Buffer
unfolding new append
three_bytes = append (new 4) (codes "abc")

Reachable-IsValid_example : Ownership.IsValid (recycle_round 9 (init_connections 2 3))
Reachable-IsValid_example = Reachable-IsValid (goes_on starts (sweeps 9))

get_connection-IsValid_example :
    (c : ℕ) × (p' : Pool) × (get_connection 2 5 (init_connections 2 3) ≡ some (c, p'))
    × Ownership.IsValid p'
    × Ownership.InUse c p'
unfolding init_connections add_connections add_new
get_connection-IsValid_example =
    get_connection-IsValid 0 5 (init_connections 2 3) (init_connections-IsValid 2 3) (omega arith)

abbrev two_timers : Timers
two_timers = record {
  queue = (5, record { conn = 1; sequence = 1 }) ∷ (9, record { conn = 2; sequence = 1 }) ∷ [];
  cur_size = 2;
  timer_value = 5;
  wait_time = 10;
  kick = false;
}

two_timers-IsOrdered : IsOrdered two_timers
two_timers-IsOrdered = record {
  sorted = ((omega arith, tt), (tt, tt));
  counted = refl;
  next = refl;
}

collect_expired-due_example :
    (t' : Timers) × (collect_expired 7 2 two_timers
      ≡ some (record { conn = 1; sequence = 1 } ∷ [], t'))
    × (due 7 t'.queue ≡ [])
    × IsOrdered t'
collect_expired-due_example =
    collect_expired-due 7 2 two_timers two_timers-IsOrdered (inr (omega arith)) (omega arith)

run-IsOrdered_example : IsOrdered (
    Order.run two_timers
      (Order.adds 1 (record { conn = 3; sequence = 4 }) ∷ Order.takes 6 ∷ Order.deletes 3 ∷ []))
run-IsOrdered_example =
    run-IsOrdered
      (Order.adds 1 (record { conn = 3; sequence = 4 }) ∷ Order.takes 6 ∷ Order.deletes 3 ∷ [])
      two_timers two_timers-IsOrdered

abbrev limits : FloodLimits
limits = record { interval = 100; kick_count = 5 }

abbrev busy : Connection
unfolding new_connection
busy = record (new_connection 0) { flood_kick_last_time = 1000; flood_attack_count = 3 }

test_packets-bursts_example :
    (test_packets limits (1050 ∷ 1080 ∷ 1300 ∷ []) busy).0 ≡ false ∷ true ∷ false ∷ []
unfolding busy new_connection
test_packets-bursts_example =
    test_packets-bursts limits (1050 ∷ 1080 ∷ 1300 ∷ []) 1000 3 busy refl refl (omega arith)
      (omega arith, refl, (omega arith, refl, (omega arith, refl, tt)))

-- Two connections whose clients are at descriptors 4 and 5.
abbrev open_connections : List Connection
unfolding new_connection
open_connections =
    record (new_connection 0) { fd = some 4 } ∷ record (new_connection 1) { fd = some 5 } ∷ []

abbrev open_socket : Socket
open_socket = record {
  pool = record {
    connections = open_connections;
    free = [];
    recycling = [];
    total_count = 2;
    free_count = 0;
    total_recycling = 0;
    online_users = 2;
    worker_connections = 2;
    recycle_wait = 3;
  };
  timers = two_timers;
  kick_timer = true;
  send_queue = [];
  discarded = 0;
  queued_messages = 0;
  posts = 0;
  effects = [];
}

close_socket_proc-once_example :
    (Ownership.count 1 (close_socket_proc 7 1 open_socket).pool.recycling ≡ 1)
    × (fd_of 1 (close_socket_proc 7 1 open_socket).pool ≡ none)
    × ((close_socket_proc 7 1 open_socket).effects ≡ [] ++ epoll_removed 5 ∷ fd_closed 5 ∷ [])
    × (close_socket_proc 8 1 (close_socket_proc 7 1 open_socket)
        ≡ close_socket_proc 7 1 open_socket)
unfolding open_connections new_connection
close_socket_proc-once_example = close_socket_proc-once 7 8 1 open_socket (omega arith)
