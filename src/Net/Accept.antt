-- ===== src/Net/Accept.antt =====
-- `ngx_event_accept` of my_nginx_event/src/net/my_socket_accept.cpp. What `accept4`, `accept`,
-- `setnonblocking` and `epoll_ctl` answer are arguments; the address of the client, the socket options
-- and the handlers, which are the same for every connection, are left out.
pub mod Bounds
use mynginx_evnet_module.Base.{
  ℕ, zero, suc, ◌+◌, ◌*◌, ◌^◌, Bool, true, false, Option, none, some, List, [], ◌∷◌, ◌++◌, ◌&&◌,
  not, if◌then◌else◌, ltb, leb, length, get_elem?,
}
use mynginx_evnet_module.Net.Pool.{
  Connection, Events, Pool, no_events, get_connection, close_connection,
}
use mynginx_evnet_module.Net.Timer.{Header, Timers, add_to_timer_queue}
use mynginx_evnet_module.Net.Send.{Socket, FdEffect, fd_closed, fd_of}
use mynginx_evnet_module.Net.Send.Calls.{epoll_add}

-- What a call of `accept4` or `accept` answers: a descriptor, or an error. Of the errors only ENOSYS
-- is told apart, since the others all end the loop.
pub data AcceptResult : Type 0 where
  accepted : ℕ → AcceptResult
  enosys : AcceptResult
  accept_failed : AcceptResult

-- What the kernel answers for a descriptor.
pub record Answers : Type 0 where
  pub set_nonblocking : ℕ → Bool
  pub is_added : ℕ → Bool

abbrev only_in : Events
only_in = record no_events { epollin = true }

abbrev close_accepted : ℕ → Socket → Socket
close_accepted fd s = record s { effects = s.effects ++ fd_closed fd ∷ [] }

-- `ngx_close_connection`, with the descriptor that it closes.
unfoldable pub close_new : ℕ → Socket → Socket
unfolding close_connection
close_new c s = record s {
  pool = close_connection c s.pool;
  effects = s.effects ++ elim (fd_of c s.pool) [ none ↦ [] | some fd ↦ fd_closed fd ∷ [] ];
}

abbrev sequence_at : Option Connection → ℕ
sequence_at none = 0
sequence_at (some d) = d.curr_sequence

unfoldable pub start_timer : ℕ → ℕ → Socket → Socket
unfolding add_to_timer_queue
start_timer now c s =
    let h : Header = record { conn = c; sequence = sequence_at (get_elem? s.pool.connections c) } in
    if s.kick_timer then record s { timers = add_to_timer_queue now h s.timers } else s

-- The socket, and whether the loop goes on.
pub record Round : Type 0 where
  pub goes_on : Bool
  pub socket : Socket

-- The new connection is watched.
unfoldable pub watch : Answers → ℕ → Bool → ℕ → ℕ → Socket → Round
unfolding close_new start_timer epoll_add
watch answers now use_accept4 fd c s =
    let s' = epoll_add only_in fd s in
    if not use_accept4 && not (answers.set_nonblocking fd)
    then record { goes_on = false; socket = close_new c s }
    else if not (answers.is_added fd)
    then record { goes_on = false; socket = close_new c s' }
    else record { goes_on = true; socket = start_timer now c s' }

-- The two limits on connections. `m_onlineUserCount` is an `int`, whose sign is its highest bit.
abbrev pub is_full : Pool → Bool
is_full p = leb p.worker_connections p.online_users && ltb p.online_users (2 ^ 31)

abbrev pub is_crowded : Pool → Bool
is_crowded p =
    ltb (p.worker_connections * 5) (length p.connections)
    && ltb (length p.free) p.worker_connections

-- A round for an accepted descriptor; none when `ngx_get_connection` does not return.
unfoldable pub accept_one : Answers → ℕ → Bool → ℕ → Socket → Option Round
unfolding get_connection watch
accept_one answers now use_accept4 fd s =
    if is_full s.pool
    then some (record { goes_on = false; socket = close_accepted fd s })
    else if is_crowded s.pool
    then some (record { goes_on = false; socket = close_accepted fd s })
    else elim (get_connection 2 fd s.pool) [
      | none ↦ none
      | some r ↦ some (watch answers now use_accept4 fd r.0 (record s { pool = r.1 }))
    ]

-- The static `use_accept4` and the socket.
pub record Acceptor : Type 0 where
  pub use_accept4 : Bool
  pub socket : Socket

unfoldable pub after_round : (Socket → Option Acceptor) → Bool → Option Round → Option Acceptor
after_round again use_accept4 none = none
after_round again use_accept4 (some r) = elim r.goes_on [
  | true ↦ again r.socket
  | false ↦ some (record { use_accept4 = use_accept4; socket = r.socket })
]

-- `ngx_event_accept`, over the answers to its calls; none when `ngx_get_connection` does not return.
-- When there is no answer left the loop is where it is.
unfoldable pub event_accept : Answers → ℕ → Bool → List AcceptResult → Socket → Option Acceptor
unfolding accept_one after_round
event_accept answers now use_accept4 [] s = some (record { use_accept4 = use_accept4; socket = s })
event_accept answers now use_accept4 (accepted fd ∷ results) s =
    after_round (event_accept answers now use_accept4 results) use_accept4
      (accept_one answers now use_accept4 fd s)
event_accept answers now true (enosys ∷ results) s = event_accept answers now false results s
event_accept answers now false (enosys ∷ results) s =
    some (record { use_accept4 = false; socket = s })
event_accept answers now use_accept4 (accept_failed ∷ results) s =
    some (record { use_accept4 = use_accept4; socket = s })
