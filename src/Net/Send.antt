-- ===== src/Net/Send.antt =====
-- Sending and closing in my_nginx_event/src/net/my_socket.cpp: `msgSend` and `zdClosesocketProc`. A
-- connection is named by its position in the pool. `now` is the time that `std::time` gives.
pub mod Close
pub mod Calls
pub mod Thread
pub mod Write
pub mod Stream
pub mod Order
pub mod Started
pub mod Drain
pub mod Delivery
pub mod Overtake
use mynginx_evnet_module.Base.{
  ℕ, zero, suc, ◌+◌, Bool, true, false, Option, none, some, List, [], ◌∷◌, ◌++◌, if◌then◌else◌, ltb,
  length, get_elem?,
}
use mynginx_evnet_module.Base.Bytes.{Bytes}
use mynginx_evnet_module.Net.Pool.{Connection, Pool, Events, update_at, in_recy_connect_queue}
use mynginx_evnet_module.Net.Timer.{Header, Timers, delete_from_timer_queue}

-- What is done to file descriptors, and, of a connection, the mask that epoll is asked for and the
-- bytes that the kernel takes.
pub data FdEffect : Type 0 where
  epoll_removed : ℕ → FdEffect
  fd_closed : ℕ → FdEffect
  epoll_added : ℕ → Events → FdEffect
  epoll_modified : ℕ → Events → FdEffect
  sent_bytes : ℕ → Bytes → FdEffect

pub record Socket : Type 0 where
  pub pool : Pool
  pub timers : Timers
  pub kick_timer : Bool
  pub send_queue : List (Header × Bytes)
  pub discarded : ℕ
  pub queued_messages : ℕ
  pub posts : ℕ
  pub effects : List FdEffect

abbrev pub max_queue : ℕ
max_queue = 50000

abbrev pub max_send_count : ℕ
max_send_count = 400

-- The timers of the connection go, where there is a timer.
unfoldable pub drop_timers : ℕ → Socket → Socket
unfolding delete_from_timer_queue
drop_timers c s =
    if s.kick_timer then record s { timers = delete_from_timer_queue c s.timers } else s

abbrev pub fd_at : Option Connection → Option ℕ
fd_at none = none
fd_at (some d) = d.fd

abbrev pub fd_of : ℕ → Pool → Option ℕ
fd_of c p = fd_at (get_elem? p.connections c)

abbrev pub without_fd : ℕ → Pool → Pool
without_fd c p = record p { connections = update_at c (λ d. record d { fd = none }) p.connections }

-- The descriptor, if it is open, is removed from epoll and closed.
abbrev pub close_fd : ℕ → Option ℕ → Socket → Socket
close_fd c none s = s
close_fd c (some fd) s = record s {
  effects = s.effects ++ epoll_removed fd ∷ fd_closed fd ∷ [];
  pool = without_fd c s.pool;
}

abbrev pub recycle : ℕ → ℕ → Socket → Socket
recycle now c s = record s { pool = in_recy_connect_queue now c s.pool }

-- `zdClosesocketProc`
unfoldable pub close_socket_proc : ℕ → ℕ → Socket → Socket
unfolding drop_timers in_recy_connect_queue
close_socket_proc now c s =
    let s' = drop_timers c s in recycle now c (close_fd c (fd_of c s'.pool) s')

unfoldable pub enqueue_message : Bytes → ℕ → Connection → Socket → Socket
unfolding update_at
enqueue_message bytes c d s = record s {
  pool = record s.pool {
    connections = update_at c (λ e. record e { send_count = e.send_count + 1 }) s.pool.connections;
  };
  send_queue = s.send_queue ++ (record { conn = c; sequence = d.curr_sequence }, bytes) ∷ [];
  queued_messages = s.queued_messages + 1;
  posts = s.posts + 1;
}

-- `msgSend` on a connection of the pool.
unfoldable pub send_to : ℕ → Bytes → ℕ → Connection → Socket → Socket
unfolding close_socket_proc enqueue_message
send_to now bytes c d s =
    if ltb max_queue (length s.send_queue)
    then record s { discarded = s.discarded + 1 }
    else if ltb max_send_count d.send_count
    then close_socket_proc now c (record s { discarded = s.discarded + 1 })
    else enqueue_message bytes c d s

unfoldable pub msg_send : ℕ → Bytes → ℕ → Socket → Socket
unfolding send_to
msg_send now bytes c s = elim (get_elem? s.pool.connections c) [
  | none ↦ s
  | some d ↦ send_to now bytes c d s
]
