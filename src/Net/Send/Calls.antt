-- ===== src/Net/Send/Calls.antt =====
-- The calls of the kernel that sending makes: `sendproc` of
-- my_nginx_event/src/net/my_http_request_callback.cpp over the results of `send`, which are an argument,
-- and `ngx_epoll_oper_event` of my_nginx_event/src/net/my_socket.cpp.
use mynginx_evnet_module.Base.{
  ℕ, Option, none, some, List, [], ◌∷◌, ◌++◌, ◌&&◌, ◌||◌, not, if◌then◌else◌, ◌==◌, get_elem?,
}
use mynginx_evnet_module.Net.Pool.{Connection, Events, update_at}
use mynginx_evnet_module.Net.Send.{Socket, epoll_modified, epoll_added}

-- The values of `errno` that the code tells apart; EWOULDBLOCK is EAGAIN.
pub data Errno : Type 0 where
  eagain : Errno
  eintr : Errno
  epipe : Errno
  econnreset : Errno
  other_errno : Errno

-- What `send` returns: the number of bytes, or -1 with `errno`.
pub data SendResult : Type 0 where
  sent : ℕ → SendResult
  refused : Errno → SendResult

-- What `sendproc` returns: a number of bytes, -1 with `errno`, or -2.
pub data SendSize : Type 0 where
  size : ℕ → SendSize
  minus_one : Errno → SendSize
  minus_two : SendSize

-- The value returned, with the results that later calls have.
pub record Sent : Type 0 where
  pub send_size : SendSize
  pub results : List SendResult

-- `sendproc`, none while the kernel has not answered.
unfoldable pub sendproc : List SendResult → Option Sent
sendproc [] = none
sendproc (sent n ∷ results) = some (record { send_size = size n; results = results })
sendproc (refused eagain ∷ results) =
    some (record { send_size = minus_one eagain; results = results })
sendproc (refused eintr ∷ results) = sendproc results
sendproc (refused epipe ∷ results) =
    some (record { send_size = minus_one epipe; results = results })
sendproc (refused econnreset ∷ results) =
    some (record { send_size = minus_one econnreset; results = results })
sendproc (refused other_errno ∷ results) =
    some (record { send_size = minus_two; results = results })

-- The additional action of EPOLL_CTL_MOD: 0 adds bits, 1 takes them away, 2 sets all.
abbrev pub Action : Type 0
Action = ℕ

abbrev add_bits : Events → Events → Events
add_bits e flag = record {
  epollin = e.epollin || flag.epollin;
  epollout = e.epollout || flag.epollout;
  epollrdhup = e.epollrdhup || flag.epollrdhup;
  epollhup = e.epollhup || flag.epollhup;
  epollerr = e.epollerr || flag.epollerr;
}

abbrev clear_bits : Events → Events → Events
clear_bits e flag = record {
  epollin = e.epollin && not flag.epollin;
  epollout = e.epollout && not flag.epollout;
  epollrdhup = e.epollrdhup && not flag.epollrdhup;
  epollhup = e.epollhup && not flag.epollhup;
  epollerr = e.epollerr && not flag.epollerr;
}

unfoldable pub modified_events : Action → Events → Events → Events
modified_events bcaction flag e =
    if bcaction == 0 then add_bits e flag else if bcaction == 1 then clear_bits e flag else flag

abbrev pub update_conn : ℕ → (Connection → Connection) → Socket → Socket
update_conn c f s = record s {
  pool = record s.pool { connections = update_at c f s.pool.connections };
}

-- EPOLL_CTL_MOD of a connection. The result of `epoll_ctl` is only logged where this is called.
unfoldable pub epoll_mod : Action → Events → ℕ → Socket → Socket
unfolding modified_events update_at
epoll_mod bcaction flag c s = elim (get_elem? s.pool.connections c) [
  | none ↦ s
  | some d ↦
      let events = modified_events bcaction flag d.events in
      record (update_conn c (λ e. record e { events = events }) s) {
        effects = s.effects ++ epoll_modified c events ∷ [];
      }
]

-- EPOLL_CTL_ADD of a descriptor, which leaves `events` of the connection as it is.
unfoldable pub epoll_add : Events → ℕ → Socket → Socket
epoll_add flag fd s = record s { effects = s.effects ++ epoll_added fd flag ∷ [] }
