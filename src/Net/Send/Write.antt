-- ===== src/Net/Send/Write.antt =====
-- The callbacks of my_nginx_event/src/net/my_http_request_callback.cpp:
-- `ngx_http_write_response_handler`, whose loop ends since each round uses an answer of the kernel, and
-- `ngx_http_read_request_handler`. Log output is left out.
use mynginx_evnet_module.Base.{
  ℕ, zero, suc, ◌+◌, ◌-◌, ◌%◌, ◌^◌, Bool, true, false, Option, none, some, List, [], ◌∷◌,
  if◌then◌else◌, leb, ◌==◌, ◌||◌, not, length, take, get_elem?,
}
use mynginx_evnet_module.Base.Bytes.{Bytes}
use mynginx_evnet_module.Net.Buffer.{readable_bytes, retrieve}
use mynginx_evnet_module.Net.Pool.{Connection, update_at}
use mynginx_evnet_module.Net.Timer.{Header}
use mynginx_evnet_module.Net.Send.{Socket, close_socket_proc}
use mynginx_evnet_module.Net.Send.Calls.{
  Errno, eagain, eintr, SendResult, SendSize, size, minus_one, minus_two, sendproc, epoll_mod,
  update_conn,
}
use mynginx_evnet_module.Net.Send.Thread.{only_out, taken, text_of, wants_close}

abbrev pub is_closed_fd : Option ℕ → Bool
is_closed_fd none = true
is_closed_fd (some fd) = false

-- An `int` compared with a `uint64_t`.
abbrev pub int_to_uint64 : ℕ → ℕ
int_to_uint64 n = if leb (2 ^ 31) n then 2 ^ 64 - 2 ^ 32 + n else n

-- The test at the start of the handler.
unfoldable pub has_nothing_to_write : Connection → Bool
unfolding readable_bytes
has_nothing_to_write d =
    is_closed_fd d.fd
    || readable_bytes d.psendbuf == 0
    || not (d.curr_sequence == int_to_uint64 d.send_sequence)

abbrev pub buffered : Option Connection → Bytes
buffered none = []
buffered (some d) = text_of d.psendbuf

unfoldable pub unsent : Option Connection → ℕ
unfolding readable_bytes
unsent none = 0
unsent (some d) = readable_bytes d.psendbuf

-- The kernel has taken `n` bytes of the buffer.
unfoldable pub retrieve_sent : ℕ → ℕ → Socket → Socket
unfolding retrieve update_at
retrieve_sent c n s =
    update_conn c (λ e. record e { psendbuf = retrieve e.psendbuf n })
      (taken c (take n (buffered (get_elem? s.pool.connections c))) s)

-- Nothing is left: the socket need not be watched for writing, and the connection may be closed.
unfoldable pub finish_write : ℕ → ℕ → Socket → Socket
unfolding epoll_mod close_socket_proc
finish_write now c s =
    let s' = epoll_mod 1 only_out c s in
    if wants_close (get_elem? s'.pool.connections c) then close_socket_proc now c s' else s'

unfoldable pub write_error : ℕ → ℕ → Errno → Socket → Socket
unfolding epoll_mod close_socket_proc
write_error now c eagain s = epoll_mod 0 only_out c s
write_error now c _ s = close_socket_proc now c s

-- A round of the loop behind its call of `sendproc`, with the rounds to come.
unfoldable pub after_sendproc : (Socket → Option Socket) → ℕ → ℕ → SendSize → Socket → Option Socket
unfolding retrieve_sent finish_write write_error unsent
after_sendproc again now c (size zero) s = some (close_socket_proc now c s)
after_sendproc again now c (size (suc n)) s =
    let s' = retrieve_sent c (suc n) s in
    elim (unsent (get_elem? s'.pool.connections c) == 0) [
      | true ↦ some (finish_write now c s')
      | false ↦ again s'
    ]
after_sendproc again now c (minus_one e) s = some (write_error now c e s)
after_sendproc again now c minus_two s = some (close_socket_proc now c s)

-- The loop, with as much fuel as there are answers; none while the kernel has not answered.
unfoldable pub write_loop : ℕ → ℕ → ℕ → List SendResult → Socket → Option Socket
unfolding sendproc after_sendproc
write_loop zero now c results s = none
write_loop (suc fuel) now c results s = elim (sendproc results) [
  | none ↦ none
  | some r ↦ after_sendproc (write_loop fuel now c r.results) now c r.send_size s
]

-- `ngx_http_write_response_handler`
unfoldable pub write_response_handler : ℕ → ℕ → List SendResult → Socket → Option Socket
unfolding has_nothing_to_write write_loop
write_response_handler now c results s = elim (get_elem? s.pool.connections c) [
  | none ↦ some s
  | some d ↦
      if has_nothing_to_write d then some s else write_loop (suc (length results)) now c results s
]

-- What `recv` returns.
pub data RecvResult : Type 0 where
  received : Bytes → RecvResult
  recv_failed : Errno → RecvResult

-- A message for the thread pool: the header with the number of the read, and the bytes.
pub record RecvMessage : Type 0 where
  pub header : Header
  read_sequence : ℕ
  pub bytes : Bytes

-- The message of a read, and the number of the next one.
unfoldable pub receive_message : ℕ → Bytes → Connection → Socket → Socket × Option RecvMessage
unfolding update_at
receive_message c bytes d s = (
  update_conn c (λ e. record e { sequence = (e.sequence + 1) % 2 ^ 32 }) s,
  some (record {
    header = record { conn = c; sequence = d.curr_sequence };
    read_sequence = d.sequence;
    bytes = bytes;
  }),
)

unfoldable pub read_error : ℕ → ℕ → Errno → Socket → Socket
unfolding close_socket_proc
read_error now c eagain s = s
read_error now c eintr s = s
read_error now c _ s = close_socket_proc now c s

-- `ngx_http_read_request_handler`; a `recv` of no bytes is the end of the stream.
unfoldable pub read_request_handler : ℕ → ℕ → RecvResult → Socket → Socket × Option RecvMessage
unfolding receive_message read_error close_socket_proc
read_request_handler now c (received []) s = (close_socket_proc now c s, none)
read_request_handler now c (received (b ∷ bytes)) s = elim (get_elem? s.pool.connections c) [
  | none ↦ (s, none)
  | some d ↦ receive_message c (b ∷ bytes) d s
]
read_request_handler now c (recv_failed e) s = (read_error now c e s, none)
