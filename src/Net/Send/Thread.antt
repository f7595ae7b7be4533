-- ===== src/Net/Send/Thread.antt =====
-- A turn of `ServerSendQueueThread` in my_nginx_event/src/net/my_socket.cpp: one message is taken from
-- the send queue. Log output and the semaphore are left out.
use mynginx_evnet_module.Base.{
  ℕ, ◌-◌, ◌%◌, ◌^◌, Bool, true, false, Option, none, some, List, [], ◌∷◌, ◌++◌, if◌then◌else◌, ◌==◌,
  not, take, get_elem?,
}
use mynginx_evnet_module.Base.Bytes.{Bytes, codes, equal}
use mynginx_evnet_module.Net.Buffer.{
  Buffer, new, initial_size, append, peek, retrieve, retrieve_all, readable_bytes,
}
use mynginx_evnet_module.Net.Pool.{Connection, Events, no_events, update_at}
use mynginx_evnet_module.Net.Timer.{Header}
use mynginx_evnet_module.Net.Send.{Socket, sent_bytes, close_socket_proc}
use mynginx_evnet_module.Net.Send.Calls.{
  eagain, SendResult, SendSize, size, minus_one, minus_two, sendproc, epoll_mod, update_conn,
}

abbrev pub only_out : Events
only_out = record no_events { epollout = true }

abbrev pub bad_request : Bytes
bad_request = codes "HTTP/1.1 400 Bad Request\r\n\r\n"

-- The kernel takes the first bytes of a text.
abbrev pub taken : ℕ → Bytes → Socket → Socket
taken c bytes s = record s { effects = s.effects ++ sent_bytes c bytes ∷ [] }

-- What is left waits in the buffer of the connection for the socket to be writable. `sendCount` is an
-- `int`.
unfoldable pub keep_rest : ℕ → Header → Bytes → Socket → Socket
unfolding append epoll_mod update_at
keep_rest c h rest s = epoll_mod 0 only_out c (
    update_conn c
      (λ e. record e { psendbuf = append e.psendbuf rest; send_sequence = h.sequence % 2 ^ 32 }) s)

-- The buffer is emptied, and the connection is closed.
unfoldable pub give_up : ℕ → ℕ → Socket → Socket
unfolding close_socket_proc retrieve_all update_at
give_up now c s =
    close_socket_proc now c (update_conn c (λ e. record e { psendbuf = retrieve_all e.psendbuf }) s)

abbrev pub wants_close : Option Connection → Bool
wants_close none = false
wants_close (some d) = d.is_http_close

-- Behind a message that was sent in full.
unfoldable pub after_full : ℕ → ℕ → Bytes → Socket → Socket
unfolding close_socket_proc
after_full now c bytes s =
    let s' = if equal bytes bad_request then close_socket_proc now c s else s in
    if wants_close (get_elem? s'.pool.connections c) then close_socket_proc now c s' else s'

abbrev pub text_of : Buffer → Bytes
text_of b = peek b (readable_bytes b)

unfoldable pub after_send : ℕ → Header → Bytes → Connection → SendSize → Socket → Socket
unfolding append new after_full keep_rest give_up peek readable_bytes retrieve
after_send now h bytes d (size n) s =
    let tmpbuf = append (new initial_size) bytes in
    let s' = taken h.conn (take n (text_of tmpbuf)) s in
    if n == 0
    then (if readable_bytes d.psendbuf == 0 then s else give_up now h.conn s)
    else if n == readable_bytes tmpbuf
    then after_full now h.conn bytes s'
    else keep_rest h.conn h (text_of (retrieve tmpbuf n)) s'
after_send now h bytes d (minus_one eagain) s =
    keep_rest h.conn h (text_of (append (new initial_size) bytes)) s
after_send now h bytes d (minus_one _) s = give_up now h.conn s
after_send now h bytes d minus_two s = give_up now h.conn s

-- `--m_iSendMsgQueueCount`
abbrev pub count_down : Socket → Socket
count_down s = record s { queued_messages = s.queued_messages - 1 }

-- What a turn comes to: an empty queue leaves a header without a connection, which is used.
pub data Turn : Type 0 where
  went_on : Socket → Turn
  null_connection : Turn
  no_answer : Turn

unfoldable pub send_item : ℕ → List SendResult → Header → Bytes → Socket → Turn
unfolding sendproc after_send
send_item now results h bytes s = elim (get_elem? s.pool.connections h.conn) [
  | none ↦ null_connection
  | some d ↦
      if not (d.curr_sequence == h.sequence)
      then went_on (count_down s)
      else elim (sendproc results) [
        | none ↦ no_answer
        | some r ↦ went_on (count_down (after_send now h bytes d r.send_size s))
      ]
]

unfoldable pub send_queue_turn : ℕ → List SendResult → Socket → Turn
unfolding send_item
send_queue_turn now results s = elim s.send_queue [
  | [] ↦ null_connection
  | (h, bytes) ∷ queue ↦ send_item now results h bytes (record s { send_queue = queue })
]
