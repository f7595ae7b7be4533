-- ===== src/Net/Send/Order.antt =====
-- The bytes that a connection sends keep their order in the callback for writing of
-- my_nginx_event/src/net/my_http_request_callback.cpp.
use mynginx_evnet_module.Base.{
  ℕ, zero, suc, ◌≡◌, refl, sym, ap, ◌∙◌, Option, none, some, List, [], ◌++◌, append_assoc, arith,
  ◌==◌, Bool-cases, Option-cases, inl, inr, length, take, drop, get_elem?, take-append-drop,
  drop_all,
}
use mynginx_evnet_module.Net.Buffer.{Buffer, retrieve, readable_bytes, peek}
use mynginx_evnet_module.Net.Buffer.Queue.{retrieve-contents, retrieve-IsValid}
use mynginx_evnet_module.Net.Pool.{Connection}
use mynginx_evnet_module.Net.Send.{Socket, close_socket_proc}
use mynginx_evnet_module.Net.Send.Calls.{
  Errno, eagain, eintr, epipe, econnreset, other_errno, SendResult, SendSize, size, minus_one,
  minus_two, sendproc, epoll_mod,
}
use mynginx_evnet_module.Net.Send.Thread.{only_out, wants_close}
use mynginx_evnet_module.Net.Send.Write.{
  buffered, unsent, retrieve_sent, finish_write, write_error, write_loop, after_sendproc,
  has_nothing_to_write, write_response_handler,
}
use mynginx_evnet_module.Net.Send.Stream.{
  wire, buffer_of, sendbuf, unsent_text, AllValid, stream, Keeps, Keeps-trans, stream-Keeps,
  close_socket_proc-Keeps, epoll_mod-Keeps, on_buffer, sendbuf-change, wire-taken,
}

buffered-unsent_text : (o : Option Connection) → buffered o ≡ unsent_text (buffer_of o)
unfolding peek readable_bytes
buffered-unsent_text none = refl
buffered-unsent_text (some d) = refl

retrieve-unsent_text :
    (n : ℕ) (o : Option Buffer)
    → AllValid o
    → (unsent_text (on_buffer (λ b. retrieve b n) o) ≡ drop n (unsent_text o))
      × AllValid (on_buffer (λ b. retrieve b n) o)
retrieve-unsent_text n none v = (sym (drop_all {A = ℕ} n [] (omega arith)), tt)
retrieve-unsent_text n (some b) v = (retrieve-contents b n v, retrieve-IsValid b n v)

retrieve_sent-sendbuf :
    (c n : ℕ) (s : Socket)
    → sendbuf c (retrieve_sent c n s).pool.connections
      ≡ on_buffer (λ b. retrieve b n) (sendbuf c s.pool.connections)
unfolding retrieve_sent
retrieve_sent-sendbuf c n s = sendbuf-change c (λ b. retrieve b n) _ s.pool.connections (λ e. refl)

retrieve_sent-wire :
    (c n : ℕ) (s : Socket)
    → wire c (retrieve_sent c n s).effects
      ≡ wire c s.effects ++ take n (unsent_text (sendbuf c s.pool.connections))
unfolding retrieve_sent
retrieve_sent-wire c n s =
    let o = get_elem? s.pool.connections c in
    wire-taken c (take n (buffered o)) s
    ∙ ap (λ t. wire c s.effects ++ take n t) (buffered-unsent_text o)

-- What the kernel takes of the buffer moves to the wire.
pub retrieve_sent-moves :
    (c n : ℕ) (s : Socket)
    → AllValid (sendbuf c s.pool.connections)
    → (wire c (retrieve_sent c n s).effects
        ≡ wire c s.effects ++ take n (unsent_text (sendbuf c s.pool.connections)))
      × (unsent_text (sendbuf c (retrieve_sent c n s).pool.connections)
          ≡ drop n (unsent_text (sendbuf c s.pool.connections)))
      × AllValid (sendbuf c (retrieve_sent c n s).pool.connections)
retrieve_sent-moves c n s v =
    let o = sendbuf c s.pool.connections in
    let e = retrieve_sent-sendbuf c n s in
    let r = retrieve-unsent_text n o v in
    (retrieve_sent-wire c n s, ap unsent_text e ∙ r.0, rw e r.1)

retrieve_sent-stream :
    (c n : ℕ) (s : Socket)
    → AllValid (sendbuf c s.pool.connections)
    → stream c (retrieve_sent c n s) ≡ stream c s
unfolding stream
retrieve_sent-stream c n s v =
    let text = unsent_text (sendbuf c s.pool.connections) in
    let m = retrieve_sent-moves c n s v in
    ap (λ w. w ++ unsent_text (sendbuf c (retrieve_sent c n s).pool.connections)) m.0
    ∙ ap (λ t. (wire c s.effects ++ take n text) ++ t) m.1
    ∙ append_assoc (wire c s.effects) (take n text) (drop n text)
    ∙ ap (◌++◌ (wire c s.effects)) (take-append-drop n text)

pub finish_write-Keeps : (now c : ℕ) (s : Socket) → Keeps c s (finish_write now c s)
unfolding finish_write
finish_write-Keeps now c s =
    let t = epoll_mod 1 only_out c s in
    elim (Bool-cases (wants_close (get_elem? t.pool.connections c))) [
      | inl e ↦ rw e (
          Keeps-trans c s t (close_socket_proc now c t) (epoll_mod-Keeps c 1 only_out c s)
            (close_socket_proc-Keeps now c c t))
      | inr e ↦ rw e (epoll_mod-Keeps c 1 only_out c s)
    ]

write_error-Keeps : (now c : ℕ) (e : Errno) (s : Socket) → Keeps c s (write_error now c e s)
unfolding write_error
write_error-Keeps now c eagain s = epoll_mod-Keeps c 0 only_out c s
write_error-Keeps now c eintr s = close_socket_proc-Keeps now c c s
write_error-Keeps now c epipe s = close_socket_proc-Keeps now c c s
write_error-Keeps now c econnreset s = close_socket_proc-Keeps now c c s
write_error-Keeps now c other_errno s = close_socket_proc-Keeps now c c s

-- The result of a loop that has ended has the stream of the socket.
abbrev pub Streams : ℕ → Socket → Option Socket → Type 0
Streams c s none = Unit {0}
Streams c s (some s') = stream c s' ≡ stream c s

Streams-via :
    (c : ℕ) (s t : Socket) (o : Option Socket)
    → stream c t ≡ stream c s
    → Streams c t o
    → Streams c s o
Streams-via c s t none h k = tt
Streams-via c s t (some u) h k = k ∙ h

after_sendproc-Streams :
    (again : Socket → Option Socket) (now c : ℕ) (z : SendSize) (s : Socket)
    → ((t : Socket) → AllValid (sendbuf c t.pool.connections) → Streams c t (again t))
    → AllValid (sendbuf c s.pool.connections)
    → Streams c s (after_sendproc again now c z s)
unfolding after_sendproc
after_sendproc-Streams again now c (size zero) s k v =
    stream-Keeps c s (close_socket_proc now c s) (close_socket_proc-Keeps now c c s)
after_sendproc-Streams again now c (size (suc n)) s k v =
    let t = retrieve_sent c (suc n) s in
    let moved = retrieve_sent-stream c (suc n) s v in
    elim (Bool-cases (unsent (get_elem? t.pool.connections c) == 0)) [
      | inl e ↦
          rw (Streams, after_sendproc, e)
            (stream-Keeps c t (finish_write now c t) (finish_write-Keeps now c t) ∙ moved)
      | inr e ↦
          rw (after_sendproc, e)
            (Streams-via c s t (again t) moved (k t (retrieve_sent-moves c (suc n) s v).2))
    ]
after_sendproc-Streams again now c (minus_one e) s k v =
    stream-Keeps c s (write_error now c e s) (write_error-Keeps now c e s)
after_sendproc-Streams again now c minus_two s k v =
    stream-Keeps c s (close_socket_proc now c s) (close_socket_proc-Keeps now c c s)

write_loop-Streams :
    (fuel now c : ℕ) (results : List SendResult) (s : Socket)
    → AllValid (sendbuf c s.pool.connections)
    → Streams c s (write_loop fuel now c results s)
unfolding write_loop
write_loop-Streams zero now c results s v = tt
write_loop-Streams (suc fuel) now c results s v = elim (Option-cases (sendproc results)) [
  | inl e ↦ rw (Streams, write_loop, e) tt
  | inr (r, e) ↦
      rw (write_loop, e)
        (after_sendproc-Streams (write_loop fuel now c r.results) now c r.send_size s
          (λ t. write_loop-Streams fuel now c r.results t) v)
]

-- Whatever the kernel answers, when the callback for writing returns, the bytes that the kernel has
-- taken and those that wait behind them are together the same as before: nothing is lost, sent
-- twice or sent in another order, whether the connection is then closed or not.
pub write_response_handler-Streams :
    (now c : ℕ) (results : List SendResult) (s : Socket)
    → AllValid (sendbuf c s.pool.connections)
    → Streams c s (write_response_handler now c results s)
unfolding write_response_handler
write_response_handler-Streams now c results s v =
    elim (Option-cases (get_elem? s.pool.connections c)) [
      | inl e ↦ rw (write_response_handler, e) refl
      | inr (d, e) ↦ elim (Bool-cases (has_nothing_to_write d)) [
        | inl h ↦ rw (write_response_handler, e, h) refl
        | inr h ↦
            rw (write_response_handler, e, h)
              (write_loop-Streams (suc (length results)) now c results s v)
      ]
    ]
