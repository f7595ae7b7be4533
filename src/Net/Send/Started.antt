-- ===== src/Net/Send/Started.antt =====
-- The first piece of a message in `ServerSendQueueThread` of my_nginx_event/src/net/my_socket.cpp: what
-- the kernel does not take waits in the buffer of the connection.
use mynginx_evnet_module.Base.{
  ℕ, ◌%◌, ◌^◌, ◌<◌, ◌≡◌, refl, sym, ap, ◌∙◌, true, false, some, [], ◌∷◌, ◌++◌, arith, ◌==◌, ==_iff,
  length, take, drop, get_elem?, length-append, length-slice,
}
use mynginx_evnet_module.Base.Bytes.{Bytes}
use mynginx_evnet_module.Net.Buffer.{
  Buffer, contents, IsValid, new, initial_size, append, retrieve, readable_bytes,
}
use mynginx_evnet_module.Net.Buffer.Queue.{
  new-IsValid, append-IsValid, append-contents, retrieve-contents,
}
use mynginx_evnet_module.Net.Pool.{Connection}
use mynginx_evnet_module.Net.Timer.{Header}
use mynginx_evnet_module.Net.Send.{Socket}
use mynginx_evnet_module.Net.Send.Close.{get-update_at}
use mynginx_evnet_module.Net.Send.Calls.{
  sent, size, sendproc, epoll_mod, modified_events, update_conn,
}
use mynginx_evnet_module.Net.Send.Thread.{
  only_out, taken, text_of, keep_rest, after_send, went_on, count_down, send_item,
}
use mynginx_evnet_module.Net.Send.Write.{has_nothing_to_write, int_to_uint64, is_closed_fd}
use mynginx_evnet_module.Net.Send.Stream.{
  wire, buffer_of, sendbuf, unsent_text, AllValid, text_of-contents, wire-taken, epoll_mod-Keeps,
}

pub readable-length : (b : Buffer) → IsValid b → readable_bytes b ≡ length (contents b)
unfolding readable_bytes
readable-length b v = sym (length-slice b.storage b.reader_index b.writer_index v.ordered v.within)

-- The connection once the rest of a message waits.
pub waiting : Header → Bytes → Connection → Connection
waiting h rest d = record d {
  psendbuf = append d.psendbuf rest;
  send_sequence = h.sequence % 2 ^ 32;
  events = modified_events 0 only_out d.events;
}

get-epoll_mod :
    (c : ℕ) (d : Connection) (s : Socket)
    → get_elem? s.pool.connections c ≡ some d
    → get_elem? (epoll_mod 0 only_out c s).pool.connections c
      ≡ some (record d { events = modified_events 0 only_out d.events })
unfolding epoll_mod
get-epoll_mod c d s e = rw (epoll_mod, e) (get-update_at c _ s.pool.connections ∙ rw e refl)

get-keep_rest :
    (c : ℕ) (h : Header) (rest : Bytes) (d : Connection) (s : Socket)
    → get_elem? s.pool.connections c ≡ some d
    → get_elem? (keep_rest c h rest s).pool.connections c ≡ some (waiting h rest d)
unfolding keep_rest waiting
get-keep_rest c h rest d s e =
    let f = λ (x : Connection). record x {
      psendbuf = append x.psendbuf rest;
      send_sequence = h.sequence % 2 ^ 32;
    } in
    get-epoll_mod c (f d) (update_conn c f s) (get-update_at c f s.pool.connections ∙ rw e refl)

keep_rest-wire :
    (c : ℕ) (h : Header) (rest : Bytes) (s : Socket)
    → wire c (keep_rest c h rest s).effects ≡ wire c s.effects
unfolding keep_rest
keep_rest-wire c h rest s =
    (epoll_mod-Keeps c 0 only_out c (
      update_conn c
        (λ e. record e { psendbuf = append e.psendbuf rest; send_sequence = h.sequence % 2 ^ 32 })
        s)).same_wire

-- A connection that has something to write, and may.
pub has_something :
    (h : Header) (rest : Bytes) (d : Connection)
    → IsValid d.psendbuf
    → is_closed_fd d.fd ≡ false
    → d.curr_sequence ≡ h.sequence
    → h.sequence < 2 ^ 31
    → 0 < length rest
    → has_nothing_to_write (waiting h rest d) ≡ false
unfolding has_nothing_to_write waiting
has_something h rest d v f q l r =
    let b = append d.psendbuf rest in
    let count = readable-length b (append-IsValid d.psendbuf rest v) in
    let text = ap length (append-contents d.psendbuf rest v) in
    let full : (readable_bytes b == 0) ≡ false =
      ground (arith, count, text, length-append (contents d.psendbuf) rest, r) in
    let turn : (d.curr_sequence == int_to_uint64 (h.sequence % 2 ^ 32)) ≡ true =
      ground (arith, q, l) in
    rw (f, full, turn) refl

-- The buffer into which the thread copies a message.
unfoldable pub copied : Bytes → Buffer
copied bytes = append (new initial_size) bytes

copied-contents : (bytes : Bytes) → contents (copied bytes) ≡ bytes
unfolding copied new
copied-contents bytes = append-contents (new initial_size) bytes (new-IsValid initial_size)

copied-IsValid : (bytes : Bytes) → IsValid (copied bytes)
unfolding copied
copied-IsValid bytes = append-IsValid (new initial_size) bytes (new-IsValid initial_size)

pub text_of-copied : (bytes : Bytes) → text_of (copied bytes) ≡ bytes
text_of-copied bytes = text_of-contents (copied bytes) ∙ copied-contents bytes

pub readable-copied : (bytes : Bytes) → readable_bytes (copied bytes) ≡ length bytes
readable-copied bytes =
    readable-length (copied bytes) (copied-IsValid bytes) ∙ ap length (copied-contents bytes)

text_of-rest : (n : ℕ) (bytes : Bytes) → text_of (retrieve (copied bytes) n) ≡ drop n bytes
text_of-rest n bytes =
    text_of-contents (retrieve (copied bytes) n)
    ∙ retrieve-contents (copied bytes) n (copied-IsValid bytes)
    ∙ ap (drop n) (copied-contents bytes)

-- The socket behind the first piece of a message.
pub started : ℕ → Header → Bytes → Socket → Socket
started n h bytes s = count_down (keep_rest h.conn h (drop n bytes) (taken h.conn (take n bytes) s))

after_send-partial :
    (now n : ℕ) (h : Header) (bytes : Bytes) (d : Connection) (s : Socket)
    → 0 < n
    → n < length bytes
    → after_send now h bytes d (size n) s
      ≡ keep_rest h.conn h (drop n bytes) (taken h.conn (take n bytes) s)
unfolding after_send copied
after_send-partial now n h bytes d s p l =
    let nonzero : (n == 0) ≡ false = ground (arith, p) in
    let part : (n == readable_bytes (copied bytes)) ≡ false =
      ground (arith, l, readable-copied bytes) in
    rw (nonzero, part)
      (ap
          (λ t.
            keep_rest h.conn h (text_of (retrieve (copied bytes) n)) (taken h.conn (take n t) s))
          (text_of-copied bytes)
        ∙ ap (λ t. keep_rest h.conn h t (taken h.conn (take n bytes) s)) (text_of-rest n bytes))

pub send_item-fresh :
    (now n : ℕ) (h : Header) (bytes : Bytes) (d : Connection) (s : Socket)
    → get_elem? s.pool.connections h.conn ≡ some d
    → d.curr_sequence ≡ h.sequence
    → send_item now (sent n ∷ []) h bytes s
      ≡ went_on (count_down (after_send now h bytes d (size n) s))
unfolding send_item sendproc
send_item-fresh now n h bytes d s e q =
    let fresh : (d.curr_sequence == h.sequence) ≡ true = (==_iff d.curr_sequence h.sequence).1 q in
    rw (send_item, e, fresh) refl

pub send_item-started :
    (now n : ℕ) (h : Header) (bytes : Bytes) (d : Connection) (s : Socket)
    → get_elem? s.pool.connections h.conn ≡ some d
    → d.curr_sequence ≡ h.sequence
    → (0 < n) × (n < length bytes)
    → send_item now (sent n ∷ []) h bytes s ≡ went_on (started n h bytes s)
unfolding started
send_item-started now n h bytes d s e q p =
    send_item-fresh now n h bytes d s e q
    ∙ ap (λ x. went_on (count_down x)) (after_send-partial now n h bytes d s p.0 p.1)

module _ (n : ℕ) (h : Header) (bytes : Bytes) (d : Connection) (s : Socket)
    (e : get_elem? s.pool.connections h.conn ≡ some d) (v : IsValid d.psendbuf) where
  pub get-started :
      get_elem? (started n h bytes s).pool.connections h.conn ≡ some (waiting h (drop n bytes) d)
  unfolding started
  get-started = get-keep_rest h.conn h (drop n bytes) d (taken h.conn (take n bytes) s) e

  sendbuf-started :
      sendbuf h.conn (started n h bytes s).pool.connections
      ≡ some (append d.psendbuf (drop n bytes))
  unfolding waiting
  sendbuf-started = ap buffer_of get-started

  pub unsent-started :
      unsent_text (sendbuf h.conn (started n h bytes s).pool.connections)
      ≡ contents d.psendbuf ++ drop n bytes
  unsent-started = ap unsent_text sendbuf-started ∙ append-contents d.psendbuf (drop n bytes) v

  pub AllValid-started : AllValid (sendbuf h.conn (started n h bytes s).pool.connections)
  AllValid-started = rw sendbuf-started (append-IsValid d.psendbuf (drop n bytes) v)

  pub wire-started :
      wire h.conn (started n h bytes s).effects ≡ wire h.conn s.effects ++ take n bytes
  unfolding started
  wire-started =
      keep_rest-wire h.conn h (drop n bytes) (taken h.conn (take n bytes) s)
      ∙ wire-taken h.conn (take n bytes) s
