-- ===== src/Net/Send/Overtake.antt =====
-- Two messages on one connection, and the mask of events, in `ServerSendQueueThread` of
-- my_nginx_event/src/net/my_socket.cpp.
use mynginx_evnet_module.Base.{
  ℕ, ◌<◌, ◌≡◌, refl, ap, ◌∙◌, Bool, true, false, some, [], ◌∷◌, ◌++◌, arith, if◌then◌else◌, ◌==◌,
  length, take, drop, get_elem?, take_all,
}
use mynginx_evnet_module.Base.Bytes.{Bytes, equal}
use mynginx_evnet_module.Net.Buffer.{readable_bytes, contents, IsValid}
use mynginx_evnet_module.Net.Pool.{Connection, get_one_to_use, next_sequence}
use mynginx_evnet_module.Net.Timer.{Header}
use mynginx_evnet_module.Net.Send.{Socket, close_socket_proc}
use mynginx_evnet_module.Net.Send.Calls.{sent, size}
use mynginx_evnet_module.Net.Send.Thread.{
  taken, wants_close, after_full, after_send, bad_request, went_on, count_down, send_item,
}
use mynginx_evnet_module.Net.Send.Stream.{
  wire, sendbuf, unsent_text, Keeps, Keeps-trans, wire-taken, close_socket_proc-Keeps,
}
use mynginx_evnet_module.Net.Send.Started.{
  copied, text_of-copied, readable-copied, send_item-fresh, started, wire-started, unsent-started,
  send_item-started,
}

Keeps-refl : (c : ℕ) (s : Socket) → Keeps c s s
Keeps-refl c s = record { same_buffer = refl; same_wire = refl }

closes_if-Keeps :
    (b : Bool) (now c : ℕ) (s : Socket) → Keeps c s (if b then close_socket_proc now c s else s)
closes_if-Keeps true now c s = close_socket_proc-Keeps now c c s
closes_if-Keeps false now c s = Keeps-refl c s

after_full-Keeps : (now c : ℕ) (bytes : Bytes) (s : Socket) → Keeps c s (after_full now c bytes s)
unfolding after_full
after_full-Keeps now c bytes s =
    let b = equal bytes bad_request in
    let t = if b then close_socket_proc now c s else s in
    Keeps-trans c s t (after_full now c bytes s) (closes_if-Keeps b now c s)
      (closes_if-Keeps (wants_close (get_elem? t.pool.connections c)) now c t)

after_send-full :
    (now : ℕ) (h : Header) (bytes : Bytes) (d : Connection) (s : Socket)
    → 0 < length bytes
    → after_send now h bytes d (size (length bytes)) s
      ≡ after_full now h.conn bytes (taken h.conn bytes s)
unfolding after_send copied
after_send-full now h bytes d s p =
    let nonzero : (length bytes == 0) ≡ false = ground (arith, p) in
    let whole : (length bytes == readable_bytes (copied bytes)) ≡ true =
      ground (arith, readable-copied bytes) in
    rw (nonzero, whole)
      (ap (λ t. after_full now h.conn bytes (taken h.conn (take (length bytes) t) s))
          (text_of-copied bytes)
        ∙ ap (λ t. after_full now h.conn bytes (taken h.conn t s))
            (take_all (length bytes) bytes (omega arith)))

-- A message that the kernel takes in full goes out at once, whatever still waits from messages
-- before it: the bytes are sent behind those that were sent, and what waits stays as it is, to be
-- sent behind them.
pub send_item-overtakes :
    (now : ℕ) (h : Header) (bytes : Bytes) (d : Connection) (s : Socket)
    → get_elem? s.pool.connections h.conn ≡ some d
    → d.curr_sequence ≡ h.sequence
    → 0 < length bytes
    → (t : Socket) × (send_item now (sent (length bytes) ∷ []) h bytes s ≡ went_on t)
      × (wire h.conn t.effects ≡ wire h.conn s.effects ++ bytes)
      × (sendbuf h.conn t.pool.connections ≡ sendbuf h.conn s.pool.connections)
send_item-overtakes now h bytes d s e q p =
    let c = h.conn in
    let s' = taken c bytes s in
    let k = after_full-Keeps now c bytes s' in
    (
      count_down (after_full now c bytes s'),
      send_item-fresh now (length bytes) h bytes d s e q
          ∙ ap (λ x. went_on (count_down x)) (after_send-full now h bytes d s p),
      k.same_wire ∙ wire-taken c bytes s,
      k.same_buffer,
    )

-- A connection that is used again for another client still has the bytes that were not sent to the
-- one before: when the kernel takes the first bytes of a message, those old bytes wait in front of
-- the rest of it.
pub send_item-leaks :
    (now n fd : ℕ) (h : Header) (bytes : Bytes) (old : Connection) (s : Socket)
    → get_elem? s.pool.connections h.conn ≡ some (get_one_to_use (some fd) old)
    → next_sequence old.curr_sequence ≡ h.sequence
    → IsValid old.psendbuf
    → (0 < n) × (n < length bytes)
    → (t : Socket) × (send_item now (sent n ∷ []) h bytes s ≡ went_on t)
      × (wire h.conn t.effects ≡ wire h.conn s.effects ++ take n bytes)
      × (unsent_text (sendbuf h.conn t.pool.connections) ≡ contents old.psendbuf ++ drop n bytes)
unfolding get_one_to_use
send_item-leaks now n fd h bytes old s e q v p =
    let d = get_one_to_use (some fd) old in
    (
      started n h bytes s,
      send_item-started now n h bytes d s e q p,
      wire-started n h bytes d s e v,
      unsent-started n h bytes d s e v,
    )
