-- ===== src/Net/Send/Delivery.antt =====
-- A message that the kernel takes in pieces: `ServerSendQueueThread` of
-- my_nginx_event/src/net/my_socket.cpp starts, and the callback for writing of
-- my_nginx_event/src/net/my_http_request_callback.cpp goes on.
use mynginx_evnet_module.Base.{
  ℕ, suc, ◌-◌, ◌^◌, ◌<◌, ◌≡◌, refl, sym, ap, ◌∙◌, false, some, List, [], ◌∷◌, ◌++◌, append_assoc,
  append-nil, arith, length, take, drop, map, get_elem?, take-append-drop, length-drop,
}
use mynginx_evnet_module.Base.Bytes.{Bytes}
use mynginx_evnet_module.Net.Buffer.{contents, IsValid}
use mynginx_evnet_module.Net.Pool.{Connection}
use mynginx_evnet_module.Net.Timer.{Header}
use mynginx_evnet_module.Net.Send.{Socket}
use mynginx_evnet_module.Net.Send.Calls.{SendResult, sent}
use mynginx_evnet_module.Net.Send.Thread.{went_on, send_item}
use mynginx_evnet_module.Net.Send.Write.{
  write_loop, has_nothing_to_write, is_closed_fd, write_response_handler,
}
use mynginx_evnet_module.Net.Send.Stream.{wire, sendbuf, unsent_text, stream}
use mynginx_evnet_module.Net.Send.Order.{write_response_handler-Streams}
use mynginx_evnet_module.Net.Send.Started.{
  waiting, has_something, started, send_item-started, get-started, unsent-started, AllValid-started,
  wire-started,
}
use mynginx_evnet_module.Net.Send.Drain.{Pieces, write_loop-drains}

handler-loop :
    (now c : ℕ) (results : List SendResult) (d : Connection) (s : Socket)
    → get_elem? s.pool.connections c ≡ some d
    → has_nothing_to_write d ≡ false
    → write_response_handler now c results s ≡ write_loop (suc (length results)) now c results s
unfolding write_response_handler
handler-loop now c results d s e h = rw (write_response_handler, e, h) refl

-- A message for an open connection with nothing waiting, of which the kernel takes the first n bytes
-- from the thread and the rest, in pieces of any positive sizes, from the callback for writing: the
-- turn of the thread succeeds, the callback returns, the kernel has got exactly the bytes of the
-- message behind those from before, and nothing waits. The sequence number of the connection is that
-- of the message, and less than 2^31.
pub send_item-delivers :
    (now later n : ℕ) (ks : List ℕ) (h : Header) (bytes : Bytes) (d : Connection) (s : Socket)
    → get_elem? s.pool.connections h.conn ≡ some d
    → IsValid d.psendbuf
    → contents d.psendbuf ≡ []
    → is_closed_fd d.fd ≡ false
    → d.curr_sequence ≡ h.sequence
    → h.sequence < 2 ^ 31
    → (0 < n) × (n < length bytes)
    → Pieces (length bytes - n) ks
    → (t : Socket) × (u : Socket) × (send_item now (sent n ∷ []) h bytes s ≡ went_on t)
      × (write_response_handler later h.conn (map sent ks) t ≡ some u)
      × (wire h.conn u.effects ≡ wire h.conn s.effects ++ bytes)
      × (unsent_text (sendbuf h.conn u.pool.connections) ≡ [])
unfolding stream
send_item-delivers now later n ks h bytes d s e v empty open' q l p pieces =
    let c = h.conn in
    let rest = drop n bytes in
    let t = started n h bytes s in
    let some_rest : 0 < length rest = omega (arith, length-drop n bytes, p.1) in
    let left : unsent_text (sendbuf c t.pool.connections) ≡ rest =
      unsent-started n h bytes d s e v ∙ ap (λ x. x ++ rest) empty in
    let pieces' : Pieces (length (unsent_text (sendbuf c t.pool.connections))) ks =
      rw (left, length-drop n bytes) pieces in
    let valid = AllValid-started n h bytes d s e v in
    let loop = write_loop-drains later c ks t valid (rw left some_rest) pieces' in
    let u = loop.0 in
    let handled =
      handler-loop later c (map sent ks) (waiting h rest d) t (get-started n h bytes d s e v)
        (has_something h rest d v open' q l some_rest)
      ∙ loop.1 in
    let streams = write_response_handler-Streams later c (map sent ks) t valid in
    let same : stream c u ≡ stream c t = rw handled at streams in
    let last_wire : wire c u.effects ≡ wire c s.effects ++ bytes =
      sym (append-nil (wire c u.effects))
      ∙ ap (◌++◌ (wire c u.effects)) (sym loop.2)
      ∙ same
      ∙ ap (◌++◌ (wire c t.effects)) left
      ∙ ap (λ w. w ++ rest) (wire-started n h bytes d s e v)
      ∙ append_assoc (wire c s.effects) (take n bytes) rest
      ∙ ap (◌++◌ (wire c s.effects)) (take-append-drop n bytes) in
    (t, u, send_item-started now n h bytes d s e q p, handled, last_wire, loop.2)
