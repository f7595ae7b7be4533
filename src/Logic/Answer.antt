-- ===== src/Logic/Answer.antt =====
-- What `threadRecvProcFunc` of my_nginx_event/src/logic/my_slogic.cpp answers.
use mynginx_evnet_module.Base.{
  ◌+◌, ◌≤◌, ◌++◌, le→ltb, ℕ, suc, ◌<◌, ◌≡◌, refl, ap, ◌∙◌, false, Option, none, some, List, [], ◌∷◌,
  arith, length, length-append, get_elem?, ==_iff,
}
use mynginx_evnet_module.Base.Bytes.{Bytes, codes, is_empty, search_bytes}
use mynginx_evnet_module.Http.Request.{HttpRequest, get_header, method_of}
use mynginx_evnet_module.Http.Context.State.{Context, Surroundings, reset}
use mynginx_evnet_module.Http.Context.Loop.{parse_request}
use mynginx_evnet_module.Http.Context.Headers.{has_body}
use mynginx_evnet_module.Http.Context.Fresh.{IsFresh}
use mynginx_evnet_module.Http.Context.Message.{
  Message, IsMessage, message_text, line_text, headers_text,
}
use mynginx_evnet_module.Http.Context.Complete.{message_request, parse_request-message_text}
use mynginx_evnet_module.Http.Context.Reset.{IsReset, reset-IsReset}
use mynginx_evnet_module.Net.Pool.{Connection, update_at}
use mynginx_evnet_module.Net.Send.Close.{get-update_at}
use mynginx_evnet_module.Http.Response.{HttpResponse, new_response, append_to_buffer}
use mynginx_evnet_module.Logic.Handle.{handle_request}
use mynginx_evnet_module.Net.Timer.{Header}
use mynginx_evnet_module.Net.Send.{
  Socket, max_queue, max_send_count, enqueue_message, send_to, msg_send,
}
use mynginx_evnet_module.Middleware.{Middleware}
use mynginx_evnet_module.Route.{Regexes, Router}
use mynginx_evnet_module.Logic.Receive.{
  closes_after, send_response, with_connection, next_uint, done, on_request, after_request,
  after_parse, receive_on, receive_at, thread_recv_proc,
}

is_empty-false : (xs : Bytes) → 0 < length xs → is_empty xs ≡ false
is_empty-false [] h = absurd (omega arith)
is_empty-false (x ∷ xs) h = refl

pub message_text-not_empty : (m : Message) → is_empty (message_text m []) ≡ false
message_text-not_empty m =
    is_empty-false (message_text m [])
      (omega (arith, length-append (line_text m) (b'\r' ∷ b'\n' ∷ headers_text m.headers [])))

-- The socket with the context as the parser left it, one sequence number on.
abbrev pub parsed_into : ℕ → Context → Socket → Socket
parsed_into c context s =
    with_connection c
      (λ d. record d { context = record context { sequence = next_uint context.sequence } }) s

pub get-update_at-some :
    (c : ℕ) (f : Connection → Connection) (cs : List Connection) (d : Connection)
    → get_elem? cs c ≡ some d
    → get_elem? (update_at c f cs) c ≡ some (f d)
get-update_at-some c f cs d e =
    get-update_at c f cs ∙ ap (λ o. elim o [ none ↦ none | some d ↦ some (f d) ]) e

-- With room for the message and few messages of the connection, the message is queued.
pub msg_send-enqueue :
    (now : ℕ) (bytes : Bytes) (c : ℕ) (d : Connection) (s : Socket)
    → get_elem? s.pool.connections c ≡ some d
    → length s.send_queue ≤ max_queue
    → d.send_count ≤ max_send_count
    → msg_send now bytes c s ≡ enqueue_message bytes c d s
unfolding msg_send send_to
msg_send-enqueue now bytes c d s e q n =
    ap (λ o. elim o [ none ↦ s | some d ↦ send_to now bytes c d s ]) e
    ∙ rw (le→ltb max_queue (length s.send_queue) q, le→ltb max_send_count d.send_count n) refl

module _ {W : Type 0} (lib : Regexes) (router : Router lib.Regex)
    (chain : List (Option (Middleware W))) where
  pub receives :
      (env : Surroundings) (fuel now : ℕ) (h : Header) (bytes : Bytes) (d : Connection) (s : Socket)
      (w : W)
      → get_elem? s.pool.connections h.conn ≡ some d
      → is_empty bytes ≡ false
      → d.curr_sequence ≡ h.sequence
      → thread_recv_proc lib router chain env fuel now h bytes s w
        ≡ after_parse lib router chain now h.conn s w (parse_request env now fuel d.context bytes)
  unfolding thread_recv_proc receive_on
  receives env fuel now h bytes d s w e b q =
      ap (receive_at lib router chain env fuel now h bytes s w) e
      ∙ rw (b, (==_iff d.curr_sequence h.sequence).1 q)

  on_request-sends :
      (now c : ℕ) (q : HttpRequest) (d : Connection) (s : Socket) (w w' : W) (r : HttpResponse)
      → handle_request lib router chain q (new_response (closes_after q)) w ≡ some (r, w')
      → get_elem? s.pool.connections c ≡ some d
      → length s.send_queue ≤ max_queue
      → d.send_count ≤ max_send_count
      → on_request lib router chain now c q s w
        ≡ some (
          enqueue_message
              (append_to_buffer r [])
              c
              (record d { is_http_close = closes_after q })
              (with_connection c (λ d. record d { is_http_close = closes_after q }) s),
          w',
        )
  unfolding on_request
  on_request-sends now c q d s w w' r k e l n =
      let f = λ (d : Connection). record d { is_http_close = closes_after q } in
      ap (send_response lib router chain now c (with_connection c f s)) k
      ∙ ap (λ t. some (t, w'))
          (msg_send-enqueue now (append_to_buffer r []) c (f d) (with_connection c f s)
            (get-update_at-some c f s.pool.connections d e) l n)

  -- A well-formed message of a method with no body, received whole on a connection that waits for a
  -- request, while the send queue has room and the connection has few messages in it: when the handling
  -- of the request that the message says gives a response, the text of that response is the one message
  -- that is queued, for this connection and its sequence number; whether the connection is closed behind
  -- it is decided by the request; and the connection's context is ready for the next request.
  pub thread_recv_proc-answers :
      (env : Surroundings) (fuel now : ℕ) (h : Header) (m : Message) (d : Connection) (s : Socket)
      (w w' : W) (r : HttpResponse)
      → get_elem? s.pool.connections h.conn ≡ some d
      → d.curr_sequence ≡ h.sequence
      → IsFresh d.context
      → IsMessage m
      → has_body (method_of m.method_name) ≡ false
      → search_bytes
          (codes "multipart/form-data")
          (get_header (message_request d.context now m) (codes "Content-Type"))
        ≡ none
      → length s.send_queue ≤ max_queue
      → d.send_count ≤ max_send_count
      → handle_request lib router chain
          (message_request d.context now m)
          (new_response (closes_after (message_request d.context now m)))
          w
        ≡ some (r, w')
      → (s' : Socket) × (e : Connection) × (thread_recv_proc lib router chain env
            (suc (suc (suc fuel)))
            now
            h
            (message_text m [])
            s
            w
          ≡ done s' w')
        × (s'.send_queue
            ≡ s.send_queue
              ++ (record { conn = h.conn; sequence = d.curr_sequence }, append_to_buffer r []) ∷ [])
        × (get_elem? s'.pool.connections h.conn ≡ some e)
        × IsReset e.context
        × (e.is_http_close ≡ closes_after (message_request d.context now m))
        × (e.send_count ≡ d.send_count + 1)
  unfolding after_parse enqueue_message
  thread_recv_proc-answers env fuel now h m d s w w' r e q f v nb np l n k =
      let (context, p, c) = parse_request-message_text env now fuel d.context m [] f v nb np in
      let request = message_request d.context now m in
      let parse = λ (d : Connection). record d {
        context = record context { sequence = next_uint context.sequence };
      } in
      let close = λ (d : Connection). record d { is_http_close = closes_after request } in
      let count = λ (d : Connection). record d { send_count = d.send_count + 1 } in
      let clear = λ (d : Connection). record d { context = reset d.context } in
      let s1 = parsed_into h.conn context s in
      let e1 = get-update_at-some h.conn parse s.pool.connections d e in
      let s2 = with_connection h.conn close s1 in
      let e2 = get-update_at-some h.conn close s1.pool.connections (parse d) e1 in
      let s3 = enqueue_message (append_to_buffer r []) h.conn (close (parse d)) s2 in
      let e3 = get-update_at-some h.conn count s2.pool.connections (close (parse d)) e2 in
      let s4 = with_connection h.conn clear s3 in
      let e4 = get-update_at-some h.conn clear s3.pool.connections (count (close (parse d))) e3 in
      (
        s4,
        clear (count (close (parse d))),
        receives env (suc (suc (suc fuel))) now h (message_text m []) d s w e
              (message_text-not_empty m) q
            ∙ ap (after_parse lib router chain now h.conn s w) p
            ∙ ap
                (λ r.
                  after_request lib router chain h.conn
                    (on_request lib router chain now h.conn r s1 w))
                c.reads
            ∙ ap (after_request lib router chain h.conn)
                (on_request-sends now h.conn request (parse d) s1 w w' r k e1 l n),
        refl,
        e4,
        reset-IsReset (record context { sequence = next_uint context.sequence }),
        refl,
        refl,
      )
