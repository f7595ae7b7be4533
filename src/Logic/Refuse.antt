-- ===== src/Logic/Refuse.antt =====
-- What `threadRecvProcFunc` of my_nginx_event/src/logic/my_slogic.cpp answers to a message of a method
-- with a body that does not say how long the body is.
use mynginx_evnet_module.Base.{
  ℕ, suc, ◌+◌, ◌≤◌, ◌≡◌, refl, ap, ◌∙◌, true, false, Option, none, some, List, [], ◌∷◌, ◌++◌, arith,
  length, get_elem?, le→ltb, if◌then◌else◌,
}
use mynginx_evnet_module.Base.Bytes.{codes, is_empty, search_bytes}
use mynginx_evnet_module.Http.Request.{HttpRequest, get_header, method_of}
use mynginx_evnet_module.Http.Context.State.{Context, Run, Surroundings, fail, reset}
use mynginx_evnet_module.Http.Context.Line.{line_done}
use mynginx_evnet_module.Http.Context.Headers.{
  has_body, skip, end_of_headers, apply_length, stoi_uint64, finish_headers, read_content_type,
}
use mynginx_evnet_module.Http.Context.Loop.{returned, parse_loop, parse_request, finish, received}
use mynginx_evnet_module.Http.Context.Fresh.{IsFresh}
use mynginx_evnet_module.Http.Context.Head.{pos-lt-length, after_lines-keeps}
use mynginx_evnet_module.Http.Context.Message.{
  Message, IsMessage, line_text, message_text, line_request,
}
use mynginx_evnet_module.Http.Context.Complete.{
  after_head, unread-after_head, parse_loop-head, message_request, add_headers-method,
  read_content_type-plain,
}
use mynginx_evnet_module.Http.Context.Reset.{IsReset, reset-IsReset}
use mynginx_evnet_module.Net.Pool.{Connection}
use mynginx_evnet_module.Net.Timer.{Header}
use mynginx_evnet_module.Net.Send.{Socket, max_queue, max_send_count, enqueue_message}
use mynginx_evnet_module.Middleware.{Middleware}
use mynginx_evnet_module.Route.{Regexes, Router}
use mynginx_evnet_module.Logic.Receive.{
  bad_request_text, next_uint, done, after_parse, thread_recv_proc,
}
use mynginx_evnet_module.Logic.Answer.{
  parsed_into, receives, message_text-not_empty, get-update_at-some, msg_send-enqueue,
}

end_of_headers-no_length :
    (r : Run)
    → has_body r.request.method ≡ true
    → get_header r.request (codes "Content-Length") ≡ []
    → end_of_headers r ≡ fail r
unfolding end_of_headers
end_of_headers-no_length r b h =
    let text = get_header r.request (codes "Content-Length") in
    ap
      (λ t.
        if t
        then (if is_empty text then fail r else apply_length r (stoi_uint64 text))
        else finish_headers r)
      b
    ∙ ap (λ t. if is_empty t then fail r else apply_length r (stoi_uint64 t)) h

parse_loop-failed_end :
    (env : Surroundings) (now fuel : ℕ) (r : Run)
    → length r.buffer ≤ r.parsed_pos
    → r.ok ≡ false
    → r.is_err ≡ true
    → parse_loop env now (suc fuel) r ≡ returned (reset r.context) false true
unfolding parse_loop finish
parse_loop-failed_end env now fuel r l o e =
    rw (le→ltb r.parsed_pos (length r.buffer) l, parse_loop, o, e) refl

parse_request-no_length :
    (env : Surroundings) (now fuel : ℕ) (c : Context) (m : Message)
    → IsFresh c
    → IsMessage m
    → has_body (method_of m.method_name) ≡ true
    → get_header (message_request c now m) (codes "Content-Length") ≡ []
    → search_bytes
        (codes "multipart/form-data")
        (get_header (message_request c now m) (codes "Content-Type"))
      ≡ none
    → (c' : Context) × (parse_request env now (suc (suc (suc fuel))) c (message_text m [])
        ≡ returned (reset c') false true)
unfolding parse_request
parse_request-no_length env now fuel c m f v b h np =
    let r = after_head c now m [] in
    let k = after_lines-keeps m.headers (
      line_done (received c (message_text m [])) now (length (line_text m))
        (line_request c.request m)) in
    let r' = fail (skip r 2) in
    let meth : has_body r.request.method ≡ true =
      ap (λ (q : HttpRequest). has_body q.method) k.0
      ∙ ap has_body
          (add_headers-method m.headers (record (line_request c.request m) { receive_time = now }))
      ∙ b in
    let header : get_header r.request (codes "Content-Length") ≡ [] =
      ap (λ q. get_header q (codes "Content-Length")) k.0 ∙ h in
    let ends : read_content_type (end_of_headers (skip r 2)) ≡ r' =
      ap read_content_type (end_of_headers-no_length (skip r 2) meth header)
      ∙ read_content_type-plain r' (
          ap (search_bytes (codes "multipart/form-data"))
            (ap (λ q. get_header q (codes "Content-Type")) k.0)
          ∙ np) in
    let e = pos-lt-length r.buffer [] [] r.parsed_pos (unread-after_head c now m [] f) in
    (
      r'.context,
      parse_loop-head env now (suc fuel) c m [] f v
          ∙ ap (parse_loop env now (suc fuel)) ends
          ∙ parse_loop-failed_end env now fuel r' (omega (arith, e)) refl refl,
    )

module _ {W : Type 0} (lib : Regexes) (router : Router lib.Regex)
    (chain : List (Option (Middleware W))) where
  -- A well-formed message of a method with a body that has no `Content-Length`, received whole on a
  -- connection that waits for a request, while the send queue has room and the connection has few
  -- messages in it: whatever the middlewares and the routes are, none of them is asked, the 400 text is
  -- the one message that is queued, for this connection and its sequence number, and the connection's
  -- context is ready for the next request.
  pub thread_recv_proc-refuses :
      (env : Surroundings) (fuel now : ℕ) (h : Header) (m : Message) (d : Connection) (s : Socket)
      (w : W)
      → get_elem? s.pool.connections h.conn ≡ some d
      → d.curr_sequence ≡ h.sequence
      → IsFresh d.context
      → IsMessage m
      → has_body (method_of m.method_name) ≡ true
      → get_header (message_request d.context now m) (codes "Content-Length") ≡ []
      → search_bytes
          (codes "multipart/form-data")
          (get_header (message_request d.context now m) (codes "Content-Type"))
        ≡ none
      → length s.send_queue ≤ max_queue
      → d.send_count ≤ max_send_count
      → (s' : Socket) × (e : Connection) × (thread_recv_proc lib router chain env
            (suc (suc (suc fuel)))
            now
            h
            (message_text m [])
            s
            w
          ≡ done s' w)
        × (s'.send_queue
            ≡ s.send_queue
              ++ (record { conn = h.conn; sequence = d.curr_sequence }, bad_request_text) ∷ [])
        × (get_elem? s'.pool.connections h.conn ≡ some e)
        × IsReset e.context
        × (e.send_count ≡ d.send_count + 1)
  unfolding after_parse enqueue_message
  thread_recv_proc-refuses env fuel now h m d s w e q f v b z np l n =
      let (c', p) = parse_request-no_length env now fuel d.context m f v b z np in
      let context = reset c' in
      let parse = λ (d : Connection). record d {
        context = record context { sequence = next_uint context.sequence };
      } in
      let count = λ (d : Connection). record d { send_count = d.send_count + 1 } in
      let s1 = parsed_into h.conn context s in
      let e1 = get-update_at-some h.conn parse s.pool.connections d e in
      let s2 = enqueue_message bad_request_text h.conn (parse d) s1 in
      let e2 = get-update_at-some h.conn count s1.pool.connections (parse d) e1 in
      (
        s2,
        count (parse d),
        receives lib router chain env (suc (suc (suc fuel))) now h (message_text m []) d s w e
              (message_text-not_empty m) q
            ∙ ap (after_parse lib router chain now h.conn s w) p
            ∙ ap (λ t. done t w) (msg_send-enqueue now bad_request_text h.conn (parse d) s1 e1 l n),
        refl,
        e2,
        keeps context (reset-IsReset c'),
        refl,
      )
    where
      keeps : (c : Context) → IsReset c → IsReset (record c { sequence = next_uint c.sequence })
      keeps c r = record {
        fresh = record {
          waits = r.fresh.waits;
          empty = r.fresh.empty;
          at_start = r.fresh.at_start;
          no_method = r.fresh.no_method;
        };
        no_bytes = r.no_bytes;
        no_boundary = r.no_boundary;
        no_content = r.no_content;
        no_length = r.no_length;
        no_upload = r.no_upload;
        no_connection = r.no_connection;
      }
