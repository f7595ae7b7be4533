-- ===== src/Http/Context/Complete.antt =====
-- A whole message in one read: `parseRequest` of my_nginx_event/src/http/my_http_context.cpp
-- returns with the request that the message says.
use mathlib.Core.Path.{ap₂}
use native.Mathlib.Nat.{add_assoc}
use mynginx_evnet_module.Http.Context.Loop
use mynginx_evnet_module.Http.Context.State
use mynginx_evnet_module.Base.{
  inl, inr, ℕ, suc, ◌+◌, ◌≡◌, refl, ◌∙◌, ap, true, false, none, some, [], ◌∷◌, ◌++◌, arith, length,
  drop, lt→ltb, ltb, Bool-cases,
}
use mynginx_evnet_module.Base.Bytes.{Bytes, codes, search_bytes}
use mynginx_evnet_module.Http.Request.{HttpRequest, method_of, get_header, add_header}
use mynginx_evnet_module.Http.Context.State.{
  Context, Run, Surroundings, Step, continues, returns, expect_request_line, expect_headers,
  got_all, crlf, unread, max_line,
}
use mynginx_evnet_module.Http.Context.Line.{line_done}
use mynginx_evnet_module.Http.Context.Headers.{
  skip, end_of_headers, read_content_type, has_body, finish_headers,
}
use mynginx_evnet_module.Http.Context.Loop.{
  step_in, parse_loop, parse_request, finish, received, returned, loop_fuel, after_headers,
}
use mynginx_evnet_module.Http.Context.Fresh.{IsFresh}
use mynginx_evnet_module.Http.Context.Head.{
  unread-skip, pos-lt-length, after_lines, request_line_step-line_text, header_loop-headers_text,
  length-headers_text, after_lines-keeps, unread-after_lines,
}
use mynginx_evnet_module.Http.Context.Message.{
  Message, IsMessage, Pairs, line_text, headers_text, message_text, line_request, add_headers,
}

-- The run behind the request line and the header lines.
abbrev pub after_head : Context → ℕ → Message → Bytes → Run
after_head c now m rest =
    after_lines
      (line_done (received c (message_text m rest)) now (length (line_text m))
        (line_request c.request m))
      m.headers

-- What stands behind the request line of a message in a fresh context.
unread-line :
    (c : Context) (now : ℕ) (m : Message) (rest : Bytes)
    → IsFresh c
    → unread
        (line_done
          (received c (message_text m rest))
          now
          (length (line_text m))
          (line_request c.request m)).context
      ≡ headers_text m.headers rest
unread-line c now m rest f =
    let r = received c (message_text m rest) in
    ap (λ p. drop p r.buffer) (add_assoc r.parsed_pos (length (line_text m)) 2)
    ∙ unread-skip r.buffer (line_text m) (headers_text m.headers rest) r.parsed_pos
        (ap₂ (λ p b. drop p (b ++ message_text m rest)) f.at_start f.empty)

pub unread-after_head :
    (c : Context) (now : ℕ) (m : Message) (rest : Bytes)
    → IsFresh c
    → unread (after_head c now m rest).context ≡ crlf ++ rest
unread-after_head c now m rest f = unread-after_lines m.headers _ rest (unread-line c now m rest f)

-- The request line takes one round and the headers take the next.
pub parse_loop-head :
    (env : Surroundings) (now fuel : ℕ) (c : Context) (m : Message) (rest : Bytes)
    → IsFresh c
    → IsMessage m
    → parse_loop env now (suc (suc fuel)) (received c (message_text m rest))
      ≡ parse_loop env now fuel
          (read_content_type (end_of_headers (skip (after_head c now m rest) 2)))
unfolding parse_loop step_in
parse_loop-head env now fuel c m rest f v =
    let r = received c (message_text m rest) in
    let r1 = line_done r now (length (line_text m)) (line_request c.request m) in
    let e : unread r.context ≡ line_text m ++ (crlf ++ headers_text m.headers rest) =
      ap₂ (λ p b. drop p (b ++ message_text m rest)) f.at_start f.empty in
    let e1 = unread-line c now m rest f in
    let n = pos-lt-length r.buffer (line_text m) (headers_text m.headers rest) r.parsed_pos e in
    let s1 : step_in env now r.state r ≡ some (continues r1) =
      ap (λ st. step_in env now st r) f.waits
      ∙ ap some
          (request_line_step-line_text now r m (headers_text m.headers rest) e v f.no_method) in
    let k = length-headers_text m.headers rest in
    let s2 =
      header_loop-headers_text (length r.buffer + 1) r1 m.headers rest e1 v.header_fields
        (omega arith) in
    rw
      (
        lt→ltb r.parsed_pos (length r.buffer) (omega arith),
        parse_loop,
        s1,
        parse_loop,
        lt→ltb r1.parsed_pos (length r.buffer) (omega arith),
        parse_loop,
      )
      (ap
        (λ o. elim (after_headers o) [
          | none ↦ Loop.unfinished
          | some (continues r') ↦ parse_loop env now fuel r'
          | some (returns r') ↦ returned r'.context true r'.is_err
          | some (State.throws r') ↦ Loop.threw r'.context
          | some State.aborts ↦ Loop.aborted
        ])
        s2)

finish_complete :
    (r : Run) → r.ok ≡ true → r.is_err ≡ false → finish r ≡ returned r.context true false
unfolding finish
finish_complete r o e = ground arith

-- How a complete parse ends, within the fuel.
pub parse_loop-got_all :
    (env : Surroundings) (now fuel : ℕ) (r : Run)
    → r.state ≡ got_all
    → r.ok ≡ true
    → r.is_err ≡ false
    → parse_loop env now (suc fuel) r ≡ returned r.context true false
unfolding parse_loop step_in
parse_loop-got_all env now fuel r s o e = elim (Bool-cases (ltb r.parsed_pos (length r.buffer))) [
  | inl b ↦
      rw (b, parse_loop, ap (λ st. step_in env now st r) s, parse_loop)
        (ap (returned r.context true) e)
  | inr b ↦ rw (b, parse_loop) (finish_complete r o e)
]

-- What a completed parse returns: the context is done, holds the request that the message says, and
-- has read it to its end.
pub record Completes (c' : Context) (q : HttpRequest) (rest : Bytes) : Type 0 where
  pub done : c'.state ≡ got_all
  pub reads : c'.request ≡ q
  pub remains : unread c' ≡ rest

-- The request that a message says, read at time `now` into a fresh context.
abbrev pub message_request : Context → ℕ → Message → HttpRequest
message_request c now m =
    add_headers (record (line_request c.request m) { receive_time = now }) m.headers

pub add_headers-method : (hs : Pairs) (q : HttpRequest) → (add_headers q hs).method ≡ q.method
unfolding add_header
add_headers-method [] q = refl
add_headers-method ((k, v) ∷ hs) q = add_headers-method hs (add_header q k v)

pub read_content_type-plain :
    (r : Run)
    → search_bytes (codes "multipart/form-data") (get_header r.request (codes "Content-Type"))
      ≡ none
    → read_content_type r ≡ r
unfolding read_content_type
read_content_type-plain r h = rw (h, read_content_type)

end_of_headers-no_body :
    (r : Run) → has_body r.request.method ≡ false → end_of_headers r ≡ finish_headers r
unfolding end_of_headers
end_of_headers-no_body r h = rw (h, end_of_headers)

-- A message whose request line and header lines are well formed, of a method with no body and with
-- no multipart content type, and received whole in one read by a fresh context, is parsed within
-- three rounds: `parse_request` returns true with no error, and the context then holds the method,
-- path, query parameters, version and headers of the message and has read exactly the message,
-- whatever bytes stand behind it.
pub parse_request-message_text :
    (env : Surroundings) (now fuel : ℕ) (c : Context) (m : Message) (rest : Bytes)
    → IsFresh c
    → IsMessage m
    → has_body (method_of m.method_name) ≡ false
    → search_bytes
        (codes "multipart/form-data")
        (get_header (message_request c now m) (codes "Content-Type"))
      ≡ none
    → (c' : Context) × (parse_request env now (suc (suc (suc fuel))) c (message_text m rest)
        ≡ returned c' true false)
      × Completes c' (message_request c now m) rest
unfolding parse_request
parse_request-message_text env now fuel c m rest f v nb np =
    let r = after_head c now m rest in
    let k = after_lines-keeps m.headers (
      line_done (received c (message_text m rest)) now (length (line_text m))
        (line_request c.request m)) in
    let r' = finish_headers (skip r 2) in
    let meth : has_body r.request.method ≡ false =
      ap (λ (q : HttpRequest). has_body q.method) k.0
      ∙ ap has_body
          (add_headers-method m.headers (record (line_request c.request m) { receive_time = now }))
      ∙ nb in
    let ends : read_content_type (end_of_headers (skip r 2)) ≡ r' =
      ap read_content_type (end_of_headers-no_body (skip r 2) meth)
      ∙ read_content_type-plain r' (
          ap (λ q. search_bytes (codes "multipart/form-data") (get_header q (codes "Content-Type")))
            k.0
          ∙ np) in
    (
      r'.context,
      parse_loop-head env now (suc fuel) c m rest f v
          ∙ ap (parse_loop env now (suc fuel)) ends
          ∙ parse_loop-got_all env now fuel r' refl refl k.2,
      record {
        done = refl;
        reads = k.0;
        remains = unread-skip r.buffer [] rest r.parsed_pos (unread-after_head c now m rest f);
      },
    )
