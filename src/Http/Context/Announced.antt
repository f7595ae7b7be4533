-- ===== src/Http/Context/Announced.antt =====
-- The head of a message that announces a body: `parseRequest` of
-- my_nginx_event/src/http/my_http_context.cpp up to the body.
use mynginx_evnet_module.Base.{
  ℕ, suc, ◌≤◌, ◌<◌, ◌≡◌, refl, ◌∙◌, ap, true, false, none, [], ◌∷◌, arith, length, lt→ltb, le→ltb,
  if◌then◌else◌,
}
use mynginx_evnet_module.Base.Bytes.{Bytes, codes, is_empty, search_bytes}
use mynginx_evnet_module.Base.Decimal.{decimal, length-decimal}
use mynginx_evnet_module.Http.Request.{HttpRequest, method_of, get_header, add_header}
use mynginx_evnet_module.Http.Response.Text.{stoi_uint64-decimal}
use mynginx_evnet_module.Http.Context.State.{
  Context, Run, Surroundings, expect_body, fail, with_request,
}
use mynginx_evnet_module.Http.Context.Line.{line_done}
use mynginx_evnet_module.Http.Context.Headers.{
  skip, finish_headers, end_of_headers, read_content_type, has_body, set_length, apply_length,
  stoi_uint64, int_max,
}
use mynginx_evnet_module.Http.Context.Loop.{parse_loop, parse_request, finish, received, returned}
use mynginx_evnet_module.Http.Context.Fresh.{IsFresh}
use mynginx_evnet_module.Http.Context.Head.{pos-lt-length, after_lines-keeps}
use mynginx_evnet_module.Http.Context.Message.{
  Message, IsMessage, Pairs, line_text, message_text, line_request, add_headers,
}
use mynginx_evnet_module.Http.Context.Complete.{
  after_head, unread-after_head, parse_loop-head, message_request, add_headers-method,
  read_content_type-plain,
}
use mynginx_evnet_module.Http.Context.Chunks.{IsReceiving}

add_headers-boundary : (hs : Pairs) (q : HttpRequest) → (add_headers q hs).boundary ≡ q.boundary
unfolding add_header
add_headers-boundary [] q = refl
add_headers-boundary ((k, v) ∷ hs) q = add_headers-boundary hs (add_header q k v)

is_empty-decimal : (n : ℕ) → is_empty (decimal n) ≡ false
is_empty-decimal n = not_empty (decimal n) (length-decimal n)
  where
    not_empty : (xs : Bytes) → 0 < length xs → is_empty xs ≡ false
    not_empty [] h = absurd (omega arith)
    not_empty (x ∷ xs) h = refl

get_header-length :
    (q : HttpRequest) (n : ℕ) (field : Bytes)
    → get_header (record q { content_length = n }) field ≡ get_header q field
unfolding get_header
get_header-length q n field = refl

-- The run in the body, behind an announced length.
abbrev announced : Run → ℕ → Run
announced r n = record r {
  context = record r.context {
    state = expect_body;
    request = record r.request { content_length = n };
  };
  ok = false;
}

end_of_headers-announced :
    (r : Run) (n : ℕ)
    → has_body r.request.method ≡ true
    → get_header r.request (codes "Content-Length") ≡ decimal n
    → 0 < n
    → n ≤ int_max
    → end_of_headers r ≡ announced r n
unfolding end_of_headers set_length
end_of_headers-announced r n b h p l =
    ap
      (λ t.
        if t
        then (if is_empty (get_header r.request (codes "Content-Length"))
            then fail r
            else apply_length r (stoi_uint64 (get_header r.request (codes "Content-Length"))))
        else finish_headers r)
      b
    ∙ ap (λ t. if is_empty t then fail r else apply_length r (stoi_uint64 t)) h
    ∙ ap (λ t. if t then fail r else apply_length r (stoi_uint64 (decimal n))) (is_empty-decimal n)
    ∙ ap (apply_length r) (stoi_uint64-decimal n l)
    ∙ ap
        (λ t.
          if t
          then announced r n
          else finish_headers (with_request r (record r.request { content_length = n })))
        (lt→ltb 0 n p)

parse_loop-waits :
    (env : Surroundings) (now fuel : ℕ) (r : Run)
    → length r.buffer ≤ r.parsed_pos
    → r.ok ≡ false
    → r.is_err ≡ false
    → parse_loop env now (suc fuel) r ≡ returned r.context false false
unfolding parse_loop finish
parse_loop-waits env now fuel r l o e =
    rw (le→ltb r.parsed_pos (length r.buffer) l, parse_loop) (ground arith)

-- When a fresh context receives the head of a message of a method with a body, whose `Content-Length`
-- is a positive number that fits an `int`, and nothing behind it, `parse_request` asks for more with
-- no error, and the context then waits for that many bytes of body, none of which is counted as
-- received, for the request that the head says.
pub parse_request-announced :
    (env : Surroundings) (now fuel n : ℕ) (c : Context) (m : Message)
    → IsFresh c
    → c.body_bytes_received ≡ 0
    → c.request.boundary ≡ []
    → IsMessage m
    → has_body (method_of m.method_name) ≡ true
    → get_header (message_request c now m) (codes "Content-Length") ≡ decimal n
    → 0 < n
    → n ≤ int_max
    → search_bytes
        (codes "multipart/form-data")
        (get_header (message_request c now m) (codes "Content-Type"))
      ≡ none
    → (c' : Context) × (parse_request env now (suc (suc (suc fuel))) c (message_text m [])
        ≡ returned c' false false)
      × IsReceiving c'
      × (c'.body_bytes_received ≡ 0)
      × (c'.request ≡ record (message_request c now m) { content_length = n })
unfolding parse_request
parse_request-announced env now fuel n c m f z bd v b h p l np =
    let r = after_head c now m [] in
    let k = after_lines-keeps m.headers (
      line_done (received c (message_text m [])) now (length (line_text m))
        (line_request c.request m)) in
    let r' = announced (skip r 2) n in
    let meth : has_body r.request.method ≡ true =
      ap (λ (q : HttpRequest). has_body q.method) k.0
      ∙ ap has_body
          (add_headers-method m.headers (record (line_request c.request m) { receive_time = now }))
      ∙ b in
    let header : get_header r.request (codes "Content-Length") ≡ decimal n =
      ap (λ q. get_header q (codes "Content-Length")) k.0 ∙ h in
    let ends : read_content_type (end_of_headers (skip r 2)) ≡ r' =
      ap read_content_type (end_of_headers-announced (skip r 2) n meth header p l)
      ∙ read_content_type-plain r' (
          ap (search_bytes (codes "multipart/form-data")) (
            get_header-length r.request n (codes "Content-Type")
            ∙ ap (λ q. get_header q (codes "Content-Type")) k.0)
          ∙ np) in
    let e = pos-lt-length r.buffer [] [] r.parsed_pos (unread-after_head c now m [] f) in
    (
      r'.context,
      parse_loop-head env now (suc fuel) c m [] f v
          ∙ ap (parse_loop env now (suc fuel)) ends
          ∙ parse_loop-waits env now fuel r' (omega (arith, e)) refl k.2,
      record {
        in_body = refl;
        no_boundary =
            ap (λ (q : HttpRequest). q.boundary) k.0
            ∙ add_headers-boundary m.headers
                (record (line_request c.request m) { receive_time = now })
            ∙ bd;
        all_read = omega (arith, e);
        more_to_come = omega (arith, k.3, z, p);
        in_range = omega (arith, l);
      },
      omega (arith, k.3, z),
      ap (λ (q : HttpRequest). record q { content_length = n }) k.0,
    )
