-- ===== src/Http/Context/Head.antt =====
-- The request line and the header lines: the first two cases of `parseRequest` of
-- my_nginx_event/src/http/my_http_context.cpp, on the text of a message.

use mynginx_evnet_module.Base.{
  ℕ, zero, suc, ◌+◌, ◌<◌, ◌≡◌, refl, ◌∙◌, ap, true, false, some, [], ◌∷◌, ◌++◌, arith, length,
  length-append, take, drop, drop-drop, drop-append, length-drop, take_before, lt→ltb, ◌==◌, le→ltb,
}
use mynginx_evnet_module.Base.Bytes.{Bytes, search_bytes, search_bytes-append}
use mynginx_evnet_module.Http.Request.{is_valid, add_header}
use mynginx_evnet_module.Http.Context.State.{Run, continues, crlf, unread, max_line}
use mynginx_evnet_module.Http.Context.Line.{
  process_request_line, request_line_step, read_line, line_done,
}
use mynginx_evnet_module.Http.Context.Headers.{
  header_step, header_loop, skip, end_of_headers, read_header, read_content_type, has_body,
  finish_headers,
}
use mynginx_evnet_module.Http.Context.Headers
use mynginx_evnet_module.Http.Context.Message.{
  Message, IsMessage, Pairs, IsHeader, AreHeaders, line_text, header_text, headers_text,
  line_request, add_headers, process_request_line-line_text, read_header-header_text,
}

-- Behind a line of `off` bytes and its line break.
pub unread-skip :
    (buffer line rest : Bytes) (p : ℕ)
    → drop p buffer ≡ line ++ (crlf ++ rest)
    → drop (p + (length line + 2)) buffer ≡ rest
unread-skip buffer line rest p e =
    drop-drop p (length line + 2) buffer
    ∙ ap (drop (length line + 2)) e
    ∙ drop-drop (length line) 2 (line ++ (crlf ++ rest))
    ∙ ap (drop 2) (drop-append (length line) line (crlf ++ rest) refl)

-- Bytes that are unread lie within the buffer.
pub pos-lt-length :
    (buffer line rest : Bytes) (p : ℕ)
    → drop p buffer ≡ line ++ (crlf ++ rest)
    → p + length line + 2 + length rest ≡ length buffer
pos-lt-length buffer line rest p e =
    omega (arith, length-drop p buffer, ap length e, length-append line (crlf ++ rest))

abbrev Has : Run → Bytes → Bytes → Type 0
Has r line rest = unread r.context ≡ line ++ (crlf ++ rest)

pub read_line-line_text :
    (now : ℕ) (r : Run) (m : Message) (rest : Bytes)
    → Has r (line_text m) rest
    → IsMessage m
    → is_valid r.request.method ≡ false
    → read_line r now (length (line_text m))
      ≡ continues (line_done r now (length (line_text m)) (line_request r.request m))
unfolding read_line
read_line-line_text now r m rest e v h =
    let q : process_request_line r.request (take (length (line_text m)) (unread r.context))
        ≡ some (true, line_request r.request m) =
      ap (λ t. process_request_line r.request (take (length (line_text m)) t)) e
      ∙ ap (process_request_line r.request) (take_before (line_text m) (crlf ++ rest))
      ∙ process_request_line-line_text r.request m v h in
    rw (q, read_line)

pub request_line_step-line_text :
    (now : ℕ) (r : Run) (m : Message) (rest : Bytes)
    → Has r (line_text m) rest
    → IsMessage m
    → is_valid r.request.method ≡ false
    → request_line_step now r
      ≡ continues (line_done r now (length (line_text m)) (line_request r.request m))
unfolding request_line_step
request_line_step-line_text now r m rest e v h =
    let f : search_bytes crlf (unread r.context) ≡ some (length (line_text m)) =
      ap (search_bytes crlf) e
      ∙ search_bytes-append b'\r' (b'\n' ∷ []) (line_text m) rest v.line_lacks_break in
    rw (f, request_line_step, le→ltb max_line (length (line_text m)) v.line_short)
      (read_line-line_text now r m rest e v h)

-- The run behind the header lines.
abbrev pub after_lines : Run → Pairs → Run
after_lines r [] = r
after_lines r ((k, v) ∷ hs) =
    after_lines
      (skip (record r { context = record r.context { request = add_header r.request k v } })
        (length (header_text (k, v)) + 2))
      hs

header_step-header_text :
    (r : Run) (h : Bytes × Bytes) (rest : Bytes)
    → Has r (header_text h) rest
    → IsHeader h
    → header_step r
      ≡ Headers.more (
          skip
            (record r { context = record r.context { request = add_header r.request h.0 h.1 } })
            (length (header_text h) + 2))
unfolding header_step
header_step-header_text r h rest e i =
    let f : search_bytes crlf (unread r.context) ≡ some (length (header_text h)) =
      ap (search_bytes crlf) e
      ∙ search_bytes-append b'\r' (b'\n' ∷ []) (header_text h) rest i.lacks_break in
    let t : take (length (header_text h)) (unread r.context) ≡ header_text h =
      ap (take (length (header_text h))) e ∙ take_before (header_text h) (crlf ++ rest) in
    let n : (length (header_text h) == 0) ≡ false =
      ground (arith, length-append h.0 (b':' ∷ b' ' ∷ h.1)) in
    rw (f, header_step, n)
      (ap (λ q. Headers.more (skip (read_header r q) (length (header_text h) + 2))) t
        ∙ ap (λ q. Headers.more (skip q (length (header_text h) + 2)))
            (read_header-header_text r h i))

header_step-empty :
    (r : Run) (rest : Bytes)
    → unread r.context ≡ crlf ++ rest
    → header_step r ≡ Headers.leave (end_of_headers (skip r 2))
unfolding header_step
header_step-empty r rest e =
    let f : search_bytes crlf (unread r.context) ≡ some 0 =
      ap (search_bytes crlf) e ∙ search_bytes-append b'\r' (b'\n' ∷ []) [] rest tt in
    rw (f, header_step)

pub header_loop-headers_text :
    (fuel : ℕ) (r : Run) (hs : Pairs) (rest : Bytes)
    → unread r.context ≡ headers_text hs rest
    → AreHeaders hs
    → length hs < fuel
    → header_loop fuel r ≡ some (end_of_headers (skip (after_lines r hs) 2))
unfolding header_loop
header_loop-headers_text zero r hs rest e v l = absurd (omega arith)
header_loop-headers_text (suc fuel) r [] rest e v l = rw (
  lt→ltb r.parsed_pos (length r.buffer)
      (omega (arith, pos-lt-length r.buffer [] rest r.parsed_pos e)),
  header_loop,
  header_step-empty r rest e,
  header_loop,
)
header_loop-headers_text (suc fuel) r (h ∷ hs) rest e v l =
    let r' =
      skip (record r { context = record r.context { request = add_header r.request h.0 h.1 } })
        (length (header_text h) + 2) in
    rw
      (
        lt→ltb r.parsed_pos (length r.buffer) (
            omega (
              arith,
              pos-lt-length r.buffer (header_text h) (headers_text hs rest) r.parsed_pos e,
            )),
        header_loop,
        header_step-header_text r h (headers_text hs rest) e v.0,
        header_loop,
      )
      (header_loop-headers_text fuel r' hs rest
        (unread-skip r.buffer (header_text h) (headers_text hs rest) r.parsed_pos e) v.1
        (omega arith))

pub length-headers_text : (hs : Pairs) (rest : Bytes) → length hs < length (headers_text hs rest)
length-headers_text [] rest = omega arith
length-headers_text (h ∷ hs) rest = omega (
  arith,
  length-append (header_text h) (crlf ++ headers_text hs rest),
  length-headers_text hs rest,
)

-- What the header lines leave alone, and what they say.
pub after_lines-keeps :
    (hs : Pairs) (r : Run)
    → ((after_lines r hs).request ≡ add_headers r.request hs)
      × ((after_lines r hs).buffer ≡ r.buffer)
      × ((after_lines r hs).is_err ≡ r.is_err)
      × ((after_lines r hs).body_bytes_received ≡ r.body_bytes_received)
after_lines-keeps [] r = (refl, refl, refl, refl)
after_lines-keeps ((k, v) ∷ hs) r = after_lines-keeps hs (
    skip (record r { context = record r.context { request = add_header r.request k v } })
      (length (header_text (k, v)) + 2))

pub unread-after_lines :
    (hs : Pairs) (r : Run) (rest : Bytes)
    → unread r.context ≡ headers_text hs rest
    → unread (after_lines r hs).context ≡ crlf ++ rest
unread-after_lines [] r rest e = e
unread-after_lines ((k, v) ∷ hs) r rest e =
    unread-after_lines hs
      (skip (record r { context = record r.context { request = add_header r.request k v } })
        (length (header_text (k, v)) + 2))
      rest (unread-skip r.buffer (header_text (k, v)) (headers_text hs rest) r.parsed_pos e)
