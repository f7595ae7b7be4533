-- ===== src/Http/Context/Line.antt =====
-- The request line: `processRequestLine` and `case kExpectRequestLine` of
-- my_nginx_event/src/http/my_http_context.cpp.
use mynginx_evnet_module.Base.{
  ℕ, ◌+◌, ◌-◌, Bool, true, false, ◌&&◌, Option, none, some, ltb, ◌==◌, if◌then◌else◌, length, take,
  drop,
}
use mynginx_evnet_module.Base.Bytes.{Bytes, codes, equal, find_byte, search_bytes}
use mynginx_evnet_module.Http.Request.{HttpRequest, set_method, set_query_parameters}
use mynginx_evnet_module.Http.Context.State.{
  Run, Step, continues, aborts, expect_headers, crlf, max_line, unread, fail,
}

-- The target, up to its `?` the path and behind it the query.
unfoldable pub set_target : HttpRequest → Bytes → HttpRequest
set_target r target = elim (find_byte b'?' target) [
  | none ↦ record r { path = target }
  | some i ↦ set_query_parameters (record r { path = take i target }) (drop (i + 1) target)
]

-- `HTTP/1.1` or `HTTP/1.0`, and nothing else.
unfoldable pub set_version : HttpRequest → Bytes → Bool × HttpRequest
set_version r text =
    if length text == 8 && equal (take 7 text) (codes "HTTP/1.")
    then if equal (drop 7 text) (codes "1")
      then (true, record r { version = codes "HTTP/1.1" })
      else if equal (drop 7 text) (codes "0")
      then (true, record r { version = codes "HTTP/1.0" })
      else (false, r)
    else (false, r)

-- Behind the method and its space.
unfoldable pub process_target : HttpRequest → Bytes → Bool × HttpRequest
unfolding set_target set_version
process_target r rest = elim (find_byte b' ' rest) [
  | none ↦ (false, r)
  | some i ↦ set_version (set_target r (take i rest)) (drop (i + 1) rest)
]

-- `none` where the assertion of `setMethod` fails.
unfoldable pub process_request_line : HttpRequest → Bytes → Option (Bool × HttpRequest)
unfolding process_target
process_request_line r line = elim (find_byte b' ' line) [
  | none ↦ some (false, r)
  | some i ↦ elim (set_method r (take i line)) [
    | none ↦ none
    | some (false, r') ↦ some (false, r')
    | some (true, r') ↦ some (process_target r' (drop (i + 1) line))
  ]
]

-- After a line of `off` bytes that was read with success.
abbrev pub line_done : Run → ℕ → ℕ → HttpRequest → Run
line_done r now off q = record r {
  context = record r.context {
    state = expect_headers;
    request = record q { receive_time = now };
    parsed_pos = r.parsed_pos + off + 2;
  };
  ok = false;
}

abbrev pub line_failed : Run → HttpRequest → Run
line_failed r q = record r { context = record r.context { request = q }; ok = false }

abbrev pub read_outcome : Run → ℕ → ℕ → Option (Bool × HttpRequest) → Step
read_outcome r now off none = aborts
read_outcome r now off (some (true, q)) = continues (line_done r now off q)
read_outcome r now off (some (false, q)) = continues (line_failed r q)

unfoldable pub read_line : Run → ℕ → ℕ → Step
read_line r now off =
    read_outcome r now off (process_request_line r.request (take off (unread r.context)))

unfoldable pub request_line_step : ℕ → Run → Step
request_line_step now r = elim (search_bytes crlf (unread r.context)) [
  | some off ↦ if ltb max_line off then continues (fail r) else read_line r now off
  | none ↦ if ltb max_line (length r.buffer - r.parsed_pos) then continues (fail r) else continues r
]
