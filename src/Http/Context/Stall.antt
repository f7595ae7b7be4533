-- ===== src/Http/Context/Stall.antt =====
-- Inputs on which the outer loop of `parseRequest` in my_nginx_event/src/http/my_http_context.cpp
-- makes no progress.
use mynginx_evnet_module.Base.{
  ℕ, zero, suc, ◌<◌, ◌≡◌, refl, inl, inr, ◌-◌, ◌∙◌, ap, sym, drop, take, false, none, some, arith,
  Bool-cases, lt→ltb, ltb, length,
}
use mathlib.Core.Path.{ap₂}
use native.Mathlib.Numerals.{add-one}
use mynginx_evnet_module.Base.Bytes.{Bytes, search_bytes}
use mynginx_evnet_module.Http.Context.State.{
  Context, Run, Surroundings, continues, expect_request_line, expect_headers, crlf, max_line,
  unread, fail,
}
use mynginx_evnet_module.Http.Context.Line.{
  request_line_step, process_request_line, read_line, read_outcome, line_failed,
}
use mynginx_evnet_module.Http.Context.Headers.{header_loop, header_step, read_content_type}
use mynginx_evnet_module.Http.Context.Loop.{
  step_in, parse_loop, parse_request, unfinished, loop_fuel, after_headers, received,
}

module _ (env : Surroundings) (now : ℕ) (P : Run → Type 0) where
  -- A property that every round keeps, while there are bytes left, keeps the loop running.
  pub parse_loop-unfinished :
      ((r : Run)
        → P r
        → (r.parsed_pos < length r.buffer)
          × ((r' : Run) × (step_in env now r.state r ≡ some (continues r')) × P r'))
      → (fuel : ℕ) (r : Run) → P r
      → parse_loop env now fuel r ≡ unfinished
  unfolding parse_loop
  parse_loop-unfinished keep zero r h = refl
  parse_loop-unfinished keep (suc fuel) r h =
      let (more, (r', e, h')) = keep r h in
      rw (lt→ltb r.parsed_pos (length r.buffer) more, parse_loop, e, parse_loop)
        (parse_loop-unfinished keep fuel r' h')

-- The request line is not there to its end, is longer than the limit, or is refused with the request
-- as it was; or a header line is not there to its end.
pub data Waits (r : Run) : Type 0 where
  no_line : r.state ≡ expect_request_line → search_bytes crlf (unread r.context) ≡ none → Waits r
  long_line :
      (off : ℕ)
      → r.state ≡ expect_request_line
      → search_bytes crlf (unread r.context) ≡ some off
      → max_line < off
      → Waits r
  bad_line :
      (off : ℕ)
      → r.state ≡ expect_request_line
      → search_bytes crlf (unread r.context) ≡ some off
      → process_request_line r.request (take off (unread r.context)) ≡ some (false, r.request)
      → Waits r
  no_header : r.state ≡ expect_headers → search_bytes crlf (unread r.context) ≡ none → Waits r

abbrev pub Stalls : Run → Type 0
Stalls r = (r.parsed_pos < length r.buffer) × Waits r

line-continues :
    (now : ℕ) (r : Run)
    → search_bytes crlf (unread r.context) ≡ none
    → (r' : Run) × (request_line_step now r ≡ continues r') × (r'.context ≡ r.context)
unfolding request_line_step
line-continues now r e = elim (Bool-cases (ltb max_line (length r.buffer - r.parsed_pos))) [
  | inl b ↦ (fail r, rw (e, request_line_step, b), refl)
  | inr b ↦ (r, rw (e, request_line_step, b), refl)
]

long-continues :
    (now : ℕ) (r : Run) (off : ℕ)
    → search_bytes crlf (unread r.context) ≡ some off
    → max_line < off
    → request_line_step now r ≡ continues (fail r)
unfolding request_line_step
long-continues now r off e h = rw (e, request_line_step, lt→ltb max_line off h)

refused-continues :
    (now : ℕ) (r : Run) (off : ℕ)
    → search_bytes crlf (unread r.context) ≡ some off
    → process_request_line r.request (take off (unread r.context)) ≡ some (false, r.request)
    → (r' : Run) × (request_line_step now r ≡ continues r') × (r'.context ≡ r.context)
unfolding request_line_step read_line
refused-continues now r off e h = elim (Bool-cases (ltb max_line off)) [
  | inl b ↦ (fail r, rw (e, request_line_step, b), refl)
  | inr b ↦
      (line_failed r r.request, rw (e, request_line_step, b) (ap (read_outcome r now off) h), refl)
]

header-continues :
    (r : Run)
    → r.parsed_pos < length r.buffer
    → search_bytes crlf (unread r.context) ≡ none
    → header_loop (loop_fuel r) r ≡ some r
unfolding header_loop
header-continues r l e = rw (
  add-one (length r.buffer),
  lt→ltb r.parsed_pos (length r.buffer) l,
  header_loop,
  e,
  header_step,
)

-- `read_content_type` changes the boundary and the flags only.
content_type-keeps :
    (r : Run)
    → let c = (read_content_type r).context in
      (c.state ≡ r.state) × (c.buffer ≡ r.buffer) × (c.parsed_pos ≡ r.parsed_pos)
unfolding read_content_type
content_type-keeps r = ground arith

Waits-cong : (r r' : Run) → r'.context ≡ r.context → Stalls r → Stalls r'
Waits-cong r r' e (l, no_line s n) =
    (ground arith, no_line (ap (λ c. c.state) e ∙ s) (ap (λ c. search_bytes crlf (unread c)) e ∙ n))
Waits-cong r r' e (l, long_line off s n h) = (
  ground arith,
  long_line off (ap (λ c. c.state) e ∙ s) (ap (λ c. search_bytes crlf (unread c)) e ∙ n) h,
)
Waits-cong r r' e (l, bad_line off s n h) = (
  ground arith,
  bad_line off (ap (λ c. c.state) e ∙ s) (ap (λ c. search_bytes crlf (unread c)) e ∙ n) (
      ap (λ (c : Context). process_request_line c.request (take off (unread c))) e
      ∙ h
      ∙ ap (λ (c : Context). some (false, c.request)) (sym e)),
)
Waits-cong r r' e (l, no_header s n) = (
  ground arith,
  no_header (ap (λ c. c.state) e ∙ s) (ap (λ c. search_bytes crlf (unread c)) e ∙ n),
)

Stalls-step :
    (env : Surroundings) (now : ℕ) (r : Run)
    → Stalls r
    → (r.parsed_pos < length r.buffer)
      × ((r' : Run) × (step_in env now r.state r ≡ some (continues r')) × Stalls r')
unfolding step_in
Stalls-step env now r (l, no_line s e) =
    let (r', q, same) = line-continues now r e in
    (l, (r', ap (λ st. step_in env now st r) s ∙ ap some q, Waits-cong r r' same (l, no_line s e)))
Stalls-step env now r (l, long_line off s e h) = (
  l,
  (
    fail r,
    ap (λ st. step_in env now st r) s ∙ ap some (long-continues now r off e h),
    (l, long_line off s e h),
  ),
)
Stalls-step env now r (l, bad_line off s e h) =
    let (r', q, same) = refused-continues now r off e h in
    (
      l,
      (
        r',
        ap (λ st. step_in env now st r) s ∙ ap some q,
        Waits-cong r r' same (l, bad_line off s e h),
      ),
    )
Stalls-step env now r (l, no_header s e) =
    let k = content_type-keeps r in
    let same : (read_content_type r).buffer ≡ r.buffer = k.1 in
    (
      l,
      (
        read_content_type r,
        ap (λ st. step_in env now st r) s ∙ ap after_headers (header-continues r l e),
        (
          omega (arith, ap length k.1, k.2),
          no_header (k.0 ∙ s) (ap₂ (λ p b. search_bytes crlf (drop p b)) k.2 k.1 ∙ e),
        ),
      ),
    )

-- When a context that waits for a request line has bytes left in which the line is not there to its
-- end, or is longer than 1024 bytes, or is refused by `process_request_line` with the request as it
-- was, or when a context that waits for header lines has bytes left in which none is there to its end,
-- `parse_request` never returns: it is unfinished on every amount of fuel, and so neither waits for
-- more bytes nor answers with an error.
pub parse_request-unfinished :
    (env : Surroundings) (now fuel : ℕ) (c : Context) (bytes : Bytes)
    → Stalls (received c bytes)
    → parse_request env now fuel c bytes ≡ unfinished
unfolding parse_request
parse_request-unfinished env now fuel c bytes h =
    parse_loop-unfinished env now Stalls (Stalls-step env now) fuel (received c bytes) h
