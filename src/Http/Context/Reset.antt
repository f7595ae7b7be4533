-- ===== src/Http/Context/Reset.antt =====
-- `reset` of my_nginx_event/include/http/my_http_context.h, and what is left of a context after it
-- or after a failed `parseRequest`.
use mynginx_evnet_module.Base.{
  ℕ, zero, suc, ◌≡◌, refl, true, false, Option, none, some, [], arith, ltb, Bool-cases,
  Option-cases, inl, inr, length, ◌&&◌, not,
}
use mynginx_evnet_module.Base.Bytes.{Bytes, codes}
use mynginx_evnet_module.Http.Files.{close_file_stream}
use mynginx_evnet_module.Http.Request.{new_request, swap, get_peer_ip}
use mynginx_evnet_module.Http.Context.State.{
  Context, Run, Surroundings, Step, reset, continues, returns,
}
use mynginx_evnet_module.Http.Context.State
use mynginx_evnet_module.Http.Context.Loop.{
  Outcome, step_in, parse_loop, parse_request, finish, received, returned, threw, aborted,
  unfinished,
}
use mynginx_evnet_module.Http.Context.Fresh.{IsFresh}

-- What a reset leaves: a context that waits for a request line, with no body bytes counted, whose
-- request has no boundary, no content, no fields and no connection any more, with no upload open.
pub record IsReset (c : Context) : Type 0 where
  pub fresh : IsFresh c
  pub no_bytes : c.body_bytes_received ≡ 0
  pub no_boundary : c.request.boundary ≡ []
  pub no_content : c.request.content ≡ []
  pub no_length : c.request.content_length ≡ 0
  pub no_upload : c.request.file_writer.open_path ≡ none
  pub no_connection : c.request.connection ≡ none

close_file_stream-closed : (w : _) → (close_file_stream w).open_path ≡ none
unfolding close_file_stream
close_file_stream-closed w = elim (Option-cases w.open_path) [
  | inl e ↦ rw (e, close_file_stream) e
  | inr (p, e) ↦ rw (e, close_file_stream)
]

pub reset-IsReset : (c : Context) → IsReset (reset c)
unfolding reset swap new_request
reset-IsReset c = record {
  fresh = record { waits = refl; empty = refl; at_start = refl; no_method = refl };
  no_bytes = refl;
  no_boundary = refl;
  no_content = refl;
  no_length = refl;
  no_upload = close_file_stream-closed c.request.file_writer;
  no_connection = refl;
}

finish-failed : (r : Run) {c : Context} → finish r ≡ returned c false true → IsReset c
unfolding finish
finish-failed r {c} h = elim (Bool-cases (r.is_err && not r.ok)) [
  | inl e ↦ let q : reset r.context ≡ c = ground (arith, h, e) in rw q at (reset-IsReset r.context)
  | inr e ↦ absurd (ground (arith, h, e))
]

after_step-failed :
    (o : Option Step) (again : Run → Outcome) {c : Context}
    → ((r' : Run) → again r' ≡ returned c false true → IsReset c)
    → elim o [
      | none ↦ unfinished
      | some (continues r') ↦ again r'
      | some (returns r') ↦ returned r'.context true r'.is_err
      | some (State.throws r') ↦ threw r'.context
      | some State.aborts ↦ aborted
    ]
      ≡ returned c false true
    → IsReset c
after_step-failed none again k q = cc
after_step-failed (some (continues r')) again k q = k r' q
after_step-failed (some (returns r')) again k q = cc
after_step-failed (some (State.throws r')) again k q = cc
after_step-failed (some State.aborts) again k q = cc

parse_loop-failed :
    (env : Surroundings) (now fuel : ℕ) (r : Run) {c : Context}
    → parse_loop env now fuel r ≡ returned c false true
    → IsReset c
unfolding parse_loop
parse_loop-failed env now zero r h = cc
parse_loop-failed env now (suc fuel) r {c} h =
    elim (Bool-cases (ltb r.parsed_pos (length r.buffer))) [
      | inl b ↦
          after_step-failed (step_in env now r.state r) (parse_loop env now fuel)
            (λ r'. parse_loop-failed env now fuel r') (rw (b, parse_loop) at h)
      | inr b ↦ finish-failed r (rw (b, parse_loop) at h)
    ]

-- When `parse_request` returns false with the error flag, whatever it had read before, the context
-- is ready for a new request line: no unread bytes, no method, no body and no body bytes counted, no
-- boundary, no connection of the request, no open upload.
pub parse_request-failed :
    (env : Surroundings) (now fuel : ℕ) (c : Context) (bytes : Bytes) {c' : Context}
    → parse_request env now fuel c bytes ≡ returned c' false true
    → IsReset c'
unfolding parse_request
parse_request-failed env now fuel c bytes h = parse_loop-failed env now fuel (received c bytes) h

-- After a reset the peer address reads 0.0.0.0, since the request has no connection any more, and the
-- sequence number is still that of the old connection.
reset-get_peer_ip :
    (address : ℕ → Option Bytes) (c : Context)
    → (get_peer_ip address (reset c).request ≡ codes "0.0.0.0") × ((reset c).sequence ≡ c.sequence)
unfolding reset swap new_request get_peer_ip
reset-get_peer_ip address c = (refl, refl)
