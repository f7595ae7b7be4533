-- ===== src/Http/Context/Loop.antt =====
-- The outer loop of `parseRequest` in my_nginx_event/src/http/my_http_context.cpp. It has no bound
-- in the source: it runs on fuel here, and `unfinished` says that the fuel ran out. The inner loops
-- get as much fuel as the buffer has bytes, and one more.
use mynginx_evnet_module.Base.{
  ℕ, zero, suc, ◌+◌, Bool, true, false, ◌&&◌, not, Option, none, some, ◌++◌, ltb, if◌then◌else◌,
  length,
}
use mynginx_evnet_module.Base.Bytes.{Bytes, is_empty}
use mynginx_evnet_module.Http.Context.State.{
  Context, Run, Surroundings, ParseState, Step, continues, returns, throws, aborts,
  expect_request_line, expect_headers, expect_body, got_all, reset,
}
use mynginx_evnet_module.Http.Context.Line.{request_line_step}
use mynginx_evnet_module.Http.Context.Headers.{header_loop, read_content_type}
use mynginx_evnet_module.Http.Context.Body.{plain_body_step}
use mynginx_evnet_module.Http.Context.Multipart.{PartStep, part_loop}
use mynginx_evnet_module.Http.Context.Multipart

-- The result of `parseRequest`: its return value with the context and `isErr`, an exception, a failed
-- assertion, or no result within the fuel.
pub data Outcome : Type 0 where
  returned : Context → Bool → Bool → Outcome
  threw : Context → Outcome
  aborted : Outcome
  unfinished : Outcome

abbrev pub loop_fuel : Run → ℕ
loop_fuel r = length r.buffer + 1

abbrev pub after_headers : Option Run → Option Step
after_headers none = none
after_headers (some r) = some (continues (read_content_type r))

abbrev pub after_parts : Option PartStep → Option Step
after_parts none = none
after_parts (some (Multipart.more r)) = some (continues r)
after_parts (some (Multipart.leave r)) = some (continues r)
after_parts (some (Multipart.throw r)) = some (throws r)

unfoldable pub body_step : Surroundings → Run → Option Step
body_step env r =
    if is_empty r.request.boundary
    then some (continues (plain_body_step r))
    else after_parts (part_loop env (loop_fuel r) r)

-- The `switch`.
unfoldable pub step_in : Surroundings → ℕ → ParseState → Run → Option Step
unfolding body_step
step_in env now expect_request_line r = some (request_line_step now r)
step_in env now expect_headers r = after_headers (header_loop (loop_fuel r) r)
step_in env now expect_body r = body_step env r
step_in env now got_all r = some (returns r)

-- Behind the loop: a failed parse resets the context.
unfoldable pub finish : Run → Outcome
finish r =
    if r.is_err && not r.ok
    then returned (reset r.context) r.ok r.is_err
    else returned r.context r.ok r.is_err

unfoldable pub parse_loop : Surroundings → ℕ → ℕ → Run → Outcome
unfolding finish
parse_loop env now zero r = unfinished
parse_loop env now (suc fuel) r =
    if ltb r.parsed_pos (length r.buffer)
    then elim (step_in env now r.state r) [
      | none ↦ unfinished
      | some (continues r') ↦ parse_loop env now fuel r'
      | some (returns r') ↦ returned r'.context true r'.is_err
      | some (throws r') ↦ threw r'.context
      | some aborts ↦ aborted
    ]
    else finish r

-- The received bytes go to the end of the buffer, and both flags are cleared.
abbrev pub received : Context → Bytes → Run
received c bytes = record {
  context = record c { buffer = c.buffer ++ bytes };
  ok = false;
  is_err = false;
}

unfoldable pub parse_request : Surroundings → ℕ → ℕ → Context → Bytes → Outcome
parse_request env now fuel c bytes = parse_loop env now fuel (received c bytes)
