-- ===== src/Http/Context/Fresh.antt =====
-- A `HttpContext` that waits for a new request.
use mynginx_evnet_module.Base.{◌≡◌, [], false}
use mynginx_evnet_module.Http.Request.{is_valid}
use mynginx_evnet_module.Http.Context.State.{Context, expect_request_line}

-- A context that waits for a new request: as built, or after a reset.
pub record IsFresh (c : Context) : Type 0 where
  pub waits : c.state ≡ expect_request_line
  pub empty : c.buffer ≡ []
  pub at_start : c.parsed_pos ≡ 0
  pub no_method : is_valid c.request.method ≡ false
