-- ===== src/Http/Exception.antt =====
-- `HttpException` of my_nginx_event/include/http/HttpException.h beside the other exceptions, and code
-- that changes a response and may throw.
use mynginx_evnet_module.Base.{Option, none}
use mynginx_evnet_module.Base.Bytes.{Bytes}
use mynginx_evnet_module.Http.Response.{StatusCode, HttpResponse}

-- An `HttpException` with its code and message, or another `std::exception` with its `what()`.
pub data Thrown : Type 0 where
  http_exception : StatusCode → Bytes → Thrown
  std_exception : Bytes → Thrown

-- The response as it was left, and the exception if one was thrown.
pub record Acted : Type 0 where
  pub response : HttpResponse
  pub thrown : Option Thrown

abbrev pub completed : HttpResponse → Acted
completed r = record { response = r; thrown = none }
