-- ===== src/Logic/Handle.antt =====
-- `handleRequest` of my_nginx_event/src/logic/my_slogic.cpp: the middlewares around the router.
pub mod Errors
use mynginx_evnet_module.Base.{Bool, true, false, Option, none, some, List, ◌++◌}
use mynginx_evnet_module.Base.Bytes.{Bytes, codes}
use mynginx_evnet_module.Http.Request.{HttpRequest}
use mynginx_evnet_module.Http.Response.{HttpResponse, not_found, internal_server_error}
use mynginx_evnet_module.Http.Exception.{Thrown, http_exception, std_exception, Acted}
use mynginx_evnet_module.Middleware.{
  Before, passed, threw, crashed, Middleware, process_before, process_after,
}
use mynginx_evnet_module.Route.{Regexes, Router, route}

-- The `catch` clauses.
unfoldable pub error_response : Thrown → HttpResponse → HttpResponse
error_response (http_exception code message) r = record r {
  status_code = code;
  status_message = message;
  body = codes "Error: " ++ message;
}
error_response (std_exception what) r = record r {
  status_code = internal_server_error;
  body = what;
}

unfoldable pub not_found_response : HttpRequest → HttpResponse → HttpResponse
not_found_response q r = record r {
  status_code = not_found;
  status_message = codes "Not Found";
  close_connection = true;
  http_version = q.version;
}

module _ {W : Type 0} (lib : Regexes) (router : Router lib.Regex)
    (chain : List (Option (Middleware W))) where
  -- Behind the router: the exception of a handler, or the middlewares on the response.
  abbrev pub after_route : HttpRequest → W → Bool → Option Thrown → HttpResponse → HttpResponse × W
  after_route q w found (some e) r = (error_response e r, w)
  after_route q w true none r = process_after chain r w
  after_route q w false none r = process_after chain (not_found_response q r) w

  -- Behind the middlewares on the request.
  abbrev pub after_before : HttpResponse → Before × W → Option (HttpResponse × W)
  after_before r (passed q, w) = some (
      after_route q w (route lib router q r).0 (route lib router q r).1.thrown
        (route lib router q r).1.response)
  after_before r (threw e, w) = some (error_response e r, w)
  after_before r (crashed, w) = none

  -- The response and the middlewares' state; `none` when a null middleware is called.
  unfoldable pub handle_request : HttpRequest → HttpResponse → W → Option (HttpResponse × W)
  unfolding process_before process_after route error_response not_found_response
  handle_request q r w = after_before r (process_before chain q w)
