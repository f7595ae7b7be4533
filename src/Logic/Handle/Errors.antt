-- ===== src/Logic/Handle/Errors.antt =====
-- How `handleRequest` of my_nginx_event/src/logic/my_slogic.cpp answers what nobody handles, and what
-- throws.
use mynginx_evnet_module.Base.{◌≡◌, ap, ◌∙◌, Bool, true, false, Option, some, List, [], ◌∷◌, ◌++◌}
use mynginx_evnet_module.Base.Bytes.{Bytes, codes}
use mynginx_evnet_module.Http.Request.{HttpRequest}
use mynginx_evnet_module.Http.Response.{HttpResponse, StatusCode, not_found}
use mynginx_evnet_module.Http.Exception.{http_exception, Acted, completed}
use mynginx_evnet_module.Middleware.{passed, threw, Middleware, process_before, process_after}
use mynginx_evnet_module.Middleware.Order.{process_before-threw}
use mynginx_evnet_module.Route.{Regexes, Router, route}
use mynginx_evnet_module.Route.Match.{candidates, first_of, route-first_of}
use mynginx_evnet_module.Logic.Handle.{
  error_response, not_found_response, after_route, after_before, handle_request,
}

module _ {W : Type 0} (lib : Regexes) (router : Router lib.Regex) where
  -- A middleware that throws an `HttpException` behind others that let the request pass decides the
  -- answer: its code, its message, and the message in the body, whatever the routes are; no route, no
  -- later middleware and no middleware on the response has any effect.
  pub handle_request-rejected :
      (ms ns : List (Option (Middleware W))) (m : Middleware W) (q q' : HttpRequest)
      (r : HttpResponse) (code : StatusCode) (message : Bytes) (w w' w'' : W)
      → process_before ms q w ≡ (passed q', w')
      → m.before q' w' ≡ (threw (http_exception code message), w'')
      → handle_request lib router (ms ++ some m ∷ ns) q r w
        ≡ some (
          record r {
            status_code = code;
            status_message = message;
            body = codes "Error: " ++ message;
          },
          w'',
        )
  unfolding handle_request error_response
  handle_request-rejected ms ns m q q' r code message w w' w'' h k =
      ap (after_before lib router (ms ++ some m ∷ ns) r)
        (process_before-threw ms ns m q q' (http_exception code message) w w' w'' h k)

  -- A request that the middlewares let pass and that no route takes gets the response 404 with the
  -- version of the request and `closeConnection` set, which then goes through the middlewares.
  pub handle_request-not_found :
      (chain : List (Option (Middleware W))) (q q' : HttpRequest) (r : HttpResponse) (w w' : W)
      → process_before chain q w ≡ (passed q', w')
      → candidates lib router q' ≡ []
      → handle_request lib router chain q r w
        ≡ some (
            process_after chain
              (record r {
                status_code = not_found;
                status_message = codes "Not Found";
                close_connection = true;
                http_version = q'.version;
              })
              w')
  unfolding handle_request not_found_response
  handle_request-not_found chain q q' r w w' h c =
      let e : route lib router q' r ≡ (false, completed r) =
        route-first_of lib router q' r ∙ ap (λ l. first_of lib l r) c in
      ap (after_before lib router chain r) h
      ∙ ap
          (λ (a : Bool × Acted).
            some (after_route lib router chain q' w' a.0 a.1.thrown a.1.response))
          e
