-- ===== src/Tests/Server.antt =====
-- Examples for the router, the middlewares, the sessions, the configuration and the workers.
use mynginx_evnet_module.Base.{
  ◌⊎◌, ◌+◌, ◌-◌, ◌/◌, ltb, leb, ℕ, ◌≤◌, ◌≡◌, refl, true, none, some, List, [], ◌∷◌, ◌++◌, map,
  if◌then◌else◌, inr, arith, ◌*◌,
}
use mynginx_evnet_module.Base.Bytes.{Bytes, codes, equal, find_byte, Lacks-of_find_byte}
use mynginx_evnet_module.Base.Dict.{lookup}
use mynginx_evnet_module.Http.Request.{HttpRequest, new_request, get, get_header}
use mynginx_evnet_module.Http.Response.{unauthorized, new_response, not_found, too_many_requests}
use mynginx_evnet_module.Http.Exception.{std_exception, http_exception, completed}
use mynginx_evnet_module.Route.{
  Regexes, Action, Router, same_key, route, register_handler, find_route,
}
use mynginx_evnet_module.Route.Match.{
  candidates, matches, first_of, route-first_of, route-register_handler,
}
use mynginx_evnet_module.Middleware.{passed, threw, Middleware, process_before, process_after}
use mynginx_evnet_module.Middleware.Order.{tracer, process-tracers}
use mynginx_evnet_module.Middleware.Bucket.{Doubles, new_bucket}
use mynginx_evnet_module.Middleware.Bucket.Bound.{IsIeee, granted, granted-capacity}
use mynginx_evnet_module.Middleware.Auth.{HasToken, auth_middleware, auth_middleware-rejects}
use mynginx_evnet_module.Session.{Session, Sessions, get_session, session_id_in}
use mynginx_evnet_module.Session.Cookie.{session_id_in-cookie}
use mynginx_evnet_module.Session.Continuity.{IsStored, kept, get_session-IsStored}
use mynginx_evnet_module.Http.Filename.{is_space}
use mynginx_evnet_module.Config.{load_conf, trim, trim_front, trim_back}
use mynginx_evnet_module.Config.RoundTrip.{load_conf-file_text}
use mynginx_evnet_module.Logic.Handle.{handle_request}
use mynginx_evnet_module.Logic.Handle.Errors.{handle_request-rejected, handle_request-not_found}

-- Regexes that match one text only, with no groups.
abbrev pub exact_regexes : Regexes
exact_regexes = record {
  Regex = Bytes;
  replace = λ subject pattern format. subject;
  compile = λ pattern. pattern;
  full_match = λ regex text. if equal regex text then some [] else none;
}

abbrev pub no_routes : Router Bytes
no_routes = record { handlers = []; callbacks = []; regex_handlers = []; regex_callbacks = [] }

abbrev answer : Action
answer q r = completed (record r { body = q.path })

route-first_of_example :
    route exact_regexes no_routes new_request (new_response true)
    ≡ first_of exact_regexes (candidates exact_regexes no_routes new_request) (new_response true)
route-first_of_example = route-first_of exact_regexes no_routes new_request (new_response true)

route-register_handler_example :
    route exact_regexes
      (register_handler no_routes get (codes "/a") answer)
      (record new_request { method = get; path = codes "/a" })
      (new_response true)
    ≡ (true, completed (record (new_response true) { body = codes "/a" }))
unfolding same_key equal
route-register_handler_example =
    route-register_handler exact_regexes no_routes get (codes "/a") answer
      (record new_request { method = get; path = codes "/a" }) (new_response true)

abbrev refuser : Middleware (List ℕ)
refuser = record {
  before = λ q w. (threw (http_exception too_many_requests (codes "No")), w);
  after = λ r w. (completed r, w);
}

handle_request-rejected_example :
    handle_request exact_regexes no_routes
      (tracer 1 ∷ some refuser ∷ tracer 2 ∷ [])
      new_request
      (new_response true)
      []
    ≡ some (
      record (new_response true) {
        status_code = too_many_requests;
        status_message = codes "No";
        body = codes "Error: No";
      },
      1 ∷ [],
    )
unfolding process_before
handle_request-rejected_example =
    handle_request-rejected exact_regexes no_routes (tracer 1 ∷ []) (tracer 2 ∷ []) refuser
      new_request new_request (new_response true) too_many_requests (codes "No") [] (1 ∷ [])
      (1 ∷ []) refl refl

handle_request-not_found_example :
    handle_request exact_regexes no_routes (tracer 1 ∷ []) new_request (new_response true) []
    ≡ some (
        process_after
          (tracer 1 ∷ [])
          (record (new_response true) {
            status_code = not_found;
            status_message = codes "Not Found";
            close_connection = true;
            http_version = new_request.version;
          })
          (1 ∷ []))
unfolding process_before candidates matches find_route
handle_request-not_found_example =
    handle_request-not_found exact_regexes no_routes (tracer 1 ∷ []) new_request new_request
      (new_response true) [] (1 ∷ []) refl refl

process-tracers_example :
    (process_before (map tracer (1 ∷ 2 ∷ [])) new_request []
      ≡ (passed new_request, [] ++ 1 ∷ 2 ∷ []))
    × (process_after (map tracer (1 ∷ 2 ∷ [])) (new_response true) []
        ≡ (new_response true, [] ++ 2 ∷ 1 ∷ []))
process-tracers_example = process-tracers (1 ∷ 2 ∷ []) new_request (new_response true) []

-- Numbers in place of `double`s, which keep to the same rules.
abbrev whole : Doubles ℕ
whole = record {
  of_uint = λ n. n;
  seconds = λ t. t / 1000000000;
  plus = λ a b. a + b;
  minus = λ a b. a - b;
  times = λ a b. a * b;
  less = λ a b. ltb a b;
  at_least = λ a b. leb b a;
}

whole-IsIeee : IsIeee whole
whole-IsIeee = record {
  order_trans = λ a b c p q. ground arith;
  less-at_least = λ a b p. ground arith;
  not_less-at_least = λ a b p q r. ground arith;
  of_uint_refl = λ n. ground arith;
  at_least-of_uint = λ n k p q r. ground arith;
  minus_mono = λ a b n p. ground arith;
  minus-of_uint = λ n k p q. refl;
}

granted-capacity_example :
    granted whole whole-IsIeee 5 (new_bucket whole 2 1 0) (1 ∷ 1 ∷ 1 ∷ []) ≤ 2
unfolding new_bucket
granted-capacity_example =
    granted-capacity whole whole-IsIeee 5 (new_bucket whole 2 1 0) (1 ∷ 1 ∷ 1 ∷ []) (omega arith)
      (omega arith, (omega arith, (omega arith, tt))) (λ t h. (ground arith, ground arith)) refl

abbrev signed : HttpRequest
unfolding new_request
signed = record new_request { headers = (codes "Authorization", codes "Bearer t") ∷ [] }

auth_middleware-rejects_example :
    (HasToken signed
      × ((auth_middleware {W = ℕ} (codes "t")).before signed 0
          ≡ (threw (std_exception (codes "bad_function_call")), 0)))
    ⊎ (¬ HasToken signed
        × ((auth_middleware {W = ℕ} (codes "t")).before signed 0 ≡ (
          threw (http_exception unauthorized (codes "Unauthorized: Invalid header format")),
          0,
        )))
auth_middleware-rejects_example = auth_middleware-rejects (codes "t") signed 0

abbrev one_session : Sessions
one_session = record {
  objects =
      record {
        session_id = codes "ab";
        fields = [];
        expiry_time = 50;
        max_age = 3600;
        has_manager = true;
      }
      ∷ [];
  stored = (codes "ab", 0) ∷ [];
}

abbrev the_session : Session
the_session = record {
  session_id = codes "ab";
  fields = [];
  expiry_time = 50;
  max_age = 3600;
  has_manager = true;
}

abbrev returning : HttpRequest
unfolding new_request
returning = record new_request { headers = (codes "Cookie", codes "a=1; sessionId=ab; b=2") ∷ [] }

the_session-IsStored : IsStored 0 the_session one_session
unfolding lookup equal
the_session-IsStored = record { object = refl; entry = refl }

get_session-IsStored_example :
    (st' : Sessions) × (get_session 39 40 41 [] returning (new_response true) one_session
      ≡ (0, new_response true, st'))
    × IsStored 0 (kept 41 the_session) st'
unfolding returning get_header lookup equal find_byte
get_session-IsStored_example =
    get_session-IsStored 39 40 41 0 [] returning (new_response true) the_session one_session
      (codes "a=1; ") (codes "; b=2") the_session-IsStored (omega arith) (omega arith) (omega arith)
      (Lacks-of_find_byte b';' (codes "ab") refl) (Lacks-of_find_byte b's' (codes "a=1; ") refl)
      (inr (codes " b=2", refl)) refl

session_id_in-cookie_example : session_id_in (codes "sessionId=ab; Path=/") ≡ codes "ab"
unfolding find_byte
session_id_in-cookie_example =
    session_id_in-cookie [] (codes "ab") (codes "; Path=/") tt
      (Lacks-of_find_byte b';' (codes "ab") refl) (inr (codes " Path=/", refl))

load_conf-file_text_example :
    load_conf (codes "Log=a.log\n") []
    ≡ record { item_name = codes "Log"; item_content = codes "a.log" } ∷ []
unfolding find_byte trim trim_front trim_back is_space
load_conf-file_text_example =
    load_conf-file_text (record { item_name = codes "Log"; item_content = codes "a.log" } ∷ []) [] (
      record {
        key_lacks_equals = Lacks-of_find_byte b'=' (codes "Log") refl;
        key_lacks_break = Lacks-of_find_byte b'\n' (codes "Log") refl;
        content_lacks_break = Lacks-of_find_byte b'\n' (codes "a.log") refl;
        key_lacks_zero = Lacks-of_find_byte 0 (codes "Log") refl;
        content_lacks_zero = Lacks-of_find_byte 0 (codes "a.log") refl;
        key_trimmed = refl;
        content_trimmed = refl;
        line_trimmed = refl;
        not_skipped = refl;
        key_short = omega arith;
        content_short = omega arith;
      },
      tt,
    )
