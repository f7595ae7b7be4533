-- ===== src/Tests/Worker.antt =====
-- Examples for the worker threads: my_nginx_event/src/logic/my_slogic.cpp.
use mynginx_evnet_module.Base.{
  inl, true, some, ◌∷◌, ◌++◌, ◌+◌, get_elem?, ℕ, ◌≡◌, refl, false, [], arith,
}
use mynginx_evnet_module.Base.Bytes.{
  Lacks-of_find_byte, less, find_byte, codes, equal, search_bytes,
}
use mynginx_evnet_module.Base.Dict.{insert_sorted, lookup}
use mynginx_evnet_module.Http.Request.{
  HttpRequest, new_request, swap, method_of, get_header, add_header, set_query_parameters,
}
use mynginx_evnet_module.Http.Context.State.{new_context, reset}
use mynginx_evnet_module.Http.Context.Fresh.{IsFresh}
use mynginx_evnet_module.Http.Context.Message.{Message, IsMessage, message_text}
use mynginx_evnet_module.Http.Context.Complete.{message_request}
use mynginx_evnet_module.Http.Context.Reset.{IsReset}
use mynginx_evnet_module.Net.Pool.{
  Connection, init_connections, add_connections, add_new, new_connection, get_one_to_use,
}
use mynginx_evnet_module.Net.Timer.{Header}
use mynginx_evnet_module.Http.Response.{HttpResponse, new_response, not_found, append_to_buffer}
use mynginx_evnet_module.Middleware.{process_before, process_after}
use mynginx_evnet_module.Route.{find_route}
use mynginx_evnet_module.Route.Match.{candidates, matches}
use mynginx_evnet_module.Logic.Handle.{handle_request}
use mynginx_evnet_module.Logic.Handle.Errors.{handle_request-not_found}
use mynginx_evnet_module.Net.Send.{Socket}
use mynginx_evnet_module.Logic.Receive.{bad_request_text, closes_after, done, thread_recv_proc}
use mynginx_evnet_module.Logic.Answer.{thread_recv_proc-answers}
use mynginx_evnet_module.Logic.Refuse.{thread_recv_proc-refuses}
use mynginx_evnet_module.Tests.Http.{nowhere, get_message, get_message-IsMessage}
use mynginx_evnet_module.Tests.Server.{exact_regexes, no_routes}

abbrev socket : Socket
socket = record {
  pool = init_connections 1 3;
  timers = record { queue = []; cur_size = 0; timer_value = 0; wait_time = 10; kick = false };
  kick_timer = false;
  send_queue = [];
  discarded = 0;
  queued_messages = 0;
  posts = 0;
  effects = [];
}

abbrev state : ℕ
state = 5

abbrev current : Header
current = record { conn = 0; sequence = 1 }

abbrev old : Header
old = record { conn = 0; sequence = 0 }

new_connection-IsFresh : IsFresh (new_connection 0).context
unfolding new_connection get_one_to_use reset swap new_context new_request
new_connection-IsFresh = record { waits = refl; empty = refl; at_start = refl; no_method = refl }

abbrev asked : HttpRequest
asked = message_request (new_connection 0).context 7 get_message

-- No route takes the request.
abbrev missing : HttpResponse
missing = record (new_response (closes_after asked)) {
  status_code = not_found;
  status_message = codes "Not Found";
  close_connection = true;
  http_version = asked.version;
}

missing-answer :
    handle_request exact_regexes no_routes [] asked (new_response (closes_after asked)) state
    ≡ some (missing, state)
unfolding process_before process_after candidates matches find_route
missing-answer =
    handle_request-not_found exact_regexes no_routes [] asked asked
      (new_response (closes_after asked)) state state refl refl

thread_recv_proc-answers_example :
    (s' : Socket) × (e : Connection) × (thread_recv_proc exact_regexes no_routes [] nowhere 3 7
        current
        (message_text get_message [])
        socket
        state
      ≡ done s' state)
    × (s'.send_queue ≡ [] ++ (record { conn = 0; sequence = 1 }, append_to_buffer missing []) ∷ [])
    × (get_elem? s'.pool.connections 0 ≡ some e)
    × IsReset e.context
    × (e.is_http_close ≡ closes_after asked)
    × (e.send_count ≡ 0 + 1)
unfolding init_connections add_connections add_new new_connection get_one_to_use reset swap
    new_context new_request method_of equal get_header add_header insert_sorted lookup search_bytes
    set_query_parameters
thread_recv_proc-answers_example =
    thread_recv_proc-answers exact_regexes no_routes [] nowhere 0 7 current get_message
      (new_connection 0) socket state state missing refl refl new_connection-IsFresh
      get_message-IsMessage refl refl (omega arith) (omega arith) missing-answer

-- A message of a method with a body that does not say its length.
abbrev bare_post : Message
bare_post = record {
  method_name = codes "POST";
  path = codes "/a";
  query = [];
  version = codes "HTTP/1.1";
  headers = (codes "Host", codes "h") ∷ [];
}

bare_post-IsMessage : IsMessage bare_post
unfolding method_of equal find_byte
bare_post-IsMessage = record {
  known_method = refl;
  method_lacks_space = Lacks-of_find_byte b' ' (codes "POST") refl;
  target_lacks_space = Lacks-of_find_byte b' ' (codes "/a") refl;
  path_lacks_mark = Lacks-of_find_byte b'?' (codes "/a") refl;
  query_pairs = tt;
  known_version = inl refl;
  line_lacks_break = Lacks-of_find_byte b'\r' (codes "POST /a HTTP/1.1") refl;
  line_short = omega arith;
  header_fields = get_message-IsMessage.header_fields;
}

thread_recv_proc-refuses_example :
    (s' : Socket) × (e : Connection) × (thread_recv_proc exact_regexes no_routes [] nowhere 3 7
        current
        (message_text bare_post [])
        socket
        state
      ≡ done s' state)
    × (s'.send_queue ≡ [] ++ (record { conn = 0; sequence = 1 }, bad_request_text) ∷ [])
    × (get_elem? s'.pool.connections 0 ≡ some e)
    × IsReset e.context
    × (e.send_count ≡ 0 + 1)
unfolding init_connections add_connections add_new new_connection get_one_to_use reset swap
    new_context new_request method_of equal get_header add_header insert_sorted lookup search_bytes
    set_query_parameters less
thread_recv_proc-refuses_example =
    thread_recv_proc-refuses exact_regexes no_routes [] nowhere 0 7 current bare_post
      (new_connection 0) socket state refl refl new_connection-IsFresh bare_post-IsMessage refl refl
      refl (omega arith) (omega arith)
