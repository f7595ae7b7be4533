-- ===== src/Logic/Receive.antt =====
-- `onRequest` and `threadRecvProcFunc` of my_nginx_event/src/logic/my_slogic.cpp. The worker waits up
-- to five seconds for its turn and then goes on in any case: the wait changes no state, and is left
-- out. Log output is left out.
use mynginx_evnet_module.Base.{
  ℕ, ◌+◌, ◌%◌, ◌^◌, Bool, ◌&&◌, ◌||◌, not, Option, none, some, List, [], if◌then◌else◌, ◌==◌,
  get_elem?,
}
use mynginx_evnet_module.Base.Bytes.{Bytes, codes, is_empty}
use mynginx_evnet_module.Base.CString.{same_text}
use mynginx_evnet_module.Http.Request.{HttpRequest, get_header}
use mynginx_evnet_module.Http.Response.{HttpResponse, new_response, append_to_buffer}
use mynginx_evnet_module.Http.Context.State.{Surroundings, reset}
use mynginx_evnet_module.Http.Context.Loop.{
  Outcome, returned, threw, aborted, unfinished, parse_request,
}
use mynginx_evnet_module.Net.Pool.{Connection, update_at}
use mynginx_evnet_module.Net.Timer.{Header}
use mynginx_evnet_module.Net.Send.{Socket, msg_send}
use mynginx_evnet_module.Middleware.{Middleware}
use mynginx_evnet_module.Route.{Regexes, Router}
use mynginx_evnet_module.Logic.Handle.{handle_request}

-- Whether the connection is closed behind the response.
unfoldable pub closes_after : HttpRequest → Bool
unfolding same_text
closes_after q =
    let connection = get_header q (codes "Connection") in
    let keep_alive = same_text connection (codes "keep-alive") in
    same_text connection (codes "close")
    || not (
        (same_text q.version (codes "HTTP/1.1") && keep_alive)
        || (same_text q.version (codes "HTTP/1.0") && keep_alive))

abbrev pub with_connection : ℕ → (Connection → Connection) → Socket → Socket
with_connection c f s = record s {
  pool = record s.pool { connections = update_at c f s.pool.connections };
}

abbrev pub bad_request_text : Bytes
bad_request_text = codes "HTTP/1.1 400 Bad Request\r\n\r\n"

abbrev pub next_uint : ℕ → ℕ
next_uint n = (n + 1) % 2 ^ 32

-- The socket afterwards, or how the worker fails.
pub data Received (W : Type 0) : Type 0 where
  done : Socket → W → Received W
  parser_threw : Received W
  parser_aborted : Received W
  parser_unfinished : Received W
  null_middleware : Received W

module _ {W : Type 0} (lib : Regexes) (router : Router lib.Regex)
    (chain : List (Option (Middleware W))) where
  -- The response is written out and sent.
  abbrev pub send_response : ℕ → ℕ → Socket → Option (HttpResponse × W) → Option (Socket × W)
  send_response now c s none = none
  send_response now c s (some (r, w)) = some (msg_send now (append_to_buffer r []) c s, w)

  unfoldable pub on_request : ℕ → ℕ → HttpRequest → Socket → W → Option (Socket × W)
  unfolding closes_after msg_send append_to_buffer handle_request
  on_request now c q s w =
      send_response now c (with_connection c (λ d. record d { is_http_close = closes_after q }) s)
        (handle_request lib router chain q (new_response (closes_after q)) w)

  -- Behind `onRequest` the context is reset.
  abbrev pub after_request : ℕ → Option (Socket × W) → Received W
  after_request c none = null_middleware
  after_request c (some (s, w)) =
      done (with_connection c (λ d. record d { context = reset d.context }) s) w

  -- Behind `parseRequest`: the context's sequence number goes up, and the flags decide.
  unfoldable pub after_parse : ℕ → ℕ → Socket → W → Outcome → Received W
  unfolding on_request
  after_parse now c s w (returned context ok is_err) =
      let context' = record context { sequence = next_uint context.sequence } in
      let s' = with_connection c (λ d. record d { context = context' }) s in
      if ok
      then after_request c (on_request now c context'.request s' w)
      else if is_err
      then done (msg_send now bad_request_text c s') w
      else done s' w
  after_parse now c s w (threw context) = parser_threw
  after_parse now c s w aborted = parser_aborted
  after_parse now c s w unfinished = parser_unfinished

  -- `threadRecvProcFunc` on the header of a message, for a connection of the pool.
  unfoldable pub receive_on :
      Surroundings → ℕ → ℕ → Header → Bytes → Connection → Socket → W → Received W
  unfolding after_parse parse_request
  receive_on env fuel now h bytes d s w =
      if d.curr_sequence == h.sequence
      then after_parse now h.conn s w (parse_request env now fuel d.context bytes)
      else done s w

  abbrev pub receive_at :
      Surroundings → ℕ → ℕ → Header → Bytes → Socket → W → Option Connection → Received W
  receive_at env fuel now h bytes s w none = done s w
  receive_at env fuel now h bytes s w (some d) =
      if is_empty bytes then done s w else receive_on env fuel now h bytes d s w

  unfoldable pub thread_recv_proc : Surroundings → ℕ → ℕ → Header → Bytes → Socket → W → Received W
  unfolding receive_on
  thread_recv_proc env fuel now h bytes s w =
      receive_at env fuel now h bytes s w (get_elem? s.pool.connections h.conn)
