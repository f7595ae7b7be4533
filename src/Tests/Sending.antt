-- ===== src/Tests/Sending.antt =====
-- Examples for sending and accepting: my_nginx_event/src/net/my_socket.cpp,
-- my_nginx_event/src/net/my_http_request_callback.cpp and my_nginx_event/src/net/my_socket_accept.cpp.
use mynginx_evnet_module.Base.{◌≡◌, refl, true, some, [], ◌∷◌, ◌++◌, arith, take, drop, map}
use mynginx_evnet_module.Base.Bytes.{Bytes, codes}
use mynginx_evnet_module.Net.Buffer.{new, initial_size, append, contents}
use mynginx_evnet_module.Net.Buffer.Queue.{new-IsValid, append-IsValid}
use mynginx_evnet_module.Net.Pool.{Connection, Pool, new_connection, get_one_to_use}
use mynginx_evnet_module.Net.Timer.{Header, Timers}
use mynginx_evnet_module.Net.Send.{Socket}
use mynginx_evnet_module.Net.Send.Calls.{sent, refused, eintr, eagain}
use mynginx_evnet_module.Net.Send.Thread.{went_on, send_item}
use mynginx_evnet_module.Net.Send.Write.{write_response_handler}
use mynginx_evnet_module.Net.Send.Stream.{wire, sendbuf, unsent_text}
use mynginx_evnet_module.Net.Send.Order.{Streams, write_response_handler-Streams}
use mynginx_evnet_module.Net.Send.Delivery.{send_item-delivers}
use mynginx_evnet_module.Net.Send.Overtake.{send_item-overtakes, send_item-leaks}
use mynginx_evnet_module.Net.Accept.{Answers}

abbrev no_timers : Timers
no_timers = record { queue = []; cur_size = 0; timer_value = 0; wait_time = 20; kick = true }

-- A connection whose client is at descriptor 7, and one that has left three bytes unsent.
abbrev client : Connection
unfolding get_one_to_use new_connection
client = get_one_to_use (some 7) (new_connection 0)

abbrev left_behind : Connection
unfolding new_connection append new
left_behind = record (new_connection 0) { psendbuf = append (new initial_size) (codes "old") }

abbrev pool_of : Connection → Pool
pool_of d = record {
  connections = d ∷ [];
  free = [];
  recycling = [];
  total_count = 1;
  free_count = 0;
  total_recycling = 0;
  online_users = 1;
  worker_connections = 4;
  recycle_wait = 60;
}

abbrev socket_of : Pool → Socket
socket_of p = record {
  pool = p;
  timers = no_timers;
  kick_timer = true;
  send_queue = [];
  discarded = 0;
  queued_messages = 1;
  posts = 1;
  effects = [];
}

abbrev hello : Bytes
hello = codes "hello"

abbrev header : Header
header = record { conn = 0; sequence = 2 }

-- A client at descriptor 7 for whom three bytes wait.
abbrev waiting : Connection
unfolding left_behind new_connection
waiting = record left_behind { fd = some 7; send_sequence = 0; curr_sequence = 0 }

write_response_handler-Streams_example : Streams 0 (socket_of (pool_of waiting)) (
    write_response_handler 9 0
      (sent 2 ∷ refused eintr ∷ refused eagain ∷ [])
      (socket_of (pool_of waiting)))
unfolding waiting left_behind new_connection
write_response_handler-Streams_example =
    write_response_handler-Streams 9 0 (sent 2 ∷ refused eintr ∷ refused eagain ∷ [])
      (socket_of (pool_of waiting))
      (append-IsValid (new initial_size) (codes "old") (new-IsValid initial_size))

send_item-delivers_example :
    (t : Socket) × (u : Socket) × (send_item 8
        (sent 2 ∷ [])
        header
        hello
        (socket_of (pool_of client))
      ≡ went_on t)
    × (write_response_handler 9 0 (map sent (1 ∷ 2 ∷ [])) t ≡ some u)
    × (wire 0 u.effects ≡ wire 0 [] ++ hello)
    × (unsent_text (sendbuf 0 u.pool.connections) ≡ [])
unfolding client new_connection get_one_to_use new
send_item-delivers_example =
    send_item-delivers 8 9 2 (1 ∷ 2 ∷ []) header hello client (socket_of (pool_of client)) refl
      (new-IsValid initial_size) refl refl refl (omega arith) (omega arith, omega arith)
      (omega arith, omega arith, (omega arith, omega arith, refl))

send_item-overtakes_example :
    (t : Socket) × (send_item 8
        (sent 5 ∷ [])
        (record { conn = 0; sequence = 1 })
        hello
        (socket_of (pool_of left_behind))
      ≡ went_on t)
    × (wire 0 t.effects ≡ wire 0 [] ++ hello)
    × (sendbuf 0 t.pool.connections ≡ some left_behind.psendbuf)
unfolding left_behind new_connection get_one_to_use
send_item-overtakes_example =
    send_item-overtakes 8 (record { conn = 0; sequence = 1 }) hello left_behind
      (socket_of (pool_of left_behind)) refl refl (omega arith)

send_item-leaks_example :
    (t : Socket) × (send_item 8
        (sent 2 ∷ [])
        header
        hello
        (socket_of (pool_of (get_one_to_use (some 9) left_behind)))
      ≡ went_on t)
    × (wire 0 t.effects ≡ wire 0 [] ++ take 2 hello)
    × (unsent_text (sendbuf 0 t.pool.connections) ≡ contents left_behind.psendbuf ++ drop 2 hello)
unfolding left_behind new_connection get_one_to_use
send_item-leaks_example =
    send_item-leaks 8 2 9 header hello left_behind
      (socket_of (pool_of (get_one_to_use (some 9) left_behind))) refl refl
      (append-IsValid (new initial_size) (codes "old") (new-IsValid initial_size))
      (omega arith, omega arith)

abbrev answers : Answers
answers = record { set_nonblocking = λ fd. true; is_added = λ fd. true }
