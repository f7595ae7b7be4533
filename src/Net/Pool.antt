-- ===== src/Net/Pool.antt =====
-- The connection pool of my_nginx_event/src/net/my_socket_conn.cpp. `m_connectionList` owns the
-- connections; the other lists point to them, and hold here their positions in it, which are their
-- `id`s. The counters are 32-bit and wrap around, but for `total_count`, which is the length of a list
-- that a machine holds.
pub mod Ownership
pub mod Reuse
pub mod Steps
use mynginx_evnet_module.Base.{
  ℕ, zero, suc, ◌+◌, ◌-◌, ◌%◌, ◌^◌, Bool, true, false, Option, none, some, List, [], ◌∷◌, ◌++◌,
  if◌then◌else◌, ltb, leb, ◌==◌, length, get_elem?, ◌||◌,
}
use mynginx_evnet_module.Http.Context.State.{Context, new_context, reset}
use mynginx_evnet_module.Net.Buffer.{Buffer, new, initial_size}

-- The bits of a mask of epoll events.
pub record Events : Type 0 where
  pub epollin : Bool
  pub epollout : Bool
  pub epollrdhup : Bool
  pub epollhup : Bool
  pub epollerr : Bool

abbrev pub no_events : Events
no_events = record {
  epollin = false;
  epollout = false;
  epollrdhup = false;
  epollhup = false;
  epollerr = false;
}

-- The fields of `ngx_connection_s` that the operations here and on messages use, with `fd` none for
-- -1; `send_count` is `iSendCount` and `send_sequence` is `sendCount`.
pub record Connection : Type 0 where
  pub id : ℕ
  pub fd : Option ℕ
  pub in_recy_time : ℕ
  pub last_ping_time : ℕ
  pub flood_kick_last_time : ℕ
  pub flood_attack_count : ℕ
  pub send_count : ℕ
  pub send_sequence : ℕ
  pub psendbuf : Buffer
  pub events : Events
  pub is_http_close : Bool
  pub context : Context
  pub sequence : ℕ
  pub curr_sequence : ℕ

pub record Pool : Type 0 where
  pub connections : List Connection
  pub free : List ℕ
  pub recycling : List ℕ
  pub total_count : ℕ
  pub free_count : ℕ
  pub total_recycling : ℕ
  pub online_users : ℕ
  pub worker_connections : ℕ
  pub recycle_wait : ℕ

abbrev pub int_mod : ℕ
int_mod = 2 ^ 32

abbrev pub increment : ℕ → ℕ
increment n = (n + 1) % int_mod

abbrev pub decrement : ℕ → ℕ
decrement n = (n + (int_mod - 1)) % int_mod

abbrev pub next_sequence : ℕ → ℕ
next_sequence n = (n + 1) % 2 ^ 64

-- `GetOneToUse`
unfoldable pub get_one_to_use : Option ℕ → Connection → Connection
unfolding reset
get_one_to_use sockfd c = record c {
  in_recy_time = 0;
  last_ping_time = 0;
  flood_kick_last_time = 0;
  flood_attack_count = 0;
  send_count = 0;
  is_http_close = true;
  context = reset c.context;
  sequence = 0;
  curr_sequence = next_sequence c.curr_sequence;
  fd = sockfd;
}

-- `PutOneToFree`
abbrev pub put_one_to_free : Connection → Connection
put_one_to_free c = record c { curr_sequence = next_sequence c.curr_sequence }

-- `make_shared<ngx_connection_s>()`, the context, `GetOneToUse(-1)`, and the `id`.
unfoldable pub new_connection : ℕ → Connection
unfolding get_one_to_use new_context new
new_connection i =
    record (get_one_to_use none (record {
      id = 0;
      fd = none;
      in_recy_time = 0;
      last_ping_time = 0;
      flood_kick_last_time = 0;
      flood_attack_count = 0;
      send_count = 0;
      send_sequence = 0;
      psendbuf = new initial_size;
      events = no_events;
      is_http_close = true;
      context = new_context i;
      sequence = 0;
      curr_sequence = 0;
    })) { id = i }

-- The change of the connection at a position.
unfoldable pub update_at : ℕ → (Connection → Connection) → List Connection → List Connection
update_at i f [] = []
update_at zero f (c ∷ cs) = f c ∷ cs
update_at (suc i) f (c ∷ cs) = c ∷ update_at i f cs

-- One round of the loops that make connections, with the `id` that it sets.
unfoldable pub add_new : ℕ → Pool → Pool
unfolding new_connection
add_new i p = record p {
  connections = p.connections ++ new_connection i ∷ [];
  free = p.free ++ i ∷ [];
  free_count = increment p.free_count;
}

-- The loop, with `n` rounds left and the next `id`.
unfoldable pub add_connections : ℕ → ℕ → Pool → Pool
unfolding add_new
add_connections zero i p = p
add_connections (suc n) i p = add_connections n (i + 1) (add_new i p)

unfoldable pub count_total : Pool → Pool
count_total p = record p { total_count = length p.connections }

-- `create_connection`
unfoldable pub create_connections : Pool → Pool
unfolding add_connections count_total
create_connections p = count_total (add_connections p.worker_connections p.total_count p)

-- The lists and counters of a new `CSocket`.
abbrev pub no_connections : ℕ → ℕ → Pool
no_connections workers wait = record {
  connections = [];
  free = [];
  recycling = [];
  total_count = 0;
  free_count = 0;
  total_recycling = 0;
  online_users = 0;
  worker_connections = workers;
  recycle_wait = wait;
}

-- `initconnection`, which sets both counters behind its loop.
unfoldable pub init_connections : ℕ → ℕ → Pool
unfolding add_connections
init_connections workers wait =
    let p = add_connections workers 0 (no_connections workers wait) in
    record p { total_count = length p.connections; free_count = length p.connections % int_mod }

-- `clearconnection`
abbrev pub clear_connections : Pool → Pool
clear_connections p = record p { connections = []; free = []; total_count = 0; free_count = 0 }

-- A free connection is there: the first one is taken.
unfoldable pub take_free : ℕ → ℕ → List ℕ → Pool → Pool
unfolding update_at get_one_to_use
take_free sock c rest p = record p {
  connections = update_at c (get_one_to_use (some sock)) p.connections;
  free = rest;
  free_count = decrement p.free_count;
  online_users = increment p.online_users;
}

-- One round of the loop: with no free connection new ones are made, and the loop goes on.
unfoldable pub get_from : (Pool → Option (ℕ × Pool)) → ℕ → List ℕ → Pool → Option (ℕ × Pool)
unfolding take_free create_connections
get_from again sock (c ∷ rest) p = some (c, take_free sock c rest p)
get_from again sock [] p = again (create_connections p)

-- `ngx_get_connection`, on fuel: the position of the connection.
unfoldable pub get_connection : ℕ → ℕ → Pool → Option (ℕ × Pool)
unfolding get_from
get_connection zero sock p = none
get_connection (suc fuel) sock p = get_from (get_connection fuel sock) sock p.free p

-- `ngx_free_connection`
unfoldable pub free_connection : ℕ → Pool → Pool
unfolding update_at
free_connection c p = record p {
  connections = update_at c put_one_to_free p.connections;
  free = p.free ++ c ∷ [];
  free_count = increment p.free_count;
}

unfoldable pub is_listed : ℕ → List ℕ → Bool
is_listed c [] = false
is_listed c (d ∷ ds) = d == c || is_listed c ds

-- `inRecyConnectQueue`
unfoldable pub in_recy_connect_queue : ℕ → ℕ → Pool → Pool
unfolding update_at is_listed
in_recy_connect_queue now c p = if is_listed c p.recycling then p else record p {
  connections =
      update_at c
        (λ d. record d { in_recy_time = now; curr_sequence = next_sequence d.curr_sequence })
        p.connections;
  total_recycling = decrement p.total_recycling;
  online_users = decrement p.online_users;
  recycling = p.recycling ++ c ∷ [];
}

-- Whether a connection has waited long enough. A pointer to no connection is taken out as well.
unfoldable pub has_waited : ℕ → Pool → ℕ → Bool
has_waited now p c = elim (get_elem? p.connections c) [
  | none ↦ true
  | some d ↦ leb (d.in_recy_time + p.recycle_wait) now
]

-- The loop of `ServerRecyConnectionThread` over the rest of the list.
unfoldable pub sweep : ℕ → List ℕ → Pool → List ℕ × Pool
unfolding has_waited free_connection
sweep now [] p = ([], p)
sweep now (c ∷ cs) p =
    if has_waited now p c
    then sweep now cs (free_connection c p)
    else (let (kept, p') = sweep now cs p in (c ∷ kept, p'))

-- One round of the thread.
unfoldable pub recycle_round : ℕ → Pool → Pool
unfolding sweep
recycle_round now p =
    if ltb 0 p.total_count
    then (let (kept, p') = sweep now p.recycling p in record p' { recycling = kept })
    else p

-- `ngx_close_connection`
unfoldable pub close_connection : ℕ → Pool → Pool
unfolding free_connection update_at
close_connection c p =
    free_connection c
      (record p { connections = update_at c (λ d. record d { fd = none }) p.connections })
