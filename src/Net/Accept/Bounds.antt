-- ===== src/Net/Accept/Bounds.antt =====
-- The limit on connections in `ngx_event_accept` of my_nginx_event/src/net/my_socket_accept.cpp.
use mynginx_evnet_module.Base.{length, ℕ, ◌+◌, ◌^◌, ◌≤◌, ◌<◌, ◌≡◌, Option, none, some}
use mynginx_evnet_module.Net.Pool.{Pool, increment}
use mynginx_evnet_module.Net.Pool.Ownership.{IsValid}
use mynginx_evnet_module.Net.Send.{Socket}
use mynginx_evnet_module.Net.Accept.{Round, Acceptor}

-- The pool is valid, it makes connections, the connections that are in neither list are counted by
-- `m_onlineUserCount`, and the count is within the limit.
pub record WithinLimit (s : Socket) : Type 0 where
  pub valid : IsValid s.pool
  pub some_workers : 0 < s.pool.worker_connections
  pub counted :
      length s.pool.connections ≤ length s.pool.free + length s.pool.recycling + s.pool.online_users
  pub limit : s.pool.online_users ≤ s.pool.worker_connections
  pub is_int : s.pool.worker_connections < 2 ^ 31

-- Connections are made into the free list, and nothing else changes.
abbrev OnlyFree : Pool → Pool → Type 0
OnlyFree p p' =
    (p'.online_users ≡ p.online_users)
    × (p'.worker_connections ≡ p.worker_connections)
    × (p'.recycling ≡ p.recycling)
    × (length p'.connections + length p.free ≡ length p.connections + length p'.free)

-- One more is out of the lists and counted than before.
OneMore : Pool → Option (ℕ × Pool) → Type 0
OneMore p none = Unit {0}
OneMore p (some r) =
    (r.1.online_users ≡ increment p.online_users)
    × (r.1.worker_connections ≡ p.worker_connections)
    × (r.1.recycling ≡ p.recycling)
    × (length r.1.connections + length p.free ≡ length p.connections + length r.1.free + 1)

-- A round that has come to its end.
AfterRound : Option Round → Type 0
AfterRound none = ⊥
AfterRound (some r) = WithinLimit r.socket

-- The loop has returned.
Returned : Option Acceptor → Type 0
Returned none = ⊥
Returned (some a) = WithinLimit a.socket
