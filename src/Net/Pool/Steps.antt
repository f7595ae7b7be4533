-- ===== src/Net/Pool/Steps.antt =====
-- The calls of the threads on the connection pool of my_nginx_event/src/net/my_socket_conn.cpp, each
-- of which holds the lock of the list that it changes, as steps.
use mynginx_evnet_module.Base.{
  ℕ, zero, suc, ◌<◌, ◌≡◌, refl, sym, ◌∙◌, none, some, List, [], ◌∷◌, arith, ltb, length, Bool-cases,
  inl, inr,
}
use mathlib.Core.Path.{subst}
use mynginx_evnet_module.Net.Pool.{
  Connection, Pool, put_one_to_free, update_at, init_connections, get_connection, take_free,
  create_connections, free_connection, in_recy_connect_queue, has_waited, sweep, recycle_round,
  close_connection,
}
use mynginx_evnet_module.Net.Pool.Ownership.{
  count, InUse, IsSound, IsValid, length-update_at, IdsFrom-update_at, free_connection-IsSound,
  take_free-IsValid, create_connections-IsValid,
}
use mynginx_evnet_module.Net.Pool.Reuse.{
  List-cases, get_from-first, get_from-empty, init_connections-IsValid,
  in_recy_connect_queue-IsValid, sweep-IsSound,
}

sweep-total :
    (now : ℕ) (cs : List ℕ) (p : Pool)
    → ((sweep now cs p).1.total_count ≡ p.total_count)
      × (length (sweep now cs p).1.connections ≡ length p.connections)
unfolding sweep free_connection
sweep-total now [] p = (refl, refl)
sweep-total now (c ∷ cs) p = elim (Bool-cases (has_waited now p c)) [
  | inl e ↦
      let (a, b) = sweep-total now cs (free_connection c p) in
      rw (e, sweep) (a, b ∙ length-update_at c put_one_to_free p.connections)
  | inr e ↦ rw (e, sweep) (sweep-total now cs p)
]

pub recycle_round-IsValid : (now : ℕ) (p : Pool) → IsValid p → IsValid (recycle_round now p)
unfolding recycle_round
recycle_round-IsValid now p v = elim (Bool-cases (ltb 0 p.total_count)) [
  | inl e ↦
      let (a, b) = sweep-total now p.recycling p in
      let s : IsSound
          (record (sweep now p.recycling p).1 { recycling = (sweep now p.recycling p).0 }) =
        sweep-IsSound now [] p.recycling p v.sound in
      rw e (record { sound = s; total = omega (arith, a, b, v.total) })
  | inr e ↦ rw e v
]

pub close_connection-IsValid :
    (c : ℕ) (p : Pool) → IsValid p → InUse c p → IsValid (close_connection c p)
unfolding close_connection free_connection
close_connection-IsValid c p v u =
    let f = λ (d : Connection). record d { fd = none } in
    let n = length-update_at c f p.connections in
    let s =
      free_connection-IsSound c (record p { connections = update_at c f p.connections })
        (record {
          once = v.sound.once;
          in_range = λ x h. v.sound.in_range x (omega (arith, h, n));
          counted = v.sound.counted;
          ids = IdsFrom-update_at 0 c f p.connections (λ d. refl) v.sound.ids;
        })
        (omega (arith, u.0, n)) u.1 in
    record {
      sound = s;
      total =
          omega
            (arith, v.total, n, length-update_at c put_one_to_free (update_at c f p.connections));
    }

-- One call, made by a thread that keeps to the rules: a connection is recycled when it is not free
-- (one that waits already too), and closed when it is in neither list.
pub data PoolStep : Pool → Pool → Type 0 where
  gets : {p p' : Pool} (sock c : ℕ) → get_connection 2 sock p ≡ some (c, p') → PoolStep p p'
  recycles :
      {p : Pool} (now c : ℕ)
      → c < length p.connections
      → count c p.free ≡ 0
      → PoolStep p (in_recy_connect_queue now c p)
  sweeps : {p : Pool} (now : ℕ) → PoolStep p (recycle_round now p)
  closes : {p : Pool} (c : ℕ) → InUse c p → PoolStep p (close_connection c p)

pub data Reachable (workers wait : ℕ) : Pool → Type 0 where
  starts : Reachable workers wait (init_connections workers wait)
  goes_on : {p p' : Pool} → Reachable workers wait p → PoolStep p p' → Reachable workers wait p'

get_connection-keeps :
    (fuel sock : ℕ) (p : Pool) {c : ℕ} {p' : Pool}
    → get_connection fuel sock p ≡ some (c, p')
    → IsValid p
    → IsValid p' × InUse c p'
unfolding get_connection
get_connection-keeps zero sock p h v = cc
get_connection-keeps (suc fuel) sock p {c} {p'} h v = elim (List-cases p.free) [
  | inr (d, rest, e) ↦
      let q : some (d, take_free sock d rest p) ≡ some (c, p') =
        sym (get_from-first fuel sock d rest p e) ∙ h in
      let q1 : d ≡ c = cc q in
      let q2 : take_free sock d rest p ≡ p' = cc q in
      let (w, u) = take_free-IsValid sock d rest p e v in
      (subst IsValid q2 w, subst (λ x. InUse x p') q1 (subst (InUse d) q2 u))
  | inl e ↦
      get_connection-keeps fuel sock (create_connections p) (sym (get_from-empty fuel sock p e) ∙ h)
        (create_connections-IsValid p v).0
]

PoolStep-IsValid : {p p' : Pool} → PoolStep p p' → IsValid p → IsValid p'
PoolStep-IsValid {p} (gets sock c e) v = (get_connection-keeps 2 sock p e v).0
PoolStep-IsValid {p} (recycles now c l h) v = in_recy_connect_queue-IsValid now c p v l h
PoolStep-IsValid {p} (sweeps now) v = recycle_round-IsValid now p v
PoolStep-IsValid {p} (closes c u) v = close_connection-IsValid c p v u

-- From the initial pool on, through any order of handing out, recycling, closing and the rounds of the
-- recycling thread in which nobody recycles a free connection or closes one that is free or waits to
-- be recycled: no connection stands twice in the free list and the recycling list together, both lists
-- name connections of the pool only, each connection keeps its `id`, `total_count` is the number of
-- connections and `free_count` is the number of free ones modulo 2^32.
pub Reachable-IsValid : {workers wait : ℕ} {p : Pool} → Reachable workers wait p → IsValid p
Reachable-IsValid {workers} {wait} starts = init_connections-IsValid workers wait
Reachable-IsValid (goes_on r s) = PoolStep-IsValid s (Reachable-IsValid r)
