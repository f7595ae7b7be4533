-- ===== src/Database.antt =====
-- The pool of database connections in my_nginx_event/src/dbconnpool/connectionPool.cpp. A connection is
-- a number, and what MySQLConn::connect answers is an argument. Each operation holds m_mutex, so it is
-- one step; the queue has each connection with the time of its last use, in milliseconds.
pub mod Ownership
use mynginx_evnet_module.Base.{
  ℕ, zero, suc, ◌+◌, ◌-◌, Bool, true, false, Option, none, some, List, [], ◌∷◌, ◌++◌, if◌then◌else◌,
  ltb, leb, ◌==◌, length,
}

pub record Database : Type 0 where
  pub conn_queue : List (ℕ × ℕ)
  pub lent : List ℕ
  pub next_conn : ℕ
  pub max_size : ℕ
  pub min_size : ℕ
  pub max_idle_time : ℕ

-- `addConnection`: a connection that cannot be made is deleted.
unfoldable pub add_connection : ℕ → Bool → Database → Database
add_connection now connects d =
    if connects
    then record d {
      conn_queue = d.conn_queue ++ (d.next_conn, now) ∷ [];
      next_conn = d.next_conn + 1;
    }
    else d

-- The loop of the constructor, over the answers to its attempts.
unfoldable pub fill : ℕ → List Bool → Database → Database
unfolding add_connection
fill now [] d = d
fill now (connects ∷ answers) d = fill now answers (add_connection now connects d)

abbrev pub empty_pool : ℕ → ℕ → ℕ → Database
empty_pool max_size min_size max_idle_time = record {
  conn_queue = [];
  lent = [];
  next_conn = 0;
  max_size = max_size;
  min_size = min_size;
  max_idle_time = max_idle_time;
}

-- A round of `produceConnection`; it waits while there are enough connections.
unfoldable pub produce_connection : ℕ → Bool → Database → Database
unfolding add_connection
produce_connection now connects d =
    if leb d.min_size (length d.conn_queue) then d else add_connection now connects d

-- The loop of `resycleConnection`, which deletes from the front.
unfoldable pub recycle_queue : ℕ → ℕ → ℕ → List (ℕ × ℕ) → List (ℕ × ℕ)
recycle_queue now max_size max_idle_time [] = []
recycle_queue now max_size max_idle_time ((conn, alive) ∷ queue) =
    let rest = recycle_queue now max_size max_idle_time queue in
    if ltb max_size (length ((conn, alive) ∷ queue))
    then (if ltb max_idle_time (now - alive) then rest else (conn, alive) ∷ queue)
    else (conn, alive) ∷ queue

unfoldable pub resycle_connection : ℕ → Database → Database
unfolding recycle_queue
resycle_connection now d = record d {
  conn_queue = recycle_queue now d.max_size d.max_idle_time d.conn_queue;
}

-- `getConnection`, none while the queue is empty.
unfoldable pub get_connection : Database → Option (ℕ × Database)
get_connection d = elim d.conn_queue [
  | [] ↦ none
  | (conn, alive) ∷ queue ↦ some (conn, record d { conn_queue = queue; lent = conn ∷ d.lent })
]

unfoldable pub remove_first : ℕ → List ℕ → List ℕ
remove_first conn [] = []
remove_first conn (c ∷ cs) = let rest = remove_first conn cs in if c == conn then cs else c ∷ rest

-- The deleter of the shared pointer puts the connection back.
unfoldable pub give_back : ℕ → ℕ → Database → Database
unfolding remove_first
give_back now conn d = record d {
  conn_queue = d.conn_queue ++ (conn, now) ∷ [];
  lent = remove_first conn d.lent;
}
