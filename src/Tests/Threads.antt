-- ===== src/Tests/Threads.antt =====
-- Examples for the database connections and the worker processes:
-- my_nginx_event/src/dbconnpool/connectionPool.cpp and my_nginx_event/src/server/.
use mynginx_evnet_module.Base.{◌≤◌, ℕ, ◌+◌, ◌≡◌, refl, true, false, some, none, [], ◌∷◌, arith}
use mynginx_evnet_module.Database.{Database, add_connection, fill, get_connection, give_back}
use mynginx_evnet_module.Database.Ownership.{
  HeldOnce, held, stays, runs, Runs-HeldOnce, starts, goes_on, lends, returns,
}
use mynginx_evnet_module.Processes.{Server, master, sigchld, signal_handler, master_round}
use mynginx_evnet_module.Processes.Restart.{master_round-signal_handler}
use mynginx_evnet_module.Threads.Queue.{
  Queue, Enqueue, load_tail, enqueue_fault, load_head, empty_queue, new_node, link, enqueue_step,
  enqueue_alone, dequeue_step, dequeue_alone,
}

-- One of two connections is lent.
abbrev one_lent : Database
one_lent = record {
  conn_queue = (1, 5) ∷ [];
  lent = 0 ∷ [];
  next_conn = 2;
  max_size = 4;
  min_size = 2;
  max_idle_time = 1000;
}

Runs-HeldOnce_example :
    HeldOnce (give_back 9 0 one_lent) × (held 1 (give_back 9 0 one_lent) ≤ held 1 one_lent)
unfolding fill add_connection get_connection
Runs-HeldOnce_example =
    Runs-HeldOnce {max_size = 4} {min_size = 2} {max_idle_time = 1000} {d = one_lent}
      {d' = give_back 9 0 one_lent} 1 (goes_on (starts 5 (true ∷ true ∷ []) refl) (lends 0 refl))
      (runs stays (returns 9 0 (omega arith))) (omega arith)

-- One worker was killed by signal 11.
abbrev one_down : Server
one_down = record {
  processes = some 100 ∷ some 101 ∷ none ∷ [];
  last_process = 2;
  role = master;
  reap = false;
  stop_event = false;
  ended = record { pid = 101; term_signal = 11; exit_code = 0 } ∷ [];
  killed = [];
}

master_round-signal_handler_example :
    master_round (λ p. some (p + 1)) (signal_handler sigchld one_down)
    ≡ (true, record one_down { ended = []; reap = false })
master_round-signal_handler_example =
    master_round-signal_handler (λ p. some (p + 1)) one_down refl refl

-- A queue in which a thread is held up before it stores the tail, while another one adds a node and
-- both nodes are taken: the tail then names a deleted node, and the next thread reads it.
abbrev after_first : Enqueue × Queue ℕ
unfolding new_node enqueue_alone enqueue_step link
after_first = enqueue_alone 6 1 load_tail (new_node 70 empty_queue)

abbrev after_others : Queue ℕ
unfolding after_first new_node enqueue_alone enqueue_step link dequeue_alone dequeue_step
after_others =
    (dequeue_alone 10 load_head
      (dequeue_alone 10 load_head (enqueue_alone 15 2 load_tail (new_node 71 after_first.1)).1).1).1

stale_tail :
    (enqueue_alone 3 3 load_tail (new_node 72 (enqueue_alone 2 1 after_first.0 after_others).1)).0
    ≡ enqueue_fault
unfolding after_others after_first new_node enqueue_alone enqueue_step link dequeue_alone
    dequeue_step
stale_tail = refl
