-- ===== src/Processes/Restart.antt =====
-- A worker that has crashed, in my_nginx_event/src/server/my_process_cycle.cpp and
-- my_nginx_event/src/server/my_signal.cpp.
use mynginx_evnet_module.Base.{ℕ, ◌≡◌, refl, true, false, Option, []}
use mynginx_evnet_module.Processes.{
  Server, master, sigchld, signal_handler, note_signal, process_get_status, master_round,
  reap_worker_processes, reap_all,
}

-- When children of the master end, whatever they ended with, the handler of SIGCHLD waits for them
-- all, so the round of the master that follows finds none: the loop goes on, no process is started,
-- and the table of workers is the same as before.
pub master_round-signal_handler :
    (fork : ℕ → Option ℕ) (s : Server)
    → s.role ≡ master
    → s.stop_event ≡ false
    → master_round fork (signal_handler sigchld s) ≡ (true, record s { ended = []; reap = false })
unfolding master_round signal_handler note_signal process_get_status reap_worker_processes reap_all
master_round-signal_handler fork s r e = rw (master_round, signal_handler, r, e) refl
