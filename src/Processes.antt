-- ===== src/Processes.antt =====
-- The table of worker processes in my_nginx_event/src/server/my_process_cycle.cpp, and the handling of
-- signals in my_nginx_event/src/server/my_signal.cpp, as far as they change the state of the server.
-- What fork answers is an argument, and the children that have ended and are not yet waited for are
-- part of the state. A process number is none for -1.
pub mod Restart
use mynginx_evnet_module.Base.{
  ℕ, zero, suc, ◌+◌, Bool, true, false, Option, none, some, List, [], ◌∷◌, ◌++◌, if◌then◌else◌, leb,
  ◌==◌, ◌||◌, not, length,
}

-- How a child has ended: the signal, which is 0 without one, and the exit code.
pub record Ended : Type 0 where
  pub pid : ℕ
  pub term_signal : ℕ
  pub exit_code : ℕ

pub data Role : Type 0 where
  master : Role
  worker : Role

-- `ngx_processes`, `ngx_last_process`, `ngx_process`, `ngx_reap` and `g_stopEvent`, with the children
-- that `waitpid` will report, the signals sent and the processes started.
pub record Server : Type 0 where
  pub processes : List (Option ℕ)
  pub last_process : ℕ
  pub role : Role
  pub reap : Bool
  pub stop_event : Bool
  pub ended : List Ended
  pub killed : List (ℕ × ℕ)

pub data Signal : Type 0 where
  sigterm : Signal
  sigquit : Signal
  sigchld : Signal
  other_signal : Signal

unfoldable pub set_at : ℕ → Option ℕ → List (Option ℕ) → List (Option ℕ)
set_at i pid [] = []
set_at zero pid (p ∷ ps) = pid ∷ ps
set_at (suc i) pid (p ∷ ps) = p ∷ set_at i pid ps

-- `ngx_spawn_process` in the master, with the answer of fork, none for -1: the value returned.
unfoldable pub spawn_process : ℕ → Option ℕ → Server → Option ℕ × Server
unfolding set_at
spawn_process inum none s = (none, s)
spawn_process inum (some pid) s = (
  some pid,
  record s { processes = set_at inum (some pid) s.processes; last_process = s.last_process + 1 },
)

-- `ngx_start_worker_processes`, over the answers of fork.
unfoldable pub start_worker_processes : ℕ → List (Option ℕ) → Server → Server
unfolding spawn_process
start_worker_processes i [] s = s
start_worker_processes i (fork ∷ forks) s = elim s.role [
  | master ↦ start_worker_processes (i + 1) forks (spawn_process i fork s).1
  | worker ↦ s
]

-- The kills of `ngx_signal_worker_processes` for the first `n` entries.
unfoldable pub kills : ℕ → ℕ → List (Option ℕ) → List (ℕ × ℕ)
kills zero signo ps = []
kills (suc n) signo [] = []
kills (suc n) signo (none ∷ ps) = kills n signo ps
kills (suc n) signo (some pid ∷ ps) = (pid, signo) ∷ kills n signo ps

unfoldable pub signal_worker_processes : ℕ → Server → Server
unfolding kills
signal_worker_processes signo s = record s {
  killed = s.killed ++ kills s.last_process signo s.processes;
}

-- The position of a process among the first `n`, or `n`.
unfoldable pub find_process : ℕ → ℕ → List (Option ℕ) → ℕ
find_process zero pid ps = 0
find_process (suc n) pid [] = suc n
find_process (suc n) pid (none ∷ ps) = suc (find_process n pid ps)
find_process (suc n) pid (some q ∷ ps) =
    let rest = find_process n pid ps in if q == pid then 0 else suc rest

-- `WIFSIGNALED(status) || WEXITSTATUS(status) != 0`
abbrev has_crashed : Ended → Bool
has_crashed e = not (e.term_signal == 0) || not (e.exit_code == 0)

-- A child that has ended: one that crashed is started again.
unfoldable pub reap_one : Option ℕ → Ended → Server → Server
unfolding find_process spawn_process set_at
reap_one fork e s =
    let i = find_process s.last_process e.pid s.processes in
    if has_crashed e
    then (let r = spawn_process i fork s in record r.1 { processes = set_at i r.0 r.1.processes })
    else record s { processes = set_at i none s.processes }

-- The loop of `ngx_reap_worker_processes`, with an answer of fork for each child.
unfoldable pub reap_all : (ℕ → Option ℕ) → List Ended → Server → Server
unfolding reap_one
reap_all fork [] s = s
reap_all fork (e ∷ ended) s = reap_all fork ended (reap_one (fork e.pid) e s)

unfoldable pub reap_worker_processes : (ℕ → Option ℕ) → Server → Server
unfolding reap_all
reap_worker_processes fork s = reap_all fork s.ended (record s { ended = [] })

-- `ngx_process_get_status` waits for every child that has ended, and only logs them.
unfoldable pub process_get_status : Server → Server
process_get_status s = record s { ended = [] }

-- The switch of `ngx_signal_handler`.
unfoldable pub note_signal : Role → Signal → Server → Server
note_signal master sigterm s = record s { stop_event = true }
note_signal master sigquit s = record s { stop_event = true }
note_signal master sigchld s = record s { reap = true }
note_signal master other_signal s = s
note_signal worker sigterm s = record s { stop_event = true }
note_signal worker sigquit s = record s { stop_event = true }
note_signal worker sigchld s = s
note_signal worker other_signal s = s

-- `ngx_signal_handler`
unfoldable pub signal_handler : Signal → Server → Server
unfolding note_signal process_get_status
signal_handler signo s =
    let s' = note_signal s.role signo s in elim signo [ sigchld ↦ process_get_status s' | _ ↦ s' ]

-- A round of the master behind `sigsuspend`, and whether the loop goes on. SIGTERM is 15.
unfoldable pub master_round : (ℕ → Option ℕ) → Server → Bool × Server
unfolding reap_worker_processes signal_worker_processes
master_round fork s =
    let t = if s.reap then record (reap_worker_processes fork s) { reap = false } else s in
    if t.stop_event
    then (false, reap_worker_processes fork (signal_worker_processes 15 t))
    else (true, t)
