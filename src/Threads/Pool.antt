-- ===== src/Threads/Pool.antt =====
-- `CThreadPool` of my_nginx_event/src/threadPool/my_threadpool.cpp: putting a message into the queue of
-- received messages, and a round of a worker thread. The queue is used by one thread at a time here,
-- and what is done with a message is an argument. Making and joining threads, and waking them, are
-- system calls.
use mynginx_evnet_module.Base.{
  ℕ, ◌+◌, ◌-◌, Bool, true, Option, none, some, ◌==◌, if◌then◌else◌, ltb,
}
use mynginx_evnet_module.Base.Bytes.{is_empty}
use mynginx_evnet_module.Net.Send.Write.{RecvMessage}
use mynginx_evnet_module.Threads.Queue.{Queue, enqueue, try_dequeue}

pub record ThreadPool : Type 0 where
  pub recv_queue : Queue RecvMessage
  pub recv_count : ℕ
  pub thread_num : ℕ
  pub running_num : ℕ
  pub last_emg_time : ℕ
  pub is_shutdown : Bool

-- `Call`: the time of the last warning that all threads are at work.
unfoldable pub call : ℕ → ThreadPool → ThreadPool
call now p =
    if p.thread_num == p.running_num
    then (if ltb 10 (now - p.last_emg_time) then record p { last_emg_time = now } else p)
    else p

-- `inMsgRecvQueueAndSignal`, none when the queue faults.
unfoldable pub in_msg_recv_queue_and_signal : ℕ → RecvMessage → ThreadPool → Option ThreadPool
unfolding enqueue call
in_msg_recv_queue_and_signal now m p = elim (enqueue m p.recv_queue) [
  | none ↦ none
  | some q ↦ some (call now (record p { recv_queue = q; recv_count = p.recv_count + 1 }))
]

-- `StopAll`, as far as it changes the state.
abbrev pub stop_all : ThreadPool → ThreadPool
stop_all p = record p { is_shutdown = true }

module _ {S : Type 0} (thread_recv_proc : RecvMessage → S → S) where
  -- A message that was taken. The count of running threads goes up and down again around this.
  unfoldable pub handle_message : RecvMessage → ThreadPool → S → ThreadPool × S
  handle_message m p s =
      let taken = record p { recv_count = p.recv_count - 1 } in
      (taken, if is_empty m.bytes then s else thread_recv_proc m s)

  -- A round of `ThreadFunc`, none when the queue faults.
  unfoldable pub thread_round : ThreadPool → S → Option (ThreadPool × S)
  unfolding try_dequeue handle_message
  thread_round p s = if p.is_shutdown then some (p, s) else elim (try_dequeue p.recv_queue) [
    | none ↦ none
    | some r ↦
        let p' = record p { recv_queue = r.1 } in
        elim r.0 [ none ↦ some (p', s) | some m ↦ some (handle_message m p' s) ]
  ]
