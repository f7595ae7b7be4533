-- ===== src/Threads/Queue.antt =====
-- `LockFreeQueue` of my_nginx_event/include/threadPool/my_lockfreequeue.h. Nodes lie at addresses that are
-- given out once each. A thread is at one of the atomic accesses of its operation, with the local
-- variables it has read, and a step makes that access; a step is told whether a weak exchange fails
-- without a reason. Reading a node that was deleted is a fault.
pub mod Chain
pub mod Fifo
use mynginx_evnet_module.Base.{
  ℕ, zero, suc, ◌+◌, ◌-◌, ◌%◌, ◌^◌, Bool, true, false, Option, none, some, List, [], ◌∷◌, ◌==◌,
  ◌&&◌, not, if◌then◌else◌,
}

-- A node; the first one has no data.
pub record Node (T : Type 0) : Type 0 where
  pub data_of : Option T
  pub next : Option ℕ

pub record Queue (T : Type 0) : Type 0 where
  pub heap : ℕ → Option (Node T)
  pub fresh : ℕ
  pub head_ptr : ℕ
  pub head_tag : ℕ
  pub tail_ptr : ℕ
  pub tail_tag : ℕ
  pub size : ℕ

-- Where a thread is in `Enqueue` behind the making of its node, and in `TryDequeue`.
pub data Enqueue : Type 0 where
  load_tail : Enqueue
  load_tail_tag : ℕ → Enqueue
  load_tail_next : ℕ → ℕ → Enqueue
  check_tail : ℕ → ℕ → Option ℕ → Enqueue
  link_node : ℕ → ℕ → Enqueue
  help_enqueue : ℕ → ℕ → Enqueue
  help_enqueue_tag : Enqueue
  count_up : ℕ → Enqueue
  store_tail : ℕ → Enqueue
  store_tail_tag : ℕ → Enqueue
  enqueued : Enqueue
  enqueue_fault : Enqueue

pub data TryDequeue (T : Type 0) : Type 0 where
  load_head : TryDequeue T
  load_head_tag : ℕ → TryDequeue T
  load_last : ℕ → ℕ → TryDequeue T
  load_head_next : ℕ → ℕ → ℕ → TryDequeue T
  check_head : ℕ → ℕ → ℕ → Option ℕ → TryDequeue T
  help_dequeue : ℕ → ℕ → TryDequeue T
  help_dequeue_tag : TryDequeue T
  read_data : ℕ → ℕ → ℕ → TryDequeue T
  move_head : ℕ → ℕ → ℕ → T → TryDequeue T
  store_head_tag : ℕ → ℕ → T → TryDequeue T
  delete_node : ℕ → T → TryDequeue T
  count_down : T → TryDequeue T
  dequeued : T → TryDequeue T
  found_empty : TryDequeue T
  dequeue_fault : TryDequeue T

abbrev pub check_next : ℕ → ℕ → Option ℕ → Enqueue
check_next p tag none = link_node p tag
check_next p tag (some n) = help_enqueue p n

module _ {T : Type 0} where
  abbrev pub set_node : ℕ → Option (Node T) → (ℕ → Option (Node T)) → ℕ → Option (Node T)
  set_node p n heap a = if a == p then n else heap a

  -- The constructor: one node without data.
  abbrev pub empty_queue : Queue T
  empty_queue = record {
    heap = set_node 0 (some (record { data_of = none; next = none })) (λ a. none);
    fresh = 1;
    head_ptr = 0;
    head_tag = 0;
    tail_ptr = 0;
    tail_tag = 0;
    size = 0;
  }

  -- `new Node(msg)`: the node is at the address that was fresh.
  unfoldable pub new_node : T → Queue T → Queue T
  new_node msg q = record q {
    heap = set_node q.fresh (some (record { data_of = some msg; next = none })) q.heap;
    fresh = q.fresh + 1;
  }

  abbrev pub next_of : Option (Node T) → (Option ℕ → Enqueue) → Enqueue
  next_of none k = enqueue_fault
  next_of (some n) k = k n.next

  -- The exchange of a next pointer that is null.
  unfoldable pub link : Bool → ℕ → ℕ → ℕ → Option (Node T) → Queue T → Enqueue × Queue T
  link fails new p tag none q = (enqueue_fault, q)
  link fails new p tag (some n) q = elim n.next [
    | some b ↦ (load_tail, q)
    | none ↦ if fails then (load_tail, q) else (
      count_up tag,
      record q { heap = set_node p (some (record n { next = some new })) q.heap },
    )
  ]

  -- The exchange of the tail for the node behind it.
  abbrev pub advance_tail : Bool → ℕ → ℕ → Queue T → Queue T
  advance_tail fails p n q = if q.tail_ptr == p && not fails then record q { tail_ptr = n } else q

  -- An access of `Enqueue` for the node at `new`.
  unfoldable pub enqueue_step : Bool → ℕ → Enqueue → Queue T → Enqueue × Queue T
  unfolding link
  enqueue_step fails new load_tail q = (load_tail_tag q.tail_ptr, q)
  enqueue_step fails new (load_tail_tag p) q = (load_tail_next p q.tail_tag, q)
  enqueue_step fails new (load_tail_next p tag) q = (next_of (q.heap p) (check_tail p tag), q)
  enqueue_step fails new (check_tail p tag next) q =
      (if q.tail_ptr == p then check_next p tag next else load_tail, q)
  enqueue_step fails new (link_node p tag) q = link fails new p tag (q.heap p) q
  enqueue_step fails new (help_enqueue p n) q = (help_enqueue_tag, advance_tail fails p n q)
  enqueue_step fails new help_enqueue_tag q =
      (load_tail, record q { tail_tag = (q.tail_tag + 1) % 2 ^ 64 })
  enqueue_step fails new (count_up tag) q = (store_tail tag, record q { size = q.size + 1 })
  enqueue_step fails new (store_tail tag) q = (store_tail_tag tag, record q { tail_ptr = new })
  enqueue_step fails new (store_tail_tag tag) q =
      (enqueued, record q { tail_tag = (tag + 1) % 2 ^ 64 })
  enqueue_step fails new enqueued q = (enqueued, q)
  enqueue_step fails new enqueue_fault q = (enqueue_fault, q)

  abbrev pub head_next_of : Option (Node T) → (Option ℕ → TryDequeue T) → TryDequeue T
  head_next_of none k = dequeue_fault
  head_next_of (some n) k = k n.next

  -- `msg = next->data` of a node that has data.
  abbrev pub data_at : Option (Node T) → (T → TryDequeue T) → TryDequeue T
  data_at none k = dequeue_fault
  data_at (some n) k = elim n.data_of [ none ↦ dequeue_fault | some x ↦ k x ]

  -- What the test of the head goes on with; a null next behind another tail is read through.
  abbrev pub decide : ℕ → ℕ → ℕ → Option ℕ → TryDequeue T
  decide h tag t none = if h == t then found_empty else dequeue_fault
  decide h tag t (some n) = if h == t then help_dequeue t n else read_data h tag n

  -- An access of `TryDequeue`. The exchange that helps is a strong one.
  unfoldable pub dequeue_step : Bool → TryDequeue T → Queue T → TryDequeue T × Queue T
  dequeue_step fails load_head q = (load_head_tag q.head_ptr, q)
  dequeue_step fails (load_head_tag h) q = (load_last h q.head_tag, q)
  dequeue_step fails (load_last h tag) q = (load_head_next h tag q.tail_ptr, q)
  dequeue_step fails (load_head_next h tag t) q = (head_next_of (q.heap h) (check_head h tag t), q)
  dequeue_step fails (check_head h tag t next) q =
      (if q.head_ptr == h then decide h tag t next else load_head, q)
  dequeue_step fails (help_dequeue t n) q = (help_dequeue_tag, advance_tail false t n q)
  dequeue_step fails help_dequeue_tag q =
      (load_head, record q { tail_tag = (q.tail_tag + 1) % 2 ^ 64 })
  dequeue_step fails (read_data h tag n) q = (data_at (q.heap n) (move_head h tag n), q)
  dequeue_step fails (move_head h tag n x) q =
      if q.head_ptr == h && not fails
      then (store_head_tag h tag x, record q { head_ptr = n })
      else (load_head, q)
  dequeue_step fails (store_head_tag h tag x) q =
      (delete_node h x, record q { head_tag = (tag + 1) % 2 ^ 64 })
  dequeue_step fails (delete_node h x) q =
      (count_down x, record q { heap = set_node h none q.heap })
  dequeue_step fails (count_down x) q = (dequeued x, record q { size = q.size - 1 })
  dequeue_step fails (dequeued x) q = (dequeued x, q)
  dequeue_step fails found_empty q = (found_empty, q)
  dequeue_step fails dequeue_fault q = (dequeue_fault, q)

  -- A thread that makes `n` steps with no other thread between them and no exchange that fails
  -- without a reason.
  unfoldable pub enqueue_alone : ℕ → ℕ → Enqueue → Queue T → Enqueue × Queue T
  unfolding enqueue_step
  enqueue_alone zero new e q = (e, q)
  enqueue_alone (suc n) new e q = let r = enqueue_step false new e q in enqueue_alone n new r.0 r.1

  unfoldable pub dequeue_alone : ℕ → TryDequeue T → Queue T → TryDequeue T × Queue T
  unfolding dequeue_step
  dequeue_alone zero d q = (d, q)
  dequeue_alone (suc n) d q = let r = dequeue_step false d q in dequeue_alone n r.0 r.1

  -- The operations of a client that makes one after the other; none when one of them is not done in
  -- its steps or faults.
  abbrev pub finish_enqueue : Enqueue × Queue T → Option (Queue T)
  finish_enqueue r = elim r.0 [ enqueued ↦ some r.1 | _ ↦ none ]

  abbrev pub finish_dequeue : TryDequeue T × Queue T → Option (Option T × Queue T)
  finish_dequeue r = elim r.0 [
    | dequeued x ↦ some (some x, r.1)
    | found_empty ↦ some (none, r.1)
    | _ ↦ none
  ]

pub data Operation (T : Type 0) : Type 0 where
  enqueues : T → Operation T
  dequeues : Operation T

module _ {T : Type 0} where
  unfoldable pub enqueue : T → Queue T → Option (Queue T)
  unfolding enqueue_alone new_node
  enqueue x q = finish_enqueue (enqueue_alone 8 q.fresh load_tail (new_node x q))

  unfoldable pub try_dequeue : Queue T → Option (Option T × Queue T)
  unfolding dequeue_alone
  try_dequeue q = finish_dequeue (dequeue_alone 10 load_head q)

  unfoldable pub operate : List (Operation T) → Queue T → Option (List (Option T) × Queue T)
  unfolding enqueue try_dequeue
  operate [] q = some ([], q)
  operate (enqueues x ∷ ops) q = elim (enqueue x q) [ none ↦ none | some q' ↦ operate ops q' ]
  operate (dequeues ∷ ops) q = elim (try_dequeue q) [
    | none ↦ none
    | some r ↦ elim (operate ops r.1) [ none ↦ none | some s ↦ some (r.0 ∷ s.0, s.1) ]
  ]
