-- ===== src/Threads/Queue/Fifo.antt =====
-- The queue of my_nginx_event/include/threadPool/my_lockfreequeue.h is first in, first out, for
-- operations of which none starts before the last has ended.
use mynginx_evnet_module.Base.{
  ℕ, ◌+◌, ◌-◌, ◌%◌, ◌^◌, ◌≡◌, refl, Option, none, some, List, [], ◌∷◌, ◌++◌, arith,
}
use mynginx_evnet_module.Threads.Queue.{
  Queue, set_node, empty_queue, Operation, enqueues, dequeues, operate,
}
use mynginx_evnet_module.Threads.Queue.Chain.{node, Holds}

module _ {T : Type 0} where
  -- What the enqueuing thread leaves, with its node at `new` behind the tail.
  linked : ℕ → Option T → Queue T → Queue T
  linked new e q = record q {
    heap = set_node q.tail_ptr (node e (some new)) q.heap;
    tail_ptr = new;
    tail_tag = (q.tail_tag + 1) % 2 ^ 64;
    size = q.size + 1;
  }

  -- What the dequeuing thread leaves, with `b` the node behind the head.
  unlinked : ℕ → Queue T → Queue T
  unlinked b q = record q {
    heap = set_node q.head_ptr none q.heap;
    head_ptr = b;
    head_tag = (q.head_tag + 1) % 2 ^ 64;
    size = q.size - 1;
  }

  -- The same on a list: the answers of the dequeues, and what is left.
  abbrev pub answers : List (Operation T) → List T → List (Option T)
  answers [] xs = []
  answers (enqueues x ∷ ops) xs = answers ops (xs ++ x ∷ [])
  answers (dequeues ∷ ops) [] = none ∷ answers ops []
  answers (dequeues ∷ ops) (x ∷ xs) = some x ∷ answers ops xs

  abbrev pub left_over : List (Operation T) → List T → List T
  left_over [] xs = xs
  left_over (enqueues x ∷ ops) xs = left_over ops (xs ++ x ∷ [])
  left_over (dequeues ∷ ops) [] = left_over ops []
  left_over (dequeues ∷ ops) (x ∷ xs) = left_over ops xs

  abbrev Agrees : List (Operation T) → Queue T → List T → Type 0
  Agrees ops q xs =
      (q' : Queue T) × (operate ops q ≡ some (answers ops xs, q')) × Holds q' (left_over ops xs)

  pub empty_queue-Holds : Holds {T = T} empty_queue []
  empty_queue-Holds = record {
    first = none;
    chain = (refl, refl);
    below = omega arith;
    counted = refl;
  }
