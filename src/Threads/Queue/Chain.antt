-- ===== src/Threads/Queue/Chain.antt =====
-- The nodes of the queue in my_nginx_event/include/threadPool/my_lockfreequeue.h, from the head to the
-- tail.
use mynginx_evnet_module.Base.{
  ℕ, ◌≤◌, ◌<◌, ◌≡◌, refl, sym, ap, ◌∙◌, false, Option, none, some, List, [], ◌∷◌, ◌++◌, arith, ◌==◌,
  ==_refl, length, ◌⊎◌, inl, inr,
}
use mynginx_evnet_module.Threads.Queue.{Node, Queue, set_node}

module _ {T : Type 0} where
  abbrev pub node : Option T → Option ℕ → Option (Node T)
  node d next = some (record { data_of = d; next = next })

  -- The nodes from an address on, with the datum of the first, have the elements behind it, and the
  -- last of them is at `last`.
  abbrev pub Chain : (ℕ → Option (Node T)) → ℕ → Option T → List T → ℕ → Type 0
  Chain heap a d [] last = (a ≡ last) × (heap a ≡ node d none)
  Chain heap a d (x ∷ xs) last =
      (b : ℕ) × (heap a ≡ node d (some b)) × (a < b) × Chain heap b (some x) xs last

  -- A queue at rest has these elements.
  pub record Holds (q : Queue T) (xs : List T) : Type 0 where
    pub first : Option T
    pub chain : Chain q.heap q.head_ptr first xs q.tail_ptr
    pub below : q.tail_ptr < q.fresh
    pub counted : q.size ≡ length xs

  pub Chain-le :
      (heap : ℕ → Option (Node T)) (a : ℕ) (d : Option T) (xs : List T) (last : ℕ)
      → Chain heap a d xs last
      → a ≤ last
  Chain-le heap a d [] last c = omega (arith, c.0)
  Chain-le heap a d (x ∷ xs) last c = omega (arith, c.2, Chain-le heap c.0 (some x) xs last c.3)

  pub set_node-other :
      (p : ℕ) (n : Option (Node T)) (heap : ℕ → Option (Node T)) (a : ℕ)
      → (a == p) ≡ false
      → set_node p n heap a ≡ heap a
  set_node-other p n heap a h = rw h refl

  pub set_node-same :
      (p : ℕ) (n : Option (Node T)) (heap : ℕ → Option (Node T)) → set_node p n heap p ≡ n
  set_node-same p n heap = rw (==_refl p) refl

  -- A change of a node in front of a chain or behind it leaves the chain.
  pub Chain-set_node :
      (p : ℕ) (n : Option (Node T)) (heap : ℕ → Option (Node T)) (a : ℕ) (d : Option T)
      (xs : List T) (last : ℕ)
      → Chain heap a d xs last
      → (p < a) ⊎ (last < p)
      → Chain (set_node p n heap) a d xs last
  Chain-set_node p n heap a d [] last c (inl l) =
      (c.0, set_node-other p n heap a (ground (arith, l)) ∙ c.1)
  Chain-set_node p n heap a d [] last c (inr l) =
      (c.0, set_node-other p n heap a (ground (arith, l, c.0)) ∙ c.1)
  Chain-set_node p n heap a d (x ∷ xs) last c (inl l) = (
    c.0,
    set_node-other p n heap a (ground (arith, l)) ∙ c.1,
    c.2,
    Chain-set_node p n heap c.0 (some x) xs last c.3 (inl (omega (arith, l, c.2))),
  )
  Chain-set_node p n heap a d (x ∷ xs) last c (inr l) =
      let le = Chain-le heap c.0 (some x) xs last c.3 in
      (
        c.0,
        set_node-other p n heap a (ground (arith, l, c.2, le)) ∙ c.1,
        c.2,
        Chain-set_node p n heap c.0 (some x) xs last c.3 (inr l),
      )

  -- The last node has no next one.
  pub Chain-last :
      (heap : ℕ → Option (Node T)) (a : ℕ) (d : Option T) (xs : List T) (last : ℕ)
      → Chain heap a d xs last
      → (e : Option T) × (heap last ≡ node e none)
  Chain-last heap a d [] last c = (d, ap heap (sym c.0) ∙ c.1)
  Chain-last heap a d (x ∷ xs) last c = Chain-last heap c.0 (some x) xs last c.3

  -- The last node is linked to a new one.
  pub Chain-link :
      (heap : ℕ → Option (Node T)) (a : ℕ) (d e : Option T) (xs : List T) (x : T) (last new : ℕ)
      → Chain heap a d xs last
      → heap last ≡ node e none
      → heap new ≡ node (some x) none
      → last < new
      → Chain (set_node last (node e (some new)) heap) a d (xs ++ x ∷ []) new
  Chain-link heap a d e [] x last new c l m h =
      let both : node e none ≡ node d none = sym l ∙ ap heap (sym c.0) ∙ c.1 in
      let same : e ≡ d = cc both in
      (
        new,
        ap (set_node last (node e (some new)) heap) c.0
            ∙ set_node-same last (node e (some new)) heap
            ∙ ap (λ z. node z (some new)) same,
        omega (arith, h, c.0),
        (refl, set_node-other last (node e (some new)) heap new (ground (arith, h)) ∙ m),
      )
  Chain-link heap a d e (y ∷ xs) x last new c l m h =
      let le = Chain-le heap c.0 (some y) xs last c.3 in
      (
        c.0,
        set_node-other last (node e (some new)) heap a (ground (arith, c.2, le)) ∙ c.1,
        c.2,
        Chain-link heap c.0 (some y) e xs x last new c.3 l m h,
      )

  pub Chain-first :
      (heap : ℕ → Option (Node T)) (a : ℕ) (d : Option T) (xs : List T) (last : ℕ)
      → Chain heap a d xs last
      → (next : Option ℕ) × (heap a ≡ node d next)
  Chain-first heap a d [] last c = (none, c.1)
  Chain-first heap a d (x ∷ xs) last c = (some c.0, c.1)
