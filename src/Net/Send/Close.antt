-- ===== src/Net/Send/Close.antt =====
-- Closing a connection more than once: `zdClosesocketProc` of my_nginx_event/src/net/my_socket.cpp may
-- be called by several threads.
use mynginx_evnet_module.Base.{
  ◌<◌, ◌≤◌, append-nil, ℕ, zero, suc, ◌-◌, ◌≡◌, refl, sym, ap, ◌∙◌, true, Option, none, some, List,
  [], ◌∷◌, ◌++◌, arith, if◌then◌else◌, ◌==◌, get_elem?, Bool-cases, Option-cases, inl, inr,
}
use mathlib.Core.Path.{ap₂, subst}
use mynginx_evnet_module.Net.Pool.Ownership.{count, count-append}
use mynginx_evnet_module.Net.Pool.Reuse.{is_listed-count}
use mynginx_evnet_module.Net.Pool.{Connection, Pool, update_at, is_listed, in_recy_connect_queue}
use mynginx_evnet_module.Net.Timer.{
  Header, Timers, earliest, erase_conn, count_conn, delete_from_timer_queue,
}
use mynginx_evnet_module.Net.Send.{
  Socket, FdEffect, epoll_removed, fd_closed, drop_timers, fd_at, fd_of, close_fd, recycle,
  close_socket_proc,
}

-- A connection that has been closed: no timer, no descriptor, waiting to be recycled.
pub record IsClosed (c : ℕ) (s : Socket) : Type 0 where
  pub no_timers : s.kick_timer ≡ true → delete_from_timer_queue c s.timers ≡ s.timers
  no_fd : fd_of c s.pool ≡ none
  pub waits : is_listed c s.pool.recycling ≡ true

erase_conn_idem : (c : ℕ) (q : List (ℕ × Header)) → erase_conn c (erase_conn c q) ≡ erase_conn c q
unfolding erase_conn
erase_conn_idem c [] = refl
erase_conn_idem c ((k, h) ∷ q) = elim (Bool-cases (h.conn == c)) [
  | inl e ↦ rw e (erase_conn_idem c q)
  | inr e ↦ rw (e, erase_conn, e) (ap (λ r. (k, h) ∷ r) (erase_conn_idem c q))
]

count_conn-erase : (c : ℕ) (q : List (ℕ × Header)) → count_conn c (erase_conn c q) ≡ 0
unfolding erase_conn count_conn
count_conn-erase c [] = refl
count_conn-erase c ((k, h) ∷ q) = elim (Bool-cases (h.conn == c)) [
  | inl e ↦ rw e (count_conn-erase c q)
  | inr e ↦ rw (e, count_conn, e) (count_conn-erase c q)
]

delete_idem :
    (c : ℕ) (t : Timers)
    → delete_from_timer_queue c (delete_from_timer_queue c t) ≡ delete_from_timer_queue c t
unfolding delete_from_timer_queue
delete_idem c t =
    rw (erase_conn_idem c t.queue, count_conn-erase c t.queue)
      (ap
        (λ n. record t {
          queue = erase_conn c t.queue;
          cur_size = n;
          timer_value = earliest (erase_conn c t.queue);
        })
        {x = t.cur_size - count_conn c t.queue - 0} {y = t.cur_size - count_conn c t.queue}
        (omega arith))

is_listed-last : (c : ℕ) (cs : List ℕ) → is_listed c (cs ++ c ∷ []) ≡ true
unfolding is_listed
is_listed-last c [] = ground arith
is_listed-last c (d ∷ cs) = ground (arith, is_listed-last c cs)

pub get-update_at :
    (c : ℕ) (f : Connection → Connection) (cs : List Connection)
    → get_elem? (update_at c f cs) c ≡ elim (get_elem? cs c) [ none ↦ none | some d ↦ some (f d) ]
unfolding update_at
get-update_at c f [] = refl
get-update_at zero f (d ∷ cs) = refl
get-update_at (suc c) f (d ∷ cs) = get-update_at c f cs

drop_timers-done :
    (c : ℕ) (s : Socket)
    → (drop_timers c s).kick_timer ≡ true
    → delete_from_timer_queue c (drop_timers c s).timers ≡ (drop_timers c s).timers
unfolding drop_timers
drop_timers-done c s = elim (Bool-cases s.kick_timer) [
  | inl e ↦ rw e (λ h. delete_idem c s.timers)
  | inr e ↦ rw e (λ h. absurd (cc h))
]

drop_timers-keeps :
    (c : ℕ) (s : Socket)
    → ((drop_timers c s).pool ≡ s.pool) × ((drop_timers c s).effects ≡ s.effects)
unfolding drop_timers
drop_timers-keeps c s = elim (Bool-cases s.kick_timer) [
  | inl e ↦ rw e (refl, refl)
  | inr e ↦ rw e (refl, refl)
]

recycle-listed :
    (now c : ℕ) (p : Pool) → is_listed c (in_recy_connect_queue now c p).recycling ≡ true
unfolding in_recy_connect_queue
recycle-listed now c p = elim (Bool-cases (is_listed c p.recycling)) [
  | inl e ↦ rw e e
  | inr e ↦ rw e (is_listed-last c p.recycling)
]

-- A change that opens no descriptor.
fd_of-update_at :
    (c : ℕ) (f : Connection → Connection) (cs : List Connection)
    → ((d : Connection) → get_elem? cs c ≡ some d → (f d).fd ≡ none)
    → fd_at (get_elem? (update_at c f cs) c) ≡ none
fd_of-update_at c f cs k =
    ap fd_at (get-update_at c f cs)
    ∙ elim (Option-cases (get_elem? cs c)) [ inl e ↦ rw e | inr (d, e) ↦ rw e (k d e) ]

recycle-fd :
    (now c : ℕ) (p : Pool) → fd_of c p ≡ none → fd_of c (in_recy_connect_queue now c p) ≡ none
unfolding in_recy_connect_queue
recycle-fd now c p h = elim (Bool-cases (is_listed c p.recycling)) [
  | inl e ↦ rw e h
  | inr e ↦ rw e (fd_of-update_at c _ p.connections (λ d f. sym (ap fd_at f) ∙ h))
]

close_fd-none :
    (c : ℕ) (o : Option ℕ) (s : Socket) → fd_of c s.pool ≡ o → fd_of c (close_fd c o s).pool ≡ none
close_fd-none c none s h = h
close_fd-none c (some fd) s h = fd_of-update_at c _ s.pool.connections (λ d f. refl)

close_fd-keeps :
    (c : ℕ) (o : Option ℕ) (s : Socket)
    → ((close_fd c o s).timers ≡ s.timers) × ((close_fd c o s).kick_timer ≡ s.kick_timer)
close_fd-keeps c none s = (refl, refl)
close_fd-keeps c (some fd) s = (refl, refl)

close_socket_proc-IsClosed : (now c : ℕ) (s : Socket) → IsClosed c (close_socket_proc now c s)
unfolding close_socket_proc
close_socket_proc-IsClosed now c s =
    let s' = drop_timers c s in
    let (t, k) = close_fd-keeps c (fd_of c s'.pool) s' in
    record {
      no_timers = λ h. ap (delete_from_timer_queue c) t ∙ drop_timers-done c s (sym k ∙ h) ∙ sym t;
      no_fd = recycle-fd now c _ (close_fd-none c (fd_of c s'.pool) s' refl);
      waits = recycle-listed now c _;
    }

drop_timers-closed : (c : ℕ) (s : Socket) → IsClosed c s → drop_timers c s ≡ s
unfolding drop_timers
drop_timers-closed c s v = elim (Bool-cases s.kick_timer) [
  | inl e ↦
      ap (λ b. if b then record s { timers = delete_from_timer_queue c s.timers } else s) e
      ∙ ap (λ t. record s { timers = t }) (v.no_timers e)
  | inr e ↦ ap (λ b. if b then record s { timers = delete_from_timer_queue c s.timers } else s) e
]

recycle-closed :
    (now c : ℕ) (p : Pool) → is_listed c p.recycling ≡ true → in_recy_connect_queue now c p ≡ p
unfolding in_recy_connect_queue
recycle-closed now c p h = rw h

close_socket_proc-closed : (now c : ℕ) (s : Socket) → IsClosed c s → close_socket_proc now c s ≡ s
unfolding close_socket_proc
close_socket_proc-closed now c s v =
    ap (λ s'. recycle now c (close_fd c (fd_of c s'.pool) s')) (drop_timers-closed c s v)
    ∙ ap (λ o. recycle now c (close_fd c o s)) v.no_fd
    ∙ ap (λ p. record s { pool = p }) (recycle-closed now c s.pool v.waits)

is_listed-pos : (c : ℕ) (cs : List ℕ) → is_listed c cs ≡ true → 0 < count c cs
unfolding is_listed
is_listed-pos c [] h = cc
is_listed-pos c (d ∷ cs) h = ground (arith, h, is_listed-pos c cs)

recycle-count :
    (now c : ℕ) (p : Pool)
    → count c p.recycling ≤ 1
    → count c (in_recy_connect_queue now c p).recycling ≡ 1
unfolding in_recy_connect_queue
recycle-count now c p h = elim (Bool-cases (is_listed c p.recycling)) [
  | inl e ↦ rw e (omega (arith, h, is_listed-pos c p.recycling e))
  | inr e ↦
      rw e (ground (arith, count-append c p.recycling (c ∷ []), is_listed-count c p.recycling e))
]

-- What is done to the descriptor of a connection that is closed.
abbrev pub closings : Option ℕ → List FdEffect
closings none = []
closings (some fd) = epoll_removed fd ∷ fd_closed fd ∷ []

close_fd-effects :
    (c : ℕ) (o : Option ℕ) (s : Socket)
    → ((close_fd c o s).effects ≡ s.effects ++ closings o)
      × ((close_fd c o s).pool.recycling ≡ s.pool.recycling)
close_fd-effects c none s = (sym (append-nil s.effects), refl)
close_fd-effects c (some fd) s = (refl, refl)

-- Closing a connection that stands at most once in the recycling list: it stands there once then, its
-- descriptor, if it was open, is removed from epoll and closed and is none then, and closing it again,
-- at whatever later time, changes nothing as long as the socket is as it was left.
pub close_socket_proc-once :
    (now later c : ℕ) (s : Socket)
    → count c s.pool.recycling ≤ 1
    → (count c (close_socket_proc now c s).pool.recycling ≡ 1)
      × (fd_of c (close_socket_proc now c s).pool ≡ none)
      × ((close_socket_proc now c s).effects ≡ s.effects ++ closings (fd_of c s.pool))
      × (close_socket_proc later c (close_socket_proc now c s) ≡ close_socket_proc now c s)
unfolding close_socket_proc
close_socket_proc-once now later c s h =
    let s' = drop_timers c s in
    let (same_pool, same_effects) = drop_timers-keeps c s in
    let (effects, recycling) = close_fd-effects c (fd_of c s'.pool) s' in
    let closed = close_socket_proc-IsClosed now c s in
    (
      recycle-count now c _ (
          subst (λ l. count c l ≤ 1) (sym (recycling ∙ ap (λ (p : Pool). p.recycling) same_pool))
            h),
      closed.no_fd,
      effects ∙ ap₂ (λ a o. a ++ closings o) same_effects (ap (fd_of c) same_pool),
      close_socket_proc-closed later c (close_socket_proc now c s) closed,
    )
