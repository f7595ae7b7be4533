-- ===== src/Net/Send/Stream.antt =====
-- What a connection has sent and what waits on it, in the model of my_nginx_event/src/net/my_socket.cpp,
-- and the operations that leave both as they are.
use mynginx_evnet_module.Base.{
  ℕ, zero, suc, ◌≡◌, refl, sym, ap, ◌∙◌, Option, none, some, List, [], ◌∷◌, ◌++◌, append_assoc,
  append-nil, arith, if◌then◌else◌, ◌==◌, Bool-cases, Option-cases, inl, inr, get_elem?,
}
use mynginx_evnet_module.Base.Bytes.{Bytes}
use mynginx_evnet_module.Net.Buffer.{Buffer, contents, IsValid, readable_bytes, peek}
use mynginx_evnet_module.Net.Pool.{
  Connection, Pool, Events, update_at, is_listed, in_recy_connect_queue,
}
use mynginx_evnet_module.Net.Send.{
  Socket, FdEffect, epoll_removed, fd_closed, epoll_added, epoll_modified, sent_bytes, drop_timers,
  close_fd, fd_of, close_socket_proc,
}
use mynginx_evnet_module.Net.Send.Calls.{epoll_mod, modified_events}
use mynginx_evnet_module.Net.Send.Thread.{taken, text_of}

-- The bytes of a connection that the kernel has taken, in order.
unfoldable pub wire : ℕ → List FdEffect → Bytes
wire c [] = []
wire c (sent_bytes d bytes ∷ effects) =
    let rest = wire c effects in if d == c then bytes ++ rest else rest
wire c (_ ∷ effects) = wire c effects

wire-append : (c : ℕ) (as' bs : List FdEffect) → wire c (as' ++ bs) ≡ wire c as' ++ wire c bs
unfolding wire
wire-append c [] bs = refl
wire-append c (epoll_removed d ∷ es) bs = wire-append c es bs
wire-append c (fd_closed d ∷ es) bs = wire-append c es bs
wire-append c (epoll_added d m ∷ es) bs = wire-append c es bs
wire-append c (epoll_modified d m ∷ es) bs = wire-append c es bs
wire-append c (sent_bytes d bytes ∷ es) bs = elim (Bool-cases (d == c)) [
  | inl e ↦
      rw e
        (ap (◌++◌ bytes) (wire-append c es bs) ∙ sym (append_assoc bytes (wire c es) (wire c bs)))
  | inr e ↦ rw e (wire-append c es bs)
]

-- The buffer of a connection.
abbrev pub buffer_of : Option Connection → Option Buffer
buffer_of none = none
buffer_of (some d) = some d.psendbuf

abbrev pub sendbuf : ℕ → List Connection → Option Buffer
sendbuf c cs = buffer_of (get_elem? cs c)

abbrev pub unsent_text : Option Buffer → Bytes
unsent_text none = []
unsent_text (some b) = contents b

abbrev pub AllValid : Option Buffer → Type 0
AllValid none = Unit {0}
AllValid (some b) = IsValid b

-- What has been sent on a connection, and behind it what waits.
unfoldable pub stream : ℕ → Socket → Bytes
unfolding wire
stream c s = wire c s.effects ++ unsent_text (sendbuf c s.pool.connections)

-- The second socket has the buffer of the first, and nothing more has been sent.
pub record Keeps (c : ℕ) (s s' : Socket) : Type 0 where
  pub same_buffer : sendbuf c s'.pool.connections ≡ sendbuf c s.pool.connections
  pub same_wire : wire c s'.effects ≡ wire c s.effects

pub Keeps-trans : (c : ℕ) (s t u : Socket) → Keeps c s t → Keeps c t u → Keeps c s u
Keeps-trans c s t u h k = record {
  same_buffer = k.same_buffer ∙ h.same_buffer;
  same_wire = k.same_wire ∙ h.same_wire;
}

pub stream-Keeps : (c : ℕ) (s s' : Socket) → Keeps c s s' → stream c s' ≡ stream c s
unfolding stream
stream-Keeps c s s' k =
    ap (λ w. w ++ unsent_text (sendbuf c s'.pool.connections)) k.same_wire
    ∙ ap (λ b. wire c s.effects ++ unsent_text b) k.same_buffer

AllValid-Keeps :
    (c : ℕ) (s s' : Socket)
    → Keeps c s s'
    → AllValid (sendbuf c s.pool.connections)
    → AllValid (sendbuf c s'.pool.connections)
AllValid-Keeps c s s' k v = rw k.same_buffer v

sendbuf-update_at :
    (c d : ℕ) (f : Connection → Connection) (cs : List Connection)
    → ((e : Connection) → (f e).psendbuf ≡ e.psendbuf)
    → sendbuf c (update_at d f cs) ≡ sendbuf c cs
unfolding update_at
sendbuf-update_at c d f [] k = refl
sendbuf-update_at zero zero f (e ∷ cs) k = ap some (k e)
sendbuf-update_at (suc c) zero f (e ∷ cs) k = refl
sendbuf-update_at zero (suc d) f (e ∷ cs) k = refl
sendbuf-update_at (suc c) (suc d) f (e ∷ cs) k = sendbuf-update_at c d f cs k

recycle-Keeps :
    (now c d : ℕ) (p : Pool)
    → sendbuf c (in_recy_connect_queue now d p).connections ≡ sendbuf c p.connections
unfolding in_recy_connect_queue
recycle-Keeps now c d p = elim (Bool-cases (is_listed d p.recycling)) [
  | inl e ↦ rw e refl
  | inr e ↦ rw e (sendbuf-update_at c d _ p.connections (λ e. refl))
]

close_fd-Keeps : (c d : ℕ) (o : Option ℕ) (s : Socket) → Keeps c s (close_fd d o s)
unfolding wire
close_fd-Keeps c d none s = record { same_buffer = refl; same_wire = refl }
close_fd-Keeps c d (some fd) s = record {
  same_buffer = sendbuf-update_at c d _ s.pool.connections (λ e. refl);
  same_wire =
      wire-append c s.effects (epoll_removed fd ∷ fd_closed fd ∷ [])
      ∙ append-nil (wire c s.effects);
}

drop_timers-Keeps : (c d : ℕ) (s : Socket) → Keeps c s (drop_timers d s)
unfolding drop_timers
drop_timers-Keeps c d s = elim (Bool-cases s.kick_timer) [
  | inl e ↦ rw e (record { same_buffer = refl; same_wire = refl })
  | inr e ↦ rw e (record { same_buffer = refl; same_wire = refl })
]

pub close_socket_proc-Keeps : (now c d : ℕ) (s : Socket) → Keeps c s (close_socket_proc now d s)
unfolding close_socket_proc
close_socket_proc-Keeps now c d s =
    let t = drop_timers d s in
    let u = close_fd d (fd_of d t.pool) t in
    Keeps-trans c s t (close_socket_proc now d s) (drop_timers-Keeps c d s) (
      Keeps-trans c t u (close_socket_proc now d s) (close_fd-Keeps c d (fd_of d t.pool) t)
        (record { same_buffer = recycle-Keeps now c d u.pool; same_wire = refl }))

pub epoll_mod-Keeps :
    (c : ℕ) (action : ℕ) (flag : Events) (d : ℕ) (s : Socket)
    → Keeps c s (epoll_mod action flag d s)
unfolding epoll_mod wire
epoll_mod-Keeps c action flag d s = elim (Option-cases (get_elem? s.pool.connections d)) [
  | inl e ↦ rw (epoll_mod, e) (record { same_buffer = refl; same_wire = refl })
  | inr (x, e) ↦
      rw (epoll_mod, e)
        (record {
          same_buffer = sendbuf-update_at c d _ s.pool.connections (λ y. refl);
          same_wire =
              wire-append c s.effects (epoll_modified d (modified_events action flag x.events) ∷ [])
              ∙ append-nil (wire c s.effects);
        })
]

abbrev pub on_buffer : (Buffer → Buffer) → Option Buffer → Option Buffer
on_buffer g none = none
on_buffer g (some b) = some (g b)

pub sendbuf-change :
    (c : ℕ) (g : Buffer → Buffer) (f : Connection → Connection) (cs : List Connection)
    → ((e : Connection) → (f e).psendbuf ≡ g e.psendbuf)
    → sendbuf c (update_at c f cs) ≡ on_buffer g (sendbuf c cs)
unfolding update_at
sendbuf-change c g f [] k = refl
sendbuf-change zero g f (e ∷ cs) k = ap some (k e)
sendbuf-change (suc c) g f (e ∷ cs) k = sendbuf-change c g f cs k

pub text_of-contents : (b : Buffer) → text_of b ≡ contents b
unfolding peek readable_bytes
text_of-contents b = refl

pub wire-taken :
    (c : ℕ) (bytes : Bytes) (s : Socket)
    → wire c (taken c bytes s).effects ≡ wire c s.effects ++ bytes
unfolding wire
wire-taken c bytes s =
    wire-append c s.effects (sent_bytes c bytes ∷ [])
    ∙ ap (◌++◌ (wire c s.effects)) (ground (arith, append-nil bytes))
