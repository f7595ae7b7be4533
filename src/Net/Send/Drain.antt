-- ===== src/Net/Send/Drain.antt =====
-- The callback for writing of my_nginx_event/src/net/my_http_request_callback.cpp sends what waits, when
-- the kernel takes it in pieces.
use mynginx_evnet_module.Base.{
  ℕ, zero, suc, ◌-◌, ◌≤◌, ◌<◌, ◌≡◌, refl, sym, ap, ◌∙◌, true, false, Option, none, some, List, [],
  ◌∷◌, arith, ◌==◌, ==_iff, Bool-cases, inl, inr, length, map, get_elem?, length-drop,
}
use mynginx_evnet_module.Base.Bytes.{Bytes}
use mynginx_evnet_module.Net.Pool.{Connection}
use mynginx_evnet_module.Net.Send.{Socket}
use mynginx_evnet_module.Net.Send.Calls.{sent, size, sendproc}
use mynginx_evnet_module.Net.Send.Write.{
  unsent, retrieve_sent, finish_write, write_loop, after_sendproc,
}
use mynginx_evnet_module.Net.Send.Stream.{buffer_of, sendbuf, unsent_text, AllValid}
use mynginx_evnet_module.Net.Send.Order.{finish_write-Keeps, retrieve_sent-moves}
use mynginx_evnet_module.Net.Send.Started.{readable-length}

-- The sizes of the pieces in which `n` bytes are taken.
abbrev pub Pieces : ℕ → List ℕ → Type 0
Pieces n [] = n ≡ 0
Pieces n (k ∷ ks) = (0 < k) × (k ≤ n) × Pieces (n - k) ks

unsent-length :
    (o : Option Connection) → AllValid (buffer_of o) → unsent o ≡ length (unsent_text (buffer_of o))
unfolding unsent
unsent-length none v = refl
unsent-length (some d) v = readable-length d.psendbuf v

no_bytes : (xs : Bytes) → length xs ≡ 0 → xs ≡ []
no_bytes [] h = refl
no_bytes (x ∷ xs) h = absurd (omega (arith, h))

-- The two ways in which a round that sends something ends.
module _ (next : Socket → Option Socket) (now c k : ℕ) (s : Socket) where
  turn_done :
      (unsent (get_elem? (retrieve_sent c (suc k) s).pool.connections c) == 0) ≡ true
      → after_sendproc next now c (size (suc k)) s
        ≡ some (finish_write now c (retrieve_sent c (suc k) s))
  unfolding after_sendproc
  turn_done e = rw (after_sendproc, e) refl

  turn_again :
      (unsent (get_elem? (retrieve_sent c (suc k) s).pool.connections c) == 0) ≡ false
      → after_sendproc next now c (size (suc k)) s ≡ next (retrieve_sent c (suc k) s)
  unfolding after_sendproc
  turn_again e = rw (after_sendproc, e) refl

-- The loop comes to its end when the kernel takes what waits.
pub write_loop-drains :
    (now c : ℕ) (ks : List ℕ) (s : Socket)
    → AllValid (sendbuf c s.pool.connections)
    → 0 < length (unsent_text (sendbuf c s.pool.connections))
    → Pieces (length (unsent_text (sendbuf c s.pool.connections))) ks
    → (t : Socket) × (write_loop (suc (length (map sent ks))) now c (map sent ks) s ≡ some t)
      × (unsent_text (sendbuf c t.pool.connections) ≡ [])
unfolding write_loop after_sendproc sendproc
write_loop-drains now c [] s v h p = absurd (omega (arith, h, p))
write_loop-drains now c (zero ∷ ks) s v h p = absurd (omega (arith, p.0))
write_loop-drains now c (suc k ∷ ks) s v h p =
    let t = retrieve_sent c (suc k) s in
    let m = retrieve_sent-moves c (suc k) s v in
    let text = unsent_text (sendbuf c s.pool.connections) in
    let left = unsent_text (sendbuf c t.pool.connections) in
    let rest : length left ≡ length text - suc k = ap length m.1 ∙ length-drop (suc k) text in
    let count = unsent-length (get_elem? t.pool.connections c) m.2 in
    elim (Bool-cases (unsent (get_elem? t.pool.connections c) == 0)) [
      | inl e ↦
          let none_left : length left ≡ 0 =
            sym count ∙ (==_iff (unsent (get_elem? t.pool.connections c)) 0).0 e in
          (
            finish_write now c t,
            turn_done (write_loop (suc (length (map sent ks))) now c (map sent ks)) now c k s e,
            ap unsent_text (finish_write-Keeps now c t).same_buffer ∙ no_bytes left none_left,
          )
      | inr e ↦
          let some_left : 0 < length left = ground (arith, e, count) in
          let pieces : Pieces (length left) ks = rw rest p.2 in
          let again = write_loop-drains now c ks t m.2 some_left pieces in
          (
            again.0,
            turn_again (write_loop (suc (length (map sent ks))) now c (map sent ks)) now c k s e
                ∙ again.1,
            again.2,
          )
    ]
