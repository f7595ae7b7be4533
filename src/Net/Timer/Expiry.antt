-- ===== src/Net/Timer/Expiry.antt =====
-- The inner loop of `ServerTimerQueueMonitorThread` of my_nginx_event/src/net/my_socket_time.cpp:
-- it ends, and takes what has expired.
use mynginx_evnet_module.Base.{
  ℕ, zero, suc, ◌+◌, ◌-◌, ◌<◌, ◌≡◌, refl, sym, ap, ◌∙◌, true, Option, none, some, List, [], ◌∷◌,
  arith, if◌then◌else◌, ltb, leb, length, Bool-cases, ltb→lt, le_of_ltb, le→leb, lt→not_leb, ◌⊎◌,
  inl, inr,
}
use mathlib.Core.Path.{subst}
use mynginx_evnet_module.Net.Timer.{
  Header, Timers, emplace, restart, get_over_time_timer, collect_after, put_first, collect_expired,
}
use mynginx_evnet_module.Net.Timer.Order.{
  AllFrom, IsSorted, IsOrdered, behind_first, get_over_time_timer-first, get_over_time_timer-early,
  get_over_time_timer-empty, behind_first-IsOrdered, List-cases,
}

-- The headers whose time is not after `now`.
abbrev pub due : ℕ → List (ℕ × Header) → List Header
due now [] = []
due now ((k, h) ∷ q) = if leb k now then h ∷ due now q else due now q

due-emplace :
    (now k : ℕ) (h : Header) (q : List (ℕ × Header)) → now < k → due now (emplace k h q) ≡ due now q
unfolding emplace
due-emplace now k h [] l = rw (lt→not_leb k now l)
due-emplace now k h ((j, g) ∷ q) l = elim (Bool-cases (ltb k j)) [
  | inl e ↦ rw (e, lt→not_leb k now l)
  | inr e ↦ rw (e, due-emplace now k h q l)
]

due-later : (now k : ℕ) (q : List (ℕ × Header)) → now < k → AllFrom k q → due now q ≡ []
due-later now k [] l a = refl
due-later now k ((j, g) ∷ q) l a =
    rw (lt→not_leb j now (omega (arith, a.0))) (due-later now k q l a.1)

-- A timer that starts again does so after now.
abbrev pub Ends : Timers → Type 0
Ends t = (t.kick ≡ true) ⊎ (0 < t.wait_time)

restart-keeps :
    (now : ℕ) (o : Option Header) (t : Timers)
    → ((restart now o t).kick ≡ t.kick) × ((restart now o t).wait_time ≡ t.wait_time)
unfolding restart
restart-keeps now none t = (refl, refl)
restart-keeps now (some h) t = elim (Bool-cases t.kick) [
  | inl e ↦ rw e (refl, refl)
  | inr e ↦ rw e (refl, refl)
]

due-behind_first :
    (now : ℕ) (h : Header) (q : List (ℕ × Header)) (t : Timers)
    → Ends t
    → due now (behind_first now h q t).queue ≡ due now q
unfolding restart
due-behind_first now h q t (inl k) = rw k
due-behind_first now h q t (inr w) = elim (Bool-cases t.kick) [
  | inl k ↦ rw k
  | inr k ↦ rw k (due-emplace now (now + t.wait_time) h q (omega (arith, w)))
]

behind_first-Ends :
    (now : ℕ) (h : Header) (q : List (ℕ × Header)) (t : Timers)
    → Ends t
    → Ends (behind_first now h q t)
behind_first-Ends now h q t (inl k) =
    inl ((restart-keeps now (some h) (record t { queue = q; cur_size = t.cur_size - 1 })).0 ∙ k)
behind_first-Ends now h q t (inr w) = inr (
    omega (
      arith,
      w,
      (restart-keeps now (some h) (record t { queue = q; cur_size = t.cur_size - 1 })).1,
    ))

collect_expired-none :
    (now fuel : ℕ) (t : Timers)
    → get_over_time_timer now t ≡ (none, t)
    → collect_expired now (suc fuel) t ≡ some ([], t)
unfolding collect_expired
collect_expired-none now fuel t e = ap (collect_after (collect_expired now fuel)) e

-- When a timer that has expired is either dropped or started again with a positive wait, the loop
-- that collects expired timers ends within one round more than there are such timers: it returns
-- exactly the headers whose time is not after `now`, earliest first, leaves none of them due, and
-- keeps the queue in order.
pub collect_expired-due :
    (now fuel : ℕ) (t : Timers)
    → IsOrdered t
    → Ends t
    → length (due now t.queue) < fuel
    → (t' : Timers) × (collect_expired now fuel t ≡ some (due now t.queue, t'))
      × (due now t'.queue ≡ [])
      × IsOrdered t'
unfolding collect_expired
collect_expired-due now zero t v w l = absurd (omega arith)
collect_expired-due now (suc fuel) t v w l = elim (List-cases t.queue) [
  | inl e ↦ (
    t,
    collect_expired-none now fuel t (get_over_time_timer-empty now t e)
        ∙ ap (λ q. some (due now q, t)) (sym e),
    ap (due now) e,
    v,
  )
  | inr ((k, h), q, e) ↦ elim (Bool-cases (ltb now k)) [
    | inl x ↦
        let lt = ltb→lt now k x in
        let s : IsSorted ((k, h) ∷ q) = subst IsSorted e v.sorted in
        let d : due now t.queue ≡ [] =
          ap (due now) e ∙ rw (lt→not_leb k now lt) (due-later now k q lt s.0) in
        (
          t,
          collect_expired-none now fuel t (get_over_time_timer-early now t k h q e lt)
              ∙ ap (λ hs. some (hs, t)) (sym d),
          d,
          v,
        )
    | inr x ↦
        let le = le_of_ltb now k x in
        let d : due now t.queue ≡ h ∷ due now q = ap (due now) e ∙ rw (le→leb k now le) in
        let b = due-behind_first now h q t w in
        let (t', c, n, o) =
          collect_expired-due now fuel (behind_first now h q t)
            (behind_first-IsOrdered now t k h q e v) (behind_first-Ends now h q t w)
            (omega (arith, ap length d, ap length b)) in
        (
          t',
          ap (collect_after (collect_expired now fuel))
                (get_over_time_timer-first now t k h q e v le)
              ∙ ap (put_first h) c
              ∙ ap (λ hs. some (hs, t')) (ap (λ hs. h ∷ hs) b ∙ sym d),
          n,
          o,
        )
  ]
]
