-- ===== src/Net/Timer/Order.antt =====
-- The order of the timer queue of my_nginx_event/src/net/my_socket_time.cpp.
use mynginx_evnet_module.Base.{
  ℕ, suc, ◌+◌, ◌-◌, ◌≤◌, ◌<◌, ◌≡◌, refl, ap, ◌∙◌, false, none, some, List, [], ◌∷◌, arith, ltb,
  ◌==◌, length, Bool-cases, ltb→lt, le_of_ltb, lt→ltb, le→ltb, ◌⊎◌, inl, inr,
}
use mathlib.Core.Path.{subst}
use mynginx_evnet_module.Net.Timer.{
  Header, Timers, emplace, earliest, take_first, over_time, take_over_time, add_to_timer_queue,
  remove_first_timer, restart, get_over_time_timer, erase_conn, count_conn, delete_from_timer_queue,
  clear_all,
}

abbrev pub AllFrom : ℕ → List (ℕ × Header) → Type 0
AllFrom k [] = Unit {0}
AllFrom k ((j, h) ∷ q) = (k ≤ j) × AllFrom k q

abbrev pub IsSorted : List (ℕ × Header) → Type 0
IsSorted [] = Unit {0}
IsSorted ((k, h) ∷ q) = AllFrom k q × IsSorted q

-- The value is the first time of the queue; of an empty queue it says nothing.
abbrev pub IsFirstTime : List (ℕ × Header) → ℕ → Type 0
IsFirstTime [] v = Unit {0}
IsFirstTime ((k, h) ∷ q) v = v ≡ k

earliest-IsFirstTime : (q : List (ℕ × Header)) → IsFirstTime q (earliest q)
earliest-IsFirstTime [] = tt
earliest-IsFirstTime ((k, h) ∷ q) = refl

-- The queue is in the order of its times, and the size and the time of the next expiry are right.
pub record IsOrdered (t : Timers) : Type 0 where
  pub sorted : IsSorted t.queue
  pub counted : t.cur_size ≡ length t.queue
  pub next : IsFirstTime t.queue t.timer_value

AllFrom-le : (k j : ℕ) (q : List (ℕ × Header)) → k ≤ j → AllFrom j q → AllFrom k q
AllFrom-le k j [] l a = tt
AllFrom-le k j ((i, h) ∷ q) l a = (omega (arith, a.0), AllFrom-le k j q l a.1)

AllFrom-emplace :
    (i k : ℕ) (h : Header) (q : List (ℕ × Header)) → i ≤ k → AllFrom i q → AllFrom i (emplace k h q)
unfolding emplace
AllFrom-emplace i k h [] l a = (l, tt)
AllFrom-emplace i k h ((j, g) ∷ q) l a = elim (Bool-cases (ltb k j)) [
  | inl e ↦ rw e (l, a)
  | inr e ↦ rw e (a.0, AllFrom-emplace i k h q l a.1)
]

pub emplace-IsSorted :
    (k : ℕ) (h : Header) (q : List (ℕ × Header)) → IsSorted q → IsSorted (emplace k h q)
unfolding emplace
emplace-IsSorted k h [] s = (tt, tt)
emplace-IsSorted k h ((j, g) ∷ q) s = elim (Bool-cases (ltb k j)) [
  | inl e ↦ let l = ltb→lt k j e in rw e ((omega arith, AllFrom-le k j q (omega arith) s.0), s)
  | inr e ↦ rw e (AllFrom-emplace j k h q (le_of_ltb k j e) s.0, emplace-IsSorted k h q s.1)
]

pub length-emplace :
    (k : ℕ) (h : Header) (q : List (ℕ × Header)) → length (emplace k h q) ≡ suc (length q)
unfolding emplace
length-emplace k h [] = refl
length-emplace k h ((j, g) ∷ q) = ground (arith, length-emplace k h q)

AllFrom-erase : (k conn : ℕ) (q : List (ℕ × Header)) → AllFrom k q → AllFrom k (erase_conn conn q)
unfolding erase_conn
AllFrom-erase k conn [] a = tt
AllFrom-erase k conn ((j, g) ∷ q) a = elim (Bool-cases (g.conn == conn)) [
  | inl e ↦ rw e (AllFrom-erase k conn q a.1)
  | inr e ↦ rw e (a.0, AllFrom-erase k conn q a.1)
]

erase-IsSorted : (conn : ℕ) (q : List (ℕ × Header)) → IsSorted q → IsSorted (erase_conn conn q)
unfolding erase_conn
erase-IsSorted conn [] s = tt
erase-IsSorted conn ((j, g) ∷ q) s = elim (Bool-cases (g.conn == conn)) [
  | inl e ↦ rw e (erase-IsSorted conn q s.1)
  | inr e ↦ rw e (AllFrom-erase j conn q s.0, erase-IsSorted conn q s.1)
]

length-erase :
    (conn : ℕ) (q : List (ℕ × Header)) → length (erase_conn conn q) + count_conn conn q ≡ length q
unfolding erase_conn count_conn
length-erase conn [] = refl
length-erase conn ((j, g) ∷ q) = ground (arith, length-erase conn q)

pub add_to_timer_queue-IsOrdered :
    (now : ℕ) (h : Header) (t : Timers) → IsOrdered t → IsOrdered (add_to_timer_queue now h t)
unfolding add_to_timer_queue
add_to_timer_queue-IsOrdered now h t v = record {
  sorted = emplace-IsSorted (now + t.wait_time) h t.queue v.sorted;
  counted = omega (arith, v.counted, length-emplace (now + t.wait_time) h t.queue);
  next = earliest-IsFirstTime (emplace (now + t.wait_time) h t.queue);
}

pub delete_from_timer_queue-IsOrdered :
    (conn : ℕ) (t : Timers) → IsOrdered t → IsOrdered (delete_from_timer_queue conn t)
unfolding delete_from_timer_queue
delete_from_timer_queue-IsOrdered conn t v = record {
  sorted = erase-IsSorted conn t.queue v.sorted;
  counted = omega (arith, v.counted, length-erase conn t.queue);
  next = earliest-IsFirstTime (erase_conn conn t.queue);
}

pub restart-IsOrdered :
    (now : ℕ) (h : Header) (t : Timers)
    → IsSorted t.queue
    → t.cur_size ≡ length t.queue
    → IsSorted (restart now (some h) t).queue
      × ((restart now (some h) t).cur_size ≡ length (restart now (some h) t).queue)
unfolding restart
restart-IsOrdered now h t s c = elim (Bool-cases t.kick) [
  | inl e ↦ rw e (s, c)
  | inr e ↦ rw e (
    emplace-IsSorted (now + t.wait_time) h t.queue s,
    omega (arith, c, length-emplace (now + t.wait_time) h t.queue),
  )
]

-- The timers behind the first entry, which is `h` and has expired.
abbrev pub behind_first : ℕ → Header → List (ℕ × Header) → Timers → Timers
behind_first now h q t =
    let t' = restart now (some h) (record t { queue = q; cur_size = t.cur_size - 1 }) in
    record t' { timer_value = earliest t'.queue }

remove_first_timer-first :
    (t : Timers) (k : ℕ) (h : Header) (q : List (ℕ × Header))
    → t.queue ≡ (k, h) ∷ q
    → IsOrdered t
    → remove_first_timer t ≡ (some h, record t { queue = q; cur_size = t.cur_size - 1 })
unfolding remove_first_timer
remove_first_timer-first t k h q e v =
    let n : (t.cur_size == 0) ≡ false = ground (arith, v.counted, ap length e) in
    rw (n, remove_first_timer) (ap (take_first t) e)

pub get_over_time_timer-first :
    (now : ℕ) (t : Timers) (k : ℕ) (h : Header) (q : List (ℕ × Header))
    → t.queue ≡ (k, h) ∷ q
    → IsOrdered t
    → k ≤ now
    → get_over_time_timer now t ≡ (some h, behind_first now h q t)
unfolding get_over_time_timer take_over_time
get_over_time_timer-first now t k h q e v l =
    ap (over_time now t) e ∙ rw (le→ltb now k l, remove_first_timer-first t k h q e v)

pub get_over_time_timer-early :
    (now : ℕ) (t : Timers) (k : ℕ) (h : Header) (q : List (ℕ × Header))
    → t.queue ≡ (k, h) ∷ q
    → now < k
    → get_over_time_timer now t ≡ (none, t)
unfolding get_over_time_timer
get_over_time_timer-early now t k h q e l = ap (over_time now t) e ∙ rw (lt→ltb now k l)

pub get_over_time_timer-empty :
    (now : ℕ) (t : Timers) → t.queue ≡ [] → get_over_time_timer now t ≡ (none, t)
unfolding get_over_time_timer
get_over_time_timer-empty now t e = ap (over_time now t) e

pub behind_first-IsOrdered :
    (now : ℕ) (t : Timers) (k : ℕ) (h : Header) (q : List (ℕ × Header))
    → t.queue ≡ (k, h) ∷ q
    → IsOrdered t
    → IsOrdered (behind_first now h q t)
behind_first-IsOrdered now t k h q e v =
    let s : IsSorted ((k, h) ∷ q) = subst IsSorted e v.sorted in
    let r =
      restart-IsOrdered now h (record t { queue = q; cur_size = t.cur_size - 1 }) s.1
        (omega (arith, v.counted, ap length e)) in
    record {
      sorted = r.0;
      counted = r.1;
      next = earliest-IsFirstTime (behind_first now h q t).queue;
    }

pub List-cases : {A : Type 0} (xs : List A) → (xs ≡ []) ⊎ ((y : A) × (ys : List A) × (xs ≡ y ∷ ys))
List-cases [] = inl refl
List-cases (y ∷ ys) = inr (y, ys, refl)

pub get_over_time_timer-IsOrdered :
    (now : ℕ) (t : Timers) → IsOrdered t → IsOrdered (get_over_time_timer now t).1
get_over_time_timer-IsOrdered now t v = elim (List-cases t.queue) [
  | inl e ↦ rw (get_over_time_timer-empty now t e) v
  | inr ((k, h), q, e) ↦ elim (Bool-cases (ltb now k)) [
    | inl l ↦ rw (get_over_time_timer-early now t k h q e (ltb→lt now k l)) v
    | inr l ↦
        rw (get_over_time_timer-first now t k h q e v (le_of_ltb now k l))
          (behind_first-IsOrdered now t k h q e v)
  ]
]

-- The calls of the rest of the program on the timer queue.
pub data Call : Type 0 where
  adds : ℕ → Header → Call
  takes : ℕ → Call
  deletes : ℕ → Call
  clears : Call

unfoldable pub step : Timers → Call → Timers
step t (adds now h) = add_to_timer_queue now h t
step t (takes now) = (get_over_time_timer now t).1
step t (deletes conn) = delete_from_timer_queue conn t
step t clears = clear_all t

pub run : Timers → List Call → Timers
unfolding step
run t [] = t
run t (c ∷ cs) = run (step t c) cs

step-IsOrdered : (t : Timers) (c : Call) → IsOrdered t → IsOrdered (step t c)
unfolding step
step-IsOrdered t (adds now h) v = add_to_timer_queue-IsOrdered now h t v
step-IsOrdered t (takes now) v = get_over_time_timer-IsOrdered now t v
step-IsOrdered t (deletes conn) v = delete_from_timer_queue-IsOrdered conn t v
step-IsOrdered t clears v = record { sorted = tt; counted = refl; next = tt }

-- Whatever connections are added, taken when their time is over, and deleted, and whenever the queue
-- is cleared, in whatever order and at whatever times: the queue stays in the order of its times,
-- `m_cur_size_` is its length, and `m_timer_value_` is its first time as long as it has one.
pub run-IsOrdered : (cs : List Call) (t : Timers) → IsOrdered t → IsOrdered (run t cs)
unfolding run
run-IsOrdered [] t v = v
run-IsOrdered (c ∷ cs) t v = run-IsOrdered cs (step t c) (step-IsOrdered t c v)
