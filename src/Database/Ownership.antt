-- ===== src/Database/Ownership.antt =====
-- Who has a connection in my_nginx_event/src/dbconnpool/connectionPool.cpp.
use mynginx_evnet_module.Base.{
  ℕ, ◌+◌, ◌-◌, ◌≤◌, ◌<◌, ◌≡◌, refl, sym, ap, ◌∙◌, Bool, true, false, none, some, List, [], ◌∷◌,
  ◌++◌, arith, if◌then◌else◌, ltb, leb, ◌==◌, Bool-cases, inl, inr, length,
}
use mathlib.Core.Path.{subst}
use mynginx_evnet_module.Net.Pool.Ownership.{count}
use mynginx_evnet_module.Database.{
  Database, add_connection, fill, empty_pool, produce_connection, recycle_queue, resycle_connection,
  get_connection, remove_first, give_back,
}

-- How often a connection stands in the queue.
abbrev queued : ℕ → List (ℕ × ℕ) → ℕ
queued x [] = 0
queued x ((conn, alive) ∷ queue) = (if conn == x then 1 else 0) + queued x queue

queued-append : (x : ℕ) (p q : List (ℕ × ℕ)) → queued x (p ++ q) ≡ queued x p + queued x q
queued-append x [] q = omega arith
queued-append x ((conn, alive) ∷ p) q = omega (arith, queued-append x p q)

-- Each connection is in one place at most, and the next one to be made is in none.
pub record HeldOnce (d : Database) : Type 0 where
  pub once : (x : ℕ) → queued x d.conn_queue + count x d.lent ≤ 1
  pub new : (x : ℕ) → d.next_conn ≤ x → queued x d.conn_queue + count x d.lent ≡ 0

add_connection-HeldOnce :
    (now : ℕ) (connects : Bool) (d : Database)
    → HeldOnce d
    → HeldOnce (add_connection now connects d)
unfolding add_connection
add_connection-HeldOnce now false d v = v
add_connection-HeldOnce now true d v =
    let e = λ (x : ℕ). queued-append x d.conn_queue ((d.next_conn, now) ∷ []) in
    record {
      once = λ x. elim (Bool-cases (d.next_conn == x)) [
        | inl h ↦ ground (arith, e x, h, v.new x)
        | inr h ↦ ground (arith, e x, h, v.once x)
      ];
      new = λ x l. ground (arith, e x, l, v.new x);
    }

fill-HeldOnce :
    (now : ℕ) (answers : List Bool) (d : Database) → HeldOnce d → HeldOnce (fill now answers d)
unfolding fill
fill-HeldOnce now [] d v = v
fill-HeldOnce now (connects ∷ answers) d v =
    fill-HeldOnce now answers (add_connection now connects d)
      (add_connection-HeldOnce now connects d v)

queued-recycle :
    (x now max_size max_idle : ℕ) (q : List (ℕ × ℕ))
    → queued x (recycle_queue now max_size max_idle q) ≤ queued x q
unfolding recycle_queue
queued-recycle x now max_size max_idle [] = omega arith
queued-recycle x now max_size max_idle ((conn, alive) ∷ q) =
    elim (Bool-cases (ltb max_size (length ((conn, alive) ∷ q)))) [
      | inl e ↦ elim (Bool-cases (ltb max_idle (now - alive))) [
        | inl i ↦ rw (e, i) (omega (arith, queued-recycle x now max_size max_idle q))
        | inr i ↦ rw (e, i) (omega arith)
      ]
      | inr e ↦ rw e (omega arith)
    ]

count-remove_first :
    (x conn : ℕ) (cs : List ℕ)
    → 0 < count conn cs
    → (if conn == x then 1 else 0) + count x (remove_first conn cs) ≡ count x cs
unfolding remove_first
count-remove_first x conn [] h = absurd (omega (arith, h))
count-remove_first x conn (c ∷ cs) h = elim (Bool-cases (c == conn)) [
  | inl e ↦ rw e (ground (arith, e))
  | inr e ↦ rw e (ground (arith, h, e, count-remove_first x conn cs))
]

-- One step of the threads: a connection is given back by who has it.
pub data DatabaseStep : Database → Database → Type 0 where
  produces :
      {d : Database} (now : ℕ) (connects : Bool)
      → DatabaseStep d (produce_connection now connects d)
  resycles : {d : Database} (now : ℕ) → DatabaseStep d (resycle_connection now d)
  lends : {d d' : Database} (conn : ℕ) → get_connection d ≡ some (conn, d') → DatabaseStep d d'
  returns :
      {d : Database} (now conn : ℕ) → 0 < count conn d.lent → DatabaseStep d (give_back now conn d)

pub data Reachable (max_size min_size max_idle_time : ℕ) : Database → Type 0 where
  starts :
      (now : ℕ) (answers : List Bool)
      → length answers ≡ min_size
      → Reachable max_size min_size max_idle_time
          (fill now answers (empty_pool max_size min_size max_idle_time))
  goes_on :
      {d d' : Database}
      → Reachable max_size min_size max_idle_time d
      → DatabaseStep d d'
      → Reachable max_size min_size max_idle_time d'

-- The front of the queue goes to a user.
lend_first-HeldOnce :
    (d : Database) (conn alive : ℕ) (queue : List (ℕ × ℕ))
    → d.conn_queue ≡ (conn, alive) ∷ queue
    → HeldOnce d
    → HeldOnce (record d { conn_queue = queue; lent = conn ∷ d.lent })
lend_first-HeldOnce d conn alive queue q v =
    let e = λ (x : ℕ). ap (queued x) q in
    record { once = λ x. omega (arith, e x, v.once x); new = λ x l. omega (arith, e x, v.new x l) }

get_connection-first :
    (d : Database) (conn alive : ℕ) (queue : List (ℕ × ℕ))
    → d.conn_queue ≡ (conn, alive) ∷ queue
    → get_connection d ≡ some (conn, record d { conn_queue = queue; lent = conn ∷ d.lent })
unfolding get_connection
get_connection-first d conn alive queue q = rw (get_connection, q) refl

lend-HeldOnce :
    (d : Database) (conn : ℕ) (d' : Database) (queue : List (ℕ × ℕ))
    → d.conn_queue ≡ queue
    → get_connection d ≡ some (conn, d')
    → HeldOnce d
    → HeldOnce d'
unfolding get_connection
lend-HeldOnce d conn d' [] q e v =
    let none_first : get_connection d ≡ none = rw (get_connection, q) refl in
    absurd (cc (none_first, e))
lend-HeldOnce d conn d' ((c, alive) ∷ queue) q e v =
    let same : some (c, record d { conn_queue = queue; lent = c ∷ d.lent }) ≡ some (conn, d') =
      sym (get_connection-first d c alive queue q) ∙ e in
    subst HeldOnce (cc same) (lend_first-HeldOnce d c alive queue q v)

DatabaseStep-HeldOnce : {d d' : Database} → DatabaseStep d d' → HeldOnce d → HeldOnce d'
unfolding produce_connection resycle_connection get_connection give_back
DatabaseStep-HeldOnce {d} (produces now connects) v =
    elim (Bool-cases (leb d.min_size (length d.conn_queue))) [
      | inl e ↦ rw e v
      | inr e ↦ rw e (add_connection-HeldOnce now connects d v)
    ]
DatabaseStep-HeldOnce {d} (resycles now) v =
    let less = λ (x : ℕ). queued-recycle x now d.max_size d.max_idle_time d.conn_queue in
    record {
      once = λ x. omega (arith, less x, v.once x);
      new = λ x l. omega (arith, less x, v.new x l);
    }
DatabaseStep-HeldOnce {d} {d'} (lends conn e) v = lend-HeldOnce d conn d' d.conn_queue refl e v
DatabaseStep-HeldOnce {d} (returns now conn h) v =
    let e = λ (x : ℕ). queued-append x d.conn_queue ((conn, now) ∷ []) in
    let r = λ (x : ℕ). count-remove_first x conn d.lent h in
    record {
      once = λ x. omega (arith, e x, r x, v.once x);
      new = λ x l. omega (arith, e x, r x, v.new x l);
    }

Reachable-HeldOnce :
    {max_size min_size max_idle_time : ℕ} {d : Database}
    → Reachable max_size min_size max_idle_time d
    → HeldOnce d
Reachable-HeldOnce {max_size} {min_size} {max_idle_time} (starts now answers e) =
    fill-HeldOnce now answers (empty_pool max_size min_size max_idle_time)
      (record { once = λ x. omega arith; new = λ x l. refl })
Reachable-HeldOnce (goes_on r s) = DatabaseStep-HeldOnce s (Reachable-HeldOnce r)

-- In how many places a connection is.
abbrev pub held : ℕ → Database → ℕ
held x d = queued x d.conn_queue + count x d.lent

-- Any number of further steps.
pub data Runs (d : Database) : Database → Type 0 where
  stays : Runs d d
  runs : {d' d'' : Database} → Runs d d' → DatabaseStep d' d'' → Runs d d''

-- A connection that was made before is in no more places than it was.
abbrev NoMore : Database → Database → ℕ → Type 0
NoMore d d' x = (held x d' ≤ held x d) × (d.next_conn ≤ d'.next_conn)

add_connection-NoMore :
    (now : ℕ) (connects : Bool) (d : Database) (x : ℕ)
    → x < d.next_conn
    → NoMore d (add_connection now connects d) x
unfolding add_connection
add_connection-NoMore now false d x l = (omega arith, omega arith)
add_connection-NoMore now true d x l =
    let e = queued-append x d.conn_queue ((d.next_conn, now) ∷ []) in
    (ground (arith, e, l), omega arith)

lend-NoMore :
    (d : Database) (conn : ℕ) (d' : Database) (queue : List (ℕ × ℕ)) (x : ℕ)
    → d.conn_queue ≡ queue
    → get_connection d ≡ some (conn, d')
    → NoMore d d' x
unfolding get_connection
lend-NoMore d conn d' [] x q e =
    let none_first : get_connection d ≡ none = rw (get_connection, q) refl in
    absurd (cc (none_first, e))
lend-NoMore d conn d' ((c, alive) ∷ queue) x q e =
    let first : Database = record d { conn_queue = queue; lent = c ∷ d.lent } in
    let no_more : NoMore d first x = (omega (arith, ap (queued x) q), omega arith) in
    let same : some (c, first) ≡ some (conn, d') =
      sym (get_connection-first d c alive queue q) ∙ e in
    let e' : first ≡ d' = cc same in subst (λ t. NoMore d t x) e' no_more

DatabaseStep-NoMore :
    {d d' : Database} (x : ℕ) → DatabaseStep d d' → x < d.next_conn → NoMore d d' x
unfolding produce_connection resycle_connection give_back
DatabaseStep-NoMore {d} x (produces now connects) l =
    elim (Bool-cases (leb d.min_size (length d.conn_queue))) [
      | inl e ↦ rw e (omega arith, omega arith)
      | inr e ↦ rw e (add_connection-NoMore now connects d x l)
    ]
DatabaseStep-NoMore {d} x (resycles now) l =
    (omega (arith, queued-recycle x now d.max_size d.max_idle_time d.conn_queue), omega arith)
DatabaseStep-NoMore {d} {d'} x (lends conn e) l = lend-NoMore d conn d' d.conn_queue x refl e
DatabaseStep-NoMore {d} x (returns now conn h) l =
    let e = queued-append x d.conn_queue ((conn, now) ∷ []) in
    let r = count-remove_first x conn d.lent h in (omega (arith, e, r), omega arith)

Runs-NoMore : {d d' : Database} (x : ℕ) → Runs d d' → x < d.next_conn → NoMore d d' x
Runs-NoMore x stays l = (omega arith, omega arith)
Runs-NoMore {d} {d'} x (runs {d'' = e} rs s) l =
    let k = Runs-NoMore x rs l in
    let m = DatabaseStep-NoMore x s (omega (arith, l, k.1)) in
    (omega (arith, k.0, m.0), omega (arith, k.1, m.1))

Runs-Reachable :
    {max_size min_size max_idle_time : ℕ} {d d' : Database}
    → Reachable max_size min_size max_idle_time d
    → Runs d d'
    → Reachable max_size min_size max_idle_time d'
Runs-Reachable r stays = r
Runs-Reachable r (runs rs s) = goes_on (Runs-Reachable r rs) s

-- From the constructor on, through any order of the steps of the producer, the recycler and the users,
-- each of whom gives back only a connection it has: no connection is lent to two users, or stands in
-- the queue twice or while it is lent; and a connection that has been made is never in more places
-- later than it is now, so that one that was deleted is not met again.
pub Runs-HeldOnce :
    {max_size min_size max_idle_time : ℕ} {d d' : Database} (x : ℕ)
    → Reachable max_size min_size max_idle_time d
    → Runs d d'
    → x < d.next_conn
    → HeldOnce d' × (held x d' ≤ held x d)
Runs-HeldOnce x r rs l = (Reachable-HeldOnce (Runs-Reachable r rs), (Runs-NoMore x rs l).0)
