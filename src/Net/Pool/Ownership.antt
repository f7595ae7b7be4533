-- ===== src/Net/Pool/Ownership.antt =====
-- Every connection of my_nginx_event/src/net/my_socket_conn.cpp is in one place: free, waiting to be
-- recycled, or in use.
use mynginx_evnet_module.Base.{
  ℕ, zero, suc, ◌+◌, ◌%◌, ◌≤◌, ◌<◌, ◌≡◌, refl, sym, ap, ◌∙◌, some, List, [], ◌∷◌, ◌++◌, arith,
  if◌then◌else◌, ltb, ◌==◌, length, length-append, Bool-cases, inl, inr, ltb→lt, le_of_ltb,
}
use mathlib.Core.Path.{subst}
use mynginx_evnet_module.Net.Pool.{
  Connection, Pool, int_mod, get_one_to_use, put_one_to_free, new_connection, update_at, add_new,
  add_connections, count_total, create_connections, take_free, free_connection,
}

abbrev pub count : ℕ → List ℕ → ℕ
count x [] = 0
count x (y ∷ ys) = (if y == x then 1 else 0) + count x ys

pub count-append : (x : ℕ) (xs ys : List ℕ) → count x (xs ++ ys) ≡ count x xs + count x ys
count-append x [] ys = omega arith
count-append x (y ∷ xs) ys = omega (arith, count-append x xs ys)

-- In how many places a connection is held.
abbrev pub places : ℕ → Pool → ℕ
places x p = count x p.free + count x p.recycling

abbrev pub IdsFrom : ℕ → List Connection → Type 0
IdsFrom n [] = Unit {0}
IdsFrom n (c ∷ cs) = (c.id ≡ n) × IdsFrom (n + 1) cs

pub record IsSound (p : Pool) : Type 0 where
  pub once : (x : ℕ) → places x p ≤ 1
  pub in_range : (x : ℕ) → length p.connections ≤ x → places x p ≡ 0
  pub counted : p.free_count ≡ length p.free % int_mod
  pub ids : IdsFrom 0 p.connections

pub record IsValid (p : Pool) : Type 0 where
  pub sound : IsSound p
  pub total : p.total_count ≡ length p.connections

-- Handed out: a connection of the pool that is in neither list.
abbrev pub InUse : ℕ → Pool → Type 0
InUse c p = (c < length p.connections) × (places c p ≡ 0)

pub length-update_at :
    (i : ℕ) (f : Connection → Connection) (cs : List Connection)
    → length (update_at i f cs) ≡ length cs
unfolding update_at
length-update_at i f [] = refl
length-update_at zero f (c ∷ cs) = refl
length-update_at (suc i) f (c ∷ cs) = omega (arith, length-update_at i f cs)

pub IdsFrom-update_at :
    (n i : ℕ) (f : Connection → Connection) (cs : List Connection)
    → ((c : Connection) → (f c).id ≡ c.id)
    → IdsFrom n cs
    → IdsFrom n (update_at i f cs)
unfolding update_at
IdsFrom-update_at n i f [] k v = tt
IdsFrom-update_at n zero f (c ∷ cs) k v = (k c ∙ v.0, v.1)
IdsFrom-update_at n (suc i) f (c ∷ cs) k v = (v.0, IdsFrom-update_at (n + 1) i f cs k v.1)

IdsFrom-append :
    (n : ℕ) (cs : List Connection) (c : Connection)
    → IdsFrom n cs
    → c.id ≡ n + length cs
    → IdsFrom n (cs ++ c ∷ [])
IdsFrom-append n [] c v e = (omega (arith, e), tt)
IdsFrom-append n (d ∷ cs) c v e = (v.0, IdsFrom-append (n + 1) cs c v.1 (omega (arith, e)))

add_new-IsSound : (p : Pool) → IsSound p → IsSound (add_new (length p.connections) p)
unfolding add_new new_connection
add_new-IsSound p v =
    let n = length p.connections in
    record {
      once = λ x. elim (Bool-cases (n == x)) [
        | inl e ↦ ground (arith, count-append x p.free (n ∷ []), v.in_range x)
        | inr e ↦ ground (arith, count-append x p.free (n ∷ []), v.once x)
      ];
      in_range = λ x h. ground (
        arith,
        count-append x p.free (n ∷ []),
        length-append p.connections (new_connection n ∷ []),
        v.in_range x,
      );
      counted = omega (arith, v.counted, length-append p.free (n ∷ []));
      ids = IdsFrom-append 0 p.connections (new_connection n) v.ids (omega arith);
    }

add_new-lengths :
    (i : ℕ) (p : Pool)
    → (length (add_new i p).connections ≡ length p.connections + 1)
      × (length (add_new i p).free ≡ length p.free + 1)
unfolding add_new
add_new-lengths i p =
    (length-append p.connections (new_connection i ∷ []), length-append p.free (i ∷ []))

pub add_connections-IsSound :
    (n i : ℕ) (p : Pool)
    → i ≡ length p.connections
    → IsSound p
    → IsSound (add_connections n i p)
      × (length (add_connections n i p).free ≡ length p.free + n)
      × (length (add_connections n i p).connections ≡ length p.connections + n)
unfolding add_connections
add_connections-IsSound zero i p e v = (v, omega arith, omega arith)
add_connections-IsSound (suc n) i p e v =
    let a = subst (λ k. IsSound (add_new k p)) (sym e) (add_new-IsSound p v) in
    let b = add_new-lengths i p in
    let (s, l, m) = add_connections-IsSound n (i + 1) (add_new i p) (omega (arith, e, b.0)) a in
    (s, omega (arith, l, b.1), omega (arith, m, b.0))

pub create_connections-IsValid :
    (p : Pool)
    → IsValid p
    → IsValid (create_connections p)
      × (length (create_connections p).free ≡ length p.free + p.worker_connections)
unfolding create_connections count_total
create_connections-IsValid p v =
    let (s, l, m) = add_connections-IsSound p.worker_connections p.total_count p v.total v.sound in
    (
      record {
        sound = record { once = s.once; in_range = s.in_range; counted = s.counted; ids = s.ids };
        total = refl;
      },
      l,
    )

pub free-in-range : (c : ℕ) (p : Pool) → IsSound p → 0 < places c p → c < length p.connections
free-in-range c p v h = elim (Bool-cases (ltb c (length p.connections))) [
  | inl e ↦ ltb→lt c (length p.connections) e
  | inr e ↦ absurd (omega (arith, h, v.in_range c (le_of_ltb c (length p.connections) e)))
]

first-InUse :
    (sock c : ℕ) (rest : List ℕ) (p : Pool)
    → p.free ≡ c ∷ rest
    → IsValid p
    → InUse c (take_free sock c rest p)
unfolding take_free
first-InUse sock c rest p e v =
    let h : 0 < places c p = ground (arith, ap (count c) e) in
    (
      omega (
        arith,
        free-in-range c p v.sound h,
        length-update_at c (get_one_to_use (some sock)) p.connections,
      ),
      ground (arith, ap (count c) e, v.sound.once c),
    )

pub take_free-IsValid :
    (sock c : ℕ) (rest : List ℕ) (p : Pool)
    → p.free ≡ c ∷ rest
    → IsValid p
    → IsValid (take_free sock c rest p) × InUse c (take_free sock c rest p)
unfolding take_free get_one_to_use
take_free-IsValid sock c rest p e v =
    let l = length-update_at c (get_one_to_use (some sock)) p.connections in
    (
      record {
        sound = record {
          once = λ x. ground (arith, ap (count x) e, v.sound.once x);
          in_range =
              λ x h. ground (arith, ap (count x) e, v.sound.in_range x (omega (arith, h, l)));
          counted = omega (arith, v.sound.counted, ap length e);
          ids =
              IdsFrom-update_at 0 c (get_one_to_use (some sock)) p.connections (λ d. refl)
                v.sound.ids;
        };
        total = omega (arith, v.total, l);
      },
      first-InUse sock c rest p e v,
    )

pub free_connection-IsSound :
    (c : ℕ) (p : Pool)
    → IsSound p
    → c < length p.connections
    → places c p ≡ 0
    → IsSound (free_connection c p)
unfolding free_connection
free_connection-IsSound c p v l h =
    let n = length-update_at c put_one_to_free p.connections in
    record {
      once = λ x. elim (Bool-cases (c == x)) [
        | inl e ↦ ground (arith, count-append x p.free (c ∷ []), h)
        | inr e ↦ ground (arith, count-append x p.free (c ∷ []), v.once x)
      ];
      in_range =
          λ x k. ground (arith, count-append x p.free (c ∷ []), v.in_range x (omega (arith, k, n)));
      counted = omega (arith, v.counted, length-append p.free (c ∷ []));
      ids = IdsFrom-update_at 0 c put_one_to_free p.connections (λ d. refl) v.ids;
    }
