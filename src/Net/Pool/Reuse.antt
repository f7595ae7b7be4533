-- ===== src/Net/Pool/Reuse.antt =====
-- The life of a connection of my_nginx_event/src/net/my_socket_conn.cpp: handed out, recycled, freed.
use mynginx_evnet_module.Base.{
  ℕ, suc, ◌<◌, ◌≡◌, refl, sym, ap, ◌∙◌, false, some, List, [], ◌∷◌, ◌++◌, arith, append_assoc, ◌==◌,
  length, Bool-cases, ◌⊎◌, inl, inr,
}
use mathlib.Core.Path.{subst}
use mynginx_evnet_module.Net.Pool.{
  Pool, next_sequence, create_connections, no_connections, init_connections, take_free, get_from,
  get_connection, free_connection, is_listed, in_recy_connect_queue, has_waited, sweep,
}
use mynginx_evnet_module.Net.Pool.Ownership.{
  count, count-append, InUse, IsSound, IsValid, length-update_at, IdsFrom-update_at,
  add_connections-IsSound, create_connections-IsValid, take_free-IsValid, free-in-range,
  free_connection-IsSound,
}

pub List-cases : {A : Type 0} (xs : List A) → (xs ≡ []) ⊎ ((y : A) × (ys : List A) × (xs ≡ y ∷ ys))
List-cases [] = inl refl
List-cases (y ∷ ys) = inr (y, ys, refl)

pub get_from-first :
    (fuel sock c : ℕ) (rest : List ℕ) (p : Pool)
    → p.free ≡ c ∷ rest
    → get_connection (suc fuel) sock p ≡ some (c, take_free sock c rest p)
unfolding get_connection get_from
get_from-first fuel sock c rest p e = ap (λ q. get_from (get_connection fuel sock) sock q p) e

pub get_from-empty :
    (fuel sock : ℕ) (p : Pool)
    → p.free ≡ []
    → get_connection (suc fuel) sock p ≡ get_connection fuel sock (create_connections p)
unfolding get_connection get_from
get_from-empty fuel sock p e = ap (λ q. get_from (get_connection fuel sock) sock q p) e

-- With at least one connection made at a time, `get_connection` ends within two rounds of its loop:
-- it hands out a connection that is in no list any more and was not waiting to be recycled, and the
-- pool stays valid.
pub get_connection-IsValid :
    (fuel sock : ℕ) (p : Pool)
    → IsValid p
    → 0 < p.worker_connections
    → (c : ℕ) × (p' : Pool) × (get_connection (suc (suc fuel)) sock p ≡ some (c, p'))
      × IsValid p'
      × InUse c p'
get_connection-IsValid fuel sock p v w = elim (List-cases p.free) [
  | inr (c, rest, e) ↦
      let (v', u) = take_free-IsValid sock c rest p e v in
      (c, take_free sock c rest p, get_from-first (suc fuel) sock c rest p e, v', u)
  | inl e ↦
      let (cv, l) = create_connections-IsValid p v in
      elim (List-cases (create_connections p).free) [
        | inl f ↦ absurd (omega (arith, l, w, ap length f))
        | inr (c, rest, f) ↦
            let (v', u) = take_free-IsValid sock c rest (create_connections p) f cv in
            (
              c,
              take_free sock c rest (create_connections p),
              get_from-empty (suc fuel) sock p e
                  ∙ get_from-first fuel sock c rest (create_connections p) f,
              v',
              u,
            )
      ]
]

pub init_connections-IsValid : (workers wait : ℕ) → IsValid (init_connections workers wait)
unfolding init_connections
init_connections-IsValid workers wait =
    let e : IsSound (no_connections workers wait) = record {
      once = λ x. omega arith;
      in_range = λ x h. refl;
      counted = refl;
      ids = tt;
    } in
    let (s, l, m) = add_connections-IsSound workers 0 (no_connections workers wait) refl e in
    record {
      sound = record {
        once = s.once;
        in_range = s.in_range;
        counted = omega (arith, l, m);
        ids = s.ids;
      };
      total = refl;
    }

pub is_listed-count : (c : ℕ) (cs : List ℕ) → is_listed c cs ≡ false → count c cs ≡ 0
unfolding is_listed
is_listed-count c [] h = refl
is_listed-count c (d ∷ cs) h = ground (arith, is_listed-count c cs, h)

pub in_recy_connect_queue-IsValid :
    (now c : ℕ) (p : Pool)
    → IsValid p
    → c < length p.connections
    → count c p.free ≡ 0
    → IsValid (in_recy_connect_queue now c p)
unfolding in_recy_connect_queue
in_recy_connect_queue-IsValid now c p v l h = elim (Bool-cases (is_listed c p.recycling)) [
  | inl e ↦ rw e v
  | inr e ↦
      let n =
        length-update_at c
          (λ d. record d { in_recy_time = now; curr_sequence = next_sequence d.curr_sequence })
          p.connections in
      let z = is_listed-count c p.recycling e in
      rw e (record {
        sound = record {
          once = λ x. elim (Bool-cases (c == x)) [
            | inl f ↦ ground (arith, count-append x p.recycling (c ∷ []), h, z)
            | inr f ↦ ground (arith, count-append x p.recycling (c ∷ []), v.sound.once x)
          ];
          in_range = λ x k. ground (
            arith,
            count-append x p.recycling (c ∷ []),
            v.sound.in_range x (omega (arith, k, n)),
          );
          counted = v.sound.counted;
          ids = IdsFrom-update_at 0 c _ p.connections (λ d. refl) v.sound.ids;
        };
        total = omega (arith, v.total, n);
      })
]

leaves :
    (held cs : List ℕ) (c : ℕ) (p : Pool)
    → IsSound (record p { recycling = held ++ c ∷ cs })
    → IsSound (record p { recycling = held ++ cs }) × InUse c (record p { recycling = held ++ cs })
leaves held cs c p v =
    let n = count-append c held (c ∷ cs) in
    (
      record {
        once = λ x. omega (arith, v.once x, count-append x held (c ∷ cs), count-append x held cs);
        in_range = λ x h.
            omega (arith, v.in_range x h, count-append x held (c ∷ cs), count-append x held cs);
        counted = v.counted;
        ids = v.ids;
      },
      (
        free-in-range c (record p { recycling = held ++ c ∷ cs }) v (ground (arith, n)),
        ground (arith, n, count-append c held cs, v.once c),
      ),
    )

pub sweep-IsSound :
    (now : ℕ) (held cs : List ℕ) (p : Pool)
    → IsSound (record p { recycling = held ++ cs })
    → IsSound (record (sweep now cs p).1 { recycling = held ++ (sweep now cs p).0 })
unfolding sweep
sweep-IsSound now held [] p v = v
sweep-IsSound now held (c ∷ cs) p v = elim (Bool-cases (has_waited now p c)) [
  | inl e ↦
      let (s, u) = leaves held cs c p v in
      rw (e, sweep)
        (sweep-IsSound now held cs (free_connection c p)
          (free_connection-IsSound c (record p { recycling = held ++ cs }) s u.0 u.1))
  | inr e ↦
      let a =
        subst (λ l. IsSound (record p { recycling = l })) (sym (append_assoc held (c ∷ []) cs)) v in
      rw (e, sweep)
        (subst (λ l. IsSound (record (sweep now cs p).1 { recycling = l }))
          (append_assoc held (c ∷ []) (sweep now cs p).0)
          (sweep-IsSound now (held ++ c ∷ []) cs p a))
]
