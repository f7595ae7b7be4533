-- ===== src/Middleware/Bucket/Bound.antt =====
-- How many tokens `TokenBucket` of
-- my_nginx_event/src/middleware/Rate_Limiting_Algorithm/TokenBucket.cpp hands out at one time.
use mynginx_evnet_module.Base.{
  ℕ, ◌+◌, ◌-◌, ◌^◌, ◌≤◌, ◌<◌, ◌≡◌, refl, sym, Bool, true, false, List, [], ◌∷◌, arith, Bool-cases,
  inl, inr,
}
use mathlib.Core.Path.{subst}
use mynginx_evnet_module.Middleware.Bucket.{Doubles, TokenBucket, refill_tokens, try_consume}

-- What IEEE 754 says of the operations on numbers, with `at_least b a` for the order; a value that is
-- not a number is not at least itself. Every `uint32_t` has a `double`, so that conversion and
-- subtraction of those are exact, and rounding keeps the order.
pub record IsIeee {D : Type 0} (fl : Doubles D) : Type 0 where
  pub order_trans :
      (a b c : D) → fl.at_least b a ≡ true → fl.at_least c b ≡ true → fl.at_least c a ≡ true
  pub less-at_least : (a b : D) → fl.less b a ≡ true → fl.at_least a b ≡ true
  pub not_less-at_least :
      (a b : D)
      → fl.at_least a a ≡ true
      → fl.at_least b b ≡ true
      → fl.less b a ≡ false
      → fl.at_least b a ≡ true
  pub of_uint_refl : (n : ℕ) → fl.at_least (fl.of_uint n) (fl.of_uint n) ≡ true
  pub at_least-of_uint :
      (n k : ℕ) → n < 2 ^ 32 → k < 2 ^ 32 → fl.at_least (fl.of_uint k) (fl.of_uint n) ≡ true → n ≤ k
  pub minus_mono :
      (a b : D) (n : ℕ)
      → fl.at_least b a ≡ true
      → fl.at_least (fl.minus b (fl.of_uint n)) (fl.minus a (fl.of_uint n)) ≡ true
  pub minus-of_uint :
      (n k : ℕ) → n ≤ k → k < 2 ^ 32 → fl.minus (fl.of_uint k) (fl.of_uint n) ≡ fl.of_uint (k - n)

module _ {D : Type 0} (fl : Doubles D) (ieee : IsIeee fl) where
  abbrev pub taken : Bool → ℕ → ℕ
  taken true n = n
  taken false n = 0

  -- The tokens that a row of calls at one time is granted.
  unfoldable pub granted : ℕ → TokenBucket D → List ℕ → ℕ
  granted now b [] = 0
  granted now b (n ∷ ns) =
      taken (try_consume fl now n b).0 n + granted now (try_consume fl now n b).1 ns

  abbrev pub AllUint : List ℕ → Type 0
  AllUint [] = Unit {0}
  AllUint (n ∷ ns) = (n < 2 ^ 32) × AllUint ns

  -- A number of tokens, at most `k`.
  Holds : ℕ → D → Type 0
  Holds k t = (fl.at_least t t ≡ true) × (fl.at_least (fl.of_uint k) t ≡ true)

  -- No time brings no tokens.
  abbrev pub NoTimeNoTokens : D → Type 0
  NoTimeNoTokens rate =
      (t : D)
      → fl.at_least t t ≡ true
      → (fl.at_least (fl.plus t (fl.times (fl.seconds 0) rate))
            (fl.plus t (fl.times (fl.seconds 0) rate))
          ≡ true)
        × (fl.at_least t (fl.plus t (fl.times (fl.seconds 0) rate)) ≡ true)

  -- A refill leaves no more than the capacity, whatever the tokens were.
  refill_tokens-Holds :
      (now : ℕ) (b : TokenBucket D)
      → fl.at_least
          (fl.plus b.tokens (fl.times (fl.seconds (now - b.last_time)) b.fill_rate))
          (fl.plus b.tokens (fl.times (fl.seconds (now - b.last_time)) b.fill_rate))
        ≡ true
      → Holds b.capacity (refill_tokens fl now b).tokens
  unfolding refill_tokens Holds
  refill_tokens-Holds now b number =
      let x = fl.plus b.tokens (fl.times (fl.seconds (now - b.last_time)) b.fill_rate) in
      let cap = fl.of_uint b.capacity in
      elim (Bool-cases (fl.less x cap)) [
        | inl e ↦ rw e (number, ieee.less-at_least cap x e)
        | inr e ↦ rw e (ieee.of_uint_refl b.capacity, ieee.of_uint_refl b.capacity)
      ]

  -- At the same time again a refill adds nothing.
  refill_tokens-keeps :
      (k : ℕ) (b : TokenBucket D)
      → NoTimeNoTokens b.fill_rate
      → Holds k b.tokens
      → Holds k (refill_tokens fl b.last_time b).tokens
  unfolding refill_tokens Holds
  refill_tokens-keeps k b still (number, below) =
      let zero_time : b.last_time - b.last_time ≡ 0 = omega arith in
      let x = fl.plus b.tokens (fl.times (fl.seconds 0) b.fill_rate) in
      let cap = fl.of_uint b.capacity in
      let (x_number, x_below) = still b.tokens number in
      let x_held = ieee.order_trans x b.tokens (fl.of_uint k) x_below below in
      rw zero_time (elim (Bool-cases (fl.less x cap)) [
        | inl e ↦ rw e (x_number, x_held)
        | inr e ↦ rw e (
          ieee.of_uint_refl b.capacity,
          ieee.order_trans cap x (fl.of_uint k)
              (ieee.not_less-at_least cap x (ieee.of_uint_refl b.capacity) x_number e) x_held,
        )
      ])

  -- What is granted is paid by what the refill has left.
  try_consume-paid :
      (now n k : ℕ) (b : TokenBucket D)
      → n < 2 ^ 32
      → k < 2 ^ 32
      → Holds k (refill_tokens fl now b).tokens
      → (rest : ℕ) × (taken (try_consume fl now n b).0 n + rest ≡ k)
        × Holds rest (try_consume fl now n b).1.tokens
  unfolding try_consume Holds
  try_consume-paid now n k b hn hk (number, below) =
      let t = (refill_tokens fl now b).tokens in
      elim (Bool-cases (fl.at_least t (fl.of_uint n))) [
        | inl e ↦
            let l =
              ieee.at_least-of_uint n k hn hk
                (ieee.order_trans (fl.of_uint n) t (fl.of_uint k) e below) in
            rw e (
              k - n,
              omega (arith, l),
              (
                ieee.minus_mono t t n number,
                subst (λ d. fl.at_least d (fl.minus t (fl.of_uint n)) ≡ true)
                    (ieee.minus-of_uint n k l hk) (ieee.minus_mono t (fl.of_uint k) n below),
              ),
            )
        | inr e ↦ rw e (k, omega arith, (number, below))
      ]

  try_consume-fields :
      (now n : ℕ) (b : TokenBucket D)
      → ((try_consume fl now n b).1.fill_rate ≡ b.fill_rate)
        × ((try_consume fl now n b).1.last_time ≡ now)
  unfolding try_consume refill_tokens
  try_consume-fields now n b =
      elim (Bool-cases (fl.at_least (refill_tokens fl now b).tokens (fl.of_uint n))) [
        | inl e ↦ rw e (refl, refl)
        | inr e ↦ rw e (refl, refl)
      ]

  granted-held :
      (now k : ℕ) (b : TokenBucket D) (ns : List ℕ)
      → k < 2 ^ 32
      → AllUint ns
      → NoTimeNoTokens b.fill_rate
      → b.last_time ≡ now
      → Holds k b.tokens
      → granted now b ns ≤ k
  unfolding granted
  granted-held now k b [] hk u still e h = omega arith
  granted-held now k b (n ∷ ns) hk (hn, u) still e h =
      let held =
        subst (λ t. Holds k (refill_tokens fl t b).tokens) e (refill_tokens-keeps k b still h) in
      let (rest, paid, h') = try_consume-paid now n k b hn hk held in
      let (rate, time) = try_consume-fields now n b in
      omega (
        arith,
        paid,
        granted-held now rest (try_consume fl now n b).1 ns (omega (arith, paid, hk)) u
            (subst NoTimeNoTokens (sym rate) still) time h',
      )

  -- Whatever has happened to a bucket before, the calls at any one time are granted at most as many
  -- tokens together as its capacity, when its tokens with the new ones are a number and no time brings
  -- no tokens.
  pub granted-capacity :
      (now : ℕ) (b : TokenBucket D) (ns : List ℕ)
      → b.capacity < 2 ^ 32
      → AllUint ns
      → NoTimeNoTokens b.fill_rate
      → fl.at_least
          (fl.plus b.tokens (fl.times (fl.seconds (now - b.last_time)) b.fill_rate))
          (fl.plus b.tokens (fl.times (fl.seconds (now - b.last_time)) b.fill_rate))
        ≡ true
      → granted now b ns ≤ b.capacity
  unfolding granted
  granted-capacity now b [] hk u still number = omega arith
  granted-capacity now b (n ∷ ns) hk (hn, u) still number =
      let (rest, paid, h) =
        try_consume-paid now n b.capacity b hn hk (refill_tokens-Holds now b number) in
      let (rate, time) = try_consume-fields now n b in
      omega (
        arith,
        paid,
        granted-held now rest (try_consume fl now n b).1 ns (omega (arith, paid, hk)) u
            (subst NoTimeNoTokens (sym rate) still) time h,
      )
