-- ===== src/Middleware/Bucket.antt =====
-- `TokenBucket` of my_nginx_event/include/middleware/Rate_Limiting_Algorithm/TokenBucket.h and
-- my_nginx_event/src/middleware/Rate_Limiting_Algorithm/TokenBucket.cpp. The `double`s of the machine
-- are a parameter. `now` is the time that the steady clock gives, in its ticks.
pub mod Bound
use mynginx_evnet_module.Base.{ℕ, ◌-◌, Bool, true, false, if◌then◌else◌}

-- `double`: its operations and comparisons, the conversion of a `uint32_t`, and the seconds that a
-- number of ticks makes, as `std::chrono::duration<double>` gives them.
pub record Doubles (D : Type 0) : Type 0 where
  pub of_uint : ℕ → D
  pub seconds : ℕ → D
  pub plus : D → D → D
  pub minus : D → D → D
  pub times : D → D → D
  pub less : D → D → Bool
  pub at_least : D → D → Bool

pub record TokenBucket (D : Type 0) : Type 0 where
  pub capacity : ℕ
  pub tokens : D
  pub fill_rate : D
  pub last_time : ℕ

module _ {D : Type 0} (fl : Doubles D) where
  -- The constructor: a full bucket.
  unfoldable pub new_bucket : ℕ → D → ℕ → TokenBucket D
  new_bucket capacity rate now = record {
    capacity = capacity;
    tokens = fl.of_uint capacity;
    fill_rate = rate;
    last_time = now;
  }

  -- `std::min`
  abbrev pub min_of : D → D → D
  min_of a b = if fl.less b a then b else a

  unfoldable pub refill_tokens : ℕ → TokenBucket D → TokenBucket D
  refill_tokens now b =
      let elapsed_sec = fl.seconds (now - b.last_time) in
      let new_tokens = fl.times elapsed_sec b.fill_rate in
      record b {
        last_time = now;
        tokens = min_of (fl.of_uint b.capacity) (fl.plus b.tokens new_tokens);
      }

  unfoldable pub try_consume : ℕ → ℕ → TokenBucket D → Bool × TokenBucket D
  unfolding refill_tokens
  try_consume now n b =
      let r = refill_tokens now b in
      if fl.at_least r.tokens (fl.of_uint n)
      then (true, record r { tokens = fl.minus r.tokens (fl.of_uint n) })
      else (false, r)
