-- ===== src/Qos/TokenBucket.antt =====
-- src/qos/token_bucket.rs: the bucket, with its calls made one at a time. Instants and durations are
-- nanoseconds. Without a rival `try_lock` succeeds, and so does the first `compare_exchange`.
pub mod Shared
pub mod Bounds
pub mod Waiting
use rust_socks.Prelude.{
  ℕ, zero, suc, ◌+◌, ◌-◌, ◌/◌, ◌*◌, ◌≤◌, min, max, Option, none, some, if◌then◌else◌, ltb, leb,
  ◌==◌, ◌&&◌,
}
use rust_socks.Prelude.Machine.{saturating_add}
use rust_socks.Utils.Result.{Result, ok, err}

pub record TokenBucket : Type 0 where
  pub capacity : ℕ
  pub tokens : ℕ
  pub refill_rate : ℕ
  pub last_refill : ℕ

-- The floating-point products and quotients of the machine, and the timer of the runtime:
-- `(elapsed.as_secs_f64() * rate as f64) as u64` of the elapsed time and the rate,
-- `Duration::from_secs_f64(deficit as f64 / rate as f64)`,
-- `((demand as f64 / total_demand as f64) * remaining as f64) as u64`, and the instant at which a
-- task wakes up that went to sleep at an instant for a duration.
pub record Runtime : Type 0 where
  pub seconds_times : ℕ → ℕ → ℕ
  pub seconds_for : ℕ → ℕ → ℕ
  pub share_of : ℕ → ℕ → ℕ → ℕ
  pub woken : ℕ → ℕ → ℕ

abbrev pub second : ℕ
second = 1000000000

abbrev pub millisecond : ℕ
millisecond = 1000000

-- A sleep lasts as long as was asked for, and a product with at least one second and a rate of at
-- least one token is at least one token.
pub record IsRuntime (rt : Runtime) : Type 0 where
  pub sleeps : (now wait : ℕ) → now + wait ≤ rt.woken now wait
  pub produces :
      (elapsed rate : ℕ) → second ≤ elapsed → 1 ≤ rate → 1 ≤ rt.seconds_times elapsed rate

abbrev pub new_bucket : ℕ → ℕ → ℕ → TokenBucket
new_bucket now capacity refill_rate = record {
  capacity = capacity;
  tokens = capacity;
  refill_rate = refill_rate;
  last_refill = now;
}

unfoldable pub add_tokens : ℕ → TokenBucket → TokenBucket
add_tokens amount b = record b { tokens = min (saturating_add b.tokens amount) b.capacity }

unfoldable pub set_refill_rate : ℕ → TokenBucket → TokenBucket
set_refill_rate new_rate b = record b { refill_rate = new_rate }

module _ (rt : Runtime) where
  -- The subtraction of instants is `duration_since`, which stops at 0.
  unfoldable pub refill_sync : ℕ → TokenBucket → TokenBucket
  refill_sync now b =
      let elapsed = now - b.last_refill in
      let tokens_to_add = rt.seconds_times elapsed b.refill_rate in
      if ltb 0 (elapsed / millisecond) && ltb 0 tokens_to_add
      then record (add_tokens tokens_to_add b) { last_refill = now }
      else b

  unfoldable pub try_consume : ℕ → ℕ → TokenBucket → Result ℕ (Unit {0}) × TokenBucket
  try_consume now amount b =
      let refilled = refill_sync now b in
      if leb amount refilled.tokens
      then (ok tt, record refilled { tokens = refilled.tokens - amount })
      else (err (amount - refilled.tokens), refilled)

  -- The greater of two durations is the conversion of the greater of the two numbers of seconds.
  unfoldable pub calculate_wait_time : ℕ → TokenBucket → ℕ
  calculate_wait_time deficit b =
      if b.refill_rate == 0 then second else max (rt.seconds_for deficit b.refill_rate) millisecond

  -- The loop sleeps at most as often as the first argument says; `none` means that it sleeps still.
  -- Otherwise the instant at which the tokens were taken, and the bucket.
  unfoldable pub consume : ℕ → ℕ → ℕ → TokenBucket → Option (ℕ × TokenBucket)
  consume zero now amount b =
      let (outcome, left) = try_consume now amount b in
      elim outcome [ ok done ↦ some (now, left) | err deficit ↦ none ]
  consume (suc sleeps) now amount b =
      let (outcome, left) = try_consume now amount b in
      elim outcome [
        | ok done ↦ some (now, left)
        | err deficit ↦
            let awake = rt.woken now (calculate_wait_time deficit left) in
            consume sleeps awake amount (refill_sync awake left)
      ]

  unfoldable pub available_tokens : ℕ → TokenBucket → ℕ × TokenBucket
  available_tokens now b = let refilled = refill_sync now b in (refilled.tokens, refilled)
