-- ===== src/Qos/Htb.antt =====
-- src/qos/htb.rs: the buckets of every user below the bucket of the server, and the shares.
pub mod Counts
use rust_socks.Prelude.{
  ℕ, zero, suc, ◌+◌, ◌-◌, ◌/◌, ◌*◌, ◌<◌, min, Bool, true, false, ◌&&◌, Option, none, some,
  if◌then◌else◌, ltb, leb, ◌==◌, List, [], ◌∷◌, map, length, not,
}
use rust_socks.Prelude.Text.{Text}
use rust_socks.Prelude.Maps.{Key, text_key, lookup, insert}
use rust_socks.Prelude.Machine.{wrapping_add, wrapping_sub, saturating_sub}
use rust_socks.Utils.Result.{Result, ok, err}
use rust_socks.Qos.Types.{HtbConfig, UserAllocation}
use rust_socks.Qos.TokenBucket.{
  TokenBucket, Runtime, second, new_bucket, try_consume, consume, available_tokens, set_refill_rate,
}

pub record UserBucket : Type 0 where
  pub guaranteed_bucket : TokenBucket
  pub max_bucket : TokenBucket
  pub current_demand : ℕ
  pub last_activity : ℕ
  pub active_connections : ℕ
  pub total_bytes : ℕ

-- `rebalancing` is whether there is a handle of the task that calls `rebalance_bandwidth`.
pub record HtbQos : Type 0 where
  pub config : HtbConfig
  pub global_bucket : TokenBucket
  pub user_buckets : List (Text × UserBucket)
  pub total_connections : ℕ
  pub rebalancing : Bool

abbrev pub new_user_bucket : ℕ → ℕ → ℕ → ℕ → UserBucket
new_user_bucket now guaranteed_rate max_rate burst_size = record {
  guaranteed_bucket = new_bucket now burst_size guaranteed_rate;
  max_bucket = new_bucket now burst_size max_rate;
  current_demand = 0;
  last_activity = now;
  active_connections = 0;
  total_bytes = 0;
}

abbrev pub is_active : ℕ → ℕ → UserBucket → Bool
is_active now idle_timeout b =
    not (b.active_connections == 0) && ltb (now - b.last_activity) idle_timeout

abbrev pub new_htb : ℕ → HtbConfig → HtbQos
new_htb now config = record {
  config = config;
  global_bucket = new_bucket now config.burst_size_bytes config.global_bandwidth_bytes_per_sec;
  user_buckets = [];
  total_connections = 0;
  rebalancing = false;
}

abbrev pub start : HtbQos → HtbQos
start htb = if htb.config.fair_sharing_enabled then record htb { rebalancing = true } else htb

abbrev pub stop : HtbQos → HtbQos
stop htb = record htb { rebalancing = false }

-- The bucket of a user, and the map with it.
unfoldable pub get_or_create_user_bucket : ℕ → Text → HtbQos → UserBucket × HtbQos
get_or_create_user_bucket now user htb = elim (lookup user htb.user_buckets) [
  | some bucket ↦ (bucket, htb)
  | none ↦
      let bucket =
        new_user_bucket now htb.config.guaranteed_bandwidth_bytes_per_sec
          htb.config.max_bandwidth_bytes_per_sec htb.config.burst_size_bytes in
      (bucket, record htb { user_buckets = insert user bucket htb.user_buckets })
]

abbrev pub put_bucket : Text → UserBucket → HtbQos → HtbQos
put_bucket user bucket htb = record htb { user_buckets = insert user bucket htb.user_buckets }

unfoldable pub inc_user_connections : ℕ → Text → HtbQos → ℕ × HtbQos
inc_user_connections now user htb =
    let (bucket, found) = get_or_create_user_bucket now user htb in
    let count = wrapping_add bucket.active_connections 1 in
    (
      count,
      record (put_bucket user (record bucket { active_connections = count }) found) {
        total_connections = wrapping_add htb.total_connections 1;
      },
    )

-- The answer is computed from the count before, the counters wrap around.
unfoldable pub dec_user_connections : Text → HtbQos → ℕ × HtbQos
dec_user_connections user htb = elim (lookup user htb.user_buckets) [
  | some bucket ↦
      let left = wrapping_sub bucket.active_connections 1 in
      (
        saturating_sub bucket.active_connections 1,
        record (put_bucket user (record bucket { active_connections = left }) htb) {
          total_connections = wrapping_sub htb.total_connections 1;
        },
      )
  | none ↦ (0, htb)
]

unfoldable pub get_user_connections : Text → HtbQos → ℕ
get_user_connections user htb = elim (lookup user htb.user_buckets) [
  | some bucket ↦ bucket.active_connections
  | none ↦ 0
]

unfoldable pub get_user_allocations : ℕ → HtbQos → List UserAllocation
get_user_allocations now htb =
    map
      (λ (p : Text × UserBucket). record {
        user = p.0;
        allocated_bandwidth = p.1.max_bucket.refill_rate;
        guaranteed_bandwidth = p.1.guaranteed_bucket.refill_rate;
        max_bandwidth = htb.config.max_bandwidth_bytes_per_sec;
        current_demand = p.1.current_demand;
        is_active = is_active now (htb.config.idle_timeout_secs * second) p.1;
        active_connections = p.1.active_connections;
      })
      htb.user_buckets
