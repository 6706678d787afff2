-- ===== src/Qos/Rebalance.antt =====
-- src/qos/htb.rs: the shares of the active users, and the task that hands them out.
pub mod Bounds
use rust_socks.Prelude.{
  ℕ, zero, suc, ◌+◌, ◌-◌, ◌/◌, ◌*◌, min, Bool, ◌||◌, if◌then◌else◌, ltb, ◌==◌, List, [], ◌∷◌, map,
  length, Option, none, some,
}
use rust_socks.Prelude.Text.{Text}
use rust_socks.Prelude.Maps.{text_key, lookup, insert}
use rust_socks.Prelude.Machine.{wrapping_add, wrapping_sub, saturating_sub}
use rust_socks.Qos.Types.{HtbConfig}
use rust_socks.Qos.TokenBucket.{TokenBucket, Runtime, available_tokens, set_refill_rate}
use rust_socks.Qos.Htb.{UserBucket, HtbQos, is_active, put_bucket}

-- An active user stands by name for its bucket, which is shared, and with its demand.
unfoldable pub remaining_after : HtbConfig → List (Text × ℕ) → ℕ → ℕ
remaining_after config [] remaining = remaining
remaining_after config (user ∷ users) remaining =
    remaining_after config users
      (saturating_sub remaining config.guaranteed_bandwidth_bytes_per_sec)

-- `iter().map(..).sum()`, which wraps around in a release build.
unfoldable pub demand_sum : List (Text × ℕ) → ℕ
demand_sum [] = 0
demand_sum ((user, demand) ∷ users) = wrapping_add demand (demand_sum users)

-- The guaranteed rate with a share on top. The two operators wrap around in a release build.
abbrev pub capped : HtbConfig → ℕ → ℕ
capped config share =
    let guaranteed = config.guaranteed_bandwidth_bytes_per_sec in
    wrapping_add guaranteed (min share (wrapping_sub config.max_bandwidth_bytes_per_sec guaranteed))

abbrev pub with_rate : ℕ → UserBucket → UserBucket
with_rate new_rate b = record b {
  max_bucket = set_refill_rate new_rate b.max_bucket;
  current_demand = new_rate;
}

unfoldable pub apply_rates : List (Text × ℕ) → List (Text × UserBucket) → List (Text × UserBucket)
apply_rates [] buckets = buckets
apply_rates ((user, new_rate) ∷ rates) buckets = apply_rates rates (elim (lookup user buckets) [
  | some b ↦ insert user (with_rate new_rate b) buckets
  | none ↦ buckets
])

module _ (rt : Runtime) where
  unfoldable pub proportional_share : ℕ → ℕ → ℕ → ℕ
  proportional_share total_demand remaining demand =
      if ltb remaining total_demand then rt.share_of demand total_demand remaining else demand

  unfoldable pub calculate_fair_shares : HtbConfig → List (Text × ℕ) → List (Text × ℕ)
  calculate_fair_shares config users =
      let remaining = remaining_after config users config.global_bandwidth_bytes_per_sec in
      let total_demand = demand_sum users in
      if (remaining == 0) || (length users == 0)
      then map (λ (p : Text × ℕ). (p.0, config.guaranteed_bandwidth_bytes_per_sec)) users
      else (if ltb 0 total_demand
          then map
              (λ (p : Text × ℕ).
                (p.0, capped config (proportional_share total_demand remaining p.1)))
              users
          else map (λ (p : Text × ℕ). (p.0, capped config (remaining / length users))) users)

  unfoldable pub estimate_user_demand : ℕ → HtbConfig → UserBucket → ℕ × UserBucket
  estimate_user_demand now config b =
      let (guaranteed_available, guaranteed) = available_tokens rt now b.guaranteed_bucket in
      let (max_available, most) = available_tokens rt now b.max_bucket in
      (
        (if ltb guaranteed_available (b.guaranteed_bucket.capacity / 4)
              || ltb max_available (b.max_bucket.capacity / 4)
            then config.max_bandwidth_bytes_per_sec
            else config.guaranteed_bandwidth_bytes_per_sec),
        record b { guaranteed_bucket = guaranteed; max_bucket = most },
      )

  -- The active users with their demands, and the buckets, in which asking for the tokens refills.
  unfoldable pub collect_active :
      ℕ → ℕ → HtbConfig → List (Text × UserBucket) → List (Text × ℕ) × List (Text × UserBucket)
  collect_active now idle_timeout config [] = ([], [])
  collect_active now idle_timeout config ((user, bucket) ∷ buckets) =
      let (active, asked) = collect_active now idle_timeout config buckets in
      let (demand, refilled) = estimate_user_demand now config bucket in
      if is_active now idle_timeout bucket
      then ((user, demand) ∷ active, (user, refilled) ∷ asked)
      else (active, (user, bucket) ∷ asked)

  unfoldable pub rebalance_bandwidth : ℕ → ℕ → HtbQos → HtbQos
  rebalance_bandwidth now idle_timeout htb =
      let (active, asked) = collect_active now idle_timeout htb.config htb.user_buckets in
      record htb { user_buckets = apply_rates (calculate_fair_shares htb.config active) asked }
