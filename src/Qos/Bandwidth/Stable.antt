-- ===== src/Qos/Bandwidth/Stable.antt =====
-- src/qos/htb.rs: handing out the rates leaves buckets in which transfers end.
use rust_socks.Prelude.{
  ℕ, ◌≤◌, ◌<◌, refl, List, [], ◌∷◌, arith, Option-cases, inl, inr, by_branches, subst,
}
use rust_socks.Prelude.Text.{Text}
use rust_socks.Prelude.Maps.{
  text_key, lookup, insert, AllValues, AllValues-lookup, AllValues-insert,
}
use rust_socks.Prelude.Machine.{word}
use rust_socks.Qos.Types.{HtbConfig}
use rust_socks.Qos.TokenBucket.{
  TokenBucket, Runtime, set_refill_rate, available_tokens, refill_sync,
}
use rust_socks.Qos.TokenBucket.Bounds.{
  IsBucket, IsAfter, IsAfter-refl, refill_sync-IsBucket, refill_sync-keeps,
}
use rust_socks.Qos.Htb.{UserBucket, HtbQos, is_active, new_htb}
use rust_socks.Qos.Rebalance.{
  calculate_fair_shares, estimate_user_demand, collect_active, with_rate, apply_rates,
  rebalance_bandwidth,
}
use rust_socks.Qos.Rebalance.Bounds.{IsConfig, InRange, fair_shares_bounds, AllInRange}
use rust_socks.Qos.Bandwidth.Progress.{IsUserBucket, IsHtb, IsUserBucket-after, IsHtb-after}

pub new_htb-IsHtb :
    (now : ℕ) (config : HtbConfig)
    → IsConfig config
    → 1 ≤ config.guaranteed_bandwidth_bytes_per_sec
    → 1 ≤ config.global_bandwidth_bytes_per_sec
    → config.burst_size_bytes < word
    → IsHtb now (new_htb now config)
new_htb-IsHtb now config c p g b = record {
  config = c;
  positive = p;
  burst = b;
  global = record { within = omega arith; u64 = b; past = omega arith };
  global_capacity = refl;
  global_rate = g;
  users = tt;
}

module _ (rt : Runtime) where
  refill_sync-IsAfter :
      (now : ℕ) (b : TokenBucket) → IsBucket now b → IsAfter now b now (refill_sync rt now b)
  refill_sync-IsAfter now b h =
      let (_, c, q) = refill_sync-keeps rt now b h in
      record {
        later = omega arith;
        bucket = refill_sync-IsBucket rt now b h;
        same_capacity = c;
        same_rate = q;
      }

  estimate-IsUserBucket :
      (config : HtbConfig) (now : ℕ) (b : UserBucket)
      → IsUserBucket config now b
      → IsUserBucket config now (estimate_user_demand rt now config b).1
  unfolding estimate_user_demand available_tokens
  estimate-IsUserBucket config now b h =
      IsUserBucket-after config now now b (refill_sync rt now b.guaranteed_bucket)
        (refill_sync rt now b.max_bucket) h
        (refill_sync-IsAfter now b.guaranteed_bucket h.guaranteed)
        (refill_sync-IsAfter now b.max_bucket h.most)

  collect_active-users :
      (config : HtbConfig) (now idle_timeout : ℕ) (buckets : List (Text × UserBucket))
      → AllValues (IsUserBucket config now) buckets
      → AllValues (IsUserBucket config now) (collect_active rt now idle_timeout config buckets).1
  unfolding collect_active
  collect_active-users config now idle_timeout [] h = tt
  collect_active-users config now idle_timeout ((user, b) ∷ buckets) h =
      let rest = collect_active-users config now idle_timeout buckets h.1 in
      by_branches
        (λ (r : List (Text × ℕ) × List (Text × UserBucket)).
          AllValues (IsUserBucket config now) r.1)
        (is_active now idle_timeout b) (estimate-IsUserBucket config now b h.0, rest) (h.0, rest)

  with_rate-IsUserBucket :
      (config : HtbConfig) (now rate : ℕ) (b : UserBucket)
      → IsUserBucket config now b
      → InRange config rate
      → IsUserBucket config now (with_rate rate b)
  unfolding set_refill_rate
  with_rate-IsUserBucket config now rate b h r = record {
    guaranteed = h.guaranteed;
    most = record { within = h.most.within; u64 = h.most.u64; past = h.most.past };
    guaranteed_capacity = h.guaranteed_capacity;
    max_capacity = h.max_capacity;
    max_rate = r;
  }

  apply_rates-users :
      (config : HtbConfig) (now : ℕ) (rates : List (Text × ℕ)) (buckets : List (Text × UserBucket))
      → AllInRange config rates
      → AllValues (IsUserBucket config now) buckets
      → AllValues (IsUserBucket config now) (apply_rates rates buckets)
  unfolding apply_rates
  apply_rates-users config now [] buckets r h = h
  apply_rates-users config now ((user, rate) ∷ rates) buckets r h =
      elim (Option-cases (lookup user buckets)) [
        | inl missing ↦
            subst (λ m. AllValues (IsUserBucket config now) (apply_rates rates m)) {x = buckets}
              (ground arith) (apply_rates-users config now rates buckets r.1 h)
        | inr (b, e) ↦
            let updated = insert user (with_rate rate b) buckets in
            subst (λ m. AllValues (IsUserBucket config now) (apply_rates rates m)) {x = updated}
              (ground arith)
              (apply_rates-users config now rates updated r.1 (
                AllValues-insert (IsUserBucket config now) user _ buckets h (
                  with_rate-IsUserBucket config now rate b
                    (AllValues-lookup (IsUserBucket config now) user buckets h e) r.0)))
      ]

  -- Handing out the rates keeps an engine as its configuration has it, with every rate in its range.
  pub rebalance_bandwidth-IsHtb :
      (now idle_timeout : ℕ) (htb : HtbQos)
      → IsHtb now htb
      → IsHtb now (rebalance_bandwidth rt now idle_timeout htb)
  unfolding rebalance_bandwidth
  rebalance_bandwidth-IsHtb now idle_timeout htb h =
      let (active, asked) = collect_active rt now idle_timeout htb.config htb.user_buckets in
      let (_, rates) = fair_shares_bounds rt htb.config active h.config in
      IsHtb-after now htb now _ h refl (IsAfter-refl now htb.global_bucket h.global) (
        apply_rates-users htb.config now (calculate_fair_shares rt htb.config active) asked rates
          (collect_active-users htb.config now idle_timeout htb.user_buckets h.users))
