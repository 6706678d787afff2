-- ===== src/Qos/Tests.antt =====
-- src/qos: the theorems on buckets, shares and counts at concrete states, and runs.
use native.Mathlib.Nat.{one-le-mul}
use rust_socks.Prelude.{
  ℕ, ◌+◌, ◌*◌, ◌/◌, ◌≤◌, ◌≡◌, ◌≢◌, ◌↔◌, refl, true, false, List, [], ◌∷◌, map, All, none, some,
  arith,
}
use rust_socks.Prelude.Text.{Text, codes, text_eq}
use rust_socks.Prelude.Maps.{text_key, lookup, insert}
use rust_socks.Prelude.Machine.{wrapping_add}
use rust_socks.Qos.Types.{
  HtbConfig, QosConfig, ConnectionLimits, default_htb_config, default_qos_config,
}
use rust_socks.Qos.TokenBucket.{
  TokenBucket, Runtime, IsRuntime, second, new_bucket, refill_sync, try_consume, consume,
  add_tokens, calculate_wait_time,
}
use rust_socks.Qos.TokenBucket.Bounds.{IsBucket}
use rust_socks.Qos.TokenBucket.Waiting.{consume_ends_iff}
use rust_socks.Qos.TokenBucket.Shared.{
  taking, adding, granted, refused, added, run_schedule, task_step, step_at, total_granted,
  total_added, never_overdrawn,
}
use rust_socks.Qos.Htb.{
  HtbQos, new_htb, start, new_user_bucket, get_or_create_user_bucket, inc_user_connections,
  dec_user_connections, get_user_connections,
}
use rust_socks.Qos.Rebalance.{
  remaining_after, demand_sum, proportional_share, calculate_fair_shares, rebalance_bandwidth,
}
use rust_socks.Qos.Rebalance.Bounds.{IsConfig, InRange, fair_shares_bounds}
use rust_socks.Qos.Bandwidth.{allocate_bandwidth}
use rust_socks.Qos.Bandwidth.Progress.{IsHtb, charged_to, allocate_bandwidth_ends}
use rust_socks.Qos.Bandwidth.Stable.{new_htb-IsHtb, rebalance_bandwidth-IsHtb}
use rust_socks.Qos.{
  QosEngine, htb, from_config, check_and_inc_connection, dec_user_connection, drop_engine,
}
use rust_socks.Qos.Guards.{
  ConnectionEvent, admit, hang_up, connection_step, connection_run, is_rebalancing, drop_guard,
  occurrences, remove_one,
}
use rust_socks.Qos.Guards.Dropped.{hang_up-stops}
use rust_socks.Qos.Connections.{IsCounted, state_of, connection_run-IsCounted}

-- Exact quotients, and a timer that wakes a task up at once.
abbrev exact : Runtime
exact = record {
  seconds_times = λ elapsed rate. elapsed / second * rate;
  seconds_for = λ deficit rate. deficit * second / rate;
  share_of = λ demand total remaining. demand * remaining / total;
  woken = ◌+◌;
}

exact-IsRuntime : IsRuntime exact
exact-IsRuntime = record {
  sleeps = λ now wait. omega arith;
  produces = λ elapsed rate h p. one-le-mul (omega arith) p;
}

-- Half empty, with a token in each second.
abbrev half : TokenBucket
half = record (new_bucket 0 10 1) { tokens = 5 }

half-IsBucket : IsBucket 0 half
half-IsBucket = record { within = omega arith; u64 = omega arith; past = omega arith }

consume_ends_iff_example : ((fuel : ℕ) × (consume exact fuel 0 8 half ≢ none)) ↔ (8 ≤ 10)
consume_ends_iff_example =
    consume_ends_iff exact 0 8 half exact-IsRuntime half-IsBucket (omega arith)

waited_three :
    consume exact 5 0 8 half
    ≡ some (3 * second, record half { tokens = 0; last_refill = 3 * second })
unfolding consume try_consume refill_sync add_tokens calculate_wait_time
waited_three = refl

never_overdrawn_example :
    (let (left, moved) =
        run_schedule 10
          (0 ∷ 1 ∷ 1 ∷ 0 ∷ 0 ∷ 2 ∷ 2 ∷ [])
          (5, taking 3 none ∷ taking 4 none ∷ adding 9 none ∷ []) in
      (left ≤ 10) × (left + total_granted moved ≤ 5 + total_added moved))
never_overdrawn_example =
    never_overdrawn 10 (0 ∷ 1 ∷ 1 ∷ 0 ∷ 0 ∷ 2 ∷ 2 ∷ []) 5
      (taking 3 none ∷ taking 4 none ∷ adding 9 none ∷ []) (refl, (refl, (refl, tt))) (omega arith)

-- The first task loads, the second one takes four, so the first one starts again and is refused.
second_wins :
    run_schedule 10
      (0 ∷ 1 ∷ 1 ∷ 0 ∷ 0 ∷ 2 ∷ 2 ∷ [])
      (5, taking 3 none ∷ taking 4 none ∷ adding 9 none ∷ [])
    ≡ (10, refused 2 ∷ granted 4 ∷ added 9 ∷ [])
unfolding run_schedule step_at task_step
second_wins = refl

abbrev demands : List (Text × ℕ)
demands = (codes "ann", 12500000) ∷ (codes "bob", 131072) ∷ []

default-IsConfig : IsConfig default_htb_config
default-IsConfig = record { ordered = omega arith; u64 = omega arith }

fair_shares_bounds_example :
    (map (λ (p : Text × ℕ). p.0) (calculate_fair_shares exact default_htb_config demands)
      ≡ map (λ (p : Text × ℕ). p.0) demands)
    × All
        (λ (p : Text × ℕ). InRange default_htb_config p.1)
        (calculate_fair_shares exact default_htb_config demands)
fair_shares_bounds_example = fair_shares_bounds exact default_htb_config demands default-IsConfig

-- With the two rates of a user in the wrong order the greatest rate is exceeded.
abbrev unordered : HtbConfig
unordered = record default_htb_config { max_bandwidth_bytes_per_sec = 1000 }

unordered_share :
    calculate_fair_shares exact unordered ((codes "ann", 131072) ∷ []) ≡ (codes "ann", 262144) ∷ []
unfolding calculate_fair_shares remaining_after demand_sum proportional_share
unordered_share = refl

started-IsHtb : IsHtb 0 (new_htb 0 default_htb_config)
started-IsHtb =
    new_htb-IsHtb 0 default_htb_config default-IsConfig (omega arith) (omega arith) (omega arith)

allocate_bandwidth_ends_example :
    (t : ℕ) × (after : HtbQos) × (allocate_bandwidth exact
        (1000000 * 1001 + 1000)
        0
        (codes "ann")
        1000000
        (new_htb 0 default_htb_config)
      ≡ some (t, after))
    × (0 ≤ t)
    × IsHtb t after
    × (charged_to (codes "ann") after
        ≡ wrapping_add (charged_to (codes "ann") (new_htb 0 default_htb_config)) 1000000)
allocate_bandwidth_ends_example =
    allocate_bandwidth_ends exact 0 1000000 (codes "ann") (new_htb 0 default_htb_config)
      exact-IsRuntime started-IsHtb (omega arith)

rebalance_bandwidth-IsHtb_example :
    IsHtb 0 (rebalance_bandwidth exact 0 5 (new_htb 0 default_htb_config))
rebalance_bandwidth-IsHtb_example =
    rebalance_bandwidth-IsHtb exact 0 5 (new_htb 0 default_htb_config) started-IsHtb

abbrev limits : ConnectionLimits
limits = record { max_connections_per_user = 2; max_connections_global = 3 }

abbrev enabled : QosConfig
enabled = record default_qos_config { enabled = true }

abbrev begun : QosEngine
begun = htb (start (new_htb 0 default_htb_config))

abbrev events : List ConnectionEvent
events =
    admit 1 (codes "ann")
    ∷ admit 2 (codes "ann")
    ∷ admit 3 (codes "ann")
    ∷ hang_up (codes "ann")
    ∷ []

abbrev ended : HtbQos
ended = record (new_htb 0 default_htb_config) {
  user_buckets =
      (codes "ann", record (new_user_bucket 1 131072 12500000 1048576) { active_connections = 1 })
      ∷ [];
  total_connections = 1;
}

ann_left : (connection_run limits events (state_of begun 0 [])).qos.engine ≡ htb ended
unfolding connection_run connection_step check_and_inc_connection drop_guard dec_user_connection
    drop_engine inc_user_connections dec_user_connections get_or_create_user_bucket
    get_user_connections lookup insert occurrences remove_one text_eq
ann_left = refl

connection_run-IsCounted_example :
    (let s = connection_run limits events (state_of begun 0 []) in
      IsCounted limits ended s.qos.active_qos_users s.guards)
unfolding from_config text_eq
connection_run-IsCounted_example =
    connection_run-IsCounted 0 enabled limits events begun ended (omega arith) refl ann_left

bob_there : occurrences (codes "bob") (codes "bob" ∷ []) ≢ 0
unfolding occurrences text_eq
bob_there = λ e. omega arith

hang_up-stops_example :
    is_rebalancing
      (connection_run limits events (
        connection_step limits
          (hang_up (codes "bob"))
          (state_of begun 1 (codes "bob" ∷ [])))).qos.engine
    ≡ false
hang_up-stops_example =
    hang_up-stops limits (codes "bob") events (state_of begun 1 (codes "bob" ∷ [])) bob_there
