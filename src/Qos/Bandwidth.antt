-- ===== src/Qos/Bandwidth.antt =====
-- src/qos/htb.rs: taking the bytes of a transfer from the buckets.
pub mod Progress
pub mod Stable
use rust_socks.Prelude.{ℕ, Option, none, some}
use rust_socks.Prelude.Text.{Text}
use rust_socks.Prelude.Maps.{text_key, insert}
use rust_socks.Prelude.Machine.{wrapping_add}
use rust_socks.Utils.Result.{Result, ok, err}
use rust_socks.Qos.TokenBucket.{TokenBucket, Runtime, try_consume, consume}
use rust_socks.Qos.Htb.{UserBucket, HtbQos, get_or_create_user_bucket, put_bucket}

module _ (rt : Runtime) where
  -- Each `consume` sleeps at most as often as the first argument says.
  -- A try at a bucket, and then the wait for it: the instant at which the tokens were taken.
  unfoldable pub take_global : ℕ → ℕ → ℕ → TokenBucket → Option (ℕ × TokenBucket)
  take_global sleeps now bytes b =
      let (outcome, left) = try_consume rt now bytes b in
      elim outcome [ ok done ↦ some (now, left) | err deficit ↦ consume rt sleeps now bytes left ]

  unfoldable pub take_user : ℕ → ℕ → ℕ → UserBucket → Option (ℕ × UserBucket)
  take_user sleeps now bytes bucket =
      let (guaranteed, guaranteed_left) = try_consume rt now bytes bucket.guaranteed_bucket in
      let tried = record bucket { guaranteed_bucket = guaranteed_left } in
      elim guaranteed [
        | ok done ↦ some (now, tried)
        | err deficit ↦
            let (borrowed, max_left) = try_consume rt now bytes bucket.max_bucket in
            elim borrowed [
              | ok done ↦ some (now, record tried { max_bucket = max_left })
              | err deficit ↦ elim (consume rt sleeps now bytes max_left) [
                | some (later, left) ↦ some (later, record tried { max_bucket = left })
                | none ↦ none
              ]
            ]
      ]

  unfoldable pub allocate_bandwidth : ℕ → ℕ → Text → ℕ → HtbQos → Option (ℕ × HtbQos)
  allocate_bandwidth sleeps now user bytes htb =
      elim (take_global sleeps now bytes htb.global_bucket) [
        | none ↦ none
        | some (t, global_left) ↦
            let charged = record htb { global_bucket = global_left } in
            let (bucket, found) = get_or_create_user_bucket t user charged in
            let active = record bucket {
              last_activity = t;
              total_bytes = wrapping_add bucket.total_bytes bytes;
            } in
            elim (take_user sleeps t bytes active) [
              | none ↦ none
              | some (later, left) ↦ some (later, put_bucket user left found)
            ]
      ]
