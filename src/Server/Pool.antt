-- ===== src/Server/Pool.antt =====
-- src/server/pool.rs: the operations `get`, `put`, `release` and `refresh_connection` of `ConnectionPool`.
-- An operation takes the pool and the time at which it runs, in nanoseconds, and returns the pool that
-- it leaves; each is one atomic step here, and what `TcpStream::connect` gives under its timeout is an
-- argument. Addresses and streams are types of `std` and `tokio`, so they are parameters.
pub mod Types
pub mod Connections
pub mod Idle
pub mod Sizes
pub mod Invariant
pub mod Insertion
pub mod Cleanup
pub mod Reachable
pub mod Eviction
pub mod Reuse
pub mod Leases
mod Tests
use rust_socks.Prelude.{
  ℕ, suc, zero, ◌+◌, ◌-◌, ◌*◌, Bool, true, false, List, [], ◌∷◌, ◌++◌, length, Option, none, some,
  ◌==◌, ltb, leb, not, if◌then◌else◌,
}
use rust_socks.Prelude.Maps.{Key, lookup, insert, remove}
use rust_socks.Utils.{IoError, timed_out}
use rust_socks.Utils.Result.{Result, ok, err}
use rust_socks.Prelude.Machine.{wrapping_add, wrapping_sub}
use rust_socks.Server.Pool.Types.{
  PoolConfig, PoolMetrics, no_metrics, DestinationMetrics, no_destination_metrics, ReuseHint, reuse,
  refresh, Connect, connected, failed, elapsed, PoolEvent, connection_failed, dropped_for_capacity,
  evicted_oldest, PooledConnection, ConnectionPool,
}
use rust_socks.Server.Pool.Connections.{
  or_else, connect_new, new_connection, is_expired, pop_valid, retain_fresh, reverse_onto, is_empty,
  less_in_use, active_without, min_by_time, tail,
}
use rust_socks.Server.Pool.Idle.{
  update_metrics, update_destination_metrics, record_evicted, decrement_in_use, increment_active,
  decrement_active, emit_telemetry_event, log_capacity_events, try_get_from_pool, insert_stream,
}

module _ {K S : Type 0} ⦃k : Key K⦄ where
  -- `get`, after the connection that was tried has come or failed
  abbrev created : ℕ → K → ConnectionPool K S → ConnectionPool K S
  created now addr pool = increment_active addr (
      update_destination_metrics addr
        (λ e. record e {
          total_created = wrapping_add e.total_created 1;
          in_use = wrapping_add e.in_use 1;
          last_activity = some now;
        })
        (update_metrics
          (λ m. record m {
            total_created = wrapping_add m.total_created 1;
            connections_in_use = wrapping_add m.connections_in_use 1;
          })
          pool))

  abbrev reused : ℕ → K → ConnectionPool K S → ConnectionPool K S
  reused now addr pool = increment_active addr (
      update_destination_metrics addr
        (λ e. record e {
          pool_hits = wrapping_add e.pool_hits 1;
          total_reused = wrapping_add e.total_reused 1;
          in_use = wrapping_add e.in_use 1;
          last_activity = some now;
        })
        (update_metrics
          (λ m. record m {
            pool_hits = wrapping_add m.pool_hits 1;
            total_reused = wrapping_add m.total_reused 1;
            connections_in_use = wrapping_add m.connections_in_use 1;
          })
          pool))

  abbrev missed : ℕ → K → ConnectionPool K S → ConnectionPool K S
  missed now addr pool =
      update_destination_metrics addr
        (λ e. record e { pool_misses = wrapping_add e.pool_misses 1; last_miss = some now })
        (update_metrics (λ m. record m { pool_misses = wrapping_add m.pool_misses 1 }) pool)

  -- `pending_creates` goes up for the time of the call to `connect_new` and down again.
  abbrev pending : ConnectionPool K S → ConnectionPool K S
  pending pool =
      update_metrics (λ m. record m { pending_creates = wrapping_sub m.pending_creates 1 })
        (update_metrics (λ m. record m { pending_creates = wrapping_add m.pending_creates 1 }) pool)

  abbrev connect_result :
      ℕ → K → Result IoError S → ConnectionPool K S → Result IoError S × ConnectionPool K S
  connect_result now addr (ok s) pool = (ok s, created now addr pool)
  connect_result now addr (err e) pool =
      (err e, emit_telemetry_event (connection_failed addr e) pool)

  unfoldable pub get :
      ℕ → Connect S → K → ConnectionPool K S → Result IoError S × ConnectionPool K S
  unfolding try_get_from_pool
  get now connect addr pool =
      if not pool.config.enabled
      then (connect_new connect, pool)
      else (let (found, pool') = try_get_from_pool now addr pool in
          elim found [
            | some conn ↦ (ok conn.stream, reused now addr pool')
            | none ↦ connect_result now addr (connect_new connect) (pending (missed now addr pool'))
          ])

  abbrev pub record_returned : ℕ → K → Bool → ConnectionPool K S → ConnectionPool K S
  record_returned now addr true pool =
      update_destination_metrics addr
        (λ e. record e { drops = wrapping_add e.drops 1; in_use = e.in_use - 1 })
        (update_metrics (λ m. record m { dropped_full = wrapping_add m.dropped_full 1 }) pool)
  record_returned now addr false pool =
      update_destination_metrics addr
        (λ e. record e { in_use = e.in_use - 1; last_activity = some now }) pool

  abbrev pub record_evicted_addr : ℕ → Option K → ConnectionPool K S → ConnectionPool K S
  unfolding record_evicted
  record_evicted_addr now none pool = pool
  record_evicted_addr now (some addr) pool = record_evicted now addr pool

  -- `put`; the task that it spawns for `Refresh` is a `refresh_connection`, which runs later.
  unfoldable pub put : ℕ → K → S → ReuseHint → ConnectionPool K S → ConnectionPool K S
  unfolding insert_stream record_evicted
  put now addr s reuse pool =
      if not pool.config.enabled
      then pool
      else (let ((dropped, evicted), pool') = insert_stream now addr s (decrement_in_use pool) in
          log_capacity_events addr dropped evicted (
            decrement_active addr
              (record_evicted_addr now evicted (record_returned now addr dropped pool'))))
  put now addr s refresh pool =
      if not pool.config.enabled
      then pool
      else decrement_active addr
          (update_destination_metrics addr less_in_use (decrement_in_use pool))

  -- `release`; the hint only says whether it spawns a `refresh_connection`, which runs later.
  unfoldable pub release : K → ConnectionPool K S → ConnectionPool K S
  release addr pool =
      if not pool.config.enabled
      then pool
      else decrement_active addr
          (update_destination_metrics addr less_in_use (decrement_in_use pool))

  abbrev pub record_dropped : K → Bool → ConnectionPool K S → ConnectionPool K S
  record_dropped addr true pool =
      update_destination_metrics addr (λ e. record e { drops = wrapping_add e.drops 1 })
        (update_metrics (λ m. record m { dropped_full = wrapping_add m.dropped_full 1 }) pool)
  record_dropped addr false pool = pool

  abbrev pub refreshed : ℕ → K → ConnectionPool K S → ConnectionPool K S
  refreshed now addr pool =
      update_destination_metrics addr
        (λ e. record e { total_created = wrapping_add e.total_created 1; last_activity = some now })
        (update_metrics (λ m. record m { total_created = wrapping_add m.total_created 1 })
          (pending pool))

  -- `refresh_connection`
  unfoldable pub refresh_connection :
      ℕ → Connect S → K → ConnectionPool K S → Result IoError (Unit {0}) × ConnectionPool K S
  unfolding insert_stream record_evicted
  refresh_connection now connect addr pool = elim (connect_new connect) [
    | err e ↦ (err e, pending pool)
    | ok s ↦
        let ((dropped, evicted), pool') = insert_stream now addr s (refreshed now addr pool) in
        (
          ok tt,
          log_capacity_events addr dropped evicted
              (record_evicted_addr now evicted (record_dropped addr dropped pool')),
        )
  ]
