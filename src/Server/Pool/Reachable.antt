-- ===== src/Server/Pool/Reachable.antt =====
-- src/server/pool.rs: the operations as steps, and what holds in every state that they reach.
use rust_socks.Prelude.{
  ℕ, ◌<◌, refl, subst, Bool, List, Option, arith, Bool-cases, Option-cases, inl, inr,
}
use rust_socks.Prelude.Maps.{Key}
use rust_socks.Utils.Result.{Result-cases}
use rust_socks.Server.Pool.{
  get, put, release, refresh_connection, refreshed, record_returned, record_evicted_addr,
  record_dropped,
}
use rust_socks.Prelude.Machine.{word}
use rust_socks.Server.Pool.Types.{
  PoolConfig, ConnectionPool, PoolEvent, Connect, ReuseHint, reuse, refresh,
}
use rust_socks.Server.Pool.Connections.{connect_new}
use rust_socks.Server.Pool.Idle.{
  new_pool, try_get_from_pool, insert_stream, record_evicted, decrement_in_use, decrement_active,
  log_capacity_events, cleanup_expired,
}
use rust_socks.Server.Pool.Invariant.{
  IsPool, IsPool-frame, new_pool-IsPool, try_get_from_pool-IsPool,
}
use rust_socks.Server.Pool.Insertion.{
  evictions, IsPending, IsPending-frame, insert_stream-IsPending,
}
use rust_socks.Server.Pool.Cleanup.{cleanup_expired-IsPool}

module _ {K S : Type 0} ⦃k : Key K⦄ where
  get-IsPool :
      (now : ℕ) (connect : Connect S) (addr : K) (pool : ConnectionPool K S)
      → IsPool pool
      → IsPool (get now connect addr pool).1
  unfolding get
  get-IsPool now connect addr pool h = elim (Bool-cases pool.config.enabled) [
    | inl enabled ↦
        let tried = try_get_from_pool now addr pool in
        let stays = try_get_from_pool-IsPool now addr pool h in
        let idle = stays.counted in
        elim (Option-cases tried.0) [
          | inl missed ↦ elim (Result-cases (connect_new connect)) [
            | inl (s, e) ↦
                IsPool-frame tried.1 (get now connect addr pool).1 stays (ground arith)
                  (ground arith) (ground arith)
            | inr (r, e) ↦
                IsPool-frame tried.1 (get now connect addr pool).1 stays (ground arith)
                  (ground arith) (ground arith)
          ]
          | inr (conn, found) ↦
              IsPool-frame tried.1 (get now connect addr pool).1 stays (ground arith) (ground arith)
                (ground arith)
        ]
    | inr disabled ↦
        IsPool-frame pool (get now connect addr pool).1 h (ground arith) (ground arith)
          (ground arith)
  ]

  release-IsPool : (addr : K) (pool : ConnectionPool K S) → IsPool pool → IsPool (release addr pool)
  unfolding release
  release-IsPool addr pool h =
      IsPool-frame pool (release addr pool) h (ground arith) (ground arith) (ground arith)

  abbrev settle_returned : ℕ → K → (Bool × Option K) × ConnectionPool K S → ConnectionPool K S
  settle_returned now addr ((dropped, evicted), pool) = log_capacity_events addr dropped evicted (
      decrement_active addr
        (record_evicted_addr now evicted (record_returned now addr dropped pool)))

  settle_returned-IsPool :
      (now : ℕ) (addr : K) (r : (Bool × Option K) × ConnectionPool K S)
      → IsPending (evictions r.0.1) r.1
      → IsPool (settle_returned now addr r)
  unfolding record_evicted
  settle_returned-IsPool now addr ((dropped, evicted), p) h =
      IsPending-frame (evictions evicted) p (settle_returned now addr ((dropped, evicted), p)) h
        (ground arith) (ground arith) (ground (arith, h.counted)) (ground (arith, h.counted))
        (ground arith)

  abbrev settle_refreshed : ℕ → K → (Bool × Option K) × ConnectionPool K S → ConnectionPool K S
  settle_refreshed now addr ((dropped, evicted), pool) =
      log_capacity_events addr dropped evicted
        (record_evicted_addr now evicted (record_dropped addr dropped pool))

  settle_refreshed-IsPool :
      (now : ℕ) (addr : K) (r : (Bool × Option K) × ConnectionPool K S)
      → IsPending (evictions r.0.1) r.1
      → IsPool (settle_refreshed now addr r)
  unfolding record_evicted
  settle_refreshed-IsPool now addr ((dropped, evicted), p) h =
      IsPending-frame (evictions evicted) p (settle_refreshed now addr ((dropped, evicted), p)) h
        (ground arith) (ground arith) (ground (arith, h.counted)) (ground (arith, h.counted))
        (ground arith)

  put-IsPool :
      (now : ℕ) (addr : K) (s : S) (hint : ReuseHint) (pool : ConnectionPool K S)
      → IsPool pool
      → IsPool (put now addr s hint pool)
  unfolding put record_evicted
  put-IsPool now addr s refresh pool h =
      IsPool-frame pool (put now addr s refresh pool) h (ground arith) (ground arith) (ground arith)
  put-IsPool now addr s reuse pool h = elim (Bool-cases pool.config.enabled) [
    | inr disabled ↦
        IsPool-frame pool (put now addr s reuse pool) h (ground arith) (ground arith) (ground arith)
    | inl enabled ↦
        let before : IsPool (decrement_in_use pool) =
          IsPool-frame pool (decrement_in_use pool) h (ground arith) (ground arith)
            (ground arith) in
        let r = insert_stream now addr s (decrement_in_use pool) in
        subst IsPool {x = settle_returned now addr r} {y = put now addr s reuse pool} (ground arith)
          (settle_returned-IsPool now addr r
            (insert_stream-IsPending now addr s (decrement_in_use pool) before))
  ]

  refresh_connection-IsPool :
      (now : ℕ) (connect : Connect S) (addr : K) (pool : ConnectionPool K S)
      → IsPool pool
      → IsPool (refresh_connection now connect addr pool).1
  unfolding refresh_connection
  refresh_connection-IsPool now connect addr pool h = elim (Result-cases (connect_new connect)) [
    | inr (r, e) ↦
        IsPool-frame pool (refresh_connection now connect addr pool).1 h (ground arith)
          (ground arith) (ground arith)
    | inl (s, e) ↦
        let before : IsPool (refreshed now addr pool) =
          IsPool-frame pool (refreshed now addr pool) h refl refl refl in
        let r = insert_stream now addr s (refreshed now addr pool) in
        subst IsPool {x = settle_refreshed now addr r}
          {y = (refresh_connection now connect addr pool).1} (ground arith)
          (settle_refreshed-IsPool now addr r
            (insert_stream-IsPending now addr s (refreshed now addr pool) before))
  ]

  -- One operation of the pool. The background tasks, which refresh a connection and clean up, run at
  -- any time.
  pub data Step : ConnectionPool K S → ConnectionPool K S → Type 0 where
    gets :
        (now : ℕ) (connect : Connect S) (addr : K) {pool : ConnectionPool K S}
        → Step pool (get now connect addr pool).1
    puts :
        (now : ℕ) (addr : K) (s : S) (hint : ReuseHint) {pool : ConnectionPool K S}
        → Step pool (put now addr s hint pool)
    releases : (addr : K) {pool : ConnectionPool K S} → Step pool (release addr pool)
    refreshes :
        (now : ℕ) (connect : Connect S) (addr : K) {pool : ConnectionPool K S}
        → Step pool (refresh_connection now connect addr pool).1
    cleans_up : (now : ℕ) {pool : ConnectionPool K S} → Step pool (cleanup_expired now pool)

  pub data Steps : ConnectionPool K S → ConnectionPool K S → Type 0 where
    done : {pool : ConnectionPool K S} → Steps pool pool
    after : {p q r : ConnectionPool K S} → Steps p q → Step q r → Steps p r

  pub Step-IsPool : {p q : ConnectionPool K S} → Step p q → IsPool p → IsPool q
  Step-IsPool (gets now connect addr {pool}) h = get-IsPool now connect addr pool h
  Step-IsPool (puts now addr s hint {pool}) h = put-IsPool now addr s hint pool h
  Step-IsPool (releases addr {pool}) h = release-IsPool addr pool h
  Step-IsPool (refreshes now connect addr {pool}) h =
      refresh_connection-IsPool now connect addr pool h
  Step-IsPool (cleans_up now {pool}) h = cleanup_expired-IsPool now pool h

  -- Whatever operations run on a new pool whose limit fits 64 bits, its counter is the number of
  -- its idle connections, which stay within the limits of the configuration, a limit of 0 letting
  -- one in; no vector is empty and no address stands twice.
  pub Steps-IsPool :
      (config : PoolConfig) (telemetry : Option (List (PoolEvent K))) (pool : ConnectionPool K S)
      → config.max_total_idle < word
      → Steps (new_pool config telemetry) pool
      → IsPool pool
  Steps-IsPool config telemetry pool u done = new_pool-IsPool config telemetry u
  Steps-IsPool config telemetry pool u (after steps step) =
      Step-IsPool step (Steps-IsPool config telemetry _ u steps)
