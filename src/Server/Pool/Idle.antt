-- ===== src/Server/Pool/Idle.antt =====
-- src/server/pool.rs: the idle connections of `ConnectionPool`: taking, inserting, evicting, expiring.
-- The telemetry is the list of the events recorded, the last one first.
use rust_socks.Prelude.{
  ℕ, suc, zero, ◌-◌, Bool, true, false, List, [], ◌∷◌, ◌++◌, length, Option, none, some, ◌==◌, leb,
  if◌then◌else◌,
}
use rust_socks.Prelude.Maps.{Key, lookup, insert, remove}
use rust_socks.Prelude.Machine.{wrapping_add, wrapping_sub}
use rust_socks.Server.Pool.Types.{
  PoolConfig, PoolMetrics, no_metrics, DestinationMetrics, no_destination_metrics, PoolEvent,
  dropped_for_capacity, evicted_oldest, PooledConnection, ConnectionPool,
}
use rust_socks.Server.Pool.Connections.{
  or_else, new_connection, pop_valid, retain_fresh, reverse_onto, is_empty, active_without,
  min_by_time, tail,
}

module _ {K S : Type 0} ⦃k : Key K⦄ where
  abbrev pub new_pool : PoolConfig → Option (List (PoolEvent K)) → ConnectionPool K S
  new_pool config telemetry = record {
    config = config;
    pools = [];
    destination_metrics = [];
    metrics = no_metrics;
    active_counts = [];
    telemetry = telemetry;
  }

  abbrev pub update_metrics : (PoolMetrics → PoolMetrics) → ConnectionPool K S → ConnectionPool K S
  update_metrics f pool = record pool { metrics = f pool.metrics }

  abbrev pub update_destination_metrics :
      K → (DestinationMetrics → DestinationMetrics) → ConnectionPool K S → ConnectionPool K S
  update_destination_metrics addr update pool =
      let entry = or_else no_destination_metrics (lookup addr pool.destination_metrics) in
      record pool { destination_metrics = insert addr (update entry) pool.destination_metrics }

  unfoldable pub record_expired : ℕ → K → ℕ → ConnectionPool K S → ConnectionPool K S
  record_expired now addr zero pool = pool
  record_expired now addr (suc n) pool =
      update_destination_metrics addr
        (λ e. record e { expired = wrapping_add e.expired (suc n); last_activity = some now })
        (update_metrics
          (λ m. record m {
            expired = wrapping_add m.expired (suc n);
            total_idle = wrapping_sub m.total_idle (suc n);
          })
          pool)

  unfoldable pub record_evicted : ℕ → K → ConnectionPool K S → ConnectionPool K S
  record_evicted now addr pool =
      update_destination_metrics addr
        (λ e. record e { evicted = wrapping_add e.evicted 1; last_activity = some now })
        (update_metrics
          (λ m. record m {
            evicted = wrapping_add m.evicted 1;
            total_idle = wrapping_sub m.total_idle 1;
          })
          pool)

  abbrev pub decrement_in_use : ConnectionPool K S → ConnectionPool K S
  decrement_in_use = update_metrics (λ m.
      if m.connections_in_use == 0
      then m
      else record m { connections_in_use = m.connections_in_use - 1 })

  abbrev pub increment_active : K → ConnectionPool K S → ConnectionPool K S
  increment_active addr pool = record pool {
    active_counts =
        insert addr (wrapping_add (or_else 0 (lookup addr pool.active_counts)) 1)
          pool.active_counts;
  }

  abbrev pub decrement_active : K → ConnectionPool K S → ConnectionPool K S
  decrement_active addr pool = record pool {
    active_counts = active_without addr (lookup addr pool.active_counts) pool.active_counts;
  }

  abbrev pub emit_telemetry_event : PoolEvent K → ConnectionPool K S → ConnectionPool K S
  emit_telemetry_event event pool = record pool {
    telemetry = elim pool.telemetry [ none ↦ none | some history ↦ some (event ∷ history) ];
  }

  abbrev pub log_evicted : Option K → ConnectionPool K S → ConnectionPool K S
  log_evicted none pool = pool
  log_evicted (some addr) pool = emit_telemetry_event (evicted_oldest addr) pool

  abbrev pub log_capacity_events : K → Bool → Option K → ConnectionPool K S → ConnectionPool K S
  log_capacity_events addr dropped evicted pool =
      log_evicted evicted
        (if dropped then emit_telemetry_event (dropped_for_capacity addr) pool else pool)

  -- The vector of an address goes back into the map, or its key is removed with it.
  abbrev pub store : K → List (PooledConnection S) → ConnectionPool K S → ConnectionPool K S
  store addr conns pool = record pool {
    pools = if is_empty conns then remove addr pool.pools else insert addr conns pool.pools;
  }

  abbrev pub took : Option (PooledConnection S) → ConnectionPool K S → ConnectionPool K S
  took none pool = pool
  took (some conn) pool =
      update_metrics (λ m. record m { total_idle = wrapping_sub m.total_idle 1 }) pool

  -- `try_get_from_pool`; the connection that is returned stands for its stream, which is all that the
  -- code returns of it.
  unfoldable pub try_get_from_pool :
      ℕ → K → ConnectionPool K S → Option (PooledConnection S) × ConnectionPool K S
  unfolding pop_valid reverse_onto is_empty record_expired
  try_get_from_pool now addr pool = elim (lookup addr pool.pools) [
    | none ↦ (none, pool)
    | some conns ↦
        let (rest, expired, found) = pop_valid pool.config now (reverse_onto [] conns) in
        (
          found,
          record_expired now addr expired (took found (store addr (reverse_onto [] rest) pool)),
        )
  ]

  -- `filter_map` of the first connections, then `min_by_key`, which keeps the first of equal keys
  unfoldable pub candidates : List (K × List (PooledConnection S)) → List (K × ℕ)
  candidates [] = []
  candidates ((addr, []) ∷ pools) = candidates pools
  candidates ((addr, conn ∷ conns) ∷ pools) = (addr, conn.created_at) ∷ candidates pools

  unfoldable pub oldest_addr : List (K × List (PooledConnection S)) → Option K
  unfolding candidates min_by_time
  oldest_addr pools = elim (candidates pools) [ [] ↦ none | c ∷ cs ↦ some (min_by_time c cs).0 ]

  unfoldable pub evict_oldest : ConnectionPool K S → Option K × ConnectionPool K S
  unfolding oldest_addr is_empty
  evict_oldest pool = elim (oldest_addr pool.pools) [
    | none ↦ (none, pool)
    | some addr ↦ elim (lookup addr pool.pools) [
      | none ↦ (some addr, pool)
      | some conns ↦ (some addr, store addr (tail conns) pool)
    ]
  ]

  abbrev pub push_idle : ℕ → K → S → ConnectionPool K S → ConnectionPool K S
  push_idle now addr s pool =
      let conns = or_else [] (lookup addr pool.pools) in
      update_metrics (λ m. record m { total_idle = wrapping_add m.total_idle 1 })
        (record pool { pools = insert addr (conns ++ new_connection now s ∷ []) pool.pools })

  abbrev pub is_full : K → ConnectionPool K S → Bool
  is_full addr pool = elim (lookup addr pool.pools) [
    | none ↦ false
    | some conns ↦ leb pool.config.max_idle_per_dest (length conns)
  ]

  -- Whether the stream was dropped at the limit of its address, and the address of a connection that
  -- was evicted; `inserted` is the negation of the first.
  unfoldable pub insert_stream :
      ℕ → K → S → ConnectionPool K S → (Bool × Option K) × ConnectionPool K S
  unfolding evict_oldest
  insert_stream now addr s pool =
      if is_full addr pool
      then ((true, none), pool)
      else if leb pool.config.max_total_idle pool.metrics.total_idle
      then (let (evicted, pool') = evict_oldest pool in
          ((false, evicted), push_idle now addr s pool'))
      else ((false, none), push_idle now addr s pool)

  -- `cleanup_expired`, and the loop of `start_cleanup_task`: what `retain` keeps of the map, and the
  -- removals that it records, in the order of its iteration
  unfoldable pub retain_pools :
      PoolConfig
      → ℕ
      → List (K × List (PooledConnection S))
      → List (K × List (PooledConnection S)) × List (K × ℕ)
  unfolding retain_fresh is_empty
  retain_pools config now [] = ([], [])
  retain_pools config now ((addr, conns) ∷ pools) =
      let kept = retain_fresh config now conns in
      let (rest, removals) = retain_pools config now pools in
      (
        (if is_empty kept then rest else (addr, kept) ∷ rest),
        (addr, length conns - length kept) ∷ removals,
      )

  unfoldable pub record_removals : ℕ → List (K × ℕ) → ConnectionPool K S → ConnectionPool K S
  unfolding record_expired
  record_removals now [] pool = pool
  record_removals now ((addr, n) ∷ removals) pool =
      record_removals now removals (record_expired now addr n pool)

  unfoldable pub cleanup_expired : ℕ → ConnectionPool K S → ConnectionPool K S
  unfolding retain_pools record_removals
  cleanup_expired now pool =
      let (pools, removals) = retain_pools pool.config now pool.pools in
      record_removals now removals (record pool { pools = pools })
