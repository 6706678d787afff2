-- ===== src/Server/Pool/Invariant.antt =====
-- src/server/pool.rs: the counter of the idle connections and the limits, through every operation.
use rust_socks.Prelude.{
  ℕ, suc, zero, ◌+◌, ◌≤◌, ◌<◌, max, ◌≡◌, refl, subst, sym, ◌∙◌, inl, inr, List, [], length, Option,
  none, some, arith, Option-cases,
}
use rust_socks.Prelude.Maps.{Key, lookup, DistinctKeys}
use rust_socks.Prelude.Machine.{word}
use rust_socks.Server.Pool.Types.{PoolConfig, PooledConnection, ConnectionPool, PoolEvent}
use rust_socks.Server.Pool.Connections.{pop_valid, reverse_onto}
use rust_socks.Server.Pool.Idle.{new_pool, record_expired, store, took, try_get_from_pool}
use rust_socks.Server.Pool.Sizes.{
  length-reverse_onto, count, length-pop_valid, idle_count, Within, idle_count-store, Within-store,
  DistinctKeys-store,
}

abbrev pub limit : ℕ → ℕ
limit n = max 1 n

module _ {K S : Type 0} ⦃k : Key K⦄ where
  -- The atomic counter is the number of idle connections, which are within the two limits of the
  -- configuration, where a limit of 0 lets one in. No vector is empty, no address has two.
  pub record IsPool (pool : ConnectionPool K S) : Type 0 where
    pub counted : pool.metrics.total_idle ≡ idle_count pool.pools
    pub bounded : idle_count pool.pools ≤ limit pool.config.max_total_idle
    pub within : Within (limit pool.config.max_idle_per_dest) pool.pools
    pub distinct : DistinctKeys pool.pools
    pub usize : pool.config.max_total_idle < word

  pub new_pool-IsPool :
      (config : PoolConfig) (telemetry : Option (List (PoolEvent K)))
      → config.max_total_idle < word
      → IsPool (new_pool config telemetry)
  unfolding idle_count
  new_pool-IsPool config telemetry h = record {
    counted = refl;
    bounded = omega arith;
    within = tt;
    distinct = tt;
    usize = h;
  }

  -- What `record_expired` leaves alone, and the counter after it.
  pub record_expired-lem :
      (now : ℕ) (addr : K) (n : ℕ) (pool : ConnectionPool K S)
      → n ≤ pool.metrics.total_idle
      → pool.metrics.total_idle < word
      → ((record_expired now addr n pool).metrics.total_idle + n ≡ pool.metrics.total_idle)
        × ((record_expired now addr n pool).pools ≡ pool.pools)
        × ((record_expired now addr n pool).config ≡ pool.config)
  unfolding record_expired
  record_expired-lem now addr zero pool l u = (omega arith, refl, refl)
  record_expired-lem now addr (suc n) pool l u = (omega arith, refl, refl)

  -- The invariant reads only the configuration, the map and one counter.
  pub IsPool-frame :
      (p q : ConnectionPool K S)
      → IsPool p
      → q.config ≡ p.config
      → q.pools ≡ p.pools
      → q.metrics.total_idle ≡ p.metrics.total_idle
      → IsPool q
  IsPool-frame p q h c m t = record {
    counted = ground (arith, h.counted);
    bounded =
        subst (λ x. idle_count x ≤ limit q.config.max_total_idle) (sym m)
          (subst (λ c. idle_count p.pools ≤ limit c.max_total_idle) (sym c) h.bounded);
    within =
        subst (λ x. Within (limit q.config.max_idle_per_dest) x) (sym m)
          (subst (λ c. Within (limit c.max_idle_per_dest) p.pools) (sym c) h.within);
    distinct = subst DistinctKeys (sym m) h.distinct;
    usize = subst (λ c. c.max_total_idle < word) (sym c) h.usize;
  }

  pub total_idle-lt : (pool : ConnectionPool K S) → IsPool pool → pool.metrics.total_idle < word
  total_idle-lt pool h = ground (arith, h.counted, h.bounded, h.usize)

  took-lem :
      (found : Option (PooledConnection S)) (pool : ConnectionPool K S)
      → count found ≤ pool.metrics.total_idle
      → pool.metrics.total_idle < word
      → ((took found pool).metrics.total_idle + count found ≡ pool.metrics.total_idle)
        × ((took found pool).pools ≡ pool.pools)
        × ((took found pool).config ≡ pool.config)
  took-lem none pool l u = (omega arith, refl, refl)
  took-lem (some conn) pool l u = (omega arith, refl, refl)

  -- A part of the vector of an address goes back, and what is not in it is counted off.
  drained :
      (now : ℕ) (addr : K) (conns kept : List (PooledConnection S)) (expired : ℕ)
      (found : Option (PooledConnection S)) (pool : ConnectionPool K S)
      → IsPool pool
      → lookup addr pool.pools ≡ some conns
      → length kept + (expired + count found) ≡ length conns
      → IsPool (record_expired now addr expired (took found (store addr kept pool)))
  drained now addr conns kept expired found pool h e l =
      let sizes = idle_count-store addr conns kept pool e in
      let stored = store addr kept pool in
      let below = total_idle-lt pool h in
      let (t, tp, tc) = took-lem found stored (omega (arith, h.counted)) below in
      let left = took found stored in
      let (r, rp, rc) =
        record_expired-lem now addr expired left (omega (arith, h.counted)) (omega arith) in
      let counted : stored.metrics.total_idle ≡ expired + count found + idle_count stored.pools =
        omega (arith, h.counted) in
      let stays : IsPool (record stored {
        metrics = record stored.metrics { total_idle = idle_count stored.pools };
      }) =
        record {
          counted = refl;
          bounded = omega (arith, h.bounded);
          within =
              Within-store (limit pool.config.max_idle_per_dest) addr conns kept pool e
                (omega arith) h.within;
          distinct = DistinctKeys-store addr kept pool h.distinct;
          usize = h.usize;
        } in
      IsPool-frame _ (record_expired now addr expired left) stays (rc ∙ tc) (rp ∙ tp) (omega arith)

  -- Taking a connection, with all that expired before it, keeps the invariant.
  pub try_get_from_pool-IsPool :
      (now : ℕ) (addr : K) (pool : ConnectionPool K S)
      → IsPool pool
      → IsPool (try_get_from_pool now addr pool).1
  unfolding try_get_from_pool
  try_get_from_pool-IsPool now addr pool h = elim (Option-cases (lookup addr pool.pools)) [
    | inl e ↦ subst IsPool (ground arith) h
    | inr (conns, e) ↦
        let result = pop_valid pool.config now (reverse_onto [] conns) in
        let kept = reverse_onto [] result.0 in
        let whole = length-pop_valid pool.config now (reverse_onto [] conns) in
        let stays =
          drained now addr conns kept result.1 result.2 pool h e
            (omega (arith, whole, length-reverse_onto [] conns, length-reverse_onto [] result.0)) in
        subst IsPool (ground arith) stays
  ]
