-- ===== src/Server/Pool/Cleanup.antt =====
-- src/server/pool.rs: what `cleanup_expired` removes, and what it counts.
use rust_socks.Prelude.{
  ℕ, suc, zero, ◌+◌, ◌≤◌, ◌<◌, ◌≡◌, refl, subst, sym, ◌∙◌, Bool, true, false, List, [], ◌∷◌, none,
  All, arith, if◌then◌else◌,
}
use rust_socks.Prelude.Maps.{Key, lookup, DistinctKeys}
use rust_socks.Prelude.Machine.{word}
use rust_socks.Server.Pool.Types.{PoolConfig, PooledConnection, ConnectionPool}
use rust_socks.Server.Pool.Connections.{retain_fresh, is_empty, is_expired}
use rust_socks.Server.Pool.Idle.{record_expired, retain_pools, record_removals, cleanup_expired}
use rust_socks.Server.Pool.Sizes.{length-retain_fresh, idle_count, Within}
use rust_socks.Server.Pool.Invariant.{
  limit, IsPool, IsPool-frame, record_expired-lem, total_idle-lt,
}

module _ {K : Type 0} where
  unfoldable sum : List (K × ℕ) → ℕ
  sum [] = 0
  sum ((addr, n) ∷ removals) = n + sum removals

retain_fresh-fresh :
    {S : Type 0} (config : PoolConfig) (now : ℕ) (conns : List (PooledConnection S))
    → All (λ conn. is_expired config now conn ≡ false) (retain_fresh config now conns)
unfolding retain_fresh
retain_fresh-fresh config now [] = tt
retain_fresh-fresh config now (conn ∷ conns) = ground (arith, retain_fresh-fresh config now conns)

module _ {K S : Type 0} ⦃k : Key K⦄ where
  idle_count-retain_pools :
      (config : PoolConfig) (now : ℕ) (pools : List (K × List (PooledConnection S)))
      → (let (kept, removals) = retain_pools config now pools in
          idle_count kept + sum removals ≡ idle_count pools)
  unfolding retain_pools idle_count sum is_empty
  idle_count-retain_pools config now [] = refl
  idle_count-retain_pools config now ((addr, conns) ∷ pools) =
      ground (arith, idle_count-retain_pools config now pools, length-retain_fresh config now conns)

  Within-retain_pools :
      (bound : ℕ) (config : PoolConfig) (now : ℕ) (pools : List (K × List (PooledConnection S)))
      → Within bound pools
      → Within bound (retain_pools config now pools).0
  unfolding retain_pools is_empty
  Within-retain_pools bound config now [] h = tt
  Within-retain_pools bound config now ((addr, conns) ∷ pools) h =
      ground (
        arith,
        Within-retain_pools bound config now pools h.1,
        length-retain_fresh config now conns,
      )

  lookup-retain_pools :
      (a : K) (config : PoolConfig) (now : ℕ) (pools : List (K × List (PooledConnection S)))
      → lookup a pools ≡ none
      → lookup a (retain_pools config now pools).0 ≡ none
  unfolding retain_pools lookup
  lookup-retain_pools a config now [] h = refl
  lookup-retain_pools a config now ((addr, conns) ∷ pools) h =
      ground (arith, lookup-retain_pools a config now pools)

  DistinctKeys-retain_pools :
      (config : PoolConfig) (now : ℕ) (pools : List (K × List (PooledConnection S)))
      → DistinctKeys pools
      → DistinctKeys (retain_pools config now pools).0
  unfolding retain_pools
  DistinctKeys-retain_pools config now [] d = tt
  DistinctKeys-retain_pools config now ((addr, conns) ∷ pools) d = ground (
    arith,
    DistinctKeys-retain_pools config now pools d.1,
    lookup-retain_pools addr config now pools,
  )

  record_removals-lem :
      (now : ℕ) (removals : List (K × ℕ)) (pool : ConnectionPool K S)
      → sum removals ≤ pool.metrics.total_idle
      → pool.metrics.total_idle < word
      → ((record_removals now removals pool).metrics.total_idle + sum removals
          ≡ pool.metrics.total_idle)
        × ((record_removals now removals pool).pools ≡ pool.pools)
        × ((record_removals now removals pool).config ≡ pool.config)
  unfolding record_removals sum
  record_removals-lem now [] pool l u = (omega arith, refl, refl)
  record_removals-lem now ((addr, n) ∷ removals) pool l u =
      let (t, p, c) = record_expired-lem now addr n pool (omega arith) u in
      let (t', p', c') =
        record_removals-lem now removals (record_expired now addr n pool) (omega arith)
          (omega arith) in
      (omega arith, p' ∙ p, c' ∙ c)

  pub cleanup_expired-IsPool :
      (now : ℕ) (pool : ConnectionPool K S) → IsPool pool → IsPool (cleanup_expired now pool)
  unfolding cleanup_expired
  cleanup_expired-IsPool now pool h =
      let kept = (retain_pools pool.config now pool.pools).0 in
      let removals = (retain_pools pool.config now pool.pools).1 in
      let sizes = idle_count-retain_pools pool.config now pool.pools in
      let smaller = record pool { pools = kept } in
      let (t, p, c) =
        record_removals-lem now removals smaller (omega (arith, h.counted))
          (total_idle-lt pool h) in
      let stays : IsPool
          (record smaller { metrics = record smaller.metrics { total_idle = idle_count kept } }) =
        record {
          counted = refl;
          bounded = omega (arith, h.bounded);
          within =
              Within-retain_pools (limit pool.config.max_idle_per_dest) pool.config now pool.pools
                h.within;
          distinct = DistinctKeys-retain_pools pool.config now pool.pools h.distinct;
          usize = h.usize;
        } in
      IsPool-frame _ (record_removals now removals smaller) stays c p (omega (arith, h.counted))

  record_removals-pools :
      (now : ℕ) (removals : List (K × ℕ)) (pool : ConnectionPool K S)
      → (record_removals now removals pool).pools ≡ pool.pools
  unfolding record_removals record_expired
  record_removals-pools now [] pool = refl
  record_removals-pools now ((addr, zero) ∷ removals) pool = record_removals-pools now removals pool
  record_removals-pools now ((addr, suc n) ∷ removals) pool =
      record_removals-pools now removals (record_expired now addr (suc n) pool)

  abbrev pub AllFresh : PoolConfig → ℕ → List (K × List (PooledConnection S)) → Type 0
  AllFresh config now pools =
      All
        (λ (p : K × List (PooledConnection S)).
          All (λ conn. is_expired config now conn ≡ false) p.1)
        pools

  AllFresh-if :
      (config : PoolConfig) (now : ℕ) (drops : Bool) (p : K × List (PooledConnection S))
      (pools : List (K × List (PooledConnection S)))
      → All (λ conn. is_expired config now conn ≡ false) p.1
      → AllFresh config now pools
      → AllFresh config now (if drops then pools else p ∷ pools)
  AllFresh-if config now true p pools f h = h
  AllFresh-if config now false p pools f h = (f, h)

  retain_pools-fresh :
      (config : PoolConfig) (now : ℕ) (pools : List (K × List (PooledConnection S)))
      → AllFresh config now (retain_pools config now pools).0
  unfolding retain_pools
  retain_pools-fresh config now [] = tt
  retain_pools-fresh config now ((addr, conns) ∷ pools) =
      let kept = retain_fresh config now conns in
      AllFresh-if config now (is_empty kept) (addr, kept) (retain_pools config now pools).0
        (retain_fresh-fresh config now conns) (retain_pools-fresh config now pools)

  -- No connection that is idle after a cleanup had expired at its time.
  pub cleanup_expired-fresh :
      (now : ℕ) (pool : ConnectionPool K S)
      → AllFresh pool.config now (cleanup_expired now pool).pools
  unfolding cleanup_expired
  cleanup_expired-fresh now pool =
      let (kept, removals) = retain_pools pool.config now pool.pools in
      subst (AllFresh pool.config now)
        (sym (record_removals-pools now removals (record pool { pools = kept })))
        (retain_pools-fresh pool.config now pool.pools)
