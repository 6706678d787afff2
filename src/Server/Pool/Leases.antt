-- ===== src/Server/Pool/Leases.antt =====
-- src/server/pool.rs: the counts of the connections in use, through `get` and `release`.
use rust_socks.Prelude.{
  ℕ, suc, zero, ◌<◌, ◌≡◌, ◌≢◌, refl, ap, inl, inr, true, List, [], Option, none, some, arith,
  Option-cases,
}
use rust_socks.Prelude.Maps.{
  Key, lookup, insert, DistinctKeys, DistinctKeys-insert, lookup-insert, lookup-remove,
}
use rust_socks.Utils.Result.{ok, Result-cases}
use rust_socks.Server.Pool.{get, release}
use rust_socks.Prelude.Machine.{word, wrapping_add}
use rust_socks.Server.Pool.Types.{PooledConnection, ConnectionPool, Connect}
use rust_socks.Server.Pool.Connections.{
  or_else, connect_new, active_without, pop_valid, reverse_onto,
}
use rust_socks.Server.Pool.Idle.{store, took, record_expired, try_get_from_pool}

module _ {K : Type 0} ⦃k : Key K⦄ where
  -- Counting an address up and down again.
  counted_back :
      (addr c : K) (counts : List (K × ℕ))
      → DistinctKeys counts
      → lookup addr counts ≢ some 0
      → suc (or_else 0 (lookup addr counts)) < word
      → (let m = insert addr (wrapping_add (or_else 0 (lookup addr counts)) 1) counts in
          lookup c (active_without addr (lookup addr m) m) ≡ lookup c counts)
  counted_back addr c counts d positive b =
      let n = or_else 0 (lookup addr counts) in
      let m = insert addr (wrapping_add n 1) counts in
      let here = lookup-insert addr addr (wrapping_add n 1) counts in
      let there = lookup-insert addr c (wrapping_add n 1) counts in
      let removed = lookup-remove addr c m (DistinctKeys-insert addr (wrapping_add n 1) counts d) in
      let again = lookup-insert addr c n m in
      elim (Option-cases (lookup addr counts)) [
        | inl missing ↦ ground (arith, k.beq_iff addr addr, k.beq_iff addr c)
        | inr (old, e) ↦ ground (arith, k.beq_iff addr addr, k.beq_iff addr c)
      ]

module _ {K S : Type 0} ⦃k : Key K⦄ where
  -- The counts of the connections in use are those of another pool.
  abbrev SameCounts : ConnectionPool K S → ConnectionPool K S → Type 0
  SameCounts p q =
      (p.metrics.connections_in_use ≡ q.metrics.connections_in_use)
      × (p.active_counts ≡ q.active_counts)
      × (p.config ≡ q.config)

  drained-SameCounts :
      (now : ℕ) (addr : K) (n : ℕ) (found : Option (PooledConnection S)) (pool : ConnectionPool K S)
      → SameCounts (record_expired now addr n (took found pool)) pool
  unfolding record_expired
  drained-SameCounts now addr zero none pool = (refl, refl, refl)
  drained-SameCounts now addr zero (some conn) pool = (refl, refl, refl)
  drained-SameCounts now addr (suc n) none pool = (refl, refl, refl)
  drained-SameCounts now addr (suc n) (some conn) pool = (refl, refl, refl)

  try_get_from_pool-SameCounts :
      (now : ℕ) (addr : K) (pool : ConnectionPool K S)
      → SameCounts (try_get_from_pool now addr pool).1 pool
  unfolding try_get_from_pool
  try_get_from_pool-SameCounts now addr pool = elim (Option-cases (lookup addr pool.pools)) [
    | inl missing ↦ (ground arith, ground arith, ground arith)
    | inr (conns, e) ↦
        let result = pop_valid pool.config now (reverse_onto [] conns) in
        let stored = store addr (reverse_onto [] result.0) pool in
        let same = drained-SameCounts now addr result.1 result.2 stored in
        (ground arith, ground arith, ground arith)
  ]

  get-counts :
      (now : ℕ) (connect : Connect S) (addr : K) (s : S) (pool : ConnectionPool K S)
      → pool.config.enabled ≡ true
      → (get now connect addr pool).0 ≡ ok s
      → ((get now connect addr pool).1.metrics.connections_in_use
          ≡ wrapping_add pool.metrics.connections_in_use 1)
        × ((get now connect addr pool).1.active_counts
            ≡ insert addr
                (wrapping_add (or_else 0 (lookup addr pool.active_counts)) 1)
                pool.active_counts)
        × ((get now connect addr pool).1.config ≡ pool.config)
  unfolding get
  get-counts now connect addr s pool on h =
      let (in_use, active, config) = try_get_from_pool-SameCounts now addr pool in
      elim (Option-cases (try_get_from_pool now addr pool).0) [
        | inl missed ↦ elim (Result-cases (connect_new connect)) [
          | inl (t, e) ↦ (ground arith, ground arith, ground arith)
          | inr (r, e) ↦ absurd (ground arith)
        ]
        | inr (conn, found) ↦ (ground arith, ground arith, ground arith)
      ]

  -- While pooling is enabled, releasing a connection that get gave brings the count of the
  -- connections in use and the count of every address back to what they were, if both counters are
  -- below their limit, the counts name no address twice and the address is not counted at zero.
  pub release-get :
      (now : ℕ) (connect : Connect S) (addr : K) (s : S) (pool : ConnectionPool K S)
      → pool.config.enabled ≡ true
      → DistinctKeys pool.active_counts
      → lookup addr pool.active_counts ≢ some 0
      → suc pool.metrics.connections_in_use < word
      → suc (or_else 0 (lookup addr pool.active_counts)) < word
      → (get now connect addr pool).0 ≡ ok s
      → ((release addr (get now connect addr pool).1).metrics.connections_in_use
          ≡ pool.metrics.connections_in_use)
        × ((c : K)
            → lookup c (release addr (get now connect addr pool).1).active_counts
              ≡ lookup c pool.active_counts)
  unfolding release
  release-get now connect addr s pool on d positive b b' h =
      let (in_use, active, config) = get-counts now connect addr s pool on h in
      let left = get now connect addr pool in
      (
        ground arith,
        λ c. ground (
          arith,
          counted_back addr c pool.active_counts d positive b',
          ap (λ m. lookup c (active_without addr (lookup addr m) m)) active,
        ),
      )
