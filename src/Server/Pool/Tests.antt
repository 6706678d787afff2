-- ===== src/Server/Pool/Tests.antt =====
-- src/server/pool.rs: the theorems on the pool at concrete states.
use rust_socks.Prelude.{
  ◌≢◌, ◌<◌, if◌then◌else◌, ◌++◌, ℕ, ◌≡◌, refl, true, false, ◌⊎◌, List, [], ◌∷◌, none, some, ◌==◌,
  All, arith,
}
use rust_socks.Prelude.Maps.{nat_key, lookup, DistinctKeys}
use rust_socks.Utils.Result.{ok}
use rust_socks.Server.Pool.Types.{
  PoolConfig, PooledConnection, ConnectionPool, connected, reuse, default_config,
}
use rust_socks.Server.Pool.{get, put, release}
use rust_socks.Server.Pool.Connections.{new_connection, is_expired}
use rust_socks.Server.Pool.Idle.{try_get_from_pool, new_pool, store, evict_oldest, cleanup_expired}
use rust_socks.Server.Pool.Reuse.{Expired, idle, try_get_from_pool-cases}
use rust_socks.Server.Pool.Leases.{release-get}
use rust_socks.Server.Pool.Invariant.{IsPool}
use rust_socks.Server.Pool.Eviction.{Younger, evict_oldest-cases}
use rust_socks.Server.Pool.Cleanup.{AllFresh, cleanup_expired-fresh}
use rust_socks.Server.Pool.Reachable.{done, after, gets, puts, Steps-IsPool}

abbrev config : PoolConfig
config = record default_config { enabled = true }

abbrev start : ConnectionPool ℕ ℕ
start = new_pool config none

abbrev served : ConnectionPool ℕ ℕ
served = put 5 1 70 reuse (get 3 (connected 70) 1 start).1

Steps-IsPool_example : IsPool served
Steps-IsPool_example =
    Steps-IsPool config none served (ground arith)
      (after (after done (gets 3 (connected 70) 1)) (puts 5 1 70 reuse))

abbrev older : PooledConnection ℕ
older = new_connection 3 70

abbrev younger : PooledConnection ℕ
younger = new_connection 9 71

abbrev stocked : ConnectionPool ℕ ℕ
stocked = record start { pools = (1, younger ∷ []) ∷ (2, older ∷ []) ∷ [] }

stocked-DistinctKeys : DistinctKeys stocked.pools
unfolding lookup
stocked-DistinctKeys = (refl, (refl, tt))

evict_oldest-cases_example :
    ((evict_oldest stocked ≡ (none, stocked)) × (stocked.pools ≡ []))
    ⊎ ((addr : ℕ) × (conn : PooledConnection ℕ) × (rest : List (PooledConnection ℕ)) × (lookup addr
            stocked.pools
          ≡ some (conn ∷ rest))
        × (evict_oldest stocked ≡ (some addr, store addr rest stocked))
        × All (Younger conn.created_at) stocked.pools)
evict_oldest-cases_example = evict_oldest-cases 4 stocked stocked-DistinctKeys (ground arith)

stocked-AllFresh : AllFresh config 90000000010 (cleanup_expired 90000000010 stocked).pools
stocked-AllFresh = cleanup_expired-fresh 90000000010 stocked

try_get_from_pool-cases_example :
    (((try_get_from_pool 10 2 stocked).0 ≡ none)
      × All (Expired config 10) (idle 2 stocked)
      × ((c : ℕ)
          → idle c (try_get_from_pool 10 2 stocked).1 ≡ (if 2 == c then [] else idle c stocked)))
    ⊎ ((before : List (PooledConnection ℕ)) × (conn : PooledConnection ℕ) × (behind : List
          (PooledConnection ℕ))
        × (idle 2 stocked ≡ before ++ conn ∷ behind)
        × All (Expired config 10) behind
        × (is_expired config 10 conn ≡ false)
        × ((try_get_from_pool 10 2 stocked).0 ≡ some conn)
        × ((c : ℕ)
            → idle c (try_get_from_pool 10 2 stocked).1
              ≡ (if 2 == c then before else idle c stocked)))
try_get_from_pool-cases_example = try_get_from_pool-cases 10 2 stocked stocked-DistinctKeys

not_counted : lookup 1 start.active_counts ≢ some 0
unfolding lookup
not_counted e = cc

nothing_counted : 1 < 18446744073709551616
nothing_counted = omega arith

got : (get 3 (connected 70) 1 start).0 ≡ ok 70
unfolding get try_get_from_pool lookup
got = refl

release-get_example :
    ((release 1 (get 3 (connected 70) 1 start).1).metrics.connections_in_use
      ≡ start.metrics.connections_in_use)
    × ((c : ℕ)
        → lookup c (release 1 (get 3 (connected 70) 1 start).1).active_counts
          ≡ lookup c start.active_counts)
unfolding lookup
release-get_example =
    release-get 3 (connected 70) 1 70 start refl tt not_counted nothing_counted nothing_counted got
