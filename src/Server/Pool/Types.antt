-- ===== src/Server/Pool/Types.antt =====
-- src/server/pool.rs: the data of the pool, its configuration and its counters.
use rust_socks.Prelude.{ℕ, Bool, false, List, Option, none}
use rust_socks.Utils.{IoError}

pub record PoolConfig : Type 0 where
  pub enabled : Bool
  pub max_idle_per_dest : ℕ
  pub max_total_idle : ℕ
  pub idle_timeout_secs : ℕ
  pub connect_timeout_ms : ℕ

abbrev pub default_config : PoolConfig
default_config = record {
  enabled = false;
  max_idle_per_dest = 4;
  max_total_idle = 100;
  idle_timeout_secs = 90;
  connect_timeout_ms = 5000;
}

pub record PoolMetrics : Type 0 where
  pub total_created : ℕ
  pub total_reused : ℕ
  pub pool_hits : ℕ
  pub pool_misses : ℕ
  pub dropped_full : ℕ
  pub expired : ℕ
  pub evicted : ℕ
  pub connections_in_use : ℕ
  pub pending_creates : ℕ
  pub total_idle : ℕ

abbrev pub no_metrics : PoolMetrics
no_metrics = record {
  total_created = 0;
  total_reused = 0;
  pool_hits = 0;
  pool_misses = 0;
  dropped_full = 0;
  expired = 0;
  evicted = 0;
  connections_in_use = 0;
  pending_creates = 0;
  total_idle = 0;
}

pub record DestinationMetrics : Type 0 where
  pub total_created : ℕ
  pub total_reused : ℕ
  pub pool_hits : ℕ
  pub pool_misses : ℕ
  pub drops : ℕ
  pub evicted : ℕ
  pub expired : ℕ
  pub in_use : ℕ
  pub last_activity : Option ℕ
  pub last_miss : Option ℕ

abbrev pub no_destination_metrics : DestinationMetrics
no_destination_metrics = record {
  total_created = 0;
  total_reused = 0;
  pool_hits = 0;
  pool_misses = 0;
  drops = 0;
  evicted = 0;
  expired = 0;
  in_use = 0;
  last_activity = none;
  last_miss = none;
}

pub data ReuseHint : Type 0 where
  reuse refresh : ReuseHint

-- What the future of `timeout(.., TcpStream::connect(..))` gives.
pub data Connect (S : Type 0) : Type 0 where
  connected : S → Connect S
  failed : IoError → Connect S
  elapsed : Connect S

pub data PoolEvent (K : Type 0) : Type 0 where
  connection_failed : K → IoError → PoolEvent K
  dropped_for_capacity : K → PoolEvent K
  evicted_oldest : K → PoolEvent K

pub record PooledConnection (S : Type 0) : Type 0 where
  pub stream : S
  pub created_at : ℕ
  pub last_used : ℕ

pub record ConnectionPool (K S : Type 0) : Type 0 where
  pub config : PoolConfig
  pub pools : List (K × List (PooledConnection S))
  pub destination_metrics : List (K × DestinationMetrics)
  pub metrics : PoolMetrics
  pub active_counts : List (K × ℕ)
  pub telemetry : Option (List (PoolEvent K))
