-- ===== src/Qos/Types.antt =====
-- src/qos/types.rs: the configuration of the bandwidth limits, and what the API shows of a user.
use rust_socks.Prelude.{ℕ, Bool, true, false}
use rust_socks.Prelude.Text.{Text, codes}

pub record HtbConfig : Type 0 where
  pub global_bandwidth_bytes_per_sec : ℕ
  pub guaranteed_bandwidth_bytes_per_sec : ℕ
  pub max_bandwidth_bytes_per_sec : ℕ
  pub burst_size_bytes : ℕ
  pub refill_interval_ms : ℕ
  pub fair_sharing_enabled : Bool
  pub rebalance_interval_ms : ℕ
  pub idle_timeout_secs : ℕ

abbrev pub default_htb_config : HtbConfig
default_htb_config = record {
  global_bandwidth_bytes_per_sec = 125000000;
  guaranteed_bandwidth_bytes_per_sec = 131072;
  max_bandwidth_bytes_per_sec = 12500000;
  burst_size_bytes = 1048576;
  refill_interval_ms = 50;
  fair_sharing_enabled = true;
  rebalance_interval_ms = 100;
  idle_timeout_secs = 5;
}

pub record ConnectionLimits : Type 0 where
  pub max_connections_per_user : ℕ
  pub max_connections_global : ℕ

abbrev pub default_connection_limits : ConnectionLimits
default_connection_limits = record { max_connections_per_user = 20; max_connections_global = 10000 }

pub record QosConfig : Type 0 where
  pub enabled : Bool
  pub algorithm : Text
  pub htb : HtbConfig
  pub connection_limits : ConnectionLimits

abbrev pub default_qos_config : QosConfig
default_qos_config = record {
  enabled = false;
  algorithm = codes "htb";
  htb = default_htb_config;
  connection_limits = default_connection_limits;
}

pub record UserAllocation : Type 0 where
  pub user : Text
  pub allocated_bandwidth : ℕ
  pub guaranteed_bandwidth : ℕ
  pub max_bandwidth : ℕ
  pub current_demand : ℕ
  pub is_active : Bool
  pub active_connections : ℕ
