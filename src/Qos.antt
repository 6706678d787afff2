-- ===== src/Qos.antt =====
-- src/qos/mod.rs: the engine that the handler of a connection asks, and the gauge of src/qos/metrics.rs.
pub mod Types
pub mod TokenBucket
pub mod Htb
pub mod Rebalance
pub mod Bandwidth
pub mod Guards
pub mod Connections
mod Tests
use rust_socks.Prelude.{
  ℕ, suc, ◌+◌, Bool, true, false, if◌then◌else◌, leb, ◌==◌, List, [], ◌++◌, Option, none, some,
}
use rust_socks.Prelude.Text.{Text, codes, text_eq}
use rust_socks.Prelude.Decimal.{usize_text}
use rust_socks.Prelude.Machine.{wrapping_add, wrapping_sub}
use rust_socks.Utils.{RustSocksError, config}
use rust_socks.Utils.Result.{Result, ok, err}
use rust_socks.Qos.Types.{QosConfig, ConnectionLimits, UserAllocation}
use rust_socks.Qos.TokenBucket.{Runtime}
use rust_socks.Qos.Htb.{
  HtbQos, new_htb, start, stop, inc_user_connections, dec_user_connections, get_user_connections,
  get_user_allocations,
}
use rust_socks.Qos.Bandwidth.{allocate_bandwidth}

pub data QosEngine : Type 0 where
  disabled : QosEngine
  htb : HtbQos → QosEngine

-- `active_qos_users` is the gauge `ACTIVE_QOS_USERS`, a counter of 64 bits in two's complement.
pub record QosState : Type 0 where
  pub engine : QosEngine
  pub active_qos_users : ℕ

unfoldable pub from_config : ℕ → QosConfig → Result RustSocksError QosEngine
from_config now c =
    if c.enabled
    then (if text_eq c.algorithm (codes "htb")
        then ok (htb (start (new_htb now c.htb)))
        else err (config (codes "Unknown QoS algorithm: " ++ c.algorithm)))
    else ok disabled

abbrev limit_text : Text → ℕ → ℕ → RustSocksError
limit_text start count limit = config (start ++ usize_text count ++ codes "/" ++ usize_text limit)

abbrev user_activated : ℕ → ℕ → ℕ
user_activated count gauge = if count == 1 then wrapping_add gauge 1 else gauge

unfoldable pub check_and_inc_connection :
    ℕ → Text → ConnectionLimits → QosState → Result RustSocksError ℕ × QosState
check_and_inc_connection now user limits state = elim state.engine [
  | disabled ↦ (ok 0, state)
  | htb h ↦
      let user_count = get_user_connections user h in
      let (count, counted) = inc_user_connections now user h in
      if leb limits.max_connections_global h.total_connections
      then (
        err (
            limit_text (codes "Global connection limit reached: ") h.total_connections
              limits.max_connections_global),
        state,
      )
      else (if leb limits.max_connections_per_user user_count
          then (
            err (
                limit_text (codes "User connection limit reached for '" ++ user ++ codes "': ")
                  user_count limits.max_connections_per_user),
            state,
          )
          else (
            ok count,
            record {
              engine = htb counted;
              active_qos_users = user_activated count state.active_qos_users;
            },
          ))
]

unfoldable pub dec_user_connection : Text → QosState → QosState
dec_user_connection user state = elim state.engine [
  | disabled ↦ state
  | htb h ↦
      let (remaining, counted) = dec_user_connections user h in
      record {
        engine = htb counted;
        active_qos_users =
            if remaining == 0
            then wrapping_sub state.active_qos_users 1
            else state.active_qos_users;
      }
]

-- `Drop for QosEngine`, which every clone runs when it goes out of scope.
unfoldable pub drop_engine : QosEngine → QosEngine
drop_engine disabled = disabled
drop_engine (htb h) = htb (stop h)

module _ (rt : Runtime) where
  unfoldable pub engine_allocate_bandwidth : ℕ → ℕ → Text → ℕ → QosEngine → Option (ℕ × QosEngine)
  engine_allocate_bandwidth sleeps now user bytes disabled = some (now, disabled)
  engine_allocate_bandwidth sleeps now user bytes (htb h) =
      elim (allocate_bandwidth rt sleeps now user bytes h) [
        | some (t, after) ↦ some (t, htb after)
        | none ↦ none
      ]

unfoldable pub engine_get_user_connections : Text → QosEngine → ℕ
engine_get_user_connections user disabled = 0
engine_get_user_connections user (htb h) = get_user_connections user h

unfoldable pub engine_get_total_connections : QosEngine → ℕ
engine_get_total_connections disabled = 0
engine_get_total_connections (htb h) = h.total_connections

unfoldable pub engine_get_user_allocations : ℕ → QosEngine → List UserAllocation
engine_get_user_allocations now disabled = []
engine_get_user_allocations now (htb h) = get_user_allocations now h

unfoldable pub is_enabled : QosEngine → Bool
is_enabled disabled = false
is_enabled (htb h) = true
