-- ===== src/Qos/Guards.antt =====
-- src/server/handler.rs: the part of `handle_socks5` and of `handle_socks4` that admits a
-- connection, and `ConnectionGuard`, which is dropped when the handler returns.
pub mod Dropped
use rust_socks.Prelude.{ℕ, suc, ◌==◌, Bool, false, if◌then◌else◌, List, [], ◌∷◌}
use rust_socks.Prelude.Text.{Text, text_eq}
use rust_socks.Utils.Result.{ok, err}
use rust_socks.Qos.Types.{ConnectionLimits}
use rust_socks.Qos.{
  QosEngine, disabled, htb, QosState, check_and_inc_connection, dec_user_connection, drop_engine,
}

-- The engine, and the users of the guards that live.
pub record Admitted : Type 0 where
  pub qos : QosState
  pub guards : List Text

pub data ConnectionEvent : Type 0 where
  admit : ℕ → Text → ConnectionEvent
  hang_up : Text → ConnectionEvent

-- Whether the task that hands out the rates runs.
unfoldable pub is_rebalancing : QosEngine → Bool
is_rebalancing disabled = false
is_rebalancing (htb h) = h.rebalancing

unfoldable pub occurrences : Text → List Text → ℕ
occurrences user [] = 0
occurrences user (u ∷ guards) =
    let others = occurrences user guards in if text_eq u user then suc others else others

unfoldable pub remove_one : Text → List Text → List Text
remove_one user [] = []
remove_one user (u ∷ guards) =
    let others = remove_one user guards in if text_eq u user then guards else u ∷ others

-- `Drop for ConnectionGuard`, after which its clone of the engine is dropped.
unfoldable pub drop_guard : Text → QosState → QosState
drop_guard user qos =
    let counted = dec_user_connection user qos in
    record counted { engine = drop_engine counted.engine }

unfoldable pub connection_step : ConnectionLimits → ConnectionEvent → Admitted → Admitted
connection_step limits (admit now user) state =
    let (answer, counted) = check_and_inc_connection now user limits state.qos in
    elim answer [
      | ok count ↦ record { qos = counted; guards = user ∷ state.guards }
      | err e ↦ record { qos = counted; guards = state.guards }
    ]
connection_step limits (hang_up user) state =
    if occurrences user state.guards == 0
    then state
    else record { qos = drop_guard user state.qos; guards = remove_one user state.guards }

unfoldable pub connection_run : ConnectionLimits → List ConnectionEvent → Admitted → Admitted
connection_run limits [] state = state
connection_run limits (event ∷ events) state =
    connection_run limits events (connection_step limits event state)
