-- ===== src/Session.antt =====
-- src/session/manager.rs: the sessions in memory, with what each operation hands to the store and
-- to the tasks that serve a session.
pub mod Types
pub mod Batch
pub mod Metrics
pub mod History
pub mod Revocation
pub mod Stats
pub mod Invariant
pub mod Reachable
pub mod Closing
pub mod Blocked
mod Tests
use rust_socks.Prelude.{
  ℕ, ◌+◌, ◌-◌, Bool, if◌then◌else◌, List, [], ◌∷◌, ◌++◌, map, Option, none, some,
}
use rust_socks.Prelude.Text.{Text, codes}
use rust_socks.Prelude.Maps.{Key, nat_key, lookup, insert, remove}
use rust_socks.Prelude.Machine.{saturating_add}
use rust_socks.Prelude.Sort.{UnstableSort}
use rust_socks.Protocol.Types.{Address, ipv4, ipv6, domain}
use rust_socks.Acl.Types.{AclDecision, allowed, blocked}
use rust_socks.Acl.Types as AclTypes
use rust_socks.Acl.Matcher.{Externals, IpAddr, addr4, addr6}
use rust_socks.Acl.Engine.{CompiledAclConfig, rule_leq, evaluate}
use rust_socks.Session.Types.{
  Uuid, Session, SessionStatus, active, failed, rejected_by_acl, SessionProtocol, tcp, udp,
  ConnectionInfo, new_session_record, close,
}
use rust_socks.Session.Batch.{BatchWriter, enqueue, flush, shutdown_writer}
use rust_socks.Session.Metrics.{
  SessionMetrics, no_session_metrics, record_session_start, record_session_close,
  record_rejected_session, record_traffic,
}

-- Whether there is a `udp_shutdown` sender. The token is named by the session.
pub record SessionControl : Type 0 where
  pub udp_shutdown : Bool

pub data Signal : Type 0 where
  cancelled : Uuid → Signal
  udp_stopped : Uuid → Signal

pub record TrafficUpdate : Type 0 where
  pub session_id : Uuid
  pub bytes_sent : ℕ
  pub bytes_received : ℕ
  pub packets_sent : ℕ
  pub packets_received : ℕ

-- `worker_sessions` and `traffic` are the map and the channel of the traffic worker, `signals` what
-- was sent over tokens and senders so far. No batch writer stands for a manager without a store.
pub record SessionManager : Type 0 where
  pub active_sessions : List (Uuid × Session)
  pub closed_sessions : List Session
  pub rejected_sessions : List Session
  pub session_controls : List (Uuid × SessionControl)
  pub batch_writer : Option BatchWriter
  pub metrics : SessionMetrics
  pub worker_sessions : List (Uuid × Session)
  pub traffic : List TrafficUpdate
  pub signals : List Signal

-- `active_sessions.clone()` makes a map of its own with the entries of that moment.
abbrev pub new_manager : SessionManager
new_manager = record {
  active_sessions = [];
  closed_sessions = [];
  rejected_sessions = [];
  session_controls = [];
  batch_writer = none;
  metrics = no_session_metrics;
  worker_sessions = [];
  traffic = [];
  signals = [];
}

abbrev pub set_store : BatchWriter → SessionManager → SessionManager
set_store writer m = record m {
  batch_writer = elim m.batch_writer [ some old ↦ some old | none ↦ some writer ];
}

abbrev pub to_writer : Session → Option BatchWriter → Option BatchWriter
to_writer session none = none
to_writer session (some writer) = some (enqueue session writer)

unfoldable pub new_session_with_control :
    Uuid → ℕ → Text → ConnectionInfo → Text → Option Text → Bool → SessionManager → SessionManager
new_session_with_control id now user connection acl_decision acl_rule_matched udp_shutdown m =
    let session = new_session_record id now user connection acl_decision acl_rule_matched in
    record m {
      session_controls = insert id (record { udp_shutdown = udp_shutdown }) m.session_controls;
      metrics = record_session_start user m.metrics;
      batch_writer = to_writer session m.batch_writer;
      active_sessions = insert id session m.active_sessions;
    }

abbrev pub with_traffic : TrafficUpdate → Session → Session
with_traffic update session = record session {
  bytes_sent = saturating_add session.bytes_sent update.bytes_sent;
  bytes_received = saturating_add session.bytes_received update.bytes_received;
  packets_sent = saturating_add session.packets_sent update.packets_sent;
  packets_received = saturating_add session.packets_received update.packets_received;
}

-- `apply_traffic_update` on the manager's own map and writer.
unfoldable pub update_traffic : TrafficUpdate → SessionManager → SessionManager
update_traffic update m = elim (lookup update.session_id m.active_sessions) [
  | none ↦ m
  | some session ↦
      let updated = with_traffic update session in
      record m {
        active_sessions = insert update.session_id updated m.active_sessions;
        metrics = record_traffic session.user update.bytes_sent update.bytes_received m.metrics;
        batch_writer = to_writer updated m.batch_writer;
      }
]

unfoldable pub queue_traffic_update : TrafficUpdate → SessionManager → SessionManager
queue_traffic_update update m = record m { traffic = m.traffic ++ update ∷ [] }

-- One turn of the worker: `apply_traffic_update` on its own map, and no writer.
unfoldable pub traffic_worker : SessionManager → SessionManager
traffic_worker m = elim m.traffic [
  | [] ↦ m
  | update ∷ updates ↦ elim (lookup update.session_id m.worker_sessions) [
    | none ↦ record m { traffic = updates }
    | some session ↦ record m {
      traffic = updates;
      worker_sessions = insert update.session_id (with_traffic update session) m.worker_sessions;
      metrics = record_traffic session.user update.bytes_sent update.bytes_received m.metrics;
    }
  ]
]

unfoldable pub close_session :
    ℕ → Uuid → Option Text → SessionStatus → SessionManager → SessionManager
close_session now id reason status m = elim (lookup id m.active_sessions) [
  | none ↦ record m { session_controls = remove id m.session_controls }
  | some session ↦
      let snapshot = close now reason status session in
      record m {
        session_controls = remove id m.session_controls;
        active_sessions = remove id m.active_sessions;
        metrics = record_session_close snapshot.duration_secs m.metrics;
        closed_sessions = m.closed_sessions ++ snapshot ∷ [];
        batch_writer = to_writer snapshot m.batch_writer;
      }
]

abbrev pub signals_of : Uuid → Option SessionControl → List Signal
signals_of id none = []
signals_of id (some control) =
    cancelled id ∷ (if control.udp_shutdown then udp_stopped id ∷ [] else [])

unfoldable pub terminate_session : ℕ → Uuid → Text → SessionStatus → SessionManager → SessionManager
terminate_session now id reason status m =
    close_session now id (some reason) status
      (record m { signals = m.signals ++ signals_of id (lookup id m.session_controls) })

unfoldable pub track_rejected_session :
    Uuid → ℕ → Text → ConnectionInfo → Option Text → SessionManager → SessionManager
track_rejected_session id now user connection acl_rule m =
    let session =
      close now (some (codes "Rejected by ACL")) rejected_by_acl
        (new_session_record id now user connection (codes "block") acl_rule) in
    record m {
      metrics = record_rejected_session user m.metrics;
      batch_writer = to_writer session m.batch_writer;
      rejected_sessions = m.rejected_sessions ++ session ∷ [];
    }

-- One `terminate_session` after the other.
unfoldable pub terminate_all :
    ℕ → SessionStatus → List (Uuid × Text) → SessionManager → SessionManager
terminate_all now status [] m = m
terminate_all now status ((id, reason) ∷ rest) m =
    terminate_all now status rest (terminate_session now id reason status m)

abbrev pub with_reason : Text → List (Uuid × Session) → List (Uuid × Text)
with_reason reason [] = []
with_reason reason ((id, session) ∷ sessions) = (id, reason) ∷ with_reason reason sessions

unfoldable pub close_all_active : ℕ → Text → SessionStatus → SessionManager → SessionManager
close_all_active now reason status m =
    terminate_all now status (with_reason reason m.active_sessions) m

-- The argument is whether the store takes the last batch.
unfoldable pub shutdown : ℕ → Bool → SessionManager → SessionManager
shutdown now saved m =
    let ended = close_all_active now (codes "Server shutdown") failed m in
    record ended {
      batch_writer = elim ended.batch_writer [
        | some writer ↦ some (shutdown_writer saved writer)
        | none ↦ none
      ];
    }

abbrev pub values : List (Uuid × Session) → List Session
values [] = []
values ((id, session) ∷ sessions) = session ∷ values sessions

abbrev pub get_all_sessions : SessionManager → List Session
get_all_sessions m = values m.active_sessions ++ (m.closed_sessions ++ m.rejected_sessions)
