-- ===== src/Session/Reachable.antt =====
-- src/session/manager.rs: the operations as steps, and what holds in every state that they reach.
use rust_socks.Prelude.{ℕ, ◌≡◌, refl, subst, sym, Bool, List, [], ◌∷◌, Option, none, arith}
use rust_socks.Prelude.Text.{Text}
use rust_socks.Prelude.Maps.{nat_key, lookup}
use rust_socks.Prelude.Sort.{UnstableSort}
use rust_socks.Acl.Matcher.{Externals}
use rust_socks.Acl.Engine.{CompiledAclConfig, rule_leq}
use rust_socks.Session.Types.{Uuid, SessionStatus, ConnectionInfo}
use rust_socks.Session.Batch.{BatchWriter}
use rust_socks.Session.{
  SessionManager, TrafficUpdate, new_manager, set_store, new_session_with_control, update_traffic,
  queue_traffic_update, traffic_worker, close_session, terminate_session, track_rejected_session,
  close_all_active, with_reason,
}
use rust_socks.Session.Revocation.{enforce_acl, to_terminate}
use rust_socks.Session.Invariant.{
  IsManager, new_manager-IsManager, new_session-IsManager, update_traffic-IsManager,
  close_session-IsManager, track_rejected_session-IsManager, queue_traffic_update-IsManager,
}
use rust_socks.Session.Closing.{terminate_session-IsManager, terminate_all-IsManager}

set_store-IsManager :
    (writer : BatchWriter) (m : SessionManager) → IsManager m → IsManager (set_store writer m)
set_store-IsManager writer m h = record {
  distinct = h.distinct;
  distinct_controls = h.distinct_controls;
  in_progress = h.in_progress;
  controlled = h.controlled;
  ended = h.ended;
  rejections = h.rejections;
  gauge = h.gauge;
  started = h.started;
  rejected = h.rejected;
  worker = h.worker;
}

abbrev pub without_first : List TrafficUpdate → List TrafficUpdate
without_first [] = []
without_first (update ∷ updates) = updates

traffic_worker_empty :
    (updates : List TrafficUpdate) (m : SessionManager)
    → m.worker_sessions ≡ []
    → traffic_worker (record m { traffic = updates }) ≡ record m { traffic = without_first updates }
unfolding traffic_worker lookup
traffic_worker_empty [] m e = refl
traffic_worker_empty (update ∷ updates) m e = ground (arith, e)

traffic_worker-IsManager : (m : SessionManager) → IsManager m → IsManager (traffic_worker m)
traffic_worker-IsManager m h =
    subst IsManager (sym (traffic_worker_empty m.traffic m h.worker)) (record {
      distinct = h.distinct;
      distinct_controls = h.distinct_controls;
      in_progress = h.in_progress;
      controlled = h.controlled;
      ended = h.ended;
      rejections = h.rejections;
      gauge = h.gauge;
      started = h.started;
      rejected = h.rejected;
      worker = h.worker;
    })

module _ (ext : Externals) (unstable : UnstableSort rule_leq) where
  -- One operation of the manager. A new session has a number that no active one has.
  pub data Change : SessionManager → SessionManager → Type 0 where
    stores : (writer : BatchWriter) {m : SessionManager} → Change m (set_store writer m)
    starts :
        (id : Uuid) (now : ℕ) (user : Text) (connection : ConnectionInfo) (decision : Text)
        (rule : Option Text) (udp_shutdown : Bool) {m : SessionManager}
        → lookup id m.active_sessions ≡ none
        → Change m (new_session_with_control id now user connection decision rule udp_shutdown m)
    updates : (update : TrafficUpdate) {m : SessionManager} → Change m (update_traffic update m)
    queues :
        (update : TrafficUpdate) {m : SessionManager} → Change m (queue_traffic_update update m)
    works : {m : SessionManager} → Change m (traffic_worker m)
    closes :
        (now : ℕ) (id : Uuid) (reason : Option Text) (status : SessionStatus) {m : SessionManager}
        → Change m (close_session now id reason status m)
    terminates :
        (now : ℕ) (id : Uuid) (reason : Text) (status : SessionStatus) {m : SessionManager}
        → Change m (terminate_session now id reason status m)
    rejects :
        (id : Uuid) (now : ℕ) (user : Text) (connection : ConnectionInfo) (rule : Option Text)
        {m : SessionManager}
        → Change m (track_rejected_session id now user connection rule m)
    closes_all :
        (now : ℕ) (reason : Text) (status : SessionStatus) {m : SessionManager}
        → Change m (close_all_active now reason status m)
    enforces :
        (engine : CompiledAclConfig) (now : ℕ) {m : SessionManager}
        → Change m (enforce_acl ext unstable engine now m)

  pub data Changes : SessionManager → SessionManager → Type 0 where
    unchanged : {m : SessionManager} → Changes m m
    changed : {p q r : SessionManager} → Changes p q → Change q r → Changes p r

  Change-IsManager : {m n : SessionManager} → Change m n → IsManager m → IsManager n
  unfolding close_all_active enforce_acl
  Change-IsManager (stores writer {m}) h = set_store-IsManager writer m h
  Change-IsManager (starts id now user connection decision rule udp_shutdown {m} fresh) h =
      new_session-IsManager id now user connection decision rule udp_shutdown m h fresh
  Change-IsManager (updates update {m}) h = update_traffic-IsManager update m h
  Change-IsManager (queues update {m}) h = queue_traffic_update-IsManager update m h
  Change-IsManager (works {m}) h = traffic_worker-IsManager m h
  Change-IsManager (closes now id reason status {m}) h =
      close_session-IsManager now id reason status m h
  Change-IsManager (terminates now id reason status {m}) h =
      terminate_session-IsManager now id reason status m h
  Change-IsManager (rejects id now user connection rule {m}) h =
      track_rejected_session-IsManager id now user connection rule m h
  Change-IsManager (closes_all now reason status {m}) h =
      terminate_all-IsManager now status (with_reason reason m.active_sessions) m h
  Change-IsManager (enforces engine now {m}) h =
      terminate_all-IsManager now SessionStatus.failed
        (to_terminate ext unstable engine m.active_sessions) m h

  -- Whatever operations run on a new manager, new sessions having numbers that no active one has:
  -- active sessions stand under their own numbers and each has its control, closed ones have an end,
  -- rejected ones their status, and the gauge and the counters count them up to `2 ^ 64`.
  pub Changes-IsManager : (m : SessionManager) → Changes new_manager m → IsManager m
  Changes-IsManager m unchanged = new_manager-IsManager
  Changes-IsManager m (changed {p} {q} {r} before change) =
      Change-IsManager change (Changes-IsManager q before)

  -- In every state that is reached, the worker takes the next update off the channel and nothing
  -- else changes: no session's traffic is counted, and no metric.
  pub traffic_worker-drops :
      (m : SessionManager)
      → Changes new_manager m
      → traffic_worker m ≡ record m { traffic = without_first m.traffic }
  traffic_worker-drops m changes =
      traffic_worker_empty m.traffic m (Changes-IsManager m changes).worker
