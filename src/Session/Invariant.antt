-- ===== src/Session/Invariant.antt =====
-- src/session/manager.rs: what holds of the manager's maps, lists and counters.
use rust_socks.Prelude.{
  Bool, ℕ, suc, ◌+◌, ◌%◌, ◌≡◌, ◌≢◌, ◌↔◌, refl, subst, ◌∙◌, List, [], ◌∷◌, ◌++◌, length,
  length-append, All, All-append, arith, Option, none, some, Option-cases, inl, inr, ==_iff,
}
use rust_socks.Prelude.Text.{Text, codes}
use rust_socks.Prelude.Maps.{
  nat_key, lookup, insert, remove, lookup-insert, lookup-remove, lookup-insert-cases,
  lookup-remove-some, length-insert-none, length-insert-some, length-remove-some, DistinctKeys,
  DistinctKeys-insert, DistinctKeys-remove,
}
use rust_socks.Prelude.Machine.{word}
use rust_socks.Session.Types.{
  Uuid, Session, SessionStatus, active, rejected_by_acl, ConnectionInfo, new_session_record, close,
}
use rust_socks.Session.Metrics.{record_traffic, record_session_close}
use rust_socks.Session.{
  SessionManager, TrafficUpdate, new_manager, new_session_with_control, update_traffic,
  with_traffic, queue_traffic_update, to_writer, close_session, track_rejected_session,
}

pub record IsInProgress (id : Uuid) (s : Session) : Type 0 where
  pub numbered : s.session_id ≡ id
  pub status : s.status ≡ active
  pub unended : s.end_time ≡ none

-- The map holds sessions in progress under their own numbers, each with a control, and the lists
-- hold sessions that have ended; the gauge and the counters count them, up to `2 ^ 64`. The worker
-- has no session.
pub record IsManager (m : SessionManager) : Type 0 where
  pub distinct : DistinctKeys m.active_sessions
  pub distinct_controls : DistinctKeys m.session_controls
  pub in_progress :
      (id : Uuid) (s : Session) → lookup id m.active_sessions ≡ some s → IsInProgress id s
  pub controlled :
      (id : Uuid) → (lookup id m.session_controls ≡ none) ↔ (lookup id m.active_sessions ≡ none)
  pub ended : All (λ (s : Session). s.end_time ≢ none) m.closed_sessions
  pub rejections : All (λ (s : Session). s.status ≡ rejected_by_acl) m.rejected_sessions
  pub gauge : m.metrics.active_sessions ≡ length m.active_sessions % word
  pub started :
      m.metrics.total_sessions ≡ (length m.active_sessions + length m.closed_sessions) % word
  pub rejected : m.metrics.rejected_sessions ≡ length m.rejected_sessions % word
  pub worker : m.worker_sessions ≡ []

length-snoc : (xs : List Session) (x : Session) → length (xs ++ x ∷ []) ≡ suc (length xs)
length-snoc xs x = omega (arith, length-append xs (x ∷ []))

pub new_manager-IsManager : IsManager new_manager
unfolding lookup
new_manager-IsManager = record {
  distinct = tt;
  distinct_controls = tt;
  in_progress = λ id s e. cc;
  controlled = λ id. ground arith;
  ended = tt;
  rejections = tt;
  gauge = refl;
  started = refl;
  rejected = refl;
  worker = refl;
}

pub new_session-IsManager :
    (id : Uuid) (now : ℕ) (user : Text) (connection : ConnectionInfo) (decision : Text)
    (rule : Option Text) (udp : Bool) (m : SessionManager)
    → IsManager m
    → lookup id m.active_sessions ≡ none
    → IsManager (new_session_with_control id now user connection decision rule udp m)
unfolding new_session_with_control
new_session-IsManager id now user connection decision rule udp m h fresh = record {
  distinct = DistinctKeys-insert id _ m.active_sessions h.distinct;
  distinct_controls = DistinctKeys-insert id _ m.session_controls h.distinct_controls;
  in_progress = λ i s e. elim (lookup-insert-cases id i _ s m.active_sessions e) [
    | inl (same, is) ↦
        subst (IsInProgress i) is (record { numbered = same; status = refl; unended = refl })
    | inr found ↦ h.in_progress i s found
  ];
  controlled = λ i. ground (
    arith,
    h.controlled i,
    lookup-insert id i (record { udp_shutdown = udp }) m.session_controls,
    lookup-insert id i (new_session_record id now user connection decision rule) m.active_sessions,
  );
  ended = h.ended;
  rejections = h.rejections;
  gauge = ground (
    arith,
    h.gauge,
    length-insert-none id (new_session_record id now user connection decision rule)
        m.active_sessions fresh,
  );
  started = ground (
    arith,
    h.started,
    length-insert-none id (new_session_record id now user connection decision rule)
        m.active_sessions fresh,
  );
  rejected = h.rejected;
  worker = h.worker;
}

pub track_rejected_session-IsManager :
    (id : Uuid) (now : ℕ) (user : Text) (connection : ConnectionInfo) (rule : Option Text)
    (m : SessionManager)
    → IsManager m
    → IsManager (track_rejected_session id now user connection rule m)
unfolding track_rejected_session
track_rejected_session-IsManager id now user connection rule m h = record {
  distinct = h.distinct;
  distinct_controls = h.distinct_controls;
  in_progress = h.in_progress;
  controlled = h.controlled;
  ended = h.ended;
  rejections =
      All-append (λ (s : Session). s.status ≡ rejected_by_acl) m.rejected_sessions _ h.rejections
        (refl, tt);
  gauge = h.gauge;
  started = h.started;
  rejected =
      let session =
        close now (some (codes "Rejected by ACL")) rejected_by_acl
          (new_session_record id now user connection (codes "block") rule) in
      ground (arith, h.rejected, length-snoc m.rejected_sessions session);
  worker = h.worker;
}

pub queue_traffic_update-IsManager :
    (update : TrafficUpdate) (m : SessionManager)
    → IsManager m
    → IsManager (queue_traffic_update update m)
unfolding queue_traffic_update
queue_traffic_update-IsManager update m h = record {
  distinct = h.distinct;
  distinct_controls = h.distinct_controls;
  in_progress = h.in_progress;
  controlled = h.controlled;
  ended = h.ended;
  rejections = h.rejections;
  gauge = h.gauge;
  started = h.started;
  rejected = h.rejected;
  worker = h.worker;
}

pub update_traffic-IsManager :
    (update : TrafficUpdate) (m : SessionManager)
    → IsManager m
    → IsManager (update_traffic update m)
unfolding update_traffic
update_traffic-IsManager update m h =
    elim (Option-cases (lookup update.session_id m.active_sessions)) [
      | inl missing ↦ subst IsManager {x = m} (ground arith) h
      | inr (session, found) ↦
          let id = update.session_id in
          let updated = with_traffic update session in
          let was = h.in_progress id session found in
          subst IsManager
            {x = record m {
              active_sessions = insert id updated m.active_sessions;
              metrics =
                  record_traffic session.user update.bytes_sent update.bytes_received m.metrics;
              batch_writer = to_writer updated m.batch_writer;
            }}
            (ground arith)
            record {
              distinct = DistinctKeys-insert id updated m.active_sessions h.distinct;
              distinct_controls = h.distinct_controls;
              in_progress = λ i s e. elim (lookup-insert-cases id i updated s m.active_sessions e) [
                | inl (same, is) ↦ subst (IsInProgress i) is (record {
                  numbered = was.numbered ∙ same;
                  status = was.status;
                  unended = was.unended;
                })
                | inr there ↦ h.in_progress i s there
              ];
              controlled = λ i. ground (
                arith,
                h.controlled i,
                ==_iff id i,
                lookup-insert id i updated m.active_sessions,
              );
              ended = h.ended;
              rejections = h.rejections;
              gauge =
                  ground
                    (arith, h.gauge, length-insert-some id updated session m.active_sessions found);
              started =
                  ground (
                    arith,
                    h.started,
                    length-insert-some id updated session m.active_sessions found,
                  );
              rejected = h.rejected;
              worker = h.worker;
            }
    ]

pub close_session-IsManager :
    (now : ℕ) (id : Uuid) (reason : Option Text) (status : SessionStatus) (m : SessionManager)
    → IsManager m
    → IsManager (close_session now id reason status m)
unfolding close_session
close_session-IsManager now id reason status m h =
    elim (Option-cases (lookup id m.active_sessions)) [
      | inl missing ↦
          subst IsManager {x = record m { session_controls = remove id m.session_controls }}
            (ground arith)
            record {
              distinct = h.distinct;
              distinct_controls = DistinctKeys-remove id m.session_controls h.distinct_controls;
              in_progress = h.in_progress;
              controlled = λ i. ground (
                arith,
                h.controlled i,
                ==_iff id i,
                lookup-remove id i m.session_controls h.distinct_controls,
              );
              ended = h.ended;
              rejections = h.rejections;
              gauge = h.gauge;
              started = h.started;
              rejected = h.rejected;
              worker = h.worker;
            }
      | inr (session, found) ↦
          let snapshot = close now reason status session in
          subst IsManager
            {x = record m {
              session_controls = remove id m.session_controls;
              active_sessions = remove id m.active_sessions;
              metrics = record_session_close snapshot.duration_secs m.metrics;
              closed_sessions = m.closed_sessions ++ snapshot ∷ [];
              batch_writer = to_writer snapshot m.batch_writer;
            }}
            (ground arith)
            record {
              distinct = DistinctKeys-remove id m.active_sessions h.distinct;
              distinct_controls = DistinctKeys-remove id m.session_controls h.distinct_controls;
              in_progress = λ i s e.
                  h.in_progress i s (lookup-remove-some id i s m.active_sessions h.distinct e);
              controlled = λ i. ground (
                arith,
                h.controlled i,
                lookup-remove id i m.session_controls h.distinct_controls,
                lookup-remove id i m.active_sessions h.distinct,
              );
              ended =
                  All-append (λ (s : Session). s.end_time ≢ none) m.closed_sessions _ h.ended
                    ((λ e. cc), tt);
              rejections = h.rejections;
              gauge =
                  ground (arith, h.gauge, length-remove-some id session m.active_sessions found);
              started = ground (
                arith,
                h.started,
                length-remove-some id session m.active_sessions found,
                length-snoc m.closed_sessions snapshot,
              );
              rejected = h.rejected;
              worker = h.worker;
            }
    ]
