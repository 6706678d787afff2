-- ===== src/Session/Tests.antt =====
-- src/session: the theorems on the manager at concrete states, and runs.
use rust_socks.Prelude.{
  ℕ, ◌-◌, ◌≤◌, ◌<◌, ◌≡◌, ◌⊎◌, ◌||◌, ◌++◌, refl, true, false, if◌then◌else◌, List, [], ◌∷◌, length,
  All, none, some, leb, inl,
}
use rust_socks.Prelude.Text.{codes}
use rust_socks.Prelude.Maps.{nat_key, lookup}
use rust_socks.Acl.Matcher.{Externals, addr4}
use rust_socks.Acl.Types.{block}
use rust_socks.Acl.Engine.{CompiledAclConfig}
use rust_socks.Acl.Engine.Order.{stable}
use rust_socks.Utils.{ok}
use rust_socks.Session.Types.{
  Session, SessionStats, ConnectionInfo, udp, failed, new_session_record,
}
use rust_socks.Session.Batch.{new_writer, enqueue, flush, on_notified}
use rust_socks.Session.History.{drop_expired, trim, add_event}
use rust_socks.Session.History.Bounds.{add_event_bounds}
use rust_socks.Session.Stats.{Chrono, get_stats}
use rust_socks.Session.{
  SessionManager, TrafficUpdate, new_manager, new_session_with_control, queue_traffic_update,
  traffic_worker, close_all_active,
}
use rust_socks.Session.Stats.Counts.{IsStats, get_stats_lem}
use rust_socks.Session.Closing.{ended_sessions, is_some, is_cancelled, close_all_active-cases}
use rust_socks.Session.Revocation.{enforce_acl}
use rust_socks.Session.Blocked.{doomed_in, enforce_acl-cases}
use rust_socks.Session.Invariant.{IsManager}
use rust_socks.Session.Reachable.{
  Changes, unchanged, changed, starts, queues, without_first, Changes-IsManager,
  traffic_worker-drops,
}

abbrev connection : ConnectionInfo
connection = record {
  source_ip = addr4 (10 ∷ 0 ∷ 0 ∷ 1 ∷ []);
  source_port = 50000;
  dest_ip = codes "example.com";
  dest_port = 53;
  protocol = udp;
}

abbrev update : TrafficUpdate
update = record {
  session_id = 7;
  bytes_sent = 100;
  bytes_received = 0;
  packets_sent = 1;
  packets_received = 0;
}

abbrev one : SessionManager
one = new_session_with_control 7 1000 (codes "ann") connection (codes "allow") none true new_manager

abbrev queued : SessionManager
queued = queue_traffic_update update one

-- No text is an address, a network or an expression.
abbrev plain : Externals
plain = record {
  parse_ip = λ text. none;
  is_net = λ text. false;
  net_contains = λ net ip. false;
  is_regex = λ text. false;
  is_match = λ pattern text. false;
  to_lowercase = λ text. text;
}

abbrev deny_all : CompiledAclConfig
deny_all = record { default_policy = block; users = []; groups = []; groups_by_lowercase = [] }

queued-Changes : Changes plain stable new_manager queued
unfolding lookup
queued-Changes =
    changed
      (changed unchanged (starts 7 1000 (codes "ann") connection (codes "allow") none true refl))
      (queues update)

Changes-IsManager_example : IsManager queued
Changes-IsManager_example = Changes-IsManager plain stable queued queued-Changes

traffic_worker-drops_example :
    traffic_worker queued ≡ record queued { traffic = without_first queued.traffic }
traffic_worker-drops_example = traffic_worker-drops plain stable queued queued-Changes

enforce_acl-cases_example :
    (let after = enforce_acl plain stable deny_all 2000 queued in
      let doomed = doomed_in plain stable deny_all (lookup 7 queued.active_sessions) in
      (lookup 7 after.active_sessions ≡ (if doomed then none else lookup 7 queued.active_sessions))
      × (is_cancelled 7 after.signals ≡ doomed || is_cancelled 7 queued.signals))
enforce_acl-cases_example =
    enforce_acl-cases plain stable deny_all 2000 7 queued
      (Changes-IsManager plain stable queued queued-Changes)

close_all_active-cases_example :
    (let after = close_all_active 2000 (codes "Server shutdown") failed queued in
      (after.active_sessions ≡ [])
      × (after.closed_sessions
          ≡ queued.closed_sessions
            ++ ended_sessions 2000 (codes "Server shutdown") failed queued.active_sessions)
      × (is_cancelled 7 after.signals
          ≡ is_some (lookup 7 queued.active_sessions) || is_cancelled 7 queued.signals))
close_all_active-cases_example =
    close_all_active-cases 2000 (codes "Server shutdown") failed 7 queued
      (Changes-IsManager plain stable queued queued-Changes)

-- Durations of at most 2^63-1 milliseconds, and no instant before the first.
abbrev chrono : Chrono
chrono = record {
  from_std = λ d. if leb d 9223372036854775807000000 then some d else none;
  before = λ now d. some (now - d);
}

get_stats_lem_example :
    (stats : SessionStats) × (get_stats chrono 5000 4500 queued ≡ ok stats)
    × IsStats 500 queued stats
get_stats_lem_example = get_stats_lem chrono 5000 4500 4500 500 queued (inl refl) refl

-- Of the events at 1, 5 and 9 the first has expired at 12, and of the rest with 12 two are kept.
add_event_bounds_example :
    (let after = add_event (λ e. e) 12 10 2 12 (1 ∷ 5 ∷ 9 ∷ []) in
      (length after ≤ 2)
      × ((gone : List ℕ) × (gone ++ after ≡ 1 ∷ 5 ∷ 9 ∷ 12 ∷ [])
          × (All (λ e. e < 2) gone ⊎ (length after ≡ 2))))
add_event_bounds_example = add_event_bounds (λ e. e) 12 10 2 12 (1 ∷ 5 ∷ 9 ∷ [])

newest_two : add_event (λ e. e) 12 10 2 12 (1 ∷ 5 ∷ 9 ∷ []) ≡ 9 ∷ 12 ∷ []
unfolding add_event trim drop_expired
newest_two = refl

abbrev session : Session
session = new_session_record 7 1000 (codes "ann") connection (codes "allow") none

-- Two sessions fill a batch of two; when the store fails, they are lost.
batch_lost :
    on_notified false (enqueue session (enqueue session (new_writer 2)))
    ≡ record (new_writer 2) { lost = session ∷ session ∷ [] }
unfolding on_notified enqueue flush
batch_lost = refl
