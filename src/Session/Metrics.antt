-- ===== src/Session/Metrics.antt =====
-- src/session/metrics.rs: the gauge and the counters, each of 64 bits.
use rust_socks.Prelude.{ℕ, ltb, if◌then◌else◌, List, [], Option, none, some, ◌++◌, ◌∷◌}
use rust_socks.Prelude.Text.{Text}
use rust_socks.Prelude.Maps.{text_key, lookup, insert}
use rust_socks.Prelude.Machine.{wrapping_add, wrapping_sub}

-- `user_sent` and `user_received` are the two directions of `USER_BANDWIDTH`; `durations` are the
-- observations of the histogram.
pub record SessionMetrics : Type 0 where
  pub active_sessions : ℕ
  pub total_sessions : ℕ
  pub rejected_sessions : ℕ
  pub durations : List ℕ
  pub total_bytes_sent : ℕ
  pub total_bytes_received : ℕ
  pub user_sessions : List (Text × ℕ)
  pub user_sent : List (Text × ℕ)
  pub user_received : List (Text × ℕ)

abbrev pub no_session_metrics : SessionMetrics
no_session_metrics = record {
  active_sessions = 0;
  total_sessions = 0;
  rejected_sessions = 0;
  durations = [];
  total_bytes_sent = 0;
  total_bytes_received = 0;
  user_sessions = [];
  user_sent = [];
  user_received = [];
}

-- `with_label_values(&[user]).inc_by(n)`
unfoldable pub inc_label : Text → ℕ → List (Text × ℕ) → List (Text × ℕ)
inc_label user n counters = elim (lookup user counters) [
  | some old ↦ insert user (wrapping_add old n) counters
  | none ↦ insert user n counters
]

abbrev pub record_session_start : Text → SessionMetrics → SessionMetrics
record_session_start user m = record m {
  active_sessions = wrapping_add m.active_sessions 1;
  total_sessions = wrapping_add m.total_sessions 1;
  user_sessions = inc_label user 1 m.user_sessions;
}

abbrev pub record_session_close : Option ℕ → SessionMetrics → SessionMetrics
record_session_close duration_secs m = record m {
  active_sessions = wrapping_sub m.active_sessions 1;
  durations = elim duration_secs [ some d ↦ m.durations ++ d ∷ [] | none ↦ m.durations ];
}

abbrev pub record_rejected_session : Text → SessionMetrics → SessionMetrics
record_rejected_session user m = record m {
  rejected_sessions = wrapping_add m.rejected_sessions 1;
  user_sessions = inc_label user 1 m.user_sessions;
}

abbrev pub record_traffic : Text → ℕ → ℕ → SessionMetrics → SessionMetrics
record_traffic user bytes_sent bytes_received m = record m {
  total_bytes_sent =
      if ltb 0 bytes_sent then wrapping_add m.total_bytes_sent bytes_sent else m.total_bytes_sent;
  user_sent = if ltb 0 bytes_sent then inc_label user bytes_sent m.user_sent else m.user_sent;
  total_bytes_received =
      if ltb 0 bytes_received
      then wrapping_add m.total_bytes_received bytes_received
      else m.total_bytes_received;
  user_received =
      if ltb 0 bytes_received
      then inc_label user bytes_received m.user_received
      else m.user_received;
}
