-- ===== src/Session/History.antt =====
-- src/session/history.rs and src/telemetry.rs: the two histories, which drop what is too old or too
-- much at the front and take the new at the back.
pub mod Bounds
use rust_socks.Prelude.{
  ℕ, suc, ◌-◌, ◌*◌, ◌≤◌, Bool, if◌then◌else◌, ltb, leb, List, [], ◌∷◌, ◌++◌, length, Option,
}
use rust_socks.Prelude.Text.{Text}

pub record MetricsSnapshot : Type 0 where
  pub timestamp : ℕ
  pub active_sessions : ℕ
  pub total_sessions : ℕ
  pub bandwidth : ℕ

pub data TelemetrySeverity : Type 0 where
  info warning error : TelemetrySeverity

-- The details are a JSON value, which stands for itself as its text.
pub record TelemetryEvent : Type 0 where
  pub timestamp : ℕ
  pub severity : TelemetrySeverity
  pub category : Text
  pub message : Text
  pub details : Option Text

module _ {E : Type 0} (timestamp : E → ℕ) where
  -- The loop that pops the front while it is before the cutoff.
  unfoldable pub drop_expired : ℕ → List E → List E
  drop_expired cutoff [] = []
  drop_expired cutoff (e ∷ events) =
      let rest = drop_expired cutoff events in if ltb (timestamp e) cutoff then rest else e ∷ events

  -- The loop that pops the front while there are more than so many.
  unfoldable pub trim : ℕ → List E → List E
  trim bound [] = []
  trim bound (e ∷ events) =
      let rest = trim bound events in if ltb bound (length (e ∷ events)) then rest else e ∷ events

  -- Instants and ages are in the same unit; an age that reaches back before the first instant gives
  -- the cutoff 0.
  unfoldable pub add_event : ℕ → ℕ → ℕ → E → List E → List E
  add_event now max_age bound event events =
      trim bound (drop_expired (now - max_age) events ++ event ∷ [])

  unfoldable pub events_since : ℕ → List E → List E
  events_since cutoff [] = []
  events_since cutoff (e ∷ events) =
      let rest = events_since cutoff events in if leb cutoff (timestamp e) then e ∷ rest else rest

pub record History (E : Type 0) : Type 0 where
  pub events : List E
  pub max_events : ℕ
  pub max_age : ℕ

abbrev pub minutes : ℕ
minutes = 60000000000

abbrev pub add_snapshot : ℕ → MetricsSnapshot → History MetricsSnapshot → History MetricsSnapshot
add_snapshot now snapshot h = record h {
  events = add_event (λ s. s.timestamp) now h.max_age h.max_events snapshot h.events;
}

abbrev pub add_telemetry_event :
    ℕ → TelemetryEvent → History TelemetryEvent → History TelemetryEvent
add_telemetry_event now event h = record h {
  events = add_event (λ e. e.timestamp) now h.max_age h.max_events event h.events;
}

abbrev pub record_event :
    ℕ
    → TelemetrySeverity
    → Text
    → Text
    → Option Text
    → History TelemetryEvent
    → History TelemetryEvent
record_event now severity category message details h =
    add_telemetry_event now
      (record {
        timestamp = now;
        severity = severity;
        category = category;
        message = message;
        details = details;
      })
      h

abbrev pub get_snapshots_since : ℕ → ℕ → History MetricsSnapshot → List MetricsSnapshot
get_snapshots_since now m h = events_since (λ s. s.timestamp) (now - m * minutes) h.events

abbrev pub get_events_since : ℕ → ℕ → History TelemetryEvent → List TelemetryEvent
get_events_since now m h = events_since (λ e. e.timestamp) (now - m * minutes) h.events
