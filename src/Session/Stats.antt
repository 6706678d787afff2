-- ===== src/Session/Stats.antt =====
-- src/session/manager.rs: `get_stats`, over the sessions that began within a window.
pub mod Counts
use Prim.Native.Nat.{compare, Ordering}
use rust_socks.Prelude.{
  ℕ, suc, zero, ◌+◌, ◌-◌, ◌≡◌, Bool, true, false, ◌||◌, ◌&&◌, not, if◌then◌else◌, ltb, leb, ◌==◌,
  List, [], ◌∷◌, ◌++◌, map, length, take, Option, none, some,
}
use rust_socks.Prelude.Text.{Text, codes, text_eq, eq_ignore_ascii_case}
use rust_socks.Prelude.Maps.{text_key, lookup, insert}
use rust_socks.Prelude.Machine.{wrapping_add, saturating_add}
use rust_socks.Prelude.Sort.{sort_by}
use rust_socks.Utils.{Outcome, ok, panic}
use rust_socks.Session.Types.{
  Session, SessionStats, UserSessionStat, DestinationStat, AclDecisionStats,
}
use rust_socks.Session.{SessionManager, get_all_sessions}

pub record Totals : Type 0 where
  pub user_counts : List (Text × ℕ)
  pub destination_counts : List (Text × ℕ)
  pub acl_allowed : ℕ
  pub acl_blocked : ℕ
  pub total_sessions : ℕ
  pub total_bytes : ℕ

abbrev pub no_totals : Totals
no_totals = record {
  user_counts = [];
  destination_counts = [];
  acl_allowed = 0;
  acl_blocked = 0;
  total_sessions = 0;
  total_bytes = 0;
}

-- `*map.entry(key).or_insert(0) += 1`
unfoldable pub count_up : Text → List (Text × ℕ) → List (Text × ℕ)
count_up key counts = elim (lookup key counts) [
  | some n ↦ insert key (wrapping_add n 1) counts
  | none ↦ insert key 1 counts
]

-- The closure `aggregate_session`.
unfoldable pub aggregate_session : Session → Totals → Totals
aggregate_session s t =
    let allow = eq_ignore_ascii_case s.acl_decision (codes "allow") in
    let block = not allow && eq_ignore_ascii_case s.acl_decision (codes "block") in
    record {
      user_counts = count_up s.user t.user_counts;
      destination_counts = count_up s.dest_ip t.destination_counts;
      acl_allowed = if allow then wrapping_add t.acl_allowed 1 else t.acl_allowed;
      acl_blocked = if block then wrapping_add t.acl_blocked 1 else t.acl_blocked;
      total_sessions = wrapping_add t.total_sessions 1;
      total_bytes = saturating_add t.total_bytes (saturating_add s.bytes_sent s.bytes_received);
    }

unfoldable pub aggregate : ℕ → List Session → Totals → Totals
aggregate cutoff [] t = t
aggregate cutoff (s ∷ sessions) t =
    if leb cutoff s.start_time
    then aggregate cutoff sessions (aggregate_session s t)
    else aggregate cutoff sessions t

-- `str::cmp`, by bytes.
unfoldable pub text_leq : Text → Text → Bool
text_leq [] t = true
text_leq (a ∷ s) [] = false
text_leq (a ∷ s) (b ∷ t) = let rest = text_leq s t in ltb a b || (a == b) && rest

-- More first, and names in their order where the counts are equal.
unfoldable pub count_leq : Text × ℕ → Text × ℕ → Bool
count_leq (a, n) (b, k) = ltb k n || (n == k) && text_leq a b

abbrev pub top_limit : ℕ
top_limit = 10

unfoldable pub top : List (Text × ℕ) → List (Text × ℕ)
top counts = take top_limit (sort_by count_leq counts)

-- The crate chrono: a duration of std as one of chrono's, where it fits, and the instant that lies so
-- long before another, where there is one, else the subtraction panics.
pub record Chrono : Type 0 where
  pub from_std : ℕ → Option ℕ
  pub before : ℕ → ℕ → Option ℕ

-- `ChronoDuration::hours(24)`
abbrev pub day : ℕ
day = 86400000000000

module _ (chrono : Chrono) where
  abbrev pub from_std_or_day : ℕ → ℕ
  from_std_or_day lookback = elim (chrono.from_std lookback) [ some window ↦ window | none ↦ day ]

  abbrev stats_since : ℕ → ℕ → SessionManager → SessionStats
  stats_since now cutoff m =
      let t = aggregate cutoff (get_all_sessions m) no_totals in
      record {
        generated_at = now;
        active_sessions = length m.active_sessions;
        total_sessions = t.total_sessions;
        total_bytes = t.total_bytes;
        top_users =
            map (λ (p : Text × ℕ). record { user = p.0; sessions = p.1 }) (top t.user_counts);
        top_destinations =
            map (λ (p : Text × ℕ). record { dest_ip = p.0; connections = p.1 })
              (top t.destination_counts);
        acl = record { allowed = t.acl_allowed; blocked = t.acl_blocked };
      }

  abbrev pub stats_at : ℕ → SessionManager → Option ℕ → Outcome SessionStats
  stats_at now m (some cutoff) = ok (stats_since now cutoff m)
  stats_at now m none = panic

  unfoldable pub get_stats : ℕ → ℕ → SessionManager → Outcome SessionStats
  get_stats now lookback m = stats_at now m (chrono.before now (from_std_or_day lookback))
