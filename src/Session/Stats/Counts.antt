-- ===== src/Session/Stats/Counts.antt =====
-- src/session/manager.rs: the totals of `get_stats` count what they say.
use rust_socks.Prelude.{
  ℕ, suc, ◌+◌, ◌-◌, ◌%◌, ◌<◌, not, min, ◌≡◌, true, Bool, Bool-cases, ◌&&◌, if◌then◌else◌, leb, List,
  [], ◌∷◌, arith, Option, none, some, Option-cases, inl, inr, ◌⊎◌, ◌++◌, ◌*◌, map, length, ap, ◌∙◌,
  refl,
}
use rust_socks.Prelude.Text.{Text, codes, text_eq, text_eq_iff, eq_ignore_ascii_case}
use rust_socks.Prelude.Maps.{text_key, lookup, lookup-insert}
use rust_socks.Prelude.Machine.{word}
use rust_socks.Utils.{ok}
use rust_socks.Session.Types.{Uuid, Session, SessionStats}
use rust_socks.Session.Stats.{
  Chrono, from_std_or_day, stats_since, stats_at, Totals, no_totals, count_up, aggregate_session,
  aggregate, get_stats,
}
use rust_socks.Session.{SessionManager, get_all_sessions}

-- The sessions of a window, and those of them that pass a test.
unfoldable pub sessions_with : (Session → Bool) → ℕ → List Session → ℕ
sessions_with test cutoff [] = 0
sessions_with test cutoff (s ∷ sessions) =
    let others = sessions_with test cutoff sessions in
    if leb cutoff s.start_time && test s then suc others else others

abbrev count_of : Option ℕ → ℕ
count_of none = 0
count_of (some n) = n

count_up_lem :
    (key u : Text) (counts : List (Text × ℕ))
    → count_of (lookup u (count_up key counts)) ≡ (
        if text_eq key u
        then (count_of (lookup u counts) + 1) % word
        else count_of (lookup u counts))
unfolding count_up
count_up_lem key u counts = elim (Option-cases (lookup key counts)) [
  | inl e ↦ ground (arith, text_eq_iff key u, lookup-insert key u 1 counts)
  | inr (n, e) ↦ ground (arith, text_eq_iff key u, lookup-insert key u ((n + 1) % word) counts)
]

-- The bytes of the sessions of a window, both ways.
unfoldable pub bytes_in : ℕ → List Session → ℕ
bytes_in cutoff [] = 0
bytes_in cutoff (s ∷ sessions) =
    let others = bytes_in cutoff sessions in
    if leb cutoff s.start_time then s.bytes_sent + s.bytes_received + others else others

abbrev pub was_allowed : Session → Bool
was_allowed s = eq_ignore_ascii_case s.acl_decision (codes "allow")

abbrev pub was_blocked : Session → Bool
was_blocked s = not (was_allowed s) && eq_ignore_ascii_case s.acl_decision (codes "block")

-- Totals that fit a counter.
record IsTotals (t : Totals) : Type 0 where
  total : t.total_sessions < word
  allow : t.acl_allowed < word
  block : t.acl_blocked < word
  bytes : t.total_bytes < word

aggregate_session-IsTotals :
    (s : Session) (t : Totals) → IsTotals t → IsTotals (aggregate_session s t)
unfolding aggregate_session
aggregate_session-IsTotals s t h = record {
  total = omega arith;
  allow = ground (arith, h.allow);
  block = ground (arith, h.block);
  bytes = omega arith;
}

module _ (cutoff : ℕ) where
  abbrev counted : (Session → Bool) → List Session → ℕ
  counted test sessions = sessions_with test cutoff sessions

  -- The totals after some more sessions.
  record IsCountOf (sessions : List Session) (t after : Totals) : Type 0 where
    total : after.total_sessions ≡ (t.total_sessions + counted (λ s. true) sessions) % word
    allow : after.acl_allowed ≡ (t.acl_allowed + counted was_allowed sessions) % word
    block : after.acl_blocked ≡ (t.acl_blocked + counted was_blocked sessions) % word
    bytes : after.total_bytes ≡ min (t.total_bytes + bytes_in cutoff sessions) (word - 1)
    users :
        (u : Text)
        → count_of (lookup u after.user_counts) % word
          ≡ (count_of (lookup u t.user_counts) + counted (λ s. text_eq s.user u) sessions) % word

  aggregate-IsCountOf :
      (sessions : List Session) (t : Totals)
      → IsTotals t
      → IsCountOf sessions t (aggregate cutoff sessions t)
  unfolding aggregate sessions_with bytes_in aggregate_session
  aggregate-IsCountOf [] t h = record {
    total = omega (arith, h.total);
    allow = omega (arith, h.allow);
    block = omega (arith, h.block);
    bytes = omega (arith, h.bytes);
    users = λ u. omega arith;
  }
  aggregate-IsCountOf (s ∷ sessions) t h = elim (Bool-cases (leb cutoff s.start_time)) [
    | inl inside ↦
        let rest =
          aggregate-IsCountOf sessions (aggregate_session s t) (aggregate_session-IsTotals s t h) in
        record {
          total = ground (arith, rest.total);
          allow = ground (arith, rest.allow);
          block = ground (arith, rest.block);
          bytes = ground (arith, rest.bytes);
          users = λ u. ground (arith, rest.users u, count_up_lem s.user u t.user_counts);
        }
    | inr outside ↦
        let rest = aggregate-IsCountOf sessions t h in
        record {
          total = ground (arith, rest.total);
          allow = ground (arith, rest.allow);
          block = ground (arith, rest.block);
          bytes = ground (arith, rest.bytes);
          users = λ u. ground (arith, rest.users u);
        }
  ]

sessions_with-append :
    (test : Session → Bool) (cutoff : ℕ) (xs ys : List Session)
    → sessions_with test cutoff (xs ++ ys)
      ≡ sessions_with test cutoff xs + sessions_with test cutoff ys
unfolding sessions_with
sessions_with-append test cutoff [] ys = omega arith
sessions_with-append test cutoff (s ∷ xs) ys =
    ground (arith, sessions_with-append test cutoff xs ys)

bytes_in-append :
    (cutoff : ℕ) (xs ys : List Session)
    → bytes_in cutoff (xs ++ ys) ≡ bytes_in cutoff xs + bytes_in cutoff ys
unfolding bytes_in
bytes_in-append cutoff [] ys = omega arith
bytes_in-append cutoff (s ∷ xs) ys = ground (arith, bytes_in-append cutoff xs ys)

-- The same over the sessions that a manager has: active, closed and rejected ones.
abbrev pub in_manager : (List Session → ℕ) → SessionManager → ℕ
in_manager measure m =
    measure (map (λ (p : Uuid × Session). p.1) m.active_sessions)
    + (measure m.closed_sessions + measure m.rejected_sessions)

-- What `get_stats` counts from a cutoff on.
pub record IsStats (cutoff : ℕ) (m : SessionManager) (stats : SessionStats) : Type 0 where
  pub total : stats.total_sessions ≡ in_manager (sessions_with (λ s. true) cutoff) m % word
  pub allowed : stats.acl.allowed ≡ in_manager (sessions_with was_allowed cutoff) m % word
  pub blocked : stats.acl.blocked ≡ in_manager (sessions_with was_blocked cutoff) m % word
  pub bytes : stats.total_bytes ≡ min (in_manager (bytes_in cutoff) m) (word - 1)
  pub active : stats.active_sessions ≡ length m.active_sessions

stats_since-IsStats :
    (chrono : Chrono) (now cutoff : ℕ) (m : SessionManager)
    → IsStats cutoff m (stats_since chrono now cutoff m)
stats_since-IsStats chrono now cutoff m =
    let active = map (λ (p : Uuid × Session). p.1) m.active_sessions in
    let counts = aggregate-IsCountOf cutoff (get_all_sessions m) no_totals (record {
      total = omega arith;
      allow = omega arith;
      block = omega arith;
      bytes = omega arith;
    }) in
    let split = λ (test : Session → Bool).
      sessions_with-append test cutoff active (m.closed_sessions ++ m.rejected_sessions)
      ∙ ap (◌+◌ (sessions_with test cutoff active))
          (sessions_with-append test cutoff m.closed_sessions m.rejected_sessions) in
    record {
      total = omega (arith, counts.total, split (λ s. true));
      allowed = omega (arith, counts.allow, split was_allowed);
      blocked = omega (arith, counts.block, split was_blocked);
      bytes = omega (
        arith,
        counts.bytes,
        bytes_in-append cutoff active (m.closed_sessions ++ m.rejected_sessions),
        bytes_in-append cutoff m.closed_sessions m.rejected_sessions,
      );
      active = refl;
    }

-- For a lookback that chrono can represent, or 24 hours in place of one that it cannot, and with an
-- instant that lies so long before now, `get_stats` gives the totals of an independent count over
-- the active, the closed and the rejected sessions that began at that instant or after it: how many
-- there are, how many of them were allowed and blocked, each up to `2 ^ 64`, and their bytes both
-- ways, at most `2 ^ 64 - 1`, and it gives the number of active ones.
pub get_stats_lem :
    (chrono : Chrono) (now lookback window cutoff : ℕ) (m : SessionManager)
    → (chrono.from_std lookback ≡ some window)
      ⊎ ((chrono.from_std lookback ≡ none) × (window ≡ 24 * 60 * 60 * 1000000000))
    → chrono.before now window ≡ some cutoff
    → (stats : SessionStats) × (get_stats chrono now lookback m ≡ ok stats) × IsStats cutoff m stats
unfolding get_stats
get_stats_lem chrono now lookback window cutoff m fits e =
    let chosen : from_std_or_day chrono lookback ≡ window = elim fits [
      | inl is ↦ ground arith
      | inr (none_fits, is) ↦ ground arith
    ] in
    (
      stats_since chrono now cutoff m,
      ap (stats_at chrono now m) (ap (chrono.before now) chosen ∙ e),
      stats_since-IsStats chrono now cutoff m,
    )
