-- ===== src/Qos/Connections.antt =====
-- src/qos/mod.rs: the engine's counts are the guards', within the limits.
use rust_socks.Prelude.{
  ℕ, suc, ◌-◌, ◌≤◌, ◌<◌, ◌≡◌, ◌≢◌, refl, subst, Bool-cases, List, [], ◌∷◌, length, arith, inl, inr,
  if◌then◌else◌, ◌==◌, leb, by_branches,
}
use rust_socks.Prelude.Text.{Text, text_eq, text_eq_iff}
use rust_socks.Prelude.Machine.{word, wrapping_add, wrapping_sub}
use rust_socks.Prelude.Maps.{lookup}
use rust_socks.Utils.Result.{ok}
use rust_socks.Qos.Types.{ConnectionLimits, QosConfig}
use rust_socks.Qos.Htb.{
  HtbQos, stop, get_user_connections, inc_user_connections, dec_user_connections,
}
use rust_socks.Qos.Htb.Counts.{
  busy_users, busy_users_le, active_sum, inc-IsCountedAs, dec-IsCountedAs,
}
use rust_socks.Qos.{
  QosEngine, disabled, htb, from_config, check_and_inc_connection, dec_user_connection, drop_engine,
}
use rust_socks.Qos.Guards.{
  Admitted, ConnectionEvent, admit, hang_up, occurrences, remove_one, drop_guard, connection_step,
  connection_run,
}

-- The engine counts the guards that live: all of them, each user's, and the users who have one.
pub record IsCounted (limits : ConnectionLimits) (h : HtbQos) (gauge : ℕ) (guards : List Text)
    : Type 0 where
  pub total : h.total_connections ≡ length guards
  pub users : (u : Text) → get_user_connections u h ≡ occurrences u guards
  pub busy : gauge ≡ busy_users h.user_buckets
  pub sum : active_sum h.user_buckets ≡ length guards
  pub global_limit : length guards ≤ limits.max_connections_global
  pub user_limit : (u : Text) → occurrences u guards ≤ limits.max_connections_per_user
  pub usize : limits.max_connections_global < word

abbrev IsAdmitted : ConnectionLimits → QosEngine → ℕ → List Text → Type 0
IsAdmitted limits disabled gauge guards = Unit
IsAdmitted limits (htb h) gauge guards = IsCounted limits h gauge guards

occurrences_le : (u : Text) (guards : List Text) → occurrences u guards ≤ length guards
unfolding occurrences
occurrences_le u [] = omega arith
occurrences_le u (g ∷ guards) = ground (arith, occurrences_le u guards)

length-remove_one :
    (u : Text) (guards : List Text)
    → occurrences u guards ≢ 0
    → suc (length (remove_one u guards)) ≡ length guards
unfolding occurrences remove_one
length-remove_one u [] h = absurd (h refl)
length-remove_one u (g ∷ guards) h = ground (arith, length-remove_one u guards)

occurrences-remove_one :
    (u v : Text) (guards : List Text)
    → occurrences v (remove_one u guards)
      ≡ (if text_eq u v then occurrences v guards - 1 else occurrences v guards)
unfolding occurrences remove_one
occurrences-remove_one u v [] = ground arith
occurrences-remove_one u v (g ∷ guards) =
    ground
      (arith, text_eq_iff g u, text_eq_iff u v, text_eq_iff g v, occurrences-remove_one u v guards)

admitted :
    (limits : ConnectionLimits) (now : ℕ) (user : Text) (h : HtbQos) (gauge : ℕ)
    (guards : List Text)
    → IsCounted limits h gauge guards
    → length guards < limits.max_connections_global
    → occurrences user guards < limits.max_connections_per_user
    → IsCounted limits
        (inc_user_connections now user h).1
        (if (inc_user_connections now user h).0 == 1 then wrapping_add gauge 1 else gauge)
        (user ∷ guards)
unfolding occurrences
admitted limits now user h gauge guards c g l =
    let (answer, total, counted) = inc-IsCountedAs now user h in
    record {
      total = ground (arith, c.total, total, c.usize);
      users = λ u. ground (
        arith,
        counted.counts u,
        c.users u,
        c.users user,
        occurrences_le user guards,
        c.usize,
        text_eq_iff user u,
      );
      busy = ground (
        arith,
        counted.busy,
        c.busy,
        busy_users_le h.user_buckets,
        c.sum,
        c.usize,
        c.users user,
        occurrences_le user guards,
      );
      sum = ground (arith, counted.sum, c.sum, c.users user, occurrences_le user guards, c.usize);
      global_limit = omega arith;
      user_limit = λ u. ground (arith, c.user_limit u, text_eq_iff user u);
      usize = c.usize;
    }

hung_up :
    (limits : ConnectionLimits) (user : Text) (h : HtbQos) (gauge : ℕ) (guards : List Text)
    → IsCounted limits h gauge guards
    → occurrences user guards ≢ 0
    → IsCounted limits
        (stop (dec_user_connections user h).1)
        (if (dec_user_connections user h).0 == 0 then wrapping_sub gauge 1 else gauge)
        (remove_one user guards)
unfolding get_user_connections
hung_up limits user h gauge guards c p =
    let (answer, total, counted) = dec-IsCountedAs user h (λ e. p (ground (arith, c.users user))) in
    let shorter = length-remove_one user guards p in
    record {
      total = ground (arith, c.total, total, c.usize, c.global_limit);
      users = λ u. ground (
        arith,
        counted.counts u,
        c.users u,
        c.users user,
        occurrences_le user guards,
        c.usize,
        c.global_limit,
        text_eq_iff user u,
        occurrences-remove_one user u guards,
      );
      busy = ground (
        arith,
        counted.busy,
        c.busy,
        busy_users_le h.user_buckets,
        c.sum,
        c.usize,
        c.global_limit,
        c.users user,
        occurrences_le user guards,
      );
      sum = ground (
        arith,
        counted.sum,
        c.sum,
        c.users user,
        occurrences_le user guards,
        c.global_limit,
        c.usize,
      );
      global_limit = omega (arith, c.global_limit);
      user_limit = λ u. ground (arith, c.user_limit u, occurrences-remove_one user u guards);
      usize = c.usize;
    }

abbrev AdmittedOk : ConnectionLimits → Admitted → Type 0
AdmittedOk limits s = IsAdmitted limits s.qos.engine s.qos.active_qos_users s.guards

abbrev pub state_of : QosEngine → ℕ → List Text → Admitted
state_of engine gauge guards = record {
  qos = record { engine = engine; active_qos_users = gauge };
  guards = guards;
}

connection_step-AdmittedOk :
    (limits : ConnectionLimits) (event : ConnectionEvent) (engine : QosEngine) (gauge : ℕ)
    (guards : List Text)
    → IsAdmitted limits engine gauge guards
    → AdmittedOk limits (connection_step limits event (state_of engine gauge guards))
unfolding connection_step check_and_inc_connection drop_guard dec_user_connection drop_engine
connection_step-AdmittedOk limits (admit now user) disabled gauge guards c = tt
connection_step-AdmittedOk limits (hang_up user) disabled gauge guards c =
    by_branches (AdmittedOk limits) (occurrences user guards == 0) tt tt
connection_step-AdmittedOk limits (admit now user) (htb h) gauge guards c =
    elim (Bool-cases (leb limits.max_connections_global h.total_connections)) [
      | inl full ↦ subst (AdmittedOk limits) {x = state_of (htb h) gauge guards} (ground arith) c
      | inr free ↦
          elim (Bool-cases (leb limits.max_connections_per_user (get_user_connections user h))) [
            | inl full ↦
                subst (AdmittedOk limits) {x = state_of (htb h) gauge guards} (ground arith) c
            | inr room ↦
                let (answer, after) = inc_user_connections now user h in
                subst (AdmittedOk limits)
                  {x = state_of (htb after) (if answer == 1 then wrapping_add gauge 1 else gauge)
                    (user ∷ guards)}
                  (ground arith)
                  (admitted limits now user h gauge guards c (ground (arith, c.total))
                    (ground (arith, c.users user)))
          ]
    ]
connection_step-AdmittedOk limits (hang_up user) (htb h) gauge guards c =
    elim (Bool-cases (occurrences user guards == 0)) [
      | inl gone ↦ subst (AdmittedOk limits) {x = state_of (htb h) gauge guards} (ground arith) c
      | inr there ↦
          let (answer, after) = dec_user_connections user h in
          subst (AdmittedOk limits)
            {x = state_of (htb (stop after)) (if answer == 0 then wrapping_sub gauge 1 else gauge)
              (remove_one user guards)}
            (ground arith) (hung_up limits user h gauge guards c (λ e. ground arith))
    ]

connection_run-AdmittedOk :
    (limits : ConnectionLimits) (events : List ConnectionEvent) (s : Admitted)
    → AdmittedOk limits s
    → AdmittedOk limits (connection_run limits events s)
unfolding connection_run
connection_run-AdmittedOk limits [] s c = c
connection_run-AdmittedOk limits (event ∷ events) s c =
    connection_run-AdmittedOk limits events (connection_step limits event s)
      (connection_step-AdmittedOk limits event s.qos.engine s.qos.active_qos_users s.guards c)

from_config-IsAdmitted :
    (now : ℕ) (c : QosConfig) (limits : ConnectionLimits) (engine : QosEngine)
    → limits.max_connections_global < word
    → from_config now c ≡ ok engine
    → IsAdmitted limits engine 0 []
unfolding from_config occurrences get_user_connections busy_users active_sum lookup
from_config-IsAdmitted now c limits disabled u e = tt
from_config-IsAdmitted now c limits (htb h) u e = record {
  total = ground arith;
  users = λ v. ground arith;
  busy = ground arith;
  sum = ground arith;
  global_limit = omega arith;
  user_limit = λ v. omega arith;
  usize = u;
}

-- From the engine of a configuration, with no more connections allowed than a counter holds: after
-- any connections that were admitted or turned away and any that ended, the engine counts the
-- guards that live, in all and for each user, within the two limits, and the gauge counts the users
-- who have one.
pub connection_run-IsCounted :
    (now : ℕ) (c : QosConfig) (limits : ConnectionLimits) (events : List ConnectionEvent)
    (engine : QosEngine) (h : HtbQos)
    → limits.max_connections_global < word
    → from_config now c ≡ ok engine
    → (connection_run limits events (state_of engine 0 [])).qos.engine ≡ htb h
    → (let s = connection_run limits events (state_of engine 0 []) in
        IsCounted limits h s.qos.active_qos_users s.guards)
connection_run-IsCounted now c limits events engine h u e is =
    let s = connection_run limits events (state_of engine 0 []) in
    subst (λ q. IsAdmitted limits q s.qos.active_qos_users s.guards) is
      (connection_run-AdmittedOk limits events (state_of engine 0 [])
        (from_config-IsAdmitted now c limits engine u e))
