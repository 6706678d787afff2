-- ===== src/Session/Closing.antt =====
-- src/session/manager.rs: which sessions `terminate_session` and its callers leave.
use rust_socks.Prelude.{
  ℕ, ◌-◌, ◌/◌, sym, append-nil, append_assoc, ◌≡◌, ◌≢◌, refl, ap, ◌∙◌, Bool, true, false, ◌||◌,
  if◌then◌else◌, Bool-cases, List, [], ◌∷◌, ◌++◌, arith, Option, none, some, Option-cases, inl, inr,
  ◌==◌, ==_iff,
}
use rust_socks.Prelude.Text.{Text}
use rust_socks.Prelude.Maps.{nat_key, lookup, remove, lookup-remove}
use rust_socks.Session.Types.{Uuid, Session, SessionStatus}
use rust_socks.Session.{
  SessionManager, SessionControl, Signal, cancelled, udp_stopped, with_reason, close_session,
  terminate_session, terminate_all, close_all_active, signals_of,
}
use rust_socks.Session.Invariant.{IsManager, close_session-IsManager}

pub terminate_session-IsManager :
    (now : ℕ) (id : Uuid) (reason : Text) (status : SessionStatus) (m : SessionManager)
    → IsManager m
    → IsManager (terminate_session now id reason status m)
unfolding terminate_session
terminate_session-IsManager now id reason status m h =
    close_session-IsManager now id (some reason) status
      (record m { signals = m.signals ++ signals_of id (lookup id m.session_controls) })
      (record {
        distinct = h.distinct;
        distinct_controls = h.distinct_controls;
        in_progress = h.in_progress;
        controlled = h.controlled;
        ended = h.ended;
        rejections = h.rejections;
        gauge = h.gauge;
        started = h.started;
        rejected = h.rejected;
        worker = h.worker;
      })

pub terminate_all-IsManager :
    (now : ℕ) (status : SessionStatus) (doomed : List (Uuid × Text)) (m : SessionManager)
    → IsManager m
    → IsManager (terminate_all now status doomed m)
unfolding terminate_all
terminate_all-IsManager now status [] m h = h
terminate_all-IsManager now status ((id, reason) ∷ doomed) m h =
    terminate_all-IsManager now status doomed (terminate_session now id reason status m)
      (terminate_session-IsManager now id reason status m h)

lookup-terminate_session :
    (now : ℕ) (id i : Uuid) (reason : Text) (status : SessionStatus) (m : SessionManager)
    → IsManager m
    → lookup i (terminate_session now id reason status m).active_sessions
      ≡ (if id == i then none else lookup i m.active_sessions)
unfolding terminate_session close_session
lookup-terminate_session now id i reason status m h =
    elim (Option-cases (lookup id m.active_sessions)) [
      | inl missing ↦ ground (arith, ==_iff id i)
      | inr (session, found) ↦ ground (arith, lookup-remove id i m.active_sessions h.distinct)
    ]

unfoldable pub named : Uuid → List (Uuid × Text) → Bool
named i [] = false
named i ((id, reason) ∷ doomed) = let others = named i doomed in (id == i) || others

pub lookup-terminate_all :
    (now : ℕ) (status : SessionStatus) (doomed : List (Uuid × Text)) (i : Uuid) (m : SessionManager)
    → IsManager m
    → lookup i (terminate_all now status doomed m).active_sessions
      ≡ (if named i doomed then none else lookup i m.active_sessions)
unfolding terminate_all named
lookup-terminate_all now status [] i m h = refl
lookup-terminate_all now status ((id, reason) ∷ doomed) i m h =
    let first = lookup-terminate_session now id i reason status m h in
    let rest =
      lookup-terminate_all now status doomed i (terminate_session now id reason status m)
        (terminate_session-IsManager now id reason status m h) in
    ground (arith, first, rest)

unfoldable pub is_some : Option Session → Bool
is_some none = false
is_some (some s) = true

named-with_reason :
    (reason : Text) (i : Uuid) (sessions : List (Uuid × Session))
    → named i (with_reason reason sessions) ≡ is_some (lookup i sessions)
unfolding named lookup is_some
named-with_reason reason i [] = refl
named-with_reason reason i ((id, s) ∷ sessions) =
    ground (arith, named-with_reason reason i sessions)

-- Whether a token was cancelled.
unfoldable pub is_cancelled : Uuid → List Signal → Bool
is_cancelled i [] = false
is_cancelled i (signal ∷ signals) =
    let others = is_cancelled i signals in
    elim signal [ cancelled id ↦ (id == i) || others | udp_stopped id ↦ others ]

is_cancelled-append :
    (i : Uuid) (xs ys : List Signal)
    → is_cancelled i (xs ++ ys) ≡ is_cancelled i xs || is_cancelled i ys
unfolding is_cancelled
is_cancelled-append i [] ys = refl
is_cancelled-append i (cancelled id ∷ xs) ys = ground (arith, is_cancelled-append i xs ys)
is_cancelled-append i (udp_stopped id ∷ xs) ys = is_cancelled-append i xs ys

signals-terminate_session :
    (now : ℕ) (id : Uuid) (reason : Text) (status : SessionStatus) (m : SessionManager)
    → (terminate_session now id reason status m).signals
      ≡ m.signals ++ signals_of id (lookup id m.session_controls)
unfolding terminate_session close_session
signals-terminate_session now id reason status m =
    elim (Option-cases (lookup id m.active_sessions)) [
      | inl e ↦ ground arith
      | inr (s, e) ↦ ground arith
    ]

cancelled-signals_of :
    (i : Uuid) (c : Option SessionControl) → c ≢ none → is_cancelled i (signals_of i c) ≡ true
unfolding is_cancelled
cancelled-signals_of i none h = absurd (h refl)
cancelled-signals_of i (some c) h = ground (arith, ==_iff i i)

cancelled-stays :
    (now : ℕ) (status : SessionStatus) (doomed : List (Uuid × Text)) (i : Uuid) (m : SessionManager)
    → is_cancelled i m.signals ≡ true
    → is_cancelled i (terminate_all now status doomed m).signals ≡ true
unfolding terminate_all
cancelled-stays now status [] i m c = c
cancelled-stays now status ((id, reason) ∷ doomed) i m c =
    cancelled-stays now status doomed i (terminate_session now id reason status m) (
      ground (
        arith,
        signals-terminate_session now id reason status m,
        is_cancelled-append i m.signals (signals_of id (lookup id m.session_controls)),
      ))

cancelled_elsewhere :
    (id i : Uuid) (c : Option SessionControl)
    → (id == i) ≡ false
    → is_cancelled i (signals_of id c) ≡ false
unfolding is_cancelled
cancelled_elsewhere id i none e = refl
cancelled_elsewhere id i (some c) e = ground arith

pub cancelled-unnamed :
    (now : ℕ) (status : SessionStatus) (doomed : List (Uuid × Text)) (i : Uuid) (m : SessionManager)
    → named i doomed ≡ false
    → is_cancelled i (terminate_all now status doomed m).signals ≡ is_cancelled i m.signals
unfolding terminate_all named
cancelled-unnamed now status [] i m n = refl
cancelled-unnamed now status ((id, reason) ∷ doomed) i m n =
    let next = terminate_session now id reason status m in
    ground (
      arith,
      cancelled-unnamed now status doomed i next,
      signals-terminate_session now id reason status m,
      is_cancelled-append i m.signals (signals_of id (lookup id m.session_controls)),
      cancelled_elsewhere id i (lookup id m.session_controls),
    )

pub cancelled-terminate_all :
    (now : ℕ) (status : SessionStatus) (doomed : List (Uuid × Text)) (i : Uuid) (m : SessionManager)
    (s : Session)
    → IsManager m
    → lookup i m.active_sessions ≡ some s
    → named i doomed ≡ true
    → is_cancelled i (terminate_all now status doomed m).signals ≡ true
unfolding terminate_all named
cancelled-terminate_all now status [] i m s h e n = cc
cancelled-terminate_all now status ((id, reason) ∷ doomed) i m s h e n =
    let next = terminate_session now id reason status m in
    elim (Bool-cases (id == i)) [
      | inl same ↦ cancelled-stays now status doomed i next (
          ground (
            arith,
            signals-terminate_session now id reason status m,
            ==_iff id i,
            h.controlled i,
            is_cancelled-append i m.signals (signals_of i (lookup i m.session_controls)),
            cancelled-signals_of i (lookup i m.session_controls),
          ))
      | inr other ↦
          cancelled-terminate_all now status doomed i next s
            (terminate_session-IsManager now id reason status m h)
            (ground (arith, lookup-terminate_session now id i reason status m h)) (ground arith)
    ]

-- The sessions of a map as they end: at one time, for one reason and with one status, with the whole
-- seconds that they lasted, and otherwise as they were.
unfoldable pub ended_sessions : ℕ → Text → SessionStatus → List (Uuid × Session) → List Session
ended_sessions now reason status [] = []
ended_sessions now reason status ((id, s) ∷ sessions) =
    record s {
      end_time = some now;
      duration_secs = some ((now - s.start_time) / 1000000000);
      status = status;
      close_reason = some reason;
    }
    ∷ ended_sessions now reason status sessions

first_terminated :
    (now : ℕ) (id : Uuid) (reason : Text) (status : SessionStatus) (s : Session)
    (sessions : List (Uuid × Session)) (m : SessionManager)
    → m.active_sessions ≡ (id, s) ∷ sessions
    → (let after = terminate_session now id reason status m in
        (after.active_sessions ≡ sessions)
        × (after.closed_sessions
            ≡ m.closed_sessions ++ ended_sessions now reason status ((id, s) ∷ [])))
unfolding terminate_session close_session lookup remove ended_sessions
first_terminated now id reason status s sessions m e =
    let found : lookup id m.active_sessions ≡ some s = ground (arith, ==_iff id id) in
    (ground (arith, found, ==_iff id id), ground (arith, found))

closed-terminate_all :
    (now : ℕ) (reason : Text) (status : SessionStatus) (sessions : List (Uuid × Session))
    (m : SessionManager)
    → m.active_sessions ≡ sessions
    → (terminate_all now status (with_reason reason sessions) m).closed_sessions
      ≡ m.closed_sessions ++ ended_sessions now reason status sessions
unfolding terminate_all ended_sessions
closed-terminate_all now reason status [] m e = sym (append-nil m.closed_sessions)
closed-terminate_all now reason status ((id, s) ∷ sessions) m e =
    let (rest, closed) = first_terminated now id reason status s sessions m e in
    closed-terminate_all now reason status sessions (terminate_session now id reason status m) rest
    ∙ ap (λ (ended : List Session). ended ++ ended_sessions now reason status sessions) closed
    ∙ append_assoc m.closed_sessions (ended_sessions now reason status ((id, s) ∷ []))
        (ended_sessions now reason status sessions)

no_session :
    (sessions : List (Uuid × Session)) → ((i : Uuid) → lookup i sessions ≡ none) → sessions ≡ []
unfolding lookup
no_session [] h = refl
no_session ((id, s) ∷ sessions) h = absurd (ground (arith, h id, ==_iff id id))

-- `close_all_active` leaves no session active. Behind the sessions that were closed before stand those
-- that were active, in order, each ended now, for the reason and with the status, and otherwise as it
-- was; each has had its token cancelled, and no other.
pub close_all_active-cases :
    (now : ℕ) (reason : Text) (status : SessionStatus) (i : Uuid) (m : SessionManager)
    → IsManager m
    → (let after = close_all_active now reason status m in
        (after.active_sessions ≡ [])
        × (after.closed_sessions
            ≡ m.closed_sessions ++ ended_sessions now reason status m.active_sessions)
        × (is_cancelled i after.signals
            ≡ is_some (lookup i m.active_sessions) || is_cancelled i m.signals))
unfolding close_all_active is_some
close_all_active-cases now reason status i m h =
    let doomed = with_reason reason m.active_sessions in
    let after = terminate_all now status doomed m in
    let gone = λ (j : Uuid). lookup-terminate_all now status doomed j m h in
    let which = λ (j : Uuid). named-with_reason reason j m.active_sessions in
    let empty : after.active_sessions ≡ [] =
      no_session after.active_sessions (λ j. ground (arith, gone j, which j)) in
    (
      empty,
      closed-terminate_all now reason status m.active_sessions m refl,
      elim (Option-cases (lookup i m.active_sessions)) [
        | inl e ↦ ground (arith, which i, cancelled-unnamed now status doomed i m)
        | inr (s, e) ↦ ground (arith, which i, cancelled-terminate_all now status doomed i m s h e)
      ],
    )
