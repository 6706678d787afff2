-- ===== src/Session/Blocked.antt =====
-- src/session/manager.rs: which sessions `enforce_acl` ends, and that it ends no others.
use rust_socks.Prelude.{
  ℕ, ◌≡◌, refl, Bool, true, false, ◌||◌, ◌&&◌, if◌then◌else◌, List, [], ◌∷◌, arith, Option, none,
  some, Option-cases, inl, inr, ◌==◌, ==_iff,
}
use rust_socks.Prelude.Text.{Text}
use rust_socks.Prelude.Maps.{nat_key, lookup, DistinctKeys}
use rust_socks.Prelude.Sort.{UnstableSort}
use rust_socks.Acl.Types.{AclDecision, allowed, blocked}
use rust_socks.Acl.Matcher.{Externals}
use rust_socks.Acl.Engine.{CompiledAclConfig, rule_leq}
use rust_socks.Session.Types.{Uuid, Session, failed}
use rust_socks.Session.{SessionManager}
use rust_socks.Session.Revocation.{judged, revoked, to_terminate, enforce_acl}
use rust_socks.Session.Invariant.{IsManager}
use rust_socks.Session.Closing.{
  named, is_cancelled, lookup-terminate_all, cancelled-terminate_all, cancelled-unnamed,
}

-- Where the sessions stand under their own numbers.
abbrev Numbered : List (Uuid × Session) → Type 0
Numbered sessions = (i : Uuid) (s : Session) → lookup i sessions ≡ some s → s.session_id ≡ i

Numbered-tail :
    (id : Uuid) (s : Session) (sessions : List (Uuid × Session))
    → lookup id sessions ≡ none
    → Numbered ((id, s) ∷ sessions)
    → Numbered sessions
unfolding lookup
Numbered-tail id s sessions d h i t e = h i t (ground (arith, ==_iff id i))

module _ (ext : Externals) (unstable : UnstableSort rule_leq) (engine : CompiledAclConfig) where
  abbrev pub is_blocked : AclDecision → Bool
  is_blocked blocked = true
  is_blocked allowed = false

  -- Whether the engine blocks the session under a number.
  abbrev pub doomed_in : Option Session → Bool
  doomed_in none = false
  doomed_in (some s) = is_blocked (judged ext unstable engine s).0

  named-revoked :
      (d : AclDecision × Option Text) (id i : Uuid) (rest : List (Uuid × Text))
      → named i (revoked ext unstable engine d id rest)
        ≡ (is_blocked d.0 && (id == i)) || named i rest
  unfolding named
  named-revoked (allowed, rule) id i rest = refl
  named-revoked (blocked, rule) id i rest = refl

  named-to_terminate :
      (i : Uuid) (sessions : List (Uuid × Session))
      → DistinctKeys sessions
      → Numbered sessions
      → named i (to_terminate ext unstable engine sessions) ≡ doomed_in (lookup i sessions)
  unfolding to_terminate lookup named
  named-to_terminate i [] d h = refl
  named-to_terminate i ((id, s) ∷ sessions) d h =
      let rest = named-to_terminate i sessions d.1 (Numbered-tail id s sessions d.0 h) in
      let own = h id s (ground (arith, ==_iff id id)) in
      ground (
        arith,
        rest,
        own,
        d.0,
        ==_iff id i,
        named-revoked (judged ext unstable engine s) s.session_id i
            (to_terminate ext unstable engine sessions),
      )

  -- In a manager that is as it should be, `enforce_acl` leaves just the sessions that the engine
  -- does not block, each as it was, and cancels just the tokens of those that it blocks.
  pub enforce_acl-cases :
      (now : ℕ) (i : Uuid) (m : SessionManager)
      → IsManager m
      → (let after = enforce_acl ext unstable engine now m in
          let doomed = doomed_in (lookup i m.active_sessions) in
          (lookup i after.active_sessions ≡ (if doomed then none else lookup i m.active_sessions))
          × (is_cancelled i after.signals ≡ doomed || is_cancelled i m.signals))
  unfolding enforce_acl
  enforce_acl-cases now i m h =
      let doomed = to_terminate ext unstable engine m.active_sessions in
      let left = lookup-terminate_all now failed doomed i m h in
      let which =
        named-to_terminate i m.active_sessions h.distinct
          (λ id s e. (h.in_progress id s e).numbered) in
      (
        ground (arith, left, which),
        elim (Option-cases (lookup i m.active_sessions)) [
          | inl e ↦ ground (arith, which, cancelled-unnamed now failed doomed i m)
          | inr (s, e) ↦ ground (
            arith,
            which,
            cancelled-unnamed now failed doomed i m,
            cancelled-terminate_all now failed doomed i m s h e,
          )
        ],
      )
