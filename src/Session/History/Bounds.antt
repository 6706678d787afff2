-- ===== src/Session/History/Bounds.antt =====
-- src/session/history.rs and src/telemetry.rs: what a history keeps when an event is added.
use rust_socks.Prelude.{
  ℕ, ◌-◌, ◌≤◌, ◌<◌, ◌≡◌, refl, ap, sym, ◌∙◌, Bool-cases, ltb, List, [], ◌∷◌, ◌++◌, length,
  length-append, arith, inl, inr, ◌⊎◌, append-nil, subst, append_assoc, All,
}
use rust_socks.Session.History.{drop_expired, trim, add_event}

module _ {E : Type 0} (timestamp : E → ℕ) where
  abbrev IsExpired : ℕ → E → Type 0
  IsExpired cutoff e = timestamp e < cutoff

  drop_expired_lem :
      (cutoff : ℕ) (events : List E)
      → (gone : List E) × (gone ++ drop_expired timestamp cutoff events ≡ events)
        × All (IsExpired cutoff) gone
  unfolding drop_expired
  drop_expired_lem cutoff [] = ([], refl, tt)
  drop_expired_lem cutoff (e ∷ events) =
      let (gone, whole, old) = drop_expired_lem cutoff events in
      elim (Bool-cases (ltb (timestamp e) cutoff)) [
        | inl expired ↦ (e ∷ gone, ground (arith, whole), (ground arith, old))
        | inr fresh ↦ ([], ground arith, tt)
      ]

  trim_lem :
      (bound : ℕ) (events : List E)
      → (gone : List E) × (gone ++ trim timestamp bound events ≡ events)
        × (length (trim timestamp bound events) ≤ bound)
        × ((gone ≡ []) ⊎ (length (trim timestamp bound events) ≡ bound))
  unfolding trim
  trim_lem bound [] = ([], refl, omega arith, inl refl)
  trim_lem bound (e ∷ events) =
      let (gone, whole, short, why) = trim_lem bound events in
      let sizes = length-append gone (trim timestamp bound events) in
      elim (Bool-cases (ltb bound (length (e ∷ events)))) [
        | inl long ↦ (
          e ∷ gone,
          ground (arith, whole),
          ground (arith, short),
          inr (ground (arith, why, whole, short, sizes)),
        )
        | inr fits ↦ ([], ground arith, ground arith, inl refl)
      ]

  -- After an event is added, the history is the last part of what it was with the event behind it,
  -- no longer than its bound, and what was dropped had expired unless the history is as long as its
  -- bound.
  pub add_event_bounds :
      (now max_age bound : ℕ) (event : E) (events : List E)
      → (let after = add_event timestamp now max_age bound event events in
          (length after ≤ bound)
          × ((gone : List E) × (gone ++ after ≡ events ++ event ∷ [])
              × (All (IsExpired (now - max_age)) gone ⊎ (length after ≡ bound))))
  unfolding add_event
  add_event_bounds now max_age bound event events =
      let (old, whole, expired) = drop_expired_lem (now - max_age) events in
      let kept = drop_expired timestamp (now - max_age) events ++ event ∷ [] in
      let (gone, rest, short, why) = trim_lem bound kept in
      let after = trim timestamp bound kept in
      let all : (old ++ gone) ++ after ≡ events ++ event ∷ [] =
        append_assoc old gone after
        ∙ ap (λ xs. old ++ xs) rest
        ∙ sym (append_assoc old (drop_expired timestamp (now - max_age) events) (event ∷ []))
        ∙ ap (λ xs. xs ++ event ∷ []) whole in
      (
        short,
        (
          old ++ gone,
          all,
          elim why [
            | inl none_gone ↦ inl (
                subst (All (IsExpired (now - max_age)))
                  (sym (ap (λ xs. old ++ xs) none_gone ∙ append-nil old)) expired)
            | inr full ↦ inr full
          ],
        ),
      )
