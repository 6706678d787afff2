-- ===== src/Qos/Rebalance/Bounds.antt =====
-- src/qos/htb.rs: every share lies between the guaranteed and the greatest rate.
use rust_socks.Prelude.{ℕ, ◌≤◌, ◌<◌, ◌≡◌, refl, List, [], ◌∷◌, map, arith, All, by_branches, ap}
use rust_socks.Prelude.Text.{Text}
use rust_socks.Prelude.Machine.{word}
use rust_socks.Qos.Types.{HtbConfig}
use rust_socks.Qos.TokenBucket.{Runtime}
use rust_socks.Qos.Rebalance.{capped, calculate_fair_shares}

-- The rates of a configuration that makes sense: what is guaranteed is not above what is allowed.
pub record IsConfig (config : HtbConfig) : Type 0 where
  pub ordered : config.guaranteed_bandwidth_bytes_per_sec ≤ config.max_bandwidth_bytes_per_sec
  pub u64 : config.max_bandwidth_bytes_per_sec < word

abbrev pub InRange : HtbConfig → ℕ → Type 0
InRange config rate =
    (config.guaranteed_bandwidth_bytes_per_sec ≤ rate) × (rate ≤ config.max_bandwidth_bytes_per_sec)

capped-InRange :
    (config : HtbConfig) (share : ℕ) → IsConfig config → InRange config (capped config share)
capped-InRange config share h = (omega (arith, h.ordered, h.u64), omega (arith, h.ordered, h.u64))

abbrev pub AllInRange : HtbConfig → List (Text × ℕ) → Type 0
AllInRange config shares = All (λ (p : Text × ℕ). InRange config p.1) shares

abbrev names : List (Text × ℕ) → List Text
names users = map (λ (p : Text × ℕ). p.0) users

-- The users are the given ones, with rates in the range.
record AreShares (config : HtbConfig) (users shares : List (Text × ℕ)) : Type 0 where
  same : names shares ≡ names users
  rates : AllInRange config shares

map-AreShares :
    (config : HtbConfig) (share : Text × ℕ → ℕ)
    → ((p : Text × ℕ) → InRange config (share p))
    → (users : List (Text × ℕ))
    → AreShares config users (map (λ (p : Text × ℕ). (p.0, share p)) users)
map-AreShares config share h [] = record { same = refl; rates = tt }
map-AreShares config share h (p ∷ users) =
    let rest = map-AreShares config share h users in
    record { same = ap (λ others. p.0 ∷ others) rest.same; rates = (h p, rest.rates) }

module _ (rt : Runtime) where
  calculate_fair_shares-AreShares :
      (config : HtbConfig) (users : List (Text × ℕ))
      → IsConfig config
      → AreShares config users (calculate_fair_shares rt config users)
  unfolding calculate_fair_shares
  calculate_fair_shares-AreShares config users h =
      by_branches (AreShares config users) _
        (map-AreShares config (λ p. config.guaranteed_bandwidth_bytes_per_sec)
          (λ p. (omega arith, h.ordered)) users)
        (by_branches (AreShares config users) _
          (map-AreShares config _ (λ p. capped-InRange config _ h) users)
          (map-AreShares config _ (λ p. capped-InRange config _ h) users))

  -- Every active user gets a rate, in the order of the users, that is between the guaranteed rate
  -- and the greatest one, when the configuration has these two in this order and below `2 ^ 64`.
  pub fair_shares_bounds :
      (config : HtbConfig) (users : List (Text × ℕ))
      → IsConfig config
      → (map (λ (p : Text × ℕ). p.0) (calculate_fair_shares rt config users)
          ≡ map (λ (p : Text × ℕ). p.0) users)
        × All (λ (p : Text × ℕ). InRange config p.1) (calculate_fair_shares rt config users)
  fair_shares_bounds config users h =
      let shares = calculate_fair_shares-AreShares config users h in (shares.same, shares.rates)
