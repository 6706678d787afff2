-- ===== src/Server/Pool/Connections.antt =====
-- src/server/pool.rs: what the operations of the pool do to one connection, vector or counter.
use rust_socks.Prelude.{
  ℕ, suc, ◌-◌, ◌*◌, Bool, true, false, List, [], ◌∷◌, Option, none, some, ◌==◌, ltb, if◌then◌else◌,
}
use rust_socks.Prelude.Maps.{Key, insert, remove}
use rust_socks.Utils.{IoError, timed_out}
use rust_socks.Utils.Result.{Result, ok, err}
use rust_socks.Prelude.Machine.{wrapping_sub}
use rust_socks.Server.Pool.Types.{
  PoolConfig, DestinationMetrics, Connect, connected, failed, elapsed, PooledConnection,
}

-- `unwrap_or`
abbrev pub or_else : {A : Type 0} → A → Option A → A
or_else d none = d
or_else d (some a) = a

-- The nanoseconds of a second.
abbrev pub nanos : ℕ
nanos = 1000000000

-- `connect_new`: a timeout is an I/O error of its own.
abbrev pub connect_new : {S : Type 0} → Connect S → Result IoError S
connect_new (connected s) = ok s
connect_new (failed e) = err e
connect_new elapsed = err timed_out

module _ {S : Type 0} where
  -- `PooledConnection::new` and `is_expired`
  abbrev pub new_connection : ℕ → S → PooledConnection S
  new_connection now s = record { stream = s; created_at = now; last_used = now }

  unfoldable pub is_expired : PoolConfig → ℕ → PooledConnection S → Bool
  is_expired config now conn = ltb (config.idle_timeout_secs * nanos) (now - conn.last_used)

  -- The loop of `try_get_from_pool`, on the vector read from its end: what stays in it, how many
  -- connections had expired, and the connection that had not.
  unfoldable pub pop_valid :
      PoolConfig
      → ℕ
      → List (PooledConnection S)
      → List (PooledConnection S) × ℕ × Option (PooledConnection S)
  unfolding is_expired
  pop_valid config now [] = ([], 0, none)
  pop_valid config now (conn ∷ stack) =
      let (rest, expired, found) = pop_valid config now stack in
      if is_expired config now conn then (rest, suc expired, found) else (stack, 0, some conn)

  -- `retain(|conn| !conn.is_expired(idle_timeout))`
  unfoldable pub retain_fresh :
      PoolConfig → ℕ → List (PooledConnection S) → List (PooledConnection S)
  unfolding is_expired
  retain_fresh config now [] = []
  retain_fresh config now (conn ∷ conns) =
      let rest = retain_fresh config now conns in
      if is_expired config now conn then rest else conn ∷ rest

unfoldable pub reverse_onto {ℓ} : {A : Type ℓ} → List A → List A → List A
reverse_onto acc [] = acc
reverse_onto acc (x ∷ xs) = reverse_onto (x ∷ acc) xs

unfoldable pub is_empty {ℓ} : {A : Type ℓ} → List A → Bool
is_empty [] = true
is_empty (x ∷ xs) = false

-- `entry.in_use = entry.in_use.saturating_sub(1)`
abbrev pub less_in_use : DestinationMetrics → DestinationMetrics
less_in_use entry = record entry { in_use = entry.in_use - 1 }

module _ {K : Type 0} ⦃k : Key K⦄ where
  abbrev pub active_without : K → Option ℕ → List (K × ℕ) → List (K × ℕ)
  active_without addr none counts = counts
  active_without addr (some prev) counts =
      if prev == 1 then remove addr counts else insert addr (wrapping_sub prev 1) counts

unfoldable pub min_by_time : {K : Type 0} → K × ℕ → List (K × ℕ) → K × ℕ
min_by_time best [] = best
min_by_time best (c ∷ cs) = if ltb c.1 best.1 then min_by_time c cs else min_by_time best cs

abbrev pub tail : {S : Type 0} → List (PooledConnection S) → List (PooledConnection S)
tail [] = []
tail (conn ∷ conns) = conns
