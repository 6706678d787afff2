-- ===== src/Server/Pool/Sizes.antt =====
-- src/server/pool.rs: how many connections each part of the pool's operations keeps.
use rust_socks.Prelude.{
  ℕ, ◌+◌, ◌≤◌, ◌<◌, ◌≡◌, refl, List, [], ◌∷◌, length, Option, none, some, All, arith, inl, inr, ◌⊎◌,
}
use rust_socks.Prelude.Maps.{
  Key, lookup, insert, remove, DistinctKeys, DistinctKeys-insert, DistinctKeys-remove,
}
use rust_socks.Server.Pool.Types.{PoolConfig, PooledConnection, ConnectionPool}
use rust_socks.Server.Pool.Connections.{or_else, pop_valid, retain_fresh, reverse_onto, is_empty}
use rust_socks.Server.Pool.Idle.{store}

pub length-reverse_onto {ℓ} :
    {A : Type ℓ} (acc xs : List A) → length (reverse_onto acc xs) ≡ length acc + length xs
unfolding reverse_onto
length-reverse_onto acc [] = omega arith
length-reverse_onto acc (x ∷ xs) = omega (arith, length-reverse_onto (x ∷ acc) xs)

abbrev pub count : {S : Type 0} → Option (PooledConnection S) → ℕ
count none = 0
count (some conn) = 1

pub length-pop_valid :
    {S : Type 0}
    → (config : PoolConfig) (now : ℕ) (stack : List (PooledConnection S))
    → (let (rest, expired, found) = pop_valid config now stack in
        length rest + (expired + count found) ≡ length stack)
unfolding pop_valid
length-pop_valid config now [] = refl
length-pop_valid config now (conn ∷ stack) = ground (arith, length-pop_valid config now stack)

pub length-retain_fresh :
    {S : Type 0}
    → (config : PoolConfig) (now : ℕ) (conns : List (PooledConnection S))
    → length (retain_fresh config now conns) ≤ length conns
unfolding retain_fresh
length-retain_fresh config now [] = omega arith
length-retain_fresh config now (conn ∷ conns) = ground (arith, length-retain_fresh config now conns)

pub List-cases {ℓ} :
    {A : Type ℓ} (xs : List A) → (xs ≡ []) ⊎ ((y : A) × (ys : List A) × (xs ≡ y ∷ ys))
List-cases [] = inl refl
List-cases (x ∷ xs) = inr (x, xs, refl)

module _ {K S : Type 0} where
  -- All the idle connections.
  unfoldable pub idle_count : List (K × List (PooledConnection S)) → ℕ
  idle_count [] = 0
  idle_count ((addr, conns) ∷ pools) = length conns + idle_count pools

  -- No vector of the map is empty, and none is longer than a bound.
  abbrev pub Within : ℕ → List (K × List (PooledConnection S)) → Type 0
  Within bound pools =
      All (λ (p : K × List (PooledConnection S)). (0 < length p.1) × (length p.1 ≤ bound)) pools

module _ {K S : Type 0} ⦃k : Key K⦄ where
  pub idle_count-insert :
      (addr : K) (conns : List (PooledConnection S)) (pools : List (K × List (PooledConnection S)))
      → idle_count (insert addr conns pools) + length (or_else [] (lookup addr pools))
        ≡ idle_count pools + length conns
  unfolding idle_count insert lookup
  idle_count-insert addr conns [] = omega arith
  idle_count-insert addr conns ((a, v) ∷ pools) = ground (arith, idle_count-insert addr conns pools)

  pub idle_count-remove :
      (addr : K) (pools : List (K × List (PooledConnection S)))
      → idle_count (remove addr pools) + length (or_else [] (lookup addr pools)) ≡ idle_count pools
  unfolding idle_count remove lookup
  idle_count-remove addr [] = omega arith
  idle_count-remove addr ((a, v) ∷ pools) = ground (arith, idle_count-remove addr pools)

  pub Within-insert :
      (bound : ℕ) (addr : K) (conns : List (PooledConnection S))
      (pools : List (K × List (PooledConnection S)))
      → Within bound pools
      → 0 < length conns
      → length conns ≤ bound
      → Within bound (insert addr conns pools)
  unfolding insert
  Within-insert bound addr conns [] h l u = ((l, u), tt)
  Within-insert bound addr conns ((a, v) ∷ pools) h l u =
      ground (arith, Within-insert bound addr conns pools h.1 l u)

  pub Within-remove :
      (bound : ℕ) (addr : K) (pools : List (K × List (PooledConnection S)))
      → Within bound pools
      → Within bound (remove addr pools)
  unfolding remove
  Within-remove bound addr [] h = tt
  Within-remove bound addr ((a, v) ∷ pools) h = ground (arith, Within-remove bound addr pools h.1)

  pub Within-lookup :
      (bound : ℕ) (addr : K) (pools : List (K × List (PooledConnection S)))
      (conns : List (PooledConnection S))
      → Within bound pools
      → lookup addr pools ≡ some conns
      → (0 < length conns) × (length conns ≤ bound)
  unfolding lookup
  Within-lookup bound addr [] conns h e = cc
  Within-lookup bound addr ((a, v) ∷ pools) conns h e =
      ground (arith, Within-lookup bound addr pools conns h.1)

  -- Putting fewer connections back for an address.
  pub idle_count-store :
      (addr : K) (conns kept : List (PooledConnection S)) (pool : ConnectionPool K S)
      → lookup addr pool.pools ≡ some conns
      → idle_count (store addr kept pool).pools + length conns ≡ idle_count pool.pools + length kept
  unfolding is_empty
  idle_count-store addr conns [] pool e = ground (arith, idle_count-remove addr pool.pools)
  idle_count-store addr conns (c ∷ kept) pool e =
      ground (arith, idle_count-insert addr (c ∷ kept) pool.pools)

  pub Within-store :
      (bound : ℕ) (addr : K) (conns kept : List (PooledConnection S)) (pool : ConnectionPool K S)
      → lookup addr pool.pools ≡ some conns
      → length kept ≤ length conns
      → Within bound pool.pools
      → Within bound (store addr kept pool).pools
  unfolding is_empty
  Within-store bound addr conns [] pool e l h = Within-remove bound addr pool.pools h
  Within-store bound addr conns (c ∷ kept) pool e l h =
      let (_, u) = Within-lookup bound addr pool.pools conns h e in
      Within-insert bound addr (c ∷ kept) pool.pools h (omega arith) (omega arith)

  pub DistinctKeys-store :
      (addr : K) (kept : List (PooledConnection S)) (pool : ConnectionPool K S)
      → DistinctKeys pool.pools
      → DistinctKeys (store addr kept pool).pools
  unfolding is_empty
  DistinctKeys-store addr [] pool d = DistinctKeys-remove addr pool.pools d
  DistinctKeys-store addr (c ∷ kept) pool d = DistinctKeys-insert addr (c ∷ kept) pool.pools d
