-- ===== src/Server/Pool/Eviction.antt =====
-- src/server/pool.rs: which connection `evict_oldest` removes.
use rust_socks.Prelude.{
  ℕ, ◌≤◌, ◌≡◌, refl, subst, sym, ◌⊎◌, inl, inr, List, [], ◌∷◌, none, some, ltb, All, All-mono,
  arith, Bool-cases,
}
use rust_socks.Prelude.Maps.{Key, lookup, DistinctKeys}
use rust_socks.Server.Pool.Types.{PooledConnection, ConnectionPool}
use rust_socks.Server.Pool.Connections.{min_by_time}
use rust_socks.Server.Pool.Idle.{candidates, evict_oldest, store}
use rust_socks.Server.Pool.Sizes.{Within, List-cases}

module _ {K : Type 0} where
  min_by_time-least :
      (best : K × ℕ) (cs : List (K × ℕ))
      → All (λ (c : K × ℕ). (min_by_time best cs).1 ≤ c.1) (best ∷ cs)
  unfolding min_by_time
  min_by_time-least best [] = (omega arith, tt)
  min_by_time-least best (c ∷ cs) = elim (Bool-cases (ltb c.1 best.1)) [
    | inl e ↦
        let (l, least) = min_by_time-least c cs in
        let same : min_by_time best (c ∷ cs) ≡ min_by_time c cs = ground arith in
        subst (λ (m : K × ℕ). All (λ (x : K × ℕ). m.1 ≤ x.1) (best ∷ c ∷ cs)) (sym same)
          (ground arith, (l, least))
    | inr e ↦
        let (l, least) = min_by_time-least best cs in
        let same : min_by_time best (c ∷ cs) ≡ min_by_time best cs = ground arith in
        subst (λ (m : K × ℕ). All (λ (x : K × ℕ). m.1 ≤ x.1) (best ∷ c ∷ cs)) (sym same)
          (l, (ground arith, least))
  ]

  min_by_time-All {κ} :
      (P : K × ℕ → Type κ) (best : K × ℕ) (cs : List (K × ℕ))
      → All P (best ∷ cs)
      → P (min_by_time best cs)
  unfolding min_by_time
  min_by_time-All P best [] h = h.0
  min_by_time-All P best (c ∷ cs) (p, (q, h)) =
      ground (arith, min_by_time-All P c cs, min_by_time-All P best cs)

module _ {K S : Type 0} ⦃k : Key K⦄ where
  -- A candidate is the first connection of its address.
  abbrev Listed : List (K × List (PooledConnection S)) → K × ℕ → Type 0
  Listed pools c =
      (conn : PooledConnection S) × (rest : List (PooledConnection S)) × (lookup c.0 pools
        ≡ some (conn ∷ rest))
      × (conn.created_at ≡ c.1)

  Listed-skip :
      (addr : K) (conns : List (PooledConnection S)) (pools : List (K × List (PooledConnection S)))
      (c : K × ℕ)
      → lookup addr pools ≡ none
      → Listed pools c
      → Listed ((addr, conns) ∷ pools) c
  unfolding lookup
  Listed-skip addr conns pools c fresh (conn, rest, found, at) =
      (conn, rest, ground (arith, k.beq_iff addr c.0), at)

  candidates-Listed :
      (pools : List (K × List (PooledConnection S)))
      → DistinctKeys pools
      → All (Listed pools) (candidates pools)
  unfolding candidates lookup
  candidates-Listed [] d = tt
  candidates-Listed ((addr, []) ∷ pools) (fresh, d) =
      All-mono _ _ (λ c. Listed-skip addr [] pools c fresh) (candidates pools)
        (candidates-Listed pools d)
  candidates-Listed ((addr, conn ∷ conns) ∷ pools) (fresh, d) = (
    (conn, conns, ground (arith, k.beq_iff addr addr), refl),
    All-mono _ _ (λ c. Listed-skip addr (conn ∷ conns) pools c fresh) (candidates pools)
        (candidates-Listed pools d),
  )

  -- Every connection at the front of its vector is at least as young.
  abbrev pub Younger : ℕ → K × List (PooledConnection S) → Type 0
  Younger time (addr, []) = Unit
  Younger time (addr, conn ∷ conns) = time ≤ conn.created_at

  candidates-Younger :
      (time : ℕ) (pools : List (K × List (PooledConnection S)))
      → All (λ (c : K × ℕ). time ≤ c.1) (candidates pools)
      → All (Younger time) pools
  unfolding candidates
  candidates-Younger time [] h = tt
  candidates-Younger time ((addr, []) ∷ pools) h = (tt, candidates-Younger time pools h)
  candidates-Younger time ((addr, conn ∷ conns) ∷ pools) h =
      (h.0, candidates-Younger time pools h.1)

  candidates-none :
      (bound : ℕ) (pools : List (K × List (PooledConnection S)))
      → Within bound pools
      → candidates pools ≡ []
      → pools ≡ []
  unfolding candidates
  candidates-none bound [] h e = refl
  candidates-none bound ((addr, []) ∷ pools) h e = absurd (omega arith)
  candidates-none bound ((addr, conn ∷ conns) ∷ pools) h e = cc

  -- In a map without a repeated address or an empty vector, eviction finds nothing, or removes the
  -- first connection of one address, at least as old as the first connection of every other.
  pub evict_oldest-cases :
      (bound : ℕ) (pool : ConnectionPool K S)
      → DistinctKeys pool.pools
      → Within bound pool.pools
      → ((evict_oldest pool ≡ (none, pool)) × (pool.pools ≡ []))
        ⊎ ((addr : K) × (conn : PooledConnection S) × (rest : List (PooledConnection S)) × (lookup
                addr pool.pools
              ≡ some (conn ∷ rest))
            × (evict_oldest pool ≡ (some addr, store addr rest pool))
            × All (Younger conn.created_at) pool.pools)
  unfolding evict_oldest
  evict_oldest-cases bound pool d w = elim (List-cases (candidates pool.pools)) [
    | inl none_listed ↦ inl (ground arith, candidates-none bound pool.pools w none_listed)
    | inr (c, cs, e) ↦
        let listed = candidates-Listed pool.pools d in
        let best = min_by_time c cs in
        let (conn, rest, found, at) =
          min_by_time-All (Listed pool.pools) c cs (subst (All (Listed pool.pools)) e listed) in
        let least = min_by_time-least c cs in
        inr (
          best.0,
          conn,
          rest,
          found,
          ground arith,
          candidates-Younger conn.created_at pool.pools (
              subst (All (λ (x : K × ℕ). conn.created_at ≤ x.1)) (sym e)
                (subst (λ t. All (λ (x : K × ℕ). t ≤ x.1) (c ∷ cs)) (sym at) least)),
        )
  ]
