-- ===== src/Server/Pool/Insertion.antt =====
-- src/server/pool.rs: `insert_stream` up to the count of the connection that it evicts.
use rust_socks.Prelude.{
  ℕ, ◌+◌, ◌%◌, ◌≤◌, ◌<◌, ◌≡◌, ap, subst, sym, inl, inr, Bool, true, false, List, [], ◌∷◌, ◌++◌,
  length, length-append, Option, none, some, arith, Bool-cases, leb,
}
use rust_socks.Prelude.Maps.{
  Key, lookup, DistinctKeys, DistinctKeys-insert, lookup-insert, lookup-remove,
}
use rust_socks.Prelude.Machine.{word}
use rust_socks.Server.Pool.Types.{PooledConnection, ConnectionPool}
use rust_socks.Server.Pool.Connections.{or_else, new_connection, is_empty}
use rust_socks.Server.Pool.Idle.{store, push_idle, is_full, insert_stream}
use rust_socks.Server.Pool.Sizes.{
  idle_count, Within, idle_count-insert, Within-insert, idle_count-store, Within-store,
  DistinctKeys-store,
}
use rust_socks.Server.Pool.Eviction.{evict_oldest-cases}
use rust_socks.Server.Pool.Invariant.{limit, IsPool}

abbrev pub evictions : {K : Type 0} → Option K → ℕ
evictions none = 0
evictions (some addr) = 1

module _ {K S : Type 0} ⦃k : Key K⦄ where
  -- The invariant while `n` connections that have left the map are still counted.
  pub record IsPending (n : ℕ) (pool : ConnectionPool K S) : Type 0 where
    pub counted : pool.metrics.total_idle ≡ (idle_count pool.pools + n) % word
    pub bounded : idle_count pool.pools ≤ limit pool.config.max_total_idle
    pub within : Within (limit pool.config.max_idle_per_dest) pool.pools
    pub distinct : DistinctKeys pool.pools
    pub usize : pool.config.max_total_idle < word

  abbrev room : K → ConnectionPool K S → ℕ
  room addr pool = length (or_else [] (lookup addr pool.pools))

  room-store :
      (addr other : K) (conn : PooledConnection S) (rest : List (PooledConnection S))
      (pool : ConnectionPool K S)
      → DistinctKeys pool.pools
      → lookup other pool.pools ≡ some (conn ∷ rest)
      → room addr (store other rest pool) ≤ room addr pool
  unfolding is_empty
  room-store addr other conn [] pool d e = ground (arith, lookup-remove other addr pool.pools d)
  room-store addr other conn (c ∷ rest) pool d e =
      ground (arith, lookup-insert other addr (c ∷ rest) pool.pools, k.beq_iff other addr)

  is_full-room :
      (addr : K) (pool : ConnectionPool K S)
      → is_full addr pool ≡ false
      → room addr pool < limit pool.config.max_idle_per_dest
  is_full-room addr pool h = ground arith

  push_idle-IsPending :
      (now : ℕ) (addr : K) (s : S) (n : ℕ) (pool : ConnectionPool K S)
      → pool.metrics.total_idle ≡ idle_count pool.pools + n
      → idle_count pool.pools < limit pool.config.max_total_idle
      → Within (limit pool.config.max_idle_per_dest) pool.pools
      → DistinctKeys pool.pools
      → pool.config.max_total_idle < word
      → room addr pool < limit pool.config.max_idle_per_dest
      → IsPending n (push_idle now addr s pool)
  push_idle-IsPending now addr s n pool t b w d u r =
      let old = or_else [] (lookup addr pool.pools) in
      let grown = length-append old (new_connection now s ∷ []) in
      let sizes = idle_count-insert addr (old ++ new_connection now s ∷ []) pool.pools in
      record {
        counted = ground (arith, grown, sizes);
        bounded = ground (arith, grown, sizes);
        within =
            Within-insert (limit pool.config.max_idle_per_dest) addr
              (old ++ new_connection now s ∷ []) pool.pools w (omega (arith, grown))
              (omega (arith, grown));
        distinct = DistinctKeys-insert addr (old ++ new_connection now s ∷ []) pool.pools d;
        usize = u;
      }

  abbrev Inserted : (Bool × Option K) × ConnectionPool K S → Type 0
  Inserted ((dropped, evicted), pool) = IsPending (evictions evicted) pool

  idle_count-empty :
      (pools : List (K × List (PooledConnection S))) → pools ≡ [] → idle_count pools ≡ 0
  unfolding idle_count
  idle_count-empty pools e = ap idle_count e

  insert_stream-Inserted :
      (now : ℕ) (addr : K) (s : S) (pool : ConnectionPool K S)
      → IsPool pool
      → is_full addr pool ≡ false
      → leb pool.config.max_total_idle pool.metrics.total_idle ≡ true
      → Inserted (insert_stream now addr s pool)
  unfolding insert_stream
  insert_stream-Inserted now addr s pool h open_ over =
      elim (evict_oldest-cases (limit pool.config.max_idle_per_dest) pool h.distinct h.within) [
        | inl (e, empty) ↦
            let nothing : idle_count pool.pools ≡ 0 = idle_count-empty pool.pools empty in
            let stays =
              push_idle-IsPending now addr s 0 pool (omega (arith, h.counted)) (omega arith)
                h.within h.distinct h.usize (is_full-room addr pool open_) in
            subst Inserted {x = ((false, none), push_idle now addr s pool)}
              {y = insert_stream now addr s pool} (ground arith) stays
        | inr (other, conn, rest, found, e, _) ↦
            let left = store other rest pool in
            let sizes = idle_count-store other (conn ∷ rest) rest pool found in
            let fits = room-store addr other conn rest pool h.distinct found in
            let stays =
              push_idle-IsPending now addr s 1 left (omega (arith, h.counted))
                (omega (arith, h.bounded))
                (Within-store (limit pool.config.max_idle_per_dest) other (conn ∷ rest) rest pool
                  found (omega arith) h.within)
                (DistinctKeys-store other rest pool h.distinct) h.usize
                (omega (arith, is_full-room addr pool open_)) in
            subst Inserted {x = ((false, some other), push_idle now addr s left)}
              {y = insert_stream now addr s pool} (ground arith) stays
      ]

  pub insert_stream-IsPending :
      (now : ℕ) (addr : K) (s : S) (pool : ConnectionPool K S)
      → IsPool pool
      → Inserted (insert_stream now addr s pool)
  unfolding insert_stream
  insert_stream-IsPending now addr s pool h = elim (Bool-cases (is_full addr pool)) [
    | inl full ↦
        let stays : IsPending 0 pool = record {
          counted = omega (arith, h.counted, h.bounded, h.usize);
          bounded = h.bounded;
          within = h.within;
          distinct = h.distinct;
          usize = h.usize;
        } in
        subst Inserted {x = ((true, none), pool)} {y = insert_stream now addr s pool} (ground arith)
          stays
    | inr open_ ↦ elim (Bool-cases (leb pool.config.max_total_idle pool.metrics.total_idle)) [
      | inl over ↦ insert_stream-Inserted now addr s pool h open_ over
      | inr under ↦
          let stays =
            push_idle-IsPending now addr s 0 pool (omega (arith, h.counted))
              (ground (arith, h.counted)) h.within h.distinct h.usize
              (is_full-room addr pool open_) in
          subst Inserted {x = ((false, none), push_idle now addr s pool)}
            {y = insert_stream now addr s pool} (ground arith) stays
    ]
  ]

  -- Counting the eviction restores the invariant.
  pub IsPending-frame :
      (n : ℕ) (p q : ConnectionPool K S)
      → IsPending n p
      → q.config ≡ p.config
      → q.pools ≡ p.pools
      → (q.metrics.total_idle + n) % word ≡ p.metrics.total_idle % word
      → q.metrics.total_idle < word
      → n ≤ 1
      → IsPool q
  IsPending-frame n p q h c m t u l = record {
    counted =
        omega (arith, h.counted, h.bounded, h.usize, ap (λ c. c.max_total_idle) c, ap idle_count m);
    bounded =
        subst (λ x. idle_count x ≤ limit q.config.max_total_idle) (sym m)
          (subst (λ c. idle_count p.pools ≤ limit c.max_total_idle) (sym c) h.bounded);
    within =
        subst (λ x. Within (limit q.config.max_idle_per_dest) x) (sym m)
          (subst (λ c. Within (limit c.max_idle_per_dest) p.pools) (sym c) h.within);
    distinct = subst DistinctKeys (sym m) h.distinct;
    usize = subst (λ c. c.max_total_idle < word) (sym c) h.usize;
  }
