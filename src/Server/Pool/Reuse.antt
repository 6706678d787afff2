-- ===== src/Server/Pool/Reuse.antt =====
-- src/server/pool.rs: which connection `try_get_from_pool` returns.
use rust_socks.Prelude.{
  ℕ, suc, zero, ◌≡◌, refl, ap, sym, ◌∙◌, subst, ◌⊎◌, inl, inr, true, false, List, [], ◌∷◌, ◌++◌,
  length, Option, none, some, All, arith, if◌then◌else◌, Bool-cases, Option-cases, append_assoc,
  append-nil,
}
use rust_socks.Prelude.Maps.{Key, lookup, DistinctKeys, lookup-insert, lookup-remove}
use rust_socks.Server.Pool.Types.{PoolConfig, PooledConnection, ConnectionPool}
use rust_socks.Server.Pool.Connections.{or_else, is_expired, pop_valid, reverse_onto, is_empty}
use rust_socks.Server.Pool.Idle.{store, took, record_expired, try_get_from_pool}

module _ {A : Type 0} where
  reverse_onto-append :
      (acc xs ys : List A) → reverse_onto acc (xs ++ ys) ≡ reverse_onto (reverse_onto acc xs) ys
  unfolding reverse_onto
  reverse_onto-append acc [] ys = refl
  reverse_onto-append acc (x ∷ xs) ys = reverse_onto-append (x ∷ acc) xs ys

  reverse_onto-split : (acc xs : List A) → reverse_onto acc xs ≡ reverse_onto [] xs ++ acc
  unfolding reverse_onto
  reverse_onto-split acc [] = refl
  reverse_onto-split acc (x ∷ xs) =
      reverse_onto-split (x ∷ acc) xs
      ∙ sym (append_assoc (reverse_onto [] xs) (x ∷ []) acc)
      ∙ ap (λ l. l ++ acc) (sym (reverse_onto-split (x ∷ []) xs))

  reverse_onto_twice :
      (onto acc xs : List A)
      → reverse_onto onto (reverse_onto acc xs) ≡ reverse_onto (xs ++ onto) acc
  unfolding reverse_onto
  reverse_onto_twice onto acc [] = refl
  reverse_onto_twice onto acc (x ∷ xs) = reverse_onto_twice onto (x ∷ acc) xs

  All-reverse_onto :
      (P : A → Type 0) (acc xs : List A) → All P acc → All P xs → All P (reverse_onto acc xs)
  unfolding reverse_onto
  All-reverse_onto P acc [] h k = h
  All-reverse_onto P acc (x ∷ xs) h k = All-reverse_onto P (x ∷ acc) xs (k.0, h) k.1

  -- A list whose reverse has a given element has it in the mirrored place.
  reverse_onto-middle :
      (xs newer rest : List A) (x : A)
      → reverse_onto [] xs ≡ newer ++ x ∷ rest
      → xs ≡ reverse_onto [] rest ++ x ∷ reverse_onto [] newer
  unfolding reverse_onto
  reverse_onto-middle xs newer rest x e =
      sym (append-nil xs)
      ∙ sym (reverse_onto_twice [] [] xs)
      ∙ ap (reverse_onto []) e
      ∙ reverse_onto-append [] newer (x ∷ rest)
      ∙ reverse_onto-split (x ∷ reverse_onto [] newer) rest

module _ {S : Type 0} (config : PoolConfig) (now : ℕ) where
  abbrev pub Expired : PooledConnection S → Type 0
  Expired conn = is_expired config now conn ≡ true

  pop_valid-cases :
      (stack : List (PooledConnection S))
      → ((pop_valid config now stack ≡ ([], length stack, none)) × All Expired stack)
        ⊎ ((newer : List (PooledConnection S)) × (conn : PooledConnection S) × (rest : List
              (PooledConnection S))
            × (stack ≡ newer ++ conn ∷ rest)
            × All Expired newer
            × (is_expired config now conn ≡ false)
            × (pop_valid config now stack ≡ (rest, length newer, some conn)))
  unfolding pop_valid
  pop_valid-cases [] = inl (refl, tt)
  pop_valid-cases (c ∷ stack) = elim (Bool-cases (is_expired config now c)) [
    | inr fresh ↦ inr ([], c, stack, refl, tt, fresh, ground arith)
    | inl old ↦ elim (pop_valid-cases stack) [
      | inl (e, all_old) ↦ inl (ground arith, (old, all_old))
      | inr (newer, conn, rest, whole, olds, fresh, e) ↦
          inr (c ∷ newer, conn, rest, ap (◌∷◌ c) whole, (old, olds), fresh, ground arith)
    ]
  ]

module _ {K S : Type 0} ⦃k : Key K⦄ where
  -- The idle connections of an address.
  abbrev pub idle : K → ConnectionPool K S → List (PooledConnection S)
  idle addr pool = or_else [] (lookup addr pool.pools)

  idle-store :
      (addr c : K) (kept : List (PooledConnection S)) (pool : ConnectionPool K S)
      → DistinctKeys pool.pools
      → idle c (store addr kept pool) ≡ (if k.beq addr c then kept else idle c pool)
  unfolding is_empty
  idle-store addr c [] pool d = ground (arith, lookup-remove addr c pool.pools d)
  idle-store addr c (x ∷ kept) pool d = ground (arith, lookup-insert addr c (x ∷ kept) pool.pools)

  drained-pools :
      (now : ℕ) (addr : K) (n : ℕ) (found : Option (PooledConnection S)) (pool : ConnectionPool K S)
      → (record_expired now addr n (took found pool)).pools ≡ pool.pools
  unfolding record_expired
  drained-pools now addr zero none pool = refl
  drained-pools now addr zero (some conn) pool = refl
  drained-pools now addr (suc n) none pool = refl
  drained-pools now addr (suc n) (some conn) pool = refl

  -- What is left for every address once the loop has stopped.
  left_idle :
      (now : ℕ) (addr : K) (conns rest : List (PooledConnection S)) (n : ℕ)
      (found : Option (PooledConnection S)) (pool : ConnectionPool K S)
      → DistinctKeys pool.pools
      → lookup addr pool.pools ≡ some conns
      → pop_valid pool.config now (reverse_onto [] conns) ≡ (rest, n, found)
      → ((try_get_from_pool now addr pool).0 ≡ found)
        × ((c : K)
            → idle c (try_get_from_pool now addr pool).1
              ≡ (if k.beq addr c then reverse_onto [] rest else idle c pool))
  unfolding try_get_from_pool
  left_idle now addr conns rest n found pool d e p =
      let stored = store addr (reverse_onto [] rest) pool in
      let whole : try_get_from_pool now addr pool
          ≡ (found, record_expired now addr n (took found stored)) =
        ground arith in
      (
        ap (λ r. r.0) whole,
        λ c.
            ap (λ r. idle c r.1) whole
            ∙ ap (λ m. or_else [] (lookup c m)) (drained-pools now addr n found stored)
            ∙ idle-store addr c (reverse_onto [] rest) pool d,
      )

  -- In a map without a repeated address: nothing is returned, and every idle connection of the
  -- address had expired and is dropped, or the youngest that had not is returned, and only those
  -- behind it, which had all expired, are dropped with it. No other address loses a connection.
  pub try_get_from_pool-cases :
      (now : ℕ) (addr : K) (pool : ConnectionPool K S)
      → DistinctKeys pool.pools
      → (((try_get_from_pool now addr pool).0 ≡ none)
          × All (Expired pool.config now) (idle addr pool)
          × ((c : K)
              → idle c (try_get_from_pool now addr pool).1
                ≡ (if k.beq addr c then [] else idle c pool)))
        ⊎ ((older : List (PooledConnection S)) × (conn : PooledConnection S) × (newer : List
              (PooledConnection S))
            × (idle addr pool ≡ older ++ conn ∷ newer)
            × All (Expired pool.config now) newer
            × (is_expired pool.config now conn ≡ false)
            × ((try_get_from_pool now addr pool).0 ≡ some conn)
            × ((c : K)
                → idle c (try_get_from_pool now addr pool).1
                  ≡ (if k.beq addr c then older else idle c pool)))
  unfolding try_get_from_pool
  try_get_from_pool-cases now addr pool d = elim (Option-cases (lookup addr pool.pools)) [
    | inl missing ↦ inl (ground arith, ground arith, λ c. ground (arith, k.beq_iff addr c))
    | inr (conns, e) ↦
        let stack = reverse_onto [] conns in
        let here : idle addr pool ≡ conns = ground arith in
        elim (pop_valid-cases pool.config now stack) [
          | inl (p, olds) ↦
              let (found, left) = left_idle now addr conns [] (length stack) none pool d e p in
              let mirrored = All-reverse_onto (Expired pool.config now) [] stack tt olds in
              let same = reverse_onto_twice [] [] conns ∙ append-nil conns in
              inl (found, subst (All (Expired pool.config now)) (same ∙ sym here) mirrored, left)
          | inr (newer, conn, rest, whole, olds, fresh, p) ↦
              let (found, left) =
                left_idle now addr conns rest (length newer) (some conn) pool d e p in
              inr (
                reverse_onto [] rest,
                conn,
                reverse_onto [] newer,
                here ∙ reverse_onto-middle conns newer rest conn whole,
                All-reverse_onto (Expired pool.config now) [] newer tt olds,
                fresh,
                found,
                left,
              )
        ]
  ]
