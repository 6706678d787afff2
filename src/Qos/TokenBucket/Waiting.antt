-- ===== src/Qos/TokenBucket/Waiting.antt =====
-- src/qos/token_bucket.rs: how long `consume` waits, and when it waits for ever.
use rust_socks.Prelude.{
  ℕ, suc, zero, ◌+◌, ◌-◌, ◌≤◌, ◌<◌, ◌≡◌, ◌≢◌, leb, arith, Bool-cases, inl, inr, ◌⊎◌, ◌*◌, ◌↔◌, some,
  none, ◌∙◌,
}
use rust_socks.Qos.TokenBucket.{
  TokenBucket, Runtime, IsRuntime, millisecond, second, refill_sync, try_consume,
  calculate_wait_time, consume,
}
use rust_socks.Qos.TokenBucket.Bounds.{
  IsBucket, refill_sync-IsBucket, refill_sync-keeps, refill_sync-grows, try_consume-IsAfter,
  IsAfter, IsBucket-later,
}

module _ (rt : Runtime) where
  -- The instant at which the loop goes on, and the bucket there.
  abbrev awake : ℕ → ℕ → TokenBucket → ℕ
  awake now amount b =
      let r = refill_sync rt now b in rt.woken now (calculate_wait_time rt (amount - r.tokens) r)

  abbrev again : ℕ → ℕ → TokenBucket → TokenBucket
  again now amount b = refill_sync rt (awake now amount b) (refill_sync rt now b)

  consume-ready :
      (fuel now amount : ℕ) (b : TokenBucket)
      → amount ≤ (refill_sync rt now b).tokens
      → consume rt fuel now amount b ≡ some (now, (try_consume rt now amount b).1)
  unfolding consume try_consume
  consume-ready zero now amount b h = ground arith
  consume-ready (suc n) now amount b h = ground arith

  consume-zero :
      (now amount : ℕ) (b : TokenBucket)
      → (refill_sync rt now b).tokens < amount
      → consume rt zero now amount b ≡ none
  unfolding consume try_consume
  consume-zero now amount b h = ground arith

  consume-suc :
      (fuel now amount : ℕ) (b : TokenBucket)
      → (refill_sync rt now b).tokens < amount
      → consume rt (suc fuel) now amount b
        ≡ consume rt fuel (awake now amount b) amount (again now amount b)
  unfolding consume try_consume
  consume-suc fuel now amount b h = ground arith

  awake_later :
      (now amount : ℕ) (b : TokenBucket) → IsRuntime rt → now + millisecond ≤ awake now amount b
  unfolding calculate_wait_time
  awake_later now amount b r =
      let left = refill_sync rt now b in
      ground (arith, r.sleeps now (calculate_wait_time rt (amount - left.tokens) left))

  again-IsBucket :
      (now amount : ℕ) (b : TokenBucket)
      → IsRuntime rt
      → IsBucket now b
      → IsBucket (awake now amount b) (again now amount b)
  again-IsBucket now amount b r h =
      refill_sync-IsBucket rt (awake now amount b) (refill_sync rt now b) (
        IsBucket-later now (awake now amount b) (refill_sync rt now b)
          (refill_sync-IsBucket rt now b h) (omega (arith, awake_later now amount b r)))

  again-keeps :
      (now amount : ℕ) (b : TokenBucket)
      → IsRuntime rt
      → IsBucket now b
      → (b.tokens ≤ (again now amount b).tokens)
        × ((again now amount b).capacity ≡ b.capacity)
        × ((again now amount b).refill_rate ≡ b.refill_rate)
  again-keeps now amount b r h =
      let left = refill_sync rt now b in
      let (m, c, q) = refill_sync-keeps rt now b h in
      let late = awake now amount b in
      let (m', c', q') = refill_sync-keeps rt late left (
        IsBucket-later now late left (refill_sync-IsBucket rt now b h)
          (omega (arith, awake_later now amount b r))) in
      (omega arith, c' ∙ c, q' ∙ q)

  -- A bucket from which more is asked for than it can hold lets the loop sleep for ever.
  consume_oversized :
      (fuel now amount : ℕ) (b : TokenBucket)
      → IsRuntime rt
      → IsBucket now b
      → b.capacity < amount
      → consume rt fuel now amount b ≡ none
  consume_oversized zero now amount b r h big =
      consume-zero now amount b
        (omega (arith, (refill_sync-IsBucket rt now b h).within, refill_sync-keeps rt now b h))
  consume_oversized (suc fuel) now amount b r h big =
      let (m, c, q) = again-keeps now amount b r h in
      consume-suc fuel now amount b
        (omega (arith, (refill_sync-IsBucket rt now b h).within, refill_sync-keeps rt now b h))
      ∙ consume_oversized fuel (awake now amount b) amount (again now amount b) r
          (again-IsBucket now amount b r h) (omega arith)

  -- How far a bucket is from what is asked for: `missing` tokens, of which one comes after `early`
  -- milliseconds at the latest.
  record IsNear (missing early now amount : ℕ) (b : TokenBucket) : Type 0 where
    tokens : amount ≤ b.tokens + missing
    time : b.last_refill + second ≤ now + early * millisecond

  -- A token more, and a second for the next.
  gained :
      (missing early now amount : ℕ) (b : TokenBucket)
      → IsRuntime rt
      → IsBucket now b
      → (refill_sync rt now b).tokens < amount
      → IsNear missing early now amount b
      → amount ≤ b.capacity
      → (((again now amount b).tokens ≡ b.capacity) ⊎ (b.tokens < (again now amount b).tokens))
      → (m : ℕ) × (e : ℕ) × IsNear m e (awake now amount b) amount (again now amount b)
        × (m * 1001 + e < missing * 1001 + early)
  gained missing early now amount b r h short near small grown =
      let (t, c, q) = refill_sync-keeps rt now b h in
      (
        missing - 1,
        1000,
        record {
          tokens = ground (arith, near.tokens);
          time = omega (arith, (again-IsBucket now amount b r h).past);
        },
        omega (arith, near.tokens),
      )

  nearer :
      (missing early now amount : ℕ) (b : TokenBucket)
      → IsRuntime rt
      → IsBucket now b
      → 1 ≤ b.refill_rate
      → (refill_sync rt now b).tokens < amount
      → IsNear missing early now amount b
      → amount ≤ b.capacity
      → (m : ℕ) × (e : ℕ) × IsNear m e (awake now amount b) amount (again now amount b)
        × (m * 1001 + e < missing * 1001 + early)
  nearer missing early now amount b r h p short near small =
      let left = refill_sync rt now b in
      let late = awake now amount b in
      let (t, c, q) = refill_sync-keeps rt now b h in
      let (t', c', q') = again-keeps now amount b r h in
      let there =
        IsBucket-later now late left (refill_sync-IsBucket rt now b h)
          (omega (arith, awake_later now amount b r)) in
      let (t'', _, _) = refill_sync-keeps rt late left there in
      elim (refill_sync-grows rt now b r h p) [
        | inl (l, s, n) ↦ elim (refill_sync-grows rt late left r there (omega arith)) [
          | inl (l', s', n') ↦ (
            missing,
            early - 1,
            record {
              tokens = omega (arith, near.tokens);
              time = omega (arith, near.time, awake_later now amount b r);
            },
            omega (arith, near.time),
          )
          | inr more ↦ gained missing early now amount b r h short near small (ground arith)
        ]
        | inr more ↦ gained missing early now amount b r h short near small (ground arith)
      ]

  consume_near :
      (fuel missing early now amount : ℕ) (b : TokenBucket)
      → IsRuntime rt
      → IsBucket now b
      → 1 ≤ b.refill_rate
      → amount ≤ b.capacity
      → IsNear missing early now amount b
      → missing * 1001 + early ≤ fuel
      → (t : ℕ) × (left : TokenBucket) × (consume rt fuel now amount b ≡ some (t, left))
        × IsAfter now b t left
  consume_near zero missing early now amount b r h p small near f =
      let (more, c, q) = refill_sync-keeps rt now b h in
      (
        now,
        (try_consume rt now amount b).1,
        consume-ready zero now amount b (omega (arith, near.tokens)),
        try_consume-IsAfter rt now amount b h,
      )
  consume_near (suc n) missing early now amount b r h p small near f =
      elim (Bool-cases (leb amount (refill_sync rt now b).tokens)) [
        | inl e ↦ (
          now,
          (try_consume rt now amount b).1,
          consume-ready (suc n) now amount b (ground arith),
          try_consume-IsAfter rt now amount b h,
        )
        | inr e ↦
            let (m, l, near', less) =
              nearer missing early now amount b r h p (ground arith) near small in
            let (_, c, q) = again-keeps now amount b r h in
            let (t, left, ends, after) =
              consume_near n m l (awake now amount b) amount (again now amount b) r
                (again-IsBucket now amount b r h) (omega arith) (omega arith) near' (omega arith) in
            (
              t,
              left,
              consume-suc n now amount b (ground arith) ∙ ends,
              record {
                later = omega (arith, awake_later now amount b r, after.later);
                bucket = after.bucket;
                same_capacity = after.same_capacity ∙ c;
                same_rate = after.same_rate ∙ q;
              },
            )
      ]

  -- A bucket that is refilled at all and can hold what is asked for: the loop ends after at most
  -- 1,001 sleeps for each token that is asked for and a second more, not before it began, and
  -- leaves a bucket that is within the same capacity, with the same rate.
  pub consume_ends :
      (now amount : ℕ) (b : TokenBucket)
      → IsRuntime rt
      → IsBucket now b
      → 1 ≤ b.refill_rate
      → amount ≤ b.capacity
      → (t : ℕ) × (left : TokenBucket) × (consume rt (amount * 1001 + 1000) now amount b
          ≡ some (t, left))
        × IsAfter now b t left
  consume_ends now amount b r h p small =
      consume_near (amount * 1001 + 1000) amount 1000 now amount b r h p small
        (record { tokens = omega arith; time = omega (arith, h.past) }) (omega arith)

  -- The loop ends after some number of sleeps exactly when the bucket can hold what is asked for.
  pub consume_ends_iff :
      (now amount : ℕ) (b : TokenBucket)
      → IsRuntime rt
      → IsBucket now b
      → 1 ≤ b.refill_rate
      → ((fuel : ℕ) × (consume rt fuel now amount b ≢ none)) ↔ (amount ≤ b.capacity)
  consume_ends_iff now amount b r h p = (
    (λ (fuel, ends). elim (Bool-cases (leb amount b.capacity)) [
      | inl fits ↦ ground arith
      | inr big ↦ absurd (ends (consume_oversized fuel now amount b r h (ground arith)))
    ]),
    (λ fits.
        let (t, left, ends, _) = consume_ends now amount b r h p fits in
        (amount * 1001 + 1000, λ stuck. ground (arith, ends, stuck))),
  )
