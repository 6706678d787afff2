-- ===== src/Qos/TokenBucket/Bounds.antt =====
-- src/qos/token_bucket.rs: a bucket never holds more than its capacity, and what a call takes.
use rust_socks.Prelude.{
  ℕ, ◌+◌, ◌-◌, ◌≤◌, ◌<◌, ◌≡◌, ◌∙◌, refl, ltb, arith, Bool-cases, inl, inr, ◌⊎◌, ◌/◌, ◌&&◌,
}
use rust_socks.Prelude.Machine.{word}
use rust_socks.Qos.TokenBucket.{
  TokenBucket, Runtime, IsRuntime, millisecond, second, add_tokens, refill_sync, try_consume,
}

-- A bucket within its capacity, at an instant that is not before its last refill.
pub record IsBucket (now : ℕ) (b : TokenBucket) : Type 0 where
  pub within : b.tokens ≤ b.capacity
  pub u64 : b.capacity < word
  pub past : b.last_refill ≤ now

-- A bucket after some calls: later, within the same capacity, with the same rate.
pub record IsAfter (now : ℕ) (b : TokenBucket) (t : ℕ) (left : TokenBucket) : Type 0 where
  pub later : now ≤ t
  pub bucket : IsBucket t left
  pub same_capacity : left.capacity ≡ b.capacity
  pub same_rate : left.refill_rate ≡ b.refill_rate

pub IsBucket-later :
    (now later : ℕ) (b : TokenBucket) → IsBucket now b → now ≤ later → IsBucket later b
IsBucket-later now later b h l = record {
  within = h.within;
  u64 = h.u64;
  past = omega (arith, h.past);
}

pub IsAfter-refl : (now : ℕ) (b : TokenBucket) → IsBucket now b → IsAfter now b now b
IsAfter-refl now b h = record {
  later = omega arith;
  bucket = h;
  same_capacity = refl;
  same_rate = refl;
}

pub IsAfter-later :
    (now : ℕ) (b : TokenBucket) (t : ℕ) (left : TokenBucket) (end : ℕ)
    → IsAfter now b t left
    → t ≤ end
    → IsAfter now b end left
IsAfter-later now b t left end h l = record {
  later = omega (arith, h.later);
  bucket = IsBucket-later t end left h.bucket l;
  same_capacity = h.same_capacity;
  same_rate = h.same_rate;
}

pub IsAfter-trans :
    (now : ℕ) (b : TokenBucket) (t : ℕ) (mid : TokenBucket) (end : ℕ) (left : TokenBucket)
    → IsAfter now b t mid
    → IsAfter t mid end left
    → IsAfter now b end left
IsAfter-trans now b t mid end left h k = record {
  later = omega (arith, h.later, k.later);
  bucket = k.bucket;
  same_capacity = k.same_capacity ∙ h.same_capacity;
  same_rate = k.same_rate ∙ h.same_rate;
}

module _ (rt : Runtime) where
  pub refill_sync-IsBucket :
      (now : ℕ) (b : TokenBucket) → IsBucket now b → IsBucket now (refill_sync rt now b)
  unfolding refill_sync add_tokens
  refill_sync-IsBucket now b h = record {
    within = ground (arith, h.within);
    u64 = ground (arith, h.u64);
    past = ground (arith, h.past);
  }

  pub refill_sync-keeps :
      (now : ℕ) (b : TokenBucket)
      → IsBucket now b
      → (b.tokens ≤ (refill_sync rt now b).tokens)
        × ((refill_sync rt now b).capacity ≡ b.capacity)
        × ((refill_sync rt now b).refill_rate ≡ b.refill_rate)
  unfolding refill_sync add_tokens
  refill_sync-keeps now b h = ground (arith, h.within, h.u64)

  pub refill_sync-grows :
      (now : ℕ) (b : TokenBucket)
      → IsRuntime rt
      → IsBucket now b
      → 1 ≤ b.refill_rate
      → (((refill_sync rt now b).last_refill ≡ b.last_refill)
          × ((refill_sync rt now b).tokens ≡ b.tokens)
          × (now < b.last_refill + second))
        ⊎ (((refill_sync rt now b).tokens ≡ b.capacity)
            ⊎ (b.tokens < (refill_sync rt now b).tokens))
  unfolding refill_sync add_tokens
  refill_sync-grows now b r h p =
      elim (Bool-cases (
        ltb 0 ((now - b.last_refill) / millisecond)
        && ltb 0 (rt.seconds_times (now - b.last_refill) b.refill_rate))) [
          | inl e ↦ ground (arith, h.within, h.u64)
          | inr e ↦ ground (arith, r.produces (now - b.last_refill) b.refill_rate, h.past)
        ]

  pub try_consume-IsAfter :
      (now amount : ℕ) (b : TokenBucket)
      → IsBucket now b
      → IsAfter now b now (try_consume rt now amount b).1
  unfolding try_consume
  try_consume-IsAfter now amount b h =
      let r = refill_sync-IsBucket now b h in
      let (_, c, q) = refill_sync-keeps now b h in
      record {
        later = omega arith;
        bucket = record {
          within = ground (arith, r.within);
          u64 = ground (arith, r.u64);
          past = ground (arith, r.past);
        };
        same_capacity = ground arith;
        same_rate = ground arith;
      }
