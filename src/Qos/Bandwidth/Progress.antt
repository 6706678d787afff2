-- ===== src/Qos/Bandwidth/Progress.antt =====
-- src/qos/htb.rs: a transfer within the burst size gets its bytes.
use rust_socks.Prelude.{
  ℕ, ◌+◌, ◌*◌, ◌≤◌, ◌<◌, ◌≡◌, refl, List, [], ◌∷◌, arith, none, some, Option-cases, inl, inr, subst,
  sym, ap, ◌∙◌,
}
use rust_socks.Prelude.Text.{Text, text_eq_refl}
use rust_socks.Prelude.Maps.{
  text_key, lookup, lookup-insert, AllValues, AllValues-lookup, AllValues-insert,
}
use rust_socks.Prelude.Machine.{word, wrapping_add}
use rust_socks.Utils.Result.{Result-cases}
use rust_socks.Qos.Types.{HtbConfig}
use rust_socks.Qos.TokenBucket.{TokenBucket, Runtime, IsRuntime, try_consume}
use rust_socks.Qos.TokenBucket.Bounds.{
  IsBucket, IsAfter, IsBucket-later, IsAfter-refl, IsAfter-later, IsAfter-trans,
  try_consume-IsAfter,
}
use rust_socks.Qos.TokenBucket.Waiting.{consume_ends}
use rust_socks.Qos.Htb.{UserBucket, HtbQos, get_or_create_user_bucket, put_bucket, new_user_bucket}
use rust_socks.Qos.Rebalance.Bounds.{IsConfig, InRange}
use rust_socks.Qos.Bandwidth.{take_global, take_user, allocate_bandwidth}

-- The two buckets of a user: both as large as a burst, and the second with a rate in the range.
pub record IsUserBucket (config : HtbConfig) (now : ℕ) (b : UserBucket) : Type 0 where
  pub guaranteed : IsBucket now b.guaranteed_bucket
  pub most : IsBucket now b.max_bucket
  pub guaranteed_capacity : b.guaranteed_bucket.capacity ≡ config.burst_size_bytes
  pub max_capacity : b.max_bucket.capacity ≡ config.burst_size_bytes
  pub max_rate : InRange config b.max_bucket.refill_rate

-- A configuration with an order of the rates and without a rate of 0, and buckets that fit it.
pub record IsHtb (now : ℕ) (htb : HtbQos) : Type 0 where
  pub config : IsConfig htb.config
  pub positive : 1 ≤ htb.config.guaranteed_bandwidth_bytes_per_sec
  pub burst : htb.config.burst_size_bytes < word
  pub global : IsBucket now htb.global_bucket
  pub global_capacity : htb.global_bucket.capacity ≡ htb.config.burst_size_bytes
  pub global_rate : 1 ≤ htb.global_bucket.refill_rate
  pub users : AllValues (IsUserBucket htb.config now) htb.user_buckets

IsUserBucket-later :
    (config : HtbConfig) (now later : ℕ) (b : UserBucket)
    → IsUserBucket config now b
    → now ≤ later
    → IsUserBucket config later b
IsUserBucket-later config now later b h l = record {
  guaranteed = IsBucket-later now later b.guaranteed_bucket h.guaranteed l;
  most = IsBucket-later now later b.max_bucket h.most l;
  guaranteed_capacity = h.guaranteed_capacity;
  max_capacity = h.max_capacity;
  max_rate = h.max_rate;
}

pub IsUserBucket-after :
    (config : HtbConfig) (now t : ℕ) (b : UserBucket) (guaranteed most : TokenBucket)
    → IsUserBucket config now b
    → IsAfter now b.guaranteed_bucket t guaranteed
    → IsAfter now b.max_bucket t most
    → IsUserBucket config t (record b { guaranteed_bucket = guaranteed; max_bucket = most })
IsUserBucket-after config now t b guaranteed most h g m = record {
  guaranteed = g.bucket;
  most = m.bucket;
  guaranteed_capacity = g.same_capacity ∙ h.guaranteed_capacity;
  max_capacity = m.same_capacity ∙ h.max_capacity;
  max_rate = subst (InRange config) (sym m.same_rate) h.max_rate;
}

users_later :
    (config : HtbConfig) (now later : ℕ) (buckets : List (Text × UserBucket))
    → AllValues (IsUserBucket config now) buckets
    → now ≤ later
    → AllValues (IsUserBucket config later) buckets
users_later config now later [] h l = tt
users_later config now later ((user, b) ∷ buckets) h l =
    (IsUserBucket-later config now later b h.0 l, users_later config now later buckets h.1 l)

-- How much was charged to a user so far.
abbrev pub charged_to : Text → HtbQos → ℕ
charged_to user htb = elim (lookup user htb.user_buckets) [ some b ↦ b.total_bytes | none ↦ 0 ]

new_user_bucket-IsUserBucket :
    (config : HtbConfig) (now : ℕ)
    → IsConfig config
    → config.burst_size_bytes < word
    → IsUserBucket config now (
        new_user_bucket now config.guaranteed_bandwidth_bytes_per_sec
          config.max_bandwidth_bytes_per_sec config.burst_size_bytes)
new_user_bucket-IsUserBucket config now c u = record {
  guaranteed = record { within = omega arith; u64 = u; past = omega arith };
  most = record { within = omega arith; u64 = u; past = omega arith };
  guaranteed_capacity = refl;
  max_capacity = refl;
  max_rate = (c.ordered, omega arith);
}

-- The bucket that a user has or gets, and the engine with it.
record IsFound (now : ℕ) (user : Text) (htb : HtbQos) (r : UserBucket × HtbQos) : Type 0 where
  bucket : IsUserBucket htb.config now r.0
  charged : r.0.total_bytes ≡ charged_to user htb
  same_config : r.1.config ≡ htb.config
  same_global : r.1.global_bucket ≡ htb.global_bucket
  users : AllValues (IsUserBucket htb.config now) r.1.user_buckets

get_or_create-IsFound :
    (now : ℕ) (user : Text) (htb : HtbQos)
    → IsConfig htb.config
    → htb.config.burst_size_bytes < word
    → AllValues (IsUserBucket htb.config now) htb.user_buckets
    → IsFound now user htb (get_or_create_user_bucket now user htb)
unfolding get_or_create_user_bucket
get_or_create-IsFound now user htb c u h = elim (Option-cases (lookup user htb.user_buckets)) [
  | inl e ↦
      let created = new_user_bucket-IsUserBucket htb.config now c u in
      let bucket =
        new_user_bucket now htb.config.guaranteed_bandwidth_bytes_per_sec
          htb.config.max_bandwidth_bytes_per_sec htb.config.burst_size_bytes in
      subst (IsFound now user htb) {x = (bucket, put_bucket user bucket htb)} (ground arith)
        record {
          bucket = created;
          charged = ground arith;
          same_config = refl;
          same_global = refl;
          users = AllValues-insert (IsUserBucket htb.config now) user _ htb.user_buckets h created;
        }
  | inr (b, e) ↦ subst (IsFound now user htb) {x = (b, htb)} (ground arith) record {
    bucket = AllValues-lookup (IsUserBucket htb.config now) user htb.user_buckets h e;
    charged = ground arith;
    same_config = refl;
    same_global = refl;
    users = h;
  }
]

pub IsHtb-after :
    (now : ℕ) (htb : HtbQos) (end : ℕ) (after : HtbQos)
    → IsHtb now htb
    → after.config ≡ htb.config
    → IsAfter now htb.global_bucket end after.global_bucket
    → AllValues (IsUserBucket htb.config end) after.user_buckets
    → IsHtb end after
IsHtb-after now htb end after h same g users = record {
  config = subst IsConfig (sym same) h.config;
  positive = subst (λ c. 1 ≤ c.guaranteed_bandwidth_bytes_per_sec) (sym same) h.positive;
  burst = subst (λ c. c.burst_size_bytes < word) (sym same) h.burst;
  global = g.bucket;
  global_capacity = g.same_capacity ∙ h.global_capacity ∙ ap (λ c. c.burst_size_bytes) (sym same);
  global_rate = omega (arith, g.same_rate, h.global_rate);
  users = subst (λ c. AllValues (IsUserBucket c end) after.user_buckets) (sym same) users;
}

module _ (rt : Runtime) where
  abbrev enough : ℕ → ℕ
  enough bytes = bytes * 1001 + 1000

  take_global_ends :
      (now bytes : ℕ) (b : TokenBucket)
      → IsRuntime rt
      → IsBucket now b
      → 1 ≤ b.refill_rate
      → bytes ≤ b.capacity
      → (t : ℕ) × (left : TokenBucket) × (take_global rt (enough bytes) now bytes b
          ≡ some (t, left))
        × IsAfter now b t left
  unfolding take_global
  take_global_ends now bytes b r h p small =
      let tried = try_consume rt now bytes b in
      let after = try_consume-IsAfter rt now bytes b h in
      elim (Result-cases tried.0) [
        | inl (done, e) ↦ (now, tried.1, ground arith, after)
        | inr (deficit, e) ↦
            let (t, left, ends, waited) =
              consume_ends rt now bytes tried.1 r after.bucket (omega (arith, after.same_rate))
                (omega (arith, after.same_capacity)) in
            (t, left, ground (arith, ends), IsAfter-trans now b now tried.1 t left after waited)
      ]

  take_user_ends :
      (config : HtbConfig) (now bytes : ℕ) (b : UserBucket)
      → IsRuntime rt
      → IsUserBucket config now b
      → 1 ≤ config.guaranteed_bandwidth_bytes_per_sec
      → bytes ≤ config.burst_size_bytes
      → (t : ℕ) × (left : UserBucket) × (take_user rt (enough bytes) now bytes b ≡ some (t, left))
        × (now ≤ t)
        × IsUserBucket config t left
        × (left.total_bytes ≡ b.total_bytes)
  unfolding take_user
  take_user_ends config now bytes b r h p small =
      let first = try_consume rt now bytes b.guaranteed_bucket in
      let first_after = try_consume-IsAfter rt now bytes b.guaranteed_bucket h.guaranteed in
      let second = try_consume rt now bytes b.max_bucket in
      let second_after = try_consume-IsAfter rt now bytes b.max_bucket h.most in
      elim (Result-cases first.0) [
        | inl (done, e) ↦ (
          now,
          record b { guaranteed_bucket = first.1 },
          ground arith,
          omega arith,
          IsUserBucket-after config now now b first.1 b.max_bucket h first_after
              (IsAfter-refl now b.max_bucket h.most),
          refl,
        )
        | inr (deficit, e) ↦ elim (Result-cases second.0) [
          | inl (done, e') ↦ (
            now,
            record b { guaranteed_bucket = first.1; max_bucket = second.1 },
            ground arith,
            omega arith,
            IsUserBucket-after config now now b first.1 second.1 h first_after second_after,
            refl,
          )
          | inr (deficit', e') ↦
              let (t, left, ends, waited) =
                consume_ends rt now bytes second.1 r second_after.bucket
                  (omega (arith, second_after.same_rate, h.max_rate))
                  (omega (arith, second_after.same_capacity, h.max_capacity)) in
              (
                t,
                record b { guaranteed_bucket = first.1; max_bucket = left },
                ground (arith, ends),
                waited.later,
                IsUserBucket-after config now t b first.1 left h
                    (IsAfter-later now b.guaranteed_bucket now first.1 t first_after waited.later)
                    (IsAfter-trans now b.max_bucket now second.1 t left second_after waited),
                refl,
              )
        ]
      ]

  -- In an engine whose buckets fit its configuration, with a guaranteed rate that is at least 1
  -- and at most the greatest one, a transfer of at most a burst gets its bytes: within 1,001 sleeps
  -- for each byte and a second more in each of the two waits, they are charged to the user, time
  -- does not go back, and the buckets fit the configuration again.
  pub allocate_bandwidth_ends :
      (now bytes : ℕ) (user : Text) (htb : HtbQos)
      → IsRuntime rt
      → IsHtb now htb
      → bytes ≤ htb.config.burst_size_bytes
      → (t : ℕ) × (after : HtbQos) × (allocate_bandwidth rt (bytes * 1001 + 1000) now user bytes htb
          ≡ some (t, after))
        × (now ≤ t)
        × IsHtb t after
        × (charged_to user after ≡ wrapping_add (charged_to user htb) bytes)
  unfolding allocate_bandwidth
  allocate_bandwidth_ends now bytes user htb r h small =
      let (t, global_left, taken, waited) =
        take_global_ends now bytes htb.global_bucket r h.global h.global_rate
          (omega (arith, h.global_capacity)) in
      let charged = record htb { global_bucket = global_left } in
      let is =
        get_or_create-IsFound t user charged h.config h.burst
          (users_later htb.config now t htb.user_buckets h.users waited.later) in
      let (bucket, found) = get_or_create_user_bucket t user charged in
      let active = record bucket {
        last_activity = t;
        total_bytes = wrapping_add bucket.total_bytes bytes;
      } in
      let active_is : IsUserBucket htb.config t active = record {
        guaranteed = is.bucket.guaranteed;
        most = is.bucket.most;
        guaranteed_capacity = is.bucket.guaranteed_capacity;
        max_capacity = is.bucket.max_capacity;
        max_rate = is.bucket.max_rate;
      } in
      let (end, left, got, later, left_is, total) =
        take_user_ends htb.config t bytes active r active_is h.positive small in
      let after = put_bucket user left found in
      (
        end,
        after,
        ground (arith, taken, got),
        omega (arith, waited.later),
        IsHtb-after now htb end after h is.same_config
            (subst (IsAfter now htb.global_bucket end) (sym is.same_global)
              (IsAfter-later now htb.global_bucket t global_left end waited later))
            (AllValues-insert (IsUserBucket htb.config end) user left found.user_buckets
              (users_later htb.config t end found.user_buckets is.users later) left_is),
        ground (
          arith,
          lookup-insert user user left found.user_buckets,
          text_eq_refl user,
          is.charged,
          total,
        ),
      )
