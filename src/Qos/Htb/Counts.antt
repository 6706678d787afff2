-- ===== src/Qos/Htb/Counts.antt =====
-- src/qos/htb.rs: the counts of the users' connections after each operation.
use rust_socks.Prelude.{
  ℕ, ◌+◌, ◌-◌, subst, ◌≡◌, ◌≢◌, ◌≤◌, refl, List, [], ◌∷◌, arith, Option, none, some, Option-cases,
  inl, inr, if◌then◌else◌, ◌==◌, Bool-cases,
}
use rust_socks.Prelude.Text.{Text, text_eq, text_eq_iff, text_eq_refl}
use rust_socks.Prelude.Maps.{text_key, lookup, insert, lookup-insert}
use rust_socks.Prelude.Machine.{wrapping_add, wrapping_sub}
use rust_socks.Qos.Htb.{
  UserBucket, HtbQos, new_user_bucket, get_or_create_user_bucket, put_bucket, inc_user_connections,
  dec_user_connections, get_user_connections,
}

abbrev pub busy : Option UserBucket → ℕ
busy none = 0
busy (some b) = if b.active_connections == 0 then 0 else 1

-- The number of users with a connection.
unfoldable pub busy_users : List (Text × UserBucket) → ℕ
busy_users [] = 0
busy_users ((user, b) ∷ buckets) = busy (some b) + busy_users buckets

busy_users-insert :
    (user : Text) (b : UserBucket) (buckets : List (Text × UserBucket))
    → busy_users (insert user b buckets) + busy (lookup user buckets)
      ≡ busy_users buckets + busy (some b)
unfolding busy_users insert lookup
busy_users-insert user b [] = omega arith
busy_users-insert user b ((u, v) ∷ buckets) = elim (Bool-cases (text_eq u user)) [
  | inl same ↦ ground arith
  | inr other ↦ ground (arith, busy_users-insert user b buckets)
]

-- The sum of the users' counts.
unfoldable pub active_sum : List (Text × UserBucket) → ℕ
active_sum [] = 0
active_sum ((user, b) ∷ buckets) = b.active_connections + active_sum buckets

pub busy_users_le : (buckets : List (Text × UserBucket)) → busy_users buckets ≤ active_sum buckets
unfolding busy_users active_sum
busy_users_le [] = omega arith
busy_users_le ((user, b) ∷ buckets) = ground (arith, busy_users_le buckets)

abbrev active_of : Option UserBucket → ℕ
active_of none = 0
active_of (some b) = b.active_connections

active_sum-insert :
    (user : Text) (b : UserBucket) (buckets : List (Text × UserBucket))
    → active_sum (insert user b buckets) + active_of (lookup user buckets)
      ≡ active_sum buckets + b.active_connections
unfolding active_sum insert lookup
active_sum-insert user b [] = omega arith
active_sum-insert user b ((u, v) ∷ buckets) = elim (Bool-cases (text_eq u user)) [
  | inl same ↦ ground arith
  | inr other ↦ ground (arith, active_sum-insert user b buckets)
]

-- The engine with another count for a user, and nothing else that the counts read changed.
pub record IsCountedAs (user : Text) (count : ℕ) (before after : HtbQos) : Type 0 where
  pub counts :
      (u : Text)
      → get_user_connections u after
        ≡ (if text_eq user u then count else get_user_connections u before)
  pub busy :
      busy_users after.user_buckets + (if get_user_connections user before == 0 then 0 else 1)
      ≡ busy_users before.user_buckets + (if count == 0 then 0 else 1)
  pub sum :
      active_sum after.user_buckets + get_user_connections user before
      ≡ active_sum before.user_buckets + count

put_bucket-IsCountedAs :
    (user : Text) (b : UserBucket) (before after : HtbQos)
    → after.user_buckets ≡ insert user b before.user_buckets
    → IsCountedAs user b.active_connections before after
unfolding get_user_connections
put_bucket-IsCountedAs user b before after e = record {
  counts = λ u. ground (arith, lookup-insert user u b before.user_buckets, text_eq_iff user u);
  busy = elim (Option-cases (lookup user before.user_buckets)) [
    | inl missing ↦ ground (arith, busy_users-insert user b before.user_buckets)
    | inr (old, found) ↦ ground (arith, busy_users-insert user b before.user_buckets)
  ];
  sum = elim (Option-cases (lookup user before.user_buckets)) [
    | inl missing ↦ ground (arith, active_sum-insert user b before.user_buckets)
    | inr (old, found) ↦ ground (arith, active_sum-insert user b before.user_buckets)
  ];
}

twice-IsCountedAs :
    (user : Text) (first second : ℕ) (before mid after : HtbQos)
    → IsCountedAs user first before mid
    → IsCountedAs user second mid after
    → IsCountedAs user second before after
twice-IsCountedAs user first second before mid after h k = record {
  counts = λ u. ground (arith, h.counts u, k.counts u);
  busy = ground (arith, h.busy, k.busy, h.counts user, text_eq_refl user);
  sum = ground (arith, h.sum, k.sum, h.counts user, text_eq_refl user);
}

pub inc-IsCountedAs :
    (now : ℕ) (user : Text) (h : HtbQos)
    → (let count = wrapping_add (get_user_connections user h) 1 in
        let (answer, after) = inc_user_connections now user h in
        (answer ≡ count)
        × (after.total_connections ≡ wrapping_add h.total_connections 1)
        × IsCountedAs user count h after)
unfolding inc_user_connections get_or_create_user_bucket get_user_connections
inc-IsCountedAs now user h =
    let count = wrapping_add (get_user_connections user h) 1 in
    elim (Option-cases (lookup user h.user_buckets)) [
      | inl missing ↦
          let created =
            new_user_bucket now h.config.guaranteed_bandwidth_bytes_per_sec
              h.config.max_bandwidth_bytes_per_sec h.config.burst_size_bytes in
          let found = put_bucket user created h in
          let once = put_bucket-IsCountedAs user created h found refl in
          let counted =
            put_bucket-IsCountedAs user (record created { active_connections = 1 }) found
              (inc_user_connections now user h).1 (ground arith) in
          (
            ground arith,
            refl,
            subst (λ c. IsCountedAs user c h (inc_user_connections now user h).1) {x = 1}
                (ground arith) (twice-IsCountedAs user 0 1 h found _ once counted),
          )
      | inr (b, e) ↦
          let counted =
            put_bucket-IsCountedAs user
              (record b { active_connections = wrapping_add b.active_connections 1 }) h
              (inc_user_connections now user h).1 (ground arith) in
          (
            ground arith,
            refl,
            subst (λ c. IsCountedAs user c h (inc_user_connections now user h).1)
                {x = wrapping_add b.active_connections 1} (ground arith) counted,
          )
    ]

pub dec-IsCountedAs :
    (user : Text) (h : HtbQos)
    → get_user_connections user h ≢ 0
    → (let (answer, after) = dec_user_connections user h in
        (answer ≡ get_user_connections user h - 1)
        × (after.total_connections ≡ wrapping_sub h.total_connections 1)
        × IsCountedAs user (wrapping_sub (get_user_connections user h) 1) h after)
unfolding dec_user_connections get_user_connections
dec-IsCountedAs user h p = elim (Option-cases (lookup user h.user_buckets)) [
  | inl missing ↦ absurd (p (ground arith))
  | inr (b, e) ↦
      let left = wrapping_sub b.active_connections 1 in
      let counted =
        put_bucket-IsCountedAs user (record b { active_connections = left }) h
          (dec_user_connections user h).1 (ground arith) in
      (
        ground arith,
        ground arith,
        subst (λ c. IsCountedAs user c h (dec_user_connections user h).1) {x = left} (ground arith)
            counted,
      )
]
