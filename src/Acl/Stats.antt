-- ===== src/Acl/Stats.antt =====
-- src/acl/stats.rs: the counters of decisions, in all and for each user.
use rust_socks.Prelude.{ℕ, List, [], Option, none, some}
use rust_socks.Prelude.Text.{Text}
use rust_socks.Prelude.Maps.{text_key, lookup, insert}
use rust_socks.Prelude.Machine.{wrapping_add}

pub record UserAclStats : Type 0 where
  pub allowed : ℕ
  pub blocked : ℕ

pub record AclStats : Type 0 where
  pub total_allowed : ℕ
  pub total_blocked : ℕ
  pub per_user : List (Text × UserAclStats)

abbrev pub new_stats : AclStats
new_stats = record { total_allowed = 0; total_blocked = 0; per_user = [] }

-- `entry(user).and_modify(..).or_insert_with(..)`
abbrev pub allow_one : Option UserAclStats → UserAclStats
allow_one none = record { allowed = 1; blocked = 0 }
allow_one (some old) = record old { allowed = wrapping_add old.allowed 1 }

abbrev pub block_one : Option UserAclStats → UserAclStats
block_one none = record { allowed = 0; blocked = 1 }
block_one (some old) = record old { blocked = wrapping_add old.blocked 1 }

unfoldable pub record_allow : Text → AclStats → AclStats
record_allow user s = record s {
  total_allowed = wrapping_add s.total_allowed 1;
  per_user = insert user (allow_one (lookup user s.per_user)) s.per_user;
}

unfoldable pub record_block : Text → AclStats → AclStats
record_block user s = record s {
  total_blocked = wrapping_add s.total_blocked 1;
  per_user = insert user (block_one (lookup user s.per_user)) s.per_user;
}

unfoldable pub user_snapshot : Text → AclStats → Option UserAclStats
user_snapshot user s = lookup user s.per_user
