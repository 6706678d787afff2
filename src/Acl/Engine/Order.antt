-- ===== src/Acl/Engine/Order.antt =====
-- src/acl/engine.rs: the order of the rules, and the stable sort by it.
use rust_socks.Prelude.{◌≡◌, true, false, arith}
use rust_socks.Prelude.Sort.{sort_by, sort_by-perm, sort_by-IsSorted, UnstableSort}
use rust_socks.Acl.Matcher.{CompiledAclRule}
use rust_socks.Acl.Engine.{action_cmp, rule_leq}

pub rule_leq-total : (a b : CompiledAclRule) → rule_leq a b ≡ false → rule_leq b a ≡ true
unfolding rule_leq action_cmp
rule_leq-total a b h = ground arith

pub rule_leq_trans :
    (a b c : CompiledAclRule) → rule_leq a b ≡ true → rule_leq b c ≡ true → rule_leq a c ≡ true
unfolding rule_leq action_cmp
rule_leq_trans a b c h k = ground arith

-- The stable sort is one of the sorts that `sort_unstable_by` may be.
abbrev pub stable : UnstableSort rule_leq
stable = record {
  sort = sort_by rule_leq;
  sort-perm = sort_by-perm rule_leq;
  sort-IsSorted = sort_by-IsSorted rule_leq rule_leq-total rule_leq_trans;
}
