-- ===== src/Acl/Engine.antt =====
-- src/acl/engine.rs: the compiled configuration, validation, evaluation and reloading.
pub mod Order
pub mod Decision
pub mod Config
pub mod Reach
mod Tests
use Prim.Native.Nat.{compare, Ordering}
use rust_socks.Prelude.{
  ℕ, Bool, true, false, not, List, [], ◌∷◌, ◌++◌, map, any, Option, none, some, if◌then◌else◌,
}
use rust_socks.Prelude.Text.{Text, text_eq, codes, to_ascii_lowercase}
use rust_socks.Prelude.Maps.{text_key, lookup, insert}
use rust_socks.Prelude.Sort.{sort_by, UnstableSort}
use rust_socks.Protocol.Types.{Address}
use rust_socks.Utils.Result.{Result, ok, err, ◌>>=◌, ◌>>◌, require, collect}
use rust_socks.Acl.Types.{
  Action, allow, block, Protocol, UserAcl, GroupAcl, AclConfig, AclDecision, decision_from,
  AclError, duplicate_user, duplicate_group, unknown_group,
}
use rust_socks.Acl.Matcher.{Externals, CompiledAclRule, compile_rule, rule_matches}

pub record CompiledUserAcl : Type 0 where
  pub username : Text
  pub groups : List Text
  pub rules : List CompiledAclRule

pub record CompiledGroupAcl : Type 0 where
  pub name : Text
  pub rules : List CompiledAclRule

pub record CompiledAclConfig : Type 0 where
  pub default_policy : Action
  pub users : List (Text × CompiledUserAcl)
  pub groups : List (Text × CompiledGroupAcl)
  pub groups_by_lowercase : List (Text × CompiledGroupAcl)

-- The comparison of `sort_by`: blocks first, then by falling priority.
pub action_cmp : Action → Action → Ordering → Ordering
action_cmp block allow same = Ordering.lt
action_cmp allow block same = Ordering.gt
action_cmp allow allow same = same
action_cmp block block same = same

pub rule_cmp : CompiledAclRule → CompiledAclRule → Ordering
unfolding action_cmp
rule_cmp a b = action_cmp a.action b.action (compare b.priority a.priority)

pub rule_leq : CompiledAclRule → CompiledAclRule → Bool
unfolding rule_cmp
rule_leq a b = elim (rule_cmp a b) [ Ordering.gt ↦ false | _ ↦ true ]

-- `AclConfig::validate`: the loops over the names of users and groups, with the set of those seen,
-- and over the references from users to groups.
distinct_names : (Text → AclError) → List Text → List Text → Result AclError (Unit {0})
distinct_names duplicate seen [] = ok tt
distinct_names duplicate seen (n ∷ names) = do
  require (not (any (text_eq n) seen)) (duplicate n)
  distinct_names duplicate (n ∷ seen) names

known_groups : List GroupAcl → Text → List Text → Result AclError (Unit {0})
known_groups groups user [] = ok tt
known_groups groups user (n ∷ names) = do
  require (any (λ g. text_eq g.name n) groups) (unknown_group user n)
  known_groups groups user names

references_known : List GroupAcl → List UserAcl → Result AclError (Unit {0})
unfolding known_groups
references_known groups [] = ok tt
references_known groups (u ∷ users) = do
  known_groups groups u.username u.groups
  references_known groups users

pub validate : AclConfig → Result AclError (Unit {0})
unfolding distinct_names references_known
validate config = do
  distinct_names duplicate_user [] (map (λ u. u.username) config.users)
  distinct_names duplicate_group [] (map (λ g. g.name) config.groups)
  references_known config.groups config.users

abbrev no_rules : Text → List CompiledAclRule → Text
no_rules message [] = message
no_rules message (_ ∷ _) = codes "Default policy"

verdict : Action → Text → Option CompiledAclRule → AclDecision × Option Text
verdict policy message none = (decision_from policy, some message)
verdict policy message (some rule) = (decision_from rule.action, some rule.description)

-- The rules of the groups that a table holds for the given names.
rules_of : List (Text × CompiledGroupAcl) → List Text → List CompiledAclRule
unfolding lookup
rules_of groups [] = []
rules_of groups (n ∷ names) =
    let rest = rules_of groups names in
    elim (lookup n groups) [ none ↦ rest | some g ↦ g.rules ++ rest ]

abbrev lowercase : List Text → List Text
lowercase [] = []
lowercase (n ∷ names) = to_ascii_lowercase n ∷ lowercase names

-- `collect_rules`, before it sorts.
pub static_rules : CompiledAclConfig → Text → List CompiledAclRule
unfolding lookup rules_of
static_rules config user = elim (lookup user config.users) [
  | none ↦ []
  | some u ↦ u.rules ++ rules_of config.groups u.groups
]

-- `collect_rules_from_groups`, before it sorts.
pub dynamic_rules : CompiledAclConfig → Text → List Text → List CompiledAclRule
unfolding lookup rules_of to_ascii_lowercase
dynamic_rules config user user_groups =
    elim (lookup user config.users) [ none ↦ [] | some u ↦ u.rules ]
    ++ rules_of config.groups_by_lowercase (lowercase user_groups)

module _ (ext : Externals) where
  unfoldable pub compile_user : UserAcl → Result AclError CompiledUserAcl
  unfolding collect sort_by rule_leq
  compile_user u = do
    rules ← collect (compile_rule ext) u.rules
    ok (record { username = u.username; groups = u.groups; rules = sort_by rule_leq rules })

  pub compile_group : GroupAcl → Result AclError CompiledGroupAcl
  unfolding collect sort_by rule_leq
  compile_group g = do
    rules ← collect (compile_rule ext) g.rules
    ok (record { name = g.name; rules = sort_by rule_leq rules })

  unfoldable pub compile_users :
      List UserAcl → List (Text × CompiledUserAcl) → Result AclError (List (Text × CompiledUserAcl))
  unfolding compile_user insert
  compile_users [] users = ok users
  compile_users (u ∷ rest) users = do
    cu ← compile_user u
    compile_users rest (insert u.username cu users)

  abbrev GroupMaps : Type 0
  GroupMaps = List (Text × CompiledGroupAcl) × List (Text × CompiledGroupAcl)

  unfoldable pub compile_groups : List GroupAcl → GroupMaps → Result AclError GroupMaps
  unfolding compile_group insert to_ascii_lowercase
  compile_groups [] maps = ok maps
  compile_groups (g ∷ rest) (groups, by_lowercase) = do
    cg ← compile_group g
    compile_groups rest
        (insert g.name cg groups, insert (to_ascii_lowercase g.name) cg by_lowercase)

  unfoldable pub compile_config : AclConfig → Result AclError CompiledAclConfig
  unfolding compile_users compile_groups
  compile_config config = do
    users ← compile_users config.users []
    maps ← compile_groups config.groups ([], [])
    ok (record {
      default_policy = config.default_policy;
      users = users;
      groups = maps.0;
      groups_by_lowercase = maps.1;
    })

  -- `AclEngine::reload`: the engine's configuration is swapped only if both steps succeed.
  pub reload : AclConfig → CompiledAclConfig → Result AclError (Unit {0}) × CompiledAclConfig
  reload new_config current =
      let result = (do validate new_config; compile_config new_config) in
      elim result [ ok compiled ↦ (ok tt, compiled) | err e ↦ (err e, current) ]

  -- The first rule that matches, in the order of the list.
  pub first_match : Address → ℕ → Protocol → List CompiledAclRule → Option CompiledAclRule
  first_match dest port protocol [] = none
  first_match dest port protocol (rule ∷ rules) =
      if rule_matches ext rule dest port protocol
      then some rule
      else first_match dest port protocol rules

  module _ (unstable : UnstableSort rule_leq) where
    -- `AclEngine::evaluate`
    pub evaluate : CompiledAclConfig → Text → Address → ℕ → Protocol → AclDecision × Option Text
    unfolding static_rules first_match verdict
    evaluate config user dest port protocol =
        let all_rules = unstable.sort (static_rules config user) in
        verdict config.default_policy (codes "Default policy")
          (first_match dest port protocol all_rules)

    -- `AclEngine::evaluate_with_groups`
    pub evaluate_with_groups :
        CompiledAclConfig → Text → List Text → Address → ℕ → Protocol → AclDecision × Option Text
    unfolding dynamic_rules first_match verdict
    evaluate_with_groups config user user_groups dest port protocol =
        let all_rules = unstable.sort (dynamic_rules config user user_groups) in
        verdict config.default_policy
          (no_rules (codes "Default policy (no matching groups)") all_rules)
          (first_match dest port protocol all_rules)
