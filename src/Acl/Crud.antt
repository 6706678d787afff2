-- ===== src/Acl/Crud.antt =====
-- src/acl/crud.rs: adding, updating and deleting rules, users and groups.
-- An operation on `&mut AclConfig` returns its result and the configuration that it leaves. The code
-- has each operation on rules twice, for groups and for users; here it is written once, over the
-- interface `Owner` of what has a name and rules.
pub mod Owners
pub mod Targets
pub mod Rules
pub mod Members
mod Tests
use rust_socks.Prelude.{
  ℕ, suc, zero, ◌+◌, ◌&&◌, ◌||◌, ◌≡◌, refl, not, Bool, true, false, List, [], ◌∷◌, ◌++◌, any, set,
  remove_at, Option, none, some, ◌==◌, if◌then◌else◌,
}
use rust_socks.Prelude.Text.{Text, text_eq, codes}
use rust_socks.Utils.Result.{Result, ok, err}
use rust_socks.Acl.Types.{
  Action, allow, block, AclRule, UserAcl, GroupAcl, AclConfig, AclError, group_not_found,
  user_not_found, rule_exists, rule_not_found, user_exists, already_in_group, not_in_group,
}
use rust_socks.Acl.Ports.Decimal.{u16_text}

-- `==` on `Vec<String>`
unfoldable pub texts_eq : List Text → List Text → Bool
texts_eq [] [] = true
texts_eq (s ∷ xs) (t ∷ ys) = text_eq s t && texts_eq xs ys
texts_eq _ _ = false

pub record RuleIdentifier : Type 0 where
  pub destinations : List Text
  pub ports : Option (List Text)

abbrev ports_match : Option (List Text) → List Text → Bool
ports_match none ports = true
ports_match (some expected) ports = texts_eq expected ports

-- `RuleIdentifier::matches` and `from_rule`
pub identifier_matches : RuleIdentifier → AclRule → Bool
unfolding texts_eq
identifier_matches identifier rule =
    if not (texts_eq identifier.destinations rule.destinations)
    then false
    else ports_match identifier.ports rule.ports

abbrev pub from_rule : AclRule → RuleIdentifier
from_rule rule = record { destinations = rule.destinations; ports = some rule.ports }

-- `iter().enumerate().find(..)` from a first index
unfoldable pub find_rule_from : ℕ → RuleIdentifier → List AclRule → Option (ℕ × AclRule)
unfolding identifier_matches
find_rule_from i identifier [] = none
find_rule_from i identifier (rule ∷ rules) =
    if identifier_matches identifier rule
    then some (i, rule)
    else find_rule_from (suc i) identifier rules

-- What `GroupAcl` and `UserAcl` share.
pub record Owner (A : Type 0) : Type 0 where
  pub name : A → Text
  pub rules : A → List AclRule
  pub with_rules : A → List AclRule → A
  pub fresh : Text → A
  pub not_found : Text → AclError
  pub name-with_rules : (a : A) (rs : List AclRule) → name (with_rules a rs) ≡ name a
  pub rules-with_rules : (a : A) (rs : List AclRule) → rules (with_rules a rs) ≡ rs
  pub with_rules_self : (a : A) → with_rules a (rules a) ≡ a
  pub with_rules_twice :
      (a : A) (rs ts : List AclRule) → with_rules (with_rules a rs) ts ≡ with_rules a ts
  pub name-fresh : (n : Text) → name (fresh n) ≡ n
  pub rules-fresh : (n : Text) → rules (fresh n) ≡ []

module _ {A : Type 0} (o : Owner A) where
  -- `iter().find(|g| g.name == name)`
  pub find_owner : Text → List A → Option A
  find_owner n [] = none
  find_owner n (a ∷ as_) = if text_eq (o.name a) n then some a else find_owner n as_

  -- The rules of the first owner of a name, after they are written back.
  pub write_rules : Text → List AclRule → List A → List A
  write_rules n rs [] = []
  write_rules n rs (a ∷ as_) =
      if text_eq (o.name a) n then o.with_rules a rs ∷ as_ else a ∷ write_rules n rs as_

  -- `find_rule_in_group`, `find_rule_in_user`
  pub find_rule_in : Text → RuleIdentifier → List A → Option (ℕ × AclRule)
  unfolding find_owner
  find_rule_in n identifier owners = elim (find_owner n owners) [
    | none ↦ none
    | some a ↦ find_rule_from 0 identifier (o.rules a)
  ]

  -- `add_group_rule`, `add_user_rule`
  pub add_rule : Text → AclRule → List A → Result AclError (Unit {0}) × List A
  unfolding find_rule_in write_rules
  add_rule n rule owners = elim (find_rule_in n (from_rule rule) owners) [
    | some _ ↦ (err (rule_exists n), owners)
    | none ↦ elim (find_owner n owners) [
      | some a ↦ (ok tt, write_rules n (o.rules a ++ rule ∷ []) owners)
      | none ↦ (ok tt, owners ++ o.with_rules (o.fresh n) (rule ∷ []) ∷ [])
    ]
  ]

  -- `update_group_rule`, `update_user_rule`
  pub update_rule : Text → RuleIdentifier → AclRule → List A → Result AclError AclRule × List A
  unfolding find_owner write_rules
  update_rule n identifier new_rule owners = elim (find_owner n owners) [
    | none ↦ (err (o.not_found n), owners)
    | some a ↦ elim (find_rule_from 0 identifier (o.rules a)) [
      | none ↦ (err (rule_not_found n), owners)
      | some (index, old_rule) ↦
          (ok old_rule, write_rules n (set (o.rules a) index new_rule) owners)
    ]
  ]

  -- `delete_group_rule`, `delete_user_rule`
  pub delete_rule : Text → RuleIdentifier → List A → Result AclError AclRule × List A
  unfolding find_owner write_rules
  delete_rule n identifier owners = elim (find_owner n owners) [
    | none ↦ (err (o.not_found n), owners)
    | some a ↦ elim (find_rule_from 0 identifier (o.rules a)) [
      | none ↦ (err (rule_not_found n), owners)
      | some (index, deleted_rule) ↦
          (ok deleted_rule, write_rules n (remove_at (o.rules a) index) owners)
    ]
  ]

  -- `position`, then `remove`
  without_first : Text → List A → List A
  without_first n [] = []
  without_first n (a ∷ as_) = if text_eq (o.name a) n then as_ else a ∷ without_first n as_

  -- `delete_group`, `delete_user`
  pub delete_owner : Text → List A → Result AclError A × List A
  unfolding find_owner without_first
  delete_owner n owners = elim (find_owner n owners) [
    | none ↦ (err (o.not_found n), owners)
    | some a ↦ (ok a, without_first n owners)
  ]

abbrev pub group_owner : Owner GroupAcl
group_owner = record {
  name = λ g. g.name;
  rules = λ g. g.rules;
  with_rules = λ g rs. record g { rules = rs };
  fresh = λ n. record { name = n; rules = [] };
  not_found = group_not_found;
  name-with_rules = λ g rs. refl;
  rules-with_rules = λ g rs. refl;
  with_rules_self = λ g. refl;
  with_rules_twice = λ g rs ts. refl;
  name-fresh = λ n. refl;
  rules-fresh = λ n. refl;
}

abbrev pub user_owner : Owner UserAcl
user_owner = record {
  name = λ u. u.username;
  rules = λ u. u.rules;
  with_rules = λ u rs. record u { rules = rs };
  fresh = λ n. record { username = n; groups = []; rules = [] };
  not_found = user_not_found;
  name-with_rules = λ u rs. refl;
  rules-with_rules = λ u rs. refl;
  with_rules_self = λ u. refl;
  with_rules_twice = λ u rs ts. refl;
  name-fresh = λ n. refl;
  rules-fresh = λ n. refl;
}

-- The operations of the module, on a whole configuration.
abbrev on_groups {ℓ} :
    {R : Type ℓ} → (List GroupAcl → R × List GroupAcl) → AclConfig → R × AclConfig
on_groups f config = let (r, groups) = f config.groups in (r, record config { groups = groups })

abbrev on_users {ℓ} : {R : Type ℓ} → (List UserAcl → R × List UserAcl) → AclConfig → R × AclConfig
on_users f config = let (r, users) = f config.users in (r, record config { users = users })

pub add_group_rule : AclConfig → Text → AclRule → Result AclError (Unit {0}) × AclConfig
unfolding add_rule
add_group_rule config n rule = on_groups (add_rule group_owner n rule) config

pub update_group_rule :
    AclConfig → Text → RuleIdentifier → AclRule → Result AclError AclRule × AclConfig
unfolding update_rule
update_group_rule config n identifier rule =
    on_groups (update_rule group_owner n identifier rule) config

pub delete_group_rule : AclConfig → Text → RuleIdentifier → Result AclError AclRule × AclConfig
unfolding delete_rule
delete_group_rule config n identifier = on_groups (delete_rule group_owner n identifier) config

pub delete_group : AclConfig → Text → Result AclError GroupAcl × AclConfig
unfolding delete_owner
delete_group config n = on_groups (delete_owner group_owner n) config

pub add_user_rule : AclConfig → Text → AclRule → Result AclError (Unit {0}) × AclConfig
unfolding add_rule
add_user_rule config n rule = on_users (add_rule user_owner n rule) config

pub update_user_rule :
    AclConfig → Text → RuleIdentifier → AclRule → Result AclError AclRule × AclConfig
unfolding update_rule
update_user_rule config n identifier rule =
    on_users (update_rule user_owner n identifier rule) config

pub delete_user_rule : AclConfig → Text → RuleIdentifier → Result AclError AclRule × AclConfig
unfolding delete_rule
delete_user_rule config n identifier = on_users (delete_rule user_owner n identifier) config

pub delete_user : AclConfig → Text → Result AclError UserAcl × AclConfig
unfolding delete_owner
delete_user config n = on_users (delete_owner user_owner n) config

pub create_user : AclConfig → Text → Result AclError (Unit {0}) × AclConfig
create_user config n =
    if any (λ u. text_eq u.username n) config.users
    then (err (user_exists n), config)
    else (ok tt, record config { users = config.users ++ user_owner.fresh n ∷ [] })
