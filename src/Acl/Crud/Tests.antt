-- ===== src/Acl/Crud/Tests.antt =====
-- src/acl/crud.rs: the theorems on rules and members at a concrete configuration.
use rust_socks.Prelude.{◌≡◌, All, refl, true, ◌⊎◌, List, [], ◌∷◌, ◌++◌, none, if◌then◌else◌}
use rust_socks.Prelude.Text.{Text, codes, text_eq}
use rust_socks.Utils.Result.{ok, err}
use rust_socks.Acl.Types.{
  allow, AclRule, GroupAcl, AclConfig, AclError, rule_exists, default_protocols, default_priority,
}
use rust_socks.Acl.Crud.{
  identifier_matches, from_rule, find_rule_from, find_owner, find_rule_in, group_owner, add_rule,
  update_rule, delete_rule,
}
use rust_socks.Acl.Crud.Owners.{rules_named}
use rust_socks.Acl.Crud.Targets.{SameTarget}
use rust_socks.Acl.Crud.Rules.{
  add_rule-cases, delete_rule-add_rule, update_rule-cases, delete_rule-cases,
}
use rust_socks.Acl.Crud.Members.{
  groups_named, add_user_to_group, remove_user_from_group, remove_user_from_group-add_user_to_group,
}

abbrev web : AclRule
web = record {
  action = allow;
  description = [];
  destinations = codes "web" ∷ [];
  ports = codes "80" ∷ [];
  protocols = default_protocols;
  priority = default_priority;
}

abbrev dev : GroupAcl
dev = record { name = codes "dev"; rules = [] }

abbrev groups : List GroupAcl
groups = dev ∷ []

abbrev config : AclConfig
config = record { default_policy = allow; users = []; groups = groups }

add_rule-cases_example :
    ((r : AclRule) × (xs : List AclRule) × (ys : List AclRule) × (rules_named group_owner
          (codes "dev")
          groups
        ≡ xs ++ r ∷ ys)
      × SameTarget r web
      × (add_rule group_owner (codes "dev") web groups ≡ (err (rule_exists (codes "dev")), groups)))
    ⊎ (All (λ r. ¬ SameTarget r web) (rules_named group_owner (codes "dev") groups)
        × ((add_rule group_owner (codes "dev") web groups).0 ≡ ok tt)
        × ((m : Text)
            → rules_named group_owner m (add_rule group_owner (codes "dev") web groups).1 ≡ (
                if text_eq (codes "dev") m
                then rules_named group_owner (codes "dev") groups ++ web ∷ []
                else rules_named group_owner m groups)))
add_rule-cases_example = add_rule-cases group_owner (codes "dev") web groups

web-added : (add_rule group_owner (codes "dev") web groups).0 ≡ ok tt
unfolding add_rule find_rule_in find_owner find_rule_from text_eq
web-added = refl

delete_rule-add_rule_example :
    ((delete_rule group_owner
        (codes "dev")
        (from_rule web)
        (add_rule group_owner (codes "dev") web groups).1).0
      ≡ ok web)
    × ((m : Text)
        → rules_named group_owner m
            (delete_rule group_owner
              (codes "dev")
              (from_rule web)
              (add_rule group_owner (codes "dev") web groups).1).1
          ≡ rules_named group_owner m groups)
delete_rule-add_rule_example = delete_rule-add_rule group_owner (codes "dev") web groups web-added

abbrev stocked : List GroupAcl
stocked = record { name = codes "dev"; rules = web ∷ [] } ∷ []

update_rule-cases_example :
    ((e : AclError) × (update_rule group_owner (codes "dev") (from_rule web) web stocked
        ≡ (err e, stocked))
      × (find_rule_from 0 (from_rule web) (rules_named group_owner (codes "dev") stocked) ≡ none))
    ⊎ ((old_rule : AclRule) × (xs : List AclRule) × (ys : List AclRule) × (rules_named group_owner
            (codes "dev")
            stocked
          ≡ xs ++ old_rule ∷ ys)
        × (find_rule_from 0 (from_rule web) xs ≡ none)
        × (identifier_matches (from_rule web) old_rule ≡ true)
        × ((update_rule group_owner (codes "dev") (from_rule web) web stocked).0 ≡ ok old_rule)
        × ((m : Text)
            → rules_named group_owner m
                (update_rule group_owner (codes "dev") (from_rule web) web stocked).1
              ≡ (if text_eq (codes "dev") m
                  then xs ++ web ∷ ys
                  else rules_named group_owner m stocked)))
update_rule-cases_example = update_rule-cases group_owner (codes "dev") (from_rule web) web stocked

delete_rule-cases_example :
    ((e : AclError) × (delete_rule group_owner (codes "dev") (from_rule web) stocked
        ≡ (err e, stocked))
      × (find_rule_from 0 (from_rule web) (rules_named group_owner (codes "dev") stocked) ≡ none))
    ⊎ ((old_rule : AclRule) × (xs : List AclRule) × (ys : List AclRule) × (rules_named group_owner
            (codes "dev")
            stocked
          ≡ xs ++ old_rule ∷ ys)
        × (find_rule_from 0 (from_rule web) xs ≡ none)
        × (identifier_matches (from_rule web) old_rule ≡ true)
        × ((delete_rule group_owner (codes "dev") (from_rule web) stocked).0 ≡ ok old_rule)
        × ((m : Text)
            → rules_named group_owner m
                (delete_rule group_owner (codes "dev") (from_rule web) stocked).1
              ≡ (if text_eq (codes "dev") m then xs ++ ys else rules_named group_owner m stocked)))
delete_rule-cases_example = delete_rule-cases group_owner (codes "dev") (from_rule web) stocked

ann-added : (add_user_to_group config (codes "ann") (codes "dev")).0 ≡ ok tt
unfolding add_user_to_group find_owner text_eq
ann-added = refl

remove_user_from_group-add_user_to_group_example :
    ((remove_user_from_group
        (add_user_to_group config (codes "ann") (codes "dev")).1
        (codes "ann")
        (codes "dev")).0
      ≡ ok tt)
    × (groups_named
          (codes "ann")
          (remove_user_from_group
            (add_user_to_group config (codes "ann") (codes "dev")).1
            (codes "ann")
            (codes "dev")).1.users
        ≡ groups_named (codes "ann") config.users)
remove_user_from_group-add_user_to_group_example =
    remove_user_from_group-add_user_to_group config (codes "ann") (codes "dev") (codes "ann")
      ann-added
