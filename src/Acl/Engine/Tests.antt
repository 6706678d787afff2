-- ===== src/Acl/Engine/Tests.antt =====
-- src/acl/engine.rs: the theorems on the engine at concrete configurations.
use mathlib.Core.List.{Mem}
use rust_socks.Prelude.{◌≡◌, refl, true, false, ◌&&◌, ◌⊎◌, [], ◌∷◌, ◌++◌, any, All, none, some}
use rust_socks.Prelude.Text.{codes, text_eq, to_ascii_lowercase}
use rust_socks.Prelude.Sort.{sort_by}
use rust_socks.Prelude.Maps.{text_key, lookup, insert}
use rust_socks.Utils.Result.{ok, err, collect}
use rust_socks.Protocol.Types.{Address, domain}
use rust_socks.Acl.Types.{
  allow, block, tcp, both, decision_from, any_port, AclError, AclRule, GroupAcl, AclConfig,
  protocol_matches,
}
use rust_socks.Acl.Ports.{port_matches, port_matcher_from_str}
use rust_socks.Acl.Matcher.{
  Externals, CompiledAclRule, match_all, name, rule_matches, destination_matches, compile_rule,
  compile_destination,
}
use rust_socks.Acl.Engine.{
  CompiledGroupAcl, CompiledAclConfig, distinct_names, known_groups, references_known, validate,
  rules_of, static_rules, dynamic_rules, compile_users, compile_group, compile_groups,
  compile_config, reload, evaluate, evaluate_with_groups,
}
use rust_socks.Acl.Engine.Order.{stable}
use rust_socks.Acl.Engine.Decision.{
  decide, applies, outranks, evaluate-decide, evaluate_with_groups-best,
}
use rust_socks.Acl.Engine.Reach.{reaching, decide_by, evaluate_with_groups-reaching}
use rust_socks.Acl.Engine.Config.{Distinct, Known, validate_sound, reload-cases, dynamic_rules-last}

abbrev toy : Externals
toy = record {
  parse_ip = λ s. none;
  is_net = λ s. false;
  net_contains = λ s a. false;
  is_regex = λ s. false;
  is_match = text_eq;
  to_lowercase = λ s. s;
}

abbrev deny_bad : CompiledAclRule
deny_bad = record {
  action = block;
  description = codes "bad";
  destinations = name (codes "bad.io") ∷ [];
  ports = any_port ∷ [];
  protocols = both ∷ [];
  priority = 100;
}

abbrev allow_all : CompiledAclRule
allow_all = record {
  action = allow;
  description = codes "all";
  destinations = match_all ∷ [];
  ports = any_port ∷ [];
  protocols = both ∷ [];
  priority = 500;
}

abbrev compiled : CompiledAclConfig
compiled = record {
  default_policy = block;
  users =
      (
        codes "ann",
        record { username = codes "ann"; groups = codes "dev" ∷ []; rules = allow_all ∷ [] },
      )
      ∷ [];
  groups = (codes "dev", record { name = codes "dev"; rules = deny_bad ∷ [] }) ∷ [];
  groups_by_lowercase = (codes "dev", record { name = codes "dev"; rules = deny_bad ∷ [] }) ∷ [];
}

abbrev bad : Address
bad = domain (codes "bad.io")

evaluate-decide_example :
    (evaluate toy stable compiled (codes "ann") bad 80 tcp).0
    ≡ decide toy bad 80 tcp block (static_rules compiled (codes "ann"))
evaluate-decide_example = evaluate-decide toy bad 80 tcp stable compiled (codes "ann")

some_rule_applies :
    any (applies toy bad 80 tcp) (dynamic_rules compiled (codes "ann") (codes "DEV" ∷ [])) ≡ true
unfolding dynamic_rules rules_of lookup text_eq to_ascii_lowercase rule_matches destination_matches
    protocol_matches port_matches
some_rule_applies = refl

evaluate_with_groups-best_example :
    (r : CompiledAclRule) × Mem r (dynamic_rules compiled (codes "ann") (codes "DEV" ∷ []))
    × (applies toy bad 80 tcp r ≡ true)
    × (any
          (λ q. applies toy bad 80 tcp q && outranks q r)
          (dynamic_rules compiled (codes "ann") (codes "DEV" ∷ []))
        ≡ false)
    × (evaluate_with_groups toy stable compiled (codes "ann") (codes "DEV" ∷ []) bad 80 tcp
        ≡ (decision_from r.action, some r.description))
evaluate_with_groups-best_example =
    evaluate_with_groups-best toy bad 80 tcp stable compiled (codes "ann") (codes "DEV" ∷ [])
      some_rule_applies

abbrev deny : AclRule
deny = record {
  action = block;
  description = [];
  destinations = codes "*" ∷ [];
  ports = codes "*" ∷ [];
  protocols = both ∷ [];
  priority = 100;
}

abbrev dev : GroupAcl
dev = record { name = codes "dev"; rules = [] }

abbrev dev_capital : GroupAcl
dev_capital = record { name = codes "DEV"; rules = [] }

abbrev config : AclConfig
config = record {
  default_policy = allow;
  users = record { username = codes "ann"; groups = codes "dev" ∷ []; rules = [] } ∷ [];
  groups = dev_capital ∷ dev ∷ [];
}

config-valid : validate config ≡ ok tt
unfolding validate distinct_names references_known known_groups text_eq
config-valid = refl

validate_sound_example :
    Distinct (codes "ann" ∷ [])
    × Distinct (codes "DEV" ∷ codes "dev" ∷ [])
    × All (Known config.groups) config.users
validate_sound_example = validate_sound config config-valid

reload-cases_example :
    ((e : AclError) × (reload toy config compiled ≡ (err e, compiled)))
    ⊎ ((swapped : CompiledAclConfig) × (reload toy config compiled ≡ (ok tt, swapped))
        × (validate config ≡ ok tt)
        × (compile_config toy config ≡ ok swapped))
reload-cases_example = reload-cases toy config compiled

abbrev compiled_groups : CompiledAclConfig
compiled_groups = record {
  default_policy = allow;
  users = [];
  groups =
      (codes "DEV", record { name = codes "DEV"; rules = [] })
      ∷ (codes "dev", record { name = codes "dev"; rules = [] })
      ∷ [];
  groups_by_lowercase = (codes "dev", record { name = codes "dev"; rules = [] }) ∷ [];
}

abbrev groups_only : AclConfig
groups_only = record { default_policy = allow; users = []; groups = dev_capital ∷ dev ∷ [] }

groups_only-compiles : compile_config toy groups_only ≡ ok compiled_groups
unfolding compile_config compile_users compile_groups compile_group collect sort_by insert text_eq
    to_ascii_lowercase
groups_only-compiles = refl

no_user : lookup (codes "bob") compiled_groups.users ≡ none
unfolding lookup
no_user = refl

dynamic_rules-last_example :
    (cg : CompiledGroupAcl) × (compile_group toy dev ≡ ok cg)
    × (dynamic_rules compiled_groups (codes "bob") (codes "Dev" ∷ []) ≡ cg.rules ++ [])
unfolding to_ascii_lowercase
dynamic_rules-last_example =
    dynamic_rules-last toy groups_only compiled_groups (codes "bob") (codes "Dev")
      (dev_capital ∷ []) dev [] refl tt groups_only-compiles no_user refl

-- A group whose name is given in another case blocks what the policy would allow.
abbrev strict : GroupAcl
strict = record { name = codes "Strict"; rules = deny ∷ [] }

abbrev strict_config : AclConfig
strict_config = record { default_policy = allow; users = []; groups = strict ∷ [] }

abbrev strict_group : CompiledGroupAcl
strict_group = record {
  name = codes "Strict";
  rules =
      record {
        action = block;
        description = [];
        destinations = match_all ∷ [];
        ports = any_port ∷ [];
        protocols = both ∷ [];
        priority = 100;
      }
      ∷ [];
}

abbrev strict_compiled : CompiledAclConfig
strict_compiled = record {
  default_policy = allow;
  users = [];
  groups = (codes "Strict", strict_group) ∷ [];
  groups_by_lowercase = (codes "strict", strict_group) ∷ [];
}

strict_config-compiles : compile_config toy strict_config ≡ ok strict_compiled
unfolding compile_config compile_users compile_groups compile_group collect sort_by insert text_eq
    to_ascii_lowercase compile_rule compile_destination port_matcher_from_str
strict_config-compiles = refl

evaluate_with_groups-reaching_example :
    (evaluate_with_groups toy stable strict_compiled
      (codes "bob")
      (codes "STRICT" ∷ [])
      bad
      80
      tcp).0
    ≡ decide_by toy bad 80 tcp allow (reaching strict_compiled (codes "bob") (codes "STRICT" ∷ []))
evaluate_with_groups-reaching_example =
    evaluate_with_groups-reaching toy bad 80 tcp stable strict_config strict_compiled (codes "bob")
      (codes "STRICT" ∷ []) strict_config-compiles
