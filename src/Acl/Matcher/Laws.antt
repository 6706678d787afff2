-- ===== src/Acl/Matcher/Laws.antt =====
-- src/acl/matcher.rs: what compiled rules match.
use rust_socks.Prelude.{ℕ, ◌≡◌, false, [], arith, ◌⊎◌}
use rust_socks.Protocol.Types.{Address}
use rust_socks.Acl.Types.{Protocol}
use rust_socks.Acl.Matcher.{Externals, CompiledAclRule, rule_matches}

-- A rule without destinations, without ports or without protocols matches no connection.
pub rule_matches-empty :
    (ext : Externals) (rule : CompiledAclRule) (addr : Address) (port : ℕ) (protocol : Protocol)
    → (rule.destinations ≡ []) ⊎ (rule.ports ≡ []) ⊎ (rule.protocols ≡ [])
    → rule_matches ext rule addr port protocol ≡ false
unfolding rule_matches
rule_matches-empty ext rule addr port protocol h = ground arith
