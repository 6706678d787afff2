-- ===== src/Acl/Matcher/Tests.antt =====
-- src/acl/matcher.rs: the theorem on rules at a concrete one.
use rust_socks.Prelude.{◌≡◌, refl, false, [], ◌∷◌, none, inl}
use rust_socks.Prelude.Text.{text_eq}
use rust_socks.Protocol.Types.{ipv4}
use rust_socks.Acl.Types.{block, tcp, both, any_port}
use rust_socks.Acl.Matcher.{Externals, CompiledAclRule, rule_matches}
use rust_socks.Acl.Matcher.Laws.{rule_matches-empty}

abbrev toy : Externals
toy = record {
  parse_ip = λ s. none;
  is_net = λ s. false;
  net_contains = λ s a. false;
  is_regex = λ s. false;
  is_match = text_eq;
  to_lowercase = λ s. s;
}

abbrev no_destinations : CompiledAclRule
no_destinations = record {
  action = block;
  description = [];
  destinations = [];
  ports = any_port ∷ [];
  protocols = both ∷ [];
  priority = 100;
}

no_destinations_unmatched :
    rule_matches toy no_destinations (ipv4 (1 ∷ 2 ∷ 3 ∷ 4 ∷ [])) 80 tcp ≡ false
no_destinations_unmatched =
    rule_matches-empty toy no_destinations (ipv4 (1 ∷ 2 ∷ 3 ∷ 4 ∷ [])) 80 tcp (inl refl)
