-- ===== src/Acl/Matcher.antt =====
-- src/acl/matcher.rs: destinations and compiled rules.
pub mod Laws
mod Tests
use rust_socks.Prelude.{
  ℕ, ◌&&◌, not, Bool, true, false, List, [], ◌∷◌, ◌++◌, map, any, ◌==◌, if◌then◌else◌, Option, none,
  some,
}
use rust_socks.Prelude.Text.{Text, contains, text_eq, codes, eq_ignore_ascii_case}
use rust_socks.Protocol.Types.{Address, ipv4, ipv6, domain}
use rust_socks.Utils.Result.{Result, ok, err, ◌>>=◌, collect}
use rust_socks.Acl.Types.{
  AclError, invalid_wildcard_pattern, Action, Protocol, protocol_matches, PortMatcher, AclRule,
}
use rust_socks.Acl.Ports.{port_matcher_from_str, port_matches, split}

pub data IpAddr : Type 0 where
  addr4 : List ℕ → IpAddr
  addr6 : List ℕ → IpAddr

pub ip_eq : IpAddr → IpAddr → Bool
unfolding text_eq
ip_eq (addr4 a) (addr4 b) = text_eq a b
ip_eq (addr6 a) (addr6 b) = text_eq a b
ip_eq _ _ = false

-- What the code takes from elsewhere. `parse_ip` is `str::parse::<IpAddr>`; a network of `ipnet` and
-- an expression of `regex` stand for themselves as their text, with the tests that the crates offer
-- for them; `to_lowercase` is Unicode's.
pub record Externals : Type 0 where
  pub parse_ip : Text → Option IpAddr
  pub is_net : Text → Bool
  pub net_contains : Text → IpAddr → Bool
  pub is_regex : Text → Bool
  pub is_match : Text → Text → Bool
  pub to_lowercase : Text → Text

pub data DestinationMatcherType : Type 0 where
  match_all : DestinationMatcherType
  ip : IpAddr → DestinationMatcherType
  cidr : Text → DestinationMatcherType
  name : Text → DestinationMatcherType
  wildcard_domain : Text → DestinationMatcherType

-- `regex.ends_with('^')`
ends_with_caret : Text → Bool
ends_with_caret [] = false
ends_with_caret (b ∷ []) = b == b'^'
ends_with_caret (_ ∷ b ∷ s) = ends_with_caret (b ∷ s)

abbrev specials : Text
specials = codes "[]{}()|^$+?.\\"

-- The bytes of a part, each of the special ones behind a backslash.
escape : Text → Text
unfolding contains
escape [] = []
escape (ch ∷ part) = if contains ch specials then b'\\' ∷ ch ∷ escape part else ch ∷ escape part

-- The loop over the parts between the dots.
push_parts : Text → List Text → Text
unfolding ends_with_caret escape text_eq
push_parts regex [] = regex
push_parts regex (part ∷ parts) =
    push_parts
      ((if not (ends_with_caret regex) then regex ++ codes "\\." else regex)
        ++ (if text_eq part (codes "*") then codes "[^.]+" else escape part))
      parts

pub wildcard_to_regex : Text → Text
unfolding push_parts
wildcard_to_regex pattern = push_parts (codes "^") (split b'.' pattern) ++ codes "$"

pub record CompiledAclRule : Type 0 where
  pub action : Action
  pub description : Text
  pub destinations : List DestinationMatcherType
  pub ports : List PortMatcher
  pub protocols : List Protocol
  pub priority : ℕ

module _ (ext : Externals) where
  open ext use {parse_ip, is_net, net_contains, is_regex, is_match, to_lowercase}

  plain_destination : Text → Option IpAddr → DestinationMatcherType
  plain_destination s (some addr) = ip addr
  plain_destination s none = if is_net s then cidr s else name (to_lowercase s)

  -- `CompiledDestinationMatcher::compile`
  unfoldable pub compile_destination : Text → Result AclError DestinationMatcherType
  unfolding plain_destination contains text_eq
  compile_destination s =
      if text_eq s (codes "*")
      then ok match_all
      else if contains b'*' s
      then (if is_regex (wildcard_to_regex s)
          then ok (wildcard_domain (wildcard_to_regex s))
          else err invalid_wildcard_pattern)
      else ok (plain_destination s (parse_ip s))

  abbrev on_parsed : Option IpAddr → (IpAddr → Bool) → Bool
  on_parsed none test = false
  on_parsed (some addr) test = test addr

  match_ip : IpAddr → Address → Bool
  unfolding ip_eq
  match_ip (addr4 matcher) (ipv4 octets) = text_eq matcher octets
  match_ip (addr6 matcher) (ipv6 octets) = text_eq matcher octets
  match_ip addr (domain d) = on_parsed (parse_ip d) (ip_eq addr)
  match_ip _ _ = false

  match_cidr : Text → Address → Bool
  match_cidr net (ipv4 octets) = net_contains net (addr4 octets)
  match_cidr net (ipv6 octets) = net_contains net (addr6 octets)
  match_cidr net (domain d) = on_parsed (parse_ip d) (net_contains net)

  match_domain : Text → Address → Bool
  match_domain d (domain addr_domain) = eq_ignore_ascii_case d addr_domain
  match_domain d _ = false

  match_wildcard : Text → Address → Bool
  match_wildcard regex (domain addr_domain) = is_match regex (to_lowercase addr_domain)
  match_wildcard regex _ = false

  -- `CompiledDestinationMatcher::matches`
  unfoldable pub destination_matches : DestinationMatcherType → Address → Bool
  unfolding match_ip match_cidr match_domain match_wildcard eq_ignore_ascii_case
  destination_matches match_all addr = true
  destination_matches (ip matcher) addr = match_ip matcher addr
  destination_matches (cidr net) addr = match_cidr net addr
  destination_matches (name d) addr = match_domain d addr
  destination_matches (wildcard_domain regex) addr = match_wildcard regex addr

  -- `CompiledAclRule::compile`
  unfoldable pub compile_rule : AclRule → Result AclError CompiledAclRule
  unfolding collect
  compile_rule rule =
      let destinations = collect compile_destination rule.destinations in
      let ports = collect port_matcher_from_str rule.ports in
      do
        ds ← destinations
        ps ← ports
        ok (record {
          action = rule.action;
          description = rule.description;
          destinations = ds;
          ports = ps;
          protocols = rule.protocols;
          priority = rule.priority;
        })

  -- `CompiledAclRule::matches`
  unfoldable pub rule_matches : CompiledAclRule → Address → ℕ → Protocol → Bool
  unfolding protocol_matches destination_matches port_matches
  rule_matches rule addr port protocol =
      if not (any (λ p. protocol_matches p protocol) rule.protocols)
      then false
      else any (λ d. destination_matches d addr) rule.destinations
        && any (λ p. port_matches p port) rule.ports
