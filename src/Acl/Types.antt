-- ===== src/Acl/Types.antt =====
-- src/acl/types.rs: the configuration of the access control lists.
use rust_socks.Prelude.{ℕ, Bool, true, false, List, [], ◌∷◌}
use rust_socks.Prelude.Text.{Text}

pub data Action : Type 0 where
  allow block : Action

pub data Protocol : Type 0 where
  tcp udp both : Protocol

-- `Protocol::matches`
unfoldable pub protocol_matches : Protocol → Protocol → Bool
protocol_matches both _ = true
protocol_matches tcp both = true
protocol_matches udp both = true
protocol_matches tcp tcp = true
protocol_matches udp udp = true
protocol_matches _ _ = false

pub data PortMatcher : Type 0 where
  any_port : PortMatcher
  single : ℕ → PortMatcher
  range : ℕ → ℕ → PortMatcher
  multiple : List ℕ → PortMatcher

pub record AclRule : Type 0 where
  pub action : Action
  pub description : Text
  pub destinations : List Text
  pub ports : List Text
  pub protocols : List Protocol
  pub priority : ℕ

abbrev pub default_protocols : List Protocol
default_protocols = both ∷ []

abbrev pub default_priority : ℕ
default_priority = 100

pub record UserAcl : Type 0 where
  pub username : Text
  pub groups : List Text
  pub rules : List AclRule

pub record GroupAcl : Type 0 where
  pub name : Text
  pub rules : List AclRule

pub record AclConfig : Type 0 where
  pub default_policy : Action
  pub users : List UserAcl
  pub groups : List GroupAcl

pub data AclDecision : Type 0 where
  allowed blocked : AclDecision

-- `AclDecision::from`
abbrev pub decision_from : Action → AclDecision
decision_from allow = allowed
decision_from block = blocked

-- The messages of the `Result<_, String>` of this part, one constructor for each `format!`.
pub data AclError : Type 0 where
  invalid_port_range : Text → AclError
  invalid_start_port invalid_end_port : Text → AclError
  invalid_port_list invalid_port : AclError
  invalid_wildcard_pattern : AclError
  duplicate_user duplicate_group : Text → AclError
  unknown_group : Text → Text → AclError
  group_not_found user_not_found : Text → AclError
  rule_exists rule_not_found : Text → AclError
  user_exists : Text → AclError
  already_in_group not_in_group : Text → Text → AclError
