-- ===== src/Session/Revocation.antt =====
-- src/session/manager.rs: `enforce_acl`, which ends the sessions that the engine blocks.
use rust_socks.Prelude.{ℕ, ◌++◌, List, [], ◌∷◌, Option, none, some}
use rust_socks.Prelude.Text.{Text, codes}
use rust_socks.Prelude.Sort.{UnstableSort}
use rust_socks.Protocol.Types.{Address, ipv4, ipv6, domain}
use rust_socks.Acl.Types.{AclDecision, allowed, blocked}
use rust_socks.Acl.Types as AclTypes
use rust_socks.Acl.Matcher.{Externals, addr4, addr6}
use rust_socks.Acl.Engine.{CompiledAclConfig, rule_leq, evaluate}
use rust_socks.Session.Types.{Uuid, Session, SessionProtocol, tcp, udp, failed}
use rust_socks.Session.{SessionManager, terminate_all}

module _ (ext : Externals) where
  abbrev pub session_address : Text → Address
  session_address dest_ip = elim (ext.parse_ip dest_ip) [
    | some ip ↦ elim ip [ addr4 octets ↦ ipv4 octets | addr6 octets ↦ ipv6 octets ]
    | none ↦ domain dest_ip
  ]

  abbrev pub acl_protocol : SessionProtocol → AclTypes.Protocol
  acl_protocol tcp = AclTypes.tcp
  acl_protocol udp = AclTypes.udp

  module _ (unstable : UnstableSort rule_leq) (engine : CompiledAclConfig) where
    abbrev pub judged : Session → AclDecision × Option Text
    judged session =
        evaluate ext unstable engine session.user (session_address session.dest_ip)
          session.dest_port (acl_protocol session.protocol)

    abbrev pub rule_text : Option Text → Text
    rule_text (some rule) = rule
    rule_text none = codes "Default policy"

    abbrev pub revoked : AclDecision × Option Text → Uuid → List (Uuid × Text) → List (Uuid × Text)
    revoked (allowed, rule) id rest = rest
    revoked (blocked, rule) id rest =
        (id, codes "Terminated by ACL update (" ++ rule_text rule ++ codes ")") ∷ rest

    unfoldable pub to_terminate : List (Uuid × Session) → List (Uuid × Text)
    to_terminate [] = []
    to_terminate ((id, session) ∷ sessions) =
        revoked (judged session) session.session_id (to_terminate sessions)

    unfoldable pub enforce_acl : ℕ → SessionManager → SessionManager
    enforce_acl now m = terminate_all now failed (to_terminate m.active_sessions) m
