-- ===== src/Server/Handler/Requests.antt =====
-- src/server/handler.rs: `handle_client`, `handle_socks5` and `handle_socks4`.
use rust_socks.Prelude.{
  ℕ, Bool, ◌&&◌, ◌||◌, ◌==◌, if◌then◌else◌, List, [], ◌∷◌, Option, none, some, any,
}
use rust_socks.Prelude.Text.{Text, codes}
use rust_socks.Prelude.Sort.{UnstableSort}
use rust_socks.Utils.{
  Outcome, ok, err, panic, unsupported_socks_version, RustSocksError, protocol, auth_failed,
}
use rust_socks.Utils.Result.{Result}
use rust_socks.Protocol.Types.{
  Address, AuthMethod, no_auth, no_acceptable, Command, connect, bind, udp_associate,
  connection_not_allowed, command_not_supported, SocksProtocol, v4, v5, Socks5Request,
  Socks4Request, socks_version, socks4_version,
}
use rust_socks.Protocol.Stream.{read_u8}
use rust_socks.Protocol.Socks5.{
  parse_socks5_client_greeting, send_server_choice, parse_socks5_request,
}
use rust_socks.Protocol.Socks4.{parse_socks4_request}
use rust_socks.Acl.Types.{AclDecision, allowed, blocked}
use rust_socks.Acl.Types as AclTypes
use rust_socks.Acl.Matcher.{Externals}
use rust_socks.Acl.Engine.{CompiledAclConfig, rule_leq, evaluate_with_groups}
use rust_socks.Acl.Stats.{record_allow, record_block}
use rust_socks.Auth.{
  System, AuthManager, get_method, supports, same_method, authenticate_client, authenticate,
}
use rust_socks.Qos.Types.{ConnectionLimits}
use rust_socks.Qos.{QosState, check_and_inc_connection}
use rust_socks.Qos.Guards.{drop_guard}
use rust_socks.Session.Types.{SessionProtocol}
use rust_socks.Session.{track_rejected_session}
use rust_socks.Server.Resolver.{socket_key}
use rust_socks.Server.Steps.{Served, Handle, ◌>>=◌, ◌>>◌, give, talk, manage, count}
use rust_socks.Server.Handler.{Peer, no_address, send_socks_response, info, refuse}
use rust_socks.Server.Handler.Upstream.{handle_connect, handle_udp_associate}

pub record ClientContext : Type 0 where
  pub auth : AuthManager
  pub acl_engine : Option CompiledAclConfig
  pub anonymous_user : Text
  pub connection_limits : ConnectionLimits

abbrev pub command_protocol : Command → SessionProtocol
command_protocol udp_associate = SessionProtocol.udp
command_protocol connect = SessionProtocol.tcp
command_protocol bind = SessionProtocol.tcp

abbrev pub command_acl_protocol : Command → AclTypes.Protocol
command_acl_protocol udp_associate = AclTypes.udp
command_acl_protocol connect = AclTypes.tcp
command_acl_protocol bind = AclTypes.tcp

module _ {S : Type 0} (ext : Externals) (unstable : UnstableSort rule_leq) (system : System)
    (ctx : ClientContext) (peer : Peer S) where
  -- What the engine decided: nothing for a connection that was refused, else the rule.
  unfoldable pub on_decision :
      SocksProtocol
      → Text
      → Address
      → ℕ
      → SessionProtocol
      → AclDecision × Option Text
      → Handle S (Option (Option Text))
  on_decision version user address port session_protocol (blocked, matched_rule) = do
    count (record_block user)
    manage (
        track_rejected_session peer.id peer.now user
          (info peer (peer.address_text address) port session_protocol) matched_rule)
    talk (send_socks_response version connection_not_allowed no_address 0)
    give (ok none)
  on_decision version user address port session_protocol (allowed, matched_rule) = do
    count (record_allow user)
    give (ok (some matched_rule))

  unfoldable pub acl_verdict :
      SocksProtocol
      → Text
      → List Text
      → Address
      → ℕ
      → AclTypes.Protocol
      → SessionProtocol
      → Handle S (Option (Option Text))
  acl_verdict version user groups address port acl_protocol session_protocol = elim ctx.acl_engine [
    | none ↦ give (ok (some none))
    | some engine ↦
        on_decision version user address port session_protocol
          (evaluate_with_groups ext unstable engine user groups address port acl_protocol)
  ]

  -- `handle_bind_relay` has no model: its result is the peer's.
  unfoldable pub run_command :
      Text → Socks5Request → Option (Option Text) → Command → Handle S (Unit {0})
  run_command user request none command = give (ok tt)
  run_command user request (some rule) connect =
      handle_connect peer v5 user request.address request.port SessionProtocol.tcp rule
  run_command user request (some rule) bind = give peer.bound
  run_command user request (some rule) udp_associate = handle_udp_associate peer user rule

  unfoldable pub serve_socks5 : Text → List Text → Handle S (Unit {0})
  serve_socks5 user groups = do
    request ← talk parse_socks5_request
    verdict ←
        acl_verdict v5 user groups request.address request.port
          (command_acl_protocol request.command) (command_protocol request.command)
    run_command user request verdict request.command

  unfoldable pub run_socks4_command :
      Text → Socks4Request → Option (Option Text) → Command → Handle S (Unit {0})
  run_socks4_command user request none command = give (ok tt)
  run_socks4_command user request (some rule) connect =
      handle_connect peer v4 user request.address request.port SessionProtocol.tcp rule
  run_socks4_command user request (some rule) bind =
      talk (send_socks_response v4 command_not_supported no_address 0)
  run_socks4_command user request (some rule) udp_associate =
      talk (send_socks_response v4 command_not_supported no_address 0)

  unfoldable pub serve_socks4 : Text → List Text → Socks4Request → Handle S (Unit {0})
  serve_socks4 user groups request = do
    verdict ←
        acl_verdict v4 user groups request.address request.port AclTypes.tcp SessionProtocol.tcp
    run_socks4_command user request verdict request.command

  -- The limits of the connections, the guard, and what is done under it. Whatever that ends in, the
  -- guard is dropped after it.
  abbrev pub by_answer :
      SocksProtocol
      → Text
      → Handle S (Unit {0})
      → Served S
      → QosState
      → Result RustSocksError ℕ
      → Outcome (Unit {0}) × (QosState × Served S)
  by_answer version user serve served counted (Result.err e) =
      let (outcome, left) = refuse peer version connection_not_allowed e served in
      (outcome, (counted, left))
  by_answer version user serve served counted (Result.ok n) =
      let (outcome, left) = serve served in (outcome, (drop_guard user counted, left))

  unfoldable pub under_limits :
      SocksProtocol
      → Text
      → Handle S (Unit {0})
      → QosState × Served S
      → Outcome (Unit {0}) × (QosState × Served S)
  under_limits version user serve (qos, served) =
      let (answer, counted) = check_and_inc_connection peer.now user ctx.connection_limits qos in
      by_answer version user serve served counted answer

  abbrev pub user_or_anonymous : Option (Text × List Text) → Text × List Text
  user_or_anonymous none = (ctx.anonymous_user, [])
  user_or_anonymous (some (username, groups)) = (username, groups)

  abbrev pub offers : AuthMethod → List AuthMethod → Bool
  offers method methods = any (same_method method) methods

  -- The choice of a method, its announcement and the check of the user.
  unfoldable pub negotiate : List AuthMethod → Handle S (Text × List Text)
  negotiate methods =
      let own = get_method ctx.auth in
      let fallback = offers no_auth methods && supports ctx.auth no_auth in
      if offers own methods || fallback
      then (do
        let method = if offers own methods then own else no_auth
        talk (send_server_choice method)
        user ← talk (authenticate system peer.ip ctx.auth.socks_backend method)
        give (ok (user_or_anonymous user)))
      else (do
        talk (send_server_choice no_acceptable)
        give (err (auth_failed (codes "No acceptable auth method"))))

  unfoldable pub handshake_socks5 : ℕ → Handle S (Text × List Text)
  handshake_socks5 version = do
    greeting ← talk (parse_socks5_client_greeting version)
    negotiate greeting.methods

  abbrev pub user_of : Option Text → Text
  user_of none = ctx.anonymous_user
  user_of (some []) = ctx.anonymous_user
  user_of (some (c ∷ name)) = c ∷ name

  abbrev pub groups_of : Option (Text × List Text) → List Text
  groups_of none = []
  groups_of (some (username, groups)) = groups

  unfoldable pub handshake_socks4 : Handle S (List Text × Socks4Request)
  handshake_socks4 =
      if supports ctx.auth no_auth
      then (do
        user ← talk (authenticate system peer.ip ctx.auth.socks_backend no_auth)
        request ← talk parse_socks4_request
        give (ok (groups_of user, request)))
      else (do
        talk (send_socks_response v4 connection_not_allowed no_address 0)
        give (err (auth_failed (codes "SOCKS4 requires no-auth configuration"))))

  -- What follows a handshake that may fail.
  abbrev pub after_handshake {ℓ} :
      {A : Type ℓ}
      → Outcome A × Served S
      → QosState
      → (A → QosState × Served S → Outcome (Unit {0}) × (QosState × Served S))
      → Outcome (Unit {0}) × (QosState × Served S)
  after_handshake (ok a, served) qos next = next a (qos, served)
  after_handshake (err e, served) qos next = (err e, (qos, served))
  after_handshake (panic, served) qos next = (panic, (qos, served))

  unfoldable pub handle_socks5 :
      ℕ → QosState × Served S → Outcome (Unit {0}) × (QosState × Served S)
  handle_socks5 version (qos, served) =
      after_handshake (handshake_socks5 version served) qos
        (λ (user, groups). under_limits v5 user (serve_socks5 user groups))

  unfoldable pub handle_socks4 : QosState × Served S → Outcome (Unit {0}) × (QosState × Served S)
  handle_socks4 (qos, served) = after_handshake (handshake_socks4 served) qos (λ (groups, request).
      let user = user_of request.user_id in under_limits v4 user (serve_socks4 user groups request))

  abbrev pub by_version : ℕ → QosState × Served S → Outcome (Unit {0}) × (QosState × Served S)
  by_version version state =
      if version == socks_version
      then handle_socks5 version state
      else if version == socks4_version
      then handle_socks4 state
      else (err (protocol (unsupported_socks_version version)), state)

  abbrev pub first_byte : Handle S ℕ
  first_byte = do give (authenticate_client system peer.ip ctx.auth); talk read_u8

  unfoldable pub handle_client : QosState × Served S → Outcome (Unit {0}) × (QosState × Served S)
  handle_client (qos, served) = after_handshake (first_byte served) qos by_version
