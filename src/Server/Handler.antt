-- ===== src/Server/Handler.antt =====
-- src/server/handler.rs: a connection from its first byte to its end.
pub mod Upstream
pub mod Requests
pub mod Effects
pub mod Sessions
pub mod Refusals
pub mod Verdicts
mod Tests
use rust_socks.Prelude.{
  ℕ, Bool, true, false, not, ◌&&◌, ◌==◌, if◌then◌else◌, List, [], ◌∷◌, ◌++◌, Option, none, some,
  any,
}
use rust_socks.Prelude.Text.{Text, codes}
use rust_socks.Prelude.Sort.{UnstableSort}
use rust_socks.Utils.{
  Outcome, ok, err, RustSocksError, io, protocol, auth_failed, connection_closed,
  unsupported_address_type, IoError, other, ProtocolMessage,
}
use rust_socks.Utils.Result as Result
use rust_socks.Utils.Result.{Result}
use rust_socks.Protocol.Types.{
  Address, ipv4, ipv6, domain, AuthMethod, no_auth, no_acceptable, Command, connect, bind,
  udp_associate, ReplyCode, succeeded, connection_not_allowed, general_failure, host_unreachable,
  command_not_supported, address_type_not_supported, Socks4Reply, granted, rejected, SocksProtocol,
  v4, v5, Socks5Request, Socks4Request, socks_version, socks4_version,
}
use rust_socks.Protocol.Stream.{Io, read_u8}
use rust_socks.Protocol.Socks5.{
  parse_socks5_client_greeting, send_server_choice, parse_socks5_request, send_socks5_response,
}
use rust_socks.Protocol.Socks4.{parse_socks4_request, send_socks4_response}
use rust_socks.Acl.Types.{AclDecision, allowed, blocked}
use rust_socks.Acl.Types as AclTypes
use rust_socks.Acl.Matcher.{Externals, IpAddr, addr4, addr6}
use rust_socks.Acl.Engine.{CompiledAclConfig, rule_leq, evaluate_with_groups}
use rust_socks.Acl.Stats.{record_allow, record_block}
use rust_socks.Auth.{
  System, AuthManager, get_method, supports, same_method, authenticate_client, authenticate,
}
use rust_socks.Qos.Types.{ConnectionLimits}
use rust_socks.Qos.{QosState, check_and_inc_connection}
use rust_socks.Qos.Guards.{drop_guard}
use rust_socks.Session.Types.{Uuid, SessionProtocol, SessionStatus, closed, ConnectionInfo}
use rust_socks.Session.{
  SessionManager, TrafficUpdate, new_session_with_control, update_traffic, close_session,
  track_rejected_session,
}
use rust_socks.Server.Pool.{get, put, release}
use rust_socks.Server.Pool.Types.{Connect, ReuseHint}
use rust_socks.Server.Resolver.{SocketAddr, socket_key, is_v4, resolve_address}
use rust_socks.Server.Steps.{Served, Handle, ◌>>=◌, ◌>>◌, give, talk, manage, count, pooled}

abbrev pub no_address : Address
no_address = ipv4 (0 ∷ 0 ∷ 0 ∷ 0 ∷ [])

abbrev pub is_succeeded : ReplyCode → Bool
is_succeeded succeeded = true
is_succeeded _ = false

abbrev pub octets_or_zero : Address → List ℕ
octets_or_zero (ipv4 octets) = octets
octets_or_zero _ = 0 ∷ 0 ∷ 0 ∷ 0 ∷ []

unfoldable pub send_socks_response : SocksProtocol → ReplyCode → Address → ℕ → Io (Unit {0})
send_socks_response v5 reply bind_addr bind_port = send_socks5_response reply bind_addr bind_port
send_socks_response v4 reply bind_addr bind_port =
    send_socks4_response (if is_succeeded reply then granted else rejected)
      (octets_or_zero bind_addr) (if is_succeeded reply then bind_port else 0)

-- What a connection meets: its client, the clock when it is served and when it ends, the numbers that
-- `new_v4` draws, the name service, what connecting gives and the local end of a connection, the
-- texts of `Display`, and of the code that has no model here the results: of `proxy_data`, with the
-- updates that it makes meanwhile, and of the relays of src/server/bind.rs and udp.rs.
pub record Peer (S : Type 0) : Type 0 where
  pub ip : IpAddr
  pub port : ℕ
  pub now : ℕ
  pub later : ℕ
  pub id : Uuid
  pub lookup_host : Text → ℕ → Result IoError (List SocketAddr)
  pub connecting : SocketAddr → Connect S
  pub local_addr : S → Result IoError SocketAddr
  pub address_text : Address → Text
  pub error_text : RustSocksError → Text
  pub traffic : List TrafficUpdate
  pub proxied : Result RustSocksError (Option (S × ReuseHint))
  pub bound : Outcome (Unit {0})
  pub relay : Result RustSocksError SocketAddr
  pub control : Option Bool

abbrev pub socket_address : IpAddr → Address
socket_address (addr4 octets) = ipv4 octets
socket_address (addr6 octets) = ipv6 octets

module _ {S : Type 0} (peer : Peer S) where
  abbrev pub info : Text → ℕ → SessionProtocol → ConnectionInfo
  info dest_ip dest_port session_protocol = record {
    source_ip = peer.ip;
    source_port = peer.port;
    dest_ip = dest_ip;
    dest_port = dest_port;
    protocol = session_protocol;
  }

  -- An answer without an address, and then an error.
  abbrev pub refuse : SocksProtocol → ReplyCode → RustSocksError → Handle S (Unit {0})
  refuse version reply failure =
      talk (send_socks_response version reply no_address 0) >> give (err failure)

  -- The loop over the candidates: the first that connects, or the last error.
  unfoldable pub first_upstream :
      List SocketAddr
      → Option IoError
      → Served S
      → Result (Option IoError) (S × SocketAddr) × Served S
  first_upstream [] last_err served = (Result.err last_err, served)
  first_upstream (target ∷ targets) last_err served =
      let (answer, pool) = get peer.now (peer.connecting target) target served.pool in
      let left = record served { pool = pool } in
      elim answer [
        | Result.ok stream ↦ (Result.ok (stream, target), left)
        | Result.err e ↦ first_upstream targets (some e) left
      ]

  abbrev pub last_or_other : Option IoError → IoError
  last_or_other (some e) = e
  last_or_other none = other (codes "no reachable upstream addresses")

  abbrev pub apply_all : List TrafficUpdate → SessionManager → SessionManager
  apply_all [] m = m
  apply_all (update ∷ updates) m = apply_all updates (update_traffic update m)
