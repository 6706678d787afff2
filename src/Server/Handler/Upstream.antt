-- ===== src/Server/Handler/Upstream.antt =====
-- src/server/handler.rs: `handle_connect` and `handle_udp_associate`, from the reply to the end.
use rust_socks.Prelude.{
  ℕ, Bool, true, false, not, if◌then◌else◌, List, [], ◌∷◌, ◌++◌, Option, none, some,
}
use rust_socks.Prelude.Text.{Text, codes}
use rust_socks.Utils.{
  ok, err, RustSocksError, io, protocol, connection_closed, unsupported_address_type, IoError,
  socks4_requires_ipv4,
}
use rust_socks.Utils.Result.{Result}
use rust_socks.Protocol.Types.{
  Address, succeeded, general_failure, host_unreachable, address_type_not_supported, SocksProtocol,
  v4, v5,
}
use rust_socks.Protocol.Socks5.{send_socks5_response}
use rust_socks.Acl.Matcher.{IpAddr}
use rust_socks.Session.Types.{SessionProtocol, SessionStatus, closed}
use rust_socks.Session.{udp_stopped, new_session_with_control, close_session}
use rust_socks.Server.Pool.{put, release}
use rust_socks.Server.Pool.Types.{ReuseHint}
use rust_socks.Server.Resolver.{SocketAddr, socket_key, is_v4, resolve_address}
use rust_socks.Server.Steps.{Handle, ◌>>◌, give, talk, manage, pooled}
use rust_socks.Server.Handler.{
  Peer, no_address, socket_address, send_socks_response, info, refuse, first_upstream,
  last_or_other, apply_all,
}

module _ {S : Type 0} (peer : Peer S) where
  -- The host of the destination as a session has it.
  abbrev pub dest_host : Address → Text
  dest_host address = peer.address_text address

  abbrev pub v4_only : List SocketAddr → List SocketAddr
  v4_only [] = []
  v4_only (target ∷ targets) =
      let rest = v4_only targets in if is_v4 target.ip then target ∷ rest else rest

  abbrev pub for_protocol : SocksProtocol → List SocketAddr → List SocketAddr
  for_protocol v4 candidates = v4_only candidates
  for_protocol v5 candidates = candidates

  abbrev pub needs_v4 : SocksProtocol → IpAddr → Bool
  needs_v4 v4 ip = not (is_v4 ip)
  needs_v4 v5 ip = false

  abbrev pub is_connection_closed : RustSocksError → Bool
  is_connection_closed connection_closed = true
  is_connection_closed _ = false

  -- The end of `handle_connect`, after `proxy_data`.
  unfoldable pub finish :
      SocketAddr → Result RustSocksError (Option (S × ReuseHint)) → Handle S (Unit {0})
  finish upstream (Result.ok (some (stream, hint))) = do
    pooled (put peer.later upstream stream hint)
    manage (close_session peer.later peer.id (some (codes "Connection closed normally")) closed)
  finish upstream (Result.ok none) = do
    pooled (release upstream)
    manage (close_session peer.later peer.id (some (codes "Connection closed normally")) closed)
  finish upstream (Result.err failure) = do
    pooled (release upstream)
    if is_connection_closed failure
        then manage
            (close_session peer.later peer.id (some (codes "Connection closed by client")) closed)
        else (do
          manage (
              close_session peer.later peer.id
                (some (codes "Proxy error: " ++ peer.error_text failure)) SessionStatus.failed)
          give (err failure))

  unfoldable pub proxied_from : SocketAddr → Handle S (Unit {0})
  proxied_from upstream = do manage (apply_all peer peer.traffic); finish upstream peer.proxied

  -- The reply that names the local end of the upstream connection.
  unfoldable pub reply_and_proxy :
      SocksProtocol → SocketAddr → Result IoError SocketAddr → Handle S (Unit {0})
  reply_and_proxy version upstream (Result.err e) = give (err (io e))
  reply_and_proxy version upstream (Result.ok local) =
      if needs_v4 version local.ip
      then refuse peer version address_type_not_supported (unsupported_address_type 0x04)
      else (do
        talk (send_socks_response version succeeded (socket_address local.ip) local.port)
        proxied_from upstream)

  unfoldable pub connected_to :
      SocksProtocol
      → Text
      → Address
      → ℕ
      → SessionProtocol
      → Option Text
      → S × SocketAddr
      → Handle S (Unit {0})
  connected_to version user address port session_protocol acl_rule (stream, upstream) = do
    manage (
        new_session_with_control peer.id peer.now user
          (info peer (dest_host address) port session_protocol) (codes "allow") acl_rule false)
    reply_and_proxy version upstream (peer.local_addr stream)

  unfoldable pub try_candidates :
      SocksProtocol
      → Text
      → Address
      → ℕ
      → SessionProtocol
      → Option Text
      → List SocketAddr
      → Handle S (Unit {0})
  try_candidates version user address port session_protocol acl_rule candidates served =
      let (found, left) = first_upstream peer candidates none served in
      elim found [
        | Result.err last_err ↦
            refuse peer version host_unreachable (io (last_or_other peer last_err)) left
        | Result.ok upstream ↦
            connected_to version user address port session_protocol acl_rule upstream left
      ]

  abbrev pub wants_v4 : SocksProtocol → List SocketAddr → Bool
  wants_v4 v4 [] = true
  wants_v4 _ _ = false

  unfoldable pub handle_connect :
      SocksProtocol → Text → Address → ℕ → SessionProtocol → Option Text → Handle S (Unit {0})
  handle_connect version user address port session_protocol acl_rule =
      elim (resolve_address peer.lookup_host address port) [
        | Result.err e ↦ refuse peer version host_unreachable e
        | Result.ok found ↦
            let candidates = for_protocol version found in
            if wants_v4 version candidates
            then refuse peer version host_unreachable (protocol socks4_requires_ipv4)
            else try_candidates version user address port session_protocol acl_rule candidates
      ]

  -- What is read from the control connection: nothing or an error, some data, or else the token of
  -- the session is cancelled first.
  unfoldable pub watch_control : Option Bool → Handle S (Unit {0})
  watch_control (some true) = do
    manage (λ m. record m { signals = m.signals ++ udp_stopped peer.id ∷ [] })
    manage (close_session peer.later peer.id (some (codes "TCP control connection closed")) closed)
  watch_control (some false) = give (ok tt)
  watch_control none = give (ok tt)

  unfoldable pub handle_udp_associate : Text → Option Text → Handle S (Unit {0})
  handle_udp_associate user acl_rule =
      manage (
        new_session_with_control peer.id peer.now user
          (info peer (codes "0.0.0.0") 0 SessionProtocol.udp) (codes "allow") acl_rule true)
      >> elim peer.relay [
        | Result.err e ↦ do
          talk (send_socks5_response general_failure no_address 0)
          manage (
              close_session peer.now peer.id
                (some (codes "UDP relay start failed: " ++ peer.error_text e)) SessionStatus.failed)
          give (err e)
        | Result.ok relay ↦ do
          talk (send_socks5_response succeeded (socket_address relay.ip) relay.port)
          watch_control peer.control
      ]
