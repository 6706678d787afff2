-- ===== src/Server/Handler/Sessions.antt =====
-- src/server/handler.rs: what becomes of the session and of the pooled connection of a request.
use rust_socks.Prelude.{
  ℕ, Bool, true, false, not, ◌&&◌, if◌then◌else◌, ◌≡◌, refl, inl, inr, List, [], ◌∷◌, Option, none,
  some, arith, Option-cases, ==_iff, by_branches,
}
use rust_socks.Prelude.Text.{Text, codes}
use rust_socks.Prelude.Maps.{nat_key, lookup, lookup-remove, lookup-insert}
use rust_socks.Utils.{Outcome, ok, err, panic, RustSocksError, unsupported_address_type, IoError}
use rust_socks.Utils.Result.{Result}
use rust_socks.Protocol.Types.{Address, SocksProtocol, succeeded, address_type_not_supported}
use rust_socks.Protocol.Stream.{Stream}
use rust_socks.Session.Types.{
  Uuid, ConnectionInfo, Session, SessionProtocol, SessionStatus, new_session_record,
}
use rust_socks.Session.{
  SessionManager, TrafficUpdate, new_session_with_control, update_traffic, close_session,
}
use rust_socks.Session.Invariant.{IsManager, new_session-IsManager, update_traffic-IsManager}
use rust_socks.Server.Pool.{release}
use rust_socks.Server.Pool.Types.{ReuseHint}
use rust_socks.Server.Resolver.{SocketAddr, socket_key}
use rust_socks.Server.Steps.{Served, Handle, continue, talk, give, ◌>>◌}
use rust_socks.Server.Handler.{Peer, refuse, send_socks_response, socket_address, info, apply_all}
use rust_socks.Server.Handler.Upstream.{
  is_connection_closed, needs_v4, finish, proxied_from, reply_and_proxy, connected_to,
}

lookup-close_session :
    (now : ℕ) (id : Uuid) (reason : Option Text) (status : SessionStatus) (m : SessionManager)
    → IsManager m
    → lookup id (close_session now id reason status m).active_sessions ≡ none
unfolding close_session
lookup-close_session now id reason status m h = elim (Option-cases (lookup id m.active_sessions)) [
  | inl missing ↦ ground arith
  | inr (session, found) ↦
      ground (arith, lookup-remove id id m.active_sessions h.distinct, ==_iff id id)
]

lookup-new_session :
    (id : Uuid) (now : ℕ) (user : Text) (connection : ConnectionInfo) (decision : Text)
    (rule : Option Text) (udp : Bool) (m : SessionManager)
    → lookup id
        (new_session_with_control id now user connection decision rule udp m).active_sessions
      ≡ some (new_session_record id now user connection decision rule)
unfolding new_session_with_control
lookup-new_session id now user connection decision rule udp m = ground (
  arith,
  lookup-insert id id (new_session_record id now user connection decision rule) m.active_sessions,
  ==_iff id id,
)

module _ {S : Type 0} (peer : Peer S) where
  abbrev Ended : Outcome (Unit {0}) × Served S → Type 0
  Ended (outcome, left) = lookup peer.id left.manager.active_sessions ≡ none

  finish-Ended :
      (upstream : SocketAddr) (proxied : Result RustSocksError (Option (S × ReuseHint)))
      (served : Served S)
      → IsManager served.manager
      → Ended (finish peer upstream proxied served)
  unfolding finish
  finish-Ended upstream (Result.ok (some (stream, hint))) served h =
      lookup-close_session _ _ _ _ _ h
  finish-Ended upstream (Result.ok none) served h = lookup-close_session _ _ _ _ _ h
  finish-Ended upstream (Result.err e) served h =
      let released = record served { pool = release upstream served.pool } in
      by_branches (λ (step : Handle S (Unit {0})). Ended (step released))
        (is_connection_closed peer e) (lookup-close_session _ _ _ _ _ h)
        (lookup-close_session _ _ _ _ _ h)

  apply_all-IsManager :
      (updates : List TrafficUpdate) (m : SessionManager)
      → IsManager m
      → IsManager (apply_all peer updates m)
  apply_all-IsManager [] m h = h
  apply_all-IsManager (update ∷ updates) m h =
      apply_all-IsManager updates (update_traffic update m) (update_traffic-IsManager update m h)

  -- Whether the reply that names the local end goes out.
  abbrev is_ok : Outcome (Unit {0}) → Bool
  is_ok (ok done) = true
  is_ok (err e) = false
  is_ok panic = false

  abbrev pub replies : SocksProtocol → Result IoError SocketAddr → Stream → Bool
  replies version (Result.err e) client = false
  replies version (Result.ok local) client =
      not (needs_v4 peer version local.ip)
      && is_ok (send_socks_response version succeeded (socket_address local.ip) local.port client).0

  -- The session and the connection of a request, after its upstream connection was made.
  abbrev Settled : Bool → Served S → Outcome (Unit {0}) × Served S → Type 0
  Settled true before result = Ended result
  Settled false before (outcome, left) = (left.manager ≡ before.manager) × (left.pool ≡ before.pool)

  proxied_from-Ended :
      (upstream : SocketAddr) (served : Served S)
      → IsManager served.manager
      → Ended (proxied_from peer upstream served)
  unfolding proxied_from
  proxied_from-Ended upstream served h =
      finish-Ended upstream peer.proxied
        (record served { manager = apply_all peer peer.traffic served.manager })
        (apply_all-IsManager peer.traffic served.manager h)

  sent-Settled :
      (upstream : SocketAddr) (served : Served S) (sent : Outcome (Unit {0}) × Stream)
      → IsManager served.manager
      → Settled (is_ok sent.0) served (
          continue (sent.0, record served { client = sent.1 }) (λ done. proxied_from peer upstream))
  sent-Settled upstream served (ok done, client) h =
      proxied_from-Ended upstream (record served { client = client }) h
  sent-Settled upstream served (err e, client) h = (refl, refl)
  sent-Settled upstream served (panic, client) h = (refl, refl)

  refused-Settled :
      (failure : RustSocksError) (served : Served S) (sent : Outcome (Unit {0}) × Stream)
      → Settled false served
          (continue (sent.0, record served { client = sent.1 }) (λ done. give (err failure)))
  refused-Settled failure served (ok done, client) = (refl, refl)
  refused-Settled failure served (err e, client) = (refl, refl)
  refused-Settled failure served (panic, client) = (refl, refl)

  chosen-Settled :
      (needs : Bool) (version : SocksProtocol) (upstream local : SocketAddr) (served : Served S)
      → IsManager served.manager
      → (let reply = send_socks_response version succeeded (socket_address local.ip) local.port in
          Settled (not needs && is_ok (reply served.client).0) served (
            (if needs
                then refuse peer version address_type_not_supported (unsupported_address_type 0x04)
                else (talk reply >> proxied_from peer upstream))
              served))
  chosen-Settled true version upstream local served h =
      refused-Settled (unsupported_address_type 0x04) served _
  chosen-Settled false version upstream local served h =
      sent-Settled upstream served
        (send_socks_response version succeeded (socket_address local.ip) local.port served.client) h

  reply_and_proxy-Settled :
      (version : SocksProtocol) (upstream : SocketAddr) (local : Result IoError SocketAddr)
      (served : Served S)
      → IsManager served.manager
      → Settled
          (replies version local served.client)
          served
          (reply_and_proxy peer version upstream local served)
  unfolding reply_and_proxy
  reply_and_proxy-Settled version upstream (Result.err e) served h = (refl, refl)
  reply_and_proxy-Settled version upstream (Result.ok local) served h =
      chosen-Settled (needs_v4 peer version local.ip) version upstream local served h

  Settled-lookup :
      (sent : Bool) (session : Session) (before : Served S) (result : Outcome (Unit {0}) × Served S)
      → lookup peer.id before.manager.active_sessions ≡ some session
      → Settled sent before result
      → (lookup peer.id result.1.manager.active_sessions ≡ (if sent then none else some session))
        × (if sent then Unit {0} else (result.1.pool ≡ before.pool))
  Settled-lookup true session before result e ended = (ended, tt)
  Settled-lookup false session before (outcome, left) e (same, pool) = (cc, pool)

  -- In a manager that satisfies its invariant and in which no active session has the number of the
  -- request, once an upstream connection was made: when the reply with the local end goes out, the
  -- request's session is not active at the end; otherwise it stays active as it began, and the pool is
  -- left as it was, with the connection in use.
  pub connected_to-cases :
      (version : SocksProtocol) (user : Text) (address : Address) (port : ℕ)
      (kind : SessionProtocol) (rule : Option Text) (stream : S) (upstream : SocketAddr)
      (served : Served S)
      → IsManager served.manager
      → lookup peer.id served.manager.active_sessions ≡ none
      → (let connection = info peer (peer.address_text address) port kind in
          let (outcome, left) =
            connected_to peer version user address port kind rule (stream, upstream) served in
          let sent = replies version (peer.local_addr stream) served.client in
          (lookup peer.id left.manager.active_sessions ≡ (
            if sent
            then none
            else some (new_session_record peer.id peer.now user connection (codes "allow") rule)))
          × (if sent then Unit {0} else (left.pool ≡ served.pool)))
  unfolding connected_to
  connected_to-cases version user address port kind rule stream upstream served h fresh =
      let connection = info peer (peer.address_text address) port kind in
      let m =
        new_session_with_control peer.id peer.now user connection (codes "allow") rule false
          served.manager in
      Settled-lookup (replies version (peer.local_addr stream) served.client)
        (new_session_record peer.id peer.now user connection (codes "allow") rule)
        (record served { manager = m }) _
        (lookup-new_session peer.id peer.now user connection (codes "allow") rule false
          served.manager)
        (reply_and_proxy-Settled version upstream (peer.local_addr stream)
          (record served { manager = m })
          (new_session-IsManager peer.id peer.now user connection (codes "allow") rule false
            served.manager h fresh))
