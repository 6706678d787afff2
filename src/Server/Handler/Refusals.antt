-- ===== src/Server/Handler/Refusals.antt =====
-- src/server/handler.rs: what the refusal of a request leaves.
use rust_socks.Prelude.{
  ℕ, ◌+◌, ◌-◌, ◌/◌, ◌%◌, ◌≡◌, ◌≢◌, refl, ap, true, false, if◌then◌else◌, List, [], ◌∷◌, ◌++◌,
  Option, none, some, Option-cases, inl, inr, arith,
}
use rust_socks.Prelude.Text.{Text, codes, text_eq, text_eq_iff}
use rust_socks.Prelude.Maps.{text_key, lookup, lookup-insert}
use rust_socks.Prelude.Machine.{word}
use rust_socks.Utils.{Outcome, ok}
use rust_socks.Protocol.Types.{Address, SocksProtocol, v4, v5, connection_not_allowed}
use rust_socks.Protocol.Stream.{Stream, write_all, flush}
use rust_socks.Protocol.Socks5.{send_socks5_response, check_domain, address_bytes}
use rust_socks.Protocol.Socks4.{send_socks4_response}
use rust_socks.Acl.Stats.{AclStats, UserAclStats, block_one, record_block, user_snapshot}
use rust_socks.Session.Types.{Session, SessionProtocol, rejected_by_acl}
use rust_socks.Session.{track_rejected_session}
use rust_socks.Server.Steps.{Served}
use rust_socks.Server.Handler.{Peer, no_address, send_socks_response, info}

-- The reply on the wire that a connection is not allowed: code 2 of SOCKS5 and code 0x5b of SOCKS4,
-- with an address and a port of zeros.
abbrev pub refusal_bytes : SocksProtocol → List ℕ
refusal_bytes v5 = 5 ∷ 2 ∷ 0 ∷ 1 ∷ 0 ∷ 0 ∷ 0 ∷ 0 ∷ 0 ∷ 0 ∷ []
refusal_bytes v4 = 0 ∷ 0x5b ∷ 0 ∷ 0 ∷ 0 ∷ 0 ∷ 0 ∷ 0 ∷ []

-- A client that is there gets the bytes, behind what it got before; of one that has gone an error
-- comes back. Nothing is read.
abbrev pub IsTold : List ℕ → Stream → Outcome (Unit {0}) → Stream → Type 0
IsTold bytes before outcome after =
    (before.broken ≡ false
      → (outcome ≡ ok tt) × (after ≡ record before { output = before.output ++ bytes }))
    × (before.broken ≡ true → (outcome ≢ ok tt) × (after ≡ before))

send_socks_response-IsTold :
    (version : SocksProtocol) (stream : Stream)
    → (let (outcome, after) =
          send_socks_response version connection_not_allowed no_address 0 stream in
        IsTold (refusal_bytes version) stream outcome after)
unfolding send_socks_response send_socks5_response send_socks4_response check_domain address_bytes
    write_all flush
send_socks_response-IsTold v5 stream =
    (λ up. (ground arith, ground arith), λ gone. (ground arith, ground arith))
send_socks_response-IsTold v4 stream =
    (λ up. (ground arith, ground arith), λ gone. (ground arith, ground arith))

abbrev blocked_count : Option UserAclStats → ℕ
blocked_count none = 0
blocked_count (some counts) = counts.blocked

abbrev allowed_count : Option UserAclStats → ℕ
allowed_count none = 0
allowed_count (some counts) = counts.allowed

-- One more block is counted, in all and for the user, and no other count changes.
pub record IsBlockCounted (user : Text) (before after : AclStats) : Type 0 where
  pub blocked : after.total_blocked ≡ (before.total_blocked + 1) % word
  pub allowed : after.total_allowed ≡ before.total_allowed
  pub user_blocked :
      (u : Text)
      → blocked_count (user_snapshot u after) ≡ (
          if text_eq user u
          then (blocked_count (user_snapshot u before) + 1) % word
          else blocked_count (user_snapshot u before))
  pub user_allowed :
      (u : Text) → allowed_count (user_snapshot u after) ≡ allowed_count (user_snapshot u before)

record_block-IsBlockCounted :
    (user : Text) (stats : AclStats) → IsBlockCounted user stats (record_block user stats)
unfolding record_block user_snapshot
record_block-IsBlockCounted user stats =
    let inserted =
      λ (u : Text). lookup-insert user u (block_one (lookup user stats.per_user)) stats.per_user in
    elim (Option-cases (lookup user stats.per_user)) [
      | inl missing ↦ record {
        blocked = refl;
        allowed = refl;
        user_blocked = λ u. ground (arith, inserted u, text_eq_iff user u);
        user_allowed = λ u. ground (arith, inserted u, text_eq_iff user u);
      }
      | inr (old, found) ↦ record {
        blocked = refl;
        allowed = refl;
        user_blocked = λ u. ground (arith, inserted u, text_eq_iff user u);
        user_allowed = λ u. ground (arith, inserted u, text_eq_iff user u);
      }
    ]

module _ {S : Type 0} (peer : Peer S) (version : SocksProtocol) (user : Text) (address : Address)
    (port : ℕ) (kind : SessionProtocol) (rule : Option Text) where
  -- The session of a request that was refused: it begins and ends at once, and carries nothing.
  abbrev pub rejected_session : Session
  rejected_session = record {
    session_id = peer.id;
    user = user;
    start_time = peer.now;
    end_time = some peer.now;
    duration_secs = some 0;
    source_ip = peer.ip;
    source_port = peer.port;
    dest_ip = peer.address_text address;
    dest_port = port;
    protocol = kind;
    bytes_sent = 0;
    bytes_received = 0;
    packets_sent = 0;
    packets_received = 0;
    status = rejected_by_acl;
    close_reason = some (codes "Rejected by ACL");
    acl_rule_matched = rule;
    acl_decision = codes "block";
  }

  -- What a refusal leaves: it is counted, its session stands behind those rejected before and is not
  -- among the others, the pool is as it was, and the client is told, with the rest of its stream
  -- behind the request as it was.
  pub record IsRefused (stream : Stream) (before : Served S)
      (result : Outcome (Unit {0}) × Served S) : Type 0 where
    pub stats : IsBlockCounted user before.stats result.1.stats
    pub rejected :
        result.1.manager.rejected_sessions
        ≡ before.manager.rejected_sessions ++ rejected_session ∷ []
    pub active : result.1.manager.active_sessions ≡ before.manager.active_sessions
    pub closed : result.1.manager.closed_sessions ≡ before.manager.closed_sessions
    pub controls : result.1.manager.session_controls ≡ before.manager.session_controls
    pub pool : result.1.pool ≡ before.pool
    pub told : IsTold (refusal_bytes version) stream result.0 result.1.client

  -- The state in which a request that was refused is answered.
  abbrev pub refused_state : Stream → Served S → Served S
  refused_state stream before = record before {
    client = stream;
    stats = record_block user before.stats;
    manager =
        track_rejected_session peer.id peer.now user
          (info peer (peer.address_text address) port kind) rule before.manager;
  }

  pub refused_state-IsRefused :
      (stream : Stream) (before : Served S)
      → (let sent = send_socks_response version connection_not_allowed no_address 0 stream in
          IsRefused stream before
            (sent.0, record (refused_state stream before) { client = sent.1 }))
  unfolding track_rejected_session
  refused_state-IsRefused stream before =
      let at_once : (peer.now - peer.now) / 1000000000 ≡ 0 = omega arith in
      record {
        stats = record_block-IsBlockCounted user before.stats;
        rejected =
            ap
              (λ d.
                before.manager.rejected_sessions
                ++ record rejected_session { duration_secs = some d } ∷ [])
              at_once;
        active = refl;
        closed = refl;
        controls = refl;
        pool = refl;
        told = send_socks_response-IsTold version stream;
      }
