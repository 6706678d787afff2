-- ===== src/Server/Handler/Effects.antt =====
-- src/server/handler.rs: what a connection leaves behind in the counts, the sessions and the pool.
use rust_socks.Prelude.{
  ℕ, ◌<◌, ◌≡◌, refl, sym, subst, inl, inr, Bool-cases, leb, ◌==◌, by_branches, arith,
}
use rust_socks.Prelude.Text.{Text, text_eq_refl, text_eq_iff}
use rust_socks.Prelude.Machine.{word}
use rust_socks.Prelude.Sort.{UnstableSort}
use rust_socks.Utils.{Outcome, ok, err, panic, RustSocksError}
use rust_socks.Utils.Result.{Result, Result-cases}
use rust_socks.Acl.Matcher.{Externals}
use rust_socks.Acl.Engine.{rule_leq}
use rust_socks.Auth.{System}
use rust_socks.Qos.Types.{ConnectionLimits}
use rust_socks.Qos.Htb.{
  HtbQos, inc_user_connections, dec_user_connections, get_user_connections, stop,
}
use rust_socks.Qos.Htb.Counts.{inc-IsCountedAs, dec-IsCountedAs}
use rust_socks.Qos.{
  QosEngine, disabled, htb, QosState, check_and_inc_connection, dec_user_connection, drop_engine,
  engine_get_user_connections, engine_get_total_connections,
}
use rust_socks.Qos.Guards.{drop_guard}
use rust_socks.Protocol.Types.{SocksProtocol, v4, v5, socks_version, socks4_version}
use rust_socks.Server.Steps.{Served, Handle}
use rust_socks.Server.Handler.{Peer}
use rust_socks.Server.Handler.Requests.{
  ClientContext, by_answer, first_byte, under_limits, after_handshake, handle_socks5, handle_socks4,
  by_version, handle_client, handshake_socks5, handshake_socks4, serve_socks5, serve_socks4,
  user_of,
}

-- The counts of an engine are those of another, for all and for each user.
pub record SameConnections (before after : QosEngine) : Type 0 where
  pub total : engine_get_total_connections after ≡ engine_get_total_connections before
  pub users :
      (u : Text) → engine_get_user_connections u after ≡ engine_get_user_connections u before

SameConnections-refl : (engine : QosEngine) → SameConnections engine engine
SameConnections-refl engine = record { total = refl; users = λ u. refl }

get_user_connections-stop :
    (u : Text) (h : HtbQos) → get_user_connections u (stop h) ≡ get_user_connections u h
unfolding get_user_connections
get_user_connections-stop u h = refl

-- An admission that succeeds, and the guard dropped after it.
admitted_back :
    (now : ℕ) (user : Text) (limits : ConnectionLimits) (engine : QosEngine) (gauge n : ℕ)
    → limits.max_connections_global < word
    → limits.max_connections_per_user < word
    → (check_and_inc_connection now user limits
        (record { engine = engine; active_qos_users = gauge })).0
      ≡ Result.ok n
    → SameConnections engine
        (drop_guard user
          (check_and_inc_connection now user limits
            (record { engine = engine; active_qos_users = gauge })).1).engine
unfolding check_and_inc_connection drop_guard dec_user_connection drop_engine
    engine_get_user_connections engine_get_total_connections
admitted_back now user limits disabled gauge n g p e = record { total = refl; users = λ u. refl }
admitted_back now user limits (htb h) gauge n g p e =
    let (answer, after) = inc_user_connections now user h in
    elim (Bool-cases (leb limits.max_connections_global h.total_connections)) [
      | inl full ↦ cc
      | inr free ↦
          elim (Bool-cases (leb limits.max_connections_per_user (get_user_connections user h))) [
            | inl full ↦ ground arith
            | inr room ↦
                let (given, added, counted) = inc-IsCountedAs now user h in
                let (rest, taken, uncounted) =
                  dec-IsCountedAs user after
                    (λ z. ground (arith, counted.counts user, text_eq_refl user)) in
                subst (SameConnections (htb h)) {x = htb (stop (dec_user_connections user after).1)}
                  (ground arith)
                  (record {
                    total = ground (arith, added, taken);
                    users = λ u. ground (
                      arith,
                      get_user_connections-stop u (dec_user_connections user after).1,
                      counted.counts u,
                      counted.counts user,
                      uncounted.counts u,
                      text_eq_refl user,
                      text_eq_iff user u,
                    );
                  })
          ]
    ]

-- An admission that is refused.
refused_same :
    (now : ℕ) (user : Text) (limits : ConnectionLimits) (engine : QosEngine) (gauge : ℕ)
    (e : RustSocksError)
    → (check_and_inc_connection now user limits
        (record { engine = engine; active_qos_users = gauge })).0
      ≡ Result.err e
    → SameConnections engine
        (check_and_inc_connection now user limits
          (record { engine = engine; active_qos_users = gauge })).1.engine
unfolding check_and_inc_connection
refused_same now user limits disabled gauge e is = SameConnections-refl disabled
refused_same now user limits (htb h) gauge e is =
    elim (Bool-cases (leb limits.max_connections_global h.total_connections)) [
      | inl full ↦
          subst (SameConnections (htb h)) {x = htb h} (ground arith) (SameConnections-refl (htb h))
      | inr free ↦
          elim (Bool-cases (leb limits.max_connections_per_user (get_user_connections user h))) [
            | inl full ↦
                subst (SameConnections (htb h)) {x = htb h} (ground arith)
                  (SameConnections-refl (htb h))
            | inr room ↦ absurd (ground arith)
          ]
    ]

module _ {S : Type 0} (ext : Externals) (unstable : UnstableSort rule_leq) (system : System)
    (ctx : ClientContext) (peer : Peer S)
    (global_limit : ctx.connection_limits.max_connections_global < word)
    (user_limit : ctx.connection_limits.max_connections_per_user < word) where
  abbrev SameAfter : QosState → Outcome (Unit {0}) × (QosState × Served S) → Type 0
  SameAfter qos (outcome, (after, left)) = SameConnections qos.engine after.engine

  under_limits-SameAfter :
      (version : SocksProtocol) (user : Text) (serve : Handle S (Unit {0})) (qos : QosState)
      (served : Served S)
      → SameAfter qos (under_limits ext unstable system ctx peer version user serve (qos, served))
  unfolding under_limits
  under_limits-SameAfter version user serve qos served =
      let (answer, counted) = check_and_inc_connection peer.now user ctx.connection_limits qos in
      let step = by_answer ext unstable system ctx peer version user serve served counted in
      elim (Result-cases answer) [
        | inl (n, is) ↦
            subst (λ a. SameAfter qos (step a)) (sym is)
              (admitted_back peer.now user ctx.connection_limits qos.engine qos.active_qos_users n
                global_limit user_limit is)
        | inr (e, is) ↦
            subst (λ a. SameAfter qos (step a)) (sym is)
              (refused_same peer.now user ctx.connection_limits qos.engine qos.active_qos_users e
                is)
      ]

  after_handshake-SameAfter {ℓ} :
      {A : Type ℓ} (shaken : Outcome A × Served S) (qos : QosState)
      (next : A → QosState × Served S → Outcome (Unit {0}) × (QosState × Served S))
      → ((a : A) (served : Served S) → SameAfter qos (next a (qos, served)))
      → SameAfter qos (after_handshake ext unstable system ctx peer shaken qos next)
  after_handshake-SameAfter (ok a, served) qos next h = h a served
  after_handshake-SameAfter (err e, served) qos next h = SameConnections-refl qos.engine
  after_handshake-SameAfter (panic, served) qos next h = SameConnections-refl qos.engine

  by_version-SameAfter :
      (version : ℕ) (qos : QosState) (served : Served S)
      → SameAfter qos (by_version ext unstable system ctx peer version (qos, served))
  unfolding handle_socks5 handle_socks4
  by_version-SameAfter version qos served =
      by_branches (SameAfter qos) (version == socks_version)
        (after_handshake-SameAfter (handshake_socks5 ext unstable system ctx peer version served)
          qos _
          (λ a.
            under_limits-SameAfter v5 a.0 (serve_socks5 ext unstable system ctx peer a.0 a.1) qos))
        (by_branches (SameAfter qos) (version == socks4_version)
          (after_handshake-SameAfter (handshake_socks4 ext unstable system ctx peer served) qos _
            (λ a.
              under_limits-SameAfter v4 (user_of ext unstable system ctx peer a.1.user_id)
                (serve_socks4 ext unstable system ctx peer
                  (user_of ext unstable system ctx peer a.1.user_id) a.0 a.1)
                qos))
          (SameConnections-refl qos.engine))

  -- With limits that a counter can hold: when a connection has been handled, whatever came of it,
  -- the engine counts as many connections as before, in all and for each user.
  pub handle_client-SameConnections :
      (qos : QosState) (served : Served S)
      → SameConnections qos.engine
          (handle_client ext unstable system ctx peer (qos, served)).1.0.engine
  unfolding handle_client
  handle_client-SameConnections qos served =
      after_handshake-SameAfter (first_byte ext unstable system ctx peer served) qos _
        (λ version. by_version-SameAfter version qos)
